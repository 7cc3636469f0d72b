-- ===== src/Metadata/Laws.antt =====
-- What nexus_metadata.rs relies on of bincode and crc: a value that fits its type is written with a
-- fixed length and is read back from the start of its bytes.
use co_create_openebs.Metadata.Layout.{MetaCodec, MetaDataHeader, MetaDataIndexEntry, NexusConfig}
use co_create_openebs.Prelude.{ℕ, ◌<◌, length, u64_mod, ◌≡◌, List, ◌++◌, u32_mod, All, some, []}

abbrev pub u128_mod : ℕ
u128_mod = 340_282_366_920_938_463_463_374_607_431_768_211_456

pub record FitsHeader (h : MetaDataHeader) : Type 0 where
  pub signature : (length h.signature ≡ 8) × All (λ b. b < 256) h.signature
  pub size : h.header_size < u32_mod
  pub checksum : h.self_checksum < u32_mod
  pub generation : h.generation < u64_mod
  pub self_ : h.self_lba < u64_mod
  pub start : h.index_start < u64_mod
  pub used : h.used_entries < u32_mod
  pub max : h.max_entries < u32_mod
  pub entry : h.entry_size < u32_mod
  pub index_checksum : h.index_checksum < u32_mod
  pub data_start : h.data_start < u64_mod
  pub data_end : h.data_end < u64_mod

pub record FitsEntry (e : MetaDataIndexEntry) : Type 0 where
  pub revision : e.revision < u64_mod
  pub timestamp : e.timestamp < u128_mod
  pub checksum : e.data_checksum < u32_mod
  pub start : e.data_start < u64_mod
  pub end_ : e.data_end < u64_mod

pub record IsMetaCodec (m : MetaCodec) : Type 0 where
  pub header_len : (h : MetaDataHeader) → FitsHeader h → length (m.serialize_meta h) ≡ 72
  pub header_read :
      (h : MetaDataHeader) (rest : List ℕ)
      → FitsHeader h
      → m.deserialize_meta (m.serialize_meta h ++ rest) ≡ some h
  pub entry_len : (e : MetaDataIndexEntry) → FitsEntry e → length (m.serialize_index e) ≡ 44
  pub entry_read :
      (e : MetaDataIndexEntry) (rest : List ℕ)
      → FitsEntry e
      → m.deserialize_index (m.serialize_index e ++ rest) ≡ some (e, rest)
  pub crc : (bytes : List ℕ) → m.checksum_ieee bytes < u32_mod
  pub crc_nothing : m.checksum_ieee [] ≡ 0

-- An object that fits its type: it is not written as nothing, and is read back.
pub record IsReadable (m : MetaCodec) (config : NexusConfig) : Type 0 where
  pub some_bytes : 0 < length (m.serialize_config config)
  pub read_back :
      (rest : List ℕ) → m.deserialize_config (m.serialize_config config ++ rest) ≡ some config
