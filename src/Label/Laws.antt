-- ===== src/Label/Laws.antt =====
-- What the label code relies on of the crates bincode, crc32 and of std: a value that fits its type
-- is written with a fixed length, and is read back from wherever its bytes stand.
use co_create_openebs.Label.Bytes.{Agrees}
use co_create_openebs.Label.Format.{EntryFields, Codec, name_units, Buffer}
use co_create_openebs.Label.Layout.{Pmbr, GptGuid, GptHeader, MbrEntry}
use co_create_openebs.Prelude.{
  ℕ, List, String, ◌<◌, length, u64_mod, u32_mod, ◌≡◌, All, ◌+◌, ◌≤◌, some,
}

abbrev pub IsBytes : ℕ → List ℕ → Type 0
IsBytes n xs = (length xs ≡ n) × All (λ b. b < 256) xs

pub record IsGuid (g : GptGuid) : Type 0 where
  pub low : g.time_low < u32_mod
  pub mid : g.time_mid < 65536
  pub high : g.time_high < 65536
  pub node : IsBytes 8 g.node

pub record IsHeader (h : GptHeader) : Type 0 where
  pub signature : IsBytes 8 h.signature
  pub revision : IsBytes 4 h.revision
  pub header_size : h.header_size < u32_mod
  pub checksum : h.self_checksum < u32_mod
  pub reserved : IsBytes 4 h.reserved
  pub self_ : h.lba_self < u64_mod
  pub alt : h.lba_alt < u64_mod
  pub start : h.lba_start < u64_mod
  pub end_ : h.lba_end < u64_mod
  pub guid : IsGuid h.guid
  pub table : h.lba_table < u64_mod
  pub entries : h.num_entries < u32_mod
  pub entry : h.entry_size < u32_mod
  pub crc : h.table_crc < u32_mod

pub record IsFields (e : EntryFields) : Type 0 where
  pub type_ : IsGuid e.ent_type
  pub guid : IsGuid e.ent_guid
  pub start : e.ent_start < u64_mod
  pub end_ : e.ent_end < u64_mod
  pub attr : e.ent_attr < u64_mod

pub record IsMbrEntry (e : MbrEntry) : Type 0 where
  pub attributes : e.attributes < 256
  pub chs_start : IsBytes 3 e.chs_start
  pub type_ : e.ent_type < 256
  pub chs_last : IsBytes 3 e.chs_last
  pub start : e.lba_start < u32_mod
  pub sectors : e.num_sectors < u32_mod

pub record IsPmbr (m : Pmbr) : Type 0 where
  pub disk : m.disk_signature < u32_mod
  pub reserved : m.reserved < 65536
  pub entry : IsMbrEntry m.entry
  pub others : (length m.others ≡ 3) × All IsMbrEntry m.others
  pub signature : IsBytes 2 m.signature

-- A name that fits its place with a zero behind it, and that UTF-16 keeps.
pub record IsName (c : Codec) (name : String) : Type 0 where
  pub short : length (c.encode_utf16 name) < name_units
  pub units : All (λ u. (0 < u) × (u < 65536)) (c.encode_utf16 name)
  pub kept : c.from_utf16_lossy (c.encode_utf16 name) ≡ name

pub record IsCodec (c : Codec) : Type 0 where
  pub mbr_len : (m : Pmbr) → IsPmbr m → length (c.serialize_mbr m) ≡ 72
  pub mbr_read :
      (buf : Buffer) (pos : ℕ) (m : Pmbr)
      → IsPmbr m
      → pos + 72 ≤ buf.len
      → Agrees buf.byte pos (c.serialize_mbr m)
      → c.deserialize_mbr buf pos ≡ some (m, pos + 72)
  pub header_len : (h : GptHeader) → IsHeader h → length (c.serialize_header h) ≡ 92
  pub header_read :
      (buf : Buffer) (pos : ℕ) (h : GptHeader)
      → IsHeader h
      → pos + 92 ≤ buf.len
      → Agrees buf.byte pos (c.serialize_header h)
      → c.deserialize_header buf pos ≡ some (h, pos + 92)
  pub fields_len : (e : EntryFields) → IsFields e → length (c.serialize_fields e) ≡ 56
  pub fields_read :
      (buf : Buffer) (pos : ℕ) (e : EntryFields)
      → IsFields e
      → pos + 56 ≤ buf.len
      → Agrees buf.byte pos (c.serialize_fields e)
      → c.deserialize_fields buf pos ≡ some (e, pos + 56)
  pub u16_len : (u : ℕ) → length (c.serialize_u16 u) ≡ 2
  pub u16_read :
      (buf : Buffer) (pos u : ℕ)
      → u < 65536
      → pos + 2 ≤ buf.len
      → Agrees buf.byte pos (c.serialize_u16 u)
      → c.deserialize_u16 buf pos ≡ some (u, pos + 2)
  pub crc : (bytes : List ℕ) → c.checksum_ieee bytes < u32_mod
  pub meta_name : IsName c "MayaMeta"
  pub data_name : IsName c "MayaData"
