-- ===== src/Metadata/Layout.antt =====
-- The structures of nexus_metadata.rs and nexus_metadata_content.rs, and what nexus_metadata.rs uses
-- of bincode, crc and std, which enters as a parameter.
use co_create_openebs.Label.Layout.{GptEntry, LabelError, get_blocks}
use co_create_openebs.Label.Format.{Buffer, Codec}
use co_create_openebs.Label.Disk.{LabelDevice}
use co_create_openebs.Prelude.{
  ℕ, List, [], ◌∷◌, String, Option, Result, add_u64, sub_u64, ◌+◌, ◌*◌, suc, zero,
}

pub record NexusConfigVersion1 : Type 0 where
  pub name : String
  pub tags : List String
  pub revision : ℕ
  pub checksum : ℕ
  pub content : String

pub record NexusConfigVersion2 : Type 0 where
  pub name : String
  pub tags : List String
  pub revision : ℕ
  pub checksum : ℕ
  pub content : String
  pub count : ℕ

pub record NexusConfigVersion3 : Type 0 where
  pub name : String
  pub revision : ℕ
  pub checksum : ℕ
  pub content : List String

-- The map of a `version4` is the list of its pairs in the order in which they are written.
pub data NexusConfig : Type 0 where
  version1 : NexusConfigVersion1 → NexusConfig
  version2 : NexusConfigVersion2 → NexusConfig
  version3 : NexusConfigVersion3 → NexusConfig
  version4 : List (String × String) → NexusConfig

-- A `source` of another component is a number, but that of a label; names are left out. `panicked`
-- stands for a panic, where an index is out of the bounds of its vector.
pub data MetaDataError : Type 0 where
  nexus_child_error read_error write_error read_alloc write_alloc : (source : ℕ) → MetaDataError
  probe_label_error : (source : LabelError) → MetaDataError
  serialize_error deserialize_error : MetaDataError
  header_size : (actual_size expected_size : ℕ) → MetaDataError
  header_signature header_checksum index_checksum object_checksum : MetaDataError
  index_inconsistent : MetaDataError
  index_out_of_range : (selected used : ℕ) → MetaDataError
  index_size_exceeded : (used size : ℕ) → MetaDataError
  partition_size_exceeded missing_partition : MetaDataError
  timestamp_error : (source : ℕ) → MetaDataError
  panicked : MetaDataError

pub record MetaDataHeader : Type 0 where
  pub signature : List ℕ
  pub header_size : ℕ
  pub self_checksum : ℕ
  pub generation : ℕ
  pub self_lba : ℕ
  pub index_start : ℕ
  pub used_entries : ℕ
  pub max_entries : ℕ
  pub entry_size : ℕ
  pub index_checksum : ℕ
  pub data_start : ℕ
  pub data_end : ℕ

pub record MetaDataIndexEntry : Type 0 where
  pub revision : ℕ
  pub timestamp : ℕ
  pub data_checksum : ℕ
  pub data_start : ℕ
  pub data_end : ℕ

pub record NexusMetaData : Type 0 where
  pub header : MetaDataHeader
  pub index : List MetaDataIndexEntry

-- `duration_since(UNIX_EPOCH)` of a time, in microseconds.
abbrev pub SystemTime : Type 0
SystemTime = Result ℕ ℕ

-- `serialize` and `deserialize_from` at these types; reading takes the bytes from the cursor on, and
-- of an index entry gives those behind it. `serialized_size` is the length of what is written.
pub record MetaCodec : Type 0 where
  pub serialize_meta : MetaDataHeader → List ℕ
  pub deserialize_meta : List ℕ → Option MetaDataHeader
  pub serialize_index : MetaDataIndexEntry → List ℕ
  pub deserialize_index : List ℕ → Option (MetaDataIndexEntry × List ℕ)
  pub serialize_config : NexusConfig → List ℕ
  pub deserialize_config : List ℕ → Option NexusConfig
  pub checksum_ieee : List ℕ → ℕ
  pub label : Codec

-- A child: its device, and the error of `get_dev` if there is one.
pub record MetaChild : Type 0 where
  pub get_dev_fails : Option ℕ
  pub device : LabelDevice

abbrev pub metadata_header_size : ℕ
metadata_header_size = 72

abbrev pub max_index_entries : ℕ
max_index_entries = 32

abbrev pub index_entry_size : ℕ
index_entry_size = 44

abbrev pub maya_data : List ℕ
maya_data = 0x4d ∷ 0x61 ∷ 0x79 ∷ 0x61 ∷ 0x44 ∷ 0x61 ∷ 0x74 ∷ 0x61 ∷ []

-- `MetaDataHeader::new`.
unfoldable pub new_metadata_header : (block_size : ℕ) → GptEntry → MetaDataHeader
new_metadata_header block_size partition =
    let index_start = get_blocks metadata_header_size block_size in
    let data_start = index_start + get_blocks (max_index_entries * index_entry_size) block_size in
    record {
      signature = maya_data;
      header_size = metadata_header_size;
      self_checksum = 0;
      generation = 0;
      self_lba = add_u64 partition.ent_start 1;
      index_start = index_start;
      used_entries = 0;
      max_entries = max_index_entries;
      entry_size = index_entry_size;
      index_checksum = 0;
      data_start = data_start;
      data_end = sub_u64 (sub_u64 partition.ent_end partition.ent_start) 1;
    }

-- `as_slice` of a buffer.
abbrev pub bytes_from : (ℕ → ℕ) → (pos len : ℕ) → List ℕ
bytes_from f pos zero = []
bytes_from f pos (suc n) = f pos ∷ bytes_from f (suc pos) n

abbrev pub as_slice : Buffer → List ℕ
as_slice buf = bytes_from buf.byte 0 buf.len
