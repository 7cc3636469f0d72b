-- ===== src/Label/Layout.antt =====
-- The parts of a label, and their places on the device: the structures of nexus_label.rs, `Aligned`,
-- `GptHeader::new` and `reference`, `MbrEntry::protect`, and the partitions of a nexus.
use co_create_openebs.Prelude.{
  ℕ, Result, List, String, ◌∷◌, ◌/◌, if◌then◌else◌, sub_u64, [], ◌%◌, add_u64, ltb, ◌==◌, u32_mod,
  err, ◌+◌, ok, min,
}

unfoldable pub get_blocks : (size block_size : ℕ) → ℕ
get_blocks size block_size =
    if size % block_size == 0 then size / block_size else size / block_size + 1

-- A fixed array of bytes is the list of them.
pub record GptGuid : Type 0 where
  pub time_low : ℕ
  pub time_mid : ℕ
  pub time_high : ℕ
  pub node : List ℕ

pub record GptHeader : Type 0 where
  pub signature : List ℕ
  pub revision : List ℕ
  pub header_size : ℕ
  pub self_checksum : ℕ
  pub reserved : List ℕ
  pub lba_self : ℕ
  pub lba_alt : ℕ
  pub lba_start : ℕ
  pub lba_end : ℕ
  pub guid : GptGuid
  pub lba_table : ℕ
  pub num_entries : ℕ
  pub entry_size : ℕ
  pub table_crc : ℕ

pub record GptEntry : Type 0 where
  pub ent_type : GptGuid
  pub ent_guid : GptGuid
  pub ent_start : ℕ
  pub ent_end : ℕ
  pub ent_attr : ℕ
  pub ent_name : String

pub record MbrEntry : Type 0 where
  pub attributes : ℕ
  pub chs_start : List ℕ
  pub ent_type : ℕ
  pub chs_last : List ℕ
  pub lba_start : ℕ
  pub num_sectors : ℕ

-- The four entries of the MBR, of which only the first is used.
pub record Pmbr : Type 0 where
  pub disk_signature : ℕ
  pub reserved : ℕ
  pub entry : MbrEntry
  pub others : List MbrEntry
  pub signature : List ℕ

pub data NexusLabelStatus : Type 0 where
  both primary_only secondary_only neither : NexusLabelStatus

pub record NexusLabel : Type 0 where
  pub status : NexusLabelStatus
  pub mbr : Pmbr
  pub primary : GptHeader
  pub partitions : List GptEntry
  pub secondary : GptHeader

pub record LabelConfig : Type 0 where
  pub disk_guid : GptGuid
  pub meta_guid : GptGuid
  pub data_guid : GptGuid

pub data ProbeError : Type 0 where
  deserialize_error mbr_signature mbr_size gpt_signature : ProbeError
  gpt_header_size : (actual_size expected_size : ℕ) → ProbeError
  gpt_checksum partition_table_checksum compare_disk_guid compare_disk_size : ProbeError
  compare_partition_table_checksum partition_table_location : ProbeError
  missing_partition : (name : String) → ProbeError
  primary_location secondary_location first_usable_block last_usable_block : ProbeError
  partition_table_size partition_table_space partition_start partition_end : ProbeError
  negative_partition_size compare_header_location compare_partition_entry_count : ProbeError
  compare_partition_entry_size incorrect_partitions label_redundancy : ProbeError

-- A `source` of another component is a number; the names in these errors are left out.
pub data LabelError : Type 0 where
  serialize_error re_read_error : LabelError
  read_alloc write_alloc read_error write_error handle_error : (source : ℕ) → LabelError
  invalid_label : ProbeError → LabelError
  device_too_small : (blocks : ℕ) → LabelError

abbrev pub efi_part : List ℕ
efi_part = 0x45 ∷ 0x46 ∷ 0x49 ∷ 0x20 ∷ 0x50 ∷ 0x41 ∷ 0x52 ∷ 0x54 ∷ []

abbrev pub revision_1 : List ℕ
revision_1 = 0 ∷ 0 ∷ 1 ∷ 0 ∷ []

abbrev pub gpt_table_size : ℕ
gpt_table_size = 16384

abbrev pub metadata_partition_size : ℕ
metadata_partition_size = 4_194_304

abbrev pub mebibyte : ℕ
mebibyte = 1_048_576

-- A header at block 1 for the blocks `start` to `last`, with the backup at `alt`.
abbrev pub header_at : (alt start last : ℕ) → GptGuid → GptHeader
header_at alt start last guid = record {
  signature = efi_part;
  revision = revision_1;
  header_size = 92;
  self_checksum = 0;
  reserved = 0 ∷ 0 ∷ 0 ∷ 0 ∷ [];
  lba_self = 1;
  lba_alt = alt;
  lba_start = start;
  lba_end = last;
  guid = guid;
  lba_table = 2;
  num_entries = 2;
  entry_size = 128;
  table_crc = 0;
}

-- `GptHeader::new`.
unfoldable pub new_header : (block_size num_blocks : ℕ) → GptGuid → GptHeader
new_header block_size num_blocks guid =
    let partition_size = get_blocks gpt_table_size block_size in
    header_at (sub_u64 num_blocks 1) (mebibyte / block_size)
      (sub_u64 (sub_u64 num_blocks partition_size) 2) guid

unfoldable pub reference_header : (block_size data_blocks : ℕ) → GptGuid → GptHeader
reference_header block_size data_blocks guid =
    let partition_size = get_blocks gpt_table_size block_size in
    let metadata_size = get_blocks metadata_partition_size block_size in
    let start = mebibyte / block_size in
    let table = add_u64 (add_u64 start metadata_size) data_blocks in
    header_at (add_u64 table partition_size) start (sub_u64 table 1) guid

unfoldable pub protect : MbrEntry → ℕ → MbrEntry
protect entry num_blocks = record {
  attributes = 0;
  chs_start = 0 ∷ 2 ∷ 0 ∷ [];
  ent_type = 0xee;
  chs_last = 0xff ∷ 0xff ∷ 0xff ∷ [];
  lba_start = 1;
  num_sectors = if ltb 0xffff_ffff num_blocks then 0xffff_ffff else sub_u64 num_blocks 1 % u32_mod;
}

abbrev pub default_entry : MbrEntry
default_entry = record {
  attributes = 0;
  chs_start = 0 ∷ 0 ∷ 0 ∷ [];
  ent_type = 0;
  chs_last = 0 ∷ 0 ∷ 0 ∷ [];
  lba_start = 0;
  num_sectors = 0;
}

abbrev pub default_pmbr : Pmbr
default_pmbr = record {
  disk_signature = 0;
  reserved = 0;
  entry = default_entry;
  others = default_entry ∷ default_entry ∷ default_entry ∷ [];
  signature = 0x55 ∷ 0xaa ∷ [];
}

-- METADATA_PARTITION_TYPE_ID, 27663382-e5e6-11e9-81b4-ca5ca5ca5ca5.
abbrev pub metadata_partition_type : GptGuid
metadata_partition_type = record {
  time_low = 0x27663382;
  time_mid = 0xe5e6;
  time_high = 0x11e9;
  node = 0x81 ∷ 0xb4 ∷ 0xca ∷ 0x5c ∷ 0xa5 ∷ 0xca ∷ 0x5c ∷ 0xa5 ∷ [];
}

abbrev pub maya_entry : (name : String) → GptGuid → (start last : ℕ) → GptEntry
maya_entry name guid start last = record {
  ent_type = metadata_partition_type;
  ent_guid = guid;
  ent_start = start;
  ent_end = last;
  ent_attr = 0;
  ent_name = name;
}

-- The entries of the metadata and of the data.
unfoldable pub create_maya_partitions :
    LabelConfig → GptHeader → (block_size data_blocks : ℕ) → Result LabelError (GptEntry × GptEntry)
create_maya_partitions config header block_size data_blocks =
    let data_ = add_u64 header.lba_start (get_blocks metadata_partition_size block_size) in
    if ltb header.lba_end data_
    then err (device_too_small (add_u64 header.lba_alt 1))
    else ok (
      maya_entry "MayaMeta" config.meta_guid header.lba_start (sub_u64 data_ 1),
      maya_entry "MayaData" config.data_guid data_
          (min (sub_u64 (add_u64 data_ data_blocks) 1) header.lba_end),
    )
