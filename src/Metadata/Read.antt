-- ===== src/Metadata/Read.antt =====
-- Reading what is on the metadata partition (nexus_metadata.rs): the header, the index and the
-- objects, with their checks.
use co_create_openebs.Metadata.Layout.{
  MetaCodec, MetaDataHeader, MetaDataIndexEntry, NexusMetaData, MetaDataError, MetaChild,
  NexusConfig, metadata_header_size, maya_data, as_slice, header_size, header_signature,
  header_checksum, index_checksum, object_checksum, deserialize_error, nexus_child_error,
  read_alloc, read_error, index_out_of_range, panicked, probe_label_error, missing_partition,
}
use co_create_openebs.Label.Layout.{GptEntry, get_blocks, metadata_partition_type}
use co_create_openebs.Label.Format.{Buffer}
use co_create_openebs.Label.Validate.{bytes_eq, guid_eq}
use co_create_openebs.Label.Disk.{probe_label}
use co_create_openebs.Prelude.{
  ℕ, List, [], ◌∷◌, Option, Result, ok, err, suc, ◌++◌, Bool, mul_u64, none, if◌then◌else◌, ltb,
  check_source, ◌>>◌, ◌>>=◌, add_u64, map_ok, false, some, reject_if, map_err, ◌&&◌, ◌+◌, sub_u64,
  not, mul_u32, zero, sub_u32, str_eq, leb, some_or, ◌==◌, true, get_elem?,
}

module _ (m : MetaCodec) where
  -- The checksum of a header is that of the header with 0 in its place.
  abbrev pub meta_crc : MetaDataHeader → ℕ
  meta_crc h = m.checksum_ieee (m.serialize_meta (record h { self_checksum = 0 }))

  -- The checks of `MetaDataHeader::from_slice`.
  unfoldable pub check_meta : MetaDataHeader → Result MetaDataError MetaDataHeader
  check_meta h = do
    reject_if (not (h.header_size == metadata_header_size))
        (header_size h.header_size metadata_header_size)
    reject_if (not (bytes_eq h.signature maya_data)) header_signature
    reject_if (not (meta_crc h == h.self_checksum)) header_checksum
    ok h

  unfoldable pub meta_from_slice : List ℕ → Result MetaDataError MetaDataHeader
  meta_from_slice slice = elim (m.deserialize_meta slice) [
    | none ↦ err deserialize_error
    | some h ↦ check_meta h
  ]

  -- `MetaDataIndexEntry::from_slice`.
  unfoldable pub index_from_slice :
      List ℕ → (used_entries : ℕ) → Result MetaDataError (List MetaDataIndexEntry)
  index_from_slice slice zero = ok []
  index_from_slice slice (suc n) = elim (m.deserialize_index slice) [
    | none ↦ err deserialize_error
    | some (e, rest) ↦ elim (index_from_slice rest n) [ err x ↦ err x | ok es ↦ ok (e ∷ es) ]
  ]

  unfoldable pub serialize_indexes : List MetaDataIndexEntry → List ℕ
  serialize_indexes [] = []
  serialize_indexes (e ∷ es) = m.serialize_index e ++ serialize_indexes es

  -- `MetaDataIndexEntry::checksum`.
  abbrev pub index_crc : List MetaDataIndexEntry → ℕ
  index_crc es = m.checksum_ieee (serialize_indexes es)

  unfoldable pub read_index :
      Buffer → MetaDataHeader → Result MetaDataError (List MetaDataIndexEntry)
  read_index buf header = do
    index ← index_from_slice (as_slice buf) header.used_entries
    reject_if (not (index_crc index == header.index_checksum)) index_checksum
    ok index

  unfoldable pub empty_index : MetaDataHeader → Result MetaDataError (List MetaDataIndexEntry)
  empty_index header = do reject_if (not (header.index_checksum == 0)) index_checksum; ok []

  unfoldable pub read_config_object : Buffer → MetaDataIndexEntry → Result MetaDataError NexusConfig
  read_config_object buf entry = do
    reject_if (not (m.checksum_ieee (as_slice buf) == entry.data_checksum)) object_checksum
    some_or deserialize_error (m.deserialize_config (as_slice buf))

  abbrev pub get_dev_of : MetaChild → Result MetaDataError (Unit {0})
  get_dev_of k = check_source nexus_child_error k.get_dev_fails

  -- `dma_malloc` and `read_at`, of whole blocks.
  unfoldable pub read_blocks : MetaChild → (lba blocks : ℕ) → Result MetaDataError Buffer
  read_blocks k lba blocks = do
    let s = k.device.block_len
    let len = mul_u64 blocks s
    let offset = mul_u64 lba s
    check_source read_alloc (k.device.alloc_fails len)
    check_source read_error (k.device.read_fails offset)
    ok (record { len = len; byte = λ i. k.device.contents (offset + i) })

  -- The part of `probe_index` behind the header.
  unfoldable pub probe_entries :
      MetaChild → MetaDataHeader → Result MetaDataError (List MetaDataIndexEntry)
  probe_entries k header = elim (ltb 0 header.used_entries) [
    | false ↦ empty_index header
    | true ↦
        read_blocks k (add_u64 header.self_lba header.index_start)
          (get_blocks (mul_u32 header.used_entries header.entry_size) k.device.block_len)
        >>= λ buf. read_index buf header
  ]

  unfoldable pub probe_index : MetaChild → (partition_lba : ℕ) → Result MetaDataError NexusMetaData
  probe_index k partition_lba = do
    get_dev_of k
    buf ←
        read_blocks k (add_u64 partition_lba 1) (get_blocks metadata_header_size k.device.block_len)
    header ← meta_from_slice (as_slice buf)
    index ← probe_entries k header
    ok (record { header = header; index = index })

  -- The object of an entry.
  unfoldable pub read_object :
      MetaChild → MetaDataHeader → MetaDataIndexEntry → Result MetaDataError NexusConfig
  read_object k header entry = do
    buf ←
        read_blocks k (add_u64 header.self_lba entry.data_start)
          (add_u64 (sub_u64 entry.data_end entry.data_start) 1)
    read_config_object buf entry

  unfoldable pub probe_config_object :
      MetaChild → NexusMetaData → (selected : ℕ) → Result MetaDataError NexusConfig
  probe_config_object k meta selected = do
    reject_if (leb meta.header.used_entries selected)
        (index_out_of_range selected meta.header.used_entries)
    entry ← some_or panicked (get_elem? meta.index selected)
    get_dev_of k
    read_object k meta.header entry

  unfoldable pub read_objects :
      MetaChild → MetaDataHeader → List MetaDataIndexEntry → Result MetaDataError (List NexusConfig)
  read_objects k header [] = ok []
  read_objects k header (e ∷ es) = do
    config ← read_object k header e
    rest ← read_objects k header es
    ok (config ∷ rest)

  unfoldable pub probe_all_config_objects :
      MetaChild → NexusMetaData → Result MetaDataError (List NexusConfig)
  probe_all_config_objects k meta = get_dev_of k >> read_objects k meta.header meta.index

  unfoldable pub get_config_object :
      MetaChild → NexusMetaData → (selected : ℕ) → Result MetaDataError (Option NexusConfig)
  get_config_object k meta selected =
      if ltb selected meta.header.used_entries
      then map_ok some (probe_config_object k meta selected)
      else ok none

  unfoldable pub get_latest_config_object :
      MetaChild → NexusMetaData → Result MetaDataError (Option NexusConfig)
  get_latest_config_object k meta =
      if ltb 0 meta.header.used_entries
      then map_ok some (probe_config_object k meta (sub_u32 meta.header.used_entries 1))
      else ok none

  abbrev pub is_metadata : GptEntry → Bool
  is_metadata partition =
      guid_eq partition.ent_type metadata_partition_type && str_eq partition.ent_name "MayaMeta"

  abbrev pub metadata_in : List GptEntry → Result MetaDataError GptEntry
  metadata_in [] = err missing_partition
  metadata_in (p ∷ ps) = if is_metadata p then ok p else err missing_partition

  -- The metadata partition of a child, which must be the first.
  unfoldable pub find_partition : MetaChild → Result MetaDataError GptEntry
  find_partition k = do
    label ← map_err probe_label_error (probe_label m.label k.device)
    metadata_in label.partitions

  unfoldable pub get_metadata : MetaChild → Result MetaDataError NexusMetaData
  get_metadata k = do partition ← find_partition k; probe_index k partition.ent_start
