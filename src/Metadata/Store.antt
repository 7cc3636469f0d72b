-- ===== src/Metadata/Store.antt =====
-- The operations on the metadata of a child (nexus_metadata.rs): creating it, and adding and removing
-- objects.
use co_create_openebs.Metadata.Layout.{
  MetaCodec, MetaDataHeader, MetaDataIndexEntry, NexusMetaData, MetaDataError, MetaChild,
  NexusConfig, SystemTime, new_metadata_header, index_size_exceeded, index_inconsistent,
  timestamp_error,
}
use co_create_openebs.Metadata.Read.{get_dev_of, index_crc, meta_crc, find_partition}
use co_create_openebs.Metadata.Write.{
  Stored, Changed, write_index, write_config_object, compact_entries, fragmented, Prepared,
  prepare_at, entry_of, write_blocks,
}
use co_create_openebs.Label.Layout.{GptEntry}
use co_create_openebs.Prelude.{
  ℕ, List, [], ◌∷◌, Result, ok, err, Bool, ◌>>◌, suc, add_u64, if◌then◌else◌, zero, false, not,
  reject_if, length, ltb, true, ◌==◌, ◌%◌, u32_mod, sub_u32, map_err,
}

-- An element taken out of a list.
abbrev pub remove_at {ℓ} : {A : Type ℓ} → ℕ → List A → List A
remove_at n [] = []
remove_at zero (x ∷ xs) = xs
remove_at (suc n) (x ∷ xs) = x ∷ remove_at n xs

-- New metadata, or why there is none.
abbrev pub Created : Type 0
Created = MetaChild × Result MetaDataError NexusMetaData

abbrev pub created_of : Changed → Created
created_of (k, (meta, err e)) = (k, err e)
created_of (k, (meta, ok _)) = (k, ok meta)

abbrev pub with_index : NexusMetaData → List MetaDataIndexEntry → NexusMetaData
with_index meta index = record meta { index = index }

-- The entries that `write_all_config_objects` has made.
abbrev pub Listed : Type 0
Listed = MetaChild × Result MetaDataError (List MetaDataIndexEntry)

abbrev pub list_entry : MetaDataIndexEntry → Listed → Listed
list_entry e (k, err x) = (k, err x)
list_entry e (k, ok es) = (k, ok (e ∷ es))

abbrev pub after_listed : MetaDataIndexEntry → Stored → (MetaChild → Listed) → Listed
after_listed e (k, err x) next = (k, err x)
after_listed e (k, ok _) next = list_entry e (next k)

module _ (m : MetaCodec) where
  -- The metadata with both checksums.
  unfoldable pub signed : NexusMetaData → NexusMetaData
  signed meta =
      let header = record (meta.header) { index_checksum = index_crc m meta.index } in
      record meta { header = record header { self_checksum = meta_crc m header } }

  abbrev pub after_sync : NexusMetaData → Stored → Changed
  after_sync meta (k, r) = (k, (meta, r))

  unfoldable pub sync_metadata : MetaChild → NexusMetaData → Changed
  sync_metadata k meta = after_sync (signed meta) (write_index m k (signed meta))

  abbrev pub create_in : MetaChild → Result MetaDataError GptEntry → Created
  create_in k (err e) = (k, err e)
  create_in k (ok partition) = created_of (
      sync_metadata k
        (record { header = new_metadata_header k.device.block_len partition; index = [] }))

  unfoldable pub create_metadata : MetaChild → Created
  create_metadata k = create_in k (get_dev_of m k >> find_partition m k)

  unfoldable pub delete_config_object : MetaChild → NexusMetaData → (selected : ℕ) → Changed
  delete_config_object k meta selected =
      if not (length meta.index == meta.header.used_entries)
      then (k, (meta, err index_inconsistent))
      else if ltb selected meta.header.used_entries
      then sync_metadata k (record {
        header = record (meta.header) { used_entries = sub_u32 meta.header.used_entries 1 };
        index = remove_at selected meta.index;
      })
      else sync_metadata k meta

  -- `compact`.
  unfoldable pub compact : MetaChild → NexusMetaData → Changed
  compact k meta = elim (get_dev_of m k) [
    | err e ↦ (k, (meta, err e))
    | ok _ ↦
        let compacted =
          compact_entries m k meta.header.self_lba meta.header.data_start meta.index in
        (compacted.0, (with_index meta compacted.1.0, compacted.1.1))
  ]

  -- Its error is only logged.
  abbrev pub compact_if : MetaChild → NexusMetaData → Bool → MetaChild × NexusMetaData
  compact_if k meta false = (k, meta)
  compact_if k meta true = let compacted = compact k meta in (compacted.0, compacted.1.0)

  abbrev pub after_append : Changed → Changed
  after_append (k, (meta, err e)) = (k, (meta, err e))
  after_append (k, (meta, ok _)) = sync_metadata k meta

  abbrev pub append_in :
      MetaChild → NexusMetaData → NexusConfig → SystemTime → Result MetaDataError Bool → Changed
  append_in k meta config now (err e) = (k, (meta, err e))
  append_in k meta config now (ok b) =
      let (k', meta') = compact_if k meta b in
      after_append (write_config_object m k' meta' config now)

  unfoldable pub append_config_object :
      MetaChild → NexusMetaData → NexusConfig → SystemTime → Changed
  append_config_object k meta config now =
      if not (length meta.index == meta.header.used_entries)
      then (k, (meta, err index_inconsistent))
      else append_in k meta config now (fragmented meta.header.data_start meta.index)

  -- The loop of `write_all_config_objects`.
  abbrev pub list_prepared :
      MetaChild
      → MetaDataHeader
      → (revision : ℕ) → Result MetaDataError Prepared
      → (Prepared → MetaChild → Listed)
      → Listed
  list_prepared k header revision (err e) next = (k, err e)
  list_prepared k header revision (ok p) next =
      after_listed (entry_of m revision p) (write_blocks k (add_u64 header.self_lba p.start) p.buf)
        (next p)

  unfoldable pub write_objects :
      MetaChild → MetaDataHeader → (start revision timestamp : ℕ) → List NexusConfig → Listed
  write_objects k header start revision timestamp [] = (k, ok [])
  write_objects k header start revision timestamp (config ∷ configs) =
      list_prepared k header (add_u64 revision 1) (prepare_at m k header config start timestamp)
        (λ p k'. write_objects k' header p.next (add_u64 revision 1) timestamp configs)

  abbrev pub write_listed :
      MetaChild
      → MetaDataHeader
      → List NexusConfig
      → (generation : ℕ) → Result MetaDataError ℕ
      → Listed
  write_listed k header configs generation (err e) = (k, err e)
  write_listed k header configs generation (ok timestamp) =
      write_objects k header header.data_start generation timestamp configs

  unfoldable pub write_all_config_objects :
      MetaChild → MetaDataHeader → List NexusConfig → (generation : ℕ) → SystemTime → Listed
  write_all_config_objects k header configs generation now =
      write_listed k header configs generation (do
        reject_if (ltb header.max_entries (length configs))
            (index_size_exceeded (length configs % u32_mod) header.max_entries)
        get_dev_of m k
        map_err timestamp_error now)
