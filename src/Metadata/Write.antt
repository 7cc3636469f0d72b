-- ===== src/Metadata/Write.antt =====
-- Writing the index and the objects, and keeping them together (nexus_metadata.rs).
use co_create_openebs.Metadata.Layout.{
  MetaCodec, MetaDataHeader, MetaDataIndexEntry, NexusMetaData, MetaDataError, MetaChild,
  NexusConfig, SystemTime, as_slice, partition_size_exceeded, index_inconsistent,
  index_size_exceeded, timestamp_error, write_error, serialize_error, write_alloc,
}
use co_create_openebs.Metadata.Read.{get_dev_of, read_blocks}
use co_create_openebs.Label.Layout.{get_blocks}
use co_create_openebs.Label.Format.{Buffer}
use co_create_openebs.Label.Disk.{stored, serialize_into, zeroed}
use co_create_openebs.Prelude.{
  ℕ, List, [], ◌∷◌, Result, ok, err, map_err, ◌>>=◌, check_source, length, add_u64, Bool, ◌>>◌,
  mul_u64, ltb, mul_u32, some, ◌+◌, sub_u64, add_u32, false, reject_if, leb, ◌++◌, if◌then◌else◌,
  true, none,
}

-- An operation on a child.
abbrev pub Stored : Type 0
Stored = MetaChild × Result MetaDataError (Unit {0})

-- `write_at`, of a block number.
unfoldable pub write_blocks : MetaChild → (lba : ℕ) → Buffer → Stored
write_blocks k lba buf =
    let offset = mul_u64 lba k.device.block_len in
    elim (k.device.write_fails offset) [
      | some e ↦ (k, err (write_error e))
      | none ↦ (
        record k { device = record (k.device) { contents = stored k.device.contents offset buf } },
        ok tt,
      )
    ]

-- `serialize_into`, whose error is the one there is.
abbrev pub write_into : Buffer → (pos : ℕ) → List ℕ → Result MetaDataError Buffer
write_into buf pos bytes = map_err (λ _. serialize_error) (serialize_into buf pos bytes)

-- `DmaBuf::new`.
abbrev pub new_buffer : MetaChild → (len : ℕ) → Result MetaDataError Buffer
new_buffer k len = check_source write_alloc (k.device.alloc_fails len) >> ok (zeroed len)

-- What `write_config_object` has made before it writes.
pub record Prepared : Type 0 where
  pub start : ℕ
  pub next : ℕ
  pub timestamp : ℕ
  pub buf : Buffer

-- Metadata after an operation on it.
abbrev pub Changed : Type 0
Changed = MetaChild × (NexusMetaData × Result MetaDataError (Unit {0}))

abbrev pub write_result : MetaChild → (lba : ℕ) → Result MetaDataError Buffer → Stored
write_result k lba (err e) = (k, err e)
write_result k lba (ok buf) = write_blocks k lba buf

-- The first block of the next object.
unfoldable pub next_start : MetaDataHeader → List MetaDataIndexEntry → Result MetaDataError ℕ
next_start header [] = ok header.data_start
next_start header (e ∷ []) = do
  let start = add_u64 e.data_end 1
  reject_if (ltb header.data_end start) partition_size_exceeded
  ok start
next_start header (e ∷ e' ∷ es) = next_start header (e' ∷ es)

-- `fragmented`, from `start` on.
unfoldable pub fragmented : (start : ℕ) → List MetaDataIndexEntry → Result MetaDataError Bool
fragmented start [] = ok false
fragmented start (e ∷ es) =
    let rest = fragmented (add_u64 e.data_end 1) es in
    if ltb e.data_start start
    then err index_inconsistent
    else if ltb start e.data_start
    then ok true
    else rest

-- The loop of `compact`, which changes the entries in place: the index after it.
abbrev pub Compacted : Type 0
Compacted = MetaChild × (List MetaDataIndexEntry × Result MetaDataError (Unit {0}))

abbrev pub keep_entry : MetaDataIndexEntry → Compacted → Compacted
keep_entry e (k, (es, r)) = (k, (e ∷ es, r))

abbrev pub moved_entry : MetaDataIndexEntry → (start : ℕ) → MetaDataIndexEntry
moved_entry e start = record e {
  data_start = start;
  data_end = add_u64 start (sub_u64 e.data_end e.data_start);
}

-- After the move of the first entry, with the rest of the loop.
abbrev pub after_move :
    (e moved : MetaDataIndexEntry)
    → List MetaDataIndexEntry
    → Stored
    → (MetaChild → Compacted)
    → Compacted
after_move e moved es (k, err x) next = (k, (e ∷ es, err x))
after_move e moved es (k, ok _) next = keep_entry moved (next k)

module _ (m : MetaCodec) where
  -- The loop over the index, with the cursor at `pos`.
  unfoldable pub write_entries :
      Buffer → (pos : ℕ) → List MetaDataIndexEntry → Result MetaDataError Buffer
  write_entries buf pos [] = ok buf
  write_entries buf pos (e ∷ es) = do
    let bytes = m.serialize_index e
    buf' ← write_into buf pos bytes
    write_entries buf' (pos + length bytes) es

  -- The buffer of `write_index`.
  unfoldable pub index_buffer : MetaChild → NexusMetaData → Result MetaDataError Buffer
  index_buffer k meta = do
    get_dev_of m k
    let s = k.device.block_len
    let blocks =
        add_u64 meta.header.index_start
          (get_blocks (mul_u32 meta.header.max_entries meta.header.entry_size) s)
    buf ← new_buffer k (mul_u64 blocks s)
    buf' ← write_into buf 0 (m.serialize_meta meta.header)
    write_entries buf' (mul_u64 meta.header.index_start s) meta.index

  unfoldable pub write_index : MetaChild → NexusMetaData → Stored
  write_index k meta = write_result k meta.header.self_lba (index_buffer k meta)

  -- The buffer of an object at `start`, of which the checksum is taken as a whole.
  unfoldable pub prepare_at :
      MetaChild
      → MetaDataHeader
      → NexusConfig
      → (start timestamp : ℕ) → Result MetaDataError Prepared
  prepare_at k header config start timestamp = do
    let s = k.device.block_len
    let bytes = m.serialize_config config
    let blocks = get_blocks (length bytes) s
    let next = add_u64 start blocks
    reject_if (ltb (add_u64 header.data_end 1) next) partition_size_exceeded
    buf ← new_buffer k (mul_u64 s blocks)
    buf' ← write_into buf 0 bytes
    ok (record { start = start; next = next; timestamp = timestamp; buf = buf' })

  unfoldable pub prepare :
      MetaChild → NexusMetaData → NexusConfig → SystemTime → Result MetaDataError Prepared
  prepare k meta config now = do
    reject_if (leb meta.header.max_entries meta.header.used_entries)
        (index_size_exceeded (add_u32 meta.header.used_entries 1) meta.header.max_entries)
    get_dev_of m k
    timestamp ← map_err timestamp_error now
    start ← next_start meta.header meta.index
    prepare_at k meta.header config start timestamp

  abbrev pub entry_of : (revision : ℕ) → Prepared → MetaDataIndexEntry
  entry_of revision p = record {
    revision = revision;
    timestamp = p.timestamp;
    data_checksum = m.checksum_ieee (as_slice p.buf);
    data_start = p.start;
    data_end = sub_u64 p.next 1;
  }

  -- The metadata with the entry of an object that was written.
  unfoldable pub push_entry : NexusMetaData → Prepared → NexusMetaData
  push_entry meta p =
      let generation = add_u64 meta.header.generation 1 in
      record {
        header = record (meta.header) {
          generation = generation;
          used_entries = add_u32 meta.header.used_entries 1;
        };
        index = meta.index ++ (entry_of generation p ∷ []);
      }

  abbrev pub after_object : NexusMetaData → Prepared → Stored → Changed
  after_object meta p (k, err e) = (k, (meta, err e))
  after_object meta p (k, ok _) = (k, (push_entry meta p, ok tt))

  abbrev pub write_prepared : MetaChild → NexusMetaData → Result MetaDataError Prepared → Changed
  write_prepared k meta (err e) = (k, (meta, err e))
  write_prepared k meta (ok p) =
      after_object meta p (write_blocks k (add_u64 meta.header.self_lba p.start) p.buf)

  unfoldable pub write_config_object :
      MetaChild → NexusMetaData → NexusConfig → SystemTime → Changed
  write_config_object k meta config now = write_prepared k meta (prepare k meta config now)

  unfoldable pub compact_entries :
      MetaChild → (self_lba start : ℕ) → List MetaDataIndexEntry → Compacted
  compact_entries k self_lba start [] = (k, ([], ok tt))
  compact_entries k self_lba start (e ∷ es) = elim (ltb start e.data_start) [
    | false ↦ keep_entry e (compact_entries k self_lba (add_u64 e.data_end 1) es)
    | true ↦
        let moved = moved_entry e start in
        after_move e moved es
          (write_result k (add_u64 self_lba start) (
            read_blocks m k (add_u64 self_lba e.data_start)
              (add_u64 (sub_u64 e.data_end e.data_start) 1)))
          (λ k'. compact_entries k' self_lba (add_u64 moved.data_end 1) es)
  ]
