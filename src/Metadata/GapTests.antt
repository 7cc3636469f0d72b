-- ===== src/Metadata/GapTests.antt =====
-- The metadata code on a partition of six blocks of 512 bytes: the second of the two blocks for objects
-- has one, and the first is free.
use co_create_openebs.Metadata.Stale.{append_config_object_stale}
use co_create_openebs.Metadata.Synced.{block_len_of}
use co_create_openebs.Metadata.Grown.{append_config_object-IsDone, compact-Represents}
use co_create_openebs.Metadata.Probed.{probe_index-sync_metadata}
use co_create_openebs.Metadata.Removed.{delete_config_object-IsDone}
use co_create_openebs.Metadata.Pushed.{prepared_at, entry_of-IsStored, object_buffer, blocks_of}
use co_create_openebs.Label.Layout.{get_blocks}
use co_create_openebs.Metadata.Write.{Prepared, Changed, entry_of, fragmented}
use co_create_openebs.Metadata.Read.{get_config_object, probe_index}
use co_create_openebs.Metadata.Layout.{
  MetaChild, MetaDataHeader, NexusMetaData, maya_data, partition_size_exceeded,
}
use co_create_openebs.Label.Disk.{stored}
use co_create_openebs.Prelude.{
  ℕ, ◌≡◌, [], ok, ◌+◌, refl, ◌∷◌, err, none, some, true, false, arith, ◌*◌,
}
use co_create_openebs.Metadata.Signed.{IsWorking, IsPlaced}
use co_create_openebs.Metadata.Store.{
  sync_metadata, compact, delete_config_object, signed, append_config_object,
}
use co_create_openebs.Metadata.Represented.{
  Represents, IsDone, sync_metadata-IsDone, get_config_object-Represents,
}
use co_create_openebs.Metadata.Instance.{
  meta_codec, meta_codec-IsMetaCodec, pairs_of, pairs_of-IsReadable,
}
use co_create_openebs.Metadata.Tests.{takes_one, takes_two}
use co_create_openebs.Label.Tests.{device_of}

abbrev child_of : (ℕ → ℕ) → MetaChild
child_of f = record { get_dev_fails = none; device = device_of (λ _. none) f }

child_of-IsWorking : (f : ℕ → ℕ) → IsWorking (child_of f)
child_of-IsWorking f = record {
  dev = refl;
  alloc = λ len. refl;
  reads = λ offset. refl;
  writes = λ offset. refl;
}

-- Header and index are in the blocks 2 to 5, the objects in 6 and 7.
abbrev header : MetaDataHeader
header = record {
  signature = maya_data;
  header_size = 72;
  self_checksum = 0;
  generation = 2;
  self_lba = 2;
  index_start = 1;
  used_entries = 1;
  max_entries = 32;
  entry_size = 44;
  index_checksum = 0;
  data_start = 4;
  data_end = 5;
}

header-IsPlaced : IsPlaced 512 header
unfolding get_blocks
header-IsPlaced = record {
  positive = omega arith;
  signature = refl;
  size = refl;
  entry = refl;
  gap = omega arith;
  objects = omega arith;
  small = omega arith;
  used = omega arith;
  generation = omega arith;
  order = omega arith;
  bound = omega arith;
}

abbrev prepared : Prepared
prepared = prepared_at meta_codec 512 (pairs_of 1) 5 77

abbrev with_gap : NexusMetaData
with_gap = record { header = header; index = entry_of meta_codec 2 prepared ∷ [] }

abbrev contents : ℕ → ℕ
contents = stored (λ _. 0) ((2 + 5) * 512) (object_buffer meta_codec 512 (pairs_of 1))

with_gap-Represents : Represents meta_codec (child_of contents) with_gap (pairs_of 1 ∷ [])
with_gap-Represents =
    let e =
      entry_of-IsStored meta_codec 512 (λ _. 0) 2 5 5 2 77 (pairs_of 1) meta_codec-IsMetaCodec
        (pairs_of-IsReadable 1) (omega arith) (omega arith) (omega arith) (omega (arith, takes_one))
        (omega arith) in
    record {
      working = child_of-IsWorking contents;
      laid = record { placed = header-IsPlaced; count = refl; entries = (e.fits, tt) };
      chained = (omega (arith, e.from), (e.order, (omega (arith, e.from, e.size, takes_one), tt)));
      holds = e.holds;
    }

probe_index-sync_metadata_example :
    let (k', (meta', r)) = sync_metadata meta_codec (child_of contents) with_gap in
    (r ≡ ok tt) × ((meta'.index ≡ with_gap.index) × (probe_index meta_codec k' 1 ≡ ok meta'))
probe_index-sync_metadata_example =
    probe_index-sync_metadata meta_codec meta_codec-IsMetaCodec (child_of contents) with_gap 1
      (child_of-IsWorking contents) with_gap-Represents.laid (omega arith)

compact-Represents_example :
    let (k', (meta', r)) = compact meta_codec (child_of contents) with_gap in
    (r ≡ ok tt)
    × (Represents meta_codec k' meta' (pairs_of 1 ∷ [])
        × (fragmented meta'.header.data_start meta'.index ≡ ok false))
compact-Represents_example =
    compact-Represents meta_codec meta_codec-IsMetaCodec (child_of contents) with_gap
      (pairs_of 1 ∷ []) with_gap-Represents

append_config_object-IsDone_example :
    IsDone meta_codec
      (child_of contents)
      with_gap
      (append_config_object meta_codec (child_of contents) with_gap (pairs_of 1) (ok 78))
      (pairs_of 1 ∷ pairs_of 1 ∷ [])
append_config_object-IsDone_example =
    append_config_object-IsDone meta_codec meta_codec-IsMetaCodec (child_of contents) with_gap
      (pairs_of 1) 78 (pairs_of 1 ∷ []) (pairs_of-IsReadable 1) (omega arith)
      (record { entries = omega arith; blocks = omega (arith, takes_one) }) with_gap-Represents

delete_config_object-IsDone_example :
    IsDone meta_codec
      (child_of contents)
      with_gap
      (delete_config_object meta_codec (child_of contents) with_gap 0)
      []
delete_config_object-IsDone_example =
    delete_config_object-IsDone meta_codec meta_codec-IsMetaCodec (child_of contents) with_gap
      (pairs_of 1 ∷ []) 0 with_gap-Represents

get_config_object-Represents_example :
    get_config_object meta_codec (child_of contents) with_gap 0 ≡ ok (some (pairs_of 1))
get_config_object-Represents_example =
    get_config_object-Represents meta_codec (child_of contents) with_gap (pairs_of 1 ∷ []) 0
      meta_codec-IsMetaCodec with_gap-Represents

-- The same after it was written.
abbrev written : Changed
written = sync_metadata meta_codec (child_of contents) with_gap

written-IsDone : IsDone meta_codec (child_of contents) with_gap written (pairs_of 1 ∷ [])
written-IsDone =
    sync_metadata-IsDone meta_codec (child_of contents) with_gap (pairs_of 1 ∷ [])
      meta_codec-IsMetaCodec with_gap-Represents

gap : fragmented written.1.0.header.data_start written.1.0.index ≡ ok true
unfolding sync_metadata signed fragmented
gap = refl

used : written.1.0.header.used_entries ≡ 1
unfolding sync_metadata signed
used = refl

append_config_object_stale_example :
    let (k', (meta', r)) =
      append_config_object meta_codec written.0 written.1.0 (pairs_of 2) (ok 78) in
    (r ≡ err partition_size_exceeded)
    × (Represents meta_codec k' meta' (pairs_of 1 ∷ [])
        × ((fragmented meta'.header.data_start meta'.index ≡ ok false)
            × (probe_index meta_codec k' 1 ≡ ok written.1.0)))
append_config_object_stale_example =
    let d = written-IsDone in
    let one : blocks_of meta_codec (block_len_of written.0) (pairs_of 1) ≡ 1 =
      rw d.same.block_len takes_one in
    let two : blocks_of meta_codec (block_len_of written.0) (pairs_of 2) ≡ 2 =
      rw d.same.block_len takes_two in
    append_config_object_stale meta_codec meta_codec-IsMetaCodec written.0 written.1.0 (pairs_of 2)
      78 (pairs_of 1 ∷ []) 1 d.represents (d.lasting 1 (omega arith)) gap
      (omega (arith, used, d.same.max_entries))
      (omega (arith, one, two, d.same.data_start, d.same.data_end))
      (omega (arith, one, two, d.same.data_start))
