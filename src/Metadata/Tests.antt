-- ===== src/Metadata/Tests.antt =====
-- The metadata code at concrete inputs: a device of 20,000 blocks of 512 bytes with a label on it.
use co_create_openebs.Metadata.Pushed.{blocks_of}
use co_create_openebs.Label.Generated.{meta_of}
use co_create_openebs.Metadata.Created.{IsMetaPartition, create_metadata-run_operations}
use co_create_openebs.Label.RoundTrip.{probe_label_labelled}
use co_create_openebs.Metadata.Layout.{
  MetaDataHeader, MetaChild, new_metadata_header, NexusMetaData,
}
use co_create_openebs.Metadata.Read.{find_partition, probe_index, probe_all_config_objects}
use co_create_openebs.Metadata.Instance.{
  meta_codec, pairs_of, pairs_of-IsReadable, meta_codec-IsMetaCodec, length-pairs,
}
use co_create_openebs.Label.Layout.{GptEntry, get_blocks}
use co_create_openebs.Prelude.{ℕ, ◌≡◌, List, [], none, ok, refl, arith, ◌∷◌}
use co_create_openebs.Metadata.Signed.{IsWorking}
use co_create_openebs.Metadata.Store.{create_metadata}
use co_create_openebs.Metadata.Run.{
  run_operations, run_on_list, AllFit, Operation, append_object, remove_object,
}
use co_create_openebs.Label.Tests.{label, label-IsLabel, device_of, device_of-IsWorking, config}
use co_create_openebs.Label.LittleEndian.{little_endian, little_endian-IsCodec}

abbrev contents : ℕ → ℕ
contents =
    (probe_label_labelled little_endian little_endian-IsCodec (device_of (λ _. none) (λ i. 0)) label
      512 20000 label-IsLabel (device_of-IsWorking (λ _. none) (λ i. 0))).0

abbrev child : MetaChild
child = record { get_dev_fails = none; device = device_of (λ _. none) contents }

child-IsWorking : IsWorking child
child-IsWorking = record {
  dev = refl;
  alloc = λ len. refl;
  reads = λ offset. refl;
  writes = λ offset. refl;
}

abbrev partition : GptEntry
partition = meta_of config 512

partition_found : find_partition meta_codec child ≡ ok partition
unfolding find_partition meta_codec
partition_found =
    let e =
      (probe_label_labelled little_endian little_endian-IsCodec (device_of (λ _. none) (λ i. 0))
        label 512 20000 label-IsLabel (device_of-IsWorking (λ _. none) (λ i. 0))).1 in
    rw (e, find_partition) refl

partition-IsMetaPartition : IsMetaPartition 512 partition
unfolding get_blocks
partition-IsMetaPartition = record {
  positive = omega arith;
  room = omega arith;
  bound = omega arith;
}

abbrev header : MetaDataHeader
header = new_metadata_header 512 partition

-- Two objects, of which the first is removed; the third makes that the second is moved.
abbrev operations : List Operation
operations =
    append_object (pairs_of 1) 5
    ∷ append_object (pairs_of 2) 6
    ∷ remove_object 0
    ∷ append_object (pairs_of 3) 7
    ∷ []

pub takes_one : blocks_of meta_codec 512 (pairs_of 1) ≡ 1
unfolding get_blocks
takes_one = rw (length-pairs 1) refl

pub takes_two : blocks_of meta_codec 512 (pairs_of 2) ≡ 2
unfolding get_blocks
takes_two = rw (length-pairs 2) refl

takes_two' : blocks_of meta_codec 512 (pairs_of 3) ≡ 2
unfolding get_blocks
takes_two' = rw (length-pairs 3) refl

operations-AllFit : AllFit meta_codec 512 header [] operations
unfolding new_metadata_header get_blocks
operations-AllFit = (
  (
    pairs_of-IsReadable 1,
    (
      omega arith,
      record { entries = omega arith; blocks = omega (arith, takes_one, takes_two, takes_two') },
    ),
  ),
  (
    (
      pairs_of-IsReadable 2,
      (
        omega arith,
        record { entries = omega arith; blocks = omega (arith, takes_one, takes_two, takes_two') },
      ),
    ),
    (
      (
        pairs_of-IsReadable 3,
        (
          omega arith,
          record {
            entries = omega arith;
            blocks = omega (arith, takes_one, takes_two, takes_two');
          },
        ),
      ),
      tt,
    ),
  ),
)

objects_left : run_on_list [] operations ≡ pairs_of 2 ∷ pairs_of 3 ∷ []
objects_left = refl

create_metadata-run_operations_example :
    let (k1, created) = create_metadata meta_codec child in
    (meta : NexusMetaData) × ((created ≡ ok meta)
      × (let (k2, (meta2, r)) = run_operations meta_codec k1 meta operations in
          (r ≡ ok tt)
          × ((probe_index meta_codec k2 partition.ent_start ≡ ok meta2)
              × (probe_all_config_objects meta_codec k2 meta2
                  ≡ ok (pairs_of 2 ∷ pairs_of 3 ∷ [])))))
create_metadata-run_operations_example =
    create_metadata-run_operations meta_codec meta_codec-IsMetaCodec child partition operations
      child-IsWorking partition_found partition-IsMetaPartition operations-AllFit
