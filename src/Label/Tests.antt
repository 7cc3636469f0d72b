-- ===== src/Label/Tests.antt =====
-- The label code at concrete inputs: a device of 20,000 blocks of 512 bytes for a nexus of 1,000.
use co_create_openebs.Label.Interrupt.{write_label_interrupted}
use co_create_openebs.Label.Created.{validate_label-create_label, update_label-create_label}
use co_create_openebs.Label.Room.{backup_without_room}
use co_create_openebs.Label.Statuses.{IsInvalid}
use co_create_openebs.Label.Update.{create_label, validate_label, update_label}
use co_create_openebs.Label.Format.{checksum_header, Buffer, serialize_entry, to_backup}
use co_create_openebs.Label.Validate.{
  read_secondary_header, validate_primary_header, header_from_slice, validate_secondary_header,
  check_header,
}
use co_create_openebs.Label.LittleEndian.{little_endian, little_endian-IsCodec}
use co_create_openebs.Label.Geometry.{IsRoomy, reference_header-new_header}
use co_create_openebs.Label.Probe.{IsLabel, IsWorking, part, last_block}
use co_create_openebs.Label.RoundTrip.{with_status, probe_label-write_label}
use co_create_openebs.Label.Generated.{IsConfig, generated, generated-IsLabel, meta_of}
use co_create_openebs.Label.Layout.{
  GptGuid, LabelConfig, NexusLabel, get_blocks, both, GptEntry, new_header, GptHeader,
  reference_header, header_at, mebibyte, write_error, create_maya_partitions, partition_table_space,
  primary_only, metadata_partition_size, gpt_table_size, gpt_header_size,
}
use co_create_openebs.Label.Laws.{IsGuid}
use co_create_openebs.Label.Disk.{LabelDevice, write_label, probe_label}
use co_create_openebs.Prelude.{
  ℕ, ok, none, some, ◌≡◌, ◌+◌, ◌*◌, replicate, refl, arith, if◌then◌else◌, ◌==◌, Option, ◌<◌, List,
  err, ◌/◌,
}

abbrev pub guid : ℕ → GptGuid
guid n = record { time_low = n; time_mid = 2; time_high = 3; node = replicate 8 n }

guid-IsGuid : (n : ℕ) → n < 256 → IsGuid (guid n)
guid-IsGuid n l = record {
  low = omega arith;
  mid = omega arith;
  high = omega arith;
  node = (refl, ground arith);
}

abbrev pub config : LabelConfig
config = record { disk_guid = guid 7; meta_guid = guid 8; data_guid = guid 9 }

pub config-IsConfig : IsConfig config
config-IsConfig = record {
  disk = guid-IsGuid 7 (omega arith);
  meta = guid-IsGuid 8 (omega arith);
  rest = guid-IsGuid 9 (omega arith);
}

pub roomy : IsRoomy 512 1000 20000
unfolding get_blocks
roomy = omega arith

abbrev pub label : NexusLabel
label = generated little_endian config 512 1000 20000

pub label-IsLabel : IsLabel little_endian little_endian-IsCodec label 512 20000
label-IsLabel =
    generated-IsLabel little_endian little_endian-IsCodec config 512 1000 20000 config-IsConfig
      roomy (omega arith)

abbrev pub device_of : (fails : ℕ → Option ℕ) → (ℕ → ℕ) → LabelDevice
device_of fails contents = record {
  handle_fails = none;
  block_len = 512;
  num_blocks = 20000;
  alloc_fails = λ size. none;
  read_fails = λ offset. none;
  write_fails = fails;
  contents = contents;
}

pub device_of-IsWorking :
    (fails : ℕ → Option ℕ) (contents : ℕ → ℕ) → IsWorking (device_of fails contents) 512 20000
device_of-IsWorking fails contents = record {
  handles = refl;
  block_len = refl;
  num_blocks = refl;
  allocates = λ size. refl;
  reads = λ offset. refl;
  large = omega arith;
  addressed = omega arith;
}

-- An empty device.
abbrev empty : LabelDevice
empty = device_of (λ offset. none) (λ i. 0)

probe_label-write_label_example :
    (d' : LabelDevice) × ((write_label little_endian empty label ≡ (d', ok tt))
      × (probe_label little_endian d' ≡ ok (with_status label both)))
probe_label-write_label_example =
    probe_label-write_label little_endian little_endian-IsCodec empty label 512 20000 label-IsLabel
      (device_of-IsWorking (λ offset. none) (λ i. 0)) (λ offset. refl) refl

validate_label-create_label_example :
    (d' : LabelDevice) × ((found : NexusLabel) × ((reference : GptEntry × GptEntry) × ((create_label
              little_endian empty config 512 1000 20000
            ≡ (d', ok found))
          × ((create_maya_partitions config (reference_header 512 1000 (guid 7)) 512 1000
                ≡ ok reference)
              × (validate_label little_endian d' reference 512 ≡ ok (with_status found both))))))
validate_label-create_label_example =
    validate_label-create_label little_endian little_endian-IsCodec empty config config (guid 7) 512
      1000 20000 config-IsConfig roomy (device_of-IsWorking (λ offset. none) (λ i. 0))
      (λ offset. refl)

update_label-create_label_example :
    (d' : LabelDevice) × ((found : NexusLabel) × ((reference : GptEntry × GptEntry) × ((create_label
              little_endian empty config 512 1000 20000
            ≡ (d', ok found))
          × ((create_maya_partitions config (reference_header 512 1000 (guid 7)) 512 1000
                ≡ ok reference)
              × (update_label little_endian d' reference config 512 1000 20000
                  ≡ (d', ok (with_status found both)))))))
update_label-create_label_example =
    update_label-create_label little_endian little_endian-IsCodec empty config (guid 7) 512 1000
      20000 config-IsConfig roomy (device_of-IsWorking (λ offset. none) (λ i. 0)) (λ offset. refl)

abbrev no_header : LabelDevice → (at : ℕ) → Buffer
no_header d at = part little_endian little_endian-IsCodec d at 512

zero_secondary :
    (fails : ℕ → Option ℕ)
    → IsInvalid (
        read_secondary_header little_endian
          (no_header (device_of fails (λ i. 0)) (last_block 512 20000))
          512
          20000)
unfolding little_endian read_secondary_header header_from_slice check_header
zero_secondary fails = (gpt_header_size 0 92, refl)

abbrev cut_at : ℕ → Option ℕ
cut_at offset = if offset == (label.primary.lba_end + 1) * 512 then some 5 else none

write_label_interrupted_example :
    (d' : LabelDevice) × ((write_label little_endian (device_of cut_at (λ i. 0)) label
        ≡ (d', err (write_error 5)))
      × (probe_label little_endian d' ≡ ok (with_status label primary_only)))
unfolding new_header get_blocks checksum_header
write_label_interrupted_example =
    write_label_interrupted little_endian little_endian-IsCodec (device_of cut_at (λ i. 0)) label
      512 20000 5 label-IsLabel (device_of-IsWorking cut_at (λ i. 0)) refl refl refl
      (zero_secondary cut_at)

reference_header-new_header_example :
    reference_header 512 1000 (guid 7)
    ≡ new_header 512
        (mebibyte / 512
          + get_blocks metadata_partition_size 512
          + 1000
          + get_blocks gpt_table_size 512
          + 1)
        (guid 7)
unfolding get_blocks
reference_header-new_header_example =
    reference_header-new_header 512 1000 (guid 7) (omega arith) (omega arith)

abbrev entry_bytes : List ℕ
entry_bytes = serialize_entry little_endian (meta_of config 512)

-- A header whose last usable block is just before the backup header.
abbrev tight : GptHeader
tight = header_at 19999 2048 19998 (guid 7)

backup_without_room_example :
    validate_secondary_header (to_backup little_endian tight) 512 20000 ≡ err partition_table_space
unfolding get_blocks validate_primary_header
backup_without_room_example =
    backup_without_room little_endian tight 512 20000 (omega arith) (omega arith) (omega arith) refl
      (omega arith)
