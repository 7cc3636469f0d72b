-- ===== src/Label/DamageTests.antt =====
-- The label code at devices that have all parts of a label, or lack one.
use co_create_openebs.Label.Sizes.{HasValid, validate_child_labels_lem, each_child_step}
use co_create_openebs.Label.Created.{validate_chain, check_created, reference-eq}
use co_create_openebs.Label.Generated.{data_start, meta_of, data_of}
use co_create_openebs.Label.Update.{
  each_child, validate_label, LabelNexus, validate_child_labels, lower_blocks, reference_partitions,
  new_config, data_block_count, get_partition,
}
use co_create_openebs.Label.Writes.{table_len}
use co_create_openebs.Label.Table.{to_backup-IsSigned}
use co_create_openebs.Label.Bytes.{overlay-Agrees, overlay_keeps, Agrees}
use co_create_openebs.Label.Statuses.{IsInvalid}
use co_create_openebs.Label.Format.{
  checksum_header, serialize_entry, to_backup, serialize_entries, serialize_units, fill_units,
}
use co_create_openebs.Label.Validate.{
  read_secondary_header, header_from_slice, check_header, read_primary_header,
}
use co_create_openebs.Label.LittleEndian.{little_endian, little_endian-IsCodec}
use co_create_openebs.Label.Probe.{part, last_block, HasMbr, HasSecondary, HasPrimary}
use co_create_openebs.Label.RoundTrip.{
  with_status, probe_label_primary_only, probe_label_secondary_only, parts_found,
}
use co_create_openebs.Label.Layout.{
  get_blocks, both, new_header, primary_only, gpt_header_size, secondary_only, protect, GptEntry,
  GptGuid, LabelError, NexusLabel,
}
use co_create_openebs.Label.Disk.{LabelDevice, write_label, probe_label, overlay}
use co_create_openebs.Prelude.{
  ℕ, ok, none, ◌≡◌, ◌+◌, ◌*◌, refl, arith, Option, List, length, ◌≤◌, inl, ◌∷◌, [], All, ◌-◌, ap,
  Result, ◌>>=◌, ◌∙◌,
}
use co_create_openebs.Label.Tests.{
  label, device_of, device_of-IsWorking, label-IsLabel, guid, roomy, config,
}

abbrev mbr_bytes : List ℕ
mbr_bytes = little_endian.serialize_mbr label.mbr

abbrev primary_bytes : List ℕ
primary_bytes = little_endian.serialize_header label.primary

abbrev secondary_bytes : List ℕ
secondary_bytes = little_endian.serialize_header label.secondary

abbrev entries_bytes : List ℕ
entries_bytes = serialize_entries little_endian label.partitions

-- The place of the backup table.
abbrev backup_at : ℕ
backup_at = 19967 * 512

abbrev with_mbr : ℕ → ℕ
with_mbr = overlay (λ i. 0) 440 mbr_bytes

abbrev with_primary : ℕ → ℕ
with_primary = overlay (overlay with_mbr 512 primary_bytes) 1024 entries_bytes

abbrev with_secondary : (ℕ → ℕ) → ℕ → ℕ
with_secondary f = overlay (overlay f backup_at entries_bytes) (19999 * 512) secondary_bytes

sizes :
    (length mbr_bytes ≡ 72)
    × ((length primary_bytes ≡ 92) × ((length secondary_bytes ≡ 92) × (length entries_bytes ≡ 256)))
sizes = (
  little_endian-IsCodec.mbr_len label.mbr label-IsLabel.mbr,
  (
    little_endian-IsCodec.header_len label.primary label-IsLabel.signed.header,
    (
      little_endian-IsCodec.header_len label.secondary
          (to_backup-IsSigned little_endian little_endian-IsCodec label.primary
            label-IsLabel.signed).header,
      table_len little_endian little_endian-IsCodec label 512 20000 label-IsLabel,
    ),
  ),
)

with_mbr-HasMbr : HasMbr little_endian little_endian-IsCodec with_mbr label
with_mbr-HasMbr = record { mbr = overlay-Agrees (λ i. 0) 440 mbr_bytes }

mbr_behind_primary : HasMbr little_endian little_endian-IsCodec with_primary label
mbr_behind_primary = record {
  mbr =
      overlay_keeps (overlay with_mbr 512 primary_bytes) 1024 entries_bytes 440 mbr_bytes
        (inl (omega (arith, sizes.0)))
        (overlay_keeps with_mbr 512 primary_bytes 440 mbr_bytes (inl (omega (arith, sizes.0)))
          with_mbr-HasMbr.mbr);
}

with_primary-HasPrimary : HasPrimary little_endian little_endian-IsCodec with_primary label 512
with_primary-HasPrimary = record {
  header =
      overlay_keeps (overlay with_mbr 512 primary_bytes) 1024 entries_bytes 512 primary_bytes
        (inl (omega (arith, sizes.1.0))) (overlay-Agrees with_mbr 512 primary_bytes);
  table = overlay-Agrees (overlay with_mbr 512 primary_bytes) 1024 entries_bytes;
}

module _ (f : ℕ → ℕ) where
  -- What lies before the backup is kept.
  behind_secondary :
      (at : ℕ) (xs : List ℕ)
      → at + length xs ≤ backup_at
      → Agrees f at xs
      → Agrees (with_secondary f) at xs
  behind_secondary at xs l h =
      overlay_keeps (overlay f backup_at entries_bytes) (19999 * 512) secondary_bytes at xs
        (inl (omega arith)) (overlay_keeps f backup_at entries_bytes at xs (inl l) h)

  with_secondary-HasSecondary :
      HasSecondary little_endian little_endian-IsCodec (with_secondary f) label 512 20000
  unfolding new_header get_blocks checksum_header
  with_secondary-HasSecondary = record {
    header = overlay-Agrees (overlay f backup_at entries_bytes) (19999 * 512) secondary_bytes;
    table =
        overlay_keeps (overlay f backup_at entries_bytes) (19999 * 512) secondary_bytes backup_at
          entries_bytes (inl (omega (arith, sizes.1.1.1)))
          (overlay-Agrees f backup_at entries_bytes);
  }

abbrev can_write : ℕ → Option ℕ
can_write offset = none

abbrev device : (ℕ → ℕ) → LabelDevice
device f = device_of can_write f

zero_primary : IsInvalid (
    read_primary_header little_endian
      (part little_endian little_endian-IsCodec (device (with_secondary with_mbr)) 512 512)
      512
      20000)
unfolding little_endian header_from_slice check_header read_primary_header protect serialize_entries
    serialize_entry serialize_units fill_units new_header get_blocks checksum_header to_backup
zero_primary = (gpt_header_size 0 92, refl)

probe_label_secondary_only_example :
    (probe_label little_endian (device (with_secondary with_mbr))
      ≡ ok (with_status label secondary_only))
    × ((d' : LabelDevice) × ((write_label little_endian
              (device (with_secondary with_mbr))
              (with_status label secondary_only)
            ≡ (d', ok tt))
          × (probe_label little_endian d' ≡ ok (with_status label both))))
probe_label_secondary_only_example =
    probe_label_secondary_only little_endian little_endian-IsCodec
      (device (with_secondary with_mbr)) label 512 20000 label-IsLabel
      (device_of-IsWorking can_write (with_secondary with_mbr)) (λ offset. refl)
      (record {
        mbr = behind_secondary with_mbr 440 mbr_bytes (omega (arith, sizes.0)) with_mbr-HasMbr.mbr;
      })
      (with_secondary-HasSecondary with_mbr) zero_primary

no_secondary : IsInvalid (
    read_secondary_header little_endian
      (part little_endian little_endian-IsCodec (device with_primary) (last_block 512 20000) 512)
      512
      20000)
unfolding little_endian header_from_slice check_header read_secondary_header protect
    serialize_entries serialize_entry serialize_units fill_units new_header get_blocks
    checksum_header to_backup
no_secondary = (gpt_header_size 0 92, refl)

probe_label_primary_only_example :
    (probe_label little_endian (device with_primary) ≡ ok (with_status label primary_only))
    × ((d' : LabelDevice) × ((write_label little_endian
              (device with_primary)
              (with_status label primary_only)
            ≡ (d', ok tt))
          × (probe_label little_endian d' ≡ ok (with_status label both))))
probe_label_primary_only_example =
    probe_label_primary_only little_endian little_endian-IsCodec (device with_primary) label 512
      20000 label-IsLabel (device_of-IsWorking can_write with_primary) (λ offset. refl)
      mbr_behind_primary with_primary-HasPrimary no_secondary

abbrev whole : LabelDevice
whole = device (with_secondary with_primary)

whole_found : probe_label little_endian whole ≡ ok (with_status label both)
unfolding new_header get_blocks checksum_header
whole_found =
    parts_found little_endian little_endian-IsCodec whole label 512 20000 label-IsLabel
      (device_of-IsWorking can_write (with_secondary with_primary))
      (record {
        mbr =
            behind_secondary with_primary 440 mbr_bytes (omega (arith, sizes.0))
              mbr_behind_primary.mbr;
      })
      (record {
        header =
            behind_secondary with_primary 512 primary_bytes (omega (arith, sizes.1.0))
              with_primary-HasPrimary.header;
        table =
            behind_secondary with_primary 1024 entries_bytes (omega (arith, sizes.1.1.1))
              with_primary-HasPrimary.table;
      })
      (with_secondary-HasSecondary with_primary)

abbrev nexus : LabelNexus
nexus = record {
  guid = guid 7;
  block_len = 512;
  size = 512000;
  data_ent_offset = 0;
  block_count = 0;
  children = whole ∷ [];
}

abbrev random : GptGuid × GptGuid
random = (guid 1, guid 2)

abbrev reference : GptEntry × GptEntry
reference = (
  meta_of (new_config (guid 7) random) 512,
  data_of (new_config (guid 7) random) 512 1000 (data_start 512 + 1000 - 1),
)

whole_valid : validate_label little_endian whole reference 512 ≡ ok (with_status label both)
whole_valid =
    validate_chain little_endian little_endian-IsCodec whole reference label 512 whole_found (
      check_created little_endian config (new_config (guid 7) random) 512 1000 20000 (omega arith)
        (omega arith) roomy)

whole_blocks : lower_blocks 1000 (with_status label both) ≡ ok 1000
unfolding lower_blocks data_block_count get_partition get_blocks
whole_blocks = refl

whole_loop :
    each_child
      (λ d. (d, validate_label little_endian d reference d.block_len))
      lower_blocks
      1000
      (whole ∷ [])
    ≡ (whole ∷ [], ok 1000)
unfolding each_child
whole_loop =
    each_child_step (λ d. (d, validate_label little_endian d reference d.block_len)) 1000 whole []
      1000 refl
      (ap (λ (r : Result LabelError NexusLabel). r >>= lower_blocks 1000) whole_valid
        ∙ whole_blocks)

abbrev validated : LabelNexus
validated = record nexus { data_ent_offset = data_start 512; block_count = 1000 }

whole_validated : validate_child_labels little_endian random nexus ≡ (validated, ok tt)
unfolding validate_child_labels reference_partitions
whole_validated =
    let e = reference-eq (new_config (guid 7) random) 512 1000 20000 (guid 7) (omega arith) roomy in
    rw (e, whole_loop) refl

validate_child_labels_lem_example :
    (reference : GptEntry × GptEntry) × ((reference_partitions nexus (new_config (guid 7) random)
        ≡ ok reference)
      × (All (HasValid little_endian reference 1000) (whole ∷ [])
          × ((1000 ≤ 1000)
              × ((data_start 512 ≡ reference.1.ent_start) × ((whole ∷ []) ≡ (whole ∷ []))))))
validate_child_labels_lem_example =
    validate_child_labels_lem little_endian random nexus validated whole_validated
