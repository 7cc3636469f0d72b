-- ===== src/Label/Created.antt =====
-- A label that `create_label` of nexus_label.rs writes passes `validate_label`.
use co_create_openebs.Label.Table.{bytes_eq_refl}
use co_create_openebs.Label.Validate.{guid_eq}
use co_create_openebs.Label.Geometry.{IsRoomy, get_blocks_cover}
use co_create_openebs.Label.Probe.{IsWorking}
use co_create_openebs.Label.Statuses.{mul_fits}
use co_create_openebs.Label.RoundTrip.{IsWritable, with_status, probe_label-write_label}
use co_create_openebs.Label.Generated.{
  IsConfig, data_start, meta_of, data_of, generated, generate_label-eq, generated-IsLabel,
}
use co_create_openebs.Label.Layout.{
  NexusLabel, GptEntry, GptGuid, LabelConfig, get_blocks, metadata_partition_size, reference_header,
  create_maya_partitions, both, new_header,
}
use co_create_openebs.Label.Laws.{IsCodec}
use co_create_openebs.Label.Format.{Codec, generate_label, checksum_header}
use co_create_openebs.Label.Disk.{LabelDevice, write_label, probe_label}
use co_create_openebs.Label.Update.{
  create_label, validate_label, check_maya_partitions, get_partition, entry_blocks, update_label,
  adopt_label,
}
use co_create_openebs.Prelude.{
  ℕ, true, ok, ◌≡◌, ◌≤◌, ◌<◌, ◌*◌, ◌+◌, ◌-◌, arith, refl, u64_mod, mul_u64,
}

pub reference-eq :
    (config : LabelConfig) (s d n : ℕ) (guid : GptGuid)
    → 512 ≤ s
    → IsRoomy s d n
    → create_maya_partitions config (reference_header s d guid) s d
      ≡ ok (meta_of config s, data_of config s d (data_start s + d - 1))
unfolding create_maya_partitions reference_header
reference-eq config s d n guid l r = ground arith

pub check_created :
    (c : Codec) (config config' : LabelConfig) (s d n : ℕ)
    → 512 ≤ s
    → n * s < u64_mod
    → IsRoomy s d n
    → check_maya_partitions
        (meta_of config' s, data_of config' s d (data_start s + d - 1))
        (with_status (generated c config s d n) both)
        s
      ≡ true
unfolding check_maya_partitions get_partition
check_created c config config' s d n l b r =
    let m = get_blocks metadata_partition_size s in
    let count : entry_blocks (meta_of config s) ≡ m = omega arith in
    let fits : mul_u64 m s ≡ m * s = mul_fits m n s (omega (arith, r.metadata)) b in
    let cover = get_blocks_cover metadata_partition_size s (omega (arith, l)) in ground arith

module _ (c : Codec) (law : IsCodec c) where
  create_chain :
      (d d' : LabelDevice) (config : LabelConfig) (label : NexusLabel) (s data_blocks n : ℕ)
      → generate_label c config s data_blocks n ≡ ok label
      → write_label c d label ≡ (d', ok tt)
      → create_label c d config s data_blocks n ≡ (d', ok label)
  unfolding create_label
  create_chain d d' config label s data_blocks n e1 e2 = rw (e1, e2, create_label) refl

  pub validate_chain :
      (d : LabelDevice) (reference : GptEntry × GptEntry) (label : NexusLabel) (s : ℕ)
      → probe_label c d ≡ ok (with_status label both)
      → check_maya_partitions reference (with_status label both) s ≡ true
      → validate_label c d reference s ≡ ok (with_status label both)
  unfolding validate_label
  validate_chain d reference label s e k = rw (e, k, validate_label) refl

  created :
      (d : LabelDevice) (config : LabelConfig) (s data_blocks n : ℕ)
      → IsConfig config
      → IsRoomy s data_blocks n
      → IsWorking d s n
      → IsWritable d
      → (d' : LabelDevice) × ((create_label c d config s data_blocks n
            ≡ (d', ok (generated c config s data_blocks n)))
          × (probe_label c d' ≡ ok (with_status (generated c config s data_blocks n) both)))
  created d config s data_blocks n g r w writes =
      let label = generated c config s data_blocks n in
      let h = generated-IsLabel c law config s data_blocks n g r w.large in
      let (d', (written, found)) = probe_label-write_label c law d label s n h w writes refl in
      (
        d',
        (
          create_chain d d' config label s data_blocks n
              (generate_label-eq c config s data_blocks n r) written,
          found,
        ),
      )

  -- On a device that works, whose blocks of at least 512 bytes leave room for the label, `create_label`
  -- succeeds with the label that `generate_label` makes, and `validate_label` then accepts what is on
  -- the device against the reference partitions of the nexus, and returns that label with both parts.
  pub validate_label-create_label :
      (d : LabelDevice) (config config' : LabelConfig) (guid : GptGuid) (s data_blocks n : ℕ)
      → IsConfig config
      → IsRoomy s data_blocks n
      → IsWorking d s n
      → IsWritable d
      → (d' : LabelDevice) × ((label : NexusLabel) × ((reference : GptEntry × GptEntry)
            × ((create_label c d config s data_blocks n ≡ (d', ok label))
                × ((create_maya_partitions config'
                        (reference_header s data_blocks guid)
                        s
                        data_blocks
                      ≡ ok reference)
                    × (validate_label c d' reference s ≡ ok (with_status label both))))))
  validate_label-create_label d config config' guid s data_blocks n g r w writes =
      let label = generated c config s data_blocks n in
      let (d', (written, found)) = created d config s data_blocks n g r w writes in
      let same = check_created c config config' s data_blocks n w.large w.addressed r in
      (
        d',
        (
          label,
          (
            _,
            (
              written,
              (
                reference-eq config' s data_blocks n guid w.large r,
                validate_chain d' _ label s found same,
              ),
            ),
          ),
        ),
      )

  update_chain :
      (d : LabelDevice) (reference : GptEntry × GptEntry) (config : LabelConfig)
      (label : NexusLabel) (s data_blocks n : ℕ)
      → probe_label c d ≡ ok (with_status label both)
      → check_maya_partitions reference (with_status label both) s ≡ true
      → guid_eq label.primary.guid config.disk_guid ≡ true
      → update_label c d reference config s data_blocks n ≡ (d, ok (with_status label both))
  unfolding update_label adopt_label write_label
  update_chain d reference config label s data_blocks n e k g =
      rw (e, k, update_label, adopt_label, g, write_label) refl

  guid_eq_refl : (g : GptGuid) → guid_eq g g ≡ true
  guid_eq_refl g = ground (arith, bytes_eq_refl c law g.node)

  -- After `create_label` has succeeded on a device that works, whose blocks of at least 512 bytes leave
  -- room for the label, `update_label` with the same configuration and the reference partitions of the
  -- nexus leaves the device as it is, and returns the label that was created, with both parts.
  pub update_label-create_label :
      (d : LabelDevice) (config : LabelConfig) (guid : GptGuid) (s data_blocks n : ℕ)
      → IsConfig config
      → IsRoomy s data_blocks n
      → IsWorking d s n
      → IsWritable d
      → (d' : LabelDevice) × ((label : NexusLabel) × ((reference : GptEntry × GptEntry)
            × ((create_label c d config s data_blocks n ≡ (d', ok label))
                × ((create_maya_partitions config
                        (reference_header s data_blocks guid)
                        s
                        data_blocks
                      ≡ ok reference)
                    × (update_label c d' reference config s data_blocks n
                        ≡ (d', ok (with_status label both)))))))
  unfolding checksum_header new_header
  update_label-create_label d config guid s data_blocks n g r w writes =
      let label = generated c config s data_blocks n in
      let (d', (written, found)) = created d config s data_blocks n g r w writes in
      let same = check_created c config config s data_blocks n w.large w.addressed r in
      (
        d',
        (
          label,
          (
            _,
            (
              written,
              (
                reference-eq config s data_blocks n guid w.large r,
                update_chain d' _ config label s data_blocks n found same
                    (guid_eq_refl config.disk_guid),
              ),
            ),
          ),
        ),
      )
