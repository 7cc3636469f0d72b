-- ===== src/Label/RoundTrip.antt =====
-- `write_label` and then `probe_label` of nexus_label.rs: what is written is found, with both parts.
use co_create_openebs.Label.Validate.{read_primary_header, read_secondary_header}
use co_create_openebs.Label.Probe.{
  IsLabel, IsWorking, HasMbr, HasPrimary, HasSecondary, part, last_block,
}
use co_create_openebs.Label.Found.{probe_found}
use co_create_openebs.Label.Statuses.{found_both, IsInvalid, found_secondary, found_primary}
use co_create_openebs.Label.Writes.{primary_data, secondary_data, IsPrimaryData, IsSecondaryData}
use co_create_openebs.Label.Stores.{
  with_stored, with_stored-IsWorking, primary_stored, secondary_stored, secondary_keeps,
  primary_keeps,
}
use co_create_openebs.Label.Layout.{
  NexusLabel, NexusLabelStatus, both, neither, write_error, secondary_only, primary_only,
}
use co_create_openebs.Label.Laws.{IsCodec}
use co_create_openebs.Label.Format.{Codec, Buffer}
use co_create_openebs.Label.Disk.{
  LabelDevice, write_at, write_label, probe_label, get_primary_data, get_secondary_data,
}
use co_create_openebs.Prelude.{ℕ, ok, err, none, some, ◌≡◌, ◌*◌, ◌+◌, refl}

abbrev pub with_status : NexusLabel → NexusLabelStatus → NexusLabel
with_status label status = record label { status = status }

-- Writes do not fail.
abbrev pub IsWritable : LabelDevice → Type 0
IsWritable d = (offset : ℕ) → d.write_fails offset ≡ none

pub write_at-eq :
    (d : LabelDevice) (offset s n : ℕ) (buf : Buffer)
    → IsWorking d s n
    → d.write_fails offset ≡ none
    → write_at d offset buf ≡ (with_stored d offset buf, ok tt)
unfolding write_at
write_at-eq d offset s n buf w e = simp (w.handles, e)

pub write_at_fails :
    (d : LabelDevice) (offset s n e : ℕ) (buf : Buffer)
    → IsWorking d s n
    → d.write_fails offset ≡ some e
    → write_at d offset buf ≡ (d, err (write_error e))
unfolding write_at
write_at_fails d offset s n e buf w p = simp (w.handles, p)

module _ (c : Codec) (law : IsCodec c) where
  -- The status of a label is not on the device.
  pub with_status-IsLabel :
      (label : NexusLabel) (status : NexusLabelStatus) (s n : ℕ)
      → IsLabel c law label s n
      → IsLabel c law (with_status label status) s n
  with_status-IsLabel label status s n h = record {
    place = h.place;
    signed = h.signed;
    secondary = h.secondary;
    two = h.two;
    entries = h.entries;
    used = h.used;
    checked = h.checked;
    crc = h.crc;
    mbr = h.mbr;
    mbr_magic = h.mbr_magic;
    mbr_size = h.mbr_size;
  }

  write_both-eq :
      (d d1 d2 : LabelDevice) (label : NexusLabel) (at at' : ℕ) (first second : Buffer)
      → label.status ≡ neither
      → get_primary_data c d label ≡ ok (at, first)
      → get_secondary_data c d label ≡ ok (at', second)
      → write_at d at first ≡ (d1, ok tt)
      → write_at d1 at' second ≡ (d2, ok tt)
      → write_label c d label ≡ (d2, ok tt)
  unfolding write_label
  write_both-eq d d1 d2 label at at' first second e e1 e2 r1 r2 =
      rw (e, e1, e2, r1, r2, write_label) refl

  -- Both parts are on the device.
  pub parts_found :
      (d : LabelDevice) (label : NexusLabel) (s n : ℕ)
      → IsLabel c law label s n
      → IsWorking d s n
      → HasMbr c law d.contents label
      → HasPrimary c law d.contents label s
      → HasSecondary c law d.contents label s n
      → probe_label c d ≡ ok (with_status label both)
  parts_found d label s n h w m p q =
      probe_found c law d label s n both h w m (found_both c law d label s n h w p q)

  -- A label that is on no part of the device, and is right for it, is written to a device that works
  -- without an error, and is then found whole: with the same MBR, headers and partitions, and with the
  -- status `both`.
  pub probe_label-write_label :
      (d : LabelDevice) (label : NexusLabel) (s n : ℕ)
      → IsLabel c law label s n
      → IsWorking d s n
      → IsWritable d
      → label.status ≡ neither
      → (d' : LabelDevice) × ((write_label c d label ≡ (d', ok tt))
          × (probe_label c d' ≡ ok (with_status label both)))
  probe_label-write_label d label s n h w writes e =
      let (first, (e1, p)) = primary_data c law d label s n h w in
      let (second, (e2, q)) = secondary_data c law d label s n h w in
      let at : ℕ = (label.primary.lba_end + 1) * s in
      let d1 = with_stored d 0 first in
      let w1 = with_stored-IsWorking d 0 first s n w in
      let d2 = with_stored d1 at second in
      let w2 = with_stored-IsWorking d1 at second s n w1 in
      let (m1, p1) = primary_stored c law label s n h w.large d.contents first p in
      let (m2, p2) = secondary_keeps c law label s n h w.large d1.contents second m1 p1 in
      let q2 = secondary_stored c law label s n h w.large d1.contents second q in
      (
        d2,
        (
          write_both-eq d d1 d2 label 0 at first second e e1 e2
              (write_at-eq d 0 s n first w (writes 0))
              (write_at-eq d1 at s n second w1 (writes at)),
          parts_found d2 label s n h w2 m2 p2 q2,
        ),
      )

  -- Some contents of a device with the label on it.
  pub probe_label_labelled :
      (d : LabelDevice) (label : NexusLabel) (s n : ℕ)
      → IsLabel c law label s n
      → IsWorking d s n
      → (f : ℕ → ℕ) × (probe_label c (record d { contents = f }) ≡ ok (with_status label both))
  probe_label_labelled d label s n h w =
      let (first, (e1, p)) = primary_data c law d label s n h w in
      let (second, (e2, q)) = secondary_data c law d label s n h w in
      let at : ℕ = (label.primary.lba_end + 1) * s in
      let d1 = with_stored d 0 first in
      let d2 = with_stored d1 at second in
      let w2 = with_stored-IsWorking d1 at second s n (with_stored-IsWorking d 0 first s n w) in
      let (m1, p1) = primary_stored c law label s n h w.large d.contents first p in
      let (m2, p2) = secondary_keeps c law label s n h w.large d1.contents second m1 p1 in
      let q2 = secondary_stored c law label s n h w.large d1.contents second q in
      (d2.contents, parts_found d2 label s n h w2 m2 p2 q2)

  write_primary-eq :
      (d d1 : LabelDevice) (label : NexusLabel) (at : ℕ) (first : Buffer)
      → get_primary_data c d (with_status label secondary_only) ≡ ok (at, first)
      → write_at d at first ≡ (d1, ok tt)
      → write_label c d (with_status label secondary_only) ≡ (d1, ok tt)
  unfolding write_label
  write_primary-eq d d1 label at first e1 r1 = rw (e1, r1, write_label) refl

  write_secondary-eq :
      (d d1 : LabelDevice) (label : NexusLabel) (at : ℕ) (second : Buffer)
      → get_secondary_data c d (with_status label primary_only) ≡ ok (at, second)
      → write_at d at second ≡ (d1, ok tt)
      → write_label c d (with_status label primary_only) ≡ (d1, ok tt)
  unfolding write_label
  write_secondary-eq d d1 label at second e1 r1 = rw (e1, r1, write_label) refl

  -- A device that works and has the MBR and the backup of a label, but no valid primary header, is
  -- found with the status `secondary_only` and with the label as it was, the primary header included;
  -- writing what was found succeeds, and the label is then found with both parts.
  pub probe_label_secondary_only :
      (d : LabelDevice) (label : NexusLabel) (s n : ℕ)
      → IsLabel c law label s n
      → IsWorking d s n
      → IsWritable d
      → HasMbr c law d.contents label
      → HasSecondary c law d.contents label s n
      → IsInvalid (read_primary_header c (part c law d s s) s n)
      → (probe_label c d ≡ ok (with_status label secondary_only))
        × ((d' : LabelDevice) × ((write_label c d (with_status label secondary_only) ≡ (d', ok tt))
              × (probe_label c d' ≡ ok (with_status label both))))
  probe_label_secondary_only d label s n h w writes m q i =
      let h' = with_status-IsLabel label secondary_only s n h in
      let (first, (e1, p)) = primary_data c law d (with_status label secondary_only) s n h' w in
      let d1 = with_stored d 0 first in
      let w1 = with_stored-IsWorking d 0 first s n w in
      let p' : IsPrimaryData c law label s first = record {
        len = p.len;
        mbr = record { mbr = p.mbr.mbr };
        primary = record { header = p.primary.header; table = p.primary.table };
      } in
      let (m1, p1) = primary_stored c law label s n h w.large d.contents first p' in
      let q1 = primary_keeps c law label s n h w.large d.contents first p' q in
      (
        probe_found c law d label s n secondary_only h w m
            (found_secondary c law d label s n h w q i),
        (
          d1,
          (
            write_primary-eq d d1 label 0 first e1 (write_at-eq d 0 s n first w (writes 0)),
            parts_found d1 label s n h w1 m1 p1 q1,
          ),
        ),
      )

  -- A device that works and has the MBR and the primary part of a label, but no valid secondary
  -- header, is found with the status `primary_only` and with the label as it was, the backup header
  -- included; writing what was found succeeds, and the label is then found with both parts.
  pub probe_label_primary_only :
      (d : LabelDevice) (label : NexusLabel) (s n : ℕ)
      → IsLabel c law label s n
      → IsWorking d s n
      → IsWritable d
      → HasMbr c law d.contents label
      → HasPrimary c law d.contents label s
      → IsInvalid (read_secondary_header c (part c law d (last_block s n) s) s n)
      → (probe_label c d ≡ ok (with_status label primary_only))
        × ((d' : LabelDevice) × ((write_label c d (with_status label primary_only) ≡ (d', ok tt))
              × (probe_label c d' ≡ ok (with_status label both))))
  probe_label_primary_only d label s n h w writes m p i =
      let h' = with_status-IsLabel label primary_only s n h in
      let (second, (e2, q)) = secondary_data c law d (with_status label primary_only) s n h' w in
      let at : ℕ = (label.primary.lba_end + 1) * s in
      let d1 = with_stored d at second in
      let w1 = with_stored-IsWorking d at second s n w in
      let q' : IsSecondaryData c law label s second = record {
        len = q.len;
        table = q.table;
        header = q.header;
      } in
      let (m1, p1) = secondary_keeps c law label s n h w.large d.contents second m p in
      let q1 = secondary_stored c law label s n h w.large d.contents second q' in
      (
        probe_found c law d label s n primary_only h w m (found_primary c law d label s n h w p i),
        (
          d1,
          (
            write_secondary-eq d d1 label at second e2 (write_at-eq d at s n second w (writes at)),
            parts_found d1 label s n h w1 m1 p1 q1,
          ),
        ),
      )
