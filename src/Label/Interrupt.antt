-- ===== src/Label/Interrupt.antt =====
-- `write_label` of nexus_label.rs cut off after its first part.
use co_create_openebs.Label.Geometry.{mul_mono}
use co_create_openebs.Label.Probe.{IsLabel, IsWorking, last_block, part}
use co_create_openebs.Label.Found.{probe_found}
use co_create_openebs.Label.Statuses.{IsInvalid, found_primary}
use co_create_openebs.Label.Writes.{primary_data, secondary_data, IsPrimaryData}
use co_create_openebs.Label.Stores.{with_stored, with_stored-IsWorking, primary_stored}
use co_create_openebs.Label.RoundTrip.{with_status, write_at-eq, write_at_fails}
use co_create_openebs.Label.Layout.{NexusLabel, neither, primary_only, write_error}
use co_create_openebs.Label.Laws.{IsCodec}
use co_create_openebs.Label.Format.{Codec, Buffer}
use co_create_openebs.Label.Validate.{read_secondary_header}
use co_create_openebs.Label.Disk.{
  LabelDevice, write_at, write_label, probe_label, get_primary_data, get_secondary_data, stored,
}
use co_create_openebs.Prelude.{
  ℕ, ok, err, none, some, ◌≡◌, ◌*◌, ◌+◌, refl, arith, ◌-◌, ltb, false, leb, true,
}

module _ (c : Codec) (law : IsCodec c) where
  -- The last block is not part of the first write.
  last_kept :
      (d : LabelDevice) (label : NexusLabel) (s n : ℕ) (buf : Buffer)
      → IsLabel c law label s n
      → IsPrimaryData c law label s buf
      → part c law (with_stored d 0 buf) (last_block s n) s ≡ part c law d (last_block s n) s
  last_kept d label s n buf h p =
      let m =
        mul_mono label.primary.lba_start (n - 1) s
          (omega (arith, h.place.order, h.place.after, h.place.alt)) in
      let same : (i : ℕ)
          → stored d.contents 0 buf (last_block s n + i) ≡ d.contents (last_block s n + i) =
        λ i.
          let e : ltb (last_block s n + i) (0 + buf.len) ≡ false = ground (arith, p.len) in
          let l : leb 0 (last_block s n + i) ≡ true = ground arith in rw (l, e) refl in
      λ k. record { len = s; byte = λ i. same i k }

  write_cut-eq :
      (d d1 : LabelDevice) (label : NexusLabel) (at at' e : ℕ) (first second : Buffer)
      → label.status ≡ neither
      → get_primary_data c d label ≡ ok (at, first)
      → get_secondary_data c d label ≡ ok (at', second)
      → write_at d at first ≡ (d1, ok tt)
      → write_at d1 at' second ≡ (d1, err (write_error e))
      → write_label c d label ≡ (d1, err (write_error e))
  unfolding write_label
  write_cut-eq d d1 label at at' e first second s e1 e2 r1 r2 =
      rw (s, e1, e2, r1, r2, write_label) refl

  -- If only the second of the two writes of a new label fails, on a device that has no valid secondary
  -- header, `write_label` returns the error of that write, and what the device then has is found with
  -- the status `primary_only`, as the label that was to be written.
  pub write_label_interrupted :
      (d : LabelDevice) (label : NexusLabel) (s n e : ℕ)
      → IsLabel c law label s n
      → IsWorking d s n
      → label.status ≡ neither
      → d.write_fails 0 ≡ none
      → d.write_fails ((label.primary.lba_end + 1) * s) ≡ some e
      → IsInvalid (read_secondary_header c (part c law d (last_block s n) s) s n)
      → (d' : LabelDevice) × ((write_label c d label ≡ (d', err (write_error e)))
          × (probe_label c d' ≡ ok (with_status label primary_only)))
  write_label_interrupted d label s n e h w new first_ok second_fails invalid =
      let (first, (e1, p)) = primary_data c law d label s n h w in
      let (second, (e2, q)) = secondary_data c law d label s n h w in
      let at : ℕ = (label.primary.lba_end + 1) * s in
      let d1 = with_stored d 0 first in
      let w1 = with_stored-IsWorking d 0 first s n w in
      let (m1, p1) = primary_stored c law label s n h w.large d.contents first p in
      let still : IsInvalid (read_secondary_header c (part c law d1 (last_block s n) s) s n) =
        rw (last_kept d label s n first h p) invalid in
      (
        d1,
        (
          write_cut-eq d d1 label 0 at e first second new e1 e2
              (write_at-eq d 0 s n first w first_ok)
              (write_at_fails d1 at s n e second w1 second_fails),
          probe_found c law d1 label s n primary_only h w1 m1
              (found_primary c law d1 label s n h w1 p1 still),
        ),
      )
