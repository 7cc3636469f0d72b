-- ===== src/Label/Statuses.antt =====
-- Which parts of a label `probe_label` of nexus_label.rs finds: both, the primary one or the
-- secondary one.

use co_create_openebs.Label.Geometry.{IsPrimary, mul_mono}
use co_create_openebs.Label.Table.{IsSigned}
use co_create_openebs.Label.Found.{Finds}
use co_create_openebs.Label.Probe.{
  IsLabel, IsWorking, HasPrimary, HasSecondary, part, last_block, table_read, primary_read,
  secondary_read, consistent,
}
use co_create_openebs.Label.Layout.{
  NexusLabel, NexusLabelStatus, GptHeader, GptEntry, ProbeError, LabelError, both, primary_only,
  secondary_only,
}
use co_create_openebs.Label.Laws.{IsCodec}
use co_create_openebs.Label.Format.{Codec, to_backup, to_primary, checksum_header}
use co_create_openebs.Label.Validate.{
  check_entries, consistency_check, read_primary_header, read_secondary_header,
}
use co_create_openebs.Label.Disk.{
  LabelDevice, probe_partitions, choose_headers, secondary_for, primary_for,
}
use co_create_openebs.Prelude.{
  ℕ, List, Result, ok, err, ◌≡◌, ◌≤◌, ◌<◌, ◌*◌, ◌+◌, u64_mod, mul_u64, add_u64, arith, refl, ap,
  ◌∙◌, ◌∷◌, [],
}

abbrev found_headers :
    NexusLabelStatus
    → GptHeader
    → GptHeader
    → Result LabelError (NexusLabelStatus × (GptHeader × GptHeader))
found_headers status primary secondary = ok (status, (primary, secondary))

abbrev pub IsInvalid : {A : Type 0} → Result ProbeError A → Type 0
IsInvalid {A} r = (e : ProbeError) × (r ≡ err e)

pub mul_fits : (a n s : ℕ) → a ≤ n → n * s < u64_mod → mul_u64 a s ≡ a * s
mul_fits a n s l b = omega (arith, mul_mono a n s l)

module _ (c : Codec) (law : IsCodec c) where
  -- A header that is valid comes back from its backup.
  pub to_primary-to_backup :
      (h : GptHeader) (s n : ℕ) → IsPrimary h s n → IsSigned c h → to_primary c (to_backup c h) ≡ h
  unfolding to_primary to_backup checksum_header
  to_primary-to_backup h s n p g =
      let t : add_u64 h.lba_self 1 ≡ h.lba_table = omega (arith, p.self_, p.table) in
      rw (t, g.checksum) refl

  check_entries-to_backup :
      (h : GptHeader) (es : List GptEntry) → check_entries (to_backup c h) es ≡ check_entries h es
  unfolding check_entries to_backup checksum_header
  check_entries-to_backup h [] = refl
  check_entries-to_backup h (e ∷ es) = rw (check_entries-to_backup h es) refl

  primary_table :
      (d : LabelDevice) (label : NexusLabel) (s n : ℕ)
      → IsLabel c law label s n
      → IsWorking d s n
      → HasPrimary c law d.contents label s
      → probe_partitions c d label.primary ≡ ok label.partitions
  primary_table d label s n h w p =
      let t : mul_u64 label.primary.lba_table s ≡ 2 * s =
        rw h.place.table (mul_fits 2 n s (omega (arith, h.place.alt, h.place.after)) w.addressed) in
      table_read c law d label label.primary s n (2 * s) h w h.place.entries h.place.entry t
        h.checked h.crc p.table

  secondary_table :
      (d : LabelDevice) (label : NexusLabel) (s n : ℕ)
      → IsLabel c law label s n
      → IsWorking d s n
      → HasSecondary c law d.contents label s n
      → probe_partitions c d (to_backup c label.primary) ≡ ok label.partitions
  unfolding to_backup checksum_header
  secondary_table d label s n h w p =
      let e : add_u64 label.primary.lba_end 1 ≡ label.primary.lba_end + 1 =
        omega (arith, h.place.alt, h.place.after, h.place.bound) in
      let t : mul_u64 (add_u64 label.primary.lba_end 1) s ≡ (label.primary.lba_end + 1) * s = rw e (
        mul_fits (label.primary.lba_end + 1) n s (omega (arith, h.place.alt, h.place.after))
          w.addressed) in
      table_read c law d label (to_backup c label.primary) s n ((label.primary.lba_end + 1) * s) h w
        h.place.entries h.place.entry t
        (check_entries-to_backup label.primary label.partitions ∙ h.checked) h.crc p.table

  pub found_both :
      (d : LabelDevice) (label : NexusLabel) (s n : ℕ)
      → IsLabel c law label s n
      → IsWorking d s n
      → HasPrimary c law d.contents label s
      → HasSecondary c law d.contents label s n
      → Finds c law d label s n both
  unfolding choose_headers secondary_for
  found_both d label s n h w p q = record {
    headers =
        let k : consistency_check label.primary label.secondary ≡ ok tt =
          rw h.secondary (consistent c law label.primary) in
        rw
          (
            primary_read c law d label s n h w p,
            secondary_read c law d label s n h w q,
            choose_headers,
            secondary_for,
            k,
          )
          refl;
    table = primary_table d label s n h w p;
  }

  pub found_primary :
      (d : LabelDevice) (label : NexusLabel) (s n : ℕ)
      → IsLabel c law label s n
      → IsWorking d s n
      → HasPrimary c law d.contents label s
      → IsInvalid (read_secondary_header c (part c law d (last_block s n) s) s n)
      → Finds c law d label s n primary_only
  unfolding choose_headers secondary_for
  found_primary d label s n h w p (e, q) = record {
    headers =
        rw (primary_read c law d label s n h w p, q, choose_headers, secondary_for, h.secondary)
          refl;
    table = primary_table d label s n h w p;
  }

  pub found_secondary :
      (d : LabelDevice) (label : NexusLabel) (s n : ℕ)
      → IsLabel c law label s n
      → IsWorking d s n
      → HasSecondary c law d.contents label s n
      → IsInvalid (read_primary_header c (part c law d s s) s n)
      → Finds c law d label s n secondary_only
  unfolding choose_headers primary_for
  found_secondary d label s n h w p (e, q) = record {
    headers =
        let back = to_primary-to_backup label.primary s n h.place h.signed in
        let back' : to_primary c label.secondary ≡ label.primary = rw h.secondary back in
        rw (q, secondary_read c law d label s n h w p, choose_headers, primary_for)
          (ap (λ (x : GptHeader). found_headers secondary_only x label.secondary) back');
    table = rw h.secondary (secondary_table d label s n h w p);
  }
