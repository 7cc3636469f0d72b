-- ===== src/Label/Found.antt =====
-- What `probe_label` of nexus_label.rs makes of a device with both headers, or with only one.
use co_create_openebs.Label.Geometry.{mul_mono}
use co_create_openebs.Label.Bytes.{Agrees, shift_bytes, move_bytes, same_bytes}
use co_create_openebs.Label.Probe.{IsLabel, HasMbr, IsWorking, part, last_block, read_at-eq}
use co_create_openebs.Label.Layout.{NexusLabel, NexusLabelStatus}
use co_create_openebs.Label.Validate.{
  read_mbr, mbr_from_slice, read_primary_header, read_secondary_header, bytes_eq,
}
use co_create_openebs.Label.Disk.{
  probe_headers, read_at, LabelDevice, probe_label, choose_headers, probe_partitions, active_header,
}
use co_create_openebs.Label.Laws.{IsCodec}
use co_create_openebs.Label.Format.{Codec, Buffer}
use co_create_openebs.Prelude.{
  true, ℕ, mul_u64, ◌≡◌, ok, sub_u64, ◌-◌, ◌+◌, arith, ◌∷◌, [], refl, ap,
}

module _ (c : Codec) (law : IsCodec c) where
  -- What the two headers of a device give.
  pub record Finds (d : LabelDevice) (label : NexusLabel) (s n : ℕ) (status : NexusLabelStatus)
      : Type 0 where
    pub headers :
        choose_headers c
          (read_primary_header c (part c law d s s) s n)
          (read_secondary_header c (part c law d (last_block s n) s) s n)
        ≡ ok (status, (label.primary, label.secondary))
    pub table :
        probe_partitions c d (active_header c status label.primary label.secondary)
        ≡ ok label.partitions

  mbr_read_back :
      (d : LabelDevice) (label : NexusLabel) (s n : ℕ)
      → IsLabel c law label s n
      → HasMbr c law d.contents label
      → read_mbr c (part c law d 0 s) ≡ ok label.mbr
  unfolding read_mbr mbr_from_slice
  mbr_read_back d label s n h m =
      let slice : Buffer = record { len = 72; byte = λ i. d.contents (0 + (440 + i)) } in
      let a : Agrees slice.byte 0 (c.serialize_mbr label.mbr) =
        shift_bytes (λ i. d.contents (0 + i)) 440 0 (c.serialize_mbr label.mbr)
          (move_bytes (λ i. d.contents (0 + i)) 440 (440 + 0) (c.serialize_mbr label.mbr)
            (omega arith)
            (same_bytes d.contents (λ i. d.contents (0 + i)) 440 (c.serialize_mbr label.mbr)
              (λ i p q. ap d.contents (omega arith)) m.mbr)) in
      let r = law.mbr_read slice 0 label.mbr h.mbr (omega arith) a in
      let k : bytes_eq label.mbr.signature (0x55 ∷ 0xaa ∷ []) ≡ true = rw h.mbr_magic refl in
      rw (r, k, read_mbr, mbr_from_slice) refl

  last_block-eq :
      (d : LabelDevice) (label : NexusLabel) (s n : ℕ)
      → IsLabel c law label s n
      → IsWorking d s n
      → mul_u64 (sub_u64 n 1) s ≡ last_block s n
  last_block-eq d label s n h w =
      let e : sub_u64 n 1 ≡ n - 1 = omega (arith, h.place.alt, h.place.bound) in
      rw e (omega (arith, mul_mono (n - 1) n s (omega arith), w.addressed))

  probe_headers-eq :
      (d : LabelDevice) (label : NexusLabel) (s n : ℕ) (status : NexusLabelStatus)
      → IsLabel c law label s n
      → IsWorking d s n
      → Finds d label s n status
      → probe_headers c d ≡ ok (status, (label.primary, label.secondary))
  unfolding probe_headers read_at
  probe_headers-eq d label s n status h w f =
      rw
        (
          w.block_len,
          w.num_blocks,
          last_block-eq d label s n h w,
          read_at-eq c law d s n s s w,
          read_at-eq c law d s n (last_block s n) s w,
          probe_headers,
        )
        f.headers

  -- The label is found, with that status.
  pub probe_found :
      (d : LabelDevice) (label : NexusLabel) (s n : ℕ) (status : NexusLabelStatus)
      → IsLabel c law label s n
      → IsWorking d s n
      → HasMbr c law d.contents label
      → Finds d label s n status
      → probe_label c d ≡ ok (record label { status = status })
  unfolding probe_label
  probe_found d label s n status h w m f = simp (
    w.handles,
    w.block_len,
    w.allocates s,
    read_at-eq c law d s n 0 s w,
    mbr_read_back d label s n h m,
    probe_headers-eq d label s n status h w f,
    h.mbr_size,
    f.table,
    h.used,
  )
