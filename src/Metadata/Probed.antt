-- ===== src/Metadata/Probed.antt =====
-- Reading the header and the index back (`probe_index` of nexus_metadata.rs).
use co_create_openebs.Label.Layout.{get_blocks}
use co_create_openebs.Label.Geometry.{mul_mono, get_blocks_cover, get_blocks_positive}
use co_create_openebs.Metadata.Signed.{indexes_read_back, length-serialize_indexes}
use co_create_openebs.Metadata.Slices.{factor_bounded, slice-Agrees, get_blocks_tight}
use co_create_openebs.Label.Disk.{stored}
use co_create_openebs.Label.Bytes.{Agrees, shift_bytes, move_bytes}
use co_create_openebs.Metadata.RoundTrip.{
  sync_metadata-IsSynced, IsSummed, signed-IsLaidOut, signed-IsSummed,
}
use co_create_openebs.Metadata.Synced.{
  IsLaidOut, block_len_of, IsWritten, with_contents, sizes, read_blocks-eq,
}
use co_create_openebs.Label.Format.{Buffer}
use co_create_openebs.Metadata.Read.{
  meta_from_slice, probe_index, probe_entries, read_index, empty_index, read_blocks,
  serialize_indexes, index_from_slice, index_crc,
}
use co_create_openebs.Metadata.Laws.{IsMetaCodec, FitsEntry}
use co_create_openebs.Metadata.Layout.{MetaCodec, MetaChild, NexusMetaData, as_slice}
use co_create_openebs.Prelude.{
  ℕ, List, ◌*◌, ◌+◌, ◌<◌, ◌≡◌, u64_mod, length, ok, ◌≤◌, Bool-cases, All, ◌++◌, arith, ltb, inr,
  add_u64, nil_of_length, ◌∙◌, sym, ap, ◌==◌, true, refl, inl, mul_u32, u32_mod,
}
use native.Mathlib.Nat.{mod-eq_of_lt}
use co_create_openebs.Metadata.Signed.{IsWorking}
use co_create_openebs.Metadata.Store.{sync_metadata, signed}

module _ (m : MetaCodec) (law : IsMetaCodec m) where
  -- Blocks whose first bytes are known.
  read_blocks-Agrees :
      (k : MetaChild) (lba blocks : ℕ) (bytes : List ℕ)
      → IsWorking k
      → lba * block_len_of k < u64_mod
      → blocks * block_len_of k < u64_mod
      → length bytes ≤ blocks * block_len_of k
      → Agrees k.device.contents (lba * block_len_of k) bytes
      → (buf : Buffer) × ((read_blocks m k lba blocks ≡ ok buf)
          × ((rest : List ℕ) × (as_slice buf ≡ bytes ++ rest)))
  read_blocks-Agrees k lba blocks bytes w x y l h =
      let f = k.device.contents in
      let o : ℕ = lba * block_len_of k in
      let n : ℕ = blocks * block_len_of k in
      let h' = shift_bytes f o 0 bytes (move_bytes f o (o + 0) bytes (omega arith) h) in
      (
        record { len = n; byte = λ i. f (o + i) },
        (read_blocks-eq m law k lba blocks w x y, slice-Agrees (λ i. f (o + i)) 0 n bytes l h'),
      )

  meta_from_slice-IsSummed :
      (meta : NexusMetaData) (rest : List ℕ)
      → IsSummed m law meta
      → meta_from_slice m (m.serialize_meta meta.header ++ rest) ≡ ok meta.header
  unfolding meta_from_slice
  meta_from_slice-IsSummed meta rest z =
      rw (law.header_read meta.header rest z.fits, meta_from_slice) z.header

  read_index-IsSummed :
      (meta : NexusMetaData) (buf : Buffer) (rest : List ℕ)
      → IsSummed m law meta
      → All FitsEntry meta.index
      → length meta.index ≡ meta.header.used_entries
      → as_slice buf ≡ serialize_indexes m meta.index ++ rest
      → read_index m buf meta.header ≡ ok meta.index
  unfolding read_index
  read_index-IsSummed meta buf rest z a c e =
      let r : index_from_slice m (as_slice buf) meta.header.used_entries ≡ ok meta.index =
        rw (e, sym c) (indexes_read_back m law meta.index rest a) in
      let q : (index_crc m meta.index == meta.header.index_checksum) ≡ true =
        ground (arith, z.index) in
      rw (r, q, read_index) refl

  probe_entries-IsWritten :
      (k : MetaChild) (meta : NexusMetaData)
      → IsWorking k
      → IsLaidOut (block_len_of k) meta
      → IsWritten m (block_len_of k) k.device.contents meta
      → IsSummed m law meta
      → probe_entries m k meta.header ≡ ok meta.index
  unfolding probe_entries empty_index serialize_indexes
  probe_entries-IsWritten k meta w o d z = elim (Bool-cases (ltb 0 meta.header.used_entries)) [
    | inr e ↦
        let u : meta.header.used_entries ≡ 0 = ground arith in
        let n = nil_of_length meta.index (omega (arith, o.count, u)) in
        let c : meta.header.index_checksum ≡ 0 =
          sym z.index ∙ (ap (index_crc m) n ∙ law.crc_nothing) in
        let q : (meta.header.index_checksum == 0) ≡ true = ground arith in
        rw (e, q, probe_entries, empty_index) (ap ok (sym n))
    | inl e ↦
        let s : ℕ = block_len_of k in
        let h = meta.header in
        let p = o.placed in
        let y = sizes m law s h p in
        let n : ℕ = h.used_entries * 44 in
        let size : mul_u32 h.used_entries h.entry_size ≡ n =
          rw p.entry (mod-eq_of_lt {n = n} {m = u32_mod} (omega (arith, p.small, p.used))) in
        let lba : add_u64 h.self_lba h.index_start ≡ h.self_lba + h.index_start =
          mod-eq_of_lt {n = h.self_lba + h.index_start} {m = u64_mod} (
            factor_bounded (h.self_lba + h.index_start) s p.positive
              (omega (arith, y.before, y.inside, y.place, y.all))) in
        let one =
          mul_mono 1 h.index_start s
            (omega (arith, p.gap, get_blocks_positive 72 s (omega arith) p.positive)) in
        let tight = get_blocks_tight n s p.positive in
        let bytes = serialize_indexes m meta.index in
        let il = length-serialize_indexes m law meta.index o.entries in
        let (buf, (r, (rest, b))) =
          read_blocks-Agrees k (h.self_lba + h.index_start) (get_blocks n s) bytes w
            (omega (arith, y.before, y.inside, y.place, y.all))
            (omega (arith, tight, one, y.before, y.inside, y.all, y.entries, p.used))
            (omega (arith, il, o.count, get_blocks_cover n s p.positive)) d.index in
        rw (e, size, lba, r, probe_entries)
          (read_index-IsSummed meta buf rest z o.entries o.count b)
  ]

  pub probe_index-IsWritten :
      (k : MetaChild) (meta : NexusMetaData) (partition_lba : ℕ)
      → IsWorking k
      → IsLaidOut (block_len_of k) meta
      → IsWritten m (block_len_of k) k.device.contents meta
      → IsSummed m law meta
      → partition_lba + 1 ≡ meta.header.self_lba
      → probe_index m k partition_lba ≡ ok meta
  unfolding probe_index read_blocks probe_entries
  probe_index-IsWritten k meta partition_lba w o d z l =
      let s : ℕ = block_len_of k in
      let h = meta.header in
      let p = o.placed in
      let y = sizes m law s h p in
      let b : h.self_lba * s < u64_mod = omega (arith, y.before, y.inside) in
      let lba : add_u64 partition_lba 1 ≡ h.self_lba =
        mod-eq_of_lt {n = partition_lba + 1} {m = u64_mod}
          (omega (arith, l, factor_bounded h.self_lba s p.positive b))
        ∙ l in
      let g = mul_mono (get_blocks 72 s) h.index_start s p.gap in
      let (buf, (r, (rest, e))) =
        read_blocks-Agrees k h.self_lba (get_blocks 72 s) (m.serialize_meta h) w b
          (omega (arith, g, y.before, y.inside, y.all))
          (omega (arith, law.header_len h z.fits, get_blocks_cover 72 s p.positive)) d.header in
      let f : meta_from_slice m (as_slice buf) ≡ ok h =
        ap (meta_from_slice m) e ∙ meta_from_slice-IsSummed meta rest z in
      let i = probe_entries-IsWritten k meta w o d z in rw (w.dev, lba, r, f, i, probe_index) refl

-- Metadata that is laid out on a working child is written, with the checksums of its header and of
-- its index made anew, and is then read back from its partition as it was left in memory.
pub probe_index-sync_metadata :
    (m : MetaCodec) (law : IsMetaCodec m) (k : MetaChild) (meta : NexusMetaData) (partition_lba : ℕ)
    → IsWorking k
    → IsLaidOut (block_len_of k) meta
    → partition_lba + 1 ≡ meta.header.self_lba
    → let (k', (meta', r)) = sync_metadata m k meta in
      (r ≡ ok tt) × ((meta'.index ≡ meta.index) × (probe_index m k' partition_lba ≡ ok meta'))
unfolding signed
probe_index-sync_metadata m law k meta partition_lba w o l =
    let s : ℕ = block_len_of k in
    let (buf, y) = sync_metadata-IsSynced m law k meta w o in
    let k' = with_contents k (stored k.device.contents (meta.header.self_lba * s) buf) in
    let found =
      probe_index-IsWritten m law k' (signed m meta) partition_lba
        (record { dev = w.dev; alloc = w.alloc; reads = w.reads; writes = w.writes })
        (signed-IsLaidOut m law s meta o) y.written (signed-IsSummed m law s meta o.placed) l in
    rw y.result (refl, (refl, found))
