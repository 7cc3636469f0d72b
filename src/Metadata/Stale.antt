-- ===== src/Metadata/Stale.antt =====
-- Adding an object that there is no room for, once the others were moved together
-- (`append_config_object` of nexus_metadata.rs).
use co_create_openebs.Metadata.Grown.{compact-IsPackedNow}
use co_create_openebs.Metadata.Slices.{factor_bounded}
use co_create_openebs.Metadata.Moved.{used_blocks-IsChained}
use co_create_openebs.Metadata.Read.{probe_index}
use co_create_openebs.Metadata.Placed.{snoc, next_start-IsPacked, packed-fragmented}
use co_create_openebs.Metadata.Synced.{block_len_of}
use co_create_openebs.Metadata.Pushed.{blocks_of}
use co_create_openebs.Metadata.Objects.{IsPacked, used_blocks}
use co_create_openebs.Metadata.Laws.{IsMetaCodec}
use co_create_openebs.Metadata.Layout.{
  MetaDataHeader, MetaCodec, MetaDataIndexEntry, MetaChild, NexusMetaData, NexusConfig,
  partition_size_exceeded,
}
use co_create_openebs.Metadata.Write.{
  next_start, write_config_object, prepare_at, prepare, fragmented, write_prepared, Changed,
}
use co_create_openebs.Prelude.{
  ℕ, ◌≡◌, ◌∙◌, List, ◌∷◌, ◌+◌, suc, ◌<◌, ok, u64_mod, ◌≤◌, err, true, arith, add_u64, false, leb,
  ltb, [], refl, length, ◌==◌, Bool-cases, inl, ap, inr, sym,
}
use co_create_openebs.Metadata.Represented.{Represents, IsLasting}
use co_create_openebs.Metadata.Store.{append_config_object, after_append}
use co_create_openebs.Metadata.Refinement.{all_blocks, used_blocks-Holds, all_blocks-snoc}
use mathlib.Core.Path.{subst}

full_behind :
    (header : MetaDataHeader) (start : ℕ) (e : MetaDataIndexEntry) (es : List MetaDataIndexEntry)
    → IsPacked start (e ∷ es)
    → start + used_blocks (e ∷ es) ≡ suc header.data_end
    → suc header.data_end < u64_mod
    → next_start header (e ∷ es) ≡ err partition_size_exceeded
unfolding next_start
full_behind header start e [] (a, (b, r)) l u =
    let n : add_u64 e.data_end 1 ≡ suc header.data_end = omega arith in
    let z : ltb header.data_end (suc header.data_end) ≡ true = ground arith in rw (n, z) refl
full_behind header start e (e' ∷ es) (a, (b, r)) l u =
    full_behind header (suc e.data_end) e' es r (omega arith) u

-- Packed entries up to the end of the partition.
next_start_full :
    (header : MetaDataHeader) (es : List MetaDataIndexEntry)
    → IsPacked header.data_start es
    → header.data_start + used_blocks es ≡ suc header.data_end
    → header.data_start ≤ header.data_end
    → suc header.data_end < u64_mod
    → next_start header es ≡ err partition_size_exceeded
next_start_full header [] p l o u = absurd (omega arith)
next_start_full header (e ∷ es) p l o u = full_behind header header.data_start e es p l u

module _ (m : MetaCodec) where
  prepare_at_full :
      (k : MetaChild) (h : MetaDataHeader) (config : NexusConfig) (start timestamp : ℕ)
      → suc h.data_end < start + blocks_of m (block_len_of k) config
      → start + blocks_of m (block_len_of k) config < u64_mod
      → prepare_at m k h config start timestamp ≡ err partition_size_exceeded
  unfolding prepare_at
  prepare_at_full k h config start timestamp l u =
      let n : ℕ = blocks_of m (block_len_of k) config in
      let next : add_u64 start n ≡ start + n = omega arith in
      let z : add_u64 h.data_end 1 ≡ suc h.data_end = omega arith in
      let room : ltb (add_u64 h.data_end 1) (start + n) ≡ true = ground arith in
      rw (next, room, prepare_at) refl

  -- Nothing is written.
  write_config_object_full :
      (k : MetaChild) (meta : NexusMetaData) (config : NexusConfig) (timestamp : ℕ)
      (cs : List NexusConfig)
      → Represents m k meta cs
      → IsPacked meta.header.data_start meta.index
      → meta.header.used_entries < meta.header.max_entries
      → suc meta.header.data_end
        < meta.header.data_start + used_blocks meta.index + blocks_of m (block_len_of k) config
      → meta.header.data_start + used_blocks meta.index + blocks_of m (block_len_of k) config
        < u64_mod
      → write_config_object m k meta config (ok timestamp)
        ≡ (k, (meta, err partition_size_exceeded))
  unfolding write_config_object prepare
  write_config_object_full k meta config timestamp cs r a l full u =
      let h = meta.header in
      let o = r.laid.placed in
      let room : leb h.max_entries h.used_entries ≡ false = ground arith in
      let fit =
        used_blocks-IsChained h.data_start h.data_end meta.index (omega (arith, o.order))
          r.chained in
      let w = r.working in
      let top = factor_bounded (h.self_lba + h.data_end + 1) (block_len_of k) o.positive o.bound in
      let refused : prepare m k meta config (ok timestamp) ≡ err partition_size_exceeded =
        elim (Bool-cases (ltb h.data_end (h.data_start + used_blocks meta.index))) [
          | inl z ↦
              let at : h.data_start + used_blocks meta.index ≡ suc h.data_end =
                ground (arith, fit) in
              let e = next_start_full h meta.index a at o.order (omega arith) in
              simp (room, w.dev, e, prepare)
          | inr z ↦
              let at : h.data_start + used_blocks meta.index ≤ h.data_end = ground arith in
              let e = next_start-IsPacked h meta.index a at (omega arith) in
              let e' =
                prepare_at_full k h config (h.data_start + used_blocks meta.index) timestamp full
                  u in
              simp (room, w.dev, e, e', prepare)
        ] in
      ap (write_prepared m k meta) refused

-- When the objects have gaps between them, and another has no room even without them, adding it fails
-- with `partition_size_exceeded` after the objects were moved together: the metadata in memory is
-- then that of the objects where they are and has no gaps, but the partition is still found with the
-- metadata from before, which has.
pub append_config_object_stale :
    (m : MetaCodec) (law : IsMetaCodec m) (k : MetaChild) (meta : NexusMetaData)
    (config : NexusConfig) (timestamp : ℕ) (cs : List NexusConfig) (partition_lba : ℕ)
    → Represents m k meta cs
    → IsLasting m k meta partition_lba
    → fragmented meta.header.data_start meta.index ≡ ok true
    → meta.header.used_entries < meta.header.max_entries
    → suc meta.header.data_end
      < meta.header.data_start + all_blocks m (block_len_of k) (snoc cs config)
    → meta.header.data_start + all_blocks m (block_len_of k) (snoc cs config) < u64_mod
    → let (k', (meta', r)) = append_config_object m k meta config (ok timestamp) in
      (r ≡ err partition_size_exceeded)
      × (Represents m k' meta' cs
          × ((fragmented meta'.header.data_start meta'.index ≡ ok false)
              × (probe_index m k' partition_lba ≡ ok meta)))
unfolding append_config_object
append_config_object_stale m law k meta config timestamp cs partition_lba r lasting q l full u =
    let h = meta.header in
    let o = r.laid in
    let n : (length meta.index == h.used_entries) ≡ true = ground (arith, o.count) in
    let (k', (meta', y)) = compact-IsPackedNow m k meta cs law r in
    let found : probe_index m k' partition_lba ≡ ok meta =
      ap (λ (x : MetaChild). probe_index m x partition_lba) y.moved
      ∙ lasting k'.device.contents y.kept in
    let o' = y.represents.laid.placed in
    let top =
      factor_bounded (meta'.header.self_lba + meta'.header.data_end + 1) (block_len_of k')
        o'.positive o'.bound in
    let z =
      packed-fragmented meta'.header.data_start meta'.header.data_end meta'.index (omega arith)
        y.represents.chained y.packed in
    let b =
      used_blocks-Holds m k'.device.contents meta'.header.self_lba (block_len_of k') meta'.index cs
        y.represents.holds in
    let all : (s : ℕ) → all_blocks m s (snoc cs config) ≡ all_blocks m s cs + blocks_of m s config =
      λ s. all_blocks-snoc m s cs config in
    let size : h.data_start + all_blocks m (block_len_of k) (snoc cs config)
        ≡ meta'.header.data_start + used_blocks meta'.index + blocks_of m (block_len_of k') config =
      rw (y.same_header, b, y.same_len) (omega (arith, all (block_len_of k))) in
    let e =
      write_config_object_full m k' meta' config timestamp cs y.represents y.packed
        (rw y.same_header l)
        (omega (arith, sym size, full, ap (λ (x : MetaDataHeader). x.data_end) y.same_header))
        (omega (arith, sym size, u)) in
    let Goal : Changed → Type 0 = λ c.
      (c.1.1 ≡ err partition_size_exceeded)
      × (Represents m c.0 c.1.0 cs
          × ((fragmented c.1.0.header.data_start c.1.0.index ≡ ok false)
              × (probe_index m c.0 partition_lba ≡ ok meta))) in
    let after : Goal (after_append m (write_config_object m k' meta' config (ok timestamp))) =
      subst (λ (x : Changed). Goal (after_append m x)) (sym e) (refl, (y.represents, (z, found))) in
    rw (n, q, append_config_object)
      (subst
        (λ (x : Changed).
          Goal (after_append m (write_config_object m x.0 x.1.0 config (ok timestamp))))
        (sym y.result) after)
