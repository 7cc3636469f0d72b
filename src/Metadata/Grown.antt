-- ===== src/Metadata/Grown.antt =====
-- Keeping the objects together, and adding one (`compact`, `append_config_object` of
-- nexus_metadata.rs).
use co_create_openebs.Metadata.Placed.{packed-fragmented, snoc, fragmented-cases}
use co_create_openebs.Metadata.Slices.{factor_bounded}
use co_create_openebs.Metadata.Write.{Compacted, fragmented, Changed, write_config_object}
use co_create_openebs.Metadata.Read.{get_dev_of}
use co_create_openebs.Metadata.Moved.{used_blocks-IsChained, packed-IsChained}
use co_create_openebs.Metadata.Compacted.{compact_entries-IsCompacted}
use co_create_openebs.Metadata.Synced.{block_len_of, with_contents}
use co_create_openebs.Metadata.Objects.{IsPacked}
use co_create_openebs.Metadata.Laws.{IsMetaCodec, IsReadable, u128_mod}
use co_create_openebs.Metadata.Layout.{
  MetaCodec, MetaChild, NexusMetaData, NexusConfig, MetaDataHeader,
}
use co_create_openebs.Prelude.{
  ℕ, ◌∙◌, ◌≡◌, List, ok, arith, ap, refl, false, ◌<◌, ◌+◌, length, ◌==◌, true, inr, inl, sym, ◌*◌,
}
use co_create_openebs.Metadata.Represented.{Represents, same-IsWorking, bound_of}
use mathlib.Core.Path.{subst}
use co_create_openebs.Metadata.Refinement.{HasRoom, append_packed}
use co_create_openebs.Metadata.Represented.{IsDone}
use co_create_openebs.Metadata.Store.{compact, with_index, append_config_object, after_append}

module _ (m : MetaCodec) where
  -- The child and the index after `compact`.
  pub record IsPackedNow (k : MetaChild) (meta : NexusMetaData) (cs : List NexusConfig)
      (k' : MetaChild) (meta' : NexusMetaData) : Type 0 where
    pub result : compact m k meta ≡ (k', (meta', ok tt))
    pub represents : Represents m k' meta' cs
    pub packed : IsPacked meta'.header.data_start meta'.index
    pub same_len : block_len_of k' ≡ block_len_of k
    pub same_header : meta'.header ≡ meta.header
    pub moved : k' ≡ with_contents k k'.device.contents
    pub kept :
        (i : ℕ)
        → i < (meta.header.self_lba + meta.header.data_start) * block_len_of k
        → k'.device.contents i ≡ k.device.contents i

  pub compact-IsPackedNow :
      (k : MetaChild) (meta : NexusMetaData) (cs : List NexusConfig)
      → IsMetaCodec m
      → Represents m k meta cs
      → (k' : MetaChild) × ((meta' : NexusMetaData) × IsPackedNow k meta cs k' meta')
  unfolding compact
  compact-IsPackedNow k meta cs law r =
      let s : ℕ = block_len_of k in
      let h = meta.header in
      let o = r.laid in
      let (es, (g, y)) =
        compact_entries-IsCompacted m meta.index cs k h.self_lba h.data_start h.data_end law
          r.working o.placed.positive (bound_of m s h o.placed) o.entries r.chained r.holds in
      let fit =
        used_blocks-IsChained h.data_start h.data_end meta.index (omega (arith, o.placed.order))
          r.chained in
      let ready : get_dev_of m k ≡ ok tt = simp (r.working.dev) in
      (
        with_contents k g,
        (
          with_index meta es,
          record {
            result =
                rw (ready, compact)
                  (ap (λ (c : Compacted). (c.0, (with_index meta c.1.0, c.1.1))) y.result);
            represents = record {
              working = same-IsWorking k g r.working;
              laid = record {
                placed = o.placed;
                count = omega (arith, y.count, o.count);
                entries = y.fits;
              };
              chained =
                  packed-IsChained h.data_start h.data_end es y.packed
                    (omega (arith, y.same_total, fit));
              holds = y.holds;
            };
            packed = y.packed;
            same_len = refl;
            same_header = refl;
            moved = refl;
            kept = y.kept;
          },
        ),
      )

-- Compaction on a child that works succeeds, keeps the list of the objects and leaves no gap.
pub compact-Represents :
    (m : MetaCodec) (law : IsMetaCodec m) (k : MetaChild) (meta : NexusMetaData)
    (cs : List NexusConfig)
    → Represents m k meta cs
    → let (k', (meta', r)) = compact m k meta in
      (r ≡ ok tt)
      × (Represents m k' meta' cs × (fragmented meta'.header.data_start meta'.index ≡ ok false))
compact-Represents m law k meta cs r =
    let (k', (meta', y)) = compact-IsPackedNow m k meta cs law r in
    let o = y.represents.laid.placed in
    let top =
      factor_bounded (meta'.header.self_lba + meta'.header.data_end + 1) (block_len_of k')
        o.positive o.bound in
    let z =
      packed-fragmented meta'.header.data_start meta'.header.data_end meta'.index (omega arith)
        y.represents.chained y.packed in
    rw y.result (refl, (y.represents, z))

-- Adding an object that there is room for succeeds on a child that works, whether or not the objects
-- have to be moved together first: the list has the object at its end, and the partition is found
-- that way.
pub append_config_object-IsDone :
    (m : MetaCodec) (law : IsMetaCodec m) (k : MetaChild) (meta : NexusMetaData)
    (config : NexusConfig) (timestamp : ℕ) (cs : List NexusConfig)
    → IsReadable m config
    → timestamp < u128_mod
    → HasRoom m (block_len_of k) meta.header (snoc cs config)
    → Represents m k meta cs
    → IsDone m k meta (append_config_object m k meta config (ok timestamp)) (snoc cs config)
unfolding append_config_object
append_config_object-IsDone m law k meta config timestamp cs c t room r =
    let h = meta.header in
    let o = r.laid in
    let n : (length meta.index == h.used_entries) ≡ true = ground (arith, o.count) in
    let top =
      factor_bounded (h.self_lba + h.data_end + 1) (block_len_of k) o.placed.positive
        o.placed.bound in
    let Goal : Changed → Type 0 = λ x. IsDone m k meta x (snoc cs config) in
    elim (fragmented-cases h.data_start h.data_end meta.index (omega arith) r.chained) [
      | inr (q, p) ↦
          rw (n, q, append_config_object)
            (append_packed m k meta config timestamp cs law c t room r p)
      | inl q ↦
          let (k', (meta', y)) = compact-IsPackedNow m k meta cs law r in
          let room' : HasRoom m (block_len_of k') meta'.header (snoc cs config) = record {
            entries = rw y.same_header room.entries;
            blocks = rw (y.same_len, y.same_header) room.blocks;
          } in
          let d =
            append_packed m k' meta' config timestamp cs law c t room' y.represents y.packed in
          let after : Goal (after_append m (write_config_object m k' meta' config (ok timestamp))) =
            record {
              done = d.done;
              represents = d.represents;
              found = λ p l.
                  d.found p (l ∙ ap (λ (x : MetaDataHeader). x.self_lba) (sym y.same_header));
              lasting = λ p l.
                  d.lasting p (l ∙ ap (λ (x : MetaDataHeader). x.self_lba) (sym y.same_header));
              same = record {
                block_len = d.same.block_len ∙ y.same_len;
                self_lba = d.same.self_lba ∙ ap (λ (x : MetaDataHeader). x.self_lba) y.same_header;
                data_start =
                    d.same.data_start ∙ ap (λ (x : MetaDataHeader). x.data_start) y.same_header;
                data_end = d.same.data_end ∙ ap (λ (x : MetaDataHeader). x.data_end) y.same_header;
                max_entries =
                    d.same.max_entries ∙ ap (λ (x : MetaDataHeader). x.max_entries) y.same_header;
              };
            } in
          rw (n, q, append_config_object)
            (subst
              (λ (x : Changed).
                Goal (after_append m (write_config_object m x.0 x.1.0 config (ok timestamp))))
              (sym y.result) after)
    ]
