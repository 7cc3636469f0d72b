-- ===== src/Metadata/Compacted.antt =====
-- Moving the objects together (`compact` of nexus_metadata.rs).
use co_create_openebs.Metadata.Moved.{copy_first, weaken-IsChained, IsMoved}
use co_create_openebs.Label.Geometry.{mul_mono}
use co_create_openebs.Metadata.Slices.{factor_bounded}
use co_create_openebs.Metadata.Synced.{with_contents, block_len_of}
use co_create_openebs.Metadata.Write.{compact_entries, Compacted, moved_entry, keep_entry}
use co_create_openebs.Metadata.Laws.{IsMetaCodec, FitsEntry}
use co_create_openebs.Metadata.Objects.{IsPacked, IsChained, used_blocks, Holds, same_object}
use co_create_openebs.Metadata.Layout.{MetaCodec, MetaChild, MetaDataIndexEntry, NexusConfig}
use co_create_openebs.Prelude.{
  ℕ, List, ◌+◌, ◌<◌, suc, ◌≡◌, arith, ◌∷◌, [], true, ok, ◌*◌, ltb, u64_mod, add_u64, length, All,
  ap, ◌∙◌, refl, Bool-cases, inr, inl, false,
}
use co_create_openebs.Metadata.Signed.{IsWorking}

module _ (m : MetaCodec) where
  -- The loop ends with the same objects in entries without gaps, and has changed nothing in front.
  pub record IsCompacted (k : MetaChild) (self_lba start : ℕ) (es es' : List MetaDataIndexEntry)
      (cs : List NexusConfig) (g : ℕ → ℕ) : Type 0 where
    pub result : compact_entries m k self_lba start es ≡ (with_contents k g, (es', ok tt))
    pub packed : IsPacked start es'
    pub holds : Holds m g self_lba (block_len_of k) es' cs
    pub kept : (i : ℕ) → i < (self_lba + start) * block_len_of k → g i ≡ k.device.contents i
    pub same_total : used_blocks es' ≡ used_blocks es
    pub count : length es' ≡ length es
    pub fits : All FitsEntry es'

  -- One round of the loop.
  kept_first :
      (k : MetaChild) (self_lba start next : ℕ) (e : MetaDataIndexEntry)
      (es : List MetaDataIndexEntry) (r : Compacted)
      → ltb start e.data_start ≡ false
      → add_u64 e.data_end 1 ≡ next
      → compact_entries m k self_lba next es ≡ r
      → compact_entries m k self_lba start (e ∷ es) ≡ keep_entry e r
  unfolding compact_entries
  kept_first k self_lba start next e es r z n q = rw (z, n, compact_entries) (ap (keep_entry e) q)

  copied_first :
      (k : MetaChild) (self_lba start last next : ℕ) (e : MetaDataIndexEntry)
      (es : List MetaDataIndexEntry) (c : NexusConfig) (cs : List NexusConfig) (g : ℕ → ℕ)
      (r : Compacted)
      → ltb start e.data_start ≡ true
      → IsMoved m k self_lba start last e (moved_entry e start) es c cs g
      → add_u64 (moved_entry e start).data_end 1 ≡ next
      → compact_entries m (with_contents k g) self_lba next es ≡ r
      → compact_entries m k self_lba start (e ∷ es) ≡ keep_entry (moved_entry e start) r
  unfolding compact_entries
  copied_first k self_lba start last next e es c cs g r z v n q =
      let moved = moved_entry e start in
      let after : ℕ → Compacted =
        λ j. keep_entry moved (compact_entries m (with_contents k g) self_lba j es) in
      rw (z, compact_entries) (v.step _ ∙ (ap after n ∙ ap (keep_entry moved) q))

  pub compact_entries-IsCompacted :
      (es : List MetaDataIndexEntry) (cs : List NexusConfig) (k : MetaChild)
      (self_lba start last : ℕ)
      → IsMetaCodec m
      → IsWorking k
      → 0 < block_len_of k
      → (self_lba + suc last) * block_len_of k < u64_mod
      → All FitsEntry es
      → IsChained start last es
      → Holds m k.device.contents self_lba (block_len_of k) es cs
      → (es' : List MetaDataIndexEntry) × ((g : ℕ → ℕ) × IsCompacted k self_lba start es es' cs g)
  unfolding compact_entries
  compact_entries-IsCompacted [] cs k self_lba start last law w p u fits a h = (
    [],
    (
      k.device.contents,
      record {
        result = refl;
        packed = tt;
        holds = h;
        kept = λ i l. refl;
        same_total = refl;
        count = refl;
        fits = tt;
      },
    ),
  )
  compact_entries-IsCompacted (e ∷ es) [] k self_lba start last law w p u fits a h = absurd h
  compact_entries-IsCompacted (e ∷ es) (c ∷ cs) k self_lba start last law w p u fits
        (a, (b, (d, r))) ((x, n), h) =
      let s : ℕ = block_len_of k in
      let top = factor_bounded (self_lba + suc last) s p u in
      elim (Bool-cases (ltb start e.data_start)) [
        | inr z ↦
            let next : add_u64 e.data_end 1 ≡ suc e.data_end = omega arith in
            let at : e.data_start ≡ start = ground arith in
            let (es', (g, t)) =
              compact_entries-IsCompacted es cs k self_lba (suc e.data_end) last law w p u fits.1 r
                h in
            let m1 = mul_mono (self_lba + start) (self_lba + suc e.data_end) s (omega arith) in
            let same = same_object k.device.contents g self_lba s e b (λ i _ v. t.kept i v) in
            (
              e ∷ es',
              (
                g,
                record {
                  result = kept_first k self_lba start (suc e.data_end) e es _ z next t.result;
                  packed = (at, (omega arith, t.packed));
                  holds = ((rw same x, n), t.holds);
                  kept = λ i l. t.kept i (omega arith);
                  same_total = omega (arith, t.same_total);
                  count = omega (arith, t.count);
                  fits = (fits.0, t.fits);
                },
              ),
            )
        | inl z ↦
            let moved = moved_entry e start in
            let (f, v) =
              copy_first m k self_lba start last e es c cs law w p u fits.0 (a, (b, (d, r)))
                ((x, n), h) in
            let k1 = with_contents k f in
            let next : add_u64 moved.data_end 1 ≡ suc moved.data_end =
              omega (arith, v.size, v.order) in
            let (es', (g, t)) =
              compact_entries-IsCompacted es cs k1 self_lba (suc moved.data_end) last law
                (record { dev = w.dev; alloc = w.alloc; reads = w.reads; writes = w.writes }) p u
                fits.1
                (weaken-IsChained (suc e.data_end) (suc moved.data_end) last es
                  (omega (arith, v.size, v.order)) r)
                v.rest in
            let m1 =
              mul_mono (self_lba + start) (self_lba + suc moved.data_end) s
                (omega (arith, v.order)) in
            let same = same_object f g self_lba s moved v.order (λ i _ y. t.kept i y) in
            (
              moved ∷ es',
              (
                g,
                record {
                  result =
                      copied_first k self_lba start last (suc moved.data_end) e es c cs f _ z v next
                        t.result;
                  packed = (refl, (v.order, t.packed));
                  holds = ((rw same v.there, v.size ∙ n), t.holds);
                  kept = λ i l. t.kept i (omega arith) ∙ v.kept i l;
                  same_total = omega (arith, t.same_total, v.size);
                  count = omega (arith, t.count);
                  fits = (v.fits, t.fits);
                },
              ),
            )
      ]
