-- ===== src/Metadata/Placed.antt =====
-- An index with one more entry, and whether an index has gaps (`fragmented`, `write_config_object` of
-- nexus_metadata.rs).
use co_create_openebs.Metadata.Objects.{IsPacked, Holds, blocks_in, IsChained}
use co_create_openebs.Metadata.Objects.{used_blocks}
use co_create_openebs.Metadata.Write.{next_start, fragmented}
use co_create_openebs.Metadata.Layout.{MetaCodec, MetaDataHeader, MetaDataIndexEntry, NexusConfig}
use co_create_openebs.Prelude.{
  ℕ, List, ◌++◌, All, ◌∷◌, suc, ◌<◌, ◌≡◌, ◌+◌, [], ◌≤◌, u64_mod, ok, arith, ap, true, add_u64, ltb,
  ◌⊎◌, false, inr, ◌∙◌, Bool-cases, inl, refl,
}

abbrev pub snoc {ℓ} : {A : Type ℓ} → List A → A → List A
snoc xs x = xs ++ (x ∷ [])

pub All-snoc {ℓ κ} :
    {A : Type ℓ} (P : A → Type κ) (xs : List A) (x : A) → All P xs → P x → All P (snoc xs x)
All-snoc P [] x a p = (p, tt)
All-snoc P (y ∷ ys) x a p = (a.0, All-snoc P ys x a.1 p)

pub snoc-IsPacked :
    (start : ℕ) (es : List MetaDataIndexEntry) (e : MetaDataIndexEntry)
    → IsPacked start es
    → e.data_start ≡ start + used_blocks es
    → e.data_start ≤ e.data_end
    → IsPacked start (snoc es e)
snoc-IsPacked start [] e a z l = (omega arith, (omega arith, tt))
snoc-IsPacked start (x ∷ xs) e (a, (b, r)) z l =
    (a, (b, snoc-IsPacked (suc x.data_end) xs e r (omega arith) l))

pub used_blocks-snoc :
    (es : List MetaDataIndexEntry) (e : MetaDataIndexEntry)
    → used_blocks (snoc es e) ≡ used_blocks es + blocks_in e
used_blocks-snoc [] e = omega arith
used_blocks-snoc (x ∷ xs) e = omega (arith, used_blocks-snoc xs e)

pub snoc-Holds :
    (m : MetaCodec) (f : ℕ → ℕ) (self_lba s : ℕ) (es : List MetaDataIndexEntry)
    (cs : List NexusConfig) (e : MetaDataIndexEntry) (c : NexusConfig)
    → Holds m f self_lba s es cs
    → Holds m f self_lba s (e ∷ []) (c ∷ [])
    → Holds m f self_lba s (snoc es e) (snoc cs c)
snoc-Holds m f self_lba s [] [] e c h x = x
snoc-Holds m f self_lba s [] (d ∷ ds) e c h x = absurd h
snoc-Holds m f self_lba s (y ∷ ys) [] e c h x = absurd h
snoc-Holds m f self_lba s (y ∷ ys) (d ∷ ds) e c (a, h) x =
    (a, snoc-Holds m f self_lba s ys ds e c h x)

-- There are gaps, or the entries are packed.
pub fragmented-cases :
    (start last : ℕ) (es : List MetaDataIndexEntry)
    → suc last < u64_mod
    → IsChained start last es
    → (fragmented start es ≡ ok true) ⊎ ((fragmented start es ≡ ok false) × IsPacked start es)
unfolding fragmented
fragmented-cases start last [] u a = inr (refl, tt)
fragmented-cases start last (e ∷ es) u (a, (b, (d, r))) =
    let n : add_u64 e.data_end 1 ≡ suc e.data_end = omega arith in
    let z : ltb e.data_start start ≡ false = ground arith in
    elim (Bool-cases (ltb start e.data_start)) [
      | inl y ↦ inl (rw (z, y, fragmented) refl)
      | inr y ↦
          let at : e.data_start ≡ start = ground arith in
          elim (fragmented-cases (suc e.data_end) last es u r) [
            | inl q ↦ inl (rw (z, y, n, q, fragmented) refl)
            | inr (q, p) ↦ inr (rw (z, y, n, q, fragmented) refl, (at, (omega arith, p)))
          ]
    ]

next_start_behind :
    (header : MetaDataHeader) (start : ℕ) (e : MetaDataIndexEntry) (es : List MetaDataIndexEntry)
    → IsPacked start (e ∷ es)
    → start + used_blocks (e ∷ es) ≤ header.data_end
    → suc header.data_end < u64_mod
    → next_start header (e ∷ es) ≡ ok (start + used_blocks (e ∷ es))
unfolding next_start
next_start_behind header start e [] (a, (b, r)) l u =
    let n : add_u64 e.data_end 1 ≡ start + (blocks_in e + 0) = omega arith in
    let z : ltb header.data_end (start + (blocks_in e + 0)) ≡ false = ground arith in rw (n, z) refl
next_start_behind header start e (e' ∷ es) (a, (b, r)) l u =
    next_start_behind header (suc e.data_end) e' es r (omega arith) u
    ∙ ap ok {x = suc e.data_end + used_blocks (e' ∷ es)} {y = start + used_blocks (e ∷ (e' ∷ es))}
        (omega arith)

-- Behind packed entries is the first free block.
pub next_start-IsPacked :
    (header : MetaDataHeader) (es : List MetaDataIndexEntry)
    → IsPacked header.data_start es
    → header.data_start + used_blocks es ≤ header.data_end
    → suc header.data_end < u64_mod
    → next_start header es ≡ ok (header.data_start + used_blocks es)
unfolding next_start
next_start-IsPacked header [] p l u = ap ok {x = header.data_start} (omega arith)
next_start-IsPacked header (e ∷ es) p l u = next_start_behind header header.data_start e es p l u

pub packed-fragmented :
    (start last : ℕ) (es : List MetaDataIndexEntry)
    → suc last < u64_mod
    → IsChained start last es
    → IsPacked start es
    → fragmented start es ≡ ok false
unfolding fragmented
packed-fragmented start last [] u a p = refl
packed-fragmented start last (e ∷ es) u (a, (b, (d, r))) (x, (y, p)) =
    let n : add_u64 e.data_end 1 ≡ suc e.data_end = omega arith in
    let z : ltb e.data_start start ≡ false = ground arith in
    let z' : ltb start e.data_start ≡ false = ground arith in
    rw (z, z', n, fragmented) (packed-fragmented (suc e.data_end) last es u r p)
