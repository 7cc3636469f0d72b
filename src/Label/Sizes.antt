-- ===== src/Label/Sizes.antt =====
-- The size of a nexus after `validate_child_labels` of nexus_label.rs: the smallest number of data
-- blocks of its children.
use co_create_openebs.Label.Format.{Codec}
use mathlib.Core.Path.{Path, subst}
use co_create_openebs.Label.Layout.{NexusLabel, LabelError, handle_error, GptGuid, GptEntry, both}
use co_create_openebs.Label.Disk.{LabelDevice}
use co_create_openebs.Label.Update.{
  each_child, lower_blocks, data_block_count, Labelled, Looped, cons_child, validate_label,
  validate_child_labels, LabelNexus, reference_partitions, new_config, nexus_blocks, set_size, Done,
  with_reference,
}
use co_create_openebs.Prelude.{
  ℕ, List, Result, ok, err, ◌≡◌, ◌≤◌, All, ◌∷◌, [], arith, Option-cases, Result-cases, inl, inr,
  map, ap, ◌>>=◌, none, some, sym, ◌∙◌, refl,
}

-- The label of a child has at least that many data blocks.
abbrev pub HasBlocks : (LabelDevice → Labelled) → (blocks : ℕ) → LabelDevice → Type 0
HasBlocks f blocks d =
    (label : NexusLabel) × (((f d).1 ≡ ok label)
      × ((count : ℕ) × ((data_block_count label ≡ ok count) × (blocks ≤ count))))

err_not_ok : {x : LabelError} {a : ℕ} → Path (Result LabelError ℕ) (err x) (ok a) → ⊥
err_not_ok e = ground arith

nil_lower :
    (f : LabelDevice → Labelled) (m blocks : ℕ) (ds' : List LabelDevice)
    → each_child f lower_blocks m [] ≡ (ds', ok blocks)
    → (blocks ≤ m) × (Unit {0} × (ds' ≡ []))
unfolding each_child
nil_lower f m blocks ds' e =
    let same : Path (Result LabelError ℕ) (ok m) (ok blocks) = ap (λ (t : Looped). t.1) e in
    (ground arith, (tt, sym (ap (λ (t : Looped). t.0) e)))

lower_blocks_lem :
    (min_blocks blocks : ℕ) (label : NexusLabel)
    → lower_blocks min_blocks label ≡ ok blocks
    → (count : ℕ) × ((data_block_count label ≡ ok count)
        × ((blocks ≤ count) × (blocks ≤ min_blocks)))
unfolding lower_blocks
lower_blocks_lem m blocks label e = elim (Result-cases (data_block_count label)) [
  | inl (count, p) ↦ (count, (p, ground arith))
  | inr (x, p) ↦ absurd (ground arith)
]

module _ (f : LabelDevice → Labelled) (m : ℕ) (d : LabelDevice) (ds : List LabelDevice) where
  each_child_opened :
      (x : ℕ)
      → d.handle_fails ≡ some x
      → each_child f lower_blocks m (d ∷ ds) ≡ (d ∷ ds, err (handle_error x))
  unfolding each_child
  each_child_opened x p = simp p

  each_child_failed :
      (x : LabelError)
      → d.handle_fails ≡ none
      → ((f d).1 >>= lower_blocks m) ≡ err x
      → each_child f lower_blocks m (d ∷ ds) ≡ ((f d).0 ∷ ds, err x)
  unfolding each_child
  each_child_failed x p q = simp (p, q)

  pub each_child_step :
      (b : ℕ)
      → d.handle_fails ≡ none
      → ((f d).1 >>= lower_blocks m) ≡ ok b
      → each_child f lower_blocks m (d ∷ ds) ≡ cons_child (f d).0 (each_child f lower_blocks b ds)
  unfolding each_child
  each_child_step b p q = simp (p, q)

  counted : (b : ℕ) → ((f d).1 >>= lower_blocks m) ≡ ok b → HasBlocks f b d × (b ≤ m)
  counted b q = elim (Result-cases (f d).1) [
    | inr (x, p) ↦ absurd (err_not_ok (sym (ap (λ r. r >>= lower_blocks m) p) ∙ q))
    | inl (label, p) ↦
        let (count, (e, (l, l'))) =
          lower_blocks_lem m b label (sym (ap (λ r. r >>= lower_blocks m) p) ∙ q) in
        ((label, (p, (count, (e, l)))), l')
  ]

lower_kept :
    (f : LabelDevice → Labelled) (b b' : ℕ) (d : LabelDevice)
    → b' ≤ b
    → HasBlocks f b d
    → HasBlocks f b' d
lower_kept f b b' d l (label, (p, (count, (e, k)))) = (label, (p, (count, (e, omega arith))))

pub each_child-lower :
    (f : LabelDevice → Labelled) (min_blocks blocks : ℕ) (ds ds' : List LabelDevice)
    → each_child f lower_blocks min_blocks ds ≡ (ds', ok blocks)
    → (blocks ≤ min_blocks) × (All (HasBlocks f blocks) ds × (ds' ≡ map (λ d. (f d).0) ds))
each_child-lower f m blocks [] ds' e = nil_lower f m blocks ds' e
each_child-lower f m blocks (d ∷ ds) ds' e = elim (Option-cases d.handle_fails) [
  | inr (x, p) ↦ absurd (err_not_ok (ap (λ t. t.1) (sym (each_child_opened f m d ds x p) ∙ e)))
  | inl p ↦ elim (Result-cases ((f d).1 >>= lower_blocks m)) [
    | inr (x, q) ↦ absurd (err_not_ok (ap (λ t. t.1) (sym (each_child_failed f m d ds x p q) ∙ e)))
    | inl (b, q) ↦
        let e' = sym (each_child_step f m d ds b p q) ∙ e in
        let r = each_child f lower_blocks b ds in
        let (l, (all_, same)) =
          each_child-lower f b blocks ds r.0 (λ k. (r.0, ap (λ (t : Looped). t.1) e' k)) in
        let (has, l') = counted f m d ds b q in
        (
          omega arith,
          (
            (lower_kept f b blocks d l has, all_),
            sym (ap (λ (t : Looped). t.0) e') ∙ ap (λ (t : List LabelDevice). (f d).0 ∷ t) same,
          ),
        )
  ]
]

-- A child whose label is valid, with both parts and at least that many data blocks.
abbrev pub HasValid :
    Codec → (reference : GptEntry × GptEntry) → (blocks : ℕ) → LabelDevice → Type 0
HasValid c reference blocks d =
    (label : NexusLabel) × ((validate_label c d reference d.block_len ≡ ok label)
      × ((label.status ≡ both)
          × ((count : ℕ) × ((data_block_count label ≡ ok count) × (blocks ≤ count)))))

validated-both :
    (c : Codec) (d : LabelDevice) (reference : GptEntry × GptEntry) (s : ℕ) (label : NexusLabel)
    → validate_label c d reference s ≡ ok label
    → label.status ≡ both
unfolding validate_label
validated-both c d reference s label e = ground arith

map_same : (ds : List LabelDevice) → map (λ (d : LabelDevice). d) ds ≡ ds
map_same [] = refl
map_same (d ∷ ds) = ap (λ (t : List LabelDevice). d ∷ t) (map_same ds)

each_valid :
    (c : Codec) (reference : GptEntry × GptEntry) (blocks : ℕ) (ds : List LabelDevice)
    → All (HasBlocks (λ d. (d, validate_label c d reference d.block_len)) blocks) ds
    → All (HasValid c reference blocks) ds
each_valid c reference blocks [] a = tt
each_valid c reference blocks (d ∷ ds) ((label, (p, rest)), a) = (
  (label, (p, (validated-both c d reference d.block_len label p, rest))),
  each_valid c reference blocks ds a,
)

not_done : {x : LabelError} {a b : LabelNexus} → Path Done (a, err x) (b, ok tt) → ⊥
not_done e = ground arith

abbrev loop_of : Codec → (reference : GptEntry × GptEntry) → LabelNexus → Looped
loop_of c reference n =
    each_child (λ d. (d, validate_label c d reference d.block_len)) lower_blocks (nexus_blocks n)
      n.children

after_loop :
    (c : Codec) (reference : GptEntry × GptEntry) (n n' : LabelNexus) (loop : Looped)
    → loop_of c reference n ≡ loop
    → set_size n reference loop ≡ (n', ok tt)
    → All (HasValid c reference n'.block_count) n.children
      × ((n'.block_count ≤ nexus_blocks n)
          × ((n'.data_ent_offset ≡ reference.1.ent_start) × (n'.children ≡ n.children)))
after_loop c reference n n' (ds, err x) e h = absurd (not_done h)
after_loop c reference n n' (ds, ok blocks) e h =
    let (l, (a, same)) =
      each_child-lower (λ d. (d, validate_label c d reference d.block_len)) (nexus_blocks n) blocks
        n.children ds e in
    let to : record n {
      children = ds;
      data_ent_offset = reference.1.ent_start;
      block_count = blocks;
    }
        ≡ n' =
      ap (λ (t : Done). t.0) h in
    let count : blocks ≡ n'.block_count = ap (λ (t : LabelNexus). t.block_count) to in
    (
      subst (λ (b : ℕ). All (HasValid c reference b) n.children) count
          (each_valid c reference blocks n.children a),
      (
        omega arith,
        (
          sym (ap (λ (t : LabelNexus). t.data_ent_offset) to),
          sym (ap (λ (t : LabelNexus). t.children) to) ∙ (same ∙ map_same n.children),
        ),
      ),
    )

validate_opened :
    (c : Codec) (random : GptGuid × GptGuid) (n : LabelNexus)
    → (r : Result LabelError (GptEntry × GptEntry))
    → reference_partitions n (new_config n.guid random) ≡ r
    → validate_child_labels c random n
      ≡ with_reference n r (λ reference. set_size n reference (loop_of c reference n))
unfolding validate_child_labels
validate_opened c random n r e =
    ap
      (λ (t : Result LabelError (GptEntry × GptEntry)).
        with_reference n t (λ reference. set_size n reference (loop_of c reference n)))
      e

-- If `validate_child_labels` succeeds, then the reference partitions were made, every child has a valid
-- label with both parts and with at least as many data blocks as the nexus now has, these are not more
-- than its size asks for, the data begins where the reference partition begins, and the children are
-- as they were.
pub validate_child_labels_lem :
    (c : Codec) (random : GptGuid × GptGuid) (n n' : LabelNexus)
    → validate_child_labels c random n ≡ (n', ok tt)
    → (reference : GptEntry × GptEntry) × ((reference_partitions n (new_config n.guid random)
          ≡ ok reference)
        × (All (HasValid c reference n'.block_count) n.children
            × ((n'.block_count ≤ nexus_blocks n)
                × ((n'.data_ent_offset ≡ reference.1.ent_start) × (n'.children ≡ n.children)))))
validate_child_labels_lem c random n n' e =
    elim (Result-cases (reference_partitions n (new_config n.guid random))) [
      | inr (x, p) ↦ absurd (not_done (sym (validate_opened c random n (err x) p) ∙ e))
      | inl (reference, p) ↦
          let e' = sym (validate_opened c random n (ok reference) p) ∙ e in
          (reference, (p, after_loop c reference n n' (loop_of c reference n) refl e'))
    ]
