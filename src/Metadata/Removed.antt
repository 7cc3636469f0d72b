-- ===== src/Metadata/Removed.antt =====
-- Taking an object out (`delete_config_object` of nexus_metadata.rs).
use co_create_openebs.Metadata.Synced.{block_len_of}
use co_create_openebs.Metadata.Moved.{weaken-IsChained}
use co_create_openebs.Metadata.Objects.{IsChained, length-Holds, Holds}
use co_create_openebs.Metadata.Laws.{IsMetaCodec, FitsEntry}
use co_create_openebs.Metadata.Layout.{
  MetaCodec, MetaChild, MetaDataIndexEntry, NexusMetaData, NexusConfig,
}
use co_create_openebs.Prelude.{
  ℕ, ◌≡◌, List, All, ◌<◌, length, ◌≤◌, suc, sub_u32, ◌∷◌, ◌+◌, arith, [], zero, ap, ◌==◌, refl,
  true, Bool-cases, ltb, inl, inr, sym,
}
use co_create_openebs.Metadata.Represented.{Represents, IsDone, sync_metadata-IsDone}
use co_create_openebs.Metadata.Store.{sync_metadata, remove_at, delete_config_object}
use mathlib.Core.Path.{subst}

remove_at_beyond {ℓ} : {A : Type ℓ} (n : ℕ) (xs : List A) → length xs ≤ n → remove_at n xs ≡ xs
remove_at_beyond n [] l = refl
remove_at_beyond zero (x ∷ xs) l = absurd (omega arith)
remove_at_beyond (suc n) (x ∷ xs) l = ap (λ ys. x ∷ ys) (remove_at_beyond n xs (omega arith))

pub length-remove_at {ℓ} :
    {A : Type ℓ} (n : ℕ) (xs : List A) → n < length xs → suc (length (remove_at n xs)) ≡ length xs
length-remove_at n [] l = absurd (omega arith)
length-remove_at zero (x ∷ xs) l = refl
length-remove_at (suc n) (x ∷ xs) l = ap suc (length-remove_at n xs (omega arith))

All-remove_at {ℓ κ} :
    {A : Type ℓ} (P : A → Type κ) (n : ℕ) (xs : List A) → All P xs → All P (remove_at n xs)
All-remove_at P n [] a = tt
All-remove_at P zero (x ∷ xs) a = a.1
All-remove_at P (suc n) (x ∷ xs) a = (a.0, All-remove_at P n xs a.1)

remove_at-IsChained :
    (start last n : ℕ) (es : List MetaDataIndexEntry)
    → IsChained start last es
    → IsChained start last (remove_at n es)
remove_at-IsChained start last n [] a = tt
remove_at-IsChained start last zero (e ∷ es) (a, (b, (d, r))) =
    weaken-IsChained (suc e.data_end) start last es (omega arith) r
remove_at-IsChained start last (suc n) (e ∷ es) (a, (b, (d, r))) =
    (a, (b, (d, remove_at-IsChained (suc e.data_end) last n es r)))

module _ (m : MetaCodec) where
  remove_at-Holds :
      (f : ℕ → ℕ) (self_lba s n : ℕ) (es : List MetaDataIndexEntry) (cs : List NexusConfig)
      → Holds m f self_lba s es cs
      → Holds m f self_lba s (remove_at n es) (remove_at n cs)
  remove_at-Holds f self_lba s n [] [] h = tt
  remove_at-Holds f self_lba s n [] (c ∷ cs) h = absurd h
  remove_at-Holds f self_lba s n (e ∷ es) [] h = absurd h
  remove_at-Holds f self_lba s zero (e ∷ es) (c ∷ cs) h = h.1
  remove_at-Holds f self_lba s (suc n) (e ∷ es) (c ∷ cs) h =
      (h.0, remove_at-Holds f self_lba s n es cs h.1)

  -- The metadata without an entry.
  abbrev without : NexusMetaData → ℕ → NexusMetaData
  without meta selected = record {
    header = record (meta.header) { used_entries = sub_u32 meta.header.used_entries 1 };
    index = remove_at selected meta.index;
  }

  without-Represents :
      (k : MetaChild) (meta : NexusMetaData) (cs : List NexusConfig) (selected : ℕ)
      → selected < meta.header.used_entries
      → Represents m k meta cs
      → Represents m k (without meta selected) (remove_at selected cs)
  without-Represents k meta cs selected l r =
      let o = r.laid in
      let n : sub_u32 meta.header.used_entries 1 + 1 ≡ meta.header.used_entries =
        omega (arith, o.placed.used, o.placed.small) in
      record {
        working = r.working;
        laid = record {
          placed = record {
            positive = o.placed.positive;
            signature = o.placed.signature;
            size = o.placed.size;
            entry = o.placed.entry;
            gap = o.placed.gap;
            objects = o.placed.objects;
            small = o.placed.small;
            used = omega (arith, n, o.placed.used);
            generation = o.placed.generation;
            order = o.placed.order;
            bound = o.placed.bound;
          };
          count =
              omega
                (arith, n, o.count, length-remove_at selected meta.index (omega (arith, o.count)));
          entries = All-remove_at FitsEntry selected meta.index o.entries;
        };
        chained =
            remove_at-IsChained meta.header.data_start meta.header.data_end selected meta.index
              r.chained;
        holds =
            remove_at-Holds k.device.contents meta.header.self_lba (block_len_of k) selected
              meta.index cs r.holds;
      }

-- Taking out an object by its number succeeds on a child that works, whatever the number is: the list
-- loses the object of that number if there is one, and the partition is found that way.
pub delete_config_object-IsDone :
    (m : MetaCodec) (law : IsMetaCodec m) (k : MetaChild) (meta : NexusMetaData)
    (cs : List NexusConfig) (selected : ℕ)
    → Represents m k meta cs
    → IsDone m k meta (delete_config_object m k meta selected) (remove_at selected cs)
unfolding delete_config_object
delete_config_object-IsDone m law k meta cs selected r =
    let o = r.laid in
    let n =
      length-Holds m k.device.contents meta.header.self_lba (block_len_of k) meta.index cs
        r.holds in
    let c : (length meta.index == meta.header.used_entries) ≡ true = ground (arith, o.count) in
    elim (Bool-cases (ltb selected meta.header.used_entries)) [
      | inl z ↦
          let l : selected < meta.header.used_entries = ground arith in
          let d =
            sync_metadata-IsDone m k (without m meta selected) (remove_at selected cs) law
              (without-Represents m k meta cs selected l r) in
          rw (c, z, delete_config_object)
            (record {
              done = d.done;
              represents = d.represents;
              found = d.found;
              lasting = d.lasting;
              same = record {
                block_len = d.same.block_len;
                self_lba = d.same.self_lba;
                data_start = d.same.data_start;
                data_end = d.same.data_end;
                max_entries = d.same.max_entries;
              };
            })
      | inr z ↦
          let out : meta.header.used_entries ≤ selected = ground arith in
          let e = remove_at_beyond selected cs (omega (arith, n, o.count, out)) in
          rw (c, z, delete_config_object)
            (subst (λ (x : List NexusConfig). IsDone m k meta (sync_metadata m k meta) x) (sym e)
              (sync_metadata-IsDone m k meta cs law r))
    ]
