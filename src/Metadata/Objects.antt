-- ===== src/Metadata/Objects.antt =====
-- The objects that an index stands for (`read_config_object`, `probe_all_config_objects` of
-- nexus_metadata.rs).
use co_create_openebs.Label.Layout.{get_blocks}
use co_create_openebs.Label.Geometry.{mul_mono}
use co_create_openebs.Metadata.Synced.{block_len_of, read_blocks-eq}
use co_create_openebs.Metadata.Laws.{IsMetaCodec}
use co_create_openebs.Metadata.Slices.{same_slice, factor_bounded}
use co_create_openebs.Metadata.Read.{read_object, read_config_object, read_objects}
use co_create_openebs.Metadata.Layout.{
  MetaDataIndexEntry, MetaCodec, bytes_from, NexusConfig, MetaDataError, MetaChild, MetaDataHeader,
  object_checksum, deserialize_error,
}
use co_create_openebs.Prelude.{
  ℕ, ◌*◌, List, ◌≤◌, ◌∷◌, Result, ◌-◌, ◌+◌, ◌<◌, suc, ◌≡◌, [], arith, ◌>>◌, ◌∙◌, reject_if, ap, not,
  ◌==◌, u64_mod, some_or, add_u64, sub_u64, refl, length, ok, get_elem?, some, map_ok, zero,
}
use co_create_openebs.Metadata.Signed.{IsWorking}

abbrev pub blocks_in : MetaDataIndexEntry → ℕ
blocks_in e = e.data_end - e.data_start + 1

abbrev pub used_blocks : List MetaDataIndexEntry → ℕ
used_blocks [] = 0
used_blocks (e ∷ es) = blocks_in e + used_blocks es

-- Entries that lie one after the other from `start` up to `last`.
abbrev pub IsChained : (start last : ℕ) → List MetaDataIndexEntry → Type 0
IsChained start last [] = Unit
IsChained start last (e ∷ es) =
    (start ≤ e.data_start)
    × ((e.data_start ≤ e.data_end) × ((e.data_end ≤ last) × IsChained (suc e.data_end) last es))

-- The same without gaps.
abbrev pub IsPacked : (start : ℕ) → List MetaDataIndexEntry → Type 0
IsPacked start [] = Unit
IsPacked start (e ∷ es) =
    (e.data_start ≡ start) × ((start ≤ e.data_end) × IsPacked (suc e.data_end) es)

-- The bytes of an object on a device with contents `f`.
abbrev pub object_bytes : (ℕ → ℕ) → (self_lba s : ℕ) → MetaDataIndexEntry → List ℕ
object_bytes f self_lba s e = bytes_from f ((self_lba + e.data_start) * s) (blocks_in e * s)

-- Two contents that are the same from one block up to another, as bytes.
abbrev pub IsSameFrom : (f g : ℕ → ℕ) (s lo hi : ℕ) → Type 0
IsSameFrom f g s lo hi = (i : ℕ) → lo * s ≤ i → i < hi * s → g i ≡ f i

object_end :
    (self_lba s : ℕ) (e : MetaDataIndexEntry)
    → e.data_start ≤ e.data_end
    → (self_lba + e.data_start) * s + blocks_in e * s ≡ (self_lba + suc e.data_end) * s
object_end self_lba s e l =
    let n : e.data_start + blocks_in e ≡ suc e.data_end = omega arith in
    let z : (self_lba + e.data_start) * s + blocks_in e * s
        ≡ (self_lba + (e.data_start + blocks_in e)) * s =
      grind arith in
    z ∙ ap (λ (a : ℕ). (self_lba + a) * s) n

pub same_object :
    (f g : ℕ → ℕ) (self_lba s : ℕ) (e : MetaDataIndexEntry)
    → e.data_start ≤ e.data_end
    → IsSameFrom f g s (self_lba + e.data_start) (self_lba + suc e.data_end)
    → object_bytes g self_lba s e ≡ object_bytes f self_lba s e
same_object f g self_lba s e l q =
    let z = object_end self_lba s e l in
    let p : ℕ = (self_lba + e.data_start) * s in
    same_slice g f p p (blocks_in e * s) (λ i b. q (p + i) (omega arith) (omega arith))

module _ (m : MetaCodec) where
  -- The checks of `read_config_object`.
  abbrev pub decoded : (bytes : List ℕ) (sum : ℕ) → Result MetaDataError NexusConfig
  decoded bytes sum = do
    reject_if (not (m.checksum_ieee bytes == sum)) object_checksum
    some_or deserialize_error (m.deserialize_config bytes)

  -- The entries have the objects, each in as many blocks as it takes.
  abbrev pub Holds :
      (ℕ → ℕ) → (self_lba s : ℕ) → List MetaDataIndexEntry → List NexusConfig → Type 0
  Holds f self_lba s [] [] = Unit
  Holds f self_lba s [] (c ∷ cs) = ⊥
  Holds f self_lba s (e ∷ es) [] = ⊥
  Holds f self_lba s (e ∷ es) (c ∷ cs) =
      ((decoded (object_bytes f self_lba s e) e.data_checksum ≡ ok c)
        × (blocks_in e ≡ get_blocks (length (m.serialize_config c)) s))
      × Holds f self_lba s es cs

  pub read_object-eq :
      (k : MetaChild) (h : MetaDataHeader) (e : MetaDataIndexEntry)
      → IsMetaCodec m
      → IsWorking k
      → 0 < block_len_of k
      → e.data_start ≤ e.data_end
      → (h.self_lba + suc e.data_end) * block_len_of k < u64_mod
      → read_object m k h e
        ≡ decoded (object_bytes k.device.contents h.self_lba (block_len_of k) e) e.data_checksum
  unfolding read_object read_config_object
  read_object-eq k h e law w p l b =
      let s : ℕ = block_len_of k in
      let f = k.device.contents in
      let z = object_end h.self_lba s e l in
      let top = factor_bounded (h.self_lba + suc e.data_end) s p b in
      let n : ℕ = blocks_in e in
      let o : ℕ = (h.self_lba + e.data_start) * s in
      let lba : add_u64 h.self_lba e.data_start ≡ h.self_lba + e.data_start = omega arith in
      let blocks : add_u64 (sub_u64 e.data_end e.data_start) 1 ≡ n = omega arith in
      let r = read_blocks-eq m law k (h.self_lba + e.data_start) n w (omega arith) (omega arith) in
      let q =
        same_slice (λ i. f (o + i)) f 0 o (n * s)
          (λ i _. ap (λ (j : ℕ). f (o + j)) {x = 0 + i} {y = i} (omega arith)) in
      rw (lba, blocks, r) (ap (λ (xs : List ℕ). decoded xs e.data_checksum) q)

  -- Where the contents stay the same, so do the objects.
  pub keep-Holds :
      (f g : ℕ → ℕ) (self_lba s start last : ℕ) (es : List MetaDataIndexEntry)
      (cs : List NexusConfig)
      → IsChained start last es
      → IsSameFrom f g s (self_lba + start) (self_lba + suc last)
      → Holds f self_lba s es cs
      → Holds g self_lba s es cs
  keep-Holds f g self_lba s start last [] [] a q h = tt
  keep-Holds f g self_lba s start last [] (c ∷ cs) a q h = h
  keep-Holds f g self_lba s start last (e ∷ es) [] a q h = h
  keep-Holds f g self_lba s start last (e ∷ es) (c ∷ cs) (a, (b, (d, r))) q ((x, n), h) =
      let lo = mul_mono (self_lba + start) (self_lba + e.data_start) s (omega arith) in
      let mid = mul_mono (self_lba + start) (self_lba + suc e.data_end) s (omega arith) in
      let hi = mul_mono (self_lba + suc e.data_end) (self_lba + suc last) s (omega arith) in
      let z = same_object f g self_lba s e b (λ i u v. q i (omega arith) (omega arith)) in
      (
        (rw z x, n),
        keep-Holds f g self_lba s (suc e.data_end) last es cs r
            (λ i u v. q i (omega arith) (omega arith)) h,
      )

  pub read_objects-Holds :
      (k : MetaChild) (h : MetaDataHeader) (start : ℕ) (es : List MetaDataIndexEntry)
      (cs : List NexusConfig)
      → IsMetaCodec m
      → IsWorking k
      → 0 < block_len_of k
      → (h.self_lba + suc h.data_end) * block_len_of k < u64_mod
      → IsChained start h.data_end es
      → Holds k.device.contents h.self_lba (block_len_of k) es cs
      → read_objects m k h es ≡ ok cs
  unfolding read_objects
  read_objects-Holds k h start [] [] law w p u a x = refl
  read_objects-Holds k h start [] (c ∷ cs) law w p u a x = absurd x
  read_objects-Holds k h start (e ∷ es) [] law w p u a x = absurd x
  read_objects-Holds k h start (e ∷ es) (c ∷ cs) law w p u (a, (b, (d, r))) ((x, n), y) =
      let hi =
        mul_mono (h.self_lba + suc e.data_end) (h.self_lba + suc h.data_end) (block_len_of k)
          (omega arith) in
      rw
        (
          read_object-eq k h e law w p b (omega arith),
          x,
          read_objects-Holds k h (suc e.data_end) es cs law w p u r y,
          read_objects,
        )
        refl

  -- An object of those that there are.
  pub nth-Holds :
      (k : MetaChild) (h : MetaDataHeader) (start : ℕ) (es : List MetaDataIndexEntry)
      (cs : List NexusConfig) (i : ℕ)
      → IsMetaCodec m
      → IsWorking k
      → 0 < block_len_of k
      → (h.self_lba + suc h.data_end) * block_len_of k < u64_mod
      → IsChained start h.data_end es
      → Holds k.device.contents h.self_lba (block_len_of k) es cs
      → i < length es
      → (e : MetaDataIndexEntry) × ((get_elem? es i ≡ some e)
          × (map_ok some (read_object m k h e) ≡ ok (get_elem? cs i)))
  nth-Holds k h start [] cs i law w p u a x l = absurd (omega arith)
  nth-Holds k h start (e ∷ es) [] i law w p u a x l = absurd x
  nth-Holds k h start (e ∷ es) (c ∷ cs) zero law w p u (a, (b, (d, r))) ((x, n), y) l =
      let hi =
        mul_mono (h.self_lba + suc e.data_end) (h.self_lba + suc h.data_end) (block_len_of k)
          (omega arith) in
      (e, (refl, rw (read_object-eq k h e law w p b (omega arith), x) refl))
  nth-Holds k h start (e ∷ es) (c ∷ cs) (suc i) law w p u (a, (b, (d, r))) ((x, n), y) l =
      nth-Holds k h (suc e.data_end) es cs i law w p u r y (omega arith)

  pub length-Holds :
      (f : ℕ → ℕ) (self_lba s : ℕ) (es : List MetaDataIndexEntry) (cs : List NexusConfig)
      → Holds f self_lba s es cs
      → length cs ≡ length es
  length-Holds f self_lba s [] [] h = refl
  length-Holds f self_lba s [] (c ∷ cs) h = absurd h
  length-Holds f self_lba s (e ∷ es) [] h = absurd h
  length-Holds f self_lba s (e ∷ es) (c ∷ cs) h = ap suc (length-Holds f self_lba s es cs h.1)
