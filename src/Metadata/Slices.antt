-- ===== src/Metadata/Slices.antt =====
-- What a buffer gives as a slice, and 64-bit products of places on the device.
use co_create_openebs.Label.Layout.{get_blocks}
use mathlib.Core.Path.{subst}
use native.Mathlib.Nat.{mod-eq_of_lt, div-add-mod', mod-lt}
use co_create_openebs.Label.Geometry.{mul_mono}
use co_create_openebs.Metadata.Layout.{bytes_from}
use co_create_openebs.Label.Bytes.{Agrees}
use co_create_openebs.Prelude.{
  ℕ, ◌<◌, List, ◌≤◌, length, ◌+◌, ◌*◌, u64_mod, ◌≡◌, ◌++◌, suc, mul_u64, ◌∷◌, arith, zero, [], refl,
  Bool-cases, ◌%◌, ◌==◌, inl, inr, ◌≢◌,
}

pub same_slice :
    (f g : ℕ → ℕ) (p q n : ℕ)
    → ((i : ℕ) → i < n → f (p + i) ≡ g (q + i))
    → bytes_from f p n ≡ bytes_from g q n
same_slice f g p q zero e = refl
same_slice f g p q (suc n) e =
    let z : f p ≡ g q =
      subst (λ (a : ℕ). f a ≡ g q) {x = p + 0} {y = p} (omega arith)
        (subst (λ (b : ℕ). f (p + 0) ≡ g b) {x = q + 0} {y = q} (omega arith)
          (e 0 (omega arith))) in
    let rest = same_slice f g (suc p) (suc q) n (λ i l.
      (subst (λ (a : ℕ). f a ≡ g (suc q + i)) {x = p + suc i} {y = suc p + i} (omega arith)
        (subst (λ (b : ℕ). f (p + suc i) ≡ g b) {x = q + suc i} {y = suc q + i} (omega arith)
          (e (suc i) (omega arith))))) in
    rw (z, rest) refl

-- The bytes that are known come first.
pub slice-Agrees :
    (f : ℕ → ℕ) (p n : ℕ) (xs : List ℕ)
    → length xs ≤ n
    → Agrees f p xs
    → (rest : List ℕ) × (bytes_from f p n ≡ xs ++ rest)
slice-Agrees f p n [] l h = (bytes_from f p n, refl)
slice-Agrees f p zero (x ∷ xs) l h = absurd (omega arith)
slice-Agrees f p (suc n) (x ∷ xs) l h =
    let (rest, e) = slice-Agrees f (suc p) n xs (omega arith) h.1 in (rest, rw (h.0, e) refl)

-- A product that is bounded by one that does not wrap.
pub mul_bounded : (a b s : ℕ) → a ≤ b → b * s < u64_mod → mul_u64 a s ≡ a * s
mul_bounded a b s l u =
    let k = mul_mono a b s l in mod-eq_of_lt {n = a * s} {m = u64_mod} (omega arith)

pub factor_bounded : (a s : ℕ) → 0 < s → a * s < u64_mod → a < u64_mod
factor_bounded a (suc s) p u = let e : a * suc s ≡ a + a * s = grind arith in omega arith
factor_bounded a zero p u = absurd (omega arith)

-- The blocks of something are less than one block longer.
pub get_blocks_tight : (size s : ℕ) → 0 < s → get_blocks size s * s < size + s
unfolding get_blocks
get_blocks_tight size s p =
    let e = div-add-mod' size s in
    let l = mod-lt size {m = s} p in
    elim (Bool-cases (size % s == 0)) [
      | inl z ↦ let z' : size % s ≡ 0 = ground arith in rw z (omega arith)
      | inr z ↦ let z' : size % s ≢ 0 = ground arith in rw z (omega arith)
    ]
