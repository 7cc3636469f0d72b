-- ===== src/Label/Bytes.antt =====
-- Bytes at a place of a buffer or of a device, under what is written there (`serialize_into`,
-- `write_at`, `read_at` as nexus_label.rs uses them).
use co_create_openebs.Label.Disk.{overlay, stored}
use co_create_openebs.Label.Format.{Buffer}
use co_create_openebs.Prelude.{
  ℕ, List, ◌≤◌, ◌∷◌, ◌++◌, ◌+◌, ◌<◌, ◌≡◌, length, ◌==◌, suc, true, ◌⊎◌, arith, false, [], leb, inl,
  ◌∙◌, refl, inr, ltb, ◌-◌,
}
use mathlib.Core.Path.{subst}

-- From `at` on, `f` has the bytes of the list.
abbrev pub Agrees : (ℕ → ℕ) → (at : ℕ) → List ℕ → Type 0
Agrees f at [] = Unit
Agrees f at (b ∷ bs) = (f at ≡ b) × Agrees f (suc at) bs

-- At another place that is the same.
pub move_bytes : (f : ℕ → ℕ) (p q : ℕ) (bs : List ℕ) → p ≡ q → Agrees f p bs → Agrees f q bs
move_bytes f p q bs e h = subst (λ (k : ℕ). Agrees f k bs) e h

pub same_bytes :
    (f g : ℕ → ℕ) (at : ℕ) (bs : List ℕ)
    → ((i : ℕ) → at ≤ i → i < at + length bs → g i ≡ f i)
    → Agrees f at bs
    → Agrees g at bs
same_bytes f g at [] e h = tt
same_bytes f g at (b ∷ bs) e h = (
  e at (omega arith) (omega arith) ∙ h.0,
  same_bytes f g (suc at) bs (λ i p q. e i (omega arith) (omega arith)) h.1,
)

pub split_bytes :
    (f : ℕ → ℕ) (at : ℕ) (xs ys : List ℕ)
    → Agrees f at (xs ++ ys)
    → Agrees f at xs × Agrees f (at + length xs) ys
split_bytes f at [] ys h = (tt, move_bytes f at (at + 0) ys (omega arith) h)
split_bytes f at (x ∷ xs) ys h =
    let (l, r) = split_bytes f (suc at) xs ys h.1 in
    ((h.0, l), move_bytes f (suc at + length xs) (at + suc (length xs)) ys (omega arith) r)

pub join_bytes :
    (f : ℕ → ℕ) (at : ℕ) (xs ys : List ℕ)
    → Agrees f at xs
    → Agrees f (at + length xs) ys
    → Agrees f at (xs ++ ys)
join_bytes f at [] ys l r = move_bytes f (at + 0) at ys (omega arith) r
join_bytes f at (x ∷ xs) ys l r = (
  l.0,
  join_bytes f (suc at) xs ys l.1
      (move_bytes f (at + suc (length xs)) (suc at + length xs) ys (omega arith) r),
)

-- A part of the device as a buffer.
pub shift_bytes :
    (f : ℕ → ℕ) (offset at : ℕ) (bs : List ℕ)
    → Agrees f (offset + at) bs
    → Agrees (λ i. f (offset + i)) at bs
shift_bytes f offset at [] h = tt
shift_bytes f offset at (b ∷ bs) h = (
  h.0,
  shift_bytes f offset (suc at) bs
      (move_bytes f (suc (offset + at)) (offset + suc at) bs (omega arith) h.1),
)

overlay_before : (f : ℕ → ℕ) (at : ℕ) (bs : List ℕ) (i : ℕ) → i < at → overlay f at bs i ≡ f i
overlay_before f at [] i p = refl
overlay_before f at (b ∷ bs) i p =
    let e : (i == at) ≡ false = ground arith in rw e (overlay_before f (suc at) bs i (omega arith))

overlay_after :
    (f : ℕ → ℕ) (at : ℕ) (bs : List ℕ) (i : ℕ) → at + length bs ≤ i → overlay f at bs i ≡ f i
overlay_after f at [] i p = refl
overlay_after f at (b ∷ bs) i p =
    let e : (i == at) ≡ false = ground arith in rw e (overlay_after f (suc at) bs i (omega arith))

pub overlay-Agrees : (f : ℕ → ℕ) (at : ℕ) (bs : List ℕ) → Agrees (overlay f at bs) at bs
overlay-Agrees f at [] = tt
overlay-Agrees f at (b ∷ bs) =
    let e : (at == at) ≡ true = ground arith in
    (
      rw e refl,
      same_bytes (overlay f (suc at) bs) (overlay f at (b ∷ bs)) (suc at) bs
          (λ i p q. let z : (i == at) ≡ false = ground arith in rw z refl)
          (overlay-Agrees f (suc at) bs),
    )

-- What lies before or after is kept.
pub overlay_keeps :
    (f : ℕ → ℕ) (at : ℕ) (bs : List ℕ) (at' : ℕ) (xs : List ℕ)
    → (at' + length xs ≤ at) ⊎ (at + length bs ≤ at')
    → Agrees f at' xs
    → Agrees (overlay f at bs) at' xs
overlay_keeps f at bs at' xs (inl p) h =
    same_bytes f (overlay f at bs) at' xs (λ i l u. overlay_before f at bs i (omega arith)) h
overlay_keeps f at bs at' xs (inr p) h =
    same_bytes f (overlay f at bs) at' xs (λ i l u. overlay_after f at bs i (omega arith)) h

-- A buffer on the device.
pub stored-Agrees :
    (f : ℕ → ℕ) (offset : ℕ) (buf : Buffer) (at : ℕ) (bs : List ℕ)
    → at + length bs ≤ buf.len
    → Agrees buf.byte at bs
    → Agrees (stored f offset buf) (offset + at) bs
stored-Agrees f offset buf at [] p h = tt
stored-Agrees f offset buf at (b ∷ bs) p h =
    let l : leb offset (offset + at) ≡ true = ground arith in
    let u : ltb (offset + at) (offset + buf.len) ≡ true = ground arith in
    let e : offset + at - offset ≡ at = omega arith in
    (
      rw (l, u, e) h.0,
      move_bytes (stored f offset buf) (offset + suc at) (suc (offset + at)) bs (omega arith)
          (stored-Agrees f offset buf (suc at) bs (omega arith) h.1),
    )

pub stored_keeps :
    (f : ℕ → ℕ) (offset : ℕ) (buf : Buffer) (at : ℕ) (xs : List ℕ)
    → (at + length xs ≤ offset) ⊎ (offset + buf.len ≤ at)
    → Agrees f at xs
    → Agrees (stored f offset buf) at xs
stored_keeps f offset buf at xs p h =
    same_bytes f (stored f offset buf) at xs (λ i l u. ground arith) h
