-- ===== src/Label/Forms.antt =====
-- Little-endian forms of fixed length, from which `LittleEndian` makes an instance of the laws that
-- the label code relies on.
use co_create_openebs.Label.Bytes.{Agrees, split_bytes, move_bytes}
use co_create_openebs.Prelude.{
  ℕ, List, zero, suc, length, ◌≡◌, ◌<◌, ◌+◌, ◌*◌, ◌/◌, ◌%◌, ◌∷◌, [], ◌++◌, refl, ap, ◌∙◌, arith,
  length-append,
}
use native.Mathlib.Nat.{div-add-mod', mod-lt}

-- A way to write values of a type in `width` bytes, and to read them, with the values that fit.
pub record Form (A : Type 0) : Type 1 where
  pub width : ℕ
  pub write : A → List ℕ
  pub read : (ℕ → ℕ) → (pos : ℕ) → A
  pub Fits : A → Type 0
  pub len : (a : A) → Fits a → length (write a) ≡ width
  pub back : (f : ℕ → ℕ) (pos : ℕ) (a : A) → Fits a → Agrees f pos (write a) → read f pos ≡ a

abbrev pub bound : (k : ℕ) → ℕ
bound zero = 1
bound (suc k) = 256 * bound k

abbrev pub digits : (k n : ℕ) → List ℕ
digits zero n = []
digits (suc k) n = (n % 256) ∷ digits k (n / 256)

abbrev pub number_at : (k : ℕ) → (ℕ → ℕ) → (pos : ℕ) → ℕ
number_at zero f pos = 0
number_at (suc k) f pos = f pos + 256 * number_at k f (suc pos)

pub length-digits : (k n : ℕ) → length (digits k n) ≡ k
length-digits zero n = refl
length-digits (suc k) n = ap suc (length-digits k (n / 256))

pub number_at-digits :
    (k : ℕ) (f : ℕ → ℕ) (pos n : ℕ)
    → n < bound k
    → Agrees f pos (digits k n)
    → number_at k f pos ≡ n
number_at-digits zero f pos n l h = omega arith
number_at-digits (suc k) f pos n l h =
    let e = div-add-mod' n 256 in
    let r = mod-lt n {m = 256} (omega arith) in
    let rest = number_at-digits k f (suc pos) (n / 256) (omega arith) h.1 in
    omega (arith, h.0, rest)

abbrev pub number : (k : ℕ) → Form ℕ
number k = record {
  width = k;
  write = digits k;
  read = number_at k;
  Fits = λ n. n < bound k;
  len = λ n l. length-digits k n;
  back = number_at-digits k;
}

abbrev pub bytes_at : (k : ℕ) → (ℕ → ℕ) → (pos : ℕ) → List ℕ
bytes_at zero f pos = []
bytes_at (suc k) f pos = f pos ∷ bytes_at k f (suc pos)

pub bytes_back :
    (k : ℕ) (f : ℕ → ℕ) (pos : ℕ) (xs : List ℕ)
    → length xs ≡ k
    → Agrees f pos xs
    → bytes_at k f pos ≡ xs
bytes_back zero f pos [] e h = refl
bytes_back zero f pos (x ∷ xs) e h = absurd (omega arith)
bytes_back (suc k) f pos [] e h = absurd (omega arith)
bytes_back (suc k) f pos (x ∷ xs) e h =
    let rest = bytes_back k f (suc pos) xs (omega arith) h.1 in rw (h.0, rest) refl

abbrev pub bytes : (k : ℕ) → Form (List ℕ)
bytes k = record {
  width = k;
  write = λ xs. xs;
  read = bytes_at k;
  Fits = λ xs. length xs ≡ k;
  len = λ xs e. e;
  back = bytes_back k;
}

-- One after the other.
abbrev pub both_of : {A B : Type 0} → Form A → Form B → Form (A × B)
both_of {A} {B} F G = record {
  width = F.width + G.width;
  write = λ p. F.write p.0 ++ G.write p.1;
  read = λ f pos. (F.read f pos, G.read f (pos + F.width));
  Fits = λ p. F.Fits p.0 × G.Fits p.1;
  len =
      λ p h. omega (arith, length-append (F.write p.0) (G.write p.1), F.len p.0 h.0, G.len p.1 h.1);
  back = λ f pos p h a.
      let (x, y) = split_bytes f pos (F.write p.0) (G.write p.1) a in
      let y' =
        move_bytes f (pos + length (F.write p.0)) (pos + F.width) (G.write p.1)
          (omega (arith, F.len p.0 h.0)) y in
      λ k. (F.back f pos p.0 h.0 x k, G.back f (pos + F.width) p.1 h.1 y' k);
}

-- Through another type.
abbrev pub through : {A B : Type 0} → Form B → (A → B) → (B → A) → Form A
through {A} {B} F to from = record {
  width = F.width;
  write = λ a. F.write (to a);
  read = λ f pos. from (F.read f pos);
  Fits = λ a. F.Fits (to a) × (from (to a) ≡ a);
  len = λ a h. F.len (to a) h.0;
  back = λ f pos a h x. ap from (F.back f pos (to a) h.0 x) ∙ h.1;
}
