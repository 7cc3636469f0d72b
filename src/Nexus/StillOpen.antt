-- ===== src/Nexus/StillOpen.antt =====
-- The open children of a nexus when one is replaced, and when the channels are reconfigured
-- (`fault_child` of nexus_bdev_children.rs, `refresh` of nexus_channel.rs).
use mathlib.Core.Path.{subst}
use co_create_openebs.Nexus.Refreshed.{IsRefreshed, Refreshed}
use co_create_openebs.Nexus.Changes.{is_last_healthy}
use co_create_openebs.Nexus.Child.{NexusChild, is_open, Devices, handle}
use co_create_openebs.Nexus.Members.{update_first, has_name}
use co_create_openebs.Prelude.{
  String, List, any, ◌≡◌, arith, false, ◌∷◌, refl, true, ◌∙◌, Bool-cases, filter, [], inl, str_eq,
  inr, ap, sym, Option, some, none, find, Bool, All, ◌≢◌,
}

pub any_behind :
    (x : NexusChild) (xs : List NexusChild)
    → any (λ c. is_open c.state) xs ≡ true
    → any (λ c. is_open c.state) (x ∷ xs) ≡ true
any_behind x xs e = elim (Bool-cases (is_open x.state)) [ inl p ↦ rw p refl | inr p ↦ rw p e ]

pub any_first :
    (x : NexusChild) (xs : List NexusChild)
    → is_open x.state ≡ true
    → any (λ c. is_open c.state) (x ∷ xs) ≡ true
any_first x xs p = rw p refl

pub filter_first :
    (x : NexusChild) (xs : List NexusChild)
    → is_open x.state ≡ true
    → filter (λ c. is_open c.state) (x ∷ xs) ≡ x ∷ filter (λ c. is_open c.state) xs
filter_first x xs p = rw (p, filter) refl

pub filter_rest :
    (x : NexusChild) (xs : List NexusChild)
    → is_open x.state ≡ false
    → filter (λ c. is_open c.state) (x ∷ xs) ≡ filter (λ c. is_open c.state) xs
filter_rest x xs p = rw (p, filter) refl

pub none_open :
    (xs : List NexusChild)
    → any (λ c. is_open c.state) xs ≡ false
    → filter (λ c. is_open c.state) xs ≡ []
none_open [] e = refl
none_open (x ∷ xs) e = elim (Bool-cases (is_open x.state)) [
  | inl p ↦ absurd (ground (arith, sym (any_first x xs p) ∙ e))
  | inr p ↦ filter_rest x xs p ∙ none_open xs (rw p at e)
]

pub two_open :
    (name : String) (x : NexusChild) (xs : List NexusChild)
    → str_eq x.name name ≡ true
    → is_last_healthy name (x ∷ filter (λ c. is_open c.state) xs) ≡ false
    → any (λ c. is_open c.state) xs ≡ true
two_open name x xs p l = elim (Bool-cases (any (λ c. is_open c.state) xs)) [
  | inl e ↦ e
  | inr e ↦
      let one : is_last_healthy name (x ∷ []) ≡ false =
        ap (λ (ys : List NexusChild). is_last_healthy name (x ∷ ys)) (sym (none_open xs e)) ∙ l in
      absurd (ground (arith, sym p ∙ one))
]

-- If it is not the last open child that is replaced, an open one is left.
pub replaced_first :
    (name : String) (c' : NexusChild) (cs : List NexusChild)
    → any (λ c. is_open c.state) cs ≡ true
    → is_last_healthy name (filter (λ c. is_open c.state) cs) ≡ false
    → any (λ c. is_open c.state) (update_first (has_name name) (λ _. c') cs) ≡ true
unfolding update_first
replaced_first name c' [] a l = a
replaced_first name c' (x ∷ xs) a l = elim (Bool-cases (str_eq x.name name)) [
  | inl p ↦ elim (Bool-cases (is_open x.state)) [
    | inr q ↦ rw (p, update_first) (any_behind c' xs (rw q at a))
    | inl q ↦
        rw (p, update_first)
          (any_behind c' xs
            (two_open name x xs p (ap (is_last_healthy name) (sym (filter_first x xs q)) ∙ l)))
  ]
  | inr p ↦ elim (Bool-cases (is_open x.state)) [
    | inl q ↦ rw (p, update_first) (any_first x (update_first (has_name name) (λ _. c') xs) q)
    | inr q ↦
        rw (p, update_first)
          (any_behind x (update_first (has_name name) (λ _. c') xs) (
            replaced_first name c' xs (rw q at a)
              (ap (is_last_healthy name) (sym (filter_rest x xs q)) ∙ l)))
  ]
]

-- An open child gives a handle.
abbrev pub IsServing : Devices → NexusChild → Type 0
IsServing d c = is_open c.state ≡ true → handle d c ≢ none

refreshed-closed :
    (d : Devices) (c c' : NexusChild)
    → IsRefreshed d c c'
    → is_open c.state ≡ false
    → is_open c'.state ≡ false
refreshed-closed d c c' (inl e) o = ap (λ (x : NexusChild). is_open x.state) e ∙ o
refreshed-closed d c c' (inr h) o = ap is_open h.state

refreshed-IsServing :
    (d : Devices) (c c' : NexusChild) → IsRefreshed d c c' → IsServing d c → IsServing d c'
refreshed-IsServing d c c' (inl e) s = subst (λ (x : NexusChild). IsServing d x) (sym e) s
refreshed-IsServing d c c' (inr h) s =
    λ o. let z : is_open c'.state ≡ false = ap is_open h.state in absurd (ground (arith, sym o ∙ z))

refreshed-open :
    (d : Devices) (c c' : NexusChild)
    → IsRefreshed d c c'
    → IsServing d c
    → is_open c.state ≡ true
    → is_open c'.state ≡ true
refreshed-open d c c' (inl e) s o = ap (λ (x : NexusChild). is_open x.state) e ∙ o
refreshed-open d c c' (inr h) s o = absurd (s o h.no_handle)

pub Refreshed-IsServing :
    (d : Devices) (xs ys : List NexusChild)
    → Refreshed d xs ys
    → All (IsServing d) xs
    → All (IsServing d) ys
Refreshed-IsServing d [] [] h s = tt
Refreshed-IsServing d [] (y ∷ ys) h s = absurd h
Refreshed-IsServing d (x ∷ xs) [] h s = absurd h
Refreshed-IsServing d (x ∷ xs) (y ∷ ys) h s =
    (refreshed-IsServing d x y h.0 s.0, Refreshed-IsServing d xs ys h.1 s.1)

-- If the open children give handles, one that is open stays so.
pub Refreshed-open :
    (d : Devices) (xs ys : List NexusChild)
    → Refreshed d xs ys
    → All (IsServing d) xs
    → any (λ c. is_open c.state) xs ≡ true
    → any (λ c. is_open c.state) ys ≡ true
Refreshed-open d [] [] h s a = a
Refreshed-open d [] (y ∷ ys) h s a = absurd h
Refreshed-open d (x ∷ xs) [] h s a = absurd h
Refreshed-open d (x ∷ xs) (y ∷ ys) h s a = elim (Bool-cases (is_open x.state)) [
  | inl o ↦ any_first y ys (refreshed-open d x y h.0 s.0 o)
  | inr o ↦ any_behind y ys (Refreshed-open d xs ys h.1 s.1 (rw o at a))
]

-- A reconfiguration opens no child.
pub Refreshed-none_open :
    (d : Devices) (xs ys : List NexusChild)
    → Refreshed d xs ys
    → any (λ c. is_open c.state) xs ≡ false
    → any (λ c. is_open c.state) ys ≡ false
Refreshed-none_open d [] [] h a = a
Refreshed-none_open d [] (y ∷ ys) h a = absurd h
Refreshed-none_open d (x ∷ xs) [] h a = absurd h
Refreshed-none_open d (x ∷ xs) (y ∷ ys) h a = elim (Bool-cases (is_open x.state)) [
  | inl o ↦ absurd (ground (arith, sym (any_first x xs o) ∙ a))
  | inr o ↦
      let o' = refreshed-closed d x y h.0 o in rw o' (Refreshed-none_open d xs ys h.1 (rw o at a))
]

-- A child that is not open does not matter to the open ones.
pub replaced-IsServing :
    (d : Devices) (p : NexusChild → Bool) (c' : NexusChild) (cs : List NexusChild)
    → is_open c'.state ≡ false
    → All (IsServing d) cs
    → All (IsServing d) (update_first p (λ _. c') cs)
unfolding update_first
replaced-IsServing d p c' [] o s = tt
replaced-IsServing d p c' (x ∷ xs) o s = elim (Bool-cases (p x)) [
  | inl e ↦ rw (e, update_first) (λ q. absurd (ground (arith, sym q ∙ o)), s.1)
  | inr e ↦ rw (e, update_first) (s.0, replaced-IsServing d p c' xs o s.1)
]

abbrev open_or : Bool → Option NexusChild → Bool
open_or b none = b
open_or b (some x) = is_open x.state

not_open :
    (x : NexusChild) (xs : List NexusChild)
    → is_open x.state ≡ false
    → any (λ c. is_open c.state) xs ≡ false
    → any (λ c. is_open c.state) (x ∷ xs) ≡ false
not_open x xs p e = rw p e

no_more_open :
    (xs : List NexusChild)
    → filter (λ c. is_open c.state) xs ≡ []
    → any (λ c. is_open c.state) xs ≡ false
no_more_open [] e = refl
no_more_open (x ∷ xs) e = elim (Bool-cases (is_open x.state)) [
  | inl p ↦ let q = sym (filter_first x xs p) ∙ e in absurd (ground (arith, q))
  | inr p ↦ not_open x xs p (no_more_open xs (sym (filter_rest x xs p) ∙ e))
]

last_alone :
    (name : String) (x : NexusChild) (ys : List NexusChild)
    → is_last_healthy name (x ∷ ys) ≡ true
    → (ys ≡ []) × (str_eq x.name name ≡ true)
last_alone name x [] e = (refl, e)
last_alone name x (y ∷ ys) e = absurd (ground arith)

-- If the one that is open is replaced by one that is not, none is.
pub replaced_last :
    (name : String) (c c' : NexusChild) (cs : List NexusChild)
    → is_last_healthy name (filter (λ x. is_open x.state) cs) ≡ true
    → find (has_name name) cs ≡ some c
    → is_open c.state ≡ true
    → is_open c'.state ≡ false
    → any (λ x. is_open x.state) (update_first (has_name name) (λ _. c') cs) ≡ false
unfolding update_first
replaced_last name c c' [] l f o o' = refl
replaced_last name c c' (x ∷ xs) l f o o' = elim (Bool-cases (str_eq x.name name)) [
  | inl e ↦
      let same : some x ≡ some c = rw (e, find) at f in
      let q : is_open x.state ≡ true = ap (open_or true) same ∙ o in
      let alone =
        last_alone name x (filter (λ y. is_open y.state) xs)
          (ap (is_last_healthy name) (sym (filter_first x xs q)) ∙ l) in
      rw (e, update_first) (not_open c' xs o' (no_more_open xs alone.0))
  | inr e ↦ elim (Bool-cases (is_open x.state)) [
    | inl q ↦
        let alone =
          last_alone name x (filter (λ y. is_open y.state) xs)
            (ap (is_last_healthy name) (sym (filter_first x xs q)) ∙ l) in
        absurd (ground (arith, sym alone.1 ∙ e))
    | inr q ↦
        rw (e, update_first)
          (not_open x (update_first (has_name name) (λ _. c') xs) q (
            replaced_last name c c' xs (ap (is_last_healthy name) (sym (filter_rest x xs q)) ∙ l)
              (rw (e, find) at f) o o'))
  ]
]
