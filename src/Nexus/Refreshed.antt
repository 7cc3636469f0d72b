-- ===== src/Nexus/Refreshed.antt =====
-- What a reconfiguration does to the children of a nexus (`refresh`, `reconfigure` of
-- nexus_channel.rs): only one without a handle changes, and only if it is open or out of sync.
use mathlib.Core.Path.{subst}
use co_create_openebs.Rebuild.Registry.{Instances}
use co_create_openebs.Nexus.Channel.{
  refresh, refresh_each, connect_rebuilding, connect_open, NexusChannelInner,
}
use co_create_openebs.Nexus.Members.{reconfigured, Nexus, has_name}
use co_create_openebs.Nexus.Recovery.{put_closed, set_child}
use co_create_openebs.Nexus.Child.{
  Devices, rebuilding, is_accessible, NexusChild, is_open, handle, faulted, cant_open,
}
use co_create_openebs.Prelude.{
  ◌∙◌, List, ◌≡◌, ◌∷◌, inl, [], Bool-cases, String, ◌⊎◌, true, length, inr, ltb, ◌==◌, Option-cases,
  none, arith, refl, Option, find, sym, ap, some, str_eq, false,
}

-- The child after a reconfiguration, or several.
pub record IsLost (d : Devices) (c c' : NexusChild) : Type 0 where
  pub used : is_accessible c ≡ true
  pub no_handle : handle d c ≡ none
  pub same_name : c'.name ≡ c.name
  pub state : c'.state ≡ faulted cant_open

abbrev pub IsRefreshed : Devices → (c c' : NexusChild) → Type 0
IsRefreshed d c c' = (c' ≡ c) ⊎ IsLost d c c'

abbrev pub Refreshed : Devices → (cs cs' : List NexusChild) → Type 0
Refreshed d [] [] = Unit
Refreshed d [] (y ∷ ys) = ⊥
Refreshed d (x ∷ xs) [] = ⊥
Refreshed d (x ∷ xs) (y ∷ ys) = IsRefreshed d x y × Refreshed d xs ys

pub refl-Refreshed : (d : Devices) (cs : List NexusChild) → Refreshed d cs cs
refl-Refreshed d [] = tt
refl-Refreshed d (c ∷ cs) = (inl refl, refl-Refreshed d cs)

-- A child that is lost is not looked at again.
IsLost-IsRefreshed :
    (d : Devices) (a b c : NexusChild) → IsLost d a b → IsRefreshed d b c → IsLost d a c
IsLost-IsRefreshed d a b c h (inl e) = subst (λ (x : NexusChild). IsLost d a x) (sym e) h
IsLost-IsRefreshed d a b c h (inr k) = record {
  used = h.used;
  no_handle = h.no_handle;
  same_name = k.same_name ∙ h.same_name;
  state = k.state;
}

trans-IsRefreshed :
    (d : Devices) (a b c : NexusChild) → IsRefreshed d a b → IsRefreshed d b c → IsRefreshed d a c
trans-IsRefreshed d a b c (inl e) k = subst (λ (x : NexusChild). IsRefreshed d x c) e k
trans-IsRefreshed d a b c (inr h) k = inr (IsLost-IsRefreshed d a b c h k)

pub trans-Refreshed :
    (d : Devices) (xs ys zs : List NexusChild)
    → Refreshed d xs ys
    → Refreshed d ys zs
    → Refreshed d xs zs
trans-Refreshed d [] [] zs h k = k
trans-Refreshed d [] (y ∷ ys) zs h k = absurd h
trans-Refreshed d (x ∷ xs) [] zs h k = absurd h
trans-Refreshed d (x ∷ xs) (y ∷ ys) [] h k = absurd k
trans-Refreshed d (x ∷ xs) (y ∷ ys) (z ∷ zs) h k =
    (trans-IsRefreshed d x y z h.0 k.0, trans-Refreshed d xs ys zs h.1 k.1)

connect_open-Refreshed : (d : Devices) (cs : List NexusChild) → Refreshed d cs (connect_open d cs).0
unfolding connect_open is_accessible
connect_open-Refreshed d [] = tt
connect_open-Refreshed d (c ∷ cs) =
    let rest = connect_open-Refreshed d cs in
    elim (Bool-cases (is_open c.state)) [
      | inr e ↦ simp (e, connect_open) (inl refl, rest)
      | inl e ↦ elim (Option-cases (handle d c)) [
        | inr (h, q) ↦ simp (e, q, connect_open) (inl refl, rest)
        | inl q ↦
            let u : is_accessible c ≡ true = ground arith in
            simp (e, q, connect_open)
              (inr (record { used = u; no_handle = q; same_name = refl; state = refl }), rest)
      ]
    ]

connect_rebuilding-Refreshed :
    (d : Devices) (jobs : Instances) (cs : List NexusChild)
    → Refreshed d cs (connect_rebuilding d jobs cs).0
unfolding connect_rebuilding rebuilding is_accessible
connect_rebuilding-Refreshed d jobs [] = tt
connect_rebuilding-Refreshed d jobs (c ∷ cs) =
    let rest = connect_rebuilding-Refreshed d jobs cs in
    elim (Bool-cases (rebuilding jobs c)) [
      | inr e ↦ simp (e, connect_rebuilding) (inl refl, rest)
      | inl e ↦ elim (Option-cases (handle d c)) [
        | inr (h, q) ↦ simp (e, q, connect_rebuilding) (inl refl, rest)
        | inl q ↦
            let u : is_accessible c ≡ true = ground arith in
            simp (e, q, connect_rebuilding)
              (inr (record { used = u; no_handle = q; same_name = refl; state = refl }), rest)
      ]
    ]

refresh-Refreshed :
    (d : Devices) (jobs : Instances) (channel : NexusChannelInner) (cs : List NexusChild)
    → Refreshed d cs (refresh d jobs channel cs).1
unfolding refresh
refresh-Refreshed d jobs channel cs =
    let a = connect_open-Refreshed d cs in
    let cs' = (connect_open d cs).0 in
    let b = connect_rebuilding-Refreshed d jobs cs' in
    elim (Bool-cases (length (connect_open d cs).1 == 0)) [
      | inl e ↦ rw (e, refresh) a
      | inr e ↦ rw (e, refresh) (trans-Refreshed d cs cs' (connect_rebuilding d jobs cs').0 a b)
    ]

refresh_each-Refreshed :
    (d : Devices) (jobs : Instances) (channels : List NexusChannelInner) (cs : List NexusChild)
    → Refreshed d cs (refresh_each d jobs channels cs).1
unfolding refresh_each
refresh_each-Refreshed d jobs [] cs = refl-Refreshed d cs
refresh_each-Refreshed d jobs (channel ∷ channels) cs =
    let cs' = (refresh d jobs channel cs).1 in
    trans-Refreshed d cs cs' (refresh_each d jobs channels cs').1
      (refresh-Refreshed d jobs channel cs) (refresh_each-Refreshed d jobs channels cs')

pub reconfigured-Refreshed :
    (d : Devices) (jobs : Instances) (n : Nexus)
    → Refreshed d n.children (reconfigured d jobs n).children
unfolding reconfigured
reconfigured-Refreshed d jobs n = refresh_each-Refreshed d jobs n.channels n.children

pub put_closed-Refreshed :
    (d : Devices) (jobs : Instances) (n : Nexus) (name : String) (c c' : NexusChild)
    → Refreshed d (set_child n name c').children (put_closed d jobs n name c c').children
unfolding put_closed
put_closed-Refreshed d jobs n name c c' = elim (Bool-cases (ltb c.reconfigures c'.reconfigures)) [
  | inl e ↦ rw (e, put_closed) (reconfigured-Refreshed d jobs (set_child n name c'))
  | inr e ↦ rw (e, put_closed) (refl-Refreshed d (set_child n name c').children)
]

-- What is found under a name before and after.
abbrev pub FoundAgain : Devices → (o o' : Option NexusChild) → Type 0
FoundAgain d none none = Unit
FoundAgain d none (some y) = ⊥
FoundAgain d (some x) none = ⊥
FoundAgain d (some x) (some y) = IsRefreshed d x y

refreshed-name : (d : Devices) (c c' : NexusChild) → IsRefreshed d c c' → c'.name ≡ c.name
refreshed-name d c c' (inl e) = ap (λ (x : NexusChild). x.name) e
refreshed-name d c c' (inr h) = h.same_name

pub find-Refreshed :
    (d : Devices) (name : String) (cs cs' : List NexusChild)
    → Refreshed d cs cs'
    → FoundAgain d (find (has_name name) cs) (find (has_name name) cs')
find-Refreshed d name [] [] h = tt
find-Refreshed d name [] (y ∷ ys) h = absurd h
find-Refreshed d name (x ∷ xs) [] h = absurd h
find-Refreshed d name (x ∷ xs) (y ∷ ys) h =
    let k = refreshed-name d x y h.0 in
    elim (Bool-cases (str_eq x.name name)) [
      | inl e ↦ let e' : str_eq y.name name ≡ true = rw k e in rw (e, e', find) h.0
      | inr e ↦
          let e' : str_eq y.name name ≡ false = rw k e in
          rw (e, e', find) (find-Refreshed d name xs ys h.1)
    ]
