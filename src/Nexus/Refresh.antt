-- ===== src/Nexus/Refresh.antt =====
-- Which children a channel serves after a refresh (`refresh` of nexus_channel.rs).
use co_create_openebs.Rebuild.Registry.{Instances}
use co_create_openebs.Nexus.Child.{
  ChildState, rebuilding, Devices, is_open, NexusChild, is_out_of_sync, opened, handle,
}
use co_create_openebs.Nexus.Channel.{
  connect_open, connect_rebuilding, refresh, NexusChannelInner, BdevHandle,
}
use co_create_openebs.Prelude.{
  ◌≡◌, [], ◌∷◌, List, true, false, Bool-cases, inl, arith, inr, ◌++◌, ◌⊎◌, Option-cases, ◌≢◌, refl,
  some, length, ◌==◌, nil_of_length, ap, sym,
}
use mathlib.Core.Path.{subst}

-- The handles are those of the open children, one for each, in order.
abbrev pub Serves : Devices → List NexusChild → List BdevHandle → Type 0
Serves d [] hs = hs ≡ []
Serves d (c ∷ cs) hs =
    ((is_open c.state ≡ false) × Serves d cs hs)
    ⊎ ((is_open c.state ≡ true)
        × ((h : BdevHandle) × ((rest : List BdevHandle) × ((handle d c ≡ some h)
                × (hs ≡ h ∷ rest)
                × Serves d cs rest))))

connect_open-Serves :
    (d : Devices) (cs : List NexusChild) → Serves d (connect_open d cs).0 (connect_open d cs).1
unfolding connect_open
connect_open-Serves d [] = refl
connect_open-Serves d (c ∷ cs) =
    let rest = connect_open-Serves d cs in
    elim (Bool-cases (is_open c.state)) [
      | inr e ↦ simp (e, connect_open) (inl (refl, rest))
      | inl e ↦ elim (Option-cases (handle d c)) [
        | inl q ↦ simp (e, q, connect_open) (inl (refl, rest))
        | inr (h, q) ↦ simp (e, q, connect_open) (inr (refl, (h, (_, (refl, refl, rest)))))
      ]
    ]

not_both : (s : ChildState) → is_open s ≡ true → is_out_of_sync s ≡ false
not_both opened e = refl
not_both _ e = cc

open_not_rebuilding :
    (jobs : Instances) (c : NexusChild) → is_open c.state ≡ true → rebuilding jobs c ≡ false
unfolding rebuilding
open_not_rebuilding jobs c e = let q = not_both c.state e in ground arith

connect_rebuilding-Serves :
    (d : Devices) (jobs : Instances) (cs : List NexusChild) (hs : List BdevHandle)
    → Serves d cs hs
    → Serves d (connect_rebuilding d jobs cs).0 hs
unfolding connect_rebuilding
connect_rebuilding-Serves d jobs [] hs s = s
connect_rebuilding-Serves d jobs (c ∷ cs) hs (inl (e, s)) =
    let rest = connect_rebuilding-Serves d jobs cs hs s in
    elim (Bool-cases (rebuilding jobs c)) [
      | inr q ↦ simp (q, connect_rebuilding) (inl (e, rest))
      | inl q ↦ elim (Option-cases (handle d c)) [
        | inl o ↦ simp (q, o, connect_rebuilding) (inl (refl, rest))
        | inr (h, o) ↦ simp (q, o, connect_rebuilding) (inl (e, rest))
      ]
    ]
connect_rebuilding-Serves d jobs (c ∷ cs) hs (inr (e, (h, (hs', (o, q, s))))) =
    let rest = connect_rebuilding-Serves d jobs cs hs' s in
    simp (open_not_rebuilding jobs c e, connect_rebuilding) (inr (e, (h, (hs', (o, q, rest)))))

-- The readers are the handles of the open children, the writers are these and then more, but only
-- if there is a reader; and reads start at the first.
abbrev pub Served : Devices → NexusChannelInner × List NexusChild → Type 0
Served d r =
    Serves d r.1 r.0.readers
    × ((rebuilt : List BdevHandle) × (r.0.writers ≡ r.0.readers ++ rebuilt))
    × ((r.0.readers ≢ []) ⊎ (r.0.writers ≡ []))
    × (r.0.previous ≡ 0)

abbrev channel_of : (writers readers : List BdevHandle) → NexusChannelInner
channel_of writers readers = record { writers = writers; readers = readers; previous = 0 }

refresh_cases :
    (d : Devices) (jobs : Instances) (channel : NexusChannelInner) (children : List NexusChild)
    → let (cs, hs) = connect_open d children in
      let (cs', hs') = connect_rebuilding d jobs cs in
      ((hs ≡ []) × (refresh d jobs channel children ≡ (channel_of hs hs, cs)))
      ⊎ ((hs ≢ []) × (refresh d jobs channel children ≡ (channel_of (hs ++ hs') hs, cs')))
unfolding refresh
refresh_cases d jobs channel children =
    let hs = (connect_open d children).1 in
    elim (Bool-cases (length hs == 0)) [
      | inl e ↦ inl (nil_of_length hs (ground arith), rw (e, refresh) refl)
      | inr e ↦ inr (not_nil hs e, rw (e, refresh) refl)
    ]
  where
    not_nil : (hs : List BdevHandle) → (length hs == 0) ≡ false → hs ≢ []
    not_nil [] e = cc
    not_nil (h ∷ hs) e = λ q. cc

-- After a refresh the readers of the channel are the handles of all children that are then open, one
-- for each, in order; the writers are these, and then more only if there is a reader; and reads
-- start at the first.
pub refresh_serves :
    (d : Devices) (jobs : Instances) (channel : NexusChannelInner) (children : List NexusChild)
    → Served d (refresh d jobs channel children)
refresh_serves d jobs channel children =
    let s = connect_open-Serves d children in
    elim (refresh_cases d jobs channel children) [
      | inl (n, e) ↦
          subst (λ (r : NexusChannelInner × List NexusChild). Served d r) (sym e)
            (s, ([], no_more _), inr n, refl)
      | inr (n, e) ↦
          subst (λ (r : NexusChannelInner × List NexusChild). Served d r) (sym e)
            (
              connect_rebuilding-Serves d jobs (connect_open d children).0 _ s,
              (_, refl),
              inl n,
              refl,
            )
    ]
  where
    no_more : (hs : List BdevHandle) → hs ≡ hs ++ []
    no_more [] = refl
    no_more (h ∷ hs) = ap (λ (l : List BdevHandle). h ∷ l) (no_more hs)
