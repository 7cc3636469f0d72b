-- ===== src/Nexus/ChildStates.antt =====
-- What the operations of a child keep and where they lead (nexus_child.rs).
use co_create_openebs.Nexus.Child.{
  open_child_device, remove_child, fault, NexusChild, get_dev, online, is_open, Devices, Reason,
  faulted, is_some, opened, child_faulted, out_of_sync, child_not_closed, online_closed, close,
  destroy, offline, ChildState, open_in,
}
use co_create_openebs.Prelude.{
  ◌≡◌, [], ◌∷◌, Option, some, arith, ℕ, String, false, none, ok, ◌⊎◌, err, true, Option-cases, ap,
  List, Result, inl, inr,
}

-- An open child has its device and a descriptor of it.
abbrev pub IsUsable : NexusChild → Type 0
IsUsable c = (is_open c.state ≡ false) ⊎ ((is_some c.bdev ≡ true) × (is_some c.desc ≡ true))

open_child_device-IsUsable :
    (d : Devices) (c : NexusChild) (n : ℕ) → IsUsable c → IsUsable (open_child_device d c n).0
unfolding open_child_device
open_child_device-IsUsable d c n h = ground arith

remove_child-IsUsable : (c : NexusChild) → IsUsable c → IsUsable (remove_child c)
unfolding remove_child
remove_child-IsUsable c h = ground arith

destroy-IsUsable : (d : Devices) (c : NexusChild) → IsUsable c → IsUsable (destroy d c).0
unfolding destroy
destroy-IsUsable d c h = ground arith

close-IsUsable :
    (d : Devices) (c c' : NexusChild) (r : Result ℕ (Unit {0}))
    → IsUsable c
    → close d c ≡ some (c', r)
    → IsUsable c'
unfolding close
close-IsUsable d c c' r h e = ground arith

fault-state :
    (d : Devices) (c c' : NexusChild) (r : Reason) → fault d c r ≡ some c' → c'.state ≡ faulted r
unfolding fault
fault-state d c c' out_of_sync h = ground arith
fault-state d c c' _ h = elim (Option-cases (close d c)) [
  | inl e ↦ absurd (ground (arith, rw (e, fault) at h))
  | inr (_, e) ↦ ground (arith, rw (e, fault) at h)
]

online-refused :
    (d : Devices) (c : NexusChild) (r : Reason) (n : ℕ)
    → c.state ≡ faulted r
    → online d c n ≡ (c, err child_not_closed)
unfolding online
online-refused d c r n e = ground arith

-- A child that `fault` has returned has the state of that fault, and can be neither opened nor brought
-- online: both are refused and leave it as it is.
pub fault_refuses :
    (d : Devices) (c c' : NexusChild) (r : Reason) (n : ℕ)
    → fault d c r ≡ some c'
    → (c'.state ≡ faulted r)
      × (open_child_device d c' n ≡ (c', err child_faulted))
      × (online d c' n ≡ (c', err child_not_closed))
unfolding open_child_device
fault_refuses d c c' r n h =
    let s = fault-state d c c' r h in
    (s, ap (λ (v : ChildState). open_in v d c' n) s, online-refused d c' r n s)

-- Only a child that is open or out of sync gives a handle, and it is that of its descriptor.
pub get_dev_accessible :
    (d : Devices) (c : NexusChild) (h : String)
    → get_dev d c ≡ ok h
    → ((c.state ≡ opened) ⊎ (c.state ≡ faulted out_of_sync)) × (c.desc ≡ some h)
unfolding get_dev
get_dev_accessible d c h e = ground arith

-- What can be asked of a child.
pub data ChildOp : Type 0 where
  opens onlines : (parent_size : ℕ) → ChildOp
  removes destroys closes offlines : ChildOp
  faults : Reason → ChildOp

-- The child after an operation; one that waits for ever gives none.
unfoldable pub child_step : Devices → NexusChild → ChildOp → Option NexusChild
child_step d c (opens n) = some (open_child_device d c n).0
child_step d c (onlines n) = some (online d c n).0
child_step d c removes = some (remove_child c)
child_step d c destroys = some (destroy d c).0
child_step d c closes = elim (close d c) [ none ↦ none | some (c', _) ↦ some c' ]
child_step d c offlines = offline d c
child_step d c (faults r) = fault d c r

unfoldable pub child_steps : Devices → NexusChild → List ChildOp → Option NexusChild
unfolding child_step
child_steps d c [] = some c
child_steps d c (o ∷ os) = elim (child_step d c o) [ none ↦ none | some c' ↦ child_steps d c' os ]

online-IsUsable : (d : Devices) (c : NexusChild) (n : ℕ) → IsUsable c → IsUsable (online d c n).0
unfolding online online_closed
online-IsUsable d c n h = ground arith

offline-IsUsable :
    (d : Devices) (c c' : NexusChild) → IsUsable c → offline d c ≡ some c' → IsUsable c'
unfolding offline
offline-IsUsable d c c' h e = elim (Option-cases (close d c)) [
  | inl q ↦ absurd (ground (arith, rw (q, offline) at e))
  | inr ((x, r), q) ↦ let i = close-IsUsable d c x r h q in ground (arith, rw (q, offline) at e)
]

child_step-IsUsable :
    (d : Devices) (c c' : NexusChild) (o : ChildOp)
    → IsUsable c
    → child_step d c o ≡ some c'
    → IsUsable c'
unfolding child_step
child_step-IsUsable d c c' (opens n) h e =
    let i = open_child_device-IsUsable d c n h in ground (arith, e, i)
child_step-IsUsable d c c' (onlines n) h e = let i = online-IsUsable d c n h in ground (arith, e, i)
child_step-IsUsable d c c' removes h e = let i = remove_child-IsUsable c h in ground (arith, e, i)
child_step-IsUsable d c c' destroys h e = let i = destroy-IsUsable d c h in ground (arith, e, i)
child_step-IsUsable d c c' closes h e = elim (Option-cases (close d c)) [
  | inl q ↦ absurd (ground (arith, rw (q, child_step) at e))
  | inr ((x, r), q) ↦ let i = close-IsUsable d c x r h q in ground (arith, rw (q, child_step) at e)
]
child_step-IsUsable d c c' offlines h e = offline-IsUsable d c c' h e
child_step-IsUsable d c c' (faults r) h e = inl (ap is_open (fault-state d c c' r e))

-- After any sequence of operations that all return, from a child for which it holds: if the child
-- is open, it has a device and a descriptor of it, so the assertions of `open` hold.
pub child_steps-IsUsable :
    (d : Devices) (c c' : NexusChild) (os : List ChildOp)
    → IsUsable c
    → child_steps d c os ≡ some c'
    → IsUsable c'
unfolding child_steps
child_steps-IsUsable d c c' [] h e = ground (arith, e, h)
child_steps-IsUsable d c c' (o ∷ os) h e = elim (Option-cases (child_step d c o)) [
  | inl q ↦ absurd (ground (arith, rw (q, child_steps) at e))
  | inr (x, q) ↦
      child_steps-IsUsable d x c' os (child_step-IsUsable d c x o h q) (rw (q, child_steps) at e)
]
