-- ===== src/Nexus/Healthy.antt =====
-- The rule that the last healthy child of a nexus is not faulted (`fault_child` of
-- nexus_bdev_children.rs).
use co_create_openebs.Nexus.Recovered.{fault-name, find-name, find_updated}
use co_create_openebs.Nexus.ChildStates.{fault_refuses}
use co_create_openebs.Nexus.StillOpen.{
  IsServing, Refreshed-open, replaced-IsServing, Refreshed-IsServing, replaced_first,
  Refreshed-none_open, replaced_last,
}
use co_create_openebs.Nexus.Refreshed.{
  Refreshed, refl-Refreshed, FoundAgain, trans-Refreshed, put_closed-Refreshed,
  reconfigured-Refreshed, find-Refreshed,
}
use mathlib.Core.Path.{subst}
use co_create_openebs.Rebuild.Ops.{terminate}
use co_create_openebs.Nexus.Changes.{
  is_last_healthy, Done, terminate_rebuild, Cancelled, checked_jobs, World, fault_found,
  cancelled_with, restarted, is_faulted, save_nexus_state, fault_child, after_cancel, wait_for,
  cancel_child_rebuild_jobs, then_terminate, terminate_sources,
}
use co_create_openebs.Rebuild.Job.{RebuildJob}
use co_create_openebs.Rebuild.Registry.{Backend, Instances, lookup, lookup_src, create}
use co_create_openebs.Nexus.Child.{NexusChild, is_open, Reason, fault, faulted, Devices}
use co_create_openebs.Nexus.Members.{
  update_first, Nexus, has_name, NexusError, NexusStatus, child_not_found, status, reconfigured,
}
use co_create_openebs.Nexus.Recovery.{
  start_rebuild, start_rebuild_jobs, start_created, create_job, put_job, put_closed, is_source,
  destination_of,
}
use co_create_openebs.Prelude.{
  String, List, any, ◌≡◌, arith, false, ◌∷◌, refl, true, ◌∙◌, Bool-cases, filter, [], inl, inr, ap,
  sym, Option, some, Result, Result-cases, none, Option-cases, find, err, ok, ltb, map, All,
  add_u64,
}

put_job_same :
    (b : Backend) (d : Devices) (jobs : Instances) (n : Nexus) (source destination : String)
    → Refreshed d n.children (create_job b d jobs n source destination).1.0.children
unfolding create_job start_created
put_job_same b d jobs n source destination =
    let made =
      create b jobs n.name source destination
        (record { start = n.data_ent_offset; end = add_u64 n.num_blocks n.data_ent_offset }) in
    elim (Result-cases made.1) [
      | inr (x, e) ↦ rw (e, create_job) (refl-Refreshed d n.children)
      | inl (job, e) ↦ rw (e, create_job, start_created) (reconfigured-Refreshed d made.0 n)
    ]

-- Starting rebuilds only reconfigures.
start_rebuild-Refreshed :
    (b : Backend) (d : Devices) (jobs : Instances) (n : Nexus) (name : String)
    → Refreshed d n.children (start_rebuild b d jobs n name).1.0.children
unfolding start_rebuild
start_rebuild-Refreshed b d jobs n name = elim (Option-cases (find (is_source name) n.children)) [
  | inl e ↦ rw (e, start_rebuild) (refl-Refreshed d n.children)
  | inr (s, e) ↦ elim (Result-cases (destination_of n name)) [
    | inr (x, q) ↦ rw (e, q, start_rebuild) (refl-Refreshed d n.children)
    | inl (c, q) ↦ rw (e, q, start_rebuild) (put_job_same b d jobs n s.name c)
  ]
]

start_rebuild_jobs-Refreshed :
    (b : Backend) (d : Devices) (names : List String) (jobs : Instances) (n : Nexus)
    → Refreshed d n.children (start_rebuild_jobs b d jobs n names).1.children
unfolding start_rebuild_jobs
start_rebuild_jobs-Refreshed b d [] jobs n = refl-Refreshed d n.children
start_rebuild_jobs-Refreshed b d (name ∷ names) jobs n =
    let r = start_rebuild b d jobs n name in
    trans-Refreshed d n.children r.1.0.children (start_rebuild_jobs b d r.0 r.1.0 names).1.children
      (start_rebuild-Refreshed b d jobs n name) (start_rebuild_jobs-Refreshed b d names r.0 r.1.0)

-- The result of an operation, if it has one, has an open child.
abbrev pub HasOpen : Done → Type 0
HasOpen none = Unit
HasOpen (some (jobs, (n, r))) = any (λ c. is_open c.state) n.children ≡ true

-- Reconfigurations and rebuilds leave an open child.
restarted-HasOpen :
    (w : World) (jobs : Instances) (n : Nexus) (names : List String)
    (result : Nexus → Result NexusError NexusStatus)
    → All (IsServing w.devices) n.children
    → any (λ c. is_open c.state) n.children ≡ true
    → HasOpen (restarted w jobs n names result)
restarted-HasOpen w jobs n names result s e =
    let n' = (start_rebuild_jobs w.backend w.devices jobs n names).1 in
    Refreshed-open w.devices n.children n'.children
      (start_rebuild_jobs-Refreshed w.backend w.devices names jobs n) s e

-- The nexus with the child that was faulted in its place, before the rebuilds start again.
abbrev with_faulted :
    World → Instances → Nexus → (name : String) → (before after : NexusChild) → Nexus
with_faulted w jobs n name c c' =
    reconfigured w.devices jobs (save_nexus_state (put_closed w.devices jobs n name c c'))

with_faulted-Refreshed :
    (w : World) (jobs : Instances) (n : Nexus) (name : String) (c c' : NexusChild)
    → Refreshed w.devices
        (update_first (has_name name) (λ _. c') n.children)
        (with_faulted w jobs n name c c').children
with_faulted-Refreshed w jobs n name c c' =
    let n1 = save_nexus_state (put_closed w.devices jobs n name c c') in
    trans-Refreshed w.devices (update_first (has_name name) (λ _. c') n.children) n1.children
      (with_faulted w jobs n name c c').children (put_closed-Refreshed w.devices jobs n name c c')
      (reconfigured-Refreshed w.devices jobs n1)

fault-closed :
    (d : Devices) (c c' : NexusChild) (reason : Reason)
    → fault d c reason ≡ some c'
    → is_open c'.state ≡ false
fault-closed d c c' reason e = ap is_open (fault_refuses d c c' reason 0 e).0

fault_found-HasOpen :
    (w : World) (name : String) (reason : Reason) (jobs : Instances) (n : Nexus)
    (names : List String)
    → All (IsServing w.devices) n.children
    → any (λ c. is_open c.state) n.children ≡ true
    → is_last_healthy name (filter (λ c. is_open c.state) n.children) ≡ false
    → HasOpen (fault_found w name reason jobs n names)
fault_found-HasOpen w name reason jobs n names s a l =
    elim (Option-cases (find (has_name name) n.children)) [
      | inl e ↦
          rw (e, fault_found)
            (restarted-HasOpen w jobs n names (λ n'. err (child_not_found name)) s a)
      | inr (c, e) ↦ elim (Bool-cases (is_faulted c.state)) [
        | inl q ↦
            rw (e, q, fault_found) (restarted-HasOpen w jobs n names (λ n'. ok (status n')) s a)
        | inr q ↦ elim (Option-cases (fault w.devices c reason)) [
          | inl f ↦ rw (e, q, f, fault_found) tt
          | inr (c', f) ↦
              let d = w.devices in
              let cs = update_first (has_name name) (λ _. c') n.children in
              let n2 = with_faulted w jobs n name c c' in
              let h = with_faulted-Refreshed w jobs n name c c' in
              let s' =
                replaced-IsServing d (has_name name) c' n.children (fault-closed d c c' reason f)
                  s in
              rw (e, q, f, fault_found)
                (restarted-HasOpen w jobs n2 names (λ n'. ok (status n'))
                  (Refreshed-IsServing d cs n2.children h s')
                  (Refreshed-open d cs n2.children h s' (replaced_first name c' n.children a l)))
        ]
      ]
    ]

-- What the others do while an operation waits leaves the children as they are.
abbrev pub KeepsChildren : World → Type 0
KeepsChildren w =
    (jobs jobs' : Instances) (n n' : Nexus)
    → w.elapse jobs n ≡ some (jobs', n')
    → n'.children ≡ n.children

-- The children are the same once the jobs are cancelled.
abbrev pub SameChildren : Nexus → Cancelled → Type 0
SameChildren n none = Unit
SameChildren n (some ((jobs, n'), names)) = n'.children ≡ n.children

checked_jobs_keeps : (n : Nexus) (js : List RebuildJob) → (checked_jobs n js).children ≡ n.children
unfolding checked_jobs
checked_jobs_keeps n js = ground arith

cancelled-SameChildren :
    (n : Nexus) (names : List String) (o : Option (Instances × Nexus))
    → ((jobs : Instances) (n' : Nexus) → o ≡ some (jobs, n') → n'.children ≡ n.children)
    → SameChildren n (cancelled_with names o)
cancelled-SameChildren n names none h = tt
cancelled-SameChildren n names (some (jobs, n')) h = h jobs n' refl

terminate_rebuild_keeps :
    (w : World) (jobs jobs' : Instances) (n n' : Nexus) (name : String)
    → KeepsChildren w
    → terminate_rebuild w jobs n name ≡ some (jobs', n')
    → n'.children ≡ n.children
unfolding terminate_rebuild
terminate_rebuild_keeps w jobs jobs' n n' name k e = elim (Result-cases (lookup jobs name)) [
  | inr (x, p) ↦
      let z : some (jobs, n) ≡ some (jobs', n') = rw (p, terminate_rebuild) at e in
      ground (arith, z)
  | inl (job, p) ↦
      let z : w.elapse (put_job jobs (terminate job)) (checked_jobs n (job ∷ []))
          ≡ some (jobs', n') =
        rw (p, terminate_rebuild) at e in
      k _ jobs' (checked_jobs n (job ∷ [])) n' z ∙ checked_jobs_keeps n (job ∷ [])
]

wait_keeps :
    (w : World) (js : List RebuildJob) (jobs jobs' : Instances) (n n' : Nexus)
    → KeepsChildren w
    → wait_for w js jobs n ≡ some (jobs', n')
    → n'.children ≡ n.children
wait_keeps w [] jobs jobs' n n' k e = ground (arith, e)
wait_keeps w (j ∷ js) jobs jobs' n n' k e = k jobs jobs' n n' e

then_terminate_keeps :
    (w : World) (name : String) (o : Option (Instances × Nexus)) (n n' : Nexus) (jobs' : Instances)
    → KeepsChildren w
    → ((jobs1 : Instances) (n1 : Nexus) → o ≡ some (jobs1, n1) → n1.children ≡ n.children)
    → then_terminate w name o ≡ some (jobs', n')
    → n'.children ≡ n.children
then_terminate_keeps w name none n n' jobs' k h e = absurd (ground arith)
then_terminate_keeps w name (some (jobs1, n1)) n n' jobs' k h e =
    terminate_rebuild_keeps w jobs1 jobs' n1 n' name k e ∙ h jobs1 n1 refl

cancel_keeps :
    (w : World) (jobs : Instances) (n : Nexus) (name : String)
    → KeepsChildren w
    → SameChildren n (cancel_child_rebuild_jobs w jobs n name)
unfolding cancel_child_rebuild_jobs
cancel_keeps w jobs n name k =
    let sources = lookup_src jobs name in
    let waited = wait_for w sources (terminate_sources jobs name) (checked_jobs n sources) in
    cancelled-SameChildren n (map (λ j. j.destination) sources) (then_terminate w name waited)
      (λ jobs' n' e.
        then_terminate_keeps w name waited n n' jobs' k
          (λ jobs1 n1 q.
            wait_keeps w sources (terminate_sources jobs name) jobs1 (checked_jobs n sources) n1 k q
            ∙ checked_jobs_keeps n sources)
          e)

after_cancel-HasOpen :
    (w : World) (n : Nexus) (name : String) (reason : Reason) (c : Cancelled)
    → All (IsServing w.devices) n.children
    → any (λ c. is_open c.state) n.children ≡ true
    → is_last_healthy name (filter (λ c. is_open c.state) n.children) ≡ false
    → SameChildren n c
    → HasOpen (after_cancel c (fault_found w name reason))
after_cancel-HasOpen w n name reason none v a l s = tt
after_cancel-HasOpen w n name reason (some ((jobs, n'), names)) v a l s =
    fault_found-HasOpen w name reason jobs n' names
      (subst (λ (cs : List NexusChild). All (IsServing w.devices) cs) (sym s) v)
      (ap (any (λ c. is_open c.state)) s ∙ a)
      (ap (λ (cs : List NexusChild). is_last_healthy name (filter (λ c. is_open c.state) cs)) s ∙ l)

-- A nexus with an open child still has one when a child of it was to be faulted and the operation has
-- ended, whatever its result, provided that all open children give handles for the channels, and
-- that the futures that run while the operation waits for cancelled rebuilds leave the children as
-- they are.
pub fault_child-HasOpen :
    (w : World) (jobs : Instances) (n : Nexus) (name : String) (reason : Reason)
    → KeepsChildren w
    → All (IsServing w.devices) n.children
    → any (λ c. is_open c.state) n.children ≡ true
    → HasOpen (fault_child w jobs n name reason)
unfolding fault_child
fault_child-HasOpen w jobs n name reason k s a = elim (Bool-cases (ltb n.child_count 2)) [
  | inl p ↦ rw (p, fault_child) a
  | inr p ↦ elim (Bool-cases (is_last_healthy name (filter (λ c. is_open c.state) n.children))) [
    | inl q ↦ rw (p, q, fault_child) a
    | inr q ↦
        rw (p, q, fault_child)
          (after_cancel-HasOpen w n name reason (cancel_child_rebuild_jobs w jobs n name) s a q
            (cancel_keeps w jobs n name k))
  ]
]

-- Whether a child is the last that is open is asked before the wait for cancelled rebuilds, not after
-- it. If, in a nexus of two children or more, it is not so when the operation begins, but is so when
-- the wait is over, and closing the child ends, then the operation ends with a status, not with an
-- error: the child is faulted for the reason, and no child is open any more. (Only a child that is
-- faulted as out of sync can then be faulted with `cant_open` by a reconfiguration.)
pub fault_child_late :
    (w : World) (jobs jobs1 : Instances) (n n1 : Nexus) (names : List String) (name : String)
    (reason : Reason) (c c' : NexusChild)
    → ltb n.child_count 2 ≡ false
    → is_last_healthy name (filter (λ x. is_open x.state) n.children) ≡ false
    → cancel_child_rebuild_jobs w jobs n name ≡ some ((jobs1, n1), names)
    → is_last_healthy name (filter (λ x. is_open x.state) n1.children) ≡ true
    → find (has_name name) n1.children ≡ some c
    → is_open c.state ≡ true
    → fault w.devices c reason ≡ some c'
    → (jobs' : Instances) × ((n' : Nexus) × ((fault_child w jobs n name reason
            ≡ some (jobs', (n', ok (status n'))))
          × ((c'.state ≡ faulted reason)
              × (FoundAgain w.devices (some c') (find (has_name name) n'.children)
                  × (any (λ x. is_open x.state) n'.children ≡ false)))))
unfolding fault_child
fault_child_late w jobs jobs1 n n1 names name reason c c' p q e l f o r =
    let d = w.devices in
    let cs = update_first (has_name name) (λ _. c') n1.children in
    let n2 = with_faulted w jobs1 n1 name c c' in
    let (jobs', n') = start_rebuild_jobs w.backend d jobs1 n2 names in
    let h =
      trans-Refreshed d cs n2.children n'.children (with_faulted-Refreshed w jobs1 n1 name c c')
        (start_rebuild_jobs-Refreshed w.backend d names jobs1 n2) in
    let k = fault-name d c c' reason r ∙ find-name name n1.children c f in
    let s : is_faulted c.state ≡ false = ground arith in
    let found : fault_found w name reason jobs1 n1 names
        ≡ restarted w jobs1 n2 names (λ n'. ok (status n')) =
      rw (f, fault_found, s, r) refl in
    (
      jobs',
      (
        n',
        (
          rw (p, q, e, fault_child) found,
          (
            (fault_refuses d c c' reason 0 r).0,
            (
              subst (λ (x : Option NexusChild). FoundAgain d x (find (has_name name) n'.children))
                  (find_updated name c c' n1.children f k) (find-Refreshed d name cs n'.children h),
              Refreshed-none_open d cs n'.children h
                  (replaced_last name c c' n1.children l f o (fault-closed d c c' reason r)),
            ),
          ),
        ),
      ),
    )
