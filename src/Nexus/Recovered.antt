-- ===== src/Nexus/Recovered.antt =====
-- What a nexus makes of a rebuild job that has ended (`on_rebuild_update` of nexus_bdev_rebuild.rs).
use mathlib.Core.Path.{subst}
use co_create_openebs.Nexus.Refreshed.{
  Refreshed, FoundAgain, reconfigured-Refreshed, trans-Refreshed, put_closed-Refreshed,
  find-Refreshed,
}
use co_create_openebs.Nexus.ChildStates.{fault_refuses}
use co_create_openebs.Rebuild.State.{done, completed, failed}
use co_create_openebs.Nexus.Recovery.{
  on_rebuild_complete_job, recover, on_rebuild_update, set_child, put_closed,
}
use co_create_openebs.Rebuild.Jobs.{str_eq-other}
use co_create_openebs.Rebuild.Registry.{Instances, lookup, lookup_job, erase_job, remove}
use co_create_openebs.Rebuild.Job.{RebuildJob, state}
use co_create_openebs.Nexus.Members.{has_name, update_first, Nexus, get_child_by_name, reconfigured}
use co_create_openebs.Nexus.Child.{
  NexusChild, Devices, fault, rebuild_failed, close, destroy, remove_child, set_state, opened,
  faulted, is_accessible, Reason,
}
use co_create_openebs.Prelude.{
  List, [], ◌∷◌, String, Bool, true, false, Option, none, some, ok, ◌≡◌, ◌≢◌, find, refl, str_eq,
  inl, inr, Bool-cases, sym, ap, ◌∙◌, arith, str_eq_iff, Option-cases, ◌+◌,
}

module _ (p : NexusChild → Bool) (f : NexusChild → NexusChild) (x : NexusChild)
    (xs : List NexusChild) where
  update_here : p x ≡ true → update_first p f (x ∷ xs) ≡ f x ∷ xs
  unfolding update_first
  update_here e = rw (e, update_first) refl

  update_there : p x ≡ false → update_first p f (x ∷ xs) ≡ x ∷ update_first p f xs
  unfolding update_first
  update_there e = rw (e, update_first) refl

  find_here : p x ≡ true → find p (x ∷ xs) ≡ some x
  find_here e = rw (e, find) refl

  find_there : p x ≡ false → find p (x ∷ xs) ≡ find p xs
  find_there e = rw (e, find) refl

pub find_updated :
    (name : String) (c c' : NexusChild) (cs : List NexusChild)
    → find (has_name name) cs ≡ some c
    → c'.name ≡ name
    → find (has_name name) (update_first (has_name name) (λ _. c') cs) ≡ some c'
find_updated name c c' [] e k = absurd (ground arith)
find_updated name c c' (x ∷ xs) e k = elim (Bool-cases (str_eq x.name name)) [
  | inl p ↦
      rw (update_here (has_name name) (λ _. c') x xs p)
        (find_here (has_name name) (λ _. c') c' xs ((str_eq_iff _ _).1 k))
  | inr p ↦ rw (update_there (has_name name) (λ _. c') x xs p) (
      find_there (has_name name) (λ _. c') x (update_first (has_name name) (λ _. c') xs) p
      ∙ find_updated name c c' xs (sym (find_there (has_name name) (λ _. c') x xs p) ∙ e) k)
]

same_behind :
    (p : NexusChild → Bool) (x : NexusChild) (xs ys : List NexusChild)
    → find p xs ≡ find p ys
    → find p (x ∷ xs) ≡ find p (x ∷ ys)
same_behind p x xs ys e = elim (Bool-cases (p x)) [
  | inl q ↦ find_here p (λ c. c) x xs q ∙ sym (find_here p (λ c. c) x ys q)
  | inr q ↦ find_there p (λ c. c) x xs q ∙ (e ∙ sym (find_there p (λ c. c) x ys q))
]

find_other :
    (name other : String) (c' : NexusChild) (cs : List NexusChild)
    → other ≢ name
    → c'.name ≡ name
    → find (has_name other) (update_first (has_name name) (λ _. c') cs) ≡ find (has_name other) cs
unfolding update_first
find_other name other c' [] e k = refl
find_other name other c' (x ∷ xs) e k = elim (Bool-cases (str_eq x.name name)) [
  | inl p ↦
      let n : x.name ≡ name = (str_eq_iff _ _).0 p in
      let q : str_eq c'.name other ≡ false = str_eq-other _ _ (λ z. e (sym z ∙ k)) in
      let q' : str_eq x.name other ≡ false = str_eq-other _ _ (λ z. e (sym z ∙ n)) in
      rw (update_here (has_name name) (λ _. c') x xs p) (
        find_there (has_name other) (λ _. c') c' xs q
        ∙ sym (find_there (has_name other) (λ _. c') x xs q'))
  | inr p ↦ rw (update_there (has_name name) (λ _. c') x xs p) (
      same_behind (has_name other) x (update_first (has_name name) (λ _. c') xs) xs
        (find_other name other c' xs e k))
]

lookup-erase_job :
    (jobs : Instances) (name other : String)
    → other ≢ name
    → lookup_job (erase_job jobs name) other ≡ lookup_job jobs other
unfolding lookup_job erase_job
lookup-erase_job [] name other e = refl
lookup-erase_job (j ∷ js) name other e = elim (Bool-cases (str_eq j.destination name)) [
  | inl p ↦
      let n : j.destination ≡ name = (str_eq_iff _ _).0 p in
      let q : str_eq j.destination other ≡ false = str_eq-other _ _ (λ z. e (sym z ∙ n)) in
      rw (p, erase_job, q) refl
  | inr p ↦ rw (p, erase_job, lookup-erase_job js name other e) refl
]

pub fault-name :
    (d : Devices) (c c' : NexusChild) (reason : Reason)
    → fault d c reason ≡ some c'
    → c'.name ≡ c.name
unfolding fault close destroy remove_child
fault-name d c c' reason e = ground arith

abbrev destination_or : String → Option RebuildJob → String
destination_or name none = name
destination_or name (some job) = job.destination

lookup_job-destination :
    (jobs : Instances) (name : String) (job : RebuildJob)
    → lookup_job jobs name ≡ some job
    → job.destination ≡ name
unfolding lookup_job
lookup_job-destination [] name job e = absurd (ground arith)
lookup_job-destination (j ∷ js) name job e = elim (Bool-cases (str_eq j.destination name)) [
  | inl p ↦
      let same : some j ≡ some job = rw p at e in
      ap (destination_or name) (sym same) ∙ (str_eq_iff _ _).0 p
  | inr p ↦ lookup_job-destination js name job (rw p at e)
]

lookup-some :
    (jobs : Instances) (name : String) (job : RebuildJob)
    → lookup jobs name ≡ ok job
    → lookup_job jobs name ≡ some job
unfolding lookup
lookup-some jobs name job e = elim (Option-cases (lookup_job jobs name)) [
  | inl p ↦ absurd (ground (arith, rw (p, lookup) at e))
  | inr (j, p) ↦ ground (arith, rw (p, lookup) at e)
]

abbrev name_or : String → Option NexusChild → String
name_or name none = name
name_or name (some c) = c.name

pub find-name :
    (name : String) (cs : List NexusChild) (c : NexusChild)
    → find (has_name name) cs ≡ some c
    → c.name ≡ name
find-name name [] c e = absurd (ground arith)
find-name name (x ∷ xs) c e = elim (Bool-cases (str_eq x.name name)) [
  | inl p ↦
      ap (name_or name) (sym e ∙ find_here (has_name name) (λ t. t) x xs p) ∙ (str_eq_iff _ _).0 p
  | inr p ↦ find-name name xs c (sym (find_there (has_name name) (λ t. t) x xs p) ∙ e)
]

remove-eq :
    (jobs : Instances) (name : String) (job : RebuildJob)
    → lookup_job jobs name ≡ some job
    → remove jobs name ≡ (erase_job jobs name, ok job)
unfolding remove
remove-eq jobs name job e = rw (e, remove) refl

update-eq :
    (d : Devices) (jobs : Instances) (n n' : Nexus) (name : String) (job : RebuildJob)
    → lookup jobs name ≡ ok job
    → done (state job) ≡ true
    → on_rebuild_complete_job d jobs n job ≡ some (n', ok tt)
    → on_rebuild_update d jobs n name ≡ some (erase_job jobs name, (n', ok tt))
unfolding on_rebuild_update
update-eq d jobs n n' name job l f c =
    let r = remove-eq jobs name job (lookup-some jobs name job l) in
    rw (l, f, c, r, on_rebuild_update) refl

complete-eq :
    (d : Devices) (jobs : Instances) (n n' : Nexus) (job : RebuildJob) (c : NexusChild)
    → find (has_name job.destination) n.children ≡ some c
    → recover (state job) d jobs n c ≡ some n'
    → on_rebuild_complete_job d jobs n job ≡ some (reconfigured d jobs n', ok tt)
unfolding on_rebuild_complete_job get_child_by_name
complete-eq d jobs n n' job c e r = rw (e, r, on_rebuild_complete_job, get_child_by_name) refl

-- A child that failed its rebuild is not looked at by a refresh.
unused_again :
    (d : Devices) (c : NexusChild) (o : Option NexusChild)
    → c.state ≡ faulted rebuild_failed
    → FoundAgain d (some c) o
    → o ≡ some c
unfolding is_accessible
unused_again d c none q h = absurd h
unused_again d c (some y) q (inl e) = ap some e
unused_again d c (some y) q (inr k) =
    let z : is_accessible c ≡ false = rw q refl in absurd (ground (arith, sym k.used ∙ z))

-- What is left when a job has ended: the child of that name is as given, and every other name finds the
-- child and the job that it found before; but a child that is open or out of sync and gives no
-- handle can be faulted with `cant_open`, since the channels were refreshed.
pub record Leaves (d : Devices) (jobs jobs' : Instances) (n n' : Nexus) (name other : String)
    (c' : NexusChild) : Type 0 where
  pub child : FoundAgain d (some c') (find (has_name name) n'.children)
  pub other_child :
      FoundAgain d (find (has_name other) n.children) (find (has_name other) n'.children)
  pub other_job : lookup_job jobs' other ≡ lookup_job jobs other

leaves :
    (d : Devices) (jobs : Instances) (n n1 n' : Nexus) (name other : String) (c c' : NexusChild)
    → find (has_name name) n.children ≡ some c
    → c'.name ≡ name
    → other ≢ name
    → n1.children ≡ update_first (has_name name) (λ _. c') n.children
    → Refreshed d n1.children n'.children
    → Leaves d jobs (erase_job jobs name) n n' name other c'
leaves d jobs n n1 n' name other c c' f k o e h =
    let u = update_first (has_name name) (λ _. c') n.children in
    let h' : Refreshed d u n'.children =
      subst (λ (cs : List NexusChild). Refreshed d cs n'.children) e h in
    record {
      child =
          subst (λ (x : Option NexusChild). FoundAgain d x (find (has_name name) n'.children))
            (find_updated name c c' n.children f k) (find-Refreshed d name u n'.children h');
      other_child =
          subst (λ (x : Option NexusChild). FoundAgain d x (find (has_name other) n'.children))
            (find_other name other c' n.children o k) (find-Refreshed d other u n'.children h');
      other_job = lookup-erase_job jobs name other o;
    }

-- When the job of a child has completed, the update of the nexus succeeds, the job is gone, and the
-- channels were reconfigured once: the child is open, and every other name finds the child and the
-- job that it found before; but a child that is open or out of sync and gives no handle, this one
-- as well, can be faulted with `cant_open` by the reconfiguration.
pub on_rebuild_update_completed :
    (d : Devices) (jobs : Instances) (n : Nexus) (name other : String) (job : RebuildJob)
    (c : NexusChild)
    → lookup jobs name ≡ ok job
    → state job ≡ completed
    → find (has_name name) n.children ≡ some c
    → other ≢ name
    → (n' : Nexus) × ((on_rebuild_update d jobs n name ≡ some (erase_job jobs name, (n', ok tt)))
        × (Leaves d jobs (erase_job jobs name) n n' name other (set_state c opened)
            × (n'.reconfigures ≡ n.reconfigures + 1)))
unfolding recover reconfigured
on_rebuild_update_completed d jobs n name other job c l s f o =
    let dest = lookup_job-destination jobs name job (lookup-some jobs name job l) in
    let k = find-name name n.children c f in
    let f' : find (has_name job.destination) n.children ≡ some c = rw dest f in
    let fin : done (state job) ≡ true = rw s refl in
    let n1 : Nexus = record (set_child n c.name (set_state c opened)) { saves = n.saves + 1 } in
    let r : recover (state job) d jobs n c ≡ some n1 = rw s refl in
    let n2 = reconfigured d jobs n1 in
    let e = update-eq d jobs n n2 name job l fin (complete-eq d jobs n n1 job c f' r) in
    let moved =
      ap (λ (t : String). update_first (has_name t) (λ _. set_state c opened) n.children) k in
    (
      n2,
      (
        e,
        (
          leaves d jobs n n1 n2 name other c (set_state c opened) f k o moved
              (reconfigured-Refreshed d jobs n1),
          refl,
        ),
      ),
    )

-- When the job of a child has failed, and closing that child ends, the update of the nexus succeeds,
-- and the job is gone: the child is faulted for a failed rebuild, and every other name finds the
-- child and the job that it found before; but another child that is open or out of sync and gives
-- no handle can be faulted with `cant_open` by the reconfigurations.
pub on_rebuild_update_failed :
    (d : Devices) (jobs : Instances) (n : Nexus) (name other : String) (job : RebuildJob)
    (c c' : NexusChild)
    → lookup jobs name ≡ ok job
    → state job ≡ failed
    → find (has_name name) n.children ≡ some c
    → fault d c rebuild_failed ≡ some c'
    → other ≢ name
    → (n' : Nexus) × ((on_rebuild_update d jobs n name ≡ some (erase_job jobs name, (n', ok tt)))
        × (Leaves d jobs (erase_job jobs name) n n' name other c'
            × ((c'.state ≡ faulted rebuild_failed) × (find (has_name name) n'.children ≡ some c'))))
unfolding recover
on_rebuild_update_failed d jobs n name other job c c' l s f x o =
    let dest = lookup_job-destination jobs name job (lookup-some jobs name job l) in
    let k = find-name name n.children c f in
    let k' : c'.name ≡ name = fault-name d c c' rebuild_failed x ∙ k in
    let f' : find (has_name job.destination) n.children ≡ some c = rw dest f in
    let fin : done (state job) ≡ true = rw s refl in
    let n1 : Nexus = put_closed d jobs n c.name c c' in
    let r : recover (state job) d jobs n c ≡ some n1 = rw (s, recover, x) refl in
    let n2 = reconfigured d jobs n1 in
    let e = update-eq d jobs n n2 name job l fin (complete-eq d jobs n n1 job c f' r) in
    let moved = ap (λ (t : String). update_first (has_name t) (λ _. c') n.children) k in
    let h =
      trans-Refreshed d (set_child n c.name c').children n1.children n2.children
        (put_closed-Refreshed d jobs n c.name c c') (reconfigured-Refreshed d jobs n1) in
    let left = leaves d jobs n (set_child n c.name c') n2 name other c c' f k' o moved h in
    let q = (fault_refuses d c c' rebuild_failed 0 x).0 in
    (n2, (e, (left, (q, unused_again d c' (find (has_name name) n2.children) q left.child))))
