-- ===== src/Nexus/Changes.antt =====
-- Taking a child out of a nexus, and back in: `remove_child`, `offline_child`, `fault_child` and
-- `online_child` of nexus_bdev_children.rs, with `cancel_child_rebuild_jobs` and
-- `terminate_rebuild` of nexus_bdev_rebuild.rs. Where an operation awaits, `none` says that it never
-- goes on.
use co_create_openebs.Rebuild.Ops.{terminate}
use co_create_openebs.Rebuild.Job.{RebuildJob}
use co_create_openebs.Nexus.Recovery.{
  Recovered, set_child, put_job, start_rebuild_jobs, start_rebuild, put_closed,
}
use co_create_openebs.Rebuild.Registry.{Instances, Backend, lookup, lookup_src}
use co_create_openebs.Nexus.Members.{
  Nexus, has_name, status, NexusError, child_not_found, remove_last_child, NexusStatus,
  destroy_last_child, close_child, open_child_failed, reconfigured, faulting_last_healthy_child,
}
use co_create_openebs.Nexus.Child.{
  NexusChild, ChildState, Reason, Opened, Devices, faulted, close, fault, online, offline, is_open,
}
use co_create_openebs.Prelude.{
  ℕ, String, List, Option, Result, ◌+◌, ok, find, if◌then◌else◌, ◌∷◌, Bool, some, ◌==◌, err, none,
  all, ltb, str_eq, map, [], false, true, filter, sub_u32,
}

-- What the operations ask of others. `elapse` is what becomes of the jobs and of the nexus while an
-- operation waits for jobs to end: other futures run on the same core, and reach the nexus too.
pub record World : Type 0 where
  pub backend : Backend
  pub devices : Devices
  pub elapse : Instances → Nexus → Option (Instances × Nexus)

-- `for_each` of the jobs with that source: all of them with a termination asked for.
unfoldable pub terminate_sources : Instances → String → Instances
terminate_sources [] name = []
terminate_sources (j ∷ js) name =
    let rest = terminate_sources js name in (if str_eq j.source name then terminate j else j) ∷ rest

-- A job of another nexus fails the assertion of `get_rebuild_job_src`.
unfoldable pub checked_jobs : Nexus → List RebuildJob → Nexus
checked_jobs n js = if all (λ j. str_eq j.nexus n.name) js then n else record n { panicked = true }

-- The wait for the jobs, if there are any.
abbrev pub wait_for : World → List RebuildJob → Instances → Nexus → Option (Instances × Nexus)
wait_for w [] jobs n = some (jobs, n)
wait_for w (j ∷ js) jobs n = w.elapse jobs n

unfoldable pub terminate_rebuild : World → Instances → Nexus → String → Option (Instances × Nexus)
terminate_rebuild w jobs n name = elim (lookup jobs name) [
  | err e ↦ some (jobs, n)
  | ok job ↦ w.elapse (put_job jobs (terminate job)) (checked_jobs n (job ∷ []))
]

-- The jobs and the nexus when no job of the child is left to wait for, and the children whose rebuild
-- was cancelled with it as a source.
abbrev pub Cancelled : Type 0
Cancelled = Option ((Instances × Nexus) × List String)

abbrev pub cancelled_with : List String → Option (Instances × Nexus) → Cancelled
cancelled_with names none = none
cancelled_with names (some s) = some (s, names)

abbrev pub then_terminate : World → String → Option (Instances × Nexus) → Option (Instances × Nexus)
then_terminate w name none = none
then_terminate w name (some (jobs, n)) = terminate_rebuild w jobs n name

unfoldable pub cancel_child_rebuild_jobs : World → Instances → Nexus → String → Cancelled
cancel_child_rebuild_jobs w jobs n name =
    let sources = lookup_src jobs name in
    cancelled_with (map (λ j. j.destination) sources) (
      then_terminate w name
        (wait_for w sources (terminate_sources jobs name) (checked_jobs n sources)))

-- What an operation leaves: the jobs, the nexus and its result.
abbrev pub Done : Type 0
Done = Option (Instances × (Nexus × Result NexusError NexusStatus))

-- The end of an operation: the cancelled rebuilds are started again. The status is of the nexus then.
abbrev pub restarted :
    World → Instances → Nexus → List String → (Nexus → Result NexusError NexusStatus) → Done
restarted w jobs n names result =
    let (jobs', n') = start_rebuild_jobs w.backend w.devices jobs n names in
    some (jobs', (n', result n'))

abbrev pub after_cancel : Cancelled → (Instances → Nexus → List String → Done) → Done
after_cancel none next = none
after_cancel (some ((jobs, n), names)) next = next jobs n names

-- `children.remove` of the first child of that name.
unfoldable pub without_first : (NexusChild → Bool) → List NexusChild → List NexusChild
without_first p [] = []
without_first p (c ∷ cs) = let rest = without_first p cs in if p c then cs else c ∷ rest

-- After `close` of the child, which is in its place.
abbrev pub remove_closed :
    World → Instances → Nexus → List String → (uri : String) → Result ℕ (Unit {0}) → Done
remove_closed w jobs n names uri (err e) = some (jobs, (n, err (close_child uri e)))
remove_closed w jobs n names uri (ok _) =
    restarted w jobs
      (record n {
        children = without_first (has_name uri) n.children;
        child_count = sub_u32 n.child_count 1;
        saves = n.saves + 1;
      })
      names (λ n'. ok (status n'))

abbrev pub remove_found : World → (uri : String) → Instances → Nexus → List String → Done
remove_found w uri jobs n names = elim (find (has_name uri) n.children) [
  | none ↦ some (jobs, (n, ok (status n)))
  | some c ↦ elim (close w.devices c) [
    | none ↦ none
    | some (c', result) ↦
        remove_closed w jobs (put_closed w.devices jobs n uri c c') names uri result
  ]
]

-- `Nexus::remove_child`, whose status its caller does not read.
unfoldable pub remove_nexus_child : World → Instances → Nexus → (uri : String) → Done
remove_nexus_child w jobs n uri =
    if n.child_count == 1
    then some (jobs, (n, err (destroy_last_child uri)))
    else after_cancel (cancel_child_rebuild_jobs w jobs n uri) (remove_found w uri)

abbrev pub offline_found : World → (name : String) → Instances → Nexus → List String → Done
offline_found w name jobs n names = elim (find (has_name name) n.children) [
  | none ↦ some (jobs, (n, err (child_not_found name)))
  | some c ↦ elim (offline w.devices c) [
    | none ↦ none
    | some c' ↦
        restarted w jobs (reconfigured w.devices jobs (put_closed w.devices jobs n name c c')) names
          (λ n'. ok (status n'))
  ]
]

unfoldable pub offline_child : World → Instances → Nexus → (name : String) → Done
offline_child w jobs n name =
    after_cancel (cancel_child_rebuild_jobs w jobs n name) (offline_found w name)

abbrev pub is_faulted : ChildState → Bool
is_faulted (faulted _) = true
is_faulted _ = false

abbrev pub save_nexus_state : Nexus → Nexus
save_nexus_state n = record n { saves = n.saves + 1 }

-- `fault_child` behind its checks.
abbrev pub fault_found : World → (name : String) → Reason → Instances → Nexus → List String → Done
fault_found w name reason jobs n names = elim (find (has_name name) n.children) [
  | none ↦ restarted w jobs n names (λ n'. err (child_not_found name))
  | some c ↦ elim (is_faulted c.state) [
    | true ↦ restarted w jobs n names (λ n'. ok (status n'))
    | false ↦ elim (fault w.devices c reason) [
      | none ↦ none
      | some c' ↦
          restarted w jobs
            (reconfigured w.devices jobs (save_nexus_state (put_closed w.devices jobs n name c c')))
            names (λ n'. ok (status n'))
    ]
  ]
]

-- `healthy_children.len() == 1 && healthy_children[0].name == name`.
abbrev pub is_last_healthy : String → List NexusChild → Bool
is_last_healthy name (c ∷ []) = str_eq c.name name
is_last_healthy name _ = false

unfoldable pub fault_child : World → Instances → Nexus → (name : String) → Reason → Done
fault_child w jobs n name reason =
    if ltb n.child_count 2
    then some (jobs, (n, err (remove_last_child name)))
    else if is_last_healthy name (filter (λ c. is_open c.state) n.children)
    then some (jobs, (n, err (faulting_last_healthy_child name)))
    else after_cancel (cancel_child_rebuild_jobs w jobs n name) (fault_found w name reason)

abbrev pub with_status : Recovered → Done
with_status (jobs, (n, ok _)) = some (jobs, (n, ok (status n)))
with_status (jobs, (n, err e)) = some (jobs, (n, err e))

abbrev pub after_online : World → Instances → Nexus → (name : String) → NexusChild × Opened → Done
after_online w jobs n name (c, err e) =
    some (jobs, (set_child n name c, err (open_child_failed name e)))
after_online w jobs n name (c, ok _) =
    with_status (start_rebuild w.backend w.devices jobs (set_child n name c) name)

unfoldable pub online_child : World → Instances → Nexus → (name : String) → Done
online_child w jobs n name = elim (find (has_name name) n.children) [
  | none ↦ some (jobs, (n, err (child_not_found name)))
  | some c ↦ after_online w jobs n name (online w.devices c n.size)
]
