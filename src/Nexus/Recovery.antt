-- ===== src/Nexus/Recovery.antt =====
-- The rebuilds of a nexus: nexus_bdev_rebuild.rs, over the list of jobs of Rebuild. Where an operation
-- awaits a child, `none` says that it never goes on.
use co_create_openebs.Rebuild.Registry.{Instances, Backend, lookup, create, remove}
use co_create_openebs.Rebuild.State.{
  RebuildState, RebuildError, UnitResult, done, completed, stopped,
}
use co_create_openebs.Rebuild.Job.{RebuildJob, Range, state}
use co_create_openebs.Rebuild.Ops.{start, stop, pause, resume}
use co_create_openebs.Nexus.Members.{
  Nexus, NexusError, has_name, update_first, get_child_by_name, reconfigured, no_rebuild_source,
  child_not_found, child_not_degraded, create_rebuild_error, rebuild_operation_error,
  rebuild_job_not_found, remove_rebuild_job,
}
use co_create_openebs.Nexus.Child.{
  NexusChild, Devices, is_open, is_out_of_sync, fault, set_state, opened, rebuild_failed,
}
use co_create_openebs.Prelude.{
  List, [], ◌∷◌, String, Bool, true, false, Option, none, some, Result, ok, err, if◌then◌else◌,
  str_eq, not, ◌&&◌, ◌+◌, find, add_u64, map_err, ltb,
}

-- The jobs with that one in place of the job with its destination.
unfoldable pub put_job : Instances → RebuildJob → Instances
put_job [] job = []
put_job (j ∷ js) job =
    let rest = put_job js job in if str_eq j.destination job.destination then job ∷ js else j ∷ rest

abbrev pub is_source : String → NexusChild → Bool
is_source name c = is_open c.state && not (str_eq c.name name)

-- What an operation leaves: the jobs, the nexus and its result.
abbrev pub Recovered : Type 0
Recovered = Instances × (Nexus × Result NexusError (Unit {0}))

-- The destination, if it can be rebuilt.
unfoldable pub destination_of : Nexus → String → Result NexusError String
destination_of n name = elim (find (has_name name) n.children) [
  | none ↦ err (child_not_found name)
  | some c ↦ if is_out_of_sync c.state then ok c.name else err (child_not_degraded name)
]

-- The end of `start_rebuild`, with the job that was created.
unfoldable pub start_created : Devices → Instances → Nexus → String → RebuildJob → Recovered
start_created d jobs n name job =
    let (job', result) = start job in
    (put_job jobs job', (reconfigured d jobs n, map_err (rebuild_operation_error name) result))

unfoldable pub create_job :
    Backend → Devices → Instances → Nexus → (source destination : String) → Recovered
create_job b d jobs n source destination =
    let range : Range = record {
      start = n.data_ent_offset;
      end = add_u64 n.num_blocks n.data_ent_offset;
    } in
    let (jobs', result) = create b jobs n.name source destination range in
    elim result [
      | err e ↦ (jobs', (n, err (create_rebuild_error e destination)))
      | ok job ↦ start_created d jobs' n destination job
    ]

unfoldable pub start_rebuild : Backend → Devices → Instances → Nexus → String → Recovered
start_rebuild b d jobs n name = elim (find (is_source name) n.children) [
  | none ↦ (jobs, (n, err no_rebuild_source))
  | some source ↦ elim (destination_of n name) [
    | err e ↦ (jobs, (n, err e))
    | ok destination ↦ create_job b d jobs n source.name destination
  ]
]

-- `start_rebuild_jobs`, which logs errors and goes on.
unfoldable pub start_rebuild_jobs :
    Backend → Devices → Instances → Nexus → List String → Instances × Nexus
start_rebuild_jobs b d jobs n [] = (jobs, n)
start_rebuild_jobs b d jobs n (name ∷ names) =
    let (jobs', (n', _)) = start_rebuild b d jobs n name in start_rebuild_jobs b d jobs' n' names

-- An operation on the job of a child; `missing` is the result if there is none. A job of another nexus
-- fails an assertion.
unfoldable pub with_job :
    Instances
    → Nexus
    → String
    → (missing : RebuildError → Result NexusError (Unit {0}))
    → (RebuildJob → RebuildJob × UnitResult)
    → Recovered
with_job jobs n name missing f = elim (lookup jobs name) [
  | err e ↦ (jobs, (n, missing e))
  | ok job ↦ elim (str_eq job.nexus n.name) [
    | false ↦ (jobs, (record n { panicked = true }, ok tt))
    | true ↦
        let (job', result) = f job in
        (put_job jobs job', (n, map_err (rebuild_operation_error name) result))
  ]
]

unfoldable pub stop_rebuild : Instances → Nexus → String → Recovered
stop_rebuild jobs n name = with_job jobs n name (λ e. ok tt) stop

unfoldable pub pause_rebuild : Instances → Nexus → String → Recovered
pause_rebuild jobs n name = with_job jobs n name (λ e. err (rebuild_job_not_found e name)) pause

unfoldable pub resume_rebuild : Instances → Nexus → String → Recovered
resume_rebuild jobs n name = with_job jobs n name (λ e. err (rebuild_job_not_found e name)) resume

abbrev pub set_child : Nexus → String → NexusChild → Nexus
set_child n name c = record n { children = update_first (has_name name) (λ _. c) n.children }

-- The child after an operation that may have closed it. If its removal asked for a reconfiguration, the
-- channels are refreshed while it is neither open nor rebuilt.
unfoldable pub put_closed :
    Devices → Instances → Nexus → String → (before after : NexusChild) → Nexus
put_closed d jobs n name c c' =
    if ltb c.reconfigures c'.reconfigures
    then reconfigured d jobs (set_child n name c')
    else set_child n name c'

abbrev pub Updated : Type 0
Updated = Option (Nexus × Result NexusError (Unit {0}))

-- The recovering child after its job, by the state in which the job ended.
unfoldable pub recover : RebuildState → Devices → Instances → Nexus → NexusChild → Option Nexus
recover completed d jobs n c =
    let n' = set_child n c.name (set_state c opened) in some (record n' { saves = n.saves + 1 })
recover stopped d jobs n c = some n
recover _ d jobs n c = elim (fault d c rebuild_failed) [
  | none ↦ none
  | some c' ↦ some (put_closed d jobs n c.name c c')
]

unfoldable pub on_rebuild_complete_job : Devices → Instances → Nexus → RebuildJob → Updated
on_rebuild_complete_job d jobs n job = elim (get_child_by_name n job.destination) [
  | err e ↦ some (n, err e)
  | ok c ↦ elim (recover (state job) d jobs n c) [
    | none ↦ none
    | some n' ↦ some (reconfigured d jobs n', ok tt)
  ]
]

-- `complete_err.and(remove_err)`.
abbrev pub both_done :
    Result NexusError (Unit {0}) → Result NexusError (Unit {0}) → Result NexusError (Unit {0})
both_done (err e) _ = err e
both_done (ok _) r = r

abbrev pub removed_result : String → Result RebuildError RebuildJob → Result NexusError (Unit {0})
removed_result name (ok _) = ok tt
removed_result name (err e) = err (remove_rebuild_job e name)

unfoldable pub on_rebuild_update : Devices → Instances → Nexus → String → Option Recovered
on_rebuild_update d jobs n name = elim (lookup jobs name) [
  | err e ↦ some (jobs, (n, err (rebuild_job_not_found e name)))
  | ok job ↦ elim (done (state job)) [
    | false ↦ some (jobs, (n, ok tt))
    | true ↦ elim (on_rebuild_complete_job d jobs n job) [
      | none ↦ none
      | some (n', complete_err) ↦
          let (jobs', removed) = remove jobs name in
          some (jobs', (n', both_done complete_err (removed_result name removed)))
    ]
  ]
]
