-- ===== src/Rebuild/Run.antt =====
-- The management future of a job (`run`, `await_all_tasks` of rebuild_impl.rs), as a machine: the
-- future rests where it awaits a result, and other futures run in between.
use co_create_openebs.Prelude.{
  ℕ, zero, suc, ◌-◌, true, false, List, [], ◌∷◌, Option, none, some, ◌==◌, if◌then◌else◌, get_elem?,
}
use co_create_openebs.Rebuild.State.{running, RebuildError}
use co_create_openebs.Rebuild.Job.{RebuildJob, TaskResult, Segment, reconcile, reconcile_to_state}
use co_create_openebs.Rebuild.Ops.{start, stop, pause, resume, terminate, fail}
use co_create_openebs.Rebuild.Tasks.{start_all_tasks, start_task_by_id, await_one_task}

-- Why `run` awaits all tasks: an operation is pending, or a task has failed.
pub data Drain : Type 0 where
  on_pending : Drain
  on_error : RebuildError → Drain

-- Where the future stands: not running, at the `await` of the loop, at that of `await_all_tasks`.
-- `panicked` is a failed assertion.
pub data Phase : Type 0 where
  idle looping panicked : Phase
  draining : Drain → Phase

-- A job with its future, and the blocks of the results received so far, without and with an error.
pub record Run : Type 0 where
  pub job : RebuildJob
  pub phase : Phase
  pub copied : List ℕ
  pub lost : List ℕ

-- What follows `await_all_tasks` in the two arms, up to the end of `run`.
unfoldable pub after_drain : Drain → RebuildJob → RebuildJob
unfolding reconcile
after_drain on_pending job = reconcile job
after_drain (on_error e) job = reconcile (record job { error = some e })

-- `while self.task_pool.active > 0`, in `run`.
unfoldable pub loop_test : RebuildJob → RebuildJob × Phase
unfolding reconcile
loop_test job = if job.task_pool.active == 0 then (reconcile job, idle) else (job, looping)

-- The same test, in `await_all_tasks`.
unfoldable pub drain_test : Drain → RebuildJob → RebuildJob × Phase
unfolding after_drain
drain_test d job =
    if job.task_pool.active == 0 then (after_drain d job, idle) else (job, draining d)

-- `run`, to its first `await`.
unfoldable pub run : RebuildJob → RebuildJob × Phase
unfolding start_all_tasks loop_test
run job = elim (start_all_tasks job) [ none ↦ (job, panicked) | some job' ↦ loop_test job' ]

-- The arm of a result without an error.
unfoldable pub on_success : RebuildJob → ℕ → RebuildJob × Phase
on_success job id = elim job.states.pending [
  | none ↦ loop_test (start_task_by_id job id)
  | some running ↦ loop_test (start_task_by_id job id)
  | some _ ↦ drain_test on_pending job
]

-- `run` from its `await` to the next; `none` says that all senders are gone.
unfoldable pub on_message : RebuildJob → Option TaskResult → RebuildJob × Phase
unfolding terminate reconcile
on_message job none = (reconcile (terminate job), idle)
on_message job (some r) =
    let job' = await_one_task job (some r) in
    elim r.error [ none ↦ on_success job' r.id | some e ↦ drain_test (on_error e) (fail job') ]

-- `await_all_tasks` from its `await` to the next.
unfoldable pub on_drain_message : Drain → RebuildJob → Option TaskResult → RebuildJob × Phase
unfolding after_drain drain_test
on_drain_message d job none = (after_drain d (fail job), idle)
on_drain_message d job (some r) = drain_test d (await_one_task job (some r))

-- A result reaches the future.
unfoldable pub receive_in : Phase → RebuildJob → Option TaskResult → RebuildJob × Phase
unfolding on_message on_drain_message
receive_in looping job m = on_message job m
receive_in (draining d) job m = on_drain_message d job m
receive_in p job m = (job, p)

-- The future of `schedule` runs.
unfoldable pub wake : Phase → RebuildJob → RebuildJob × Phase
unfolding reconcile_to_state
wake p job =
    let (job', ready) = reconcile_to_state (record job { scheduled = job.scheduled - 1 }) running in
    elim ready [ true ↦ run job' | false ↦ (job', p) ]

-- A copy task leaves the reactor.
abbrev pub take_copy : List Segment → ℕ → List Segment
take_copy [] i = []
take_copy (s ∷ ss) zero = ss
take_copy (s ∷ ss) (suc i) = s ∷ take_copy ss i

pub data Call : Type 0 where
  starts stops pauses resumes terminates : Call

-- What happens next: a call of the API, a scheduled future, or the end of the `i`-th copy task in
-- flight, with its error.
pub data Event : Type 0 where
  calls : Call → Event
  wakes : Event
  finishes : (i : ℕ) → Option RebuildError → Event

unfoldable pub call : Call → RebuildJob → RebuildJob
unfolding start stop pause resume terminate
call starts job = (start job).0
call stops job = (stop job).0
call pauses job = (pause job).0
call resumes job = (resume job).0
call terminates job = terminate job

abbrev pub set_run : Run → RebuildJob × Phase → Run
set_run s (job, phase) = record s { job = job; phase = phase }

abbrev note : Run → ℕ → Option RebuildError → Run
note s blk none = record s { copied = blk ∷ s.copied }
note s blk (some e) = record s { lost = blk ∷ s.lost }

-- The result of a copy task reaches the future of its job.
unfoldable pub finish : Run → ℕ → Segment → Option RebuildError → Run
unfolding receive_in
finish s i segment error =
    let job = record (s.job) { copies = take_copy s.job.copies i } in
    set_run (note s segment.blk error)
      (receive_in s.phase job (some (record { blk = segment.blk; id = segment.id; error = error })))

unfoldable pub step : Run → Event → Run
unfolding call finish wake
step s (calls c) = record s { job = call c s.job }
step s wakes = if s.job.scheduled == 0 then s else set_run s (wake s.phase s.job)
step s (finishes i error) = elim (get_elem? s.job.copies i) [
  | none ↦ s
  | some segment ↦ finish s i segment error
]

unfoldable pub steps : Run → List Event → Run
unfolding step
steps s [] = s
steps s (e ∷ es) = steps (step s e) es
