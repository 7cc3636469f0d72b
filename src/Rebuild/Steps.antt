-- ===== src/Rebuild/Steps.antt =====
-- The invariant of a job over every history: calls of its API, its scheduled futures and the
-- results of its copy tasks, in any order (rebuild_impl.rs).
use co_create_openebs.Rebuild.Messages.{finish-IsRun}
use co_create_openebs.Rebuild.Tasks.{start_all_tasks, start_tasks}
use co_create_openebs.Rebuild.Work.{
  exec_op-work, work, IsWork, start_tasks-IsWork, start_tasks-states, reconcile-work,
}
use co_create_openebs.Rebuild.Pending.{IsSettled, exec_op-IsSettled}
use co_create_openebs.Rebuild.Invariant.{
  IsRun, IsWork-eq, IsPhase, active-eq, next-eq, end-eq, loop_test-IsRun,
}
use co_create_openebs.Rebuild.State.{RebuildOperation, completed, running, RebuildStates}
use co_create_openebs.Rebuild.Ops.{exec_op, start}
use co_create_openebs.Rebuild.Job.{RebuildJob, state, reconcile}
use co_create_openebs.Prelude.{
  refl, ◌≡◌, ◌≢◌, ℕ, Bool, ◌+◌, none, arith, ◌∙◌, sym, false, ◌⊎◌, ap, List, length, inl, some, ◌-◌,
  ◌∷◌, ◌==◌, [], inr, Bool-cases, true, Option-cases, get_elem?,
}
use co_create_openebs.Rebuild.Run.{
  Run, Phase, idle, looping, draining, panicked, call, Call, steps, step, run, wake, Event, calls,
  finishes, starts, stops, pauses, wakes, resumes, loop_test, terminates,
}

-- While the job runs, an operation leaves the current state, and keeps something pending.
pub exec_op_running :
    (job : RebuildJob) (op : RebuildOperation) (o : Bool)
    → state job ≡ running
    → state (exec_op job op o).0 ≡ running
unfolding exec_op
exec_op_running job RebuildOperation.start o r = ground arith
exec_op_running job RebuildOperation.stop o r = ground arith
exec_op_running job _ o r = ground arith

exec_op_keeps_pending :
    (job : RebuildJob) (op : RebuildOperation) (o : Bool)
    → state job ≡ running
    → IsSettled job.states
    → job.states.pending ≢ none
    → (exec_op job op o).0.states.pending ≢ none
unfolding exec_op
exec_op_keeps_pending job RebuildOperation.start o r s p = ground arith
exec_op_keeps_pending job RebuildOperation.stop o r s p = ground arith
exec_op_keeps_pending job _ o r s p = ground arith

pub exec_op-completed :
    (job : RebuildJob) (op : RebuildOperation) (o : Bool)
    → state (exec_op job op o).0 ≡ completed
    → IsSettled job.states
    → state job ≡ completed
unfolding exec_op
exec_op-completed job RebuildOperation.start o r s = ground arith
exec_op-completed job RebuildOperation.stop o r s = ground arith
exec_op-completed job _ o r s = ground arith

exec_op-IsPhase :
    (p : Phase) (job : RebuildJob) (op : RebuildOperation) (o : Bool)
    → IsSettled job.states
    → IsPhase p job
    → IsPhase p (exec_op job op o).0
exec_op-IsPhase idle job op o s h = active-eq (exec_op-work job op o) ∙ h
exec_op-IsPhase looping job op o s h =
    (exec_op_running job op o h.0, omega (arith, active-eq (exec_op-work job op o)))
exec_op-IsPhase (draining d) job op o s h = (
  exec_op_running job op o h.0,
  omega (arith, active-eq (exec_op-work job op o)),
  exec_op_keeps_pending job op o h.0 s h.2,
)
exec_op-IsPhase panicked job op o s h = h

exec_op-IsRun :
    (job : RebuildJob) (p : Phase) (op : RebuildOperation) (o : Bool) {c l : ℕ}
    → op ≢ RebuildOperation.complete
    → IsRun job p c l
    → IsRun (exec_op job op o).0 p c l
exec_op-IsRun job p op o n h = record {
  copying = IsWork-eq (exec_op-work job op o) h.copying;
  states = exec_op-IsSettled job op o n h.states;
  phased = exec_op-IsPhase p job op o h.states h.phased;
  finished = λ e.
      next-eq (exec_op-work job op o)
      ∙ h.finished (exec_op-completed job op o e h.states)
      ∙ sym (end-eq (exec_op-work job op o));
  resting = λ e. h.resting (exec_op-completed job op o e h.states);
}

-- The invariant speaks of the copying side and of the states only.
IsPhase-eq :
    (p : Phase) (job job' : RebuildJob)
    → work job' ≡ work job
    → job'.states ≡ job.states
    → IsPhase p job
    → IsPhase p job'
IsPhase-eq idle job job' e q h = active-eq e ∙ h
IsPhase-eq looping job job' e q h = (rw q h.0, rw (active-eq e) h.1)
IsPhase-eq (draining d) job job' e q h = (rw q h.0, rw (active-eq e) h.1, rw q h.2)
IsPhase-eq panicked job job' e q h = h

IsRun-eq :
    (p : Phase) (job job' : RebuildJob) {c l : ℕ}
    → work job' ≡ work job
    → job'.states ≡ job.states
    → IsRun job p c l
    → IsRun job' p c l
IsRun-eq p job job' e q h = record {
  copying = IsWork-eq e h.copying;
  states = rw q h.states;
  phased = IsPhase-eq p job job' e q h.phased;
  finished = λ x.
      next-eq e ∙ h.finished (sym (ap (λ (v : RebuildStates). v.current) q) ∙ x) ∙ sym (end-eq e);
  resting = λ x. h.resting (sym (ap (λ (v : RebuildStates). v.current) q) ∙ x);
}

pub start_cases :
    (job : RebuildJob)
    → let job' = (exec_op job RebuildOperation.start false).0 in
      ((start job).0 ≡ record job' { complete_chan = job'.complete_chan + 1 })
      ⊎ ((start job).0 ≡ job')
unfolding start
start_cases job = ground arith

call-IsRun :
    (k : Call) (job : RebuildJob) (p : Phase) {c l : ℕ} → IsRun job p c l → IsRun (call k job) p c l
unfolding call
call-IsRun starts job p h =
    let started = exec_op-IsRun job p RebuildOperation.start false (λ e. cc) h in
    elim (start_cases job) [
      | inl e ↦ rw e (IsRun-eq p (exec_op job RebuildOperation.start false).0 _ refl refl started)
      | inr e ↦ rw e started
    ]
call-IsRun stops job p h = exec_op-IsRun job p RebuildOperation.stop false (λ e. cc) h
call-IsRun pauses job p h = exec_op-IsRun job p RebuildOperation.pause false (λ e. cc) h
call-IsRun resumes job p h = exec_op-IsRun job p RebuildOperation.resume false (λ e. cc) h
call-IsRun terminates job p h =
    IsRun-eq p _ _ refl refl (exec_op-IsRun job p RebuildOperation.stop true (λ e. cc) h)

pub run-eq :
    (job : RebuildJob)
    → job.task_pool.active ≡ 0
    → run job ≡ loop_test (start_tasks job.task_pool.total 0 job)
unfolding run
run-eq job a =
    let e : (job.task_pool.active == 0) ≡ true = ground arith in rw (e, run, start_all_tasks)

-- A future that finds the job waiting to run starts its tasks; no assertion fails.
run-IsRun :
    (job : RebuildJob) (c l : ℕ)
    → IsWork (work job) c l
    → state job ≡ running
    → job.states.pending ≡ none
    → job.task_pool.active ≡ 0
    → IsRun (run job).0 (run job).1 c l
run-IsRun job c l h r p a = rw (run-eq job a) (
    loop_test-IsRun (start_tasks job.task_pool.total 0 job) c l (record {
      copying = start_tasks-IsWork job.task_pool.total 0 job c l h (omega (arith, h.total));
      current = rw (start_tasks-states job.task_pool.total 0 job, state) r;
      fresh = rw (start_tasks-states job.task_pool.total 0 job) (ground arith);
      not_init = rw (start_tasks-states job.task_pool.total 0 job) (ground arith);
      complete = rw (start_tasks-states job.task_pool.total 0 job) (ground arith);
      finished = rw (start_tasks-states job.task_pool.total 0 job) (ground arith);
    }))

-- The job when one of its scheduled futures is taken.
abbrev pub woken : RebuildJob → RebuildJob
woken job = record job { scheduled = job.scheduled - 1 }

pub wake_cases :
    (p : Phase) (job : RebuildJob)
    → ((job.states.pending ≢ some running) × (wake p job ≡ (woken job, p)))
      ⊎ ((job.states.pending ≡ some running) × (wake p job ≡ run (reconcile (woken job))))
unfolding wake
wake_cases p job = ground arith

pub reconcile_running :
    (job : RebuildJob)
    → job.states.pending ≡ some running
    → (reconcile job).states ≡ record { current = running; pending = none }
unfolding reconcile
reconcile_running job w = ground arith

pub idle_when_waiting :
    (p : Phase) (job : RebuildJob) {c l : ℕ}
    → IsRun job p c l
    → job.states.pending ≡ some running
    → job.task_pool.active ≡ 0
idle_when_waiting idle job h w = h.phased
idle_when_waiting looping job h w = absurd (ground (arith, h.states.fresh, h.phased.0))
idle_when_waiting (draining d) job h w = absurd (ground (arith, h.states.fresh, h.phased.0))
idle_when_waiting panicked job h w = absurd h.phased

wake-IsRun :
    (p : Phase) (job : RebuildJob) {c l : ℕ}
    → IsRun job p c l
    → IsRun (wake p job).0 (wake p job).1 c l
wake-IsRun p job h = elim (wake_cases p job) [
  | inl (_, e) ↦ rw e (IsRun-eq p job (woken job) refl refl h)
  | inr (w, e) ↦ rw e (
      run-IsRun (reconcile (woken job)) _ _ (IsWork-eq (reconcile-work (woken job)) h.copying)
        (ground (arith, reconcile_running (woken job) w))
        (ground (arith, reconcile_running (woken job) w))
        (active-eq (reconcile-work (woken job)) ∙ idle_when_waiting p job h w))
]

pub step-IsRun :
    (s : Run) (e : Event)
    → IsRun s.job s.phase (length s.copied) (length s.lost)
    → let t = step s e in IsRun t.job t.phase (length t.copied) (length t.lost)
unfolding step
step-IsRun s (calls k) h = call-IsRun k s.job s.phase h
step-IsRun s wakes h = elim (Bool-cases (s.job.scheduled == 0)) [
  | inl e ↦ rw e h
  | inr e ↦ rw e (wake-IsRun s.phase s.job h)
]
step-IsRun s (finishes i x) h = elim (Option-cases (get_elem? s.job.copies i)) [
  | inl e ↦ rw (e, step) h
  | inr (g, e) ↦ rw (e, step) (finish-IsRun s i x h e)
]

-- From a job for which `IsRun` holds it holds after any history: the pool counts the tasks in
-- flight, at most 16, and `next` stays in the range; the states are settled; the future waits only
-- where the job is running with tasks active; a completed job has sent all of its range and has no
-- future; and no assertion has failed.
pub steps-IsRun :
    (s : Run) (es : List Event)
    → IsRun s.job s.phase (length s.copied) (length s.lost)
    → let t = steps s es in IsRun t.job t.phase (length t.copied) (length t.lost)
unfolding steps
steps-IsRun s [] h = h
steps-IsRun s (e ∷ es) h = steps-IsRun (step s e) es (step-IsRun s e h)
