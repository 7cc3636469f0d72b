-- ===== src/Rebuild/Stuck.antt =====
-- Jobs that can no longer move: one resumed with nothing left to send, and one paused before it
-- was started (`run`, `start_all_tasks`, `exec_op` of rebuild_impl.rs).
use co_create_openebs.Rebuild.Work.{send_cases, reconcile-work}
use co_create_openebs.Rebuild.Delivery.{call-work}
use co_create_openebs.Rebuild.Ops.{exec_client_op}
use co_create_openebs.Rebuild.Tasks.{start_tasks}
use co_create_openebs.Rebuild.Outcome.{idle_step, idle_copies}
use co_create_openebs.Rebuild.Steps.{
  start_cases, step-IsRun, exec_op_running, steps-IsRun, wake_cases, run-eq, woken,
  reconcile_running, idle_when_waiting,
}
use co_create_openebs.Rebuild.State.{paused, running, RebuildOperation, init, UnitResult}
use co_create_openebs.Rebuild.Job.{RebuildJob, state, reconcile}
use co_create_openebs.Rebuild.Invariant.{IsRun, next-eq, end-eq, active-eq}
use co_create_openebs.Prelude.{
  refl, ◌≡◌, ◌+◌, ◌≤◌, [], ◌∷◌, List, length, none, inl, arith, inr, false, true, ℕ, ◌==◌, some,
  suc, ◌⊎◌, zero, ◌∙◌, ap, err, Bool, ok,
}
use co_create_openebs.Rebuild.Run.{
  Run, Phase, idle, call, steps, step, Call, Event, calls, resumes, pauses, wakes, starts, stops,
  terminates, loop_test, run, wake,
}

call_running : (k : Call) (job : RebuildJob) → state job ≡ running → state (call k job) ≡ running
unfolding call
call_running starts job r = elim (start_cases job) [
  | inl e ↦ rw (e, state) (exec_op_running job RebuildOperation.start false r)
  | inr e ↦ rw (e, state) (exec_op_running job RebuildOperation.start false r)
]
call_running stops job r = exec_op_running job RebuildOperation.stop false r
call_running pauses job r = exec_op_running job RebuildOperation.pause false r
call_running resumes job r = exec_op_running job RebuildOperation.resume false r
call_running terminates job r = exec_op_running job RebuildOperation.stop true r

-- A job in the running state whose future has ended stays in it for ever, whatever is called.
running_idle_forever :
    (s : Run) (es : List Event)
    → IsRun s.job s.phase (length s.copied) (length s.lost)
    → state s.job ≡ running
    → s.phase ≡ idle
    → (state (steps s es).job ≡ running) × ((steps s es).phase ≡ idle)
unfolding steps
running_idle_forever s [] h r p = (r, p)
running_idle_forever s (e ∷ es) h r p =
    let h' = step-IsRun s e h in
    elim (idle_step s e h p (λ w. ground (arith, h.states.fresh))) [
      | inl (k, q) ↦
          running_idle_forever (step s e) es h' (rw (q, state) (call_running k s.job r)) (rw q p)
      | inr (inl q) ↦ running_idle_forever (step s e) es h' (rw (q, state) r) (rw q p)
      | inr (inr q) ↦ running_idle_forever (step s e) es h' (rw (q, state) r) (rw q p)
    ]

abbrev pub resumed : Run → Run
resumed s = step (step s (calls resumes)) wakes

start_tasks_none :
    (rounds n : ℕ) (job : RebuildJob) → job.range.end ≤ job.next → start_tasks rounds n job ≡ job
unfolding start_tasks
start_tasks_none zero n job le = refl
start_tasks_none (suc rounds) n job le = elim (send_cases job n) [
  | inl (_, e) ↦ rw (e, start_tasks) refl
  | inr (lt, _) ↦ absurd (omega arith)
]

run_none :
    (job : RebuildJob)
    → job.task_pool.active ≡ 0
    → job.range.end ≤ job.next
    → run job ≡ (reconcile job, idle)
unfolding loop_test
run_none job a le =
    let e : (job.task_pool.active == 0) ≡ true = ground arith in
    run-eq job a ∙ ap loop_test (start_tasks_none job.task_pool.total 0 job le) ∙ rw (e, loop_test)

resume_waits :
    (job : RebuildJob)
    → job.states ≡ record { current = paused; pending = none }
    → ((call resumes job).states ≡ record { current = paused; pending = some running })
      × ((call resumes job).scheduled ≡ job.scheduled + 1)
unfolding call
resume_waits job p = ground arith

reconcile_settled :
    (job : RebuildJob) → job.states.pending ≡ none → state (reconcile job) ≡ state job
unfolding reconcile
reconcile_settled job p = ground arith

-- The wake of a job with nothing left to send.
wake_at_end :
    (p : Phase) (job : RebuildJob) {c l : ℕ}
    → IsRun job p c l
    → job.states.pending ≡ some running
    → job.next ≡ job.range.end
    → (state (wake p job).0 ≡ running) × ((wake p job).1 ≡ idle)
wake_at_end p job h w n = elim (wake_cases p job) [
  | inl (q, _) ↦ absurd (q w)
  | inr (_, e) ↦
      let e' = reconcile-work (woken job) in
      let r = reconcile_running (woken job) w in
      let q =
        run_none (reconcile (woken job)) (active-eq e' ∙ idle_when_waiting p job h w)
          (omega (arith, next-eq e', end-eq e')) in
      (
        ap (λ (t : RebuildJob × Phase). state t.0) (e ∙ q)
            ∙ reconcile_settled (reconcile (woken job)) (ground (arith, r))
            ∙ ground (arith, r),
        ap (λ (t : RebuildJob × Phase). t.1) (e ∙ q),
      )
]

resumed_idle :
    (s : Run)
    → IsRun s.job s.phase (length s.copied) (length s.lost)
    → s.job.states ≡ record { current = paused; pending = none }
    → s.job.next ≡ s.job.range.end
    → (state (resumed s).job ≡ running) × ((resumed s).phase ≡ idle)
unfolding step
resumed_idle s h p n =
    let (w, c) = resume_waits s.job p in
    let e : ((call resumes s.job).scheduled == 0) ≡ false = ground arith in
    rw (e, step)
      (wake_at_end s.phase (call resumes s.job) (step-IsRun s (calls resumes) h) (ground arith)
        (omega (arith, next-eq (call-work resumes s.job), end-eq (call-work resumes s.job))))

-- A job that was paused after its last segment was sent, and is then resumed, runs for ever with
-- no task: it never completes, and no later call or event makes it stop or fail.
pub resume_at_end_stuck :
    (s : Run) (es : List Event)
    → IsRun s.job s.phase (length s.copied) (length s.lost)
    → s.job.states ≡ record { current = paused; pending = none }
    → s.job.next ≡ s.job.range.end
    → let t = steps (resumed s) es in
      (state t.job ≡ running) × (t.phase ≡ idle) × (length t.job.copies ≡ 0)
resume_at_end_stuck s es h p n =
    let (r, i) = resumed_idle s h p n in
    let h' = step-IsRun (step s (calls resumes)) wakes (step-IsRun s (calls resumes) h) in
    let (r', i') = running_idle_forever (resumed s) es h' r i in
    (r', i', idle_copies _ _ (steps-IsRun (resumed s) es h') i')

abbrev pub is_err : UnitResult → Bool
is_err (ok _) = false
is_err (err _) = true

-- A job that is paused before it was started refuses every client operation from then on but
-- another pause, and none changes its states.
pub paused_before_start :
    (job : RebuildJob) (op : RebuildOperation)
    → job.states ≡ record { current = init; pending = some paused }
    → ((exec_client_op job op).0.states ≡ job.states)
      × ((op ≡ RebuildOperation.pause) ⊎ (is_err (exec_client_op job op).1 ≡ true))
unfolding exec_client_op
paused_before_start job RebuildOperation.start p = ground arith
paused_before_start job RebuildOperation.pause p = ground arith
paused_before_start job _ p = ground arith
