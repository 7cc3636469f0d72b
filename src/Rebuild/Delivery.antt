-- ===== src/Rebuild/Delivery.antt =====
-- What a result that reaches a job makes of the blocks covered (`on_success`, `start_task_by_id`,
-- `await_one_task` of rebuild_impl.rs), and that every history covers each block once.
use co_create_openebs.Rebuild.Steps.{
  run-eq, wake_cases, start_cases, woken, step-IsRun, idle_when_waiting,
}
use co_create_openebs.Rebuild.Coverage.{IsExact, sent-IsExact, hits-take_copy, start_tasks-IsExact}
use co_create_openebs.Rebuild.Invariant.{IsRun, IsWork-eq, active-eq}
use co_create_openebs.Rebuild.Messages.{complete-work, fail-work}
use co_create_openebs.Rebuild.State.{RebuildState, running, RebuildError, RebuildOperation}
use co_create_openebs.Rebuild.Job.{RebuildJob, Segment, TaskResult, reconcile}
use co_create_openebs.Rebuild.Tasks.{start_tasks, start_task_by_id, await_one_task}
use co_create_openebs.Rebuild.Work.{
  Work, IsWork, work, sent, send_cases, reconcile-work, awaited, awaited-active,
  awaited-IsWork_copied, awaited-IsWork_lost, exec_op-work,
}
use mathlib.Core.Path.{subst}
use co_create_openebs.Prelude.{
  ◌≡◌, ◌<◌, [], ◌∷◌, List, ℕ, get_elem?, some, arith, inl, inr, ap, ◌⊎◌, Option, Bool-cases, ◌∙◌,
  ◌==◌, none, ◌≢◌, refl, sym, length, Option-cases, false, true,
}
use co_create_openebs.Rebuild.Ops.{fail}
use co_create_openebs.Rebuild.Run.{
  take_copy, on_success, loop_test, drain_test, Drain, on_error, on_pending, receive_in, Phase,
  idle, panicked, draining, looping, finish, Run, call, run, wake, step, steps, Call, Event, calls,
  finishes, wakes, starts, stops, pauses, resumes, terminates,
}

-- What the future does after counting a result: nothing to the copying side, or it sends one task.
abbrev pub Sends : RebuildJob → ℕ → RebuildJob → Type 0
Sends job id job' =
    (work job' ≡ work job) ⊎ ((job.next < job.range.end) × (work job' ≡ work (sent job id)))

pub drain_test-work : (d : Drain) (job : RebuildJob) → work (drain_test d job).0 ≡ work job
unfolding drain_test
drain_test-work on_pending job = ground (arith, reconcile-work job)
drain_test-work (on_error x) job = ground (arith, reconcile-work (record job { error = some x }))

pub loop_test-work : (job : RebuildJob) → work (loop_test job).0 ≡ work job
unfolding loop_test
loop_test-work job = ground (arith, reconcile-work job)

start_task_by_id-Sends : (job : RebuildJob) (id : ℕ) → Sends job id (start_task_by_id job id)
unfolding start_task_by_id
start_task_by_id-Sends job id = elim (send_cases job id) [
  | inr (lt, e) ↦ inr (lt, rw (e, start_task_by_id) refl)
  | inl (_, e) ↦ inl (
      rw (e, start_task_by_id)
        (elim (Bool-cases (job.task_pool.active == 0)) [
          | inl z ↦ rw z (complete-work job)
          | inr z ↦ rw z refl
        ]))
]

Sends-work :
    (job : RebuildJob) (id : ℕ) (j k : RebuildJob)
    → work k ≡ work j
    → Sends job id j
    → Sends job id k
Sends-work job id j k e (inl h) = inl (e ∙ h)
Sends-work job id j k e (inr h) = inr (h.0, e ∙ h.1)

pub on_success-Sends :
    (job : RebuildJob) (id : ℕ) (p : Option RebuildState)
    → job.states.pending ≡ p
    → Sends job id (on_success job id).0
unfolding on_success
on_success-Sends job id none e =
    rw (e, on_success)
      (Sends-work job id (start_task_by_id job id) (loop_test (start_task_by_id job id)).0
        (loop_test-work (start_task_by_id job id)) (start_task_by_id-Sends job id))
on_success-Sends job id (some running) e =
    rw (e, on_success)
      (Sends-work job id (start_task_by_id job id) (loop_test (start_task_by_id job id)).0
        (loop_test-work (start_task_by_id job id)) (start_task_by_id-Sends job id))
on_success-Sends job id (some _) e = inl (rw (e, on_success) (drain_test-work on_pending job))

-- A result that reaches the future is counted, and one task at most is sent in its place.
pub received-Sends :
    (p : Phase) (job : RebuildJob) (i blk id : ℕ) (x : Option RebuildError)
    → p ≢ idle
    → p ≢ panicked
    → let r : TaskResult = record { blk = blk; id = id; error = x } in
      Sends
        (awaited job i r)
        id
        (receive_in p (record job { copies = take_copy job.copies i }) (some r)).0
unfolding receive_in awaited
received-Sends idle job i blk id x n m = absurd (n refl)
received-Sends panicked job i blk id x n m = absurd (m refl)
received-Sends looping job i blk id none n m =
    let r : TaskResult = record { blk = blk; id = id; error = none } in
    on_success-Sends (awaited job i r) id (awaited job i r).states.pending refl
received-Sends looping job i blk id (some x) n m =
    let r : TaskResult = record { blk = blk; id = id; error = some x } in
    inl (drain_test-work (on_error x) (fail (awaited job i r)) ∙ fail-work (awaited job i r))
received-Sends (draining d) job i blk id x n m =
    inl (drain_test-work d (awaited job i (record { blk = blk; id = id; error = x })))

-- Blocks that are exact stay so when a task is sent, or nothing is.
Sends-IsExact :
    (job : RebuildJob) (id : ℕ) (job' : RebuildJob) {c l : ℕ} (copied lost : List ℕ) (b : ℕ)
    → IsWork (work job) c l
    → Sends job id job'
    → IsExact (work job) copied lost b
    → IsExact (work job') copied lost b
Sends-IsExact job id job' copied lost b h (inl e) q =
    subst (λ (w : Work). IsExact w copied lost b) (sym e) q
Sends-IsExact job id job' copied lost b h (inr (lt, e)) q =
    subst (λ (w : Work). IsExact w copied lost b) (sym e) (sent-IsExact job id copied lost b h lt q)

-- A result counted moves a segment from the tasks in flight to those received.
awaited-IsExact_copied :
    (job : RebuildJob) (i : ℕ) (g : Segment) (copied lost : List ℕ) (b : ℕ)
    → get_elem? job.copies i ≡ some g
    → IsExact (work job) copied lost b
    → IsExact
        (work (awaited job i (record { blk = g.blk; id = g.id; error = none })))
        (g.blk ∷ copied)
        lost
        b
unfolding await_one_task awaited
awaited-IsExact_copied job i g copied lost b e q =
    omega (arith, q, hits-take_copy job.segment_size_blks job.range.end job.copies i b e)

awaited-IsExact_lost :
    (job : RebuildJob) (i : ℕ) (g : Segment) (x : RebuildError) (copied lost : List ℕ) (b : ℕ)
    → get_elem? job.copies i ≡ some g
    → IsExact (work job) copied lost b
    → IsExact
        (work (awaited job i (record { blk = g.blk; id = g.id; error = some x })))
        copied
        (g.blk ∷ lost)
        b
unfolding await_one_task awaited
awaited-IsExact_lost job i g x copied lost b e q =
    omega (arith, q, hits-take_copy job.segment_size_blks job.range.end job.copies i b e)

-- A future with a task in flight runs, and has not failed an assertion.
pub busy_phase :
    (p : Phase) (job : RebuildJob) (i : ℕ) {g : Segment} {c l : ℕ}
    → IsRun job p c l
    → get_elem? job.copies i ≡ some g
    → (p ≢ idle) × (p ≢ panicked)
busy_phase idle job i {g} h e =
    absurd (omega (arith, h.phased, awaited-active job i _ _ g.blk g.id h.copying e none))
busy_phase panicked job i h e = absurd h.phased
busy_phase looping job i h e = (λ q. cc, λ q. cc)
busy_phase (draining d) job i h e = (λ q. cc, λ q. cc)

abbrev pub IsExactRun : Run → ℕ → Type 0
IsExactRun s b = IsExact (work s.job) s.copied s.lost b

finish-IsExact :
    (s : Run) (i : ℕ) (x : Option RebuildError) (g : Segment) (b : ℕ)
    → IsRun s.job s.phase (length s.copied) (length s.lost)
    → get_elem? s.job.copies i ≡ some g
    → IsExactRun s b
    → IsExactRun (finish s i g x) b
unfolding finish
finish-IsExact s i none g b h e q =
    let (n, m) = busy_phase s.phase s.job i h e in
    let r : TaskResult = record { blk = g.blk; id = g.id; error = none } in
    Sends-IsExact (awaited s.job i r) g.id (finish s i g none).job (g.blk ∷ s.copied) s.lost b
      (awaited-IsWork_copied s.job i _ _ g.blk g.id h.copying e)
      (received-Sends s.phase s.job i g.blk g.id none n m)
      (awaited-IsExact_copied s.job i g s.copied s.lost b e q)
finish-IsExact s i (some x) g b h e q =
    let (n, m) = busy_phase s.phase s.job i h e in
    let r : TaskResult = record { blk = g.blk; id = g.id; error = some x } in
    Sends-IsExact (awaited s.job i r) g.id (finish s i g (some x)).job s.copied (g.blk ∷ s.lost) b
      (awaited-IsWork_lost s.job i _ _ g.blk g.id h.copying e x)
      (received-Sends s.phase s.job i g.blk g.id (some x) n m)
      (awaited-IsExact_lost s.job i g x s.copied s.lost b e q)

pub call-work : (k : Call) (job : RebuildJob) → work (call k job) ≡ work job
unfolding call
call-work starts job = elim (start_cases job) [
  | inl e ↦ rw e (exec_op-work job RebuildOperation.start false)
  | inr e ↦ rw e (exec_op-work job RebuildOperation.start false)
]
call-work stops job = exec_op-work job RebuildOperation.stop false
call-work pauses job = exec_op-work job RebuildOperation.pause false
call-work resumes job = exec_op-work job RebuildOperation.resume false
call-work terminates job = exec_op-work job RebuildOperation.stop true

run-IsExact :
    (job : RebuildJob) {c l : ℕ} (copied lost : List ℕ) (b : ℕ)
    → IsWork (work job) c l
    → job.task_pool.active ≡ 0
    → IsExact (work job) copied lost b
    → IsExact (work (run job).0) copied lost b
run-IsExact job copied lost b h a q =
    let rounds = job.task_pool.total in
    let e = ap (λ (r : RebuildJob × Phase). work r.0) (run-eq job a) in
    subst (λ (w : Work). IsExact w copied lost b)
      (sym (e ∙ loop_test-work (start_tasks rounds 0 job)))
      (start_tasks-IsExact rounds 0 job copied lost b h (omega (arith, h.total)) q)

wake-IsExact :
    (p : Phase) (job : RebuildJob) {c l : ℕ} (copied lost : List ℕ) (b : ℕ)
    → IsRun job p c l
    → IsExact (work job) copied lost b
    → IsExact (work (wake p job).0) copied lost b
wake-IsExact p job copied lost b h q = elim (wake_cases p job) [
  | inl (_, e) ↦ rw e q
  | inr (w, e) ↦
      let e' = reconcile-work (woken job) in
      rw e (
        run-IsExact (reconcile (woken job)) copied lost b (IsWork-eq e' h.copying)
          (active-eq e' ∙ idle_when_waiting p job h w)
          (subst (λ (w : Work). IsExact w copied lost b) (sym e') q))
]

step-IsExact :
    (s : Run) (e : Event) (b : ℕ)
    → IsRun s.job s.phase (length s.copied) (length s.lost)
    → IsExactRun s b
    → IsExactRun (step s e) b
unfolding step
step-IsExact s (calls k) b h q =
    subst (λ (w : Work). IsExact w s.copied s.lost b) (sym (call-work k s.job)) q
step-IsExact s wakes b h q = elim (Bool-cases (s.job.scheduled == 0)) [
  | inl e ↦ rw e q
  | inr e ↦ rw e (wake-IsExact s.phase s.job s.copied s.lost b h q)
]
step-IsExact s (finishes i x) b h q = elim (Option-cases (get_elem? s.job.copies i)) [
  | inl e ↦ rw (e, step) q
  | inr (g, e) ↦ rw (e, step) (finish-IsExact s i x g b h e q)
]

pub steps-IsExact :
    (s : Run) (es : List Event) (b : ℕ)
    → IsRun s.job s.phase (length s.copied) (length s.lost)
    → IsExactRun s b
    → IsExactRun (steps s es) b
unfolding steps
steps-IsExact s [] b h q = q
steps-IsExact s (e ∷ es) b h q =
    steps-IsExact (step s e) es b (step-IsRun s e h) (step-IsExact s e b h q)
