-- ===== src/Rebuild/Liveness.antt =====
-- A running job comes to an end: with the completed state when its copy tasks succeed
-- (`run`, `start_task_by_id` of rebuild_impl.rs).
use co_create_openebs.Rebuild.Outcome.{steps_done}
use co_create_openebs.Rebuild.Steps.{step-IsRun}
use co_create_openebs.Rebuild.Messages.{complete-work, complete-states}
use co_create_openebs.Rebuild.Invariant.{IsRun, active-eq, IsPhase}
use co_create_openebs.Rebuild.Tasks.{start_task_by_id, await_one_task}
use co_create_openebs.Rebuild.Work.{
  IsWork, work, send_cases, sent, add_u64-eq, awaited, awaited-states, awaited-active,
  awaited-IsWork_copied, awaited-next,
}
use co_create_openebs.Rebuild.State.{running, completed, RebuildError, RebuildStates, set_pending}
use co_create_openebs.Rebuild.Job.{
  reconcile, RebuildJob, state, segment_tasks, Segment, TaskResult, Range, reconcile_to_state,
  schedule,
}
use co_create_openebs.Prelude.{
  refl, ◌≡◌, ◌+◌, ◌-◌, ◌<◌, ◌≤◌, [], ◌∷◌, ℕ, some, ◌==◌, ◌⊎◌, true, false, arith, none, inr, inl,
  Bool-cases, ap, length, get_elem?, ◌∙◌, suc, List, Option, zero,
}
use co_create_openebs.Rebuild.Ops.{
  complete, resume, start, exec_client_op, exec_op, exec_op_in, pend,
}
use co_create_openebs.Rebuild.Run.{
  Run, Phase, idle, looping, draining, panicked, loop_test, on_success, finish, steps, finishes,
  step, receive_in, take_copy, wake, call, Event, calls, wakes, starts, resumes, stops, pauses,
  terminates,
}

-- A bound on the results that a job still has to receive.
abbrev pub left : RebuildJob → ℕ
left job = (job.range.end - job.next) + job.task_pool.active

loop_test_busy : (job : RebuildJob) → 0 < job.task_pool.active → loop_test job ≡ (job, looping)
unfolding loop_test
loop_test_busy job a = let e : (job.task_pool.active == 0) ≡ false = ground arith in rw e

loop_test_done :
    (job : RebuildJob) → job.task_pool.active ≡ 0 → loop_test job ≡ (reconcile job, idle)
unfolding loop_test
loop_test_done job a = let e : (job.task_pool.active == 0) ≡ true = ground arith in rw e

reconcile_completed :
    (job : RebuildJob) → job.states.pending ≡ some completed → state (reconcile job) ≡ completed
unfolding reconcile
reconcile_completed job p = ground arith

-- After a result without an error the future awaits the next, with no more left than `bound`, or
-- the job is complete.
abbrev pub Progress : ℕ → RebuildJob × Phase → Type 0
Progress bound m =
    ((m.1 ≡ looping) × (m.0.states.pending ≡ none) × (left m.0 ≤ bound)) ⊎ (state m.0 ≡ completed)

busy-Progress :
    (job : RebuildJob) (bound : ℕ)
    → 0 < job.task_pool.active
    → job.states.pending ≡ none
    → left job ≤ bound
    → Progress bound (loop_test job)
busy-Progress job bound a p b = rw (loop_test_busy job a) (inl (refl, p, b))

completing-Progress :
    (job : RebuildJob) (bound : ℕ)
    → job.task_pool.active ≡ 0
    → state job ≡ running
    → Progress bound (loop_test (complete job))
completing-Progress job bound a r = inr (
    ap (λ (t : RebuildJob × Phase). state t.0)
      (loop_test_done (complete job) (active-eq (complete-work job) ∙ a))
    ∙ reconcile_completed (complete job) (ground (arith, complete-states job r)))

started-Progress :
    (job : RebuildJob) (id : ℕ) {c l : ℕ}
    → IsWork (work job) c l
    → state job ≡ running
    → job.states.pending ≡ none
    → job.task_pool.active < segment_tasks
    → Progress (left job) (loop_test (start_task_by_id job id))
unfolding start_task_by_id
started-Progress job id h r p a = elim (send_cases job id) [
  | inr (lt, e) ↦
      rw (e, start_task_by_id)
        (busy-Progress (sent job id) (left job)
          (omega (arith, add_u64-eq job.task_pool.active 1 (omega arith))) p
          (omega (
            arith,
            add_u64-eq job.task_pool.active 1 (omega arith),
            add_u64-eq job.next job.segment_size_blks (omega arith),
          )))
  | inl (_, e) ↦ elim (Bool-cases (job.task_pool.active == 0)) [
    | inr z ↦
        rw (e, z, start_task_by_id) (busy-Progress job (left job) (ground arith) p (omega arith))
    | inl z ↦ rw (e, z, start_task_by_id) (completing-Progress job (left job) (ground arith) r)
  ]
]

on_success-eq :
    (job : RebuildJob) (id : ℕ)
    → job.states.pending ≡ none
    → on_success job id ≡ loop_test (start_task_by_id job id)
unfolding on_success
on_success-eq job id p = ground arith

looping_current :
    (job : RebuildJob) (p : Phase)
    → p ≡ looping
    → IsPhase p job
    → (state job ≡ running) × (0 < job.task_pool.active)
looping_current job looping q h = h
looping_current job idle q h = cc
looping_current job panicked q h = cc
looping_current job (draining _) q h = cc

-- A task in flight ends without an error.
finish-Progress :
    (s : Run) (i : ℕ) (g : Segment)
    → IsRun s.job s.phase (length s.copied) (length s.lost)
    → s.phase ≡ looping
    → s.job.states.pending ≡ none
    → get_elem? s.job.copies i ≡ some g
    → let t = finish s i g none in
      ((t.phase ≡ looping) × (t.job.states.pending ≡ none) × (left t.job < left s.job))
      ⊎ (state t.job ≡ completed)
unfolding finish await_one_task awaited
finish-Progress s i g h q p e = elim (on_result s.phase q) [
  | inl m ↦ inl (m.0, m.1, omega (arith, m.2, left_awaited))
  | inr m ↦ inr m
]
  where
    r : TaskResult
    r = record { blk = g.blk; id = g.id; error = none }

    job' : RebuildJob
    job' = awaited s.job i r

    left_awaited : left job' < left s.job
    left_awaited = omega (
      arith,
      awaited-active s.job i _ _ g.blk g.id h.copying e none,
      (awaited-next s.job i r).0,
      ap (λ (v : Range). v.end) (awaited-next s.job i r).1,
    )

    progress : Progress (left job') (on_success job' g.id)
    progress =
        let w = awaited-states s.job i r in
        let pending : job'.states.pending ≡ none = rw w p in
        rw (on_success-eq job' g.id pending) (
          started-Progress job' g.id (awaited-IsWork_copied s.job i _ _ g.blk g.id h.copying e)
            (rw (w, state) (looping_current s.job s.phase q h.phased).0) pending
            (omega
              (arith, awaited-active s.job i _ _ g.blk g.id h.copying e none, h.copying.parallel)))

    on_result :
        (p' : Phase)
        → p' ≡ looping
        → Progress
            (left job')
            (receive_in p' (record (s.job) { copies = take_copy s.job.copies i }) (some r))
    on_result looping q' = progress
    on_result idle q' = cc
    on_result panicked q' = cc
    on_result (draining _) q' = cc

copy_at : (ss : List Segment) (i : ℕ) → i < length ss → (g : Segment) × (get_elem? ss i ≡ some g)
copy_at [] i h = elim h [ ]
copy_at (s ∷ ss) zero h = (s, refl)
copy_at (s ∷ ss) (suc i) h = copy_at ss i (omega (arith, h))

pub first_copy : (ss : List Segment) → 0 < length ss → (g : Segment) × (get_elem? ss 0 ≡ some g)
first_copy ss h = copy_at ss 0 h

step_at :
    (s : Run) (i : ℕ) (g : Segment) (x : Option RebuildError)
    → get_elem? s.job.copies i ≡ some g
    → step s (finishes i x) ≡ finish s i g x
unfolding step
step_at s i g x e = rw (e, step)

pub step_first :
    (s : Run) (g : Segment) (x : Option RebuildError)
    → get_elem? s.job.copies 0 ≡ some g
    → step s (finishes 0 x) ≡ finish s 0 g x
step_first s g x e = step_at s 0 g x e

-- What a call or a scheduled future may not change.
abbrev pub IsSame : Run → Run → Type 0
IsSame s t = (t.phase ≡ looping) × (t.job.states.pending ≡ none) × (left t.job ≤ left s.job)

wake-IsSame :
    (s : Run)
    → s.phase ≡ looping
    → state s.job ≡ running
    → s.job.states.pending ≡ none
    → IsSame s (step s wakes)
unfolding step wake reconcile_to_state reconcile
wake-IsSame s q r p = ground (arith, q)

start-IsSame :
    (s : Run)
    → s.phase ≡ looping
    → state s.job ≡ running
    → s.job.states.pending ≡ none
    → IsSame s (step s (calls starts))
unfolding step call start exec_client_op exec_op exec_op_in pend set_pending schedule
start-IsSame s q r p = ground (arith, q)

resume-IsSame :
    (s : Run)
    → s.phase ≡ looping
    → state s.job ≡ running
    → s.job.states.pending ≡ none
    → IsSame s (step s (calls resumes))
unfolding step call resume exec_client_op exec_op exec_op_in pend set_pending schedule
resume-IsSame s q r p = ground (arith, q)

-- A schedule of a run in which copy tasks end without an error, in any order: each end is one of a
-- task in flight, for as long as there is one. In between the job may be started and resumed
-- again, and its scheduled futures run.
abbrev pub EndsInFlight : Run → List Event → Type 0
EndsInFlight s [] = Unit
EndsInFlight s (finishes i none ∷ es) =
    ((i < length s.job.copies) ⊎ (s.job.copies ≡ [])) × EndsInFlight (step s (finishes i none)) es
EndsInFlight s (wakes ∷ es) = EndsInFlight (step s wakes) es
EndsInFlight s (calls starts ∷ es) = EndsInFlight (step s (calls starts)) es
EndsInFlight s (calls resumes ∷ es) = EndsInFlight (step s (calls resumes)) es
EndsInFlight s (_ ∷ es) = ⊥

-- How many tasks end in a schedule.
abbrev pub ends : List Event → ℕ
ends [] = 0
ends (finishes i x ∷ es) = suc (ends es)
ends (_ ∷ es) = ends es

some_copy :
    (ss : List Segment) (i : ℕ)
    → 0 < length ss
    → (i < length ss) ⊎ (ss ≡ [])
    → (g : Segment) × (get_elem? ss i ≡ some g)
some_copy ss i b (inl h) = copy_at ss i h
some_copy ss i b (inr e) = absurd (omega (arith, ap length e))

-- A job that awaits results, with nothing pending, is completed by any schedule in which its copy
-- tasks end without an error, once enough have ended; as many as it has blocks to send and tasks in
-- flight are enough. The tasks end in any order, and the job may be started and resumed again, and
-- its scheduled futures run, in between.
pub success_completes :
    (es : List Event) (s : Run)
    → IsRun s.job s.phase (length s.copied) (length s.lost)
    → s.phase ≡ looping
    → s.job.states.pending ≡ none
    → EndsInFlight s es
    → left s.job ≤ ends es
    → state (steps s es).job ≡ completed
unfolding steps
success_completes [] s h q p w b = absurd (omega (arith, looping_current s.job s.phase q h.phased))
success_completes (finishes i none ∷ es) s h q p w b =
    let busy = (looping_current s.job s.phase q h.phased).1 in
    let (g, e) = some_copy s.job.copies i (omega (arith, busy, h.copying.in_flight)) w.0 in
    let h' = step-IsRun s (finishes i none) h in
    let t = step_at s i g none e in
    elim (finish-Progress s i g h q p e) [
      | inl m ↦
          success_completes es (step s (finishes i none)) h' (rw t m.0) (rw t m.1) w.1
            (rw t (omega (arith, m.2, b)))
      | inr m ↦
          ap (λ (v : RebuildStates). v.current)
            (steps_done (step s (finishes i none)) es h' (rw (t, state) (ground (arith, m))))
          ∙ rw (t, state) m
    ]
success_completes (wakes ∷ es) s h q p w b =
    let r = (looping_current s.job s.phase q h.phased).0 in
    let m = wake-IsSame s q r p in
    success_completes es (step s wakes) (step-IsRun s wakes h) m.0 m.1 w (omega (arith, m.2, b))
success_completes (calls starts ∷ es) s h q p w b =
    let r = (looping_current s.job s.phase q h.phased).0 in
    let m = start-IsSame s q r p in
    success_completes es (step s (calls starts)) (step-IsRun s (calls starts) h) m.0 m.1 w
      (omega (arith, m.2, b))
success_completes (calls resumes ∷ es) s h q p w b =
    let r = (looping_current s.job s.phase q h.phased).0 in
    let m = resume-IsSame s q r p in
    success_completes es (step s (calls resumes)) (step-IsRun s (calls resumes) h) m.0 m.1 w
      (omega (arith, m.2, b))
success_completes (finishes i (some x) ∷ es) s h q p w b = absurd w
success_completes (calls stops ∷ es) s h q p w b = absurd w
success_completes (calls pauses ∷ es) s h q p w b = absurd w
success_completes (calls terminates ∷ es) s h q p w b = absurd w
