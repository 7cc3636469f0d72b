-- ===== src/Rebuild/Drain.antt =====
-- How a run ends once it awaits all of its tasks (`await_all_tasks`, and the arms of `run` that
-- call it, in rebuild_impl.rs).
use co_create_openebs.Rebuild.Steps.{step-IsRun}
use mathlib.Core.Path.{subst}
use co_create_openebs.Rebuild.Liveness.{first_copy, step_first}
use co_create_openebs.Rebuild.Tasks.{await_one_task}
use co_create_openebs.Rebuild.Invariant.{IsRun, IsPhase}
use co_create_openebs.Rebuild.State.{RebuildState, RebuildError, RebuildStates}
use co_create_openebs.Rebuild.Work.{awaited, IsWork, work, awaited-active}
use co_create_openebs.Rebuild.Job.{Segment, RebuildJob, state}
use co_create_openebs.Prelude.{
  refl, ◌≡◌, ◌+◌, ◌<◌, [], ◌∷◌, Option, List, ◌⊎◌, some, Bool-cases, ◌==◌, arith, length, inl, map,
  inr, ℕ, ap, get_elem?, ◌∙◌, nil_of_length,
}
use co_create_openebs.Rebuild.Run.{
  Run, Phase, idle, looping, draining, panicked, finish, Drain, drain_test, steps, after_drain,
  on_error, receive_in, on_pending, finishes, step,
}

-- The error that the job keeps.
abbrev pub drain_error : Drain → Option RebuildError → Option RebuildError
drain_error on_pending e = e
drain_error (on_error x) e = some x

-- The outcome of a run that is drained: the pending state, and that error.
abbrev pub Drained : Drain → RebuildState → Option RebuildError → Run → Type 0
Drained d p e t = (state t.job ≡ p) × (t.phase ≡ idle) × (t.job.error ≡ drain_error d e)

after_drain-state :
    (d : Drain) (job : RebuildJob) {p : RebuildState}
    → job.states.pending ≡ some p
    → (state (after_drain d job) ≡ p) × ((after_drain d job).error ≡ drain_error d job.error)
unfolding after_drain
after_drain-state on_pending job w = ground arith
after_drain-state (on_error x) job w = ground arith

drain_test-eq :
    (d : Drain) (job : RebuildJob)
    → ((job.task_pool.active ≡ 0) × (drain_test d job ≡ (after_drain d job, idle)))
      ⊎ ((0 < job.task_pool.active) × (drain_test d job ≡ (job, draining d)))
unfolding drain_test
drain_test-eq d job = elim (Bool-cases (job.task_pool.active == 0)) [
  | inl z ↦ inl (ground arith, rw z)
  | inr z ↦ inr (ground arith, rw z)
]

-- The result of the first task in flight, while the run is drained.
drained_result : Run → Segment → Option RebuildError → RebuildJob
drained_result s g x = awaited s.job 0 (record { blk = g.blk; id = g.id; error = x })

finish-drain :
    (s : Run) (d : Drain) (g : Segment) (x : Option RebuildError)
    → s.phase ≡ draining d
    → ((finish s 0 g x).job ≡ (drain_test d (drained_result s g x)).0)
      × ((finish s 0 g x).phase ≡ (drain_test d (drained_result s g x)).1)
unfolding finish drained_result awaited
finish-drain s d g x q = (rw (q, receive_in) refl, rw (q, receive_in) refl)

drained_result-parts :
    (s : Run) (g : Segment) (x : Option RebuildError)
    → ((drained_result s g x).states ≡ s.job.states) × ((drained_result s g x).error ≡ s.job.error)
unfolding drained_result awaited await_one_task
drained_result-parts s g x = (refl, refl)

drained_result-active :
    (s : Run) (g : Segment) (x : Option RebuildError) {c l : ℕ}
    → IsWork (work s.job) c l
    → get_elem? s.job.copies 0 ≡ some g
    → (drained_result s g x).task_pool.active + 1 ≡ s.job.task_pool.active
unfolding drained_result
drained_result-active s g x h e = awaited-active s.job 0 _ _ g.blk g.id h e x

draining_busy :
    (job : RebuildJob) (p : Phase) (d : Drain)
    → p ≡ draining d
    → IsPhase p job
    → 0 < job.task_pool.active
draining_busy job (draining _) d q h = h.1
draining_busy job looping d q h = cc
draining_busy job idle d q h = cc
draining_busy job panicked d q h = cc

-- Once a run is drained, only the pending state and the reason count: whether the tasks still in
-- flight copy their segments or fail, the job ends in the same state and with the same error.
pub drain_ignores_results :
    (xs : List (Option RebuildError)) (s : Run) (d : Drain) (p : RebuildState)
    → IsRun s.job s.phase (length s.copied) (length s.lost)
    → s.phase ≡ draining d
    → s.job.states.pending ≡ some p
    → length xs ≡ s.job.task_pool.active
    → Drained d p s.job.error (steps s (map (finishes 0) xs))
unfolding steps
drain_ignores_results [] s d p h q w n =
    absurd (omega (arith, draining_busy s.job s.phase d q h.phased))
drain_ignores_results (x ∷ xs) s d p h q w n =
    let busy = draining_busy s.job s.phase d q h.phased in
    let (g, e) = first_copy s.job.copies (omega (arith, busy, h.copying.in_flight)) in
    let t = step_first s g x e in
    let job' = drained_result s g x in
    let (j, f) = finish-drain s d g x q in
    let (st, er) = drained_result-parts s g x in
    let pending : job'.states.pending ≡ some p = ap (λ (v : RebuildStates). v.pending) st ∙ w in
    let a = drained_result-active s g x h.copying e in
    elim (drain_test-eq d job') [
      | inl (z, r) ↦
          let t_job : (step s (finishes 0 x)).job ≡ after_drain d job' =
            ap (λ (v : Run). v.job) t ∙ j ∙ ap (λ (v : RebuildJob × Phase). v.0) r in
          let t_phase : (step s (finishes 0 x)).phase ≡ idle =
            ap (λ (v : Run). v.phase) t ∙ f ∙ ap (λ (v : RebuildJob × Phase). v.1) r in
          let (p', e') = after_drain-state d job' pending in
          let none_left : xs ≡ [] = nil_of_length xs (omega arith) in
          rw none_left (
            ap (λ (v : RebuildJob). state v) t_job ∙ p',
            t_phase,
            ap (λ (v : RebuildJob). v.error) t_job ∙ e' ∙ ap (drain_error d) er,
          )
      | inr (z, r) ↦
          let t_job : (step s (finishes 0 x)).job ≡ job' =
            ap (λ (v : Run). v.job) t ∙ j ∙ ap (λ (v : RebuildJob × Phase). v.0) r in
          let t_phase : (step s (finishes 0 x)).phase ≡ draining d =
            ap (λ (v : Run). v.phase) t ∙ f ∙ ap (λ (v : RebuildJob × Phase). v.1) r in
          subst
            (λ (o : Option RebuildError).
              Drained d p o (steps (step s (finishes 0 x)) (map (finishes 0) xs)))
            (ap (λ (v : RebuildJob). v.error) t_job ∙ er)
            (drain_ignores_results xs (step s (finishes 0 x)) d p (step-IsRun s (finishes 0 x) h)
              t_phase (ap (λ (v : RebuildJob). v.states.pending) t_job ∙ pending)
              (omega (arith, ap (λ (v : RebuildJob). v.task_pool.active) t_job)))
    ]
