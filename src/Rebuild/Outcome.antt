-- ===== src/Rebuild/Outcome.antt =====
-- Final states, forced termination, and a job that can no longer leave its running state
-- (rebuild_impl.rs).
use co_create_openebs.Rebuild.Pending.{IsSettled}
use co_create_openebs.Rebuild.Steps.{start_cases, woken, wake_cases, step-IsRun}
use co_create_openebs.Rebuild.Invariant.{IsRun}
use co_create_openebs.Rebuild.State.{done, RebuildOperation, running, RebuildStates, stopped}
use co_create_openebs.Rebuild.Job.{Segment, RebuildJob, state}
use co_create_openebs.Rebuild.Ops.{exec_op, terminate}
use co_create_openebs.Prelude.{
  refl, ◌≡◌, [], ◌∷◌, List, none, ℕ, length, Bool, ◌≢◌, get_elem?, true, arith, some, inl, ap, ◌⊎◌,
  false, inr, Bool-cases, ◌==◌,
}
use co_create_openebs.Rebuild.Run.{
  Run, Phase, idle, looping, draining, panicked, step, call, Event, Call, calls, starts, stops,
  pauses, finishes, resumes, terminates, wakes, steps,
}

exec_op_done :
    (job : RebuildJob) (op : RebuildOperation) (o : Bool)
    → done (state job) ≡ true
    → (exec_op job op o).0 ≡ job
unfolding exec_op
exec_op_done job RebuildOperation.start o d = ground arith
exec_op_done job RebuildOperation.stop o d = ground arith
exec_op_done job _ o d = ground arith

call_done :
    (k : Call) (job : RebuildJob) → done (state job) ≡ true → (call k job).states ≡ job.states
unfolding call
call_done starts job d = elim (start_cases job) [
  | inl e ↦
      rw e (ap (λ (j : RebuildJob). j.states) (exec_op_done job RebuildOperation.start false d))
  | inr e ↦
      rw e (ap (λ (j : RebuildJob). j.states) (exec_op_done job RebuildOperation.start false d))
]
call_done stops job d =
    ap (λ (j : RebuildJob). j.states) (exec_op_done job RebuildOperation.stop false d)
call_done pauses job d =
    ap (λ (j : RebuildJob). j.states) (exec_op_done job RebuildOperation.pause false d)
call_done resumes job d =
    ap (λ (j : RebuildJob). j.states) (exec_op_done job RebuildOperation.resume false d)
call_done terminates job d =
    ap (λ (j : RebuildJob). j.states) (exec_op_done job RebuildOperation.stop true d)

-- With no task active no result can arrive.
nothing_in_flight : (ss : List Segment) (i : ℕ) → length ss ≡ 0 → get_elem? ss i ≡ none
nothing_in_flight [] i e = refl
nothing_in_flight (s ∷ ss) i e = absurd (omega arith)

pub idle_copies :
    (job : RebuildJob) (p : Phase) {c l : ℕ} → IsRun job p c l → p ≡ idle → length job.copies ≡ 0
idle_copies job idle h e = omega (arith, h.phased, h.copying.in_flight)
idle_copies job _ h e = cc

done_idle :
    (job : RebuildJob) (p : Phase) {c l : ℕ} → IsRun job p c l → done (state job) ≡ true → p ≡ idle
done_idle job idle h d = refl
done_idle job looping h d = ground (arith, h.phased.0)
done_idle job (draining _) h d = ground (arith, h.phased.0)
done_idle job panicked h d = absurd h.phased

-- An idle future for which nothing waits stays idle.
pub idle_step :
    (s : Run) (e : Event)
    → IsRun s.job s.phase (length s.copied) (length s.lost)
    → s.phase ≡ idle
    → s.job.states.pending ≢ some running
    → ((k : Call) × (step s e ≡ record s { job = call k s.job }))
      ⊎ (step s e ≡ s)
      ⊎ (step s e ≡ record s { job = woken s.job })
unfolding step
idle_step s (calls k) h i n = inl (k, refl)
idle_step s wakes h i n = elim (Bool-cases (s.job.scheduled == 0)) [
  | inl e ↦ inr (inl (rw e refl))
  | inr e ↦ elim (wake_cases s.phase s.job) [
    | inl (_, w) ↦ inr (inr (rw (e, w) refl))
    | inr (w, _) ↦ absurd (n w)
  ]
]
idle_step s (finishes i x) h p n =
    inr (inl (rw (nothing_in_flight s.job.copies i (idle_copies s.job s.phase h p), step) refl))

step_done :
    (s : Run) (e : Event)
    → IsRun s.job s.phase (length s.copied) (length s.lost)
    → done (state s.job) ≡ true
    → (step s e).job.states ≡ s.job.states
step_done s e h d =
    elim (idle_step s e h (done_idle s.job s.phase h d) (λ w. ground (arith, h.states.final))) [
      | inl (k, q) ↦ rw q (call_done k s.job d)
      | inr (inl q) ↦ rw q refl
      | inr (inr q) ↦ rw q refl
    ]

-- A job that is stopped, failed or completed stays so, with nothing pending, whatever happens.
pub steps_done :
    (s : Run) (es : List Event)
    → IsRun s.job s.phase (length s.copied) (length s.lost)
    → done (state s.job) ≡ true
    → (steps s es).job.states ≡ record { current = state s.job; pending = none }
unfolding steps
steps_done s [] h d = ground (arith, h.states.final)
steps_done s (e ∷ es) h d =
    let q = step_done s e h d in
    let c = ap (λ (v : RebuildStates). v.current) q in
    rw c at (steps_done (step s e) es (step-IsRun s e h) (rw c d))

-- A forced termination takes effect in every state but the final ones: a new or paused job stops
-- at once, and a running one has its stop pending, whatever was pending before.
pub terminate_overrides :
    (job : RebuildJob)
    → IsSettled job.states
    → ((done (state job) ≡ true) × ((terminate job).states ≡ job.states))
      ⊎ ((state job ≡ running)
          × ((terminate job).states ≡ record { current = running; pending = some stopped }))
      ⊎ ((done (state job) ≡ false)
          × (state job ≢ running)
          × ((terminate job).states ≡ record { current = stopped; pending = none }))
unfolding terminate
terminate_overrides job h = ground arith
