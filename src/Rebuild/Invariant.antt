-- ===== src/Rebuild/Invariant.antt =====
-- What holds of a job and of its management future at every moment (`run`, `await_all_tasks`,
-- `schedule` and the operations of rebuild_impl.rs).
use co_create_openebs.Prelude.{
  ℕ, ◌<◌, ◌≡◌, refl, ap, sym, ◌∙◌, ◌≢◌, ◌⊎◌, inl, inr, none, some, arith, ◌==◌, Bool-cases,
}
use co_create_openebs.Rebuild.State.{RebuildState, init, running, completed}
use co_create_openebs.Rebuild.Job.{RebuildJob, state, reconcile}
use co_create_openebs.Rebuild.Run.{
  Phase, idle, looping, draining, panicked, Drain, on_pending, on_error, after_drain, loop_test,
  drain_test,
}
use co_create_openebs.Rebuild.Pending.{IsSettled, reconcile-IsSettled}
use co_create_openebs.Rebuild.Work.{Work, work, IsWork, reconcile-work}

abbrev pub IsPhase : Phase → RebuildJob → Type 0
IsPhase idle job = job.task_pool.active ≡ 0
IsPhase looping job = (state job ≡ running) × (0 < job.task_pool.active)
IsPhase (draining d) job =
    (state job ≡ running) × (0 < job.task_pool.active) × (job.states.pending ≢ none)
IsPhase panicked job = ⊥

pub record IsRun (job : RebuildJob) (phase : Phase) (copied lost : ℕ) : Type 0 where
  pub copying : IsWork (work job) copied lost
  pub states : IsSettled job.states
  pub phased : IsPhase phase job
  pub finished : state job ≡ completed → job.next ≡ job.range.end
  pub resting : state job ≡ completed → phase ≡ idle

-- Where the loop of `run` tests its condition.
pub record IsLooped (job : RebuildJob) (copied lost : ℕ) : Type 0 where
  pub copying : IsWork (work job) copied lost
  pub current : state job ≡ running
  pub fresh : job.states.pending ≢ some running
  pub not_init : job.states.pending ≢ some init
  pub complete : job.states.pending ≡ some completed → job.task_pool.active ≡ 0
  pub finished : job.states.pending ≡ some completed → job.next ≡ job.range.end

-- Equal copying sides have equal parts.
module _ {w w' : Work} (e : w ≡ w') where
  pub active-eq : w.task_pool.active ≡ w'.task_pool.active
  active-eq = ap (λ (v : Work). v.task_pool.active) e

  pub next-eq : w.next ≡ w'.next
  next-eq = ap (λ (v : Work). v.next) e

  pub end-eq : w.range.end ≡ w'.range.end
  end-eq = ap (λ (v : Work). v.range.end) e

  pub IsWork-eq : {c l : ℕ} → IsWork w' c l → IsWork w c l
  IsWork-eq h = rw e h

pub state-reconcile :
    (job : RebuildJob) {s : RebuildState}
    → state (reconcile job) ≡ s
    → (job.states.pending ≡ some s) ⊎ ((job.states.pending ≡ none) × (state job ≡ s))
unfolding reconcile
state-reconcile job h = ground arith

pub reconcile-IsRun :
    (job : RebuildJob) (c l : ℕ)
    → IsWork (work job) c l
    → job.task_pool.active ≡ 0
    → job.states.pending ≢ some init
    → (state (reconcile job) ≡ completed → job.next ≡ job.range.end)
    → IsRun (reconcile job) idle c l
reconcile-IsRun job c l h a i f = record {
  copying = IsWork-eq (reconcile-work job) h;
  states = reconcile-IsSettled job i;
  phased = active-eq (reconcile-work job) ∙ a;
  finished = λ e. next-eq (reconcile-work job) ∙ f e ∙ sym (end-eq (reconcile-work job));
  resting = λ e. refl;
}

pub loop_test-IsRun :
    (job : RebuildJob) (c l : ℕ) → IsLooped job c l → IsRun (loop_test job).0 (loop_test job).1 c l
unfolding loop_test
loop_test-IsRun job c l h = elim (Bool-cases (job.task_pool.active == 0)) [
  | inl e ↦ rw e (
      reconcile-IsRun job c l h.copying (ground arith) h.not_init
        (λ q. ground (arith, state-reconcile job {s = completed} q)))
  | inr e ↦ rw e (record {
    copying = h.copying;
    states = ground arith;
    phased = (h.current, ground arith);
    finished = ground arith;
    resting = ground arith;
  })
]

pub after_drain-IsRun :
    (d : Drain) (job : RebuildJob) (c l : ℕ)
    → IsWork (work job) c l
    → IsSettled job.states
    → job.task_pool.active ≡ 0
    → job.states.pending ≢ none
    → IsRun (after_drain d job) idle c l
unfolding after_drain
after_drain-IsRun on_pending job c l h s a p =
    reconcile-IsRun job c l h a s.not_init
      (λ q. ground (arith, state-reconcile job {s = completed} q, s.not_completed))
after_drain-IsRun (on_error x) job c l h s a p =
    let job' = record job { error = some x } in
    reconcile-IsRun job' c l h a s.not_init
      (λ q. ground (arith, state-reconcile job' {s = completed} q, s.not_completed))

pub drain_test-IsRun :
    (d : Drain) (job : RebuildJob) (c l : ℕ)
    → IsWork (work job) c l
    → IsSettled job.states
    → state job ≡ running
    → job.states.pending ≢ none
    → IsRun (drain_test d job).0 (drain_test d job).1 c l
unfolding drain_test
drain_test-IsRun d job c l h s r p = elim (Bool-cases (job.task_pool.active == 0)) [
  | inl e ↦ rw e (after_drain-IsRun d job c l h s (ground arith) p)
  | inr e ↦ rw e (record {
    copying = h;
    states = s;
    phased = (r, ground arith, p);
    finished = ground arith;
    resting = ground arith;
  })
]
