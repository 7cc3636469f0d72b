-- ===== src/Rebuild/Frame.antt =====
-- The range of a job and its segment size stay what `new` made them (rebuild_impl.rs).
use mathlib.Core.Path.{subst}
use co_create_openebs.Rebuild.Coverage.{IsExact, hits, blocks, inside}
use co_create_openebs.Rebuild.Delivery.{call-work, busy_phase, received-Sends, loop_test-work}
use co_create_openebs.Rebuild.Steps.{wake_cases, step-IsRun, woken, idle_when_waiting, run-eq}
use co_create_openebs.Rebuild.State.{RebuildError}
use co_create_openebs.Rebuild.Invariant.{IsRun, active-eq}
use co_create_openebs.Rebuild.Tasks.{start_tasks, await_one_task}
use co_create_openebs.Rebuild.Work.{Work, work, send_cases, sent, reconcile-work, awaited}
use co_create_openebs.Rebuild.Job.{Range, RebuildJob, Segment, reconcile}
use co_create_openebs.Prelude.{
  refl, ◌≡◌, ◌+◌, [], ◌∷◌, List, ap, ℕ, Option, suc, length, get_elem?, inl, ◌∙◌, some, inr,
  Bool-cases, ◌==◌, zero, Option-cases,
}
use co_create_openebs.Rebuild.Run.{
  Run, Phase, step, steps, finish, Event, wake, calls, finishes, wakes,
}

abbrev pub Frame : Type 0
Frame = Range × ℕ

abbrev pub frame : Work → Frame
frame w = (w.range, w.segment_size_blks)

frame_of_work : {v w : Work} → v ≡ w → frame v ≡ frame w
frame_of_work e = ap frame e

start_tasks-frame :
    (rounds n : ℕ) (job : RebuildJob) → frame (work (start_tasks rounds n job)) ≡ frame (work job)
unfolding start_tasks
start_tasks-frame zero n job = refl
start_tasks-frame (suc rounds) n job = elim (send_cases job n) [
  | inl (_, e) ↦ rw (e, start_tasks) refl
  | inr (_, e) ↦ rw (e, start_tasks) (start_tasks-frame rounds (n + 1) (sent job n))
]

finish-frame :
    (s : Run) (i : ℕ) (x : Option RebuildError) (g : Segment)
    → IsRun s.job s.phase (length s.copied) (length s.lost)
    → get_elem? s.job.copies i ≡ some g
    → frame (work (finish s i g x).job) ≡ frame (work s.job)
unfolding finish awaited await_one_task
finish-frame s i x g h e =
    let (n, m) = busy_phase s.phase s.job i h e in
    elim (received-Sends s.phase s.job i g.blk g.id x n m) [
      | inl q ↦ ap frame q ∙ refl
      | inr (_, q) ↦ ap frame q ∙ refl
    ]

wake-frame :
    (p : Phase) (job : RebuildJob) {c l : ℕ}
    → IsRun job p c l
    → frame (work (wake p job).0) ≡ frame (work job)
wake-frame p job h = elim (wake_cases p job) [
  | inl (_, e) ↦ rw e refl
  | inr (w, e) ↦
      let job' = reconcile (woken job) in
      let rounds = job'.task_pool.total in
      let a = active-eq (reconcile-work (woken job)) ∙ idle_when_waiting p job h w in
      ap (λ (r : RebuildJob × Phase). frame (work r.0)) (e ∙ run-eq job' a)
      ∙ ap frame (loop_test-work (start_tasks rounds 0 job'))
      ∙ start_tasks-frame rounds 0 job'
      ∙ ap frame (reconcile-work (woken job))
]

step-frame :
    (s : Run) (e : Event)
    → IsRun s.job s.phase (length s.copied) (length s.lost)
    → frame (work (step s e).job) ≡ frame (work s.job)
unfolding step
step-frame s (calls k) h = ap frame (call-work k s.job)
step-frame s wakes h = elim (Bool-cases (s.job.scheduled == 0)) [
  | inl e ↦ rw e refl
  | inr e ↦ rw e (wake-frame s.phase s.job h)
]
step-frame s (finishes i x) h = elim (Option-cases (get_elem? s.job.copies i)) [
  | inl e ↦ rw (e, step) refl
  | inr (g, e) ↦ rw (e, step) (finish-frame s i x g h e)
]

pub steps-frame :
    (s : Run) (es : List Event)
    → IsRun s.job s.phase (length s.copied) (length s.lost)
    → frame (work (steps s es).job) ≡ frame (work s.job)
unfolding steps
steps-frame s [] h = refl
steps-frame s (e ∷ es) h = steps-frame (step s e) es (step-IsRun s e h) ∙ step-frame s e h

-- The counts of `IsExact` under the range and segment size that the job began with.
pub exact_at :
    (w v : Work) (copied lost : List ℕ) (b : ℕ)
    → frame w ≡ frame v
    → IsExact w copied lost b
    → hits v.segment_size_blks v.range.end copied b
        + hits v.segment_size_blks v.range.end lost b
        + hits v.segment_size_blks v.range.end (blocks w.copies) b
      ≡ inside v.range.start w.next b
exact_at w v copied lost b e q =
    subst
      (λ (f : Frame).
        hits f.1 f.0.end copied b + hits f.1 f.0.end lost b + hits f.1 f.0.end (blocks w.copies) b
        ≡ inside f.0.start w.next b)
      e q
