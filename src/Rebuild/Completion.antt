-- ===== src/Rebuild/Completion.antt =====
-- What a job has done when it says that it is complete (rebuild_impl.rs, from `new` on).
use co_create_openebs.Rebuild.State.{completed}
use co_create_openebs.Rebuild.Frame.{frame, steps-frame, exact_at, Frame}
use co_create_openebs.Rebuild.Delivery.{steps-IsExact}
use co_create_openebs.Rebuild.Work.{work}
use co_create_openebs.Rebuild.Steps.{steps-IsRun}
use co_create_openebs.Rebuild.Coverage.{IsExact, hits, blocks, inside}
use co_create_openebs.Rebuild.Invariant.{IsRun}
use co_create_openebs.Rebuild.Registry.{Backend, new_opened, new, new_job, open_handle, new_tasks}
use co_create_openebs.Rebuild.Job.{
  RebuildJob, validate, BdevGeometry, Range, RebuildTask, segment_tasks, state,
}
use co_create_openebs.Prelude.{
  ◌≡◌, ◌+◌, ◌<◌, [], String, u64_mod, true, ok, arith, List, Bool-cases, Result-cases, inr, inl,
  false, mul_u64, ◌/◌, ℕ, length, ◌≤◌, ◌≢◌, ◌∙◌, ap, nil_of_length,
}
use co_create_openebs.Rebuild.Run.{Run, idle, Event, steps, panicked, Phase}

-- A new job, with no future running.
abbrev pub initial : RebuildJob → Run
initial job = record { job = job; phase = idle; copied = []; lost = [] }

-- The sizes for which the 64-bit sums of a job do not wrap, and copying makes progress.
pub record IsSized (job : RebuildJob) : Type 0 where
  pub size_pos : 0 < job.segment_size_blks
  pub fits : job.range.end + job.segment_size_blks < u64_mod

validate-lt : (s d : BdevGeometry) (r : Range) → validate s d r ≡ true → r.start < r.end
unfolding validate
validate-lt s d r h = ground arith

not_panicked : (job : RebuildJob) (p : Phase) {c l : ℕ} → IsRun job p c l → p ≢ panicked
not_panicked job panicked h = absurd h.phased
not_panicked job idle h = λ e. cc
not_panicked job _ h = λ e. cc

completed_idle :
    (job : RebuildJob) (p : Phase) {c l : ℕ}
    → IsRun job p c l
    → state job ≡ completed
    → job.copies ≡ []
completed_idle job idle h c =
    nil_of_length job.copies (omega (arith, h.phased, h.copying.in_flight))
completed_idle job _ h c = ground (arith, h.resting)

completed_count :
    (job after : RebuildJob) (blk x y : ℕ)
    → after.copies ≡ []
    → after.next ≡ job.range.end
    → job.range.start ≤ blk
    → blk < job.range.end
    → x + y + hits job.segment_size_blks job.range.end (blocks after.copies) blk
      ≡ inside job.range.start after.next blk
    → x + y ≡ 1
completed_count job after blk n f lo hi e = ground arith

-- What `new` returns.
module _ (b : Backend) (nexus source destination : String) (range : Range) (job : RebuildJob) where
  abbrev IsNew : BdevGeometry → Type 0
  IsNew d =
      (range.start < range.end)
      × ((tasks : List RebuildTask) × (job ≡ new_job b nexus source destination range d tasks))

  new_opened-IsNew :
      (s d : BdevGeometry) → new_opened b nexus source destination range s d ≡ ok job → IsNew d
  unfolding new_opened
  new_opened-IsNew s d h = elim (Bool-cases (validate s d range)) [
    | inr v ↦ cc (rw (v, new_opened) at h)
    | inl v ↦
        elim (Result-cases
          (new_tasks b segment_tasks 0 (mul_u64 (b.segment_size / d.block_len) d.block_len))) [
            | inr (e, t) ↦ cc (rw (v, t, new_opened) at h)
            | inl (tasks, t) ↦ elim (Result-cases (b.open_by_name nexus false)) [
              | inr (e, o) ↦ cc (rw (v, t, o, new_opened) at h)
              | inl (_, o) ↦
                  (validate-lt s d range v, (tasks, ground (arith, rw (v, t, o, new_opened) at h)))
            ]
          ]
  ]

  new-IsNew : new b nexus source destination range ≡ ok job → (d : BdevGeometry) × IsNew d
  unfolding new
  new-IsNew h = elim (Result-cases (open_handle b source false false)) [
    | inr (e, o) ↦ cc (rw (o, new) at h)
    | inl (s, o) ↦ elim (Result-cases (open_handle b destination true false)) [
      | inr (e, q) ↦ cc (rw (o, q, new) at h)
      | inl (d, q) ↦ (d, new_opened-IsNew s d (rw (o, q, new) at h))
    ]
  ]

  pub new-IsRun : new b nexus source destination range ≡ ok job → IsSized job → IsRun job idle 0 0
  new-IsRun h z = let (d, n) = new-IsNew h in ground (arith, n.0, n.1.1)

  new-IsExact :
      (blk : ℕ) → new b nexus source destination range ≡ ok job → IsExact (work job) [] [] blk
  new-IsExact blk h = let (d, n) = new-IsNew h in ground (arith, n.0, n.1.1)

  module _ (made : new b nexus source destination range ≡ ok job) (sized : IsSized job)
      (es : List Event) where
    abbrev after : Run
    after = steps (initial job) es

    after-IsRun : IsRun after.job after.phase (length after.copied) (length after.lost)
    after-IsRun = steps-IsRun (initial job) es (new-IsRun made sized)

    after-IsExact : (blk : ℕ) → IsExact (work after.job) after.copied after.lost blk
    after-IsExact blk =
        steps-IsExact (initial job) es blk (new-IsRun made sized) (new-IsExact blk made)

    after-frame : frame (work after.job) ≡ frame (work job)
    after-frame = steps-frame (initial job) es (new-IsRun made sized)

    after-exact :
        (blk : ℕ)
        → hits job.segment_size_blks job.range.end after.copied blk
            + hits job.segment_size_blks job.range.end after.lost blk
            + hits job.segment_size_blks job.range.end (blocks after.job.copies) blk
          ≡ inside job.range.start after.job.next blk
    after-exact blk =
        exact_at (work after.job) (work job) after.copied after.lost blk after-frame
          (after-IsExact blk)

  -- For a job that `new` made, with sizes that do not wrap, after any history: every block of the
  -- range below `next` has been handed to exactly one copy task, which is in flight or has sent
  -- its result, and no block from `next` on to any; the number of active tasks is that of the
  -- tasks in flight, at most 16; and no assertion has failed.
  pub each_block_once :
      new b nexus source destination range ≡ ok job
      → IsSized job
      → (es : List Event) (blk : ℕ)
      → let s = steps (initial job) es in
        (hits job.segment_size_blks job.range.end s.copied blk
            + hits job.segment_size_blks job.range.end s.lost blk
            + hits job.segment_size_blks job.range.end (blocks s.job.copies) blk
          ≡ inside job.range.start s.job.next blk)
        × (s.job.task_pool.active ≡ length s.job.copies)
        × (s.job.task_pool.active ≤ segment_tasks)
        × (s.phase ≢ panicked)
  each_block_once made sized es blk =
      let h = after-IsRun made sized es in
      (after-exact made sized es blk, h.copying.in_flight, h.copying.parallel, not_panicked _ _ h)

  -- For a job that `new` made, with sizes that do not wrap: when it is completed, after whatever
  -- history, it has no task in flight, and has received exactly one result for each block of its
  -- range, with or without an error.
  pub completed_covers :
      new b nexus source destination range ≡ ok job
      → IsSized job
      → (es : List Event) (blk : ℕ)
      → let s = steps (initial job) es in
        state s.job ≡ completed
        → job.range.start ≤ blk
        → blk < job.range.end
        → (s.job.copies ≡ [])
          × (hits job.segment_size_blks job.range.end s.copied blk
                + hits job.segment_size_blks job.range.end s.lost blk
              ≡ 1)
  completed_covers made sized es blk c lo hi =
      let s = steps (initial job) es in
      let h = after-IsRun made sized es in
      let none_left = completed_idle s.job s.phase h c in
      let full = h.finished c ∙ ap (λ (f : Frame). f.0.end) (after-frame made sized es) in
      (
        none_left,
        completed_count job s.job blk _ _ none_left full lo hi (after-exact made sized es blk),
      )
