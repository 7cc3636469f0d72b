-- ===== src/Rebuild/Coverage.antt =====
-- Which blocks the copy tasks of a job cover (`send_segment_task`, `get_segment_size_blks` and
-- `await_one_task` of rebuild_impl.rs).

use co_create_openebs.Rebuild.Job.{RebuildJob, Segment, segment_tasks}
use co_create_openebs.Rebuild.Tasks.{start_tasks}
use co_create_openebs.Rebuild.Work.{Work, IsWork, work, sent, add_u64-eq, send_cases, sent-IsWork}
use mathlib.Core.Option.{some-injective}
use co_create_openebs.Prelude.{
  ◌≡◌, ◌+◌, ◌<◌, ◌≤◌, [], ◌∷◌, List, ℕ, if◌then◌else◌, get_elem?, some, leb, ◌&&◌, suc, ltb, min,
  arith, zero, inl, inr, ap,
}
use co_create_openebs.Rebuild.Run.{take_copy}

-- Whether `b` lies in `start .. end`, as a number.
abbrev pub inside : (start end b : ℕ) → ℕ
inside start end b = if leb start b && ltb b end then 1 else 0

-- Whether the segment of `size` blocks that starts at `blk`, cut at `end`, covers block `b`.
abbrev pub hit : (size end blk b : ℕ) → ℕ
hit size end blk b = inside blk (min (blk + size) end) b

-- How many of the segments cover block `b`.
abbrev pub hits : (size end : ℕ) → List ℕ → ℕ → ℕ
hits size end [] b = 0
hits size end (blk ∷ blks) b = hit size end blk b + hits size end blks b

abbrev pub blocks : List Segment → List ℕ
blocks [] = []
blocks (s ∷ ss) = s.blk ∷ blocks ss

-- Block `b` was sent once if it lies below `next`, and not at all otherwise.
abbrev pub IsExact : Work → (copied lost : List ℕ) → ℕ → Type 0
IsExact w copied lost b =
    hits w.segment_size_blks w.range.end copied b
      + hits w.segment_size_blks w.range.end lost b
      + hits w.segment_size_blks w.range.end (blocks w.copies) b
    ≡ inside w.range.start w.next b

hit_next :
    (start next size end b : ℕ)
    → start ≤ next
    → next < end
    → hit size end next b + inside start next b ≡ inside start (min (next + size) end) b
hit_next start next size end b h k = ground arith

pub sent-IsExact :
    (job : RebuildJob) (id : ℕ) {c l : ℕ} (copied lost : List ℕ) (b : ℕ)
    → IsWork (work job) c l
    → job.next < job.range.end
    → IsExact (work job) copied lost b
    → IsExact (work (sent job id)) copied lost b
sent-IsExact job id copied lost b h lt e =
    rw (add_u64-eq job.next job.segment_size_blks (omega arith)) (
      omega (
        arith,
        e,
        hit_next job.range.start job.next job.segment_size_blks job.range.end b h.lower lt,
      ))

pub hits-take_copy :
    (size end : ℕ) (ss : List Segment) (i b : ℕ) {g : Segment}
    → get_elem? ss i ≡ some g
    → hits size end (blocks ss) b ≡ hit size end g.blk b + hits size end (blocks (take_copy ss i)) b
hits-take_copy size end [] i b e = cc
hits-take_copy size end (s ∷ ss) zero b {g} e =
    let q : s ≡ g = some-injective s g e in
    ap (λ (v : Segment). hit size end v.blk b + hits size end (blocks ss) b) q
hits-take_copy size end (s ∷ ss) (suc i) b e = omega (arith, hits-take_copy size end ss i b e)

pub start_tasks-IsExact :
    (rounds n : ℕ) (job : RebuildJob) {c l : ℕ} (copied lost : List ℕ) (b : ℕ)
    → IsWork (work job) c l
    → job.task_pool.active + rounds ≤ segment_tasks
    → IsExact (work job) copied lost b
    → IsExact (work (start_tasks rounds n job)) copied lost b
unfolding start_tasks
start_tasks-IsExact zero n job copied lost b h r e = e
start_tasks-IsExact (suc rounds) n job {c} {l} copied lost b h r e = elim (send_cases job n) [
  | inl (_, q) ↦ rw (q, start_tasks) e
  | inr (lt, q) ↦
      rw (q, start_tasks)
        (start_tasks-IsExact rounds (n + 1) (sent job n) copied lost b
          (sent-IsWork job n c l h (omega arith) lt)
          (omega (arith, add_u64-eq job.task_pool.active 1 (omega arith)))
          (sent-IsExact job n copied lost b h lt e))
]
