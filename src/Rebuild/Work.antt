-- ===== src/Rebuild/Work.antt =====
-- The copying side of a job: its range, its next block, its task pool and the tasks in flight
-- (`send_segment_task`, `start_all_tasks`, `await_one_task` of rebuild_impl.rs).
use co_create_openebs.Prelude.{
  ℕ, zero, suc, ◌+◌, ◌-◌, ◌*◌, ◌≤◌, ◌<◌, ◌≡◌, refl, Bool, List, ◌∷◌, Option, none, some, arith, [],
  min, ap, ◌⊎◌, inl, inr, length, get_elem?, u64_mod, add_u64, sub_u64,
}
use co_create_openebs.Rebuild.State.{RebuildOperation, RebuildError}
use co_create_openebs.Rebuild.Job.{
  RebuildJob, Range, RebuildTasks, Segment, TaskResult, segment_tasks, reconcile,
}
use co_create_openebs.Rebuild.Ops.{exec_op}
use co_create_openebs.Rebuild.Tasks.{start_tasks, send_segment_task, add_active, await_one_task}
use co_create_openebs.Rebuild.Run.{take_copy}

pub record Work : Type 0 where
  pub range : Range
  pub next : ℕ
  pub segment_size_blks : ℕ
  pub task_pool : RebuildTasks
  pub copies : List Segment

abbrev pub work : RebuildJob → Work
work job = record {
  range = job.range;
  next = job.next;
  segment_size_blks = job.segment_size_blks;
  task_pool = job.task_pool;
  copies = job.copies;
}

-- No operation touches the copying side.
pub exec_op-work :
    (job : RebuildJob) (op : RebuildOperation) (override_pending : Bool)
    → work (exec_op job op override_pending).0 ≡ work job
unfolding exec_op
exec_op-work job RebuildOperation.start o = ground arith
exec_op-work job RebuildOperation.stop o = ground arith
exec_op-work job _ o = ground arith

pub reconcile-work : (job : RebuildJob) → work (reconcile job) ≡ work job
unfolding reconcile
reconcile-work job = ground arith

-- What holds of it at every moment, with `copied` and `lost` results received. Sizes stay clear of
-- the end of u64, and each task received has moved `next` by a block at least.
pub record IsWork (w : Work) (copied lost : ℕ) : Type 0 where
  pub size_pos : 0 < w.segment_size_blks
  pub fits : w.range.end + w.segment_size_blks < u64_mod
  pub nonempty : w.range.start < w.range.end
  pub lower : w.range.start ≤ w.next
  pub upper : w.next ≤ w.range.end
  pub total : w.task_pool.total ≡ segment_tasks
  pub in_flight : w.task_pool.active ≡ length w.copies
  pub parallel : w.task_pool.active ≤ segment_tasks
  pub done : w.task_pool.segments_done ≡ copied
  pub budget : copied + lost + w.task_pool.active + w.range.start ≤ w.next
  pub reach : w.next ≤ w.range.start + (copied + lost + w.task_pool.active) * w.segment_size_blks

-- The job after a task is sent and counted.
abbrev pub sent : RebuildJob → ℕ → RebuildJob
sent job id =
    add_active (record job { copies = record { id = id; blk = job.next } ∷ job.copies })
      (min (add_u64 job.next job.segment_size_blks) job.range.end)

pub send_cases :
    (job : RebuildJob) (id : ℕ)
    → ((job.range.end ≤ job.next) × (send_segment_task job id ≡ none))
      ⊎ ((job.next < job.range.end)
          × (send_segment_task job id
              ≡ some (
                min (add_u64 job.next job.segment_size_blks) job.range.end,
                record job { copies = record { id = id; blk = job.next } ∷ job.copies },
              )))
unfolding send_segment_task
send_cases job id = ground arith

-- Addition that stays below 2 ^ 64 does not wrap.
pub add_u64-eq : (a b : ℕ) → a + b < u64_mod → add_u64 a b ≡ a + b
add_u64-eq a b h = omega arith

pub sub_u64-eq : (a b : ℕ) → a < u64_mod → b ≤ a → sub_u64 a b ≡ a - b
sub_u64-eq a b h k = omega arith

pub sent-IsWork :
    (job : RebuildJob) (id c l : ℕ)
    → IsWork (work job) c l
    → job.task_pool.active < segment_tasks
    → job.next < job.range.end
    → IsWork (work (sent job id)) c l
sent-IsWork job id c l h a n =
    rw
      (
        add_u64-eq job.next job.segment_size_blks (omega arith),
        add_u64-eq job.task_pool.active 1 (omega arith),
      )
      (omega arith)

length-take_copy :
    (ss : List Segment) (i : ℕ) {s : Segment}
    → get_elem? ss i ≡ some s
    → length ss ≡ suc (length (take_copy ss i))
length-take_copy [] i e = cc
length-take_copy (s ∷ ss) zero e = refl
length-take_copy (s ∷ ss) (suc i) e = ap suc (length-take_copy ss i e)

-- Moving one unit from the tasks in flight to those received.
moved_copied :
    (c l a n s z : ℕ) → 0 < a → n ≤ s + (c + l + a) * z → n ≤ s + (suc c + l + (a - 1)) * z
moved_copied c l a n s z p h = let e : suc c + l + (a - 1) ≡ c + l + a = omega arith in rw e h

moved_lost : (c l a n s z : ℕ) → 0 < a → n ≤ s + (c + l + a) * z → n ≤ s + (c + suc l + (a - 1)) * z
moved_lost c l a n s z p h = let e : c + suc l + (a - 1) ≡ c + l + a = omega arith in rw e h

-- A task that leaves the reactor, with its result received.
unfoldable pub awaited : RebuildJob → ℕ → TaskResult → RebuildJob
awaited job i r = await_one_task (record job { copies = take_copy job.copies i }) (some r)

module _ (job : RebuildJob) (i c l blk id : ℕ) {s : Segment} (h : IsWork (work job) c l)
    (e : get_elem? job.copies i ≡ some s) where
  pub awaited-IsWork_copied :
      IsWork (work (awaited job i (record { blk = blk; id = id; error = none }))) (suc c) l
  unfolding await_one_task awaited
  awaited-IsWork_copied =
      rw
        (
          sub_u64-eq job.task_pool.active 1 (omega arith)
              (omega (arith, length-take_copy job.copies i e)),
          add_u64-eq job.task_pool.segments_done 1 (omega arith),
        )
        (omega (
          arith,
          length-take_copy job.copies i e,
          moved_copied c l job.task_pool.active job.next job.range.start job.segment_size_blks,
        ))

  pub awaited-IsWork_lost :
      (x : RebuildError)
      → IsWork (work (awaited job i (record { blk = blk; id = id; error = some x }))) c (suc l)
  unfolding await_one_task awaited
  awaited-IsWork_lost x =
      rw
        (sub_u64-eq job.task_pool.active 1 (omega arith)
          (omega (arith, length-take_copy job.copies i e)))
        (omega (
          arith,
          length-take_copy job.copies i e,
          moved_lost c l job.task_pool.active job.next job.range.start job.segment_size_blks,
        ))

  pub awaited-active :
      (x : Option RebuildError)
      → (awaited job i (record { blk = blk; id = id; error = x })).task_pool.active + 1
        ≡ job.task_pool.active
  unfolding await_one_task awaited
  awaited-active none = omega (
    arith,
    length-take_copy job.copies i e,
    sub_u64-eq job.task_pool.active 1 (omega arith)
        (omega (arith, length-take_copy job.copies i e)),
  )
  awaited-active (some x) = omega (
    arith,
    length-take_copy job.copies i e,
    sub_u64-eq job.task_pool.active 1 (omega arith)
        (omega (arith, length-take_copy job.copies i e)),
  )

-- Receiving a result changes no state.
pub awaited-states :
    (job : RebuildJob) (i : ℕ) (r : TaskResult) → (awaited job i r).states ≡ job.states
unfolding await_one_task awaited
awaited-states job i r = refl

pub awaited-next :
    (job : RebuildJob) (i : ℕ) (r : TaskResult)
    → ((awaited job i r).next ≡ job.next) × ((awaited job i r).range ≡ job.range)
unfolding await_one_task awaited
awaited-next job i r = (refl, refl)

-- The tasks that `start_all_tasks` starts.
pub start_tasks-IsWork :
    (rounds n : ℕ) (job : RebuildJob) (c l : ℕ)
    → IsWork (work job) c l
    → job.task_pool.active + rounds ≤ segment_tasks
    → IsWork (work (start_tasks rounds n job)) c l
unfolding start_tasks
start_tasks-IsWork zero n job c l h r = h
start_tasks-IsWork (suc rounds) n job c l h r = elim (send_cases job n) [
  | inl (_, e) ↦ rw (e, start_tasks) h
  | inr (lt, e) ↦
      rw (e, start_tasks)
        (start_tasks-IsWork rounds (n + 1) (sent job n) c l
          (sent-IsWork job n c l h (omega arith) lt)
          (omega (arith, add_u64-eq job.task_pool.active 1 (omega arith))))
]

pub start_tasks-states :
    (rounds n : ℕ) (job : RebuildJob) → (start_tasks rounds n job).states ≡ job.states
unfolding start_tasks
start_tasks-states zero n job = refl
start_tasks-states (suc rounds) n job = elim (send_cases job n) [
  | inl (_, e) ↦ rw (e, start_tasks)
  | inr (_, e) ↦ rw (e, start_tasks) (start_tasks-states rounds (n + 1) (sent job n))
]
