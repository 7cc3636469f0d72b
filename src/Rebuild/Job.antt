-- ===== src/Rebuild/Job.antt =====
-- A rebuild job and its bookkeeping: `RebuildJob`, `RebuildStats` of rebuild_api.rs, and the task
-- pool, notification and reconciliation of rebuild_impl.rs. What the job hands to others (calls of
-- `notify_fn`, messages on `notify_chan`, futures given to a reactor) is logged in the job.
use co_create_openebs.Prelude.{
  ℕ, String, ◌+◌, ◌/◌, min, Bool, true, false, List, ◌∷◌, Option, ltb, leb, ◌==◌, ◌&&◌, sub_u64,
  mul_u64,
}
use co_create_openebs.Rebuild.State.{
  RebuildState, init, paused, RebuildStates, RebuildError, state_eq, pending_equals,
  reconcile_states,
}

-- `std::ops::Range<u64>`.
pub record Range : Type 0 where
  pub start : ℕ
  pub end : ℕ

unfoldable pub within : Range → Range → Bool
within r right =
    ltb r.start r.end && ltb right.start right.end && leb right.start r.start && leb r.end right.end

-- What `validate` reads of a `Bdev`.
pub record BdevGeometry : Type 0 where
  pub num_blocks : ℕ
  pub block_len : ℕ

unfoldable pub validate : BdevGeometry → BdevGeometry → Range → Bool
unfolding within
validate source destination range =
    within range (record { start = 0; end = source.num_blocks })
    && within range (record { start = 0; end = destination.num_blocks })
    && source.block_len == destination.block_len

abbrev pub segment_tasks : ℕ
segment_tasks = 16

pub record TaskResult : Type 0 where
  pub blk : ℕ
  pub id : ℕ
  pub error : Option RebuildError

-- The error slot of a `RebuildTask` (its buffer and its sender have no state of their own).
pub record RebuildTask : Type 0 where
  pub error : Option TaskResult

pub record RebuildTasks : Type 0 where
  pub tasks : List RebuildTask
  pub active : ℕ
  pub total : ℕ
  pub segments_done : ℕ

-- A copy task handed to a reactor that has not yet sent its result.
pub record Segment : Type 0 where
  pub id : ℕ
  pub blk : ℕ

pub record RebuildJob : Type 0 where
  pub nexus : String
  pub source : String
  pub destination : String
  pub block_size : ℕ
  pub range : Range
  pub next : ℕ
  pub segment_size_blks : ℕ
  pub task_pool : RebuildTasks
  pub states : RebuildStates
  -- How many senders `complete_chan` holds.
  pub complete_chan : ℕ
  pub error : Option RebuildError
  -- The calls of `notify_fn` and the states sent on `notify_chan`, newest first.
  pub notify_calls : List (String × String)
  pub notify_sent : List RebuildState
  -- The futures of `schedule` that have not run yet, by number, and the copy tasks in flight.
  pub scheduled : ℕ
  pub copies : List Segment

abbrev pub state : RebuildJob → RebuildState
state job = job.states.current

pub record RebuildStats : Type 0 where
  pub blocks_total : ℕ
  pub blocks_recovered : ℕ
  pub progress : ℕ
  pub segment_size_blks : ℕ
  pub block_size : ℕ
  pub tasks_total : ℕ
  pub tasks_active : ℕ

-- The range of a job is never empty (`validate`), so the division is one.
unfoldable pub stats : RebuildJob → RebuildStats
stats job =
    let total = sub_u64 job.range.end job.range.start in
    let recovered = min (mul_u64 job.task_pool.segments_done job.segment_size_blks) total in
    record {
      blocks_total = total;
      blocks_recovered = recovered;
      progress = mul_u64 recovered 100 / total;
      segment_size_blks = job.segment_size_blks;
      block_size = job.block_size;
      tasks_total = job.task_pool.total;
      tasks_active = job.task_pool.active;
    }

-- `notify` also logs the `stats`, which have no effect.
unfoldable pub notify : RebuildJob → RebuildJob
notify job = record job {
  notify_calls = (job.nexus, job.destination) ∷ job.notify_calls;
  notify_sent = state job ∷ job.notify_sent;
}

unfoldable pub reconcile : RebuildJob → RebuildJob
unfolding reconcile_states notify
reconcile job =
    let new = record job { states = reconcile_states job.states } in
    elim (state_eq (state job) (state new)) [ true ↦ new | false ↦ notify new ]

-- The job, and whether the wanted state was pending.
unfoldable pub reconcile_to_state : RebuildJob → RebuildState → RebuildJob × Bool
unfolding pending_equals reconcile
reconcile_to_state job s = elim (pending_equals job.states s) [
  | true ↦ (reconcile job, true)
  | false ↦ (job, false)
]

-- A future is given to the master reactor if the job is paused or new.
unfoldable pub schedule : RebuildJob → RebuildJob
schedule job = elim (state job) [
  | paused ↦ record job { scheduled = job.scheduled + 1 }
  | init ↦ record job { scheduled = job.scheduled + 1 }
  | _ ↦ job
]
