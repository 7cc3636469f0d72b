-- ===== src/Rebuild/Tasks.antt =====
-- The copy tasks of a job: how segments are cut, sent and awaited (rebuild_impl.rs).
use co_create_openebs.Prelude.{
  ℕ, zero, suc, ◌+◌, min, ◌∷◌, Option, none, some, ltb, leb, ◌==◌, if◌then◌else◌, add_u64, sub_u64,
  modify,
}
use co_create_openebs.Rebuild.Job.{RebuildJob, RebuildTask, RebuildTasks, TaskResult}
use co_create_openebs.Rebuild.Ops.{complete}

unfoldable pub get_segment_size_blks : RebuildJob → ℕ → ℕ
get_segment_size_blks job blk =
    if ltb job.range.end (add_u64 blk job.segment_size_blks)
    then sub_u64 job.range.end blk
    else job.segment_size_blks

-- The next offset, and the job with the copy task handed to the reactor.
unfoldable pub send_segment_task : RebuildJob → ℕ → Option (ℕ × RebuildJob)
send_segment_task job id =
    if leb job.range.end job.next
    then none
    else some (
      min (add_u64 job.next job.segment_size_blks) job.range.end,
      record job { copies = record { id = id; blk = job.next } ∷ job.copies },
    )

abbrev pub add_active : RebuildJob → ℕ → RebuildJob
add_active job next = record job {
  task_pool = record (job.task_pool) { active = add_u64 job.task_pool.active 1 };
  next = next;
}

-- `for n in n .. n + rounds`, left by `break` where nothing is left to send.
unfoldable pub start_tasks : (rounds n : ℕ) → RebuildJob → RebuildJob
unfolding send_segment_task
start_tasks zero n job = job
start_tasks (suc rounds) n job = elim (send_segment_task job n) [
  | some (next, job') ↦ start_tasks rounds (n + 1) (add_active job' next)
  | none ↦ job
]

-- `none` is the failed assertion that no task is active.
unfoldable pub start_all_tasks : RebuildJob → Option RebuildJob
unfolding start_tasks
start_all_tasks job =
    if job.task_pool.active == 0 then some (start_tasks job.task_pool.total 0 job) else none

unfoldable pub start_task_by_id : RebuildJob → ℕ → RebuildJob
unfolding send_segment_task complete
start_task_by_id job id = elim (send_segment_task job id) [
  | some (next, job') ↦ add_active job' next
  | none ↦ if job.task_pool.active == 0 then complete job else job
]

abbrev set_error : TaskResult → RebuildTask → RebuildTask
set_error r task = record { error = some r }

-- What `await_one_task` does with a result. (An id is below `total`, so the index is in range.)
unfoldable pub receive : RebuildTasks → TaskResult → RebuildTasks
receive pool r = elim r.error [
  | none ↦ record pool {
    active = sub_u64 pool.active 1;
    segments_done = add_u64 pool.segments_done 1;
  }
  | some _ ↦ record pool {
    active = sub_u64 pool.active 1;
    tasks = modify (set_error r) pool.tasks r.id;
  }
]

-- `await_one_task` on what the channel yields: `none` says that all senders are gone.
unfoldable pub await_one_task : RebuildJob → Option TaskResult → RebuildJob
unfolding receive
await_one_task job none = job
await_one_task job (some r) = record job { task_pool = receive job.task_pool r }
