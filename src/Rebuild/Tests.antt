-- ===== src/Rebuild/Tests.antt =====
-- Runs of a small job: three segments of ten blocks (rebuild_impl.rs).

use co_create_openebs.Rebuild.Outcome.{steps_done}
use co_create_openebs.Rebuild.Pending.{exec_client_op_pending}
use co_create_openebs.Rebuild.Ops.{exec_op, exec_client_op}
use co_create_openebs.Rebuild.Liveness.{success_completes, left, EndsInFlight}
use co_create_openebs.Rebuild.Stuck.{resumed, resume_at_end_stuck, is_err, paused_before_start}
use co_create_openebs.Rebuild.Drain.{Drained, drain_ignores_results}
use co_create_openebs.Rebuild.Coverage.{hits, blocks, inside}
use co_create_openebs.Rebuild.State.{
  completed, paused, io_error, done, running, RebuildOperation, RebuildStates, op_error, init,
  stopped,
}
use co_create_openebs.Rebuild.Steps.{steps-IsRun}
use co_create_openebs.Rebuild.Invariant.{IsRun}
use co_create_openebs.Rebuild.Tasks.{start_all_tasks, start_tasks, start_task_by_id, await_one_task}
use co_create_openebs.Rebuild.Run.{
  steps, Event, run, calls, starts, wakes, pauses, finishes, loop_test, on_success, drain_test, Run,
  terminates, looping, on_pending, draining, idle, resumes, panicked, call,
}
use co_create_openebs.Rebuild.Job.{RebuildJob, Range, validate, state, segment_tasks}
use co_create_openebs.Rebuild.Registry.{
  new, Backend, new_job, open_handle, new_opened, new_tasks, lookup_job,
}
use co_create_openebs.Rebuild.Completion.{
  IsSized, initial, new-IsRun, completed_covers, each_block_once,
}
use co_create_openebs.Prelude.{
  refl, ◌≡◌, ◌≢◌, [], ◌∷◌, List, ok, none, some, arith, replicate, length, true, false, ◌+◌, ap,
  map, ◌⊎◌, err, ◌≤◌, String, inl,
}

-- Two devices of 100 blocks of 512 bytes, segments of 5120 bytes.
abbrev pub sample_backend : Backend
sample_backend = record {
  bdev_get_name = λ uri. ok uri;
  handle_open = λ name read_write claim. ok (record { num_blocks = 100; block_len = 512 });
  open_by_name = λ name read_write. ok tt;
  dma_malloc = λ task size. ok tt;
  segment_size = 5120;
}

abbrev pub sample_range : Range
sample_range = record { start = 5; end = 30 }

abbrev pub sample_job : RebuildJob
sample_job =
    new_job sample_backend "nexus" "source" "destination" sample_range
      (record { num_blocks = 100; block_len = 512 }) (replicate 16 (record { error = none }))

sample_made : new sample_backend "nexus" "source" "destination" sample_range ≡ ok sample_job
unfolding new open_handle new_opened new_tasks validate
sample_made = refl

sample-IsSized : IsSized sample_job
sample-IsSized = record { size_pos = omega arith; fits = omega arith }

-- Started, with its future run: three tasks in flight.
abbrev running_events : List Event
running_events = calls starts ∷ wakes ∷ []

abbrev finished_events : List Event
finished_events = calls starts ∷ wakes ∷ finishes 1 none ∷ finishes 0 none ∷ finishes 0 none ∷ []

-- Paused while its last three tasks are in flight.
abbrev pausing_events : List Event
pausing_events = calls starts ∷ wakes ∷ calls pauses ∷ finishes 0 none ∷ []

abbrev paused_events : List Event
paused_events =
    calls starts ∷ wakes ∷ calls pauses ∷ finishes 0 none ∷ finishes 0 none ∷ finishes 0 none ∷ []

sample_IsRun :
    (es : List Event)
    → let t = steps (initial sample_job) es in IsRun t.job t.phase (length t.copied) (length t.lost)
sample_IsRun es = steps-IsRun (initial sample_job) es (
    new-IsRun sample_backend "nexus" "source" "destination" sample_range sample_job sample_made
      sample-IsSized)

completed_test : state (steps (initial sample_job) finished_events).job ≡ completed
unfolding steps run start_all_tasks start_tasks loop_test on_success start_task_by_id await_one_task
completed_test = refl

paused_test :
    (steps (initial sample_job) paused_events).job.states
    ≡ record { current = paused; pending = none }
unfolding steps run start_all_tasks start_tasks loop_test on_success start_task_by_id drain_test
    await_one_task
paused_test = refl

-- The second task of three has failed.
abbrev failing_events : List Event
failing_events = calls starts ∷ wakes ∷ finishes 1 (some (io_error 5 "source")) ∷ []

abbrev running_run : Run
running_run = steps (initial sample_job) running_events

abbrev pausing_run : Run
pausing_run = steps (initial sample_job) pausing_events

abbrev paused_run : Run
paused_run = steps (initial sample_job) paused_events

abbrev finished_run : Run
finished_run = steps (initial sample_job) finished_events

each_block_once_example :
    let s = steps (initial sample_job) failing_events in
    (hits 10 30 s.copied 17 + hits 10 30 s.lost 17 + hits 10 30 (blocks s.job.copies) 17
      ≡ inside 5 s.job.next 17)
    × (s.job.task_pool.active ≡ length s.job.copies)
    × (s.job.task_pool.active ≤ segment_tasks)
    × (s.phase ≢ panicked)
each_block_once_example =
    each_block_once sample_backend "nexus" "source" "destination" sample_range sample_job
      sample_made sample-IsSized failing_events 17

completed_covers_example :
    (finished_run.job.copies ≡ [])
    × (hits 10 30 finished_run.copied 17 + hits 10 30 finished_run.lost 17 ≡ 1)
completed_covers_example =
    completed_covers sample_backend "nexus" "source" "destination" sample_range sample_job
      sample_made sample-IsSized finished_events 17 completed_test (omega arith) (omega arith)

running_phase : running_run.phase ≡ looping
unfolding steps run start_all_tasks start_tasks loop_test
running_phase = refl

running_states : running_run.job.states ≡ record { current = running; pending = none }
unfolding steps run start_all_tasks start_tasks loop_test
running_states = refl

running_left : left running_run.job ≡ 3
unfolding steps run start_all_tasks start_tasks loop_test
running_left = refl

-- The tasks end out of order, and the job is resumed and its future runs in between.
abbrev ending_events : List Event
ending_events = finishes 1 none ∷ wakes ∷ finishes 0 none ∷ calls resumes ∷ finishes 0 none ∷ []

ending_test : EndsInFlight running_run ending_events
unfolding steps run start_all_tasks start_tasks loop_test on_success start_task_by_id await_one_task
ending_test = (inl (omega arith), (inl (omega arith), (inl (omega arith), tt)))

success_completes_example : state (steps running_run ending_events).job ≡ completed
success_completes_example =
    success_completes ending_events running_run (sample_IsRun running_events) running_phase
      (ap (λ (v : RebuildStates). v.pending) running_states) ending_test
      (omega (arith, running_left))

pausing_phase : pausing_run.phase ≡ draining on_pending
unfolding steps run start_all_tasks start_tasks loop_test drain_test on_success await_one_task
pausing_phase = refl

pausing_states : pausing_run.job.states ≡ record { current = running; pending = some paused }
unfolding steps run start_all_tasks start_tasks loop_test drain_test on_success await_one_task
pausing_states = refl

pausing_active : 2 ≡ pausing_run.job.task_pool.active
unfolding steps run start_all_tasks start_tasks loop_test drain_test on_success await_one_task
pausing_active = refl

drain_ignores_results_example :
    Drained on_pending paused pausing_run.job.error
      (steps pausing_run (map (finishes 0) (some (io_error 5 "source") ∷ none ∷ [])))
drain_ignores_results_example =
    drain_ignores_results (some (io_error 5 "source") ∷ none ∷ []) pausing_run on_pending paused
      (sample_IsRun pausing_events) pausing_phase
      (ap (λ (v : RebuildStates). v.pending) pausing_states) pausing_active

steps_done_example :
    (steps finished_run (calls terminates ∷ wakes ∷ calls resumes ∷ [])).job.states
    ≡ record { current = state finished_run.job; pending = none }
steps_done_example =
    steps_done finished_run (calls terminates ∷ wakes ∷ calls resumes ∷ [])
      (sample_IsRun finished_events) (ap done completed_test)

paused_next : paused_run.job.next ≡ paused_run.job.range.end
unfolding steps run start_all_tasks start_tasks loop_test on_success drain_test await_one_task
paused_next = refl

resume_at_end_stuck_example :
    let t = steps (resumed paused_run) (calls terminates ∷ wakes ∷ []) in
    (state t.job ≡ running) × (t.phase ≡ idle) × (length t.job.copies ≡ 0)
resume_at_end_stuck_example =
    resume_at_end_stuck paused_run (calls terminates ∷ wakes ∷ []) (sample_IsRun paused_events)
      paused_test paused_next

-- A new job that was asked to pause.
abbrev early_job : RebuildJob
early_job = call pauses sample_job

early_states : early_job.states ≡ record { current = init; pending = some paused }
unfolding call
early_states = refl

paused_before_start_example :
    ((exec_client_op early_job RebuildOperation.start).0.states ≡ early_job.states)
    × ((RebuildOperation.start ≡ RebuildOperation.pause)
        ⊎ (is_err (exec_client_op early_job RebuildOperation.start).1 ≡ true))
paused_before_start_example = paused_before_start early_job RebuildOperation.start early_states

resume_refused :
    (exec_op sample_job RebuildOperation.resume false).1
    ≡ err (op_error RebuildOperation.resume sample_job.states)
unfolding exec_op
resume_refused = refl

exec_client_op_pending_example :
    ((exec_client_op pausing_run.job RebuildOperation.stop).0.states ≡ pausing_run.job.states)
    × ((exec_client_op pausing_run.job RebuildOperation.stop).1 ≡ ok tt
        → (stopped ≡ paused)
          ⊎ ((RebuildOperation.stop ≡ RebuildOperation.start) × (state pausing_run.job ≡ running)))
exec_client_op_pending_example =
    exec_client_op_pending pausing_run.job RebuildOperation.stop
      (sample_IsRun pausing_events).states (ap (λ (v : RebuildStates). v.pending) pausing_states)

steps-IsRun_example :
    let t = steps running_run failing_events in
    IsRun t.job t.phase (length t.copied) (length t.lost)
steps-IsRun_example = steps-IsRun running_run failing_events (sample_IsRun running_events)

nothing_stored : lookup_job [] "destination" ≡ none
unfolding lookup_job
nothing_stored = refl

elsewhere_test : ◌≢◌ {A = String} "elsewhere" "destination"
elsewhere_test = λ e. cc

running_destination : running_run.job.destination ≡ "destination"
unfolding steps run start_all_tasks start_tasks loop_test
running_destination = refl
