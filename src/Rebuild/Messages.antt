-- ===== src/Rebuild/Messages.antt =====
-- What a job makes of the result of a copy task (`run`, `start_task_by_id`, `await_all_tasks` of
-- rebuild_impl.rs), and that it keeps the invariant.
use co_create_openebs.Prelude.{
  ℕ, suc, ◌≤◌, ◌<◌, ◌≡◌, ◌≢◌, ◌∙◌, inl, inr, none, some, arith, length, get_elem?, ◌==◌, Bool-cases,
  Option-cases, true, ap, Option,
}
use co_create_openebs.Rebuild.State.{
  RebuildState, init, running, completed, RebuildOperation, RebuildError, failed, RebuildStates,
}
use co_create_openebs.Rebuild.Job.{RebuildJob, TaskResult, state, segment_tasks, Segment}
use co_create_openebs.Rebuild.Ops.{complete, fail}
use co_create_openebs.Rebuild.Tasks.{start_task_by_id}
use co_create_openebs.Rebuild.Run.{
  panicked, on_pending, on_error, on_success, on_message, on_drain_message, idle, looping, draining,
  take_copy, receive_in, Phase, finish, Drain, Run,
}
use co_create_openebs.Rebuild.Pending.{IsSettled, exec_op-IsSettled}
use co_create_openebs.Rebuild.Work.{
  work, IsWork, exec_op-work, send_cases, sent-IsWork, awaited, awaited-IsWork_copied,
  awaited-IsWork_lost, awaited-active, awaited-states,
}
use co_create_openebs.Rebuild.Invariant.{
  IsRun, IsPhase, IsLooped, active-eq, next-eq, end-eq, IsWork-eq, loop_test-IsRun,
  drain_test-IsRun,
}

pub complete-states :
    (job : RebuildJob)
    → state job ≡ running
    → (complete job).states ≡ record (job.states) { pending = some completed }
unfolding complete
complete-states job r = ground arith

pub complete-work : (job : RebuildJob) → work (complete job) ≡ work job
unfolding complete
complete-work job = exec_op-work job RebuildOperation.complete true

completing-IsLooped :
    (job : RebuildJob) (c l : ℕ)
    → IsWork (work job) c l
    → state job ≡ running
    → job.task_pool.active ≡ 0
    → job.range.end ≤ job.next
    → IsLooped (complete job) c l
completing-IsLooped job c l h r a n = record {
  copying = IsWork-eq (complete-work job) h;
  current = ground (arith, complete-states job r);
  fresh = ground (arith, complete-states job r);
  not_init = ground (arith, complete-states job r);
  complete = λ _. active-eq (complete-work job) ∙ a;
  finished = λ _. omega (arith, next-eq (complete-work job), end-eq (complete-work job), h.upper);
}

start_task_by_id-IsLooped :
    (job : RebuildJob) (id c l : ℕ)
    → IsWork (work job) c l
    → state job ≡ running
    → job.states.pending ≡ none
    → job.task_pool.active < segment_tasks
    → IsLooped (start_task_by_id job id) c l
unfolding start_task_by_id
start_task_by_id-IsLooped job id c l h r p a = elim (send_cases job id) [
  | inr (lt, e) ↦
      rw (e, start_task_by_id)
        (record {
          copying = sent-IsWork job id c l h a lt;
          current = r;
          fresh = ground arith;
          not_init = ground arith;
          complete = ground arith;
          finished = ground arith;
        })
  | inl (le, e) ↦
      rw (e, start_task_by_id)
        (elim (Bool-cases (job.task_pool.active == 0)) [
          | inl z ↦ rw z (completing-IsLooped job c l h r (ground arith) le)
          | inr z ↦ rw z (record {
            copying = h;
            current = r;
            fresh = ground arith;
            not_init = ground arith;
            complete = ground arith;
            finished = ground arith;
          })
        ])
]

-- A result without an error, once it is counted.
on_success-IsRun :
    (job : RebuildJob) (id c l : ℕ)
    → IsWork (work job) c l
    → IsSettled job.states
    → state job ≡ running
    → job.task_pool.active < segment_tasks
    → IsRun (on_success job id).0 (on_success job id).1 c l
unfolding on_success
on_success-IsRun job id c l h s r a = elim (Option-cases job.states.pending) [
  | inl e ↦
      rw (e, on_success)
        (loop_test-IsRun (start_task_by_id job id) c l
          (start_task_by_id-IsLooped job id c l h r e a))
  | inr (p, e) ↦ pending_case p e
]
  where
    pending_case :
        (p : RebuildState)
        → job.states.pending ≡ some p
        → IsRun (on_success job id).0 (on_success job id).1 c l
    pending_case running e = absurd (ground (arith, s.fresh))
    pending_case init e =
        rw (e, on_success) (drain_test-IsRun on_pending job c l h s r (ground arith))
    pending_case _ e = rw (e, on_success) (drain_test-IsRun on_pending job c l h s r (ground arith))

pub fail-states :
    (job : RebuildJob)
    → state job ≡ running
    → (fail job).states ≡ record (job.states) { pending = some failed }
unfolding fail
fail-states job r = ground arith

pub fail-work : (job : RebuildJob) → work (fail job) ≡ work job
unfolding fail
fail-work job = exec_op-work job RebuildOperation.fail true

fail-IsSettled : (job : RebuildJob) → IsSettled job.states → IsSettled (fail job).states
unfolding fail
fail-IsSettled job s = exec_op-IsSettled job RebuildOperation.fail true (λ e. cc) s

-- A result for a future that awaits one in its loop, or in `await_all_tasks`.
module _ (job : RebuildJob) (i c l blk id : ℕ) {g : Segment} (h : IsWork (work job) c l)
    (s : IsSettled job.states) (e : get_elem? job.copies i ≡ some g) where
  abbrev taken : RebuildJob
  taken = record job { copies = take_copy job.copies i }

  abbrev lost_result : RebuildError → TaskResult
  lost_result x = record { blk = blk; id = id; error = some x }

  abbrev copied_result : TaskResult
  copied_result = record { blk = blk; id = id; error = none }

  awaited-IsSettled : (x : TaskResult) → IsSettled (awaited job i x).states
  awaited-IsSettled x = rw (awaited-states job i x) s

  module _ (r : state job ≡ running) where
    awaited-current : (x : TaskResult) → state (awaited job i x) ≡ running
    awaited-current x = ap (λ (v : RebuildStates). v.current) (awaited-states job i x) ∙ r

    on_message-IsRun_copied :
        let m = on_message taken (some copied_result) in IsRun m.0 m.1 (suc c) l
    unfolding on_message awaited
    on_message-IsRun_copied =
        on_success-IsRun (awaited job i copied_result) id (suc c) l
          (awaited-IsWork_copied job i c l blk id h e) (awaited-IsSettled copied_result)
          (awaited-current copied_result)
          (omega (arith, awaited-active job i c l blk id h e none, h.parallel))

    on_message-IsRun_lost :
        (x : RebuildError)
        → let m = on_message taken (some (lost_result x)) in IsRun m.0 m.1 c (suc l)
    unfolding on_message awaited
    on_message-IsRun_lost x =
        let job' = awaited job i (lost_result x) in
        let current = awaited-current (lost_result x) in
        drain_test-IsRun (on_error x) (fail job') c (suc l)
          (IsWork-eq (fail-work job') (awaited-IsWork_lost job i c l blk id h e x))
          (fail-IsSettled job' (awaited-IsSettled (lost_result x)))
          (ground (arith, fail-states job' current)) (ground (arith, fail-states job' current))

    module _ (d : Drain) (p : job.states.pending ≢ none) where
      on_drain_message-IsRun_copied :
          let m = on_drain_message d taken (some copied_result) in IsRun m.0 m.1 (suc c) l
      unfolding on_drain_message awaited
      on_drain_message-IsRun_copied =
          drain_test-IsRun d (awaited job i copied_result) (suc c) l
            (awaited-IsWork_copied job i c l blk id h e) (awaited-IsSettled copied_result)
            (awaited-current copied_result) (rw (awaited-states job i copied_result) p)

      on_drain_message-IsRun_lost :
          (x : RebuildError)
          → let m = on_drain_message d taken (some (lost_result x)) in IsRun m.0 m.1 c (suc l)
      unfolding on_drain_message awaited
      on_drain_message-IsRun_lost x =
          drain_test-IsRun d (awaited job i (lost_result x)) c (suc l)
            (awaited-IsWork_lost job i c l blk id h e x) (awaited-IsSettled (lost_result x))
            (awaited-current (lost_result x)) (rw (awaited-states job i (lost_result x)) p)

  in_flight_pos : 0 < job.task_pool.active
  in_flight_pos = omega (arith, awaited-active job i c l blk id h e none)

  received-IsRun_copied :
      (p : Phase)
      → IsPhase p job
      → let m = receive_in p taken (some copied_result) in IsRun m.0 m.1 (suc c) l
  unfolding receive_in
  received-IsRun_copied idle q = absurd (omega (arith, in_flight_pos))
  received-IsRun_copied panicked q = absurd q
  received-IsRun_copied looping q = on_message-IsRun_copied q.0
  received-IsRun_copied (draining d) q = on_drain_message-IsRun_copied q.0 d q.2

  received-IsRun_lost :
      (p : Phase) (x : RebuildError)
      → IsPhase p job
      → let m = receive_in p taken (some (lost_result x)) in IsRun m.0 m.1 c (suc l)
  unfolding receive_in
  received-IsRun_lost idle x q = absurd (omega (arith, in_flight_pos))
  received-IsRun_lost panicked x q = absurd q
  received-IsRun_lost looping x q = on_message-IsRun_lost q.0 x
  received-IsRun_lost (draining d) x q = on_drain_message-IsRun_lost q.0 d q.2 x

-- The result of a task in flight keeps the invariant, whichever it is and wherever the future is.
pub finish-IsRun :
    (s : Run) (i : ℕ) (error : Option RebuildError) {g : Segment}
    → IsRun s.job s.phase (length s.copied) (length s.lost)
    → get_elem? s.job.copies i ≡ some g
    → let t = finish s i g error in IsRun t.job t.phase (length t.copied) (length t.lost)
unfolding finish
finish-IsRun s i none {g} h e =
    received-IsRun_copied s.job i _ _ g.blk g.id h.copying h.states e s.phase h.phased
finish-IsRun s i (some x) {g} h e =
    received-IsRun_lost s.job i _ _ g.blk g.id h.copying h.states e s.phase x h.phased
