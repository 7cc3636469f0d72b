-- ===== src/Rebuild/Pending.antt =====
-- The pending state of a job under its operations (`exec_op`, `set_pending`, `reconcile` of
-- rebuild_impl.rs).
use co_create_openebs.Prelude.{◌≡◌, ◌≢◌, Bool, true, none, some, err, arith, ok, ◌⊎◌}
use co_create_openebs.Rebuild.State.{
  RebuildState, init, running, stopped, failed, completed, RebuildStates, RebuildOperation,
  RebuildError, done, paused,
}
use co_create_openebs.Rebuild.Job.{RebuildJob, reconcile, state}
use co_create_openebs.Rebuild.Ops.{exec_op, exec_client_op}

-- What holds of the states of a job between two calls.
pub record IsSettled (s : RebuildStates) : Type 0 where
  pub fresh : s.pending ≢ some s.current
  pub final : done s.current ≡ true → s.pending ≡ none
  pub not_completed : s.pending ≢ some completed
  pub not_init : s.pending ≢ some init
  pub stopping : s.pending ≡ some stopped → s.current ≡ running
  pub failing : s.pending ≡ some failed → s.current ≡ running

-- An operation that returns an error leaves the job as it was.
pub exec_op_error :
    (job : RebuildJob) (op : RebuildOperation) (override_pending : Bool) {e : RebuildError}
    → (exec_op job op override_pending).1 ≡ err e
    → (exec_op job op override_pending).0 ≡ job
unfolding exec_op
exec_op_error job RebuildOperation.start o h = ground arith
exec_op_error job RebuildOperation.stop o h = ground arith
exec_op_error job _ o h = ground arith

-- Every operation but `complete` keeps the states settled.
pub exec_op-IsSettled :
    (job : RebuildJob) (op : RebuildOperation) (override_pending : Bool)
    → op ≢ RebuildOperation.complete
    → IsSettled job.states
    → IsSettled (exec_op job op override_pending).0.states
unfolding exec_op
exec_op-IsSettled job RebuildOperation.start o n h = ground arith
exec_op-IsSettled job RebuildOperation.stop o n h = ground arith
exec_op-IsSettled job _ o n h = ground arith

pub reconcile-IsSettled :
    (job : RebuildJob) → job.states.pending ≢ some init → IsSettled (reconcile job).states
unfolding reconcile
reconcile-IsSettled job h = ground arith

-- The state that an operation asks for.
abbrev pub target : RebuildOperation → RebuildState
target RebuildOperation.start = running
target RebuildOperation.stop = stopped
target RebuildOperation.pause = paused
target RebuildOperation.resume = running
target RebuildOperation.fail = failed
target RebuildOperation.complete = completed

-- While a state is pending, a client operation changes neither it nor the current state; and it is
-- accepted only when it asks for the state that is pending, or when it is the start of a job that is
-- running already.
pub exec_client_op_pending :
    (job : RebuildJob) (op : RebuildOperation) {p : RebuildState}
    → IsSettled job.states
    → job.states.pending ≡ some p
    → ((exec_client_op job op).0.states ≡ job.states)
      × ((exec_client_op job op).1 ≡ ok tt
          → (target op ≡ p) ⊎ ((op ≡ RebuildOperation.start) × (state job ≡ running)))
unfolding exec_client_op
exec_client_op_pending job RebuildOperation.start h e = ground arith
exec_client_op_pending job RebuildOperation.stop h e = ground arith
exec_client_op_pending job RebuildOperation.pause h e = ground arith
exec_client_op_pending job RebuildOperation.resume h e = ground arith
exec_client_op_pending job RebuildOperation.fail h e = ground arith
exec_client_op_pending job RebuildOperation.complete h e = ground arith
