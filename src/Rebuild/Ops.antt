-- ===== src/Rebuild/Ops.antt =====
-- The operations on a job: `exec_op` and the client and internal operations of rebuild_impl.rs.
-- An operation returns the job after it, and its result.
use co_create_openebs.Prelude.{◌+◌, Bool, true, false, ok, err}
use co_create_openebs.Rebuild.State.{
  RebuildState, init, running, stopped, paused, failed, completed, RebuildOperation, op_error,
  UnitResult, set_pending,
}
use co_create_openebs.Rebuild.Job.{RebuildJob, state, reconcile, schedule}

-- `set_pending(s, o)?`, then a continuation on the job.
unfoldable pub pend :
    RebuildJob → RebuildState → Bool → (RebuildJob → RebuildJob) → RebuildJob × UnitResult
unfolding set_pending
pend job s override_pending next =
    let (states, result) = set_pending job.states s override_pending in
    let job' = record job { states = states } in
    elim result [ ok _ ↦ (next job', ok tt) | err e ↦ (job', err e) ]

abbrev keep : RebuildJob → RebuildJob
keep job = job

-- The `match op { … match self.state() … }` of `exec_op`.
unfoldable pub exec_op_in :
    RebuildState → RebuildOperation → RebuildJob → Bool → RebuildJob × UnitResult
unfolding pend schedule reconcile
exec_op_in running RebuildOperation.start job _ = (job, ok tt)
exec_op_in init RebuildOperation.start job _ = pend job running false schedule
exec_op_in stopped RebuildOperation.stop job _ = (job, ok tt)
exec_op_in running RebuildOperation.stop job o = pend job stopped o keep
exec_op_in init RebuildOperation.stop job o = pend job stopped o reconcile
exec_op_in paused RebuildOperation.stop job o = pend job stopped o reconcile
exec_op_in init RebuildOperation.pause job _ = pend job paused false keep
exec_op_in running RebuildOperation.pause job _ = pend job paused false keep
exec_op_in paused RebuildOperation.pause job _ = pend job paused false keep
exec_op_in running RebuildOperation.resume job _ = pend job running false schedule
exec_op_in paused RebuildOperation.resume job _ = pend job running false schedule
exec_op_in failed RebuildOperation.fail job _ = (job, ok tt)
exec_op_in running RebuildOperation.fail job o = pend job failed o keep
exec_op_in running RebuildOperation.complete job o = pend job completed o keep
exec_op_in _ op job _ = (job, err (op_error op job.states))

unfoldable pub exec_op : RebuildJob → RebuildOperation → Bool → RebuildJob × UnitResult
unfolding exec_op_in
exec_op job op override_pending = exec_op_in (state job) op job override_pending

unfoldable pub exec_client_op : RebuildJob → RebuildOperation → RebuildJob × UnitResult
unfolding exec_op
exec_client_op job op = exec_op job op false

unfoldable pub exec_internal_op : RebuildJob → RebuildOperation → RebuildJob × UnitResult
unfolding exec_op
exec_internal_op job op = exec_op job op true

-- A new oneshot channel, whose sender the job keeps.
abbrev push_end_channel : RebuildJob → RebuildJob
push_end_channel job = record job { complete_chan = job.complete_chan + 1 }

unfoldable pub start : RebuildJob → RebuildJob × UnitResult
unfolding exec_client_op
start job =
    let (job', result) = exec_client_op job RebuildOperation.start in
    elim result [ ok _ ↦ (push_end_channel job', ok tt) | err e ↦ (job', err e) ]

unfoldable pub stop : RebuildJob → RebuildJob × UnitResult
unfolding exec_client_op
stop job = exec_client_op job RebuildOperation.stop

unfoldable pub pause : RebuildJob → RebuildJob × UnitResult
unfolding exec_client_op
pause job = exec_client_op job RebuildOperation.pause

unfoldable pub resume : RebuildJob → RebuildJob × UnitResult
unfolding exec_client_op
resume job = exec_client_op job RebuildOperation.resume

unfoldable pub terminate : RebuildJob → RebuildJob
unfolding exec_internal_op
terminate job = push_end_channel (exec_internal_op job RebuildOperation.stop).0

unfoldable pub fail : RebuildJob → RebuildJob
unfolding exec_internal_op
fail job = (exec_internal_op job RebuildOperation.fail).0

unfoldable pub complete : RebuildJob → RebuildJob
unfolding exec_internal_op
complete job = (exec_internal_op job RebuildOperation.complete).0
