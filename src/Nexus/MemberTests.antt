-- ===== src/Nexus/MemberTests.antt =====
-- A nexus of two children (nexus_bdev.rs, nexus_bdev_children.rs, nexus_bdev_rebuild.rs).
use mathlib.Core.Path.{Path}
use co_create_openebs.Rebuild.Ops.{start, exec_client_op, exec_op, exec_op_in, pend}
use co_create_openebs.Rebuild.Tests.{sample_backend, sample_job}
use co_create_openebs.Rebuild.Job.{validate, within, schedule, reconcile, RebuildJob}
use co_create_openebs.Rebuild.State.{set_pending, RebuildState, completed, failed}
use co_create_openebs.Rebuild.Registry.{
  create, new, open_handle, new_opened, new_tasks, store, Instances, lookup, lookup_job, erase_job,
}
use co_create_openebs.Nexus.ChildTests.{sample_devices, sample_bdev}
use co_create_openebs.Nexus.Child.{
  NexusChild, new_child, faulted, out_of_sync, opened, closed, rebuild_failed, set_state,
  open_child_device, open_in, open_unopened, open_bdev, fault, close, destroy, remove_child,
  remove_in, remove_states, await_removal,
}
use co_create_openebs.Nexus.Members.{
  Nexus, new_nexus, register_children, nexus_open, nexus_online, status, reconfigured, has_name,
}
use co_create_openebs.Nexus.Opening.{
  try_open_children, open_with, bdevs, open_each, partition_opened, finish_open, aligned, register,
}
use co_create_openebs.Nexus.Online.{IsOpen, try_open_children-status}
use co_create_openebs.Nexus.Recovery.{
  Recovered, start_rebuild, destination_of, create_job, start_created, put_job, on_rebuild_update,
}
use co_create_openebs.Nexus.Recovered.{
  on_rebuild_update_completed, on_rebuild_update_failed, Leaves,
}
use co_create_openebs.Prelude.{
  Bool, false, true, str_eq_iff, arith, ℕ, ◌∷◌, [], some, none, ok, ◌≡◌, ◌≢◌, refl, String, ◌^◌,
  ◌<◌, ◌+◌, All, length, find,
}

abbrev pub before_open : Nexus
before_open = new_nexus sample_devices "nexus" 4096 (some ("malloc0" ∷ "malloc1" ∷ []))

abbrev pub open_child : String → NexusChild
open_child name = record (new_child name "nexus" (some sample_bdev)) {
  desc = some "malloc0";
  state = opened;
}

abbrev pub after_opening : Nexus
after_opening = record before_open {
  children = open_child "malloc0" ∷ open_child "malloc1" ∷ [];
  block_len = 512;
}

abbrev buf_align : ℕ → ℕ
buf_align required_alignment = 2 ^ required_alignment

opening_test : try_open_children buf_align sample_devices before_open ≡ some (after_opening, ok tt)
unfolding try_open_children open_with bdevs open_each partition_opened finish_open aligned new_nexus
    register_children open_child_device open_in open_unopened open_bdev new_child
opening_test = refl

try_open_children-status_example :
    (All IsOpen after_opening.children)
    × ((length after_opening.children ≡ length before_open.children)
        × ((0 < length before_open.children)
            × ((n'' : Nexus) × ((register sample_devices (ok tt) after_opening ≡ some (n'', ok tt))
                  × (status n'' ≡ nexus_online)))))
unfolding new_nexus register_children
try_open_children-status_example =
    try_open_children-status buf_align sample_devices before_open after_opening refl opening_test

-- The first child is being rebuilt from the second.
abbrev recovering : NexusChild
recovering = record (open_child "malloc0") { state = faulted out_of_sync }

abbrev rebuilding_nexus : Nexus
rebuilding_nexus = record after_opening {
  children = recovering ∷ open_child "malloc1" ∷ [];
  state = nexus_open;
}

abbrev ended_job : RebuildState → RebuildJob
ended_job s = record sample_job {
  source = "malloc1";
  destination = "malloc0";
  states = record { current = s; pending = none };
}

abbrev jobs_of : RebuildState → Instances
jobs_of s = ended_job s ∷ []

names_differ : ◌≢◌ {A = String} "malloc1" "malloc0"
names_differ =
    λ e. let q : Path Bool false true = (str_eq_iff "malloc1" "malloc0").1 e in ground arith

on_rebuild_update_completed_example :
    (n' : Nexus) × ((on_rebuild_update sample_devices (jobs_of completed) rebuilding_nexus "malloc0"
        ≡ some (erase_job (jobs_of completed) "malloc0", (n', ok tt)))
      × (Leaves sample_devices
            (jobs_of completed)
            (erase_job (jobs_of completed) "malloc0")
            rebuilding_nexus
            n'
            "malloc0"
            "malloc1"
            (set_state recovering opened)
          × (n'.reconfigures ≡ rebuilding_nexus.reconfigures + 1)))
unfolding lookup lookup_job new_nexus register_children new_child
on_rebuild_update_completed_example =
    on_rebuild_update_completed sample_devices (jobs_of completed) rebuilding_nexus "malloc0"
      "malloc1" (ended_job completed) recovering refl refl refl names_differ

abbrev failed_child : NexusChild
failed_child = record recovering {
  state = faulted rebuild_failed;
  prev_state = closed;
  bdev = none;
  desc = none;
  saves = 1;
  reconfigures = 1;
}

fault_test : fault sample_devices recovering rebuild_failed ≡ some failed_child
unfolding fault close destroy remove_child remove_in remove_states await_removal new_child
fault_test = refl

on_rebuild_update_failed_example :
    (n' : Nexus) × ((on_rebuild_update sample_devices (jobs_of failed) rebuilding_nexus "malloc0"
        ≡ some (erase_job (jobs_of failed) "malloc0", (n', ok tt)))
      × (Leaves sample_devices
            (jobs_of failed)
            (erase_job (jobs_of failed) "malloc0")
            rebuilding_nexus
            n'
            "malloc0"
            "malloc1"
            failed_child
          × ((failed_child.state ≡ faulted rebuild_failed)
              × (find (has_name "malloc0") n'.children ≡ some failed_child))))
unfolding lookup lookup_job new_nexus register_children new_child
on_rebuild_update_failed_example =
    on_rebuild_update_failed sample_devices (jobs_of failed) rebuilding_nexus "malloc0" "malloc1"
      (ended_job failed) recovering failed_child refl refl refl fault_test names_differ

abbrev ready_nexus : Nexus
ready_nexus = record rebuilding_nexus { data_ent_offset = 5; num_blocks = 25 }

abbrev started : Recovered
started = start_rebuild sample_backend sample_devices [] ready_nexus "malloc0"

started_test : started ≡ (started.0, (started.1.0, ok tt))
unfolding start_rebuild destination_of reconfigured create_job start_created put_job create new
    open_handle new_opened new_tasks validate within store lookup lookup_job start exec_client_op
    exec_op exec_op_in pend set_pending schedule reconcile new_nexus register_children new_child
started_test = refl
