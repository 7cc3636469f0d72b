-- ===== src/Nexus/FaultTests.antt =====
-- Faulting the children of a nexus of three, of which the third is rebuilt from the first
-- (`fault_child` of nexus_bdev_children.rs).
use co_create_openebs.Nexus.Channel.{
  NexusChannelInner, refresh_each, refresh, connect_open, connect_rebuilding,
}
use co_create_openebs.Nexus.StillOpen.{IsServing}
use co_create_openebs.Nexus.Refreshed.{FoundAgain}
use co_create_openebs.Nexus.Changes.{
  cancel_child_rebuild_jobs, World, terminate_sources, checked_jobs, fault_child, terminate_rebuild,
}
use co_create_openebs.Nexus.Members.{
  new_nexus, Nexus, register_children, nexus_open, update_first, status, has_name, reconfigured,
}
use co_create_openebs.Rebuild.Registry.{Instances, lookup_src, lookup, lookup_job}
use co_create_openebs.Nexus.Healthy.{KeepsChildren, HasOpen, fault_child-HasOpen, fault_child_late}
use co_create_openebs.Nexus.Child.{
  fault, NexusChild, close, faulted, io_error, destroy, new_child, out_of_sync, closed,
  remove_child, remove_in, remove_states, await_removal, is_open, handle, rebuilding, set_state,
  cant_open,
}
use co_create_openebs.Rebuild.Tests.{sample_backend, sample_job}
use co_create_openebs.Nexus.ChildTests.{sample_devices}
use co_create_openebs.Nexus.MemberTests.{after_opening, open_child}
use co_create_openebs.Prelude.{
  String, arith, ◌∷◌, some, [], none, ◌≡◌, ok, any, false, refl, find, All, true,
}

abbrev third : NexusChild
third = record (open_child "malloc2") { state = faulted out_of_sync }

abbrev nexus_of_three : Nexus
nexus_of_three = record after_opening {
  children = open_child "malloc0" ∷ open_child "malloc1" ∷ third ∷ [];
  child_count = 3;
  state = nexus_open;
}

abbrev jobs_of_three : Instances
jobs_of_three =
    record sample_job { nexus = "nexus"; source = "malloc0"; destination = "malloc2" } ∷ []

-- Nothing else happens during the wait.
abbrev quiet : World
quiet = record {
  backend = sample_backend;
  devices = sample_devices;
  elapse = λ jobs n. some (jobs, n);
}

quiet-KeepsChildren : KeepsChildren quiet
quiet-KeepsChildren jobs jobs' n n' e = ground (arith, e)

-- All open children of the nexus give handles.
handles_test : All (IsServing sample_devices) nexus_of_three.children
unfolding handle new_nexus register_children new_child
handles_test =
    let given : (name : String) → IsServing sample_devices (open_child name) =
      λ name e z. absurd (ground (arith, z)) in
    (given "malloc0", (given "malloc1", ((λ (e : false ≡ true) z. absurd (ground (arith, e))), tt)))

fault_child-HasOpen_example :
    HasOpen (fault_child quiet jobs_of_three nexus_of_three "malloc0" io_error)
unfolding new_nexus register_children new_child
fault_child-HasOpen_example =
    fault_child-HasOpen quiet jobs_of_three nexus_of_three "malloc0" io_error quiet-KeepsChildren
      handles_test refl

-- An open child without a device gives no handle: a reconfiguration of two channels faults it.
abbrev with_channels : Nexus
with_channels = record nexus_of_three {
  channels = one_channel ∷ one_channel ∷ [];
  children = record (open_child "malloc0") { desc = none } ∷ open_child "malloc1" ∷ [];
}
  where
    one_channel : NexusChannelInner
    one_channel = record { writers = []; readers = []; previous = 0 }

reconfigured_test :
    (reconfigured sample_devices [] with_channels).children
    ≡ set_state (record (open_child "malloc0") { desc = none }) (faulted cant_open)
      ∷ open_child "malloc1"
      ∷ []
unfolding reconfigured refresh_each refresh connect_open connect_rebuilding handle rebuilding
    new_nexus register_children new_child lookup_job
reconfigured_test = refl

abbrev faulted_child : String → NexusChild
faulted_child name = record (open_child name) {
  state = faulted io_error;
  prev_state = closed;
  bdev = none;
  desc = none;
  saves = 1;
  reconfigures = 1;
}

faulted_test : fault sample_devices (open_child "malloc0") io_error ≡ some (faulted_child "malloc0")
unfolding fault close destroy remove_child remove_in remove_states await_removal new_child
faulted_test = refl

-- The second child is faulted during the wait, and the job ends.
abbrev nexus_meanwhile : Nexus
nexus_meanwhile = record nexus_of_three {
  children = open_child "malloc0" ∷ faulted_child "malloc1" ∷ third ∷ [];
}

abbrev busy : World
busy = record quiet { elapse = λ jobs n. some ([], nexus_meanwhile) }

fault_child_late_example :
    (jobs' : Instances) × ((n' : Nexus) × ((fault_child busy jobs_of_three nexus_of_three "malloc0"
            io_error
          ≡ some (jobs', (n', ok (status n'))))
        × (((faulted_child "malloc0").state ≡ faulted io_error)
            × (FoundAgain sample_devices
                  (some (faulted_child "malloc0"))
                  (find (has_name "malloc0") n'.children)
                × (any (λ x. is_open x.state) n'.children ≡ false)))))
unfolding cancel_child_rebuild_jobs lookup_src terminate_sources checked_jobs terminate_rebuild
    lookup lookup_job update_first new_nexus register_children new_child
fault_child_late_example =
    fault_child_late busy jobs_of_three [] nexus_of_three nexus_meanwhile ("malloc2" ∷ []) "malloc0"
      io_error (open_child "malloc0") (faulted_child "malloc0") refl refl refl refl refl refl
      faulted_test
