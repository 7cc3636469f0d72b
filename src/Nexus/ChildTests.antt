-- ===== src/Nexus/ChildTests.antt =====
-- A child with its device (nexus_child.rs).
use co_create_openebs.Nexus.Offline.{offline-online, online_too_small}
use co_create_openebs.Nexus.Channel.{refresh}
use co_create_openebs.Nexus.Refresh.{Served, refresh_serves}
use co_create_openebs.Nexus.ChildStates.{
  child_steps, IsUsable, child_step, child_steps-IsUsable, opens,
}
use co_create_openebs.Nexus.Child.{
  NexusChild, faulted, open_child_device, new_child, opened, Bdev, fault, Devices, get_dev,
  is_accessible, io_error, offline, open_in, close, init, destroy, out_of_sync, closed,
  open_unopened, handle, remove_child, open_bdev, online, remove_in, remove_states, await_removal,
  child_too_small, config_invalid,
}
use co_create_openebs.Prelude.{refl, ◌≡◌, [], ◌∷◌, none, some, inl, ok, err, true, false}

abbrev pub sample_bdev : Bdev
sample_bdev = record {
  name = "malloc0";
  size_in_bytes = 4096;
  driver = "malloc";
  block_len = 512;
  num_blocks = 8;
  alignment = 1;
}

-- Every device is there, and does as it is asked.
abbrev pub sample_devices : Devices
sample_devices = record {
  open_by_name = λ name. ok tt;
  bdev_create = λ uri. ok "malloc0";
  lookup_by_name = λ name. some sample_bdev;
  bdev_destroy = λ uri. ok tt;
  raises_remove = λ uri. true;
  handle_try_from = λ desc. ok tt;
}

abbrev created : NexusChild
created = new_child "malloc:///malloc0" "nexus" (some sample_bdev)

abbrev faulted_child : NexusChild
faulted_child = record {
  parent = "nexus";
  name = "malloc:///malloc0";
  bdev = none;
  desc = none;
  state = faulted io_error;
  prev_state = closed;
  removals = 0;
  saves = 1;
  reconfigures = 1;
  panicked = false;
}

abbrev pub plain_child : NexusChild
plain_child = record {
  parent = "nexus";
  name = "malloc:///malloc0";
  bdev = some sample_bdev;
  desc = some "malloc0";
  state = opened;
  prev_state = init;
  removals = 0;
  saves = 0;
  reconfigures = 0;
  panicked = false;
}

opened_test :
    (open_child_device sample_devices
      (new_child "malloc:///malloc0" "nexus" (some sample_bdev))
      4096).0
    ≡ plain_child
unfolding open_child_device open_in open_unopened open_bdev new_child
opened_test = refl

faulted_test : fault sample_devices plain_child io_error ≡ some faulted_child
unfolding fault close destroy remove_child remove_in remove_states await_removal
faulted_test = refl

get_dev_test : get_dev sample_devices plain_child ≡ ok "malloc0"
unfolding get_dev is_accessible handle
get_dev_test = refl

created-IsUsable : IsUsable created
unfolding new_child
created-IsUsable = inl refl

steps_test : child_steps sample_devices created (opens 4096 ∷ []) ≡ some plain_child
unfolding child_steps child_step open_child_device open_in open_unopened open_bdev new_child
steps_test = refl

child_steps-IsUsable_example : IsUsable plain_child
child_steps-IsUsable_example =
    child_steps-IsUsable sample_devices created plain_child (opens 4096 ∷ []) created-IsUsable
      steps_test

offline-online_example :
    (x : NexusChild) × ((offline sample_devices plain_child ≡ some x)
      × (x.state ≡ closed)
      × (x.bdev ≡ none)
      × (x.desc ≡ none)
      × (x.removals ≡ 0)
      × ((online sample_devices x 4096).1 ≡ ok "malloc:///malloc0")
      × ((online sample_devices x 4096).0.state ≡ faulted out_of_sync)
      × ((online sample_devices x 4096).0.bdev ≡ some sample_bdev)
      × ((online sample_devices x 4096).0.desc ≡ some "malloc0"))
offline-online_example =
    offline-online sample_devices plain_child sample_bdev sample_bdev "malloc0" 4096 refl refl refl
      refl refl refl refl refl

refresh_serves_example : Served sample_devices (
    refresh sample_devices []
      (record { writers = []; readers = []; previous = 0 })
      (plain_child ∷ faulted_child ∷ []))
refresh_serves_example =
    refresh_serves sample_devices [] (record { writers = []; readers = []; previous = 0 })
      (plain_child ∷ faulted_child ∷ [])

abbrev closed_child : NexusChild
closed_child = record faulted_child { state = closed }

online_too_small_example :
    ((online sample_devices closed_child 5000).1 ≡ err (child_too_small 4096 5000))
    × ((online sample_devices closed_child 5000).0.state ≡ faulted out_of_sync)
    × ((online sample_devices closed_child 5000).0.prev_state ≡ config_invalid)
    × ((online sample_devices closed_child 5000).0.desc ≡ none)
    × (is_accessible (online sample_devices closed_child 5000).0 ≡ true)
online_too_small_example =
    online_too_small sample_devices closed_child sample_bdev "malloc0" 5000 refl refl refl refl
