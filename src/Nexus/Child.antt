-- ===== src/Nexus/Child.antt =====
-- A child of a nexus and its states (nexus_child.rs). What a child asks of others is logged in it:
-- the savings of the configuration, the reconfigurations of the nexus, and the messages that wait
-- in `remove_channel`.
use co_create_openebs.Prelude.{
  ℕ, zero, suc, ◌+◌, String, Bool, true, false, Option, none, some, Result, ok, err, not, ◌&&◌,
  ◌||◌, ltb, str_eq, if◌then◌else◌,
}
use co_create_openebs.Rebuild.Registry.{Instances, lookup_job}
use co_create_openebs.Rebuild.Job.{stats}

pub data Reason : Type 0 where
  unknown out_of_sync cant_open rebuild_failed io_error rpc : Reason

pub data ChildState : Type 0 where
  init config_invalid opened destroying closed : ChildState
  faulted : Reason → ChildState

-- The errors; a `source` is an error of another component, kept as a number.
pub data ChildError : Type 0 where
  child_not_offline child_not_closed child_faulted child_being_destroyed : ChildError
  child_too_small : (child_size parent_size : ℕ) → ChildError
  open_child claim_child : (source : ℕ) → ChildError
  child_inaccessible child_invalid open_without_bdev : ChildError
  handle_create : (source : ℕ) → ChildError
  child_bdev_create : (child : String) (source : ℕ) → ChildError

-- What is read of a `Bdev`.
pub record Bdev : Type 0 where
  pub name : String
  pub size_in_bytes : ℕ
  pub driver : String
  pub block_len : ℕ
  pub num_blocks : ℕ
  pub alignment : ℕ

-- A descriptor stands for the name it was opened by.
pub record NexusChild : Type 0 where
  pub parent : String
  pub name : String
  pub bdev : Option Bdev
  pub desc : Option String
  pub state : ChildState
  pub prev_state : ChildState
  pub removals : ℕ
  pub saves : ℕ
  pub reconfigures : ℕ
  -- An assertion or an `unwrap` has failed.
  pub panicked : Bool

-- `Bdev::open_by_name`, `bdev_create`, `Bdev::lookup_by_name`, `bdev_destroy` and
-- `BdevHandle::try_from`, whose errors are numbers. `raises_remove` says whether the destruction of
-- a device raises SPDK's remove event.
pub record Devices : Type 0 where
  pub open_by_name : String → Result ℕ (Unit {0})
  pub bdev_create : String → Result ℕ String
  pub lookup_by_name : String → Option Bdev
  pub bdev_destroy : String → Result ℕ (Unit {0})
  pub raises_remove : String → Bool
  pub handle_try_from : (descriptor : String) → Result ℕ (Unit {0})

-- `PartialEq` of `ChildState` where the code uses it.
abbrev pub is_open : ChildState → Bool
is_open opened = true
is_open _ = false

abbrev pub is_init : ChildState → Bool
is_init init = true
is_init _ = false

abbrev pub is_out_of_sync : ChildState → Bool
is_out_of_sync (faulted out_of_sync) = true
is_out_of_sync _ = false

abbrev pub is_io_error : ChildState → Bool
is_io_error (faulted io_error) = true
is_io_error _ = false

abbrev pub is_some {ℓ} : {A : Type ℓ} → Option A → Bool
is_some none = false
is_some (some _) = true

unfoldable pub new_child : (name parent : String) → Option Bdev → NexusChild
new_child name parent bdev = record {
  parent = parent;
  name = name;
  bdev = bdev;
  desc = none;
  state = init;
  prev_state = init;
  removals = 0;
  saves = 0;
  reconfigures = 0;
  panicked = false;
}

abbrev pub set_state : NexusChild → ChildState → NexusChild
set_state c state = record c { state = state; prev_state = c.state }

abbrev pub save_state_change : NexusChild → NexusChild
save_state_change c = record c { saves = c.saves + 1 }

abbrev pub Opened : Type 0
Opened = Result ChildError String

-- `open`, of a device, once the state allows it.
unfoldable pub open_bdev : Devices → NexusChild → ℕ → Bdev → NexusChild × Opened
open_bdev d c parent_size bdev =
    if ltb bdev.size_in_bytes parent_size
    then (set_state c config_invalid, err (child_too_small bdev.size_in_bytes parent_size))
    else (elim (d.open_by_name bdev.name) [
      | err e ↦ (set_state c (faulted cant_open), err (open_child e))
      | ok _ ↦ (set_state (record c { desc = some bdev.name }) opened, ok c.name)
    ])

unfoldable pub open_unopened : Devices → NexusChild → ℕ → NexusChild × Opened
unfolding open_bdev
open_unopened d c parent_size = elim c.bdev [
  | none ↦ (record c { panicked = true }, err open_without_bdev)
  | some bdev ↦ open_bdev d c parent_size bdev
]

-- The `match self.state()` of `open`.
unfoldable pub open_in : ChildState → Devices → NexusChild → ℕ → NexusChild × Opened
unfolding open_unopened
open_in (faulted _) d c n = (c, err child_faulted)
open_in opened d c n =
    if is_some c.bdev && is_some c.desc
    then (c, ok c.name)
    else (record c { panicked = true }, err open_without_bdev)
open_in destroying d c n = (c, err child_being_destroyed)
open_in _ d c n = open_unopened d c n

unfoldable pub open_child_device : Devices → NexusChild → ℕ → NexusChild × Opened
unfolding open_in
open_child_device d c parent_size = open_in c.state d c parent_size

-- The states of `remove`, where `state` is the one that it found.
unfoldable pub remove_states : ChildState → Bool → NexusChild → NexusChild
remove_states opened _ c = set_state c closed
remove_states (faulted out_of_sync) _ c = set_state c closed
remove_states state true c = set_state c state
remove_states state false c = c

abbrev pub remove_complete : NexusChild → NexusChild
remove_complete c = record c { removals = c.removals + 1 }

abbrev pub reconfigure_on_remove : ChildState → NexusChild → NexusChild
reconfigure_on_remove state c =
    if is_io_error state then c else record c { reconfigures = c.reconfigures + 1 }

-- `remove`: of a child that is being destroyed, and on a hot removal.
unfoldable pub remove_in : ChildState → NexusChild → NexusChild
unfolding remove_states
remove_in destroying c =
    let c' =
      reconfigure_on_remove c.prev_state
        (remove_states c.prev_state true (record c { bdev = none })) in
    remove_complete (record c' { desc = none })
remove_in state c = remove_complete (reconfigure_on_remove state (remove_states state false c))

unfoldable pub remove_child : NexusChild → NexusChild
unfolding remove_in
remove_child c = remove_in c.state c

-- `destroy`, with the remove event that it raises.
unfoldable pub destroy : Devices → NexusChild → NexusChild × Result ℕ (Unit {0})
unfolding remove_child
destroy d c = elim c.bdev [
  | none ↦ (c, ok tt)
  | some _ ↦
      let c' = set_state c destroying in
      ((if d.raises_remove c.name then remove_child c' else c'), d.bdev_destroy c.name)
]

-- The wait of `close`; `none` says that it never ends.
unfoldable pub await_removal : NexusChild → Option NexusChild
await_removal c =
    if not (is_init c.state) && not (is_init c.prev_state)
    then (elim c.removals [ zero ↦ none | suc n ↦ some (record c { removals = n }) ])
    else some c

-- `close`; that it gives up its claim on the descriptor has no effect on the child.
unfoldable pub close : Devices → NexusChild → Option (NexusChild × Result ℕ (Unit {0}))
unfolding destroy await_removal
close d c = elim c.bdev [
  | none ↦ some (c, ok tt)
  | some _ ↦
      let (c', result) = destroy d c in
      elim (await_removal c') [ none ↦ none | some c'' ↦ some (c'', result) ]
]

unfoldable pub fault : Devices → NexusChild → Reason → Option NexusChild
unfolding close
fault d c out_of_sync = some (save_state_change (set_state c (faulted out_of_sync)))
fault d c reason = elim (close d c) [
  | none ↦ none
  | some (c', _) ↦ some (save_state_change (set_state c' (faulted reason)))
]

unfoldable pub offline : Devices → NexusChild → Option NexusChild
unfolding close
offline d c = elim (close d c) [ none ↦ none | some (c', _) ↦ some (save_state_change c') ]

-- `online`, of a closed child.
unfoldable pub online_closed : Devices → NexusChild → ℕ → NexusChild × Opened
unfolding open_child_device
online_closed d c parent_size = elim (d.bdev_create c.name) [
  | err e ↦ (c, err (child_bdev_create c.name e))
  | ok name ↦
      let (c', result) =
        open_child_device d (record c { bdev = d.lookup_by_name name }) parent_size in
      (save_state_change (set_state c' (faulted out_of_sync)), result)
]

unfoldable pub online : Devices → NexusChild → ℕ → NexusChild × Opened
unfolding online_closed
online d c parent_size = elim c.state [
  | closed ↦ online_closed d c parent_size
  | _ ↦ (c, err child_not_closed)
]

unfoldable pub rebuilding : Instances → NexusChild → Bool
rebuilding jobs c = is_some (lookup_job jobs c.name) && is_out_of_sync c.state

unfoldable pub is_accessible : NexusChild → Bool
is_accessible c = is_open c.state || is_out_of_sync c.state

unfoldable pub handle : Devices → NexusChild → Option String
handle d c = elim c.desc [
  | none ↦ none
  | some desc ↦ elim (d.handle_try_from desc) [ err _ ↦ none | ok _ ↦ some desc ]
]

-- A handle and its device are one name.
unfoldable pub get_dev : Devices → NexusChild → Result ChildError String
unfolding is_accessible handle
get_dev d c =
    if is_accessible c
    then (elim (handle d c) [ none ↦ err child_inaccessible | some h ↦ ok h ])
    else err child_inaccessible

-- The inner `none` stands for -1, the outer for the failed assertion that the job is of the parent.
unfoldable pub get_rebuild_progress : Instances → NexusChild → Option (Option ℕ)
unfolding stats
get_rebuild_progress jobs c = elim (lookup_job jobs c.name) [
  | none ↦ some none
  | some job ↦ if str_eq job.nexus c.parent then some (some (stats job).progress) else none
]

unfoldable pub is_local : NexusChild → Option Bool
is_local c = elim c.bdev [
  | none ↦ none
  | some bdev ↦ some (not (str_eq bdev.driver "nvme") && not (str_eq bdev.driver "iscsi"))
]
