-- ===== src/Nexus/Members.antt =====
-- A nexus with its children: `Nexus`, `status`, `set_state`, `size` and `new` of nexus_bdev.rs, and the
-- operations of nexus_bdev_children.rs that end no rebuild job. A reconfiguration of the channels is
-- also counted in the nexus.
use co_create_openebs.Rebuild.Registry.{Instances}
use co_create_openebs.Nexus.Channel.{NexusChannelInner, refresh_each}
use co_create_openebs.Rebuild.State.{RebuildError}
use co_create_openebs.Nexus.Child.{ChildError, NexusChild, Devices, is_open, is_init, new_child}
use co_create_openebs.Prelude.{
  ℕ, List, [], ◌∷◌, ◌++◌, map, String, Bool, true, false, Option, none, some, Result, ok, err,
  if◌then◌else◌, str_eq, ◌&&◌, ltb, ◌%◌, ◌+◌, find, any, all, length, mul_u64, u32_mod, u64_mod,
  add_u32, ◌-◌,
}

pub data NexusState : Type 0 where
  nexus_init nexus_closed nexus_open : NexusState

pub data NexusStatus : Type 0 where
  nexus_faulted nexus_degraded nexus_online : NexusStatus

-- The errors of the operations that are modelled; the name of the nexus is left out.
pub data NexusError : Type 0 where
  nexus_incomplete mixed_block_sizes no_rebuild_source : NexusError
  child_not_found child_not_degraded : (child : String) → NexusError
  destroy_last_child remove_last_child faulting_last_healthy_child : (child : String) → NexusError
  close_child : (child : String) (source : ℕ) → NexusError
  open_child_failed : (child : String) (source : ChildError) → NexusError
  create_rebuild_error rebuild_job_not_found remove_rebuild_job :
      (source : RebuildError) (child : String) → NexusError
  register_nexus : (source : ℕ) → NexusError
  rebuild_operation_error : (job : String) (source : RebuildError) → NexusError

-- `block_len`, `num_blocks` and `required_alignment` are those of the inner bdev. `channels` has the
-- channels of all cores, which SPDK keeps for the device of the nexus.
pub record Nexus : Type 0 where
  pub name : String
  pub size : ℕ
  pub child_count : ℕ
  pub children : List NexusChild
  pub state : NexusState
  pub data_ent_offset : ℕ
  pub block_len : ℕ
  pub num_blocks : ℕ
  pub required_alignment : ℕ
  pub channels : List NexusChannelInner
  pub saves : ℕ
  pub reconfigures : ℕ
  -- An assertion has failed.
  pub panicked : Bool

unfoldable pub set_nexus_state : Nexus → NexusState → Nexus
set_nexus_state n state = record n { state = state }

abbrev pub size_in_bytes_of : Nexus → ℕ
size_in_bytes_of n = mul_u64 n.block_len n.num_blocks

-- `Nexus::reconfigure`, once all channels have refreshed, which can change the states of children.
unfoldable pub reconfigured : Devices → Instances → Nexus → Nexus
reconfigured d jobs n =
    let (channels, children) = refresh_each d jobs n.channels n.children in
    record n { channels = channels; children = children; reconfigures = n.reconfigures + 1 }

unfoldable pub status : Nexus → NexusStatus
status n = elim n.state [
  | nexus_init ↦ nexus_degraded
  | nexus_closed ↦ nexus_faulted
  | nexus_open ↦
      if all (λ c. is_open c.state) n.children
      then nexus_online
      else if any (λ c. is_open c.state) n.children
      then nexus_degraded
      else nexus_faulted
]

abbrev pub is_nexus_init : NexusState → Bool
is_nexus_init nexus_init = true
is_nexus_init _ = false

unfoldable pub register_children : Devices → Nexus → List String → Nexus
register_children d n dev_name =
    if is_nexus_init n.state
    then record n {
      child_count = length dev_name % u32_mod;
      children = n.children ++ map (λ c. new_child c n.name (d.lookup_by_name c)) dev_name;
    }
    else record n { panicked = true }

-- `Nexus::new`; the parts that only SPDK reads are left out.
unfoldable pub new_nexus : Devices → (name : String) → (size : ℕ) → Option (List String) → Nexus
new_nexus d name size child_bdevs =
    let n : Nexus = record {
      name = name;
      size = size;
      child_count = 0;
      children = [];
      state = nexus_init;
      data_ent_offset = 0;
      block_len = 0;
      num_blocks = 0;
      required_alignment = 9;
      channels = [];
      saves = 0;
      reconfigures = 0;
      panicked = false;
    } in
    elim child_bdevs [ none ↦ n | some names ↦ register_children d n names ]

unfoldable pub create_and_register : Devices → Nexus → (uri : String) → Nexus × Result ℕ (Unit {0})
create_and_register d n uri =
    if is_nexus_init n.state
    then (elim (d.bdev_create uri) [
      | err e ↦ (n, err e)
      | ok name ↦ (
        record n {
          children = n.children ++ (new_child uri n.name (d.lookup_by_name name) ∷ []);
          child_count = add_u32 n.child_count 1;
        },
        ok tt,
      )
    ])
    else (record n { panicked = true }, ok tt)

-- The first child that passes the test, changed.
unfoldable pub update_first :
    (NexusChild → Bool) → (NexusChild → NexusChild) → List NexusChild → List NexusChild
update_first p f [] = []
update_first p f (c ∷ cs) = let rest = update_first p f cs in if p c then f c ∷ cs else c ∷ rest

abbrev pub has_name : String → NexusChild → Bool
has_name name c = str_eq c.name name

unfoldable pub get_child_by_name : Nexus → String → Result NexusError NexusChild
get_child_by_name n name = elim (find (has_name name) n.children) [
  | some c ↦ ok c
  | none ↦ err (child_not_found name)
]

abbrev pub bdev_has_name : String → NexusChild → Bool
bdev_has_name name c = elim c.bdev [ none ↦ false | some b ↦ str_eq b.name name ]

unfoldable pub child_lookup : Nexus → String → Option NexusChild
child_lookup n name = find (bdev_has_name name) n.children

abbrev pub examined : String → NexusChild → Bool
examined name c = is_init c.state && str_eq c.name name

unfoldable pub examine_child : Devices → Nexus → String → Nexus × Bool
examine_child d n name = elim (d.lookup_by_name name) [
  | none ↦ (n, false)
  | some b ↦ (
    record n {
      children = update_first (examined name) (λ c. record c { bdev = some b }) n.children;
    },
    any (examined name) n.children,
  )
]

-- `min_num_blocks`, where `none` is the failed `unwrap` of an open child without a device.
unfoldable pub min_blocks_of : ℕ → List NexusChild → Option ℕ
min_blocks_of blockcnt [] = some blockcnt
min_blocks_of blockcnt (c ∷ cs) = elim (is_open c.state) [
  | false ↦ min_blocks_of blockcnt cs
  | true ↦ elim c.bdev [
    | none ↦ none
    | some b ↦ min_blocks_of (if ltb b.num_blocks blockcnt then b.num_blocks else blockcnt) cs
  ]
]

unfoldable pub min_num_blocks : Nexus → Option ℕ
min_num_blocks n = min_blocks_of (u64_mod - 1) n.children
