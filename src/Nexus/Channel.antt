-- ===== src/Nexus/Channel.antt =====
-- The I/O channel of a nexus on one core, and how it selects a child to read from:
-- `NexusChannelInner`, `child_select`, `refresh`, `create` and `destroy` of nexus_channel.rs. A
-- handle stands for its device; a refresh may change the states of the children, so it returns
-- them.
use co_create_openebs.Rebuild.Registry.{Instances}
use co_create_openebs.Nexus.Child.{
  handle, Devices, NexusChild, rebuilding, is_open, set_state, faulted, cant_open,
}
use co_create_openebs.Prelude.{
  true, false, ℕ, ◌+◌, ◌-◌, String, List, Option, none, some, ltb, if◌then◌else◌, length, ◌==◌, [],
  ◌∷◌, ◌++◌,
}

abbrev pub BdevHandle : Type 0
BdevHandle = String

pub record NexusChannelInner : Type 0 where
  pub writers : List BdevHandle
  pub readers : List BdevHandle
  pub previous : ℕ

unfoldable pub child_select : NexusChannelInner → NexusChannelInner × Option ℕ
child_select c =
    if length c.readers == 0
    then (c, none)
    else (let i = if ltb c.previous (length c.readers - 1) then c.previous + 1 else 0 in
        (record c { previous = i }, some i))

-- The handles of the open children, which are read and written: the two that `refresh` asks of a child
-- are one value here, as both are of its one descriptor.
unfoldable pub connect_open : Devices → List NexusChild → List NexusChild × List BdevHandle
unfolding handle
connect_open d [] = ([], [])
connect_open d (c ∷ cs) =
    let (cs', hs) = connect_open d cs in
    elim (is_open c.state) [
      | false ↦ (c ∷ cs', hs)
      | true ↦ elim (handle d c) [
        | some h ↦ (c ∷ cs', h ∷ hs)
        | none ↦ (set_state c (faulted cant_open) ∷ cs', hs)
      ]
    ]

-- The handles of the children that are being rebuilt, which are only written.
unfoldable pub connect_rebuilding :
    Devices → Instances → List NexusChild → List NexusChild × List BdevHandle
unfolding handle rebuilding
connect_rebuilding d jobs [] = ([], [])
connect_rebuilding d jobs (c ∷ cs) =
    let (cs', hs) = connect_rebuilding d jobs cs in
    elim (rebuilding jobs c) [
      | false ↦ (c ∷ cs', hs)
      | true ↦ elim (handle d c) [
        | some h ↦ (c ∷ cs', h ∷ hs)
        | none ↦ (set_state c (faulted cant_open) ∷ cs', hs)
      ]
    ]

unfoldable pub refresh :
    Devices → Instances → NexusChannelInner → List NexusChild → NexusChannelInner × List NexusChild
unfolding connect_open connect_rebuilding
refresh d jobs channel children =
    let (children', readers) = connect_open d children in
    let (children'', rebuilt) = connect_rebuilding d jobs children' in
    elim (length readers == 0) [
      | true ↦ (record { writers = readers; readers = readers; previous = 0 }, children')
      | false ↦
          (record { writers = readers ++ rebuilt; readers = readers; previous = 0 }, children'')
    ]

-- `reconfigure`: `refresh` on one channel after the other.
unfoldable pub refresh_each :
    Devices
    → Instances
    → List NexusChannelInner
    → List NexusChild
    → List NexusChannelInner × List NexusChild
unfolding refresh
refresh_each d jobs [] children = ([], children)
refresh_each d jobs (channel ∷ channels) children =
    let (channel', children') = refresh d jobs channel children in
    let (channels', children'') = refresh_each d jobs channels children' in
    (channel' ∷ channels', children'')

unfoldable pub create_channel : Devices → List NexusChild → NexusChannelInner × List NexusChild
unfolding connect_open
create_channel d children =
    let (children', readers) = connect_open d children in
    (record { writers = readers; readers = readers; previous = 0 }, children')

unfoldable pub destroy_channel : NexusChannelInner → NexusChannelInner
destroy_channel channel = record channel { writers = []; readers = [] }
