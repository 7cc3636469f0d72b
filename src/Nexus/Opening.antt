-- ===== src/Nexus/Opening.antt =====
-- Opening and closing all children of a nexus: `try_open_children` and `close_children` of
-- nexus_bdev_children.rs. Where an operation awaits, `none` says that it never goes on.
use co_create_openebs.Nexus.Members.{
  Nexus, NexusError, has_name, nexus_incomplete, mixed_block_sizes, is_nexus_init, set_nexus_state,
  nexus_open, nexus_closed, register_nexus,
}
use co_create_openebs.Nexus.Child.{NexusChild, Bdev, Devices, open_child_device, close, Opened}
use co_create_openebs.Prelude.{
  ℕ, List, [], ◌∷◌, String, Bool, true, false, Option, none, some, Result, ok, err, if◌then◌else◌,
  not, ltb, ◌==◌, ◌%◌, any,
}

-- The devices of all children, if each has one.
unfoldable pub bdevs : List NexusChild → Option (List Bdev)
bdevs [] = some []
bdevs (c ∷ cs) = elim c.bdev [
  | none ↦ none
  | some b ↦ elim (bdevs cs) [ none ↦ none | some bs ↦ some (b ∷ bs) ]
]

-- Each child opened, with the results in their order.
unfoldable pub open_each : Devices → ℕ → List NexusChild → List NexusChild × List Opened
open_each d size [] = ([], [])
open_each d size (c ∷ cs) =
    let (c', result) = open_child_device d c size in
    let (cs', results) = open_each d size cs in (c' ∷ cs', result ∷ results)

-- The results that are good, and whether one is not.
unfoldable pub partition_opened : List Opened → List String × Bool
partition_opened [] = ([], false)
partition_opened (ok name ∷ rs) =
    let (names, failed) = partition_opened rs in (name ∷ names, failed)
partition_opened (err _ ∷ rs) = ((partition_opened rs).0, true)

-- `close` of the first child with that name, if there is one.
unfoldable pub close_named : Devices → String → List NexusChild → Option (List NexusChild)
close_named d name [] = some []
close_named d name (c ∷ cs) = elim (has_name name c) [
  | true ↦ elim (close d c) [ none ↦ none | some (c', _) ↦ some (c' ∷ cs) ]
  | false ↦ elim (close_named d name cs) [ none ↦ none | some cs' ↦ some (c ∷ cs') ]
]

unfoldable pub close_names : Devices → List String → List NexusChild → Option (List NexusChild)
close_names d [] cs = some cs
close_names d (name ∷ names) cs = elim (close_named d name cs) [
  | none ↦ none
  | some cs' ↦ close_names d names cs'
]

-- The alignment after the children's. `buf_align` is `spdk_bdev_get_buf_align` in terms of the field
-- that it reads.
unfoldable pub aligned : (buf_align : ℕ → ℕ) → ℕ → List Bdev → ℕ
aligned buf_align required_alignment [] = required_alignment
aligned buf_align required_alignment (b ∷ bs) =
    aligned buf_align
      (if ltb (buf_align required_alignment) b.alignment
        then b.alignment % 256
        else required_alignment)
      bs

abbrev pub Tried : Type 0
Tried = Option (Nexus × Result NexusError (Unit {0}))

-- All opened, or those that were opened closed again.
unfoldable pub finish_open :
    (buf_align : ℕ → ℕ) → Devices → Nexus → List Bdev → List String × Bool → Tried
finish_open buf_align d n bs (names, true) = elim (close_names d names n.children) [
  | none ↦ none
  | some cs ↦ some (record n { children = cs }, err nexus_incomplete)
]
finish_open buf_align d n bs (names, false) =
    some (record n { required_alignment = aligned buf_align n.required_alignment bs }, ok tt)

-- `open` leaves the device of a child in its place, so the devices are read once.
unfoldable pub open_with : (buf_align : ℕ → ℕ) → Devices → Nexus → List Bdev → Tried
open_with buf_align d n [] = some (n, err nexus_incomplete)
open_with buf_align d n (b ∷ bs) =
    if any (λ b'. not (b'.block_len == b.block_len)) (b ∷ bs)
    then some (n, err mixed_block_sizes)
    else (let (cs, results) = open_each d n.size n.children in
        finish_open buf_align d (record n { block_len = b.block_len; children = cs }) (b ∷ bs)
          (partition_opened results))

unfoldable pub try_open_children : (buf_align : ℕ → ℕ) → Devices → Nexus → Tried
try_open_children buf_align d n = elim (bdevs n.children) [
  | none ↦ some (n, err nexus_incomplete)
  | some bs ↦ open_with buf_align d n bs
]

-- `close_children`, which waits for all of them.
unfoldable pub close_each : Devices → List NexusChild → Option (List NexusChild)
close_each d [] = some []
close_each d (c ∷ cs) = elim (close d c) [
  | none ↦ none
  | some (c', _) ↦ elim (close_each d cs) [ none ↦ none | some cs' ↦ some (c' ∷ cs') ]
]

unfoldable pub close_children : Devices → Nexus → Option Nexus
close_children d n = elim (close_each d n.children) [
  | none ↦ none
  | some cs ↦ some (record n { children = cs })
]

-- `register`, with the result of `spdk_bdev_register`, whose callbacks run on the channels.
unfoldable pub register : Devices → (bdev_register : Result ℕ (Unit {0})) → Nexus → Tried
register d bdev_register n = elim (is_nexus_init n.state) [
  | false ↦ some (record n { panicked = true }, ok tt)
  | true ↦ elim bdev_register [
    | ok _ ↦ some (set_nexus_state n nexus_open, ok tt)
    | err e ↦ elim (close_children d n) [
      | none ↦ none
      | some n' ↦ some (set_nexus_state n' nexus_closed, err (register_nexus e))
    ]
  ]
]
