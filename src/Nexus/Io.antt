-- ===== src/Nexus/Io.antt =====
-- The I/O of a nexus: nexus_io.rs, with the types and completion calls of core/bio.rs. What an I/O
-- hands to others is logged in it: the calls of `spdk_bdev_io_complete` and the futures of
-- `child_retire`, newest first, and the number of child I/Os freed.
use co_create_openebs.Prelude.{
  ℕ, ◌+◌, Bool, true, false, List, [], ◌∷◌, Option, none, some, Result, ok, err, get_elem?,
  if◌then◌else◌, ◌==◌, add_u64, add_u8, sub_u8,
}
use co_create_openebs.Nexus.Channel.{BdevHandle, NexusChannelInner, child_select}

pub data IoType : Type 0 where
  invalid read write unmap flush reset : IoType
  nvme_admin nvme_io nvme_io_md write_zeros zero_copy zone_info : IoType
  zone_management zone_append compare compare_and_write abort io_num_types : IoType

pub data IoStatus : Type 0 where
  aborted first_fused_failed mis_compared no_memory scsi_error nvme_error : IoStatus
  failed pending success : IoStatus

-- The errors that the code names, and all others by number.
pub data Errno : Type 0 where
  enomem einval eopnotsupp enodev : Errno
  errno : ℕ → Errno

abbrev pub Submitted : Type 0
Submitted = Result Errno (Unit {0})

pub record NioCtx : Type 0 where
  pub in_flight : ℕ
  pub num_ok : ℕ
  pub status : IoStatus
  pub core : ℕ

pub data Disposition : Type 0 where
  completes flying retire : IoStatus → Disposition

pub record NexusBio : Type 0 where
  pub io_type : IoType
  pub offset : ℕ
  pub num_blocks : ℕ
  pub ctx : NioCtx
  pub completed : List IoStatus
  pub retiring : List BdevHandle
  pub freed : ℕ
  -- An assertion has failed.
  pub panicked : Bool

-- What is read of the I/O of a child: its device, and whether its NVMe status is `InvalidOpcode`.
pub record ChildIo : Type 0 where
  pub bdev : BdevHandle
  pub invalid_opcode : Bool

abbrev pub set_ctx : NexusBio → NioCtx → NexusBio
set_ctx io ctx = record io { ctx = ctx }

unfoldable pub nexus_bio_setup : ℕ → NexusBio → NexusBio
nexus_bio_setup core io =
    set_ctx io (record { in_flight = 0; num_ok = 0; status = pending; core = core })

-- `ok`, `fail` and `no_mem`.
abbrev pub io_complete : NexusBio → IoStatus → NexusBio
io_complete io status = record io { completed = status ∷ io.completed }

abbrev pub panic : NexusBio → NexusBio
panic io = record io { panicked = true }

unfoldable pub disposition : NioCtx → Disposition
disposition ctx = elim ctx.status [
  | pending ↦ if ctx.in_flight == 0 then completes success else flying success
  | failed ↦
      if ctx.in_flight == 0
      then (if ctx.num_ok == 0 then completes failed else retire success)
      else retire pending
  | no_memory ↦ if ctx.in_flight == 0 then completes no_memory else completes failed
  | _ ↦ completes failed
]

unfoldable pub try_retire : NexusBio → ChildIo → NexusBio
try_retire io child_io = elim child_io.invalid_opcode [
  | true ↦ io
  | false ↦ record io { retiring = child_io.bdev ∷ io.retiring }
]

abbrev pub free : NexusBio → NexusBio
free io = record io { freed = io.freed + 1 }

abbrev pub set_status : NexusBio → IoStatus → NexusBio
set_status io status = set_ctx io (record (io.ctx) { status = status })

-- The `match self.disposition()` of `complete`.
unfoldable pub settle : Disposition → NexusBio → ChildIo → Bool → NexusBio
unfolding try_retire
settle (completes success) io child_io _ = free (io_complete io success)
settle (completes failed) io child_io _ = free (io_complete io failed)
settle (completes no_memory) io child_io _ = free (io_complete io no_memory)
settle (retire success) io child_io true = panic io
settle (retire success) io child_io false = free (io_complete (try_retire io child_io) success)
settle (retire pending) io child_io true = panic io
settle (retire pending) io child_io false = free (set_status (try_retire io child_io) pending)
settle _ io child_io _ = free io

-- The counters of `complete`, before the disposition.
abbrev pub record_result : NioCtx → Bool → NioCtx
record_result ctx false = record ctx { in_flight = sub_u8 ctx.in_flight 1; status = failed }
record_result ctx true = record ctx {
  in_flight = sub_u8 ctx.in_flight 1;
  num_ok = add_u8 ctx.num_ok 1;
}

-- `complete`, on the core `current`.
unfoldable pub complete_child_io : (current : ℕ) → NexusBio → ChildIo → Bool → NexusBio
unfolding disposition settle
complete_child_io current io child_io ok' =
    if io.ctx.core == current
    then (let ctx = record_result io.ctx ok' in
        settle (disposition ctx) (set_ctx io ctx) child_io ok')
    else panic io

-- SPDK's submission functions, each asked for a handle.
pub record Spdk : Type 0 where
  pub readv_blocks : BdevHandle → (offset num_blocks : ℕ) → Submitted
  pub writev_blocks : BdevHandle → (offset num_blocks : ℕ) → Submitted
  pub unmap_blocks : BdevHandle → (offset num_blocks : ℕ) → Submitted
  pub write_zeroes_blocks : BdevHandle → (offset num_blocks : ℕ) → Submitted
  pub reset_bdev : BdevHandle → Submitted

-- `try_for_each`, with the count of the handles that accepted.
unfoldable pub try_for_each : (BdevHandle → Submitted) → List BdevHandle → ℕ → ℕ × Submitted
try_for_each f [] inflight = (inflight, ok tt)
try_for_each f (h ∷ hs) inflight =
    let rest = try_for_each f hs (add_u8 inflight 1) in
    elim (f h) [ ok _ ↦ rest | err e ↦ (inflight, err e) ]

abbrev pub submit_status : Submitted → IoStatus
submit_status (ok _) = pending
submit_status (err enomem) = no_memory
submit_status (err _) = failed

-- The end of `submit_all`, in a release build: a debug build also asserts that the error of an I/O
-- that no child accepted is ENOMEM or EINVAL.
abbrev pub reject_status : Submitted → IoStatus
reject_status (err enomem) = no_memory
reject_status _ = failed

unfoldable pub after_submit : NexusBio → ℕ × Submitted → NexusBio × Submitted
after_submit io (inflight, result) =
    if inflight == 0 then (io_complete io (reject_status result), result) else (
      set_ctx io (record (io.ctx) { in_flight = inflight; status = submit_status result }),
      result,
    )

module _ (spdk : Spdk) (data_ent_offset : ℕ) where
  -- `submit_write`, `submit_unmap`, `submit_write_zeroes`, `submit_reset`; `none` for the rest.
  unfoldable pub submit_one : NexusBio → Option (BdevHandle → Submitted)
  submit_one io =
      let offset = add_u64 io.offset data_ent_offset in
      elim io.io_type [
        | write ↦ some (λ h. spdk.writev_blocks h offset io.num_blocks)
        | unmap ↦ some (λ h. spdk.unmap_blocks h offset io.num_blocks)
        | write_zeros ↦ some (λ h. spdk.write_zeroes_blocks h offset io.num_blocks)
        | reset ↦ some (λ h. spdk.reset_bdev h)
        | _ ↦ none
      ]

  unfoldable pub submit_all : NexusChannelInner → NexusBio → NexusBio × Submitted
  unfolding submit_one try_for_each after_submit
  submit_all channel io = elim (submit_one io) [
    | some f ↦ after_submit io (try_for_each f channel.writers 0)
    | none ↦ (panic io, ok tt)
  ]

  unfoldable pub submit_read : NexusBio → BdevHandle → Submitted
  submit_read io h = spdk.readv_blocks h (add_u64 io.offset data_ent_offset) io.num_blocks

  unfoldable pub readv : NexusChannelInner → NexusBio → NexusChannelInner × (NexusBio × Submitted)
  unfolding child_select submit_read
  readv channel io =
      let (channel', selected) = child_select channel in
      elim selected [
        | none ↦ (channel', (io_complete io failed, err enodev))
        | some i ↦ elim (get_elem? channel.readers i) [
          | none ↦ (channel', (panic io, err enodev))
          | some h ↦ elim (submit_read io h) [
            | err e ↦ (channel', (io, err e))
            | ok _ ↦ (
              channel',
              (set_ctx io (record (io.ctx) { in_flight = add_u8 io.ctx.in_flight 1 }), ok tt),
            )
          ]
        ]
      ]

  -- The `match io.cmd()` of `nexus_submit_io`.
  unfoldable pub submit_cmd :
      IoType → NexusChannelInner → NexusBio → NexusChannelInner × (NexusBio × Submitted)
  unfolding readv submit_all
  submit_cmd read channel io = readv channel io
  submit_cmd write channel io = (channel, submit_all channel io)
  submit_cmd write_zeros channel io = (channel, submit_all channel io)
  submit_cmd reset channel io = (channel, submit_all channel io)
  submit_cmd unmap channel io = (channel, submit_all channel io)
  submit_cmd flush channel io = (channel, (io_complete io success, ok tt))
  submit_cmd nvme_admin channel io = (channel, (io_complete io failed, err einval))
  submit_cmd _ channel io = (channel, (io_complete io failed, err eopnotsupp))

  unfoldable pub nexus_submit_io :
      NexusChannelInner → NexusBio → NexusChannelInner × (NexusBio × Submitted)
  unfolding submit_cmd
  nexus_submit_io channel io = submit_cmd io.io_type channel io
