-- ===== src/Label/Disk.antt =====
-- Labels on a child (nexus_label.rs): `probe_label`, `write_label`, and the buffers that it writes.
use co_create_openebs.Label.Validate.{
  read_primary_header, read_partitions, read_mbr, consistency_check, read_secondary_header,
  table_bytes, fail_if,
}
use co_create_openebs.Label.Layout.{
  LabelError, ProbeError, NexusLabel, GptEntry, NexusLabelStatus, Pmbr, handle_error, both,
  GptHeader, secondary_only, primary_only, write_error, invalid_label, get_blocks, neither,
  serialize_error, write_alloc, read_alloc, read_error, mbr_size,
}
use co_create_openebs.Label.Format.{Buffer, Codec, to_primary, serialize_entry, to_backup}
use co_create_openebs.Prelude.{
  ℕ, List, Result, Option, ok, some, if◌then◌else◌, err, ◌∷◌, ◌==◌, none, ltb, Bool, leb, ◌&&◌, suc,
  not, ◌+◌, mul_u64, [], ◌-◌, length, ◌>>=◌, ◌>>◌, map_err, sub_u64, add_u64, filter,
}

-- A child as its labels see it: the result of `handle`, the geometry of its device, which sizes fail
-- to be allocated, at which offsets reads and writes fail, and what is on the device.
pub record LabelDevice : Type 0 where
  pub handle_fails : Option ℕ
  pub block_len : ℕ
  pub num_blocks : ℕ
  pub alloc_fails : (size : ℕ) → Option ℕ
  pub read_fails : (offset : ℕ) → Option ℕ
  pub write_fails : (offset : ℕ) → Option ℕ
  pub contents : ℕ → ℕ

-- An error if there is one.
abbrev pub check_fails : (ℕ → LabelError) → Option ℕ → Result LabelError (Unit {0})
check_fails f none = ok tt
check_fails f (some e) = err (f e)

unfoldable pub read_at : LabelDevice → (offset len : ℕ) → Result LabelError Buffer
read_at d offset len = do
  check_fails read_error (d.read_fails offset)
  ok (record { len = len; byte = λ i. d.contents (offset + i) })

-- The bytes `f` with those of a list from `at` on.
abbrev pub overlay : (ℕ → ℕ) → (at : ℕ) → List ℕ → ℕ → ℕ
overlay f at [] i = f i
overlay f at (b ∷ bs) i = if i == at then b else overlay f (suc at) bs i

-- `serialize_into` with the cursor at `pos`, which fails at the end of the buffer.
unfoldable pub serialize_into : Buffer → (pos : ℕ) → List ℕ → Result LabelError Buffer
serialize_into buf pos bytes =
    if ltb buf.len (pos + length bytes)
    then err serialize_error
    else ok (record buf { byte = overlay buf.byte pos bytes })

-- The contents of a device with a buffer written at `offset`.
abbrev pub stored : (ℕ → ℕ) → (offset : ℕ) → Buffer → ℕ → ℕ
stored f offset buf i =
    if leb offset i && ltb i (offset + buf.len) then buf.byte (i - offset) else f i

-- The device after the checks before a write.
abbrev pub store_if :
    LabelDevice
    → (offset : ℕ) → Buffer
    → Result LabelError (Unit {0})
    → LabelDevice × Result LabelError (Unit {0})
store_if d offset buf (err e) = (d, err e)
store_if d offset buf (ok _) = (record d { contents = stored d.contents offset buf }, ok tt)

unfoldable pub write_at :
    LabelDevice → (offset : ℕ) → Buffer → LabelDevice × Result LabelError (Unit {0})
write_at d offset buf =
    store_if d offset buf
      (do check_fails handle_error d.handle_fails; check_fails write_error (d.write_fails offset))

-- `DmaBuf::new`, which clears the buffer.
abbrev pub zeroed : (len : ℕ) → Buffer
zeroed len = record { len = len; byte = λ i. 0 }

module _ (c : Codec) where
  -- The secondary header for a primary one: that of the device if it is good and agrees, else a new
  -- one.
  unfoldable pub secondary_for :
      (primary : GptHeader)
      → Result ProbeError GptHeader
      → Result LabelError (NexusLabelStatus × (GptHeader × GptHeader))
  secondary_for primary (err _) = ok (primary_only, (primary, to_backup c primary))
  secondary_for primary (ok secondary) = do
    map_err invalid_label (consistency_check primary secondary)
    ok (both, (primary, secondary))

  -- The headers where the primary one is not valid.
  unfoldable pub primary_for :
      ProbeError
      → Result ProbeError GptHeader
      → Result LabelError (NexusLabelStatus × (GptHeader × GptHeader))
  primary_for e (err _) = err (invalid_label e)
  primary_for e (ok secondary) = ok (secondary_only, (to_primary c secondary, secondary))

  unfoldable pub choose_headers :
      (primary secondary : Result ProbeError GptHeader)
      → Result LabelError (NexusLabelStatus × (GptHeader × GptHeader))
  choose_headers (ok primary) secondary = secondary_for primary secondary
  choose_headers (err e) secondary = primary_for e secondary

  -- The header whose table is read.
  abbrev pub active_header : NexusLabelStatus → (primary secondary : GptHeader) → GptHeader
  active_header secondary_only primary secondary = secondary
  active_header _ primary secondary = primary

  -- Both headers of the device.
  unfoldable pub probe_headers :
      LabelDevice → Result LabelError (NexusLabelStatus × (GptHeader × GptHeader))
  probe_headers d = do
    buf ← read_at d d.block_len d.block_len
    buf' ← read_at d (mul_u64 (sub_u64 d.num_blocks 1) d.block_len) d.block_len
    choose_headers (read_primary_header c buf d.block_len d.num_blocks)
        (read_secondary_header c buf' d.block_len d.num_blocks)

  -- The size in the MBR against the GPT.
  abbrev pub mbr_size_differs : Pmbr → (primary : GptHeader) → Bool
  mbr_size_differs mbr primary =
      not (mbr.entry.num_sectors == 0xffff_ffff) && not (mbr.entry.num_sectors == primary.lba_alt)

  abbrev pub is_used : GptEntry → Bool
  is_used e = ltb 0 e.ent_start && ltb 0 e.ent_end

  unfoldable pub probe_partitions : LabelDevice → GptHeader → Result LabelError (List GptEntry)
  probe_partitions d active = do
    let size = mul_u64 (get_blocks (table_bytes active) d.block_len) d.block_len
    check_fails read_alloc (d.alloc_fails size)
    buf ← read_at d (mul_u64 active.lba_table d.block_len) size
    map_err invalid_label (read_partitions c buf active)

  unfoldable pub probe_label : LabelDevice → Result LabelError NexusLabel
  probe_label d = do
    check_fails handle_error d.handle_fails
    check_fails read_alloc (d.alloc_fails d.block_len)
    buf ← read_at d 0 d.block_len
    mbr ← map_err invalid_label (read_mbr c buf)
    headers ← probe_headers d
    let primary = headers.1.0
    let secondary = headers.1.1
    map_err invalid_label (fail_if (mbr_size_differs mbr primary) mbr_size)
    partitions ← probe_partitions d (active_header headers.0 primary secondary)
    ok (record {
      status = headers.0;
      mbr = mbr;
      primary = primary;
      partitions = filter is_used partitions;
      secondary = secondary;
    })

  -- The loop that writes the entries, with the cursor at `pos`.
  unfoldable pub serialize_table : Buffer → (pos : ℕ) → List GptEntry → Result LabelError Buffer
  serialize_table buf pos [] = ok buf
  serialize_table buf pos (e ∷ es) = do
    let bytes = serialize_entry c e
    buf' ← serialize_into buf pos bytes
    serialize_table buf' (pos + length bytes) es

  -- Both buffers: an offset on the device with what is written there.
  unfoldable pub get_primary_data : LabelDevice → NexusLabel → Result LabelError (ℕ × Buffer)
  get_primary_data d label = do
    check_fails handle_error d.handle_fails
    let len = mul_u64 label.primary.lba_start d.block_len
    check_fails write_alloc (d.alloc_fails len)
    buf ← serialize_into (zeroed len) 440 (c.serialize_mbr label.mbr)
    buf' ←
        serialize_into buf (mul_u64 label.primary.lba_self d.block_len)
          (c.serialize_header label.primary)
    buf'' ← serialize_table buf' (mul_u64 label.primary.lba_table d.block_len) label.partitions
    ok (0, buf'')

  unfoldable pub get_secondary_data : LabelDevice → NexusLabel → Result LabelError (ℕ × Buffer)
  get_secondary_data d label = do
    check_fails handle_error d.handle_fails
    let blocks = sub_u64 label.secondary.lba_self label.secondary.lba_table
    let len = mul_u64 (add_u64 blocks 1) d.block_len
    check_fails write_alloc (d.alloc_fails len)
    buf ← serialize_table (zeroed len) 0 label.partitions
    buf' ← serialize_into buf (mul_u64 blocks d.block_len) (c.serialize_header label.secondary)
    ok (mul_u64 label.secondary.lba_table d.block_len, buf')

  abbrev pub Written : Type 0
  Written = LabelDevice × Result LabelError (Unit {0})

  abbrev pub write_data : LabelDevice → Result LabelError (ℕ × Buffer) → Written
  write_data d (err e) = (d, err e)
  write_data d (ok (offset, buf)) = write_at d offset buf

  abbrev pub then_write : Written → Result LabelError (ℕ × Buffer) → Written
  then_write (d, err e) next = (d, err e)
  then_write (d, ok _) next = write_data d next

  -- Of a label that is on no part of the device, both buffers are made before one is written.
  abbrev pub write_both :
      LabelDevice → (primary secondary : Result LabelError (ℕ × Buffer)) → Written
  write_both d (err e) secondary = (d, err e)
  write_both d (ok primary) (err e) = (d, err e)
  write_both d (ok primary) (ok secondary) = then_write (write_data d (ok primary)) (ok secondary)

  unfoldable pub write_label : LabelDevice → NexusLabel → Written
  write_label d label = elim label.status [
    | both ↦ (d, ok tt)
    | primary_only ↦ write_data d (get_secondary_data d label)
    | secondary_only ↦ write_data d (get_primary_data d label)
    | neither ↦ write_both d (get_primary_data d label) (get_secondary_data d label)
  ]
