-- ===== src/Label/Probe.antt =====
-- A label that stands on a device is what `probe_label` finds there (nexus_label.rs).
use co_create_openebs.Label.Entries.{IsEntry}
use co_create_openebs.Label.Table.{
  IsSigned, to_backup-IsSigned, header_read_back, bytes_eq_refl, entries_read_back,
}
use co_create_openebs.Label.Bytes.{Agrees, shift_bytes, move_bytes}
use co_create_openebs.Label.Geometry.{
  IsPrimary, validate_primary-IsPrimary, validate_secondary-IsPrimary, get_blocks_one, mul_mono,
}
use co_create_openebs.Label.Layout.{NexusLabel, GptHeader, get_blocks}
use co_create_openebs.Label.Validate.{
  read_secondary_header, read_primary_header, consistency_check, check_entries,
  validate_secondary_header, table_bytes, read_partitions, validate_partitions,
}
use co_create_openebs.Label.Laws.{IsCodec, IsPmbr}
use co_create_openebs.Label.Format.{
  Codec, Buffer, to_backup, serialize_entries, checksum_header, checksum_entries,
  entries_from_slice,
}
use co_create_openebs.Label.Disk.{LabelDevice, probe_partitions, read_at, is_used, mbr_size_differs}
use co_create_openebs.Prelude.{
  false, true, ℕ, ◌-◌, ◌*◌, ◌≡◌, none, ok, ◌≤◌, ◌+◌, ◌<◌, mul_u64, u64_mod, length, All, refl,
  arith, filter, ◌∷◌, [], ◌∙◌, sym, ap, ◌==◌,
}

-- A label that is right for a device of `n` blocks of `s` bytes.
pub record IsLabel (c : Codec) (law : IsCodec c) (label : NexusLabel) (s n : ℕ) : Type 0 where
  pub place : IsPrimary label.primary s n
  pub signed : IsSigned c label.primary
  pub secondary : label.secondary ≡ to_backup c label.primary
  pub two : length label.partitions ≡ 2
  pub entries : All (IsEntry c law) label.partitions
  pub used : filter (is_used c) label.partitions ≡ label.partitions
  pub checked : check_entries label.primary label.partitions ≡ ok tt
  pub crc : checksum_entries c label.partitions 2 ≡ label.primary.table_crc
  pub mbr : IsPmbr label.mbr
  pub mbr_magic : label.mbr.signature ≡ (0x55 ∷ 0xaa ∷ [])
  pub mbr_size : mbr_size_differs c label.mbr label.primary ≡ false

-- A device that can be opened and read, with blocks of at least 512 bytes and no more of them than 64 bits
-- can address.
pub record IsWorking (d : LabelDevice) (s n : ℕ) : Type 0 where
  pub handles : d.handle_fails ≡ none
  pub block_len : d.block_len ≡ s
  pub num_blocks : d.num_blocks ≡ n
  pub allocates : (size : ℕ) → d.alloc_fails size ≡ none
  pub reads : (offset : ℕ) → d.read_fails offset ≡ none
  pub large : 512 ≤ s
  pub addressed : n * s < u64_mod

-- The place of the last block.
abbrev pub last_block : (s n : ℕ) → ℕ
last_block s n = (n - 1) * s

same_number : (x y : ℕ) → x ≡ y → (x == y) ≡ true
same_number x y e = ground arith

module _ (c : Codec) (law : IsCodec c) where
  pub record HasMbr (f : ℕ → ℕ) (label : NexusLabel) : Type 0 where
    pub mbr : Agrees f 440 (c.serialize_mbr label.mbr)

  pub record HasPrimary (f : ℕ → ℕ) (label : NexusLabel) (s : ℕ) : Type 0 where
    pub header : Agrees f s (c.serialize_header label.primary)
    pub table : Agrees f (2 * s) (serialize_entries c label.partitions)

  pub record HasSecondary (f : ℕ → ℕ) (label : NexusLabel) (s n : ℕ) : Type 0 where
    pub header : Agrees f (last_block s n) (c.serialize_header label.secondary)
    pub table : Agrees f ((label.primary.lba_end + 1) * s) (serialize_entries c label.partitions)

  pub read_at-eq :
      (d : LabelDevice) (s n offset len : ℕ)
      → IsWorking d s n
      → read_at d offset len ≡ ok (record { len = len; byte = λ i. d.contents (offset + i) })
  unfolding read_at
  read_at-eq d s n offset len w = rw (w.reads offset, read_at) refl

  abbrev pub part : LabelDevice → (offset len : ℕ) → Buffer
  part d offset len = record { len = len; byte = λ i. d.contents (offset + i) }

  pub primary_read :
      (d : LabelDevice) (label : NexusLabel) (s n : ℕ)
      → IsLabel c law label s n
      → IsWorking d s n
      → HasPrimary d.contents label s
      → read_primary_header c (part d s s) s n ≡ ok label.primary
  unfolding read_primary_header
  primary_read d label s n h w p =
      let a = shift_bytes d.contents s 0 (c.serialize_header label.primary) (
        move_bytes d.contents s (s + 0) (c.serialize_header label.primary) (omega arith)
          p.header) in
      rw
        (
          header_read_back c law (part d s s) label.primary h.signed (omega (arith, w.large)) a,
          validate_primary-IsPrimary label.primary s n h.place,
          read_primary_header,
        )
        refl

  backup_valid :
      (h : GptHeader) (s n : ℕ)
      → IsPrimary h s n
      → validate_secondary_header (to_backup c h) s n ≡ ok tt
  unfolding to_backup checksum_header
  backup_valid h s n p = validate_secondary-IsPrimary h s n _ p

  pub secondary_read :
      (d : LabelDevice) (label : NexusLabel) (s n : ℕ)
      → IsLabel c law label s n
      → IsWorking d s n
      → HasSecondary d.contents label s n
      → read_secondary_header c (part d (last_block s n) s) s n ≡ ok label.secondary
  unfolding read_secondary_header
  secondary_read d label s n h w p =
      let at = last_block s n in
      let a = shift_bytes d.contents at 0 (c.serialize_header label.secondary) (
        move_bytes d.contents at (at + 0) (c.serialize_header label.secondary) (omega arith)
          p.header) in
      let signed : IsSigned c label.secondary =
        rw h.secondary (to_backup-IsSigned c law label.primary h.signed) in
      let valid : validate_secondary_header label.secondary s n ≡ ok tt =
        rw h.secondary (backup_valid label.primary s n h.place) in
      rw
        (
          header_read_back c law (part d at s) label.secondary signed (omega (arith, w.large)) a,
          valid,
          read_secondary_header,
        )
        refl

  pub consistent : (h : GptHeader) → consistency_check h (to_backup c h) ≡ ok tt
  unfolding consistency_check to_backup checksum_header
  consistent h = ground (arith, bytes_eq_refl c law h.guid.node)

  table_checked :
      (active : GptHeader) (label : NexusLabel) (buf : Buffer)
      → length label.partitions ≡ 2
      → active.num_entries ≡ 2
      → check_entries active label.partitions ≡ ok tt
      → checksum_entries c label.partitions 2 ≡ active.table_crc
      → entries_from_slice c (length label.partitions) buf 0 ≡ ok label.partitions
      → read_partitions c buf active ≡ ok label.partitions
  unfolding read_partitions validate_partitions
  table_checked active label buf two e k crc r =
      let n : active.num_entries ≡ length label.partitions = e ∙ sym two in
      let r' : entries_from_slice c active.num_entries buf 0 ≡ ok label.partitions =
        ap (λ (m : ℕ). entries_from_slice c m buf 0) n ∙ r in
      let q : (checksum_entries c label.partitions active.num_entries == active.table_crc) ≡ true =
        same_number _ _ (ap (λ (m : ℕ). checksum_entries c label.partitions m) e ∙ crc) in
      rw (r', k, q, read_partitions, validate_partitions) refl

  -- The table where `at` says, of a header with two entries of 128 bytes.
  pub table_read :
      (d : LabelDevice) (label : NexusLabel) (active : GptHeader) (s n at : ℕ)
      → IsLabel c law label s n
      → IsWorking d s n
      → active.num_entries ≡ 2
      → active.entry_size ≡ 128
      → mul_u64 active.lba_table s ≡ at
      → check_entries active label.partitions ≡ ok tt
      → checksum_entries c label.partitions 2 ≡ active.table_crc
      → Agrees d.contents at (serialize_entries c label.partitions)
      → probe_partitions c d active ≡ ok label.partitions
  unfolding probe_partitions read_at
  table_read d label active s n at h w e z m k crc a =
      let bytes : table_bytes active ≡ 256 = rw (e, z) refl in
      let one : get_blocks (table_bytes active) s ≡ 1 =
        rw bytes (get_blocks_one 256 s (omega arith) (omega (arith, w.large))) in
      let size : mul_u64 (get_blocks (table_bytes active) s) s ≡ s =
        rw one (omega (arith, mul_mono 1 n s (omega (arith, h.place.alt)), w.addressed)) in
      let read =
        entries_read_back c law label.partitions (part d at s) 0 h.entries
          (omega (arith, h.two, w.large))
          (shift_bytes d.contents at 0 (serialize_entries c label.partitions) (
            move_bytes d.contents at (at + 0) (serialize_entries c label.partitions) (omega arith)
              a)) in
      let parts = table_checked active label (part d at s) h.two e k crc read in
      rw (w.block_len, size, w.allocates s, m, read_at-eq d s n at s w, parts, probe_partitions)
        refl
