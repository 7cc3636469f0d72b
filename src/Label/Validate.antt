-- ===== src/Label/Validate.antt =====
-- The checks of what is read from a device: `from_slice`, `validate_primary_header` and the other
-- checks of nexus_label.rs. They run in this order, and the first that fails gives the error.
use co_create_openebs.Label.Layout.{
  GptGuid, GptHeader, ProbeError, GptEntry, get_blocks, Pmbr, gpt_table_size, deserialize_error,
  compare_header_location, primary_location, partition_table_checksum, partition_start,
  gpt_header_size, secondary_location, efi_part, negative_partition_size, first_usable_block,
  partition_end, mbr_signature, last_usable_block, compare_disk_guid, partition_table_location,
  revision_1, gpt_signature, partition_table_size, compare_partition_entry_count,
  partition_table_space, compare_partition_entry_size, compare_partition_table_checksum,
  gpt_checksum,
}
use co_create_openebs.Label.Format.{Codec, Buffer, entries_from_slice, checksum_entries, header_crc}
use co_create_openebs.Prelude.{
  ℕ, List, Result, Bool, mul_u32, ◌==◌, add_u64, ok, ◌&&◌, none, err, ◌>>◌, true, ◌∷◌, ltb, not,
  ◌+◌, some, [], false, if◌then◌else◌, ◌||◌, leb, ◌>>=◌,
}

abbrev pub Checked : Type 0
Checked = Result ProbeError (Unit {0})

-- `if test { return Err(e) }`.
abbrev pub fail_if : Bool → ProbeError → Checked
fail_if true e = err e
fail_if false e = ok tt

abbrev pub bytes_eq : List ℕ → List ℕ → Bool
bytes_eq [] [] = true
bytes_eq (x ∷ xs) (y ∷ ys) = x == y && bytes_eq xs ys
bytes_eq _ _ = false

abbrev pub guid_eq : GptGuid → GptGuid → Bool
guid_eq g h =
    g.time_low == h.time_low
    && g.time_mid == h.time_mid
    && g.time_high == h.time_high
    && bytes_eq g.node h.node

-- The size of the table, a product of u32.
abbrev pub table_bytes : GptHeader → ℕ
table_bytes h = mul_u32 h.num_entries h.entry_size

abbrev pub lba_after_table : GptHeader → (block_size : ℕ) → ℕ
lba_after_table h block_size = add_u64 h.lba_table (get_blocks gpt_table_size block_size)

unfoldable pub validate_primary_header : GptHeader → (block_size num_blocks : ℕ) → Checked
validate_primary_header p block_size num_blocks = do
  fail_if (not (p.lba_self == 1)) primary_location
  fail_if (not (add_u64 p.lba_alt 1 == num_blocks)) secondary_location
  fail_if (leb p.lba_alt p.lba_end) last_usable_block
  fail_if (not (p.lba_table == add_u64 p.lba_self 1)) partition_table_location
  fail_if (ltb gpt_table_size (table_bytes p)) partition_table_size
  fail_if (ltb p.lba_start (lba_after_table p block_size)) partition_table_space

unfoldable pub validate_secondary_header : GptHeader → (block_size num_blocks : ℕ) → Checked
validate_secondary_header s block_size num_blocks = do
  fail_if (not (s.lba_alt == 1)) primary_location
  fail_if (not (add_u64 s.lba_self 1 == num_blocks)) secondary_location
  fail_if (leb s.lba_start s.lba_alt) first_usable_block
  fail_if (not (s.lba_table == add_u64 s.lba_end 1)) partition_table_location
  fail_if (ltb gpt_table_size (table_bytes s)) partition_table_size
  fail_if (ltb s.lba_self (lba_after_table s block_size)) partition_table_space

abbrev pub check_entry : GptHeader → GptEntry → Checked
check_entry header e = do
  fail_if (ltb 0 e.ent_start && ltb e.ent_start header.lba_start) partition_start
  fail_if (ltb e.ent_end e.ent_start) negative_partition_size
  fail_if (ltb header.lba_end e.ent_end) partition_end

unfoldable pub check_entries : GptHeader → List GptEntry → Checked
check_entries header [] = ok tt
check_entries header (e ∷ es) = check_entry header e >> check_entries header es

unfoldable pub consistency_check : (primary secondary : GptHeader) → Checked
consistency_check p s = do
  fail_if (not (p.lba_self == s.lba_alt)) compare_header_location
  fail_if (not (p.lba_alt == s.lba_self)) compare_header_location
  fail_if (not (p.lba_start == s.lba_start)) first_usable_block
  fail_if (not (p.lba_end == s.lba_end)) last_usable_block
  fail_if (not (guid_eq p.guid s.guid)) compare_disk_guid
  fail_if (not (p.num_entries == s.num_entries)) compare_partition_entry_count
  fail_if (not (p.entry_size == s.entry_size)) compare_partition_entry_size
  fail_if (not (p.table_crc == s.table_crc)) compare_partition_table_checksum

module _ (c : Codec) where
  unfoldable pub validate_partitions : List GptEntry → GptHeader → Checked
  unfolding check_entries checksum_entries
  validate_partitions partitions header =
      check_entries header partitions
      >> fail_if (not (checksum_entries c partitions header.num_entries == header.table_crc))
          partition_table_checksum

  -- The checks of `GptHeader::from_slice`.
  unfoldable pub check_header : GptHeader → Result ProbeError GptHeader
  check_header gpt = do
    fail_if (not (gpt.header_size == 92)) (gpt_header_size gpt.header_size 92)
    fail_if (not (bytes_eq gpt.signature efi_part) || not (bytes_eq gpt.revision revision_1))
        gpt_signature
    fail_if (not (header_crc c gpt == gpt.self_checksum)) gpt_checksum
    ok gpt

  unfoldable pub header_from_slice : Buffer → Result ProbeError GptHeader
  unfolding check_header
  header_from_slice buf = elim (c.deserialize_header buf 0) [
    | none ↦ err deserialize_error
    | some (gpt, _) ↦ check_header gpt
  ]

  unfoldable pub mbr_from_slice : Buffer → Result ProbeError Pmbr
  mbr_from_slice buf = elim (c.deserialize_mbr buf 0) [
    | none ↦ err deserialize_error
    | some (mbr, _) ↦
        if bytes_eq mbr.signature (0x55 ∷ 0xaa ∷ []) then ok mbr else err mbr_signature
  ]

  -- The bytes 440 to 511 of the buffer.
  unfoldable pub read_mbr : Buffer → Result ProbeError Pmbr
  unfolding mbr_from_slice
  read_mbr buf = mbr_from_slice (record { len = 72; byte = λ i. buf.byte (440 + i) })

  unfoldable pub read_primary_header :
      Buffer → (block_size num_blocks : ℕ) → Result ProbeError GptHeader
  unfolding header_from_slice validate_primary_header
  read_primary_header buf block_size num_blocks = do
    header ← header_from_slice buf
    validate_primary_header header block_size num_blocks
    ok header

  unfoldable pub read_secondary_header :
      Buffer → (block_size num_blocks : ℕ) → Result ProbeError GptHeader
  unfolding header_from_slice validate_secondary_header
  read_secondary_header buf block_size num_blocks = do
    header ← header_from_slice buf
    validate_secondary_header header block_size num_blocks
    ok header

  unfoldable pub read_partitions : Buffer → GptHeader → Result ProbeError (List GptEntry)
  unfolding entries_from_slice validate_partitions
  read_partitions buf header = do
    partitions ← entries_from_slice c header.num_entries buf 0
    validate_partitions partitions header
    ok partitions
