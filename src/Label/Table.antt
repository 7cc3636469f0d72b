-- ===== src/Label/Table.antt =====
-- The headers and the partition table in a buffer (`serialize_into`, `GptEntry::from_slice`,
-- `GptHeader::from_slice` of nexus_label.rs).
use co_create_openebs.Label.Entries.{IsEntry, length-serialize_entry, entry_read_back}
use co_create_openebs.Label.Bytes.{
  Agrees, join_bytes, split_bytes, overlay-Agrees, move_bytes, overlay_keeps,
}
use co_create_openebs.Label.Validate.{check_header, header_from_slice, bytes_eq}
use co_create_openebs.Label.Layout.{GptHeader, GptEntry, efi_part, revision_1}
use co_create_openebs.Label.Laws.{IsCodec, IsHeader}
use co_create_openebs.Label.Format.{
  Codec, Buffer, to_backup, entries_from_slice, serialize_entries, checksum_header, header_crc,
  serialize_entry,
}
use co_create_openebs.Label.Disk.{serialize_into, serialize_table, overlay}
use co_create_openebs.Prelude.{
  ℕ, List, ◌≤◌, ◌+◌, ◌≡◌, true, ok, arith, length, All, ◌∷◌, ◌==◌, ltb, [], ◌*◌, false, refl, inl,
}

pub serialize_into-eq :
    (buf : Buffer) (pos : ℕ) (bytes : List ℕ)
    → pos + length bytes ≤ buf.len
    → serialize_into buf pos bytes ≡ ok (record buf { byte = overlay buf.byte pos bytes })
unfolding serialize_into
serialize_into-eq buf pos bytes l =
    let e : ltb buf.len (pos + length bytes) ≡ false = ground arith in rw (e, serialize_into) refl

-- A header that its checksum, size, signature and revision make valid.
pub record IsSigned (c : Codec) (h : GptHeader) : Type 0 where
  pub header : IsHeader h
  pub size : h.header_size ≡ 92
  pub signature : h.signature ≡ efi_part
  pub revision : h.revision ≡ revision_1
  pub checksum : header_crc c h ≡ h.self_checksum

module _ (c : Codec) (law : IsCodec c) where
  -- `Written buf pos es buf'`: `buf'` is `buf` with the entries from `pos` on.
  pub record IsTable (buf : Buffer) (pos : ℕ) (es : List GptEntry) (buf' : Buffer) : Type 0 where
    pub same_len : buf'.len ≡ buf.len
    pub there : Agrees buf'.byte pos (serialize_entries c es)
    pub before :
        (at : ℕ) (xs : List ℕ)
        → at + length xs ≤ pos
        → Agrees buf.byte at xs
        → Agrees buf'.byte at xs

  pub serialize_table-eq :
      (es : List GptEntry) (buf : Buffer) (pos : ℕ)
      → All (IsEntry c law) es
      → pos + 128 * length es ≤ buf.len
      → (buf' : Buffer) × ((serialize_table c buf pos es ≡ ok buf') × IsTable buf pos es buf')
  unfolding serialize_table serialize_entries
  serialize_table-eq [] buf pos a l =
      (buf, (refl, record { same_len = refl; there = tt; before = λ at xs p h. h }))
  serialize_table-eq (e ∷ es) buf pos a l =
      let bytes = serialize_entry c e in
      let n = length-serialize_entry c law e a.0 in
      let next : Buffer = record buf { byte = overlay buf.byte pos bytes } in
      let q = serialize_into-eq buf pos bytes (omega (arith, n)) in
      let (buf', (r, t)) = serialize_table-eq es next (pos + length bytes) a.1 (omega (arith, n)) in
      (
        buf',
        (
          rw (q, serialize_table) r,
          record {
            same_len = t.same_len;
            there =
                join_bytes buf'.byte pos bytes (serialize_entries c es)
                  (t.before pos bytes (omega arith) (overlay-Agrees buf.byte pos bytes)) t.there;
            before = λ at xs p h.
                t.before at xs (omega arith) (overlay_keeps buf.byte pos bytes at xs (inl p) h);
          },
        ),
      )

  pub entries_read_back :
      (es : List GptEntry) (buf : Buffer) (pos : ℕ)
      → All (IsEntry c law) es
      → pos + 128 * length es ≤ buf.len
      → Agrees buf.byte pos (serialize_entries c es)
      → entries_from_slice c (length es) buf pos ≡ ok es
  unfolding entries_from_slice serialize_entries
  entries_read_back [] buf pos a l h = refl
  entries_read_back (e ∷ es) buf pos a l h =
      let n = length-serialize_entry c law e a.0 in
      let (x, y) = split_bytes buf.byte pos (serialize_entry c e) (serialize_entries c es) h in
      let y' =
        move_bytes buf.byte (pos + length (serialize_entry c e)) (pos + 128)
          (serialize_entries c es) (omega (arith, n)) y in
      rw
        (
          entry_read_back c law e buf pos a.0 (omega arith) x,
          entries_read_back es buf (pos + 128) a.1 (omega arith) y',
          entries_from_slice,
        )
        refl

  pub bytes_eq_refl : (xs : List ℕ) → bytes_eq xs xs ≡ true
  bytes_eq_refl [] = refl
  bytes_eq_refl (x ∷ xs) = let e : (x == x) ≡ true = ground arith in rw (e, bytes_eq_refl xs) refl

  check_header-IsSigned : (h : GptHeader) → IsSigned c h → check_header c h ≡ ok h
  unfolding check_header
  check_header-IsSigned h s =
      let z : (h.header_size == 92) ≡ true = ground (arith, s.size) in
      let a : bytes_eq h.signature efi_part ≡ true = rw s.signature refl in
      let b : bytes_eq h.revision revision_1 ≡ true = rw s.revision refl in
      let k : (header_crc c h == h.self_checksum) ≡ true = ground (arith, s.checksum) in
      rw (z, a, b, k, check_header) refl

  pub header_read_back :
      (buf : Buffer) (h : GptHeader)
      → IsSigned c h
      → 92 ≤ buf.len
      → Agrees buf.byte 0 (c.serialize_header h)
      → header_from_slice c buf ≡ ok h
  unfolding header_from_slice
  header_read_back buf h s l a =
      rw (law.header_read buf 0 h s.header l a, header_from_slice) (check_header-IsSigned h s)

  -- The backup of a header is valid where it is.
  pub to_backup-IsSigned : (h : GptHeader) → IsSigned c h → IsSigned c (to_backup c h)
  unfolding to_backup checksum_header
  to_backup-IsSigned h s = record {
    header = record {
      signature = s.header.signature;
      revision = s.header.revision;
      header_size = s.header.header_size;
      checksum = law.crc _;
      reserved = s.header.reserved;
      self_ = s.header.alt;
      alt = s.header.self_;
      start = s.header.start;
      end_ = s.header.end_;
      guid = s.header.guid;
      table = omega arith;
      entries = s.header.entries;
      entry = s.header.entry;
      crc = s.header.crc;
    };
    size = s.size;
    signature = s.signature;
    revision = s.revision;
    checksum = refl;
  }
