-- ===== src/Metadata/Signed.antt =====
-- The index as it is written (`write_index`, `MetaDataIndexEntry::from_slice` of nexus_metadata.rs):
-- the metadata whose parts have their places, and its bytes in a buffer.
use co_create_openebs.Label.Table.{serialize_into-eq}
use co_create_openebs.Label.Disk.{overlay}
use co_create_openebs.Metadata.Slices.{factor_bounded}
use co_create_openebs.Label.Bytes.{Agrees, join_bytes, overlay-Agrees, overlay_keeps}
use co_create_openebs.Label.Layout.{get_blocks}
use co_create_openebs.Label.Format.{Buffer}
use co_create_openebs.Metadata.Read.{index_from_slice, serialize_indexes}
use co_create_openebs.Metadata.Write.{write_entries}
use co_create_openebs.Metadata.Laws.{IsMetaCodec, FitsEntry, FitsHeader}
use co_create_openebs.Metadata.Layout.{
  MetaCodec, MetaDataHeader, MetaDataIndexEntry, MetaChild, maya_data,
}
use co_create_openebs.Prelude.{
  ℕ, ◌≡◌, ◌<◌, List, none, u32_mod, All, ◌≤◌, ◌++◌, ◌+◌, length, arith, ok, ◌*◌, ◌∷◌, u64_mod, refl,
  length-append, [], inl, append_assoc,
}

-- A child whose device does what it is asked for.
pub record IsWorking (k : MetaChild) : Type 0 where
  pub dev : k.get_dev_fails ≡ none
  pub alloc : (len : ℕ) → k.device.alloc_fails len ≡ none
  pub reads : (offset : ℕ) → k.device.read_fails offset ≡ none
  pub writes : (offset : ℕ) → k.device.write_fails offset ≡ none

-- On blocks of `s` bytes, the header, the index and the objects are apart and are all on the device.
pub record IsPlaced (s : ℕ) (h : MetaDataHeader) : Type 0 where
  pub positive : 0 < s
  pub signature : h.signature ≡ maya_data
  pub size : h.header_size ≡ 72
  pub entry : h.entry_size ≡ 44
  pub gap : get_blocks 72 s ≤ h.index_start
  pub objects : h.index_start + get_blocks (h.max_entries * 44) s ≤ h.data_start
  pub small : h.max_entries * 44 < u32_mod
  pub used : h.used_entries ≤ h.max_entries
  pub generation : h.generation < u64_mod
  pub order : h.data_start ≤ h.data_end
  pub bound : (h.self_lba + h.data_end + 1) * s < u64_mod

-- The same header but for its checksums.
abbrev pub with_sums : MetaDataHeader → (index_sum self_sum : ℕ) → MetaDataHeader
with_sums h a b = record h { index_checksum = a; self_checksum = b }

module _ (m : MetaCodec) (law : IsMetaCodec m) where
  pub header-FitsHeader :
      (s : ℕ) (h : MetaDataHeader) (a b : ℕ)
      → IsPlaced s h
      → a < u32_mod
      → b < u32_mod
      → FitsHeader (with_sums h a b)
  header-FitsHeader s h a b p x y =
      let l = factor_bounded (h.self_lba + h.data_end + 1) s p.positive p.bound in
      record {
        signature = rw p.signature (
          refl,
          (
            omega arith,
            (
              omega arith,
              (
                omega arith,
                (omega arith, (omega arith, (omega arith, (omega arith, (omega arith, tt))))),
              ),
            ),
          ),
        );
        size = omega (arith, p.size);
        checksum = y;
        generation = p.generation;
        self_ = omega arith;
        start = omega (arith, p.objects, p.order);
        used = omega (arith, p.used, p.small);
        max = omega (arith, p.small);
        entry = omega (arith, p.entry);
        index_checksum = x;
        data_start = omega (arith, p.order);
        data_end = omega arith;
      }

  -- Entries one behind the other take 44 bytes each.
  pub length-serialize_indexes :
      (es : List MetaDataIndexEntry)
      → All FitsEntry es
      → length (serialize_indexes m es) ≡ 44 * length es
  unfolding serialize_indexes
  length-serialize_indexes [] a = refl
  length-serialize_indexes (e ∷ es) a = omega (
    arith,
    length-append (m.serialize_index e) (serialize_indexes m es),
    law.entry_len e a.0,
    length-serialize_indexes es a.1,
  )

  pub indexes_read_back :
      (es : List MetaDataIndexEntry) (rest : List ℕ)
      → All FitsEntry es
      → index_from_slice m (serialize_indexes m es ++ rest) (length es) ≡ ok es
  unfolding index_from_slice serialize_indexes
  indexes_read_back [] rest a = refl
  indexes_read_back (e ∷ es) rest a =
      rw
        (
          append_assoc (m.serialize_index e) (serialize_indexes m es) rest,
          law.entry_read e (serialize_indexes m es ++ rest) a.0,
          indexes_read_back es rest a.1,
          index_from_slice,
        )
        refl

  -- `buf'` is `buf` with the entries from `pos` on.
  pub record IsIndexed (buf : Buffer) (pos : ℕ) (es : List MetaDataIndexEntry) (buf' : Buffer)
      : Type 0 where
    pub same_len : buf'.len ≡ buf.len
    pub there : Agrees buf'.byte pos (serialize_indexes m es)
    pub before :
        (at : ℕ) (xs : List ℕ)
        → at + length xs ≤ pos
        → Agrees buf.byte at xs
        → Agrees buf'.byte at xs

  pub write_entries-eq :
      (es : List MetaDataIndexEntry) (buf : Buffer) (pos : ℕ)
      → All FitsEntry es
      → pos + 44 * length es ≤ buf.len
      → (buf' : Buffer) × ((write_entries m buf pos es ≡ ok buf') × IsIndexed buf pos es buf')
  unfolding write_entries serialize_indexes
  write_entries-eq [] buf pos a l =
      (buf, (refl, record { same_len = refl; there = tt; before = λ at xs p h. h }))
  write_entries-eq (e ∷ es) buf pos a l =
      let bytes = m.serialize_index e in
      let n = law.entry_len e a.0 in
      let next : Buffer = record buf { byte = overlay buf.byte pos bytes } in
      let q = serialize_into-eq buf pos bytes (omega (arith, n)) in
      let (buf', (r, t)) = write_entries-eq es next (pos + length bytes) a.1 (omega (arith, n)) in
      (
        buf',
        (
          rw (q, write_entries) r,
          record {
            same_len = t.same_len;
            there =
                join_bytes buf'.byte pos bytes (serialize_indexes m es)
                  (t.before pos bytes (omega arith) (overlay-Agrees buf.byte pos bytes)) t.there;
            before = λ at xs p h.
                t.before at xs (omega arith) (overlay_keeps buf.byte pos bytes at xs (inl p) h);
          },
        ),
      )
