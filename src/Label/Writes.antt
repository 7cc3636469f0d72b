-- ===== src/Label/Writes.antt =====
-- What `write_label` of nexus_label.rs puts on the device: the buffers of `get_primary_data` and of
-- `get_secondary_data`.
use co_create_openebs.Label.Geometry.{mul_mono, get_blocks_cover}
use co_create_openebs.Label.Bytes.{overlay-Agrees, overlay_keeps, Agrees, move_bytes}
use co_create_openebs.Label.Table.{
  serialize_into-eq, serialize_table-eq, IsSigned, to_backup-IsSigned,
}
use co_create_openebs.Label.Entries.{IsEntry, length-serialize_entry}
use co_create_openebs.Label.Probe.{IsLabel, IsWorking, HasMbr, HasPrimary}
use co_create_openebs.Label.Statuses.{mul_fits}
use co_create_openebs.Label.Layout.{NexusLabel, GptEntry, get_blocks, gpt_table_size}
use co_create_openebs.Label.Laws.{IsCodec}
use co_create_openebs.Label.Format.{
  Codec, Buffer, serialize_entries, serialize_entry, to_backup, checksum_header,
}
use co_create_openebs.Label.Disk.{
  LabelDevice, get_primary_data, zeroed, overlay, serialize_into, serialize_table,
  get_secondary_data,
}
use co_create_openebs.Prelude.{
  ℕ, List, ok, ◌≡◌, ◌≤◌, ◌*◌, ◌+◌, mul_u64, arith, refl, ◌∙◌, ◌∷◌, [], length, inl, All,
  length-append, sub_u64, add_u64,
}

-- The blocks that the table is given.
abbrev pub table_blocks : (s : ℕ) → ℕ
table_blocks s = get_blocks gpt_table_size s

pub table_room : (s : ℕ) → 512 ≤ s → 256 ≤ table_blocks s * s
table_room s l = omega (arith, get_blocks_cover gpt_table_size s (omega arith))

module _ (c : Codec) (law : IsCodec c) where
  pub length-serialize_entries :
      (es : List GptEntry)
      → All (IsEntry c law) es
      → length (serialize_entries c es) ≡ 128 * length es
  unfolding serialize_entries
  length-serialize_entries [] a = refl
  length-serialize_entries (e ∷ es) a = omega (
    arith,
    length-append {0} (serialize_entry c e) (serialize_entries c es),
    length-serialize_entry c law e a.0,
    length-serialize_entries es a.1,
  )

  pub table_len :
      (label : NexusLabel) (s n : ℕ)
      → IsLabel c law label s n
      → length (serialize_entries c label.partitions) ≡ 256
  table_len label s n h = omega (arith, length-serialize_entries label.partitions h.entries, h.two)

  -- The buffer of the first part.
  pub record IsPrimaryData (label : NexusLabel) (s : ℕ) (buf : Buffer) : Type 0 where
    pub len : buf.len ≡ label.primary.lba_start * s
    pub mbr : HasMbr c law buf.byte label
    pub primary : HasPrimary c law buf.byte label s

  primary_chain :
      (d : LabelDevice) (label : NexusLabel) (s n len : ℕ) (b1 b2 b3 : Buffer)
      → IsWorking d s n
      → mul_u64 label.primary.lba_start s ≡ len
      → mul_u64 label.primary.lba_self s ≡ s
      → mul_u64 label.primary.lba_table s ≡ 2 * s
      → serialize_into (zeroed len) 440 (c.serialize_mbr label.mbr) ≡ ok b1
      → serialize_into b1 s (c.serialize_header label.primary) ≡ ok b2
      → serialize_table c b2 (2 * s) label.partitions ≡ ok b3
      → get_primary_data c d label ≡ ok (0, b3)
  unfolding get_primary_data
  primary_chain d label s n len b1 b2 b3 w start one two e1 e2 e3 =
      rw (w.handles, w.block_len, start, w.allocates len, e1, one, e2, two, e3, get_primary_data)
        refl

  pub primary_data :
      (d : LabelDevice) (label : NexusLabel) (s n : ℕ)
      → IsLabel c law label s n
      → IsWorking d s n
      → (buf : Buffer) × ((get_primary_data c d label ≡ ok (0, buf)) × IsPrimaryData label s buf)
  primary_data d label s n h w =
      let start = label.primary.lba_start in
      let mbr = c.serialize_mbr label.mbr in
      let header = c.serialize_header label.primary in
      let m = law.mbr_len label.mbr h.mbr in
      let k = law.header_len label.primary h.signed.header in
      let room = table_room s w.large in
      let fits = mul_mono (2 + table_blocks s) start s h.place.room in
      let len : mul_u64 start s ≡ start * s =
        mul_fits start n s (omega (arith, h.place.order, h.place.after, h.place.alt)) w.addressed in
      let one : mul_u64 label.primary.lba_self s ≡ s =
        rw h.place.self_ (mul_fits 1 n s (omega (arith, h.place.alt)) w.addressed ∙ omega arith) in
      let two : mul_u64 label.primary.lba_table s ≡ 2 * s =
        rw h.place.table (mul_fits 2 n s (omega (arith, h.place.alt, h.place.after)) w.addressed) in
      let b0 : Buffer = zeroed (start * s) in
      let b1 : Buffer = record b0 { byte = overlay b0.byte 440 mbr } in
      let b2 : Buffer = record b1 { byte = overlay b1.byte s header } in
      let e1 = serialize_into-eq b0 440 mbr (omega (arith, m, w.large, fits)) in
      let e2 = serialize_into-eq b1 s header (omega (arith, k, w.large, fits)) in
      let (b3, (e3, t)) =
        serialize_table-eq c law label.partitions b2 (2 * s) h.entries
          (omega (arith, h.two, fits, room)) in
      (
        b3,
        (
          primary_chain d label s n (start * s) b1 b2 b3 w len one two e1 e2 e3,
          record {
            len = t.same_len;
            mbr = record {
              mbr = t.before 440 mbr (omega (arith, m, w.large)) (
                  overlay_keeps b1.byte s header 440 mbr (inl (omega (arith, m, w.large)))
                    (overlay-Agrees b0.byte 440 mbr));
            };
            primary = record {
              header =
                  t.before s header (omega (arith, k, w.large)) (overlay-Agrees b1.byte s header);
              table = t.there;
            };
          },
        ),
      )

  -- The buffer of the second part.
  pub record IsSecondaryData (label : NexusLabel) (s : ℕ) (buf : Buffer) : Type 0 where
    pub len : buf.len ≡ (table_blocks s + 1) * s
    pub table : Agrees buf.byte 0 (serialize_entries c label.partitions)
    pub header : Agrees buf.byte (table_blocks s * s) (c.serialize_header label.secondary)

  secondary_chain :
      (d : LabelDevice) (label : NexusLabel) (s n blocks len at : ℕ) (b1 b2 : Buffer)
      → IsWorking d s n
      → sub_u64 label.secondary.lba_self label.secondary.lba_table ≡ blocks
      → mul_u64 (add_u64 blocks 1) s ≡ len
      → mul_u64 label.secondary.lba_table s ≡ at
      → serialize_table c (zeroed len) 0 label.partitions ≡ ok b1
      → serialize_into b1 (mul_u64 blocks s) (c.serialize_header label.secondary) ≡ ok b2
      → get_secondary_data c d label ≡ ok (at, b2)
  unfolding get_secondary_data
  secondary_chain d label s n blocks len at b1 b2 w b l o e1 e2 =
      rw (w.handles, w.block_len, b, l, w.allocates len, e1, e2, o, get_secondary_data) refl

  pub secondary_data :
      (d : LabelDevice) (label : NexusLabel) (s n : ℕ)
      → IsLabel c law label s n
      → IsWorking d s n
      → (buf : Buffer) × ((get_secondary_data c d label ≡ ok ((label.primary.lba_end + 1) * s, buf))
          × IsSecondaryData label s buf)
  unfolding to_backup checksum_header
  secondary_data d label s n h w =
      let q = table_blocks s in
      let last = label.primary.lba_end in
      let header = c.serialize_header label.secondary in
      let signed : IsSigned c label.secondary =
        rw h.secondary (to_backup-IsSigned c law label.primary h.signed) in
      let k = law.header_len label.secondary signed.header in
      let room = table_room s w.large in
      let next : add_u64 last 1 ≡ last + 1 =
        omega (arith, h.place.after, h.place.alt, h.place.bound) in
      let blocks : sub_u64 label.secondary.lba_self label.secondary.lba_table ≡ q =
        rw (h.secondary, next) (omega (arith, h.place.after, h.place.alt, h.place.bound)) in
      let at : mul_u64 label.secondary.lba_table s ≡ (last + 1) * s =
        rw (h.secondary, next)
          (mul_fits (last + 1) n s (omega (arith, h.place.after, h.place.alt)) w.addressed) in
      let len : mul_u64 (add_u64 q 1) s ≡ (q + 1) * s =
        let e : add_u64 q 1 ≡ q + 1 = omega (arith, h.place.after, h.place.alt, h.place.bound) in
        rw e (mul_fits (q + 1) n s (omega (arith, h.place.after, h.place.alt)) w.addressed) in
      let pos : mul_u64 q s ≡ q * s =
        mul_fits q n s (omega (arith, h.place.after, h.place.alt)) w.addressed in
      let b0 : Buffer = zeroed ((q + 1) * s) in
      let (b1, (e1, t)) =
        serialize_table-eq c law label.partitions b0 0 h.entries (omega (arith, h.two, room)) in
      let e2 =
        serialize_into-eq b1 (mul_u64 q s) header (omega (arith, k, pos, t.same_len, w.large)) in
      (
        record b1 { byte = overlay b1.byte (mul_u64 q s) header },
        (
          secondary_chain d label s n q ((q + 1) * s) ((last + 1) * s) b1 _ w blocks len at e1 e2,
          record {
            len = t.same_len;
            table =
                overlay_keeps b1.byte (mul_u64 q s) header 0 (serialize_entries c label.partitions)
                  (inl (omega (arith, table_len label s n h, pos, room))) t.there;
            header =
                move_bytes _ (mul_u64 q s) (q * s) header pos
                  (overlay-Agrees b1.byte (mul_u64 q s) header);
          },
        ),
      )
