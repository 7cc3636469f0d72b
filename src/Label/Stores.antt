-- ===== src/Label/Stores.antt =====
-- The device after each part of a label is written (`write_at` of nexus_label.rs): that part is there,
-- and the other part is as it was.
use co_create_openebs.Label.Geometry.{mul_mono}
use co_create_openebs.Label.Bytes.{Agrees, move_bytes, stored-Agrees, stored_keeps}
use co_create_openebs.Label.Table.{IsSigned, to_backup-IsSigned}
use co_create_openebs.Label.Probe.{IsLabel, IsWorking, HasMbr, HasPrimary, HasSecondary, last_block}
use co_create_openebs.Label.Writes.{
  IsPrimaryData, IsSecondaryData, table_len, table_room, table_blocks,
}
use co_create_openebs.Label.Layout.{NexusLabel}
use co_create_openebs.Label.Laws.{IsCodec}
use co_create_openebs.Label.Format.{Codec, Buffer, serialize_entries}
use co_create_openebs.Label.Disk.{LabelDevice, stored}
use co_create_openebs.Prelude.{ℕ, List, ◌≡◌, ◌≤◌, ◌*◌, ◌+◌, arith, inl, inr, ◌-◌, length}

-- The device with a buffer written.
abbrev pub with_stored : LabelDevice → (offset : ℕ) → Buffer → LabelDevice
with_stored d offset buf = record d { contents = stored d.contents offset buf }

pub with_stored-IsWorking :
    (d : LabelDevice) (offset : ℕ) (buf : Buffer) (s n : ℕ)
    → IsWorking d s n
    → IsWorking (with_stored d offset buf) s n
with_stored-IsWorking d offset buf s n w = record {
  handles = w.handles;
  block_len = w.block_len;
  num_blocks = w.num_blocks;
  allocates = w.allocates;
  reads = w.reads;
  large = w.large;
  addressed = w.addressed;
}

-- A buffer written at the start.
stored_first :
    (f : ℕ → ℕ) (buf : Buffer) (at : ℕ) (bs : List ℕ)
    → at + length bs ≤ buf.len
    → Agrees buf.byte at bs
    → Agrees (stored f 0 buf) at bs
stored_first f buf at bs p h =
    move_bytes (stored f 0 buf) (0 + at) at bs (omega arith) (stored-Agrees f 0 buf at bs p h)

module _ (c : Codec) (law : IsCodec c) (label : NexusLabel) (s n : ℕ) (h : IsLabel c law label s n)
    (large : 512 ≤ s) where
  -- The lengths of the parts, and their order on the device.
  record Sizes : Type 0 where
    mbr : length (c.serialize_mbr label.mbr) ≡ 72
    primary : length (c.serialize_header label.primary) ≡ 92
    secondary : length (c.serialize_header label.secondary) ≡ 92
    table : length (serialize_entries c label.partitions) ≡ 256
    first : 2 * s + 256 ≤ label.primary.lba_start * s
    middle : label.primary.lba_start * s ≤ (label.primary.lba_end + 1) * s
    last : (label.primary.lba_end + 1) * s + table_blocks s * s ≡ last_block s n
    room : 256 ≤ table_blocks s * s

  sizes : Sizes
  sizes =
      let room = table_room s large in
      let signed : IsSigned c label.secondary =
        rw h.secondary (to_backup-IsSigned c law label.primary h.signed) in
      let fits = mul_mono (2 + table_blocks s) label.primary.lba_start s h.place.room in
      let e : n - 1 ≡ label.primary.lba_end + 1 + table_blocks s =
        omega (arith, h.place.alt, h.place.after) in
      record {
        mbr = law.mbr_len label.mbr h.mbr;
        primary = law.header_len label.primary h.signed.header;
        secondary = law.header_len label.secondary signed.header;
        table = table_len c law label s n h;
        first = omega (arith, fits, room);
        middle =
            mul_mono label.primary.lba_start (label.primary.lba_end + 1) s
              (omega (arith, h.place.order));
        last = rw e (omega arith);
        room = room;
      }

  pub primary_stored :
      (f : ℕ → ℕ) (buf : Buffer)
      → IsPrimaryData c law label s buf
      → HasMbr c law (stored f 0 buf) label × HasPrimary c law (stored f 0 buf) label s
  primary_stored f buf p =
      let z = sizes in
      (
        record {
          mbr =
              stored_first f buf 440 (c.serialize_mbr label.mbr)
                (omega (arith, z.mbr, z.first, p.len, large)) p.mbr.mbr;
        },
        record {
          header =
              stored_first f buf s (c.serialize_header label.primary)
                (omega (arith, z.primary, z.first, p.len, large)) p.primary.header;
          table =
              stored_first f buf (2 * s) (serialize_entries c label.partitions)
                (omega (arith, z.table, z.first, p.len)) p.primary.table;
        },
      )

  pub primary_keeps :
      (f : ℕ → ℕ) (buf : Buffer)
      → IsPrimaryData c law label s buf
      → HasSecondary c law f label s n
      → HasSecondary c law (stored f 0 buf) label s n
  primary_keeps f buf p q =
      let z = sizes in
      record {
        header =
            stored_keeps f 0 buf (last_block s n) (c.serialize_header label.secondary)
              (inr (omega (arith, z.middle, z.last, p.len))) q.header;
        table =
            stored_keeps f 0 buf ((label.primary.lba_end + 1) * s)
              (serialize_entries c label.partitions) (inr (omega (arith, z.middle, p.len))) q.table;
      }

  abbrev pub backup_at : ℕ
  backup_at = (label.primary.lba_end + 1) * s

  pub secondary_stored :
      (f : ℕ → ℕ) (buf : Buffer)
      → IsSecondaryData c law label s buf
      → HasSecondary c law (stored f backup_at buf) label s n
  secondary_stored f buf p =
      let z = sizes in
      record {
        header =
            move_bytes _ (backup_at + table_blocks s * s) (last_block s n)
              (c.serialize_header label.secondary) z.last
              (stored-Agrees f backup_at buf (table_blocks s * s)
                (c.serialize_header label.secondary) (omega (arith, z.secondary, p.len, large))
                p.header);
        table =
            move_bytes _ (backup_at + 0) backup_at (serialize_entries c label.partitions)
              (omega arith)
              (stored-Agrees f backup_at buf 0 (serialize_entries c label.partitions)
                (omega (arith, z.table, z.room, p.len)) p.table);
      }

  pub secondary_keeps :
      (f : ℕ → ℕ) (buf : Buffer)
      → HasMbr c law f label
      → HasPrimary c law f label s
      → HasMbr c law (stored f backup_at buf) label
        × HasPrimary c law (stored f backup_at buf) label s
  secondary_keeps f buf m p =
      let z = sizes in
      (
        record {
          mbr =
              stored_keeps f backup_at buf 440 (c.serialize_mbr label.mbr)
                (inl (omega (arith, z.mbr, z.first, z.middle, large))) m.mbr;
        },
        record {
          header =
              stored_keeps f backup_at buf s (c.serialize_header label.primary)
                (inl (omega (arith, z.primary, z.first, z.middle, large))) p.header;
          table =
              stored_keeps f backup_at buf (2 * s) (serialize_entries c label.partitions)
                (inl (omega (arith, z.table, z.first, z.middle))) p.table;
        },
      )
