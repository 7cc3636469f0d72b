-- ===== src/Metadata/RoundTrip.antt =====
-- Metadata that `sync_metadata` has written is what `probe_index` finds (nexus_metadata.rs).
use co_create_openebs.Metadata.Store.{signed, sync_metadata, after_sync}
use co_create_openebs.Metadata.Read.{check_meta, index_crc, serialize_indexes}
use co_create_openebs.Label.Bytes.{overlay-Agrees, move_bytes, stored-Agrees}
use co_create_openebs.Label.Disk.{zeroed, overlay, stored}
use co_create_openebs.Metadata.Slices.{factor_bounded}
use co_create_openebs.Label.Format.{Buffer}
use co_create_openebs.Metadata.Synced.{
  IsLaidOut, block_len_of, sizes, IsIndexBuffer, signed-FitsHeader, with_contents,
  check_meta-signed, write_blocks-eq, IsWritten,
}
use co_create_openebs.Label.Layout.{get_blocks}
use co_create_openebs.Metadata.Signed.{
  IsPlaced, IsWorking, write_entries-eq, length-serialize_indexes,
}
use co_create_openebs.Metadata.Write.{index_buffer, write_index}
use co_create_openebs.Metadata.Laws.{IsMetaCodec, FitsHeader}
use co_create_openebs.Metadata.Layout.{MetaCodec, MetaDataHeader, MetaChild, NexusMetaData}
use co_create_openebs.Prelude.{
  ℕ, mul_u64, add_u64, ◌≡◌, ◌*◌, mul_u32, ◌+◌, u64_mod, arith, u32_mod, ok, ◌<◌, length, ◌≤◌, ap,
  refl,
}
use native.Mathlib.Nat.{mod-eq_of_lt}
use co_create_openebs.Label.Table.{serialize_into-eq}

module _ (m : MetaCodec) (law : IsMetaCodec m) where
  index_len :
      (s : ℕ) (h : MetaDataHeader)
      → IsPlaced s h
      → mul_u64 (add_u64 h.index_start (get_blocks (mul_u32 h.max_entries h.entry_size) s)) s
        ≡ (h.index_start + get_blocks (h.max_entries * 44) s) * s
  index_len s h p =
      let z = sizes m law s h p in
      let n : ℕ = h.index_start + get_blocks (h.max_entries * 44) s in
      let a : mul_u32 h.max_entries h.entry_size ≡ h.max_entries * 44 =
        rw p.entry (mod-eq_of_lt {n = h.max_entries * 44} {m = u32_mod} p.small) in
      let l : n * s < u64_mod = omega (arith, z.before, z.inside) in
      let b : add_u64 h.index_start (get_blocks (h.max_entries * 44) s) ≡ n =
        mod-eq_of_lt {n = n} {m = u64_mod} (factor_bounded n s p.positive l) in
      rw (a, b) (mod-eq_of_lt {n = n * s} {m = u64_mod} l)

  index_place :
      (s : ℕ) (h : MetaDataHeader) → IsPlaced s h → mul_u64 h.index_start s ≡ h.index_start * s
  index_place s h p =
      let z = sizes m law s h p in
      mod-eq_of_lt {n = h.index_start * s} {m = u64_mod} (omega (arith, z.before, z.inside, z.all))

  index_buffer-eq :
      (k : MetaChild) (meta : NexusMetaData)
      → IsWorking k
      → IsLaidOut (block_len_of k) meta
      → FitsHeader meta.header
      → (buf : Buffer) × ((index_buffer m k meta ≡ ok buf)
          × IsIndexBuffer m law (block_len_of k) meta buf)
  unfolding index_buffer
  index_buffer-eq k meta w o fits =
      let s : ℕ = block_len_of k in
      let h = meta.header in
      let z = sizes m law s h o.placed in
      let len : ℕ = (h.index_start + get_blocks (h.max_entries * 44) s) * s in
      let head = m.serialize_meta h in
      let hl = law.header_len h fits in
      let first : Buffer = record (zeroed len) { byte = overlay (λ _. 0) 0 head } in
      let q = serialize_into-eq (zeroed len) 0 head (omega (arith, hl, z.all, z.header)) in
      let bound : h.index_start * s + 44 * length meta.index ≤ len =
        omega (arith, z.all, z.entries, o.count, o.placed.used) in
      let (buf, (r, t)) =
        write_entries-eq m law meta.index first (h.index_start * s) o.entries bound in
      (
        buf,
        (
          rw (w.dev, index_len s h o.placed, w.alloc, q, index_place s h o.placed, index_buffer) r,
          record {
            size = t.same_len;
            header = t.before 0 head (omega (arith, hl, z.header)) (overlay-Agrees (λ _. 0) 0 head);
            index = t.there;
          },
        ),
      )

  -- Checksums that are right.
  pub record IsSummed (meta : NexusMetaData) : Type 0 where
    pub fits : FitsHeader meta.header
    pub header : check_meta m meta.header ≡ ok meta.header
    pub index : index_crc m meta.index ≡ meta.header.index_checksum

  pub signed-IsLaidOut :
      (s : ℕ) (meta : NexusMetaData) → IsLaidOut s meta → IsLaidOut s (signed m meta)
  unfolding signed
  signed-IsLaidOut s meta o = record {
    placed = record {
      positive = o.placed.positive;
      signature = o.placed.signature;
      size = o.placed.size;
      entry = o.placed.entry;
      gap = o.placed.gap;
      objects = o.placed.objects;
      small = o.placed.small;
      used = o.placed.used;
      generation = o.placed.generation;
      order = o.placed.order;
      bound = o.placed.bound;
    };
    count = o.count;
    entries = o.entries;
  }

  pub signed-IsSummed :
      (s : ℕ) (meta : NexusMetaData) → IsPlaced s meta.header → IsSummed (signed m meta)
  unfolding signed
  signed-IsSummed s meta p = record {
    fits = signed-FitsHeader m law s meta p;
    header = check_meta-signed m law meta p.signature p.size;
    index = refl;
  }

  -- What `sync_metadata` does to the device.
  pub record IsSynced (k : MetaChild) (meta : NexusMetaData) (buf : Buffer) : Type 0 where
    pub result : sync_metadata m k meta ≡ (
      with_contents k (stored k.device.contents (meta.header.self_lba * block_len_of k) buf),
      (signed m meta, ok tt),
    )
    pub size :
        buf.len
        ≡ (meta.header.index_start + get_blocks (meta.header.max_entries * 44) (block_len_of k))
          * block_len_of k
    pub written :
        IsWritten m
          (block_len_of k)
          (stored k.device.contents (meta.header.self_lba * block_len_of k) buf)
          (signed m meta)

  pub sync_metadata-IsSynced :
      (k : MetaChild) (meta : NexusMetaData)
      → IsWorking k
      → IsLaidOut (block_len_of k) meta
      → (buf : Buffer) × IsSynced k meta buf
  unfolding sync_metadata write_index signed
  sync_metadata-IsSynced k meta w o =
      let s : ℕ = block_len_of k in
      let h = (signed m meta).header in
      let z = sizes m law s meta.header o.placed in
      let fits = signed-FitsHeader m law s meta o.placed in
      let (buf, (e, b)) = index_buffer-eq k (signed m meta) w (signed-IsLaidOut s meta o) fits in
      let written =
        write_blocks-eq m law k meta.header.self_lba buf w (omega (arith, z.before, z.inside)) in
      let hl = law.header_len h fits in
      let il = length-serialize_indexes m law meta.index o.entries in
      let f = k.device.contents in
      let at : ℕ = meta.header.self_lba * s in
      (
        buf,
        record {
          result = rw (e, sync_metadata, write_index) (ap (after_sync m (signed m meta)) written);
          size = b.size;
          written = record {
            header = move_bytes (stored f at buf) (at + 0) at (m.serialize_meta h) (omega arith) (
                stored-Agrees f at buf 0 (m.serialize_meta h)
                  (omega (arith, hl, b.size, z.all, z.header)) b.header);
            index =
                move_bytes (stored f at buf) (at + meta.header.index_start * s)
                  ((meta.header.self_lba + meta.header.index_start) * s)
                  (serialize_indexes m meta.index) (omega (arith, z.place))
                  (stored-Agrees f at buf (meta.header.index_start * s)
                    (serialize_indexes m meta.index)
                    (omega (arith, il, b.size, z.all, z.entries, o.count, o.placed.used)) b.index);
          };
        },
      )
