-- ===== src/Metadata/Synced.antt =====
-- The header and the index on the device, as `sync_metadata` writes them and `probe_index` reads them
-- (nexus_metadata.rs).
use co_create_openebs.Label.Geometry.{get_blocks_cover, mul_mono}
use co_create_openebs.Label.Layout.{get_blocks}
use co_create_openebs.Label.Validate.{bytes_eq}
use co_create_openebs.Label.Disk.{stored}
use co_create_openebs.Label.Format.{Buffer}
use co_create_openebs.Metadata.Write.{write_blocks, Stored}
use co_create_openebs.Label.Bytes.{Agrees}
use co_create_openebs.Metadata.Read.{check_meta, read_blocks, serialize_indexes, meta_crc}
use co_create_openebs.Metadata.Laws.{IsMetaCodec, FitsEntry, FitsHeader}
use co_create_openebs.Metadata.Store.{signed}
use native.Mathlib.Nat.{mod-eq_of_lt}
use co_create_openebs.Metadata.Signed.{IsPlaced, IsWorking, header-FitsHeader}
use co_create_openebs.Metadata.Layout.{
  MetaCodec, MetaDataHeader, NexusMetaData, MetaChild, maya_data,
}
use co_create_openebs.Prelude.{
  ℕ, length, ◌≡◌, ◌*◌, ok, All, ◌+◌, ◌<◌, u64_mod, ◌==◌, true, arith, refl, ap, ◌≤◌,
}

-- A child with other contents.
abbrev pub with_contents : MetaChild → (ℕ → ℕ) → MetaChild
with_contents k f = record k { device = record (k.device) { contents = f } }

abbrev pub block_len_of : MetaChild → ℕ
block_len_of k = k.device.block_len

-- Metadata whose header and entries can be written at their places.
pub record IsLaidOut (s : ℕ) (meta : NexusMetaData) : Type 0 where
  pub placed : IsPlaced s meta.header
  pub count : length meta.index ≡ meta.header.used_entries
  pub entries : All FitsEntry meta.index

module _ (m : MetaCodec) where
  -- The bytes of the metadata on a device with contents `f`.
  pub record IsWritten (s : ℕ) (f : ℕ → ℕ) (meta : NexusMetaData) : Type 0 where
    pub header : Agrees f (meta.header.self_lba * s) (m.serialize_meta meta.header)
    pub index :
        Agrees f
          ((meta.header.self_lba + meta.header.index_start) * s)
          (serialize_indexes m meta.index)

  module _ (law : IsMetaCodec m) where
    pub check_meta-signed :
        (meta : NexusMetaData)
        → let h = (signed m meta).header in
          meta.header.signature ≡ maya_data → meta.header.header_size ≡ 72 → check_meta m h ≡ ok h
    unfolding check_meta signed
    check_meta-signed meta e z =
        let a : (meta.header.header_size == 72) ≡ true = ground (arith, z) in
        let b : bytes_eq meta.header.signature maya_data ≡ true = rw e refl in
        let x : ℕ = meta_crc m (signed m meta).header in
        let c : (x == x) ≡ true = ground arith in rw (a, b, c, check_meta) refl

    pub signed-FitsHeader :
        (s : ℕ) (meta : NexusMetaData) → IsPlaced s meta.header → FitsHeader (signed m meta).header
    unfolding signed
    signed-FitsHeader s meta p = header-FitsHeader m law s meta.header _ _ p (law.crc _) (law.crc _)

    -- Reading whole blocks from a device that works.
    pub read_blocks-eq :
        (k : MetaChild) (lba blocks : ℕ)
        → IsWorking k
        → lba * block_len_of k < u64_mod
        → blocks * block_len_of k < u64_mod
        → read_blocks m k lba blocks
          ≡ ok (record {
            len = blocks * block_len_of k;
            byte = λ i. k.device.contents (lba * block_len_of k + i);
          })
    unfolding read_blocks
    read_blocks-eq k lba blocks w x y =
        let a = mod-eq_of_lt {n = lba * block_len_of k} {m = u64_mod} x in
        let b = mod-eq_of_lt {n = blocks * block_len_of k} {m = u64_mod} y in
        rw (a, b, w.alloc, w.reads, read_blocks) refl

    pub write_blocks-eq :
        (k : MetaChild) (lba : ℕ) (buf : Buffer)
        → IsWorking k
        → lba * block_len_of k < u64_mod
        → write_blocks k lba buf
          ≡ (with_contents k (stored k.device.contents (lba * block_len_of k) buf), ok tt)
    unfolding write_blocks
    write_blocks-eq k lba buf w x =
        let a = mod-eq_of_lt {n = lba * block_len_of k} {m = u64_mod} x in
        let after : ℕ → Stored = λ o. (with_contents k (stored k.device.contents o buf), ok tt) in
        rw (w.writes, write_blocks) (ap after a)

    -- The buffer that `write_index` makes.
    pub record IsIndexBuffer (s : ℕ) (meta : NexusMetaData) (buf : Buffer) : Type 0 where
      pub size :
          buf.len ≡ (meta.header.index_start + get_blocks (meta.header.max_entries * 44) s) * s
      pub header : Agrees buf.byte 0 (m.serialize_meta meta.header)
      pub index : Agrees buf.byte (meta.header.index_start * s) (serialize_indexes m meta.index)

    -- Where the parts of the index are, in bytes.
    pub record IsSized (s : ℕ) (h : MetaDataHeader) : Type 0 where
      pub header : 72 ≤ h.index_start * s
      pub entries : 44 * h.max_entries ≤ get_blocks (h.max_entries * 44) s * s
      pub all :
          (h.index_start + get_blocks (h.max_entries * 44) s) * s
          ≡ h.index_start * s + get_blocks (h.max_entries * 44) s * s
      pub inside :
          (h.self_lba * s + (h.index_start + get_blocks (h.max_entries * 44) s) * s)
          ≤ (h.self_lba + h.data_start) * s
      pub before : (h.self_lba + h.data_start) * s < u64_mod
      pub place : (h.self_lba + h.index_start) * s ≡ h.self_lba * s + h.index_start * s

    pub sizes : (s : ℕ) (h : MetaDataHeader) → IsPlaced s h → IsSized s h
    sizes s h p =
        let b : ℕ = get_blocks (h.max_entries * 44) s in
        let c = get_blocks_cover 72 s p.positive in
        let d = get_blocks_cover (h.max_entries * 44) s p.positive in
        let g = mul_mono (get_blocks 72 s) h.index_start s p.gap in
        let o = mul_mono (h.index_start + b) h.data_start s p.objects in
        let q =
          mul_mono (h.self_lba + h.data_start) (h.self_lba + h.data_end + 1) s
            (omega (arith, p.order)) in
        let u : (h.self_lba + h.data_start) * s ≡ h.self_lba * s + h.data_start * s = grind arith in
        record {
          header = omega arith;
          entries = omega arith;
          all = grind arith;
          inside = omega arith;
          before = omega (arith, p.bound);
          place = grind arith;
        }
