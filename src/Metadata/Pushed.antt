-- ===== src/Metadata/Pushed.antt =====
-- Writing one more object behind the others (`write_config_object` of nexus_metadata.rs).
use co_create_openebs.Metadata.Moved.{stored_at, stored_below}
use co_create_openebs.Label.Bytes.{overlay-Agrees}
use co_create_openebs.Label.Geometry.{get_blocks_cover, mul_mono, get_blocks_positive}
use co_create_openebs.Metadata.Slices.{factor_bounded, slice-Agrees, same_slice}
use co_create_openebs.Metadata.Objects.{decoded, Holds, blocks_in}
use co_create_openebs.Label.Disk.{overlay, zeroed, stored}
use co_create_openebs.Metadata.Synced.{block_len_of}
use co_create_openebs.Metadata.Laws.{IsReadable, FitsEntry, IsMetaCodec, u128_mod}
use co_create_openebs.Label.Layout.{get_blocks}
use co_create_openebs.Label.Format.{Buffer}
use co_create_openebs.Metadata.Write.{prepare_at, Prepared, entry_of}
use co_create_openebs.Metadata.Layout.{
  MetaCodec, MetaChild, NexusConfig, MetaDataHeader, as_slice, MetaDataError, MetaDataIndexEntry,
  bytes_from,
}
use co_create_openebs.Prelude.{
  ℕ, ◌<◌, ◌+◌, ◌*◌, List, length, ◌≤◌, suc, ok, u64_mod, ◌≡◌, arith, ◌==◌, add_u64, true, ltb, ap,
  false, mul_u64, some_or, ◌%◌, ◌∙◌, refl, ◌∷◌, [], sub_u64, ◌-◌,
}
use co_create_openebs.Metadata.Layout.{deserialize_error}
use co_create_openebs.Metadata.Signed.{IsWorking}
use co_create_openebs.Label.Table.{serialize_into-eq}
use native.Mathlib.Nat.{mod-eq_of_lt}

module _ (m : MetaCodec) where
  -- The blocks that an object takes.
  abbrev pub blocks_of : (s : ℕ) → NexusConfig → ℕ
  blocks_of s config = get_blocks (length (m.serialize_config config)) s

  -- The buffer of the object.
  abbrev pub object_buffer : (s : ℕ) → NexusConfig → Buffer
  object_buffer s config = record {
    len = blocks_of s config * s;
    byte = overlay (λ _. 0) 0 (m.serialize_config config);
  }

  abbrev pub prepared_at : (s : ℕ) → NexusConfig → (start timestamp : ℕ) → Prepared
  prepared_at s config start timestamp = record {
    start = start;
    next = start + blocks_of s config;
    timestamp = timestamp;
    buf = object_buffer s config;
  }

  object_buffer-decoded :
      (s : ℕ) (config : NexusConfig)
      → 0 < s
      → IsReadable m config
      → decoded m
          (as_slice (object_buffer s config))
          (m.checksum_ieee (as_slice (object_buffer s config)))
        ≡ ok config
  object_buffer-decoded s config p c =
      let bytes = m.serialize_config config in
      let buf = object_buffer s config in
      let (rest, e) =
        slice-Agrees buf.byte 0 buf.len bytes (get_blocks_cover (length bytes) s p)
          (overlay-Agrees (λ _. 0) 0 bytes) in
      let x : ℕ = m.checksum_ieee (as_slice buf) in
      let y : (x == x) ≡ true = ground arith in
      rw y (
        ap
          (λ (xs : List ℕ). some_or {E = MetaDataError} deserialize_error (m.deserialize_config xs))
          e
        ∙ ap (some_or deserialize_error) (c.read_back rest))

  pub prepare_at-eq :
      (k : MetaChild) (h : MetaDataHeader) (config : NexusConfig) (start timestamp : ℕ)
      → IsWorking k
      → 0 < block_len_of k
      → start + blocks_of (block_len_of k) config ≤ suc h.data_end
      → suc h.data_end * block_len_of k < u64_mod
      → prepare_at m k h config start timestamp
        ≡ ok (prepared_at (block_len_of k) config start timestamp)
  unfolding prepare_at
  prepare_at-eq k h config start timestamp w p l u =
      let s : ℕ = block_len_of k in
      let n : ℕ = blocks_of s config in
      let bytes = m.serialize_config config in
      let top = factor_bounded (suc h.data_end) s p u in
      let hi = mul_mono n (suc h.data_end) s (omega arith) in
      let next : add_u64 start n ≡ start + n = omega arith in
      let room : ltb (add_u64 h.data_end 1) (start + n) ≡ false =
        let z : add_u64 h.data_end 1 ≡ suc h.data_end = omega arith in ground arith in
      let swap : s * n ≡ n * s = grind arith in
      let len : mul_u64 s n ≡ n * s =
        ap (λ (a : ℕ). a % u64_mod) swap ∙ mod-eq_of_lt {n = n * s} {m = u64_mod} (omega arith) in
      let q =
        serialize_into-eq (zeroed (n * s)) 0 bytes
          (omega (arith, get_blocks_cover (length bytes) s p)) in
      rw (next, room, len, w.alloc, q, prepare_at) refl

  -- The entry of the object, and its bytes on the device.
  pub record IsStored (s : ℕ) (f : ℕ → ℕ) (self_lba start generation timestamp : ℕ)
      (config : NexusConfig) (e : MetaDataIndexEntry) (g : ℕ → ℕ) : Type 0 where
    pub from : e.data_start ≡ start
    pub order : e.data_start ≤ e.data_end
    pub size : blocks_in e ≡ blocks_of s config
    pub fits : FitsEntry e
    pub holds : Holds m g self_lba s (e ∷ []) (config ∷ [])
    pub below : (i : ℕ) → i < (self_lba + start) * s → g i ≡ f i

  pub entry_of-IsStored :
      (s : ℕ) (f : ℕ → ℕ) (self_lba start last generation timestamp : ℕ) (config : NexusConfig)
      → IsMetaCodec m
      → IsReadable m config
      → 0 < s
      → generation < u64_mod
      → timestamp < u128_mod
      → start + blocks_of s config ≤ suc last
      → (self_lba + suc last) * s < u64_mod
      → IsStored s f self_lba start generation timestamp config
          (entry_of m generation (prepared_at s config start timestamp))
          (stored f ((self_lba + start) * s) (object_buffer s config))
  entry_of-IsStored s f self_lba start last generation timestamp config law c p v t l u =
      let n : ℕ = blocks_of s config in
      let o : ℕ = (self_lba + start) * s in
      let buf = object_buffer s config in
      let g : ℕ → ℕ = stored f o buf in
      let top = factor_bounded (self_lba + suc last) s p u in
      let pos = get_blocks_positive (length (m.serialize_config config)) s c.some_bytes p in
      let end_ : sub_u64 (start + n) 1 ≡ start + n - 1 = omega arith in
      let size : sub_u64 (start + n) 1 - start + 1 ≡ n = omega arith in
      let same : bytes_from g o (n * s) ≡ as_slice buf =
        same_slice g buf.byte o 0 (n * s)
          (λ i b. stored_at f o buf i b ∙ ap buf.byte {x = i} {y = 0 + i} (omega arith)) in
      record {
        from = refl;
        order = omega arith;
        size = size;
        fits = record {
          revision = v;
          timestamp = t;
          checksum = law.crc _;
          start = omega arith;
          end_ = omega arith;
        };
        holds = (
          (
            ap (λ (j : ℕ). decoded m (bytes_from g o (j * s)) (m.checksum_ieee (as_slice buf))) size
                ∙ (ap (λ (xs : List ℕ). decoded m xs (m.checksum_ieee (as_slice buf))) same
                    ∙ object_buffer-decoded s config p c),
            size,
          ),
          tt,
        );
        below = λ i b. stored_below f o buf i b;
      }
