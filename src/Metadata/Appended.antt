-- ===== src/Metadata/Appended.antt =====
-- The objects on the device after another was written behind them (`write_config_object` of
-- nexus_metadata.rs).
use co_create_openebs.Metadata.Moved.{packed-IsChained}
use co_create_openebs.Metadata.Slices.{factor_bounded}
use co_create_openebs.Label.Disk.{stored}
use co_create_openebs.Label.Geometry.{get_blocks_positive, mul_mono}
use co_create_openebs.Metadata.Pushed.{
  blocks_of, object_buffer, prepared_at, prepare_at-eq, entry_of-IsStored,
}
use co_create_openebs.Metadata.Placed.{
  snoc, next_start-IsPacked, snoc-Holds, snoc-IsPacked, All-snoc, used_blocks-snoc,
}
use co_create_openebs.Metadata.Objects.{IsPacked, Holds, used_blocks, keep-Holds}
use co_create_openebs.Metadata.Synced.{IsLaidOut, block_len_of, with_contents, write_blocks-eq}
use co_create_openebs.Metadata.Laws.{IsMetaCodec, IsReadable, FitsEntry, u128_mod}
use co_create_openebs.Metadata.Write.{
  write_config_object, push_entry, prepare, Prepared, next_start, after_object, Changed,
  write_blocks, write_prepared, entry_of,
}
use co_create_openebs.Metadata.Layout.{MetaCodec, MetaChild, NexusMetaData, NexusConfig}
use mathlib.Core.Path.{subst}
use co_create_openebs.Prelude.{
  ℕ, ◌∙◌, List, ok, ◌≡◌, ◌<◌, ◌+◌, All, ◌≤◌, suc, ◌*◌, u64_mod, length, arith, leb, false, add_u64,
  ap, sym, ◌-◌,
}
use co_create_openebs.Metadata.Signed.{IsWorking, IsPlaced}

module _ (m : MetaCodec) where
  -- The index and the device with the object.
  pub record IsPushed (k : MetaChild) (meta : NexusMetaData) (config : NexusConfig) (timestamp : ℕ)
      (cs : List NexusConfig) (p : Prepared) (g : ℕ → ℕ) : Type 0 where
    pub result :
        write_config_object m k meta config (ok timestamp)
        ≡ (with_contents k g, (push_entry m meta p, ok tt))
    pub holds :
        Holds m g meta.header.self_lba (block_len_of k) (push_entry m meta p).index (snoc cs config)
    pub packed : IsPacked meta.header.data_start (push_entry m meta p).index
    pub fits : All FitsEntry (push_entry m meta p).index
    pub inside :
        used_blocks (push_entry m meta p).index
        ≡ used_blocks meta.index + blocks_of m (block_len_of k) config

  write_prepared-eq :
      (k : MetaChild) (meta : NexusMetaData) (config : NexusConfig) (timestamp start : ℕ)
      → IsMetaCodec m
      → IsWorking k
      → IsPlaced (block_len_of k) meta.header
      → meta.header.used_entries < meta.header.max_entries
      → next_start meta.header meta.index ≡ ok start
      → start + blocks_of m (block_len_of k) config ≤ suc meta.header.data_end
      → (meta.header.self_lba + start) * block_len_of k < u64_mod
      → meta.header.self_lba + start < u64_mod
      → write_config_object m k meta config (ok timestamp) ≡ (
        with_contents k (
            stored k.device.contents
              ((meta.header.self_lba + start) * block_len_of k)
              (object_buffer m (block_len_of k) config)),
        (push_entry m meta (prepared_at m (block_len_of k) config start timestamp), ok tt),
      )
  unfolding write_config_object prepare
  write_prepared-eq k meta config timestamp start law w o l z r u v =
      let s : ℕ = block_len_of k in
      let full : leb meta.header.max_entries meta.header.used_entries ≡ false = ground arith in
      let hi =
        mul_mono (suc meta.header.data_end) (meta.header.self_lba + meta.header.data_end + 1) s
          (omega arith) in
      let q =
        prepare_at-eq m k meta.header config start timestamp w o.positive r
          (omega (arith, o.bound)) in
      let lba : add_u64 meta.header.self_lba start ≡ meta.header.self_lba + start = omega arith in
      let y =
        write_blocks-eq m law k (meta.header.self_lba + start) (object_buffer m s config) w u in
      let ready : prepare m k meta config (ok timestamp)
          ≡ ok (prepared_at m s config start timestamp) =
        simp (full, w.dev, z, q, prepare) in
      let out : ℕ → Changed = λ (j : ℕ).
        after_object m meta (prepared_at m s config start timestamp)
          (write_blocks k j (object_buffer m s config)) in
      ap (write_prepared m k meta) ready
      ∙ (ap out lba ∙ ap (after_object m meta (prepared_at m s config start timestamp)) y)

  pub write_config_object-IsPushed :
      (k : MetaChild) (meta : NexusMetaData) (config : NexusConfig) (timestamp : ℕ)
      (cs : List NexusConfig)
      → IsMetaCodec m
      → IsReadable m config
      → IsWorking k
      → IsLaidOut (block_len_of k) meta
      → IsPacked meta.header.data_start meta.index
      → Holds m k.device.contents meta.header.self_lba (block_len_of k) meta.index cs
      → meta.header.used_entries < meta.header.max_entries
      → meta.header.data_start + used_blocks meta.index + blocks_of m (block_len_of k) config
        ≤ suc meta.header.data_end
      → timestamp < u128_mod
      → (p : Prepared) × ((g : ℕ → ℕ) × IsPushed k meta config timestamp cs p g)
  unfolding push_entry
  write_config_object-IsPushed k meta config timestamp cs law c w o a h l r t =
      let s : ℕ = block_len_of k in
      let self_lba : ℕ = meta.header.self_lba in
      let last : ℕ = meta.header.data_end in
      let p = o.placed.positive in
      let start : ℕ = meta.header.data_start + used_blocks meta.index in
      let pos = get_blocks_positive (length (m.serialize_config config)) s c.some_bytes p in
      let one = get_blocks_positive 72 s (omega arith) p in
      let even : self_lba + suc last ≡ self_lba + last + 1 = omega arith in
      let u : (self_lba + suc last) * s < u64_mod =
        subst (λ (j : ℕ). j * s < u64_mod) (sym even) o.placed.bound in
      let top = factor_bounded (self_lba + suc last) s p u in
      let hi = mul_mono (self_lba + start) (self_lba + suc last) s (omega arith) in
      let f = k.device.contents in
      let prepared = prepared_at m s config start timestamp in
      let generation : ℕ = add_u64 meta.header.generation 1 in
      let v : generation < u64_mod = omega arith in
      let y =
        entry_of-IsStored m s f self_lba start last generation timestamp config law c p v t r u in
      let e = entry_of m generation prepared in
      let g : ℕ → ℕ = stored f ((self_lba + start) * s) (object_buffer m s config) in
      let kept =
        keep-Holds m f g self_lba s meta.header.data_start (start - 1) meta.index cs
          (packed-IsChained meta.header.data_start (start - 1) meta.index a
            (omega (arith, o.placed.objects, o.placed.gap)))
          (λ i _ b. y.below i (
            subst (λ (j : ℕ). i < (self_lba + j) * s) {x = suc (start - 1)} {y = start}
              (omega (arith, o.placed.objects, o.placed.gap)) b))
          h in
      (
        prepared,
        (
          g,
          record {
            result =
                write_prepared-eq k meta config timestamp start law w o.placed l
                  (next_start-IsPacked meta.header meta.index a (omega arith) (omega arith)) r
                  (omega arith) (omega arith);
            holds = snoc-Holds m g self_lba s meta.index cs e config kept y.holds;
            packed = snoc-IsPacked meta.header.data_start meta.index e a y.from y.order;
            fits = All-snoc FitsEntry meta.index e o.entries y.fits;
            inside = omega (arith, used_blocks-snoc meta.index e, y.size);
          },
        ),
      )
