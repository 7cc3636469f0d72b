-- ===== src/Metadata/Refinement.antt =====
-- The operations on the objects of a child against operations on a list (`append_config_object`,
-- `delete_config_object` of nexus_metadata.rs).
use co_create_openebs.Metadata.Moved.{packed-IsChained}
use co_create_openebs.Metadata.Signed.{IsPlaced}
use co_create_openebs.Metadata.Appended.{write_config_object-IsPushed}
use co_create_openebs.Metadata.Synced.{block_len_of, with_contents}
use co_create_openebs.Metadata.Laws.{IsMetaCodec, IsReadable, u128_mod}
use co_create_openebs.Metadata.Pushed.{blocks_of}
use co_create_openebs.Metadata.Placed.{snoc}
use co_create_openebs.Metadata.Write.{push_entry, write_config_object, entry_of, Changed}
use co_create_openebs.Metadata.Layout.{
  MetaCodec, MetaDataHeader, NexusConfig, MetaDataIndexEntry, MetaChild, NexusMetaData,
}
use co_create_openebs.Prelude.{
  ℕ, ◌≡◌, List, ◌∷◌, length, ◌+◌, suc, ◌≤◌, [], arith, length-append, refl, ◌<◌, ok, add_u32,
  add_u64, sym,
}
use co_create_openebs.Metadata.Represented.{
  Represents, IsDone, sync_metadata-IsDone, same-IsWorking,
}
use co_create_openebs.Metadata.Store.{sync_metadata, after_append}
use co_create_openebs.Metadata.Objects.{used_blocks, Holds, IsPacked, length-Holds}
use mathlib.Core.Path.{subst}

module _ (m : MetaCodec) where
  -- The blocks that the objects of a list take.
  abbrev pub all_blocks : (s : ℕ) → List NexusConfig → ℕ
  all_blocks s [] = 0
  all_blocks s (c ∷ cs) = blocks_of m s c + all_blocks s cs

  pub used_blocks-Holds :
      (f : ℕ → ℕ) (self_lba s : ℕ) (es : List MetaDataIndexEntry) (cs : List NexusConfig)
      → Holds m f self_lba s es cs
      → used_blocks es ≡ all_blocks s cs
  used_blocks-Holds f self_lba s [] [] h = refl
  used_blocks-Holds f self_lba s [] (c ∷ cs) h = absurd h
  used_blocks-Holds f self_lba s (e ∷ es) [] h = absurd h
  used_blocks-Holds f self_lba s (e ∷ es) (c ∷ cs) ((x, n), h) =
      omega (arith, n, used_blocks-Holds f self_lba s es cs h)

  -- A list that there is room for.
  pub record HasRoom (s : ℕ) (h : MetaDataHeader) (cs : List NexusConfig) : Type 0 where
    pub entries : length cs ≤ h.max_entries
    pub blocks : h.data_start + all_blocks s cs ≤ suc h.data_end

  pub all_blocks-snoc :
      (s : ℕ) (cs : List NexusConfig) (c : NexusConfig)
      → all_blocks s (snoc cs c) ≡ all_blocks s cs + blocks_of m s c
  all_blocks-snoc s [] c = omega arith
  all_blocks-snoc s (d ∷ ds) c = omega (arith, all_blocks-snoc s ds c)

  pub length-snoc : (cs : List NexusConfig) (c : NexusConfig) → length (snoc cs c) ≡ suc (length cs)
  length-snoc cs c = omega (arith, length-append cs (c ∷ []))

  pub append_packed :
      (k : MetaChild) (meta : NexusMetaData) (config : NexusConfig) (timestamp : ℕ)
      (cs : List NexusConfig)
      → IsMetaCodec m
      → IsReadable m config
      → timestamp < u128_mod
      → HasRoom (block_len_of k) meta.header (snoc cs config)
      → Represents m k meta cs
      → IsPacked meta.header.data_start meta.index
      → IsDone m k meta
          (after_append m (write_config_object m k meta config (ok timestamp)))
          (snoc cs config)
  unfolding push_entry
  append_packed k meta config timestamp cs law c t room r a =
      let s : ℕ = block_len_of k in
      let n = length-Holds m k.device.contents meta.header.self_lba s meta.index cs r.holds in
      let b = used_blocks-Holds k.device.contents meta.header.self_lba s meta.index cs r.holds in
      let o = r.laid in
      let free : meta.header.used_entries < meta.header.max_entries =
        omega (arith, room.entries, length-snoc cs config, n, o.count) in
      let fit : meta.header.data_start + used_blocks meta.index + blocks_of m s config
          ≤ suc meta.header.data_end =
        omega (arith, room.blocks, all_blocks-snoc s cs config, b) in
      let (p, (g, y)) =
        write_config_object-IsPushed m k meta config timestamp cs law c r.working o a r.holds free
          fit t in
      let meta' = push_entry m meta p in
      let used : add_u32 meta.header.used_entries 1 ≡ meta.header.used_entries + 1 =
        omega (arith, free, o.placed.small) in
      let placed : IsPlaced s meta'.header = record {
        positive = o.placed.positive;
        signature = o.placed.signature;
        size = o.placed.size;
        entry = o.placed.entry;
        gap = o.placed.gap;
        objects = o.placed.objects;
        small = o.placed.small;
        used = omega (arith, used, free);
        generation = omega arith;
        order = o.placed.order;
        bound = o.placed.bound;
      } in
      let pushed : Represents m (with_contents k g) meta' (snoc cs config) = record {
        working = same-IsWorking k g r.working;
        laid = record {
          placed = placed;
          count = omega (
            arith,
            used,
            o.count,
            length-append meta.index (entry_of m (add_u64 meta.header.generation 1) p ∷ []),
          );
          entries = y.fits;
        };
        chained =
            packed-IsChained meta.header.data_start meta.header.data_end meta'.index y.packed
              (omega (arith, y.inside, fit));
        holds = y.holds;
      } in
      let z = sync_metadata-IsDone m (with_contents k g) meta' (snoc cs config) law pushed in
      let after : IsDone m k meta (sync_metadata m (with_contents k g) meta') (snoc cs config) =
        record {
          done = z.done;
          represents = z.represents;
          found = z.found;
          lasting = z.lasting;
          same = record {
            block_len = z.same.block_len;
            self_lba = z.same.self_lba;
            data_start = z.same.data_start;
            data_end = z.same.data_end;
            max_entries = z.same.max_entries;
          };
        } in
      subst (λ (x : Changed). IsDone m k meta (after_append m x) (snoc cs config)) (sym y.result)
        after
