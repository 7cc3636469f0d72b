-- ===== src/Metadata/Created.antt =====
-- Metadata on a partition from its creation on (`create_metadata` of nexus_metadata.rs).
use co_create_openebs.Metadata.Slices.{factor_bounded}
use co_create_openebs.Metadata.Read.{
  find_partition, probe_index, get_dev_of, probe_all_config_objects,
}
use co_create_openebs.Metadata.Write.{Changed}
use co_create_openebs.Metadata.Synced.{block_len_of}
use co_create_openebs.Metadata.Laws.{IsMetaCodec}
use co_create_openebs.Label.Layout.{GptEntry, get_blocks}
use co_create_openebs.Metadata.Layout.{
  MetaCodec, new_metadata_header, NexusMetaData, MetaChild, NexusConfig,
}
use co_create_openebs.Prelude.{
  ℕ, ◌≡◌, ◌∙◌, ◌<◌, [], ◌+◌, List, add_u64, ok, err, arith, ◌≤◌, ◌*◌, sub_u64, refl, ◌-◌, u64_mod,
  sym,
}
use co_create_openebs.Metadata.Signed.{IsWorking, IsPlaced}
use co_create_openebs.Metadata.Represented.{
  Represents, IsDone, sync_metadata-IsDone, probe_all-Represents,
}
use co_create_openebs.Metadata.Store.{sync_metadata, create_metadata, created_of, Created}
use co_create_openebs.Metadata.Run.{
  run_operations, run_operations-IsRun, run_on_list, AllFit, Operation, same-AllFit,
}
use mathlib.Core.Path.{subst}

-- A partition on blocks of `s` bytes that has a block for objects behind the index.
pub record IsMetaPartition (s : ℕ) (p : GptEntry) : Type 0 where
  pub positive : 0 < s
  pub room : p.ent_start + 1 + get_blocks 72 s + get_blocks 1408 s ≤ p.ent_end
  pub bound : (p.ent_end + 1) * s < u64_mod

pub new_metadata_header-IsPlaced :
    (s : ℕ) (p : GptEntry) → IsMetaPartition s p → IsPlaced s (new_metadata_header s p)
unfolding new_metadata_header
new_metadata_header-IsPlaced s p h =
    let top = factor_bounded (p.ent_end + 1) s h.positive h.bound in
    let self_ : add_u64 p.ent_start 1 ≡ p.ent_start + 1 = omega (arith, h.room) in
    let last : sub_u64 (sub_u64 p.ent_end p.ent_start) 1 ≡ p.ent_end - p.ent_start - 1 =
      omega (arith, h.room) in
    let even : p.ent_end + 1
        ≡ add_u64 p.ent_start 1 + sub_u64 (sub_u64 p.ent_end p.ent_start) 1 + 1 =
      omega (arith, h.room) in
    record {
      positive = h.positive;
      signature = refl;
      size = refl;
      entry = refl;
      gap = omega arith;
      objects = omega arith;
      small = omega arith;
      used = omega arith;
      generation = omega arith;
      order = omega (arith, last, h.room);
      bound = subst (λ (j : ℕ). j * s < u64_mod) even h.bound;
    }

module _ (m : MetaCodec) where
  -- The metadata that is created.
  abbrev pub new_metadata : (s : ℕ) → GptEntry → NexusMetaData
  new_metadata s p = record { header = new_metadata_header s p; index = [] }

  pub new_metadata-Represents :
      (k : MetaChild) (p : GptEntry)
      → IsWorking k
      → IsMetaPartition (block_len_of k) p
      → Represents m k (new_metadata (block_len_of k) p) []
  unfolding new_metadata_header
  new_metadata-Represents k p w h = record {
    working = w;
    laid = record {
      placed = new_metadata_header-IsPlaced (block_len_of k) p h;
      count = refl;
      entries = tt;
    };
    chained = tt;
    holds = tt;
  }

  create_metadata-eq :
      (k : MetaChild) (p : GptEntry)
      → IsWorking k
      → find_partition m k ≡ ok p
      → create_metadata m k ≡ created_of (sync_metadata m k (new_metadata (block_len_of k) p))
  unfolding create_metadata
  create_metadata-eq k p w e =
      let d : get_dev_of m k ≡ ok tt = simp (w.dev) in rw (d, e, create_metadata) refl

  created_of-IsDone :
      (k : MetaChild) (meta : NexusMetaData) (r : Changed) (cs : List NexusConfig)
      → IsDone m k meta r cs
      → created_of r ≡ (r.0, ok r.1.0)
  created_of-IsDone k meta (k', (meta', err e)) cs d = let q = d.done in absurd (ground arith)
  created_of-IsDone k meta (k', (meta', ok x)) cs d = refl

-- On a working child whose label begins with a metadata partition, metadata is created, and then any
-- run of additions and removals succeeds in which the objects that are added have room: afterwards the
-- metadata found on the partition is that of the last operation, and reading all objects gives the
-- list that the same run on the empty list gives.
pub create_metadata-run_operations :
    (m : MetaCodec) (law : IsMetaCodec m) (k : MetaChild) (p : GptEntry) (ops : List Operation)
    → IsWorking k
    → find_partition m k ≡ ok p
    → IsMetaPartition (block_len_of k) p
    → AllFit m (block_len_of k) (new_metadata_header (block_len_of k) p) [] ops
    → let (k1, created) = create_metadata m k in
      (meta : NexusMetaData) × ((created ≡ ok meta)
        × (let (k2, (meta2, r)) = run_operations m k1 meta ops in
            (r ≡ ok tt)
            × ((probe_index m k2 p.ent_start ≡ ok meta2)
                × (probe_all_config_objects m k2 meta2 ≡ ok (run_on_list [] ops)))))
unfolding new_metadata_header
create_metadata-run_operations m law k p ops w e h fit =
    let s : ℕ = block_len_of k in
    let top = factor_bounded (p.ent_end + 1) s h.positive h.bound in
    let meta = new_metadata m s p in
    let d = sync_metadata-IsDone m k meta [] law (new_metadata-Represents m k p w h) in
    let r = sync_metadata m k meta in
    let l : p.ent_start + 1 ≡ add_u64 p.ent_start 1 = omega (arith, h.room) in
    let z =
      run_operations-IsRun m ops r.0 r.1.0 p.ent_start [] law
        (same-AllFit m k meta r [] ops d.same fit) d.represents (l ∙ sym d.same.self_lba)
        (d.found p.ent_start l) in
    let q = create_metadata-eq m k p w e ∙ created_of-IsDone m k meta r [] d in
    let Goal : Created → Type 0 = λ c.
      (meta : NexusMetaData) × ((c.1 ≡ ok meta)
        × (let (k2, (meta2, r)) = run_operations m c.0 meta ops in
            (r ≡ ok tt)
            × ((probe_index m k2 p.ent_start ≡ ok meta2)
                × (probe_all_config_objects m k2 meta2 ≡ ok (run_on_list [] ops))))) in
    subst Goal (sym q) (
      r.1.0,
      (refl, (z.done, (z.found, probe_all-Represents m _ _ (run_on_list [] ops) law z.represents))),
    )
