-- ===== src/Metadata/Run.antt =====
-- Whole runs of operations on the metadata of a child against the same runs on a list
-- (`create_metadata`, `append_config_object`, `delete_config_object`, `probe_index`,
-- `probe_all_config_objects` of nexus_metadata.rs).
use co_create_openebs.Metadata.Removed.{delete_config_object-IsDone}
use co_create_openebs.Metadata.Grown.{append_config_object-IsDone}
use co_create_openebs.Metadata.Synced.{block_len_of}
use co_create_openebs.Metadata.Read.{probe_index}
use co_create_openebs.Metadata.Write.{Changed}
use co_create_openebs.Metadata.Laws.{IsReadable, u128_mod, IsMetaCodec}
use co_create_openebs.Metadata.Placed.{snoc}
use co_create_openebs.Metadata.Layout.{
  NexusConfig, MetaCodec, MetaChild, MetaDataHeader, NexusMetaData,
}
use co_create_openebs.Prelude.{ℕ, ◌≡◌, ◌∙◌, List, ◌∷◌, [], ◌<◌, ok, err, ◌+◌, refl, arith, sym}
use co_create_openebs.Metadata.Represented.{Represents, IsDone, IsSamePlaces}
use co_create_openebs.Metadata.Store.{remove_at, append_config_object, delete_config_object}
use co_create_openebs.Metadata.Refinement.{HasRoom}

-- What is asked for.
pub data Operation : Type 0 where
  append_object : (config : NexusConfig) (timestamp : ℕ) → Operation
  remove_object : (selected : ℕ) → Operation

-- On a list.
abbrev pub perform_on_list : List NexusConfig → Operation → List NexusConfig
perform_on_list cs (append_object config timestamp) = snoc cs config
perform_on_list cs (remove_object selected) = remove_at selected cs

abbrev pub run_on_list : List NexusConfig → List Operation → List NexusConfig
run_on_list cs [] = cs
run_on_list cs (op ∷ ops) = run_on_list (perform_on_list cs op) ops

-- After an operation, if it has not failed.
abbrev pub run_after : Changed → (MetaChild → NexusMetaData → Changed) → Changed
run_after (k, (meta, err e)) next = (k, (meta, err e))
run_after (k, (meta, ok _)) next = next k meta

module _ (m : MetaCodec) where
  -- On a child, up to the first error.
  abbrev pub perform : MetaChild → NexusMetaData → Operation → Changed
  perform k meta (append_object config timestamp) =
      append_config_object m k meta config (ok timestamp)
  perform k meta (remove_object selected) = delete_config_object m k meta selected

  abbrev pub run_operations : MetaChild → NexusMetaData → List Operation → Changed
  run_operations k meta [] = (k, (meta, ok tt))
  run_operations k meta (op ∷ ops) =
      run_after (perform k meta op) (λ k' meta'. run_operations k' meta' ops)

  -- Each object that is added fits its type, and there is room for it then.
  abbrev pub AllFit : (s : ℕ) → MetaDataHeader → List NexusConfig → List Operation → Type 0
  AllFit s h cs [] = Unit
  AllFit s h cs (append_object config timestamp ∷ ops) =
      (IsReadable m config × ((timestamp < u128_mod) × HasRoom m s h (snoc cs config)))
      × AllFit s h (snoc cs config) ops
  AllFit s h cs (remove_object selected ∷ ops) = AllFit s h (remove_at selected cs) ops

  -- The child has the objects of the list, and the partition is found that way.
  pub record IsRun (k : MetaChild) (meta : NexusMetaData) (partition_lba : ℕ) (r : Changed)
      (cs : List NexusConfig) : Type 0 where
    pub done : r.1.1 ≡ ok tt
    pub represents : Represents m r.0 r.1.0 cs
    pub found : probe_index m r.0 partition_lba ≡ ok r.1.0
    pub same : IsSamePlaces m k meta r

  same-HasRoom :
      (k : MetaChild) (meta : NexusMetaData) (r : Changed) (cs : List NexusConfig)
      → IsSamePlaces m k meta r
      → HasRoom m (block_len_of k) meta.header cs
      → HasRoom m (block_len_of r.0) r.1.0.header cs
  same-HasRoom k meta r cs e h = record {
    entries = rw e.max_entries h.entries;
    blocks = rw (e.block_len, e.data_start, e.data_end) h.blocks;
  }

  pub same-AllFit :
      (k : MetaChild) (meta : NexusMetaData) (r : Changed) (cs : List NexusConfig)
      (ops : List Operation)
      → IsSamePlaces m k meta r
      → AllFit (block_len_of k) meta.header cs ops
      → AllFit (block_len_of r.0) r.1.0.header cs ops
  same-AllFit k meta r cs [] e h = tt
  same-AllFit k meta r cs (append_object config timestamp ∷ ops) e h = (
    (h.0.0, (h.0.1.0, same-HasRoom k meta r (snoc cs config) e h.0.1.1)),
    same-AllFit k meta r (snoc cs config) ops e h.1,
  )
  same-AllFit k meta r cs (remove_object selected ∷ ops) e h =
      same-AllFit k meta r (remove_at selected cs) ops e h

  -- One operation.
  perform-IsDone :
      (k : MetaChild) (meta : NexusMetaData) (cs : List NexusConfig) (op : Operation)
      (ops : List Operation)
      → IsMetaCodec m
      → AllFit (block_len_of k) meta.header cs (op ∷ ops)
      → Represents m k meta cs
      → IsDone m k meta (perform k meta op) (perform_on_list cs op)
        × AllFit (block_len_of k) meta.header (perform_on_list cs op) ops
  perform-IsDone k meta cs (append_object config timestamp) ops law h r =
      (append_config_object-IsDone m law k meta config timestamp cs h.0.0 h.0.1.0 h.0.1.1 r, h.1)
  perform-IsDone k meta cs (remove_object selected) ops law h r =
      (delete_config_object-IsDone m law k meta cs selected r, h)

  after_each :
      (ops : List Operation) (k : MetaChild) (meta : NexusMetaData) (partition_lba : ℕ)
      (r : Changed) (cs : List NexusConfig)
      → ((k' : MetaChild) (meta' : NexusMetaData)
          → AllFit (block_len_of k') meta'.header cs ops
          → Represents m k' meta' cs
          → partition_lba + 1 ≡ meta'.header.self_lba
          → probe_index m k' partition_lba ≡ ok meta'
          → IsRun k' meta' partition_lba (run_operations k' meta' ops) (run_on_list cs ops))
      → AllFit (block_len_of k) meta.header cs ops
      → IsDone m k meta r cs
      → partition_lba + 1 ≡ meta.header.self_lba
      → IsRun k meta partition_lba
          (run_after r (λ k' meta'. run_operations k' meta' ops))
          (run_on_list cs ops)
  after_each ops k meta partition_lba (k', (meta', err e)) cs next h d l =
      let q = d.done in absurd (ground arith)
  after_each ops k meta partition_lba (k', (meta', ok x)) cs next h d l =
      let z =
        next k' meta' (same-AllFit k meta (k', (meta', ok x)) cs ops d.same h) d.represents
          (l ∙ sym d.same.self_lba) (d.found partition_lba l) in
      record {
        done = z.done;
        represents = z.represents;
        found = z.found;
        same = record {
          block_len = z.same.block_len ∙ d.same.block_len;
          self_lba = z.same.self_lba ∙ d.same.self_lba;
          data_start = z.same.data_start ∙ d.same.data_start;
          data_end = z.same.data_end ∙ d.same.data_end;
          max_entries = z.same.max_entries ∙ d.same.max_entries;
        };
      }

  pub run_operations-IsRun :
      (ops : List Operation) (k : MetaChild) (meta : NexusMetaData) (partition_lba : ℕ)
      (cs : List NexusConfig)
      → IsMetaCodec m
      → AllFit (block_len_of k) meta.header cs ops
      → Represents m k meta cs
      → partition_lba + 1 ≡ meta.header.self_lba
      → probe_index m k partition_lba ≡ ok meta
      → IsRun k meta partition_lba (run_operations k meta ops) (run_on_list cs ops)
  run_operations-IsRun [] k meta partition_lba cs law h r l f = record {
    done = refl;
    represents = r;
    found = f;
    same = record {
      block_len = refl;
      self_lba = refl;
      data_start = refl;
      data_end = refl;
      max_entries = refl;
    };
  }
  run_operations-IsRun (op ∷ ops) k meta partition_lba cs law h r l f =
      let (d, h') = perform-IsDone k meta cs op ops law h r in
      after_each ops k meta partition_lba (perform k meta op) (perform_on_list cs op)
        (λ k' meta'. run_operations-IsRun ops k' meta' partition_lba (perform_on_list cs op) law) h'
        d l
