-- ===== src/Metadata/Represented.antt =====
-- The list of objects that the metadata on a child stands for, and what writing out the index keeps of
-- it (`sync_metadata`, `probe_index` of nexus_metadata.rs).
use co_create_openebs.Metadata.Probed.{probe_index-IsWritten}
use co_create_openebs.Metadata.Moved.{stored_above}
use co_create_openebs.Label.Disk.{stored}
use co_create_openebs.Metadata.Objects.{
  IsChained, Holds, keep-Holds, read_objects-Holds, length-Holds, nth-Holds,
}
use co_create_openebs.Metadata.RoundTrip.{sync_metadata-IsSynced, signed-IsLaidOut, signed-IsSummed}
use co_create_openebs.Metadata.Laws.{IsMetaCodec}
use co_create_openebs.Metadata.Write.{Changed}
use co_create_openebs.Metadata.Read.{
  probe_all_config_objects, get_config_object, probe_config_object, probe_index, read_object,
}
use co_create_openebs.Metadata.Synced.{with_contents, block_len_of, IsLaidOut, sizes}
use co_create_openebs.Metadata.Layout.{
  MetaCodec, MetaChild, MetaDataHeader, NexusMetaData, NexusConfig,
}
use co_create_openebs.Prelude.{
  ◌≡◌, ◌∙◌, ℕ, List, ◌+◌, suc, ◌*◌, ◌<◌, u64_mod, arith, ok, sym, get_elem?, refl, Bool-cases, ltb,
  inr, ap, get_elem?_beyond, ◌≤◌, inl, leb, false, map_ok, some,
}
use co_create_openebs.Metadata.Signed.{IsWorking, IsPlaced}
use co_create_openebs.Metadata.Store.{sync_metadata, signed}
use mathlib.Core.Path.{subst}
use co_create_openebs.Label.Bytes.{same_bytes}
use co_create_openebs.Metadata.Laws.{FitsHeader}
use co_create_openebs.Metadata.Signed.{length-serialize_indexes}
use co_create_openebs.Metadata.Synced.{signed-FitsHeader, IsWritten}
use co_create_openebs.Metadata.Read.{serialize_indexes}

pub same-IsWorking : (k : MetaChild) (f : ℕ → ℕ) → IsWorking k → IsWorking (with_contents k f)
same-IsWorking k f w = record { dev = w.dev; alloc = w.alloc; reads = w.reads; writes = w.writes }

module _ (m : MetaCodec) where
  -- The child works, its index is in order, and its entries have the objects of the list.
  pub record Represents (k : MetaChild) (meta : NexusMetaData) (cs : List NexusConfig)
      : Type 0 where
    pub working : IsWorking k
    pub laid : IsLaidOut (block_len_of k) meta
    pub chained : IsChained meta.header.data_start meta.header.data_end meta.index
    pub holds : Holds m k.device.contents meta.header.self_lba (block_len_of k) meta.index cs

  -- The places that no operation changes.
  pub record IsSamePlaces (k : MetaChild) (meta : NexusMetaData) (r : Changed) : Type 0 where
    pub block_len : block_len_of r.0 ≡ block_len_of k
    pub self_lba : r.1.0.header.self_lba ≡ meta.header.self_lba
    pub data_start : r.1.0.header.data_start ≡ meta.header.data_start
    pub data_end : r.1.0.header.data_end ≡ meta.header.data_end
    pub max_entries : r.1.0.header.max_entries ≡ meta.header.max_entries

  -- What is in front of the objects gives the metadata, whatever is in their place.
  abbrev pub IsLasting : MetaChild → NexusMetaData → (partition_lba : ℕ) → Type 0
  IsLasting k meta partition_lba =
      (g : ℕ → ℕ)
      → ((i : ℕ)
          → i < (meta.header.self_lba + meta.header.data_start) * block_len_of k
          → g i ≡ k.device.contents i)
      → probe_index m (with_contents k g) partition_lba ≡ ok meta

  -- An operation that began with `meta` has succeeded, the objects are now those of the list, and
  -- whoever reads the partition finds the same metadata.
  pub record IsDone (k : MetaChild) (meta : NexusMetaData) (r : Changed) (cs : List NexusConfig)
      : Type 0 where
    pub done : r.1.1 ≡ ok tt
    pub represents : Represents r.0 r.1.0 cs
    pub found :
        (partition_lba : ℕ)
        → partition_lba + 1 ≡ meta.header.self_lba
        → probe_index m r.0 partition_lba ≡ ok r.1.0
    pub lasting :
        (partition_lba : ℕ)
        → partition_lba + 1 ≡ meta.header.self_lba
        → IsLasting r.0 r.1.0 partition_lba
    pub same : IsSamePlaces k meta r

  pub bound_of :
      (s : ℕ) (h : MetaDataHeader) → IsPlaced s h → (h.self_lba + suc h.data_end) * s < u64_mod
  bound_of s h p =
      subst (λ (j : ℕ). j * s < u64_mod) {x = h.self_lba + h.data_end + 1}
        {y = h.self_lba + suc h.data_end} (omega arith) p.bound

  -- The bytes of the metadata are in front of the objects.
  same-IsWritten :
      (s : ℕ) (f g : ℕ → ℕ) (meta : NexusMetaData)
      → IsMetaCodec m
      → IsLaidOut s meta
      → FitsHeader meta.header
      → ((i : ℕ) → i < (meta.header.self_lba + meta.header.data_start) * s → g i ≡ f i)
      → IsWritten m s f meta
      → IsWritten m s g meta
  same-IsWritten s f g meta law o fits q w =
      let h = meta.header in
      let z = sizes m law s h o.placed in
      let hl = law.header_len h fits in
      let il = length-serialize_indexes m law meta.index o.entries in
      record {
        header =
            same_bytes f g (h.self_lba * s) (m.serialize_meta h)
              (λ i _ l. q i (omega (arith, hl, z.header, z.inside, z.all))) w.header;
        index =
            same_bytes f g ((h.self_lba + h.index_start) * s) (serialize_indexes m meta.index)
              (λ i _ l.
                q i
                  (omega (arith, il, z.place, z.entries, z.inside, z.all, o.count, o.placed.used)))
              w.index;
      }

  pub sync_metadata-IsDone :
      (k : MetaChild) (meta : NexusMetaData) (cs : List NexusConfig)
      → IsMetaCodec m
      → Represents k meta cs
      → IsDone k meta (sync_metadata m k meta) cs
  unfolding signed
  sync_metadata-IsDone k meta cs law r =
      let s : ℕ = block_len_of k in
      let o = r.laid in
      let (buf, y) = sync_metadata-IsSynced m law k meta r.working o in
      let z = sizes m law s meta.header o.placed in
      let f = k.device.contents in
      let at : ℕ = meta.header.self_lba * s in
      let g : ℕ → ℕ = stored f at buf in
      let k' = with_contents k g in
      let w = same-IsWorking k g r.working in
      let laid = signed-IsLaidOut m law s meta o in
      let after : IsDone k meta (k', (signed m meta, ok tt)) cs = record {
        done = refl;
        represents = record {
          working = w;
          laid = laid;
          chained = r.chained;
          holds =
              keep-Holds m f g meta.header.self_lba s meta.header.data_start meta.header.data_end
                meta.index cs r.chained
                (λ i l _. stored_above f at buf i (omega (arith, z.inside, y.size))) r.holds;
        };
        found = λ partition_lba l.
            probe_index-IsWritten m law k' (signed m meta) partition_lba w laid y.written
              (signed-IsSummed m law s meta o.placed) l;
        lasting = λ partition_lba l e q.
            probe_index-IsWritten m law (with_contents k e) (signed m meta) partition_lba
              (same-IsWorking k e r.working) laid
              (same-IsWritten s g e (signed m meta) law laid
                (signed-FitsHeader m law s meta o.placed) q y.written)
              (signed-IsSummed m law s meta o.placed) l;
        same = record {
          block_len = refl;
          self_lba = refl;
          data_start = refl;
          data_end = refl;
          max_entries = refl;
        };
      } in
      subst (λ (c : Changed). IsDone k meta c cs) (sym y.result) after

  -- Reading them all gives the list.
  pub probe_all-Represents :
      (k : MetaChild) (meta : NexusMetaData) (cs : List NexusConfig)
      → IsMetaCodec m
      → Represents k meta cs
      → probe_all_config_objects m k meta ≡ ok cs
  unfolding probe_all_config_objects
  probe_all-Represents k meta cs law r =
      let q =
        read_objects-Holds m k meta.header meta.header.data_start meta.index cs law r.working
          r.laid.placed.positive (bound_of (block_len_of k) meta.header r.laid.placed) r.chained
          r.holds in
      simp (r.working.dev, q, probe_all_config_objects)

  -- Reading one gives that of the list, or nothing behind its end.
  pub get_config_object-Represents :
      (k : MetaChild) (meta : NexusMetaData) (cs : List NexusConfig) (i : ℕ)
      → IsMetaCodec m
      → Represents k meta cs
      → get_config_object m k meta i ≡ ok (get_elem? cs i)
  unfolding get_config_object probe_config_object
  get_config_object-Represents k meta cs i law r =
      let n =
        length-Holds m k.device.contents meta.header.self_lba (block_len_of k) meta.index cs
          r.holds in
      elim (Bool-cases (ltb i meta.header.used_entries)) [
        | inr z ↦
            let out : meta.header.used_entries ≤ i = ground arith in
            rw z (ap ok (sym (get_elem?_beyond cs i (omega (arith, n, r.laid.count, out)))))
        | inl z ↦
            let l : i < meta.header.used_entries = ground arith in
            let (e, (q, x)) =
              nth-Holds m k meta.header meta.header.data_start meta.index cs i law r.working
                r.laid.placed.positive (bound_of (block_len_of k) meta.header r.laid.placed)
                r.chained r.holds (omega (arith, r.laid.count)) in
            let y : leb meta.header.used_entries i ≡ false = ground arith in
            let p : probe_config_object m k meta i ≡ read_object m k meta.header e =
              simp (y, q, r.working.dev, probe_config_object) in
            rw z (ap (map_ok some) p ∙ x)
      ]
