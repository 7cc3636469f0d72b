-- ===== src/Label/Generated.antt =====
-- A label that `generate_label` of nexus_label.rs makes is right for the device that it is made for.
use co_create_openebs.Label.Table.{IsSigned}
use co_create_openebs.Label.Probe.{IsLabel}
use co_create_openebs.Label.Validate.{check_entries}
use co_create_openebs.Label.Entries.{IsEntry}
use co_create_openebs.Label.Format.{
  generate_label, Codec, checksum_header, label_of, checksum_entries,
}
use co_create_openebs.Label.Geometry.{IsRoomy, get_blocks_positive}
use co_create_openebs.Label.Layout.{
  GptEntry, GptGuid, LabelConfig, get_blocks, gpt_table_size, metadata_partition_size, mebibyte,
  new_header, create_maya_partitions, maya_entry, NexusLabel, protect, metadata_partition_type,
  header_at, default_entry,
}
use co_create_openebs.Label.Laws.{IsGuid, IsCodec, IsPmbr, IsMbrEntry}
use co_create_openebs.Prelude.{
  ℕ, ok, ◌≡◌, ◌+◌, ◌-◌, ◌/◌, min, arith, ◌<◌, u64_mod, ◌≤◌, refl, List, ◌∷◌, [],
}

pub record IsConfig (config : LabelConfig) : Type 0 where
  pub disk : IsGuid config.disk_guid
  pub meta : IsGuid config.meta_guid
  pub rest : IsGuid config.data_guid

-- The first block of the data.
abbrev pub data_start : (s : ℕ) → ℕ
data_start s = mebibyte / s + get_blocks metadata_partition_size s

abbrev pub meta_of : LabelConfig → (s : ℕ) → GptEntry
meta_of config s = maya_entry "MayaMeta" config.meta_guid (mebibyte / s) (data_start s - 1)

abbrev pub data_of : LabelConfig → (s d last : ℕ) → GptEntry
data_of config s d last =
    maya_entry "MayaData" config.data_guid (data_start s) (min (data_start s + d - 1) last)

-- The last usable block.
abbrev pub last_usable : (s n : ℕ) → ℕ
last_usable s n = n - get_blocks gpt_table_size s - 2

pub maya_partitions-eq :
    (config : LabelConfig) (alt last s d : ℕ) (guid : GptGuid)
    → 0 < d
    → 0 < mebibyte / s
    → data_start s + d < u64_mod
    → data_start s ≤ last
    → create_maya_partitions config (header_at alt (mebibyte / s) last guid) s d
      ≡ ok (meta_of config s, data_of config s d last)
unfolding create_maya_partitions
maya_partitions-eq config alt last s d guid p t b l = ground arith

new_partitions-eq :
    (config : LabelConfig) (s d n : ℕ) (guid : GptGuid)
    → IsRoomy s d n
    → create_maya_partitions config (new_header s n guid) s d
      ≡ ok (meta_of config s, data_of config s d (last_usable s n))
unfolding create_maya_partitions new_header
new_partitions-eq config s d n guid r = ground arith

-- What `generate_label` returns.
abbrev pub generated : Codec → LabelConfig → (s d n : ℕ) → NexusLabel
generated c config s d n =
    label_of c (new_header s n config.disk_guid) n
      (meta_of config s, data_of config s d (last_usable s n))

pub generate_label-eq :
    (c : Codec) (config : LabelConfig) (s d n : ℕ)
    → IsRoomy s d n
    → generate_label c config s d n ≡ ok (generated c config s d n)
unfolding generate_label
generate_label-eq c config s d n r =
    rw (new_partitions-eq config s d n config.disk_guid r, generate_label) refl

module _ (c : Codec) (law : IsCodec c) (config : LabelConfig) (s d n : ℕ) (g : IsConfig config)
    (r : IsRoomy s d n) (large : 512 ≤ s) where
  abbrev parts : List GptEntry
  parts = meta_of config s ∷ data_of config s d (last_usable s n) ∷ []

  type-IsGuid : IsGuid metadata_partition_type
  type-IsGuid = record {
    low = omega arith;
    mid = omega arith;
    high = omega arith;
    node = (refl, ground arith);
  }

  meta-IsEntry : IsEntry c law (meta_of config s)
  meta-IsEntry = (
    record {
      type_ = type-IsGuid;
      guid = g.meta;
      start = omega (arith, r.table, r.metadata, r.bound);
      end_ = omega (arith, r.metadata, r.bound);
      attr = omega arith;
    },
    law.meta_name,
  )

  data-IsEntry : IsEntry c law (data_of config s d (last_usable s n))
  data-IsEntry = (
    record {
      type_ = type-IsGuid;
      guid = g.rest;
      start = omega (arith, r.metadata, r.bound);
      end_ = omega (arith, r.metadata, r.bound);
      attr = omega arith;
    },
    law.data_name,
  )

  primary-IsSigned : IsSigned c (generated c config s d n).primary
  unfolding checksum_header new_header checksum_entries
  primary-IsSigned = record {
    header = record {
      signature = (refl, ground arith);
      revision = (refl, ground arith);
      header_size = omega arith;
      checksum = law.crc _;
      reserved = (refl, ground arith);
      self_ = omega arith;
      alt = omega (arith, r.bound);
      start = omega (arith, r.metadata, r.bound);
      end_ = omega (arith, r.metadata, r.bound);
      guid = g.disk;
      table = omega arith;
      entries = omega arith;
      entry = omega arith;
      crc = law.crc _;
    };
    size = refl;
    signature = refl;
    revision = refl;
    checksum = refl;
  }

  mbr-IsPmbr : IsPmbr (generated c config s d n).mbr
  unfolding protect
  mbr-IsPmbr =
      let entry : IsMbrEntry default_entry = record {
        attributes = omega arith;
        chs_start = (refl, ground arith);
        type_ = omega arith;
        chs_last = (refl, ground arith);
        start = omega arith;
        sectors = omega arith;
      } in
      record {
        disk = omega arith;
        reserved = omega arith;
        entry = record {
          attributes = omega arith;
          chs_start = (refl, ground arith);
          type_ = omega arith;
          chs_last = (refl, ground arith);
          start = omega arith;
          sectors = ground arith;
        };
        others = (refl, (entry, (entry, (entry, tt))));
        signature = (refl, ground arith);
      }

  pub generated-IsLabel : IsLabel c law (generated c config s d n) s n
  unfolding checksum_header new_header check_entries protect
  generated-IsLabel = record {
    place = omega (arith, r);
    signed = primary-IsSigned;
    secondary = refl;
    two = refl;
    entries = (meta-IsEntry, (data-IsEntry, tt));
    used = ground arith;
    checked =
        let m =
          get_blocks_positive metadata_partition_size s (omega arith) (omega (arith, large)) in
        ground arith;
    crc = refl;
    mbr = mbr-IsPmbr;
    mbr_magic = refl;
    mbr_size = ground arith;
  }
