-- ===== src/Label/Update.antt =====
-- The labels of all children of a nexus (nexus_label.rs): finding a configuration, creating,
-- updating and validating labels, and the size of the nexus that follows.
use co_create_openebs.Label.Validate.{guid_eq, fail_if}
use co_create_openebs.Label.Format.{Codec, generate_label, set_guid}
use co_create_openebs.Label.Disk.{LabelDevice, probe_label, write_label}
use co_create_openebs.Label.Layout.{
  GptGuid, reference_header, GptEntry, NexusLabel, LabelConfig, NexusLabelStatus,
  create_maya_partitions, LabelError, ProbeError, missing_partition, invalid_label, both,
  handle_error, metadata_partition_size, incorrect_partitions, label_redundancy,
}
use co_create_openebs.Prelude.{
  ℕ, ◌/◌, String, Bool, List, add_u64, Option, Result, if◌then◌else◌, true, ◌==◌, find, none,
  sub_u64, false, err, ◌&&◌, str_eq, ok, ◌>>=◌, some, ◌>>◌, ◌∷◌, leb, map_err, [], ltb, mul_u64,
  not,
}

unfoldable pub get_partition : NexusLabel → String → Option GptEntry
get_partition label name = find (λ e. str_eq e.ent_name name) label.partitions

abbrev pub entry_blocks : GptEntry → ℕ
entry_blocks e = add_u64 (sub_u64 e.ent_end e.ent_start) 1

-- `metadata_offset`, `data_offset`, `metadata_block_count` and `data_block_count` read one number of
-- a partition.
abbrev pub of_partition : NexusLabel → String → (GptEntry → ℕ) → Result ProbeError ℕ
of_partition label name f = elim (get_partition label name) [
  | none ↦ err (missing_partition name)
  | some e ↦ ok (f e)
]

unfoldable pub metadata_offset : NexusLabel → Result ProbeError ℕ
metadata_offset label = of_partition label "MayaMeta" (λ e. e.ent_start)

unfoldable pub data_offset : NexusLabel → Result ProbeError ℕ
data_offset label = of_partition label "MayaData" (λ e. e.ent_start)

unfoldable pub metadata_block_count : NexusLabel → Result ProbeError ℕ
metadata_block_count label = of_partition label "MayaMeta" entry_blocks

unfoldable pub data_block_count : NexusLabel → Result ProbeError ℕ
data_block_count label = of_partition label "MayaData" entry_blocks

unfoldable pub get_label_config : NexusLabel → Option LabelConfig
get_label_config label = elim (get_partition label "MayaMeta") [
  | none ↦ none
  | some meta ↦ elim (get_partition label "MayaData") [
    | none ↦ none
    | some rest ↦ some (record {
      disk_guid = label.primary.guid;
      meta_guid = meta.ent_guid;
      data_guid = rest.ent_guid;
    })
  ]
]

abbrev pub meta_matches : (reference entry : GptEntry) → (block_size : ℕ) → Bool
meta_matches reference entry block_size =
    entry.ent_start == reference.ent_start
    && entry.ent_end == reference.ent_end
    && leb metadata_partition_size (mul_u64 (entry_blocks entry) block_size)

unfoldable pub check_maya_partitions :
    (reference : GptEntry × GptEntry) → NexusLabel → (block_size : ℕ) → Bool
check_maya_partitions (meta, rest) label block_size = elim (get_partition label "MayaMeta") [
  | none ↦ false
  | some m ↦ elim (get_partition label "MayaData") [
    | none ↦ false
    | some e ↦ meta_matches meta m block_size && e.ent_start == rest.ent_start
  ]
]

-- A child after an operation on its label.
abbrev pub Labelled : Type 0
Labelled = LabelDevice × Result LabelError NexusLabel

-- `write_label`, then the label.
abbrev pub after_write : NexusLabel → LabelDevice × Result LabelError (Unit {0}) → Labelled
after_write label (d, ok _) = (d, ok label)
after_write label (d, err e) = (d, err e)

module _ (c : Codec) where
  unfoldable pub create_label :
      LabelDevice → LabelConfig → (block_size data_blocks total_blocks : ℕ) → Labelled
  create_label d config block_size data_blocks total_blocks =
      elim (generate_label c config block_size data_blocks total_blocks) [
        | err e ↦ (d, err e)
        | ok label ↦ after_write label (write_label c d label)
      ]

  -- The existing label, for the disk guid of the nexus.
  unfoldable pub adopt_label : LabelConfig → NexusLabel → NexusLabel
  adopt_label config label =
      if guid_eq label.primary.guid config.disk_guid
      then label
      else set_guid c label config.disk_guid

  unfoldable pub update_label :
      LabelDevice
      → (reference : GptEntry × GptEntry) → LabelConfig
      → (block_size data_blocks total_blocks : ℕ) → Labelled
  update_label d reference config block_size data_blocks total_blocks = elim (probe_label c d) [
    | ok label ↦
        if check_maya_partitions reference label block_size
        then (let label' = adopt_label config label in after_write label' (write_label c d label'))
        else create_label d config block_size data_blocks total_blocks
    | err (invalid_label _) ↦ create_label d config block_size data_blocks total_blocks
    | err e ↦ (d, err e)
  ]

  abbrev pub is_both : NexusLabelStatus → Bool
  is_both both = true
  is_both _ = false

  unfoldable pub validate_label :
      LabelDevice
      → (reference : GptEntry × GptEntry) → (block_size : ℕ) → Result LabelError NexusLabel
  validate_label d reference block_size = do
    label ← probe_label c d
    map_err invalid_label
        (fail_if (not (check_maya_partitions reference label block_size)) incorrect_partitions)
    map_err invalid_label (fail_if (not (is_both label.status)) label_redundancy)
    ok label

-- What the labels of a nexus depend on, and what they set.
pub record LabelNexus : Type 0 where
  pub guid : GptGuid
  pub block_len : ℕ
  pub size : ℕ
  pub data_ent_offset : ℕ
  pub block_count : ℕ
  pub children : List LabelDevice

-- `LabelConfig::new` with the two random guids that it draws.
abbrev pub new_config : GptGuid → (random : GptGuid × GptGuid) → LabelConfig
new_config guid random = record { disk_guid = guid; meta_guid = random.0; data_guid = random.1 }

abbrev pub nexus_blocks : LabelNexus → ℕ
nexus_blocks n = n.size / n.block_len

-- The "reference" entries.
unfoldable pub reference_partitions :
    LabelNexus → LabelConfig → Result LabelError (GptEntry × GptEntry)
reference_partitions n config =
    create_maya_partitions config (reference_header n.block_len (nexus_blocks n) n.guid) n.block_len
      (nexus_blocks n)

module _ (c : Codec) where
  unfoldable pub find_label_config :
      List LabelDevice → GptGuid → Result LabelError (Option LabelConfig)
  find_label_config [] guid = ok none
  find_label_config (d ∷ ds) guid = elim (probe_label c d) [
    | err (invalid_label _) ↦ find_label_config ds guid
    | err e ↦ err e
    | ok label ↦ elim (guid_eq label.primary.guid guid) [
      | false ↦ find_label_config ds guid
      | true ↦ elim (get_label_config label) [
        | none ↦ find_label_config ds guid
        | some config ↦ ok (some config)
      ]
    ]
  ]

-- The smaller of a bound and the number of data blocks of a label.
unfoldable pub lower_blocks : (min_blocks : ℕ) → NexusLabel → Result LabelError ℕ
lower_blocks min_blocks label = do
  data_blocks ← map_err invalid_label (data_block_count label)
  ok (if ltb data_blocks min_blocks then data_blocks else min_blocks)

abbrev pub keep_blocks : (min_blocks : ℕ) → NexusLabel → Result LabelError ℕ
keep_blocks min_blocks label = ok min_blocks

abbrev pub Looped : Type 0
Looped = List LabelDevice × Result LabelError ℕ

abbrev pub cons_child : LabelDevice → Looped → Looped
cons_child d (ds, r) = (d ∷ ds, r)

-- `for child in self.children.iter_mut()`, with `min_blocks`; the first error ends it, and leaves the
-- children after it alone.
unfoldable pub each_child :
    (f : LabelDevice → Labelled)
    → (count : ℕ → NexusLabel → Result LabelError ℕ) → (min_blocks : ℕ) → List LabelDevice
    → Looped
each_child f count min_blocks [] = ([], ok min_blocks)
each_child f count min_blocks (d ∷ ds) = elim d.handle_fails [
  | some e ↦ (d ∷ ds, err (handle_error e))
  | none ↦
      let (d', result) = f d in
      elim (result >>= count min_blocks) [
        | err e ↦ (d' ∷ ds, err e)
        | ok blocks ↦ cons_child d' (each_child f count blocks ds)
      ]
]

abbrev pub Done : Type 0
Done = LabelNexus × Result LabelError (Unit {0})

abbrev pub set_children : LabelNexus → List LabelDevice → LabelNexus
set_children n ds = record n { children = ds }

-- The size of the nexus after the loop.
abbrev pub set_size : LabelNexus → (reference : GptEntry × GptEntry) → Looped → Done
set_size n reference (ds, err e) = (set_children n ds, err e)
set_size n reference (ds, ok blocks) = (
  record n { children = ds; data_ent_offset = reference.1.ent_start; block_count = blocks },
  ok tt,
)

abbrev pub no_size : LabelNexus → Looped → Done
no_size n (ds, err e) = (set_children n ds, err e)
no_size n (ds, ok _) = (set_children n ds, ok tt)

abbrev pub config_or : LabelConfig → Option LabelConfig → LabelConfig
config_or config none = config
config_or config (some found) = found

-- The `?` behind the reference entries.
abbrev pub with_reference :
    LabelNexus → Result LabelError (GptEntry × GptEntry) → (GptEntry × GptEntry → Done) → Done
with_reference n (err e) f = (n, err e)
with_reference n (ok reference) f = f reference

module _ (c : Codec) (random : GptGuid × GptGuid) where
  unfoldable pub validate_child_labels : LabelNexus → Done
  validate_child_labels n =
      with_reference n (reference_partitions n (new_config n.guid random)) (λ reference.
        set_size n reference (
          each_child (λ d. (d, validate_label c d reference d.block_len)) lower_blocks
            (nexus_blocks n) n.children))

  unfoldable pub create_child_labels : LabelNexus → Done
  create_child_labels n =
      let config = new_config n.guid random in
      with_reference n (reference_partitions n config) (λ reference. set_size n reference (
        each_child (λ d. create_label c d config d.block_len (nexus_blocks n) d.num_blocks)
          lower_blocks (nexus_blocks n) n.children))

  -- `update_child_labels`, with the configuration that was found or is new.
  unfoldable pub update_with : LabelNexus → LabelConfig → Done
  update_with n config = with_reference n (reference_partitions n config) (λ reference. no_size n (
      each_child (λ d. update_label c d reference config d.block_len (nexus_blocks n) d.num_blocks)
        keep_blocks (nexus_blocks n) n.children))

  unfoldable pub update_child_labels : LabelNexus → Done
  update_child_labels n = elim (find_label_config c n.children n.guid) [
    | err e ↦ (n, err e)
    | ok found ↦ update_with n (config_or (new_config n.guid random) found)
  ]
