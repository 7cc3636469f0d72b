-- ===== src/Label/Format.antt =====
-- The form of a label on the device (nexus_label.rs): names, checksums, and what is read back. The
-- serialisation itself is that of the crates bincode, crc32 and of std, and enters as a parameter.
use co_create_openebs.Label.Layout.{
  GptHeader, new_header, GptEntry, Pmbr, NexusLabel, GptGuid, ProbeError, neither,
  create_maya_partitions, protect, default_pmbr, default_entry, LabelConfig, LabelError,
  deserialize_error,
}
use co_create_openebs.Prelude.{
  ℕ, Result, Option, Bool, List, some, String, ◌++◌, ◌∷◌, replicate, [], add_u64, ok, ◌-◌, false,
  suc, zero, length, err, none, ◌==◌, if◌then◌else◌, true,
}

-- A piece of memory of `len` bytes.
pub record Buffer : Type 0 where
  pub len : ℕ
  pub byte : ℕ → ℕ

-- What comes before the name in the form of an entry.
pub record EntryFields : Type 0 where
  pub ent_type : GptGuid
  pub ent_guid : GptGuid
  pub ent_start : ℕ
  pub ent_end : ℕ
  pub ent_attr : ℕ

-- `serialize` and `deserialize_from` at the types of a label: a reader takes the position of the
-- cursor, and returns the value with the position after it. `checksum_ieee` is the CRC of all bytes
-- that a digest was given.
pub record Codec : Type 0 where
  pub serialize_mbr : Pmbr → List ℕ
  pub serialize_header : GptHeader → List ℕ
  pub serialize_fields : EntryFields → List ℕ
  pub serialize_u16 : ℕ → List ℕ
  pub deserialize_mbr : Buffer → (pos : ℕ) → Option (Pmbr × ℕ)
  pub deserialize_header : Buffer → (pos : ℕ) → Option (GptHeader × ℕ)
  pub deserialize_fields : Buffer → (pos : ℕ) → Option (EntryFields × ℕ)
  pub deserialize_u16 : Buffer → (pos : ℕ) → Option (ℕ × ℕ)
  pub checksum_ieee : List ℕ → ℕ
  pub encode_utf16 : String → List ℕ
  pub from_utf16_lossy : List ℕ → String

-- A name is written as this many code units, the rest of them zero; more are cut off.
abbrev pub name_units : ℕ
name_units = 36

unfoldable pub fill_units : (rounds : ℕ) → List ℕ → List ℕ
fill_units zero us = []
fill_units (suc n) [] = 0 ∷ fill_units n []
fill_units (suc n) (u ∷ us) = u ∷ fill_units n us

module _ (c : Codec) where
  unfoldable pub serialize_units : List ℕ → List ℕ
  serialize_units [] = []
  serialize_units (u ∷ us) = c.serialize_u16 u ++ serialize_units us

  abbrev pub fields_of : GptEntry → EntryFields
  fields_of e = record {
    ent_type = e.ent_type;
    ent_guid = e.ent_guid;
    ent_start = e.ent_start;
    ent_end = e.ent_end;
    ent_attr = e.ent_attr;
  }

  unfoldable pub serialize_entry : GptEntry → List ℕ
  serialize_entry e =
      c.serialize_fields (fields_of e)
      ++ serialize_units (fill_units name_units (c.encode_utf16 e.ent_name))

  -- The loop of `visit_seq` over the units that are left: the units before the first zero, whether
  -- there was one, and where the cursor stands. `none` is an error of a read.
  unfoldable pub visit_units :
      (rounds : ℕ) → Buffer → (pos : ℕ) → (end : Bool) → Option (List ℕ × (Bool × ℕ))
  visit_units zero buf pos end = some ([], (end, pos))
  visit_units (suc n) buf pos end = elim (c.deserialize_u16 buf pos) [
    | none ↦ none
    | some (u, pos') ↦ elim (u == 0) [
      | true ↦ visit_units n buf pos' true
      | false ↦ elim end [
        | true ↦ some ([], (true, pos'))
        | false ↦ elim (visit_units n buf pos' false) [
          | none ↦ none
          | some (us, r) ↦ some (u ∷ us, r)
        ]
      ]
    ]
  ]

  unfoldable pub deserialize_name : Buffer → (pos : ℕ) → Option (String × ℕ)
  unfolding visit_units
  deserialize_name buf pos = elim (visit_units name_units buf pos false) [
    | none ↦ none
    | some (us, (end, pos')) ↦ if end then some (c.from_utf16_lossy us, pos') else none
  ]

  unfoldable pub deserialize_entry : Buffer → (pos : ℕ) → Option (GptEntry × ℕ)
  unfolding deserialize_name
  deserialize_entry buf pos = elim (c.deserialize_fields buf pos) [
    | none ↦ none
    | some (f, pos') ↦ elim (deserialize_name buf pos') [
      | none ↦ none
      | some (name, pos'') ↦ some (
        record {
          ent_type = f.ent_type;
          ent_guid = f.ent_guid;
          ent_start = f.ent_start;
          ent_end = f.ent_end;
          ent_attr = f.ent_attr;
          ent_name = name;
        },
        pos'',
      )
    ]
  ]

  -- `GptEntry::from_slice`, with the cursor at `pos`.
  unfoldable pub entries_from_slice :
      (count : ℕ) → Buffer → (pos : ℕ) → Result ProbeError (List GptEntry)
  unfolding deserialize_entry
  entries_from_slice zero buf pos = ok []
  entries_from_slice (suc n) buf pos = elim (deserialize_entry buf pos) [
    | none ↦ err deserialize_error
    | some (e, pos') ↦ elim (entries_from_slice n buf pos') [ err x ↦ err x | ok es ↦ ok (e ∷ es) ]
  ]

  -- What the header is without its checksum.
  abbrev pub unsigned : GptHeader → GptHeader
  unsigned h = record h { self_checksum = 0 }

  abbrev pub header_crc : GptHeader → ℕ
  header_crc h = c.checksum_ieee (c.serialize_header (unsigned h))

  -- `GptHeader::checksum`, which sets the field.
  unfoldable pub checksum_header : GptHeader → GptHeader
  checksum_header h = record h { self_checksum = header_crc h }

  abbrev pub default_guid : GptGuid
  default_guid = record { time_low = 0; time_mid = 0; time_high = 0; node = replicate 8 0 }

  abbrev pub unused_entry : GptEntry
  unused_entry = record {
    ent_type = default_guid;
    ent_guid = default_guid;
    ent_start = 0;
    ent_end = 0;
    ent_attr = 0;
    ent_name = "";
  }

  unfoldable pub serialize_entries : List GptEntry → List ℕ
  unfolding serialize_entry
  serialize_entries [] = []
  serialize_entries (e ∷ es) = serialize_entry e ++ serialize_entries es

  -- `GptEntry::checksum`: unused entries are added up to `size`.
  unfoldable pub checksum_entries : List GptEntry → (size : ℕ) → ℕ
  unfolding serialize_entries
  checksum_entries partitions size =
      c.checksum_ieee
        (serialize_entries (partitions ++ replicate (size - length partitions) unused_entry))

  unfoldable pub to_backup : GptHeader → GptHeader
  unfolding checksum_header
  to_backup h =
      checksum_header
        (record h { lba_self = h.lba_alt; lba_alt = h.lba_self; lba_table = add_u64 h.lba_end 1 })

  unfoldable pub to_primary : GptHeader → GptHeader
  unfolding checksum_header
  to_primary h =
      checksum_header
        (record h { lba_self = h.lba_alt; lba_alt = h.lba_self; lba_table = add_u64 h.lba_alt 1 })

  -- `Nexus::generate_label`, once the partitions are there.
  abbrev pub label_of : GptHeader → (total_blocks : ℕ) → GptEntry × GptEntry → NexusLabel
  label_of header total_blocks (meta, rest) =
      let partitions : List GptEntry = meta ∷ rest ∷ [] in
      let primary =
        checksum_header
          (record header { table_crc = checksum_entries partitions header.num_entries }) in
      record {
        status = neither;
        mbr = record default_pmbr { entry = protect default_entry total_blocks };
        primary = primary;
        partitions = partitions;
        secondary = to_backup primary;
      }

  unfoldable pub generate_label :
      LabelConfig → (block_size data_blocks total_blocks : ℕ) → Result LabelError NexusLabel
  unfolding new_header create_maya_partitions checksum_header checksum_entries to_backup protect
  generate_label config block_size data_blocks total_blocks =
      let header = new_header block_size total_blocks config.disk_guid in
      elim (create_maya_partitions config header block_size data_blocks) [
        | err e ↦ err e
        | ok partitions ↦ ok (label_of header total_blocks partitions)
      ]

  -- `NexusLabel::set_guid`.
  unfoldable pub set_guid : NexusLabel → GptGuid → NexusLabel
  unfolding checksum_header to_backup
  set_guid label guid =
      let primary = checksum_header (record (label.primary) { guid = guid }) in
      record label { primary = primary; secondary = to_backup primary; status = neither }
