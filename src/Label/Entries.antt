-- ===== src/Label/Entries.antt =====
-- Entries of the partition table are read back as they were written, where their names fit
-- (`GptName`, `GptEntry::from_slice` of nexus_label.rs).
use co_create_openebs.Label.Layout.{GptEntry}
use co_create_openebs.Label.Bytes.{Agrees, split_bytes, move_bytes}
use co_create_openebs.Label.Laws.{IsCodec, IsFields, IsName}
use co_create_openebs.Label.Format.{
  Codec, serialize_units, visit_units, fill_units, Buffer, serialize_entry, deserialize_entry,
  name_units, deserialize_name, fields_of,
}
use co_create_openebs.Prelude.{
  ℕ, ◌+◌, List, ◌*◌, ◌<◌, length, suc, All, ◌≤◌, ◌≡◌, ap, ◌∷◌, zero, false, arith, [], ◌++◌, some,
  true, refl, length-append, ◌==◌, ◌∙◌, Option, Bool, String,
}

abbrev ended_at : List ℕ → ℕ → Option (List ℕ × (Bool × ℕ))
ended_at us pos = some (us, (true, pos))

abbrev read_entry : GptEntry → ℕ → Option (GptEntry × ℕ)
read_entry e pos = some (e, pos)

abbrev named : ℕ → String → Option (String × ℕ)
named pos name = some (name, pos)

module _ (c : Codec) (law : IsCodec c) where
  length-serialize_units : (us : List ℕ) → length (serialize_units c us) ≡ 2 * length us
  unfolding serialize_units
  length-serialize_units [] = refl
  length-serialize_units (u ∷ us) = omega (
    arith,
    length-append {0} (c.serialize_u16 u) (serialize_units c us),
    law.u16_len u,
    length-serialize_units us,
  )

  length-fill_units : (n : ℕ) (us : List ℕ) → length (fill_units n us) ≡ n
  unfolding fill_units
  length-fill_units zero us = refl
  length-fill_units (suc n) [] = ap suc (length-fill_units n [])
  length-fill_units (suc n) (u ∷ us) = ap suc (length-fill_units n us)

  -- One unit at the cursor.
  unit_read :
      (buf : Buffer) (pos u n : ℕ) (us : List ℕ)
      → u < 65536
      → pos + 2 * suc n ≤ buf.len
      → Agrees buf.byte pos (c.serialize_u16 u ++ serialize_units c us)
      → (c.deserialize_u16 buf pos ≡ some (u, pos + 2))
        × Agrees buf.byte (pos + 2) (serialize_units c us)
  unit_read buf pos u n us b l h =
      let (x, y) = split_bytes buf.byte pos (c.serialize_u16 u) (serialize_units c us) h in
      (
        law.u16_read buf pos u b (omega arith) x,
        move_bytes buf.byte (pos + length (c.serialize_u16 u)) (pos + 2) (serialize_units c us)
            (omega (arith, law.u16_len u)) y,
      )

  visit_zeros :
      (n : ℕ) (buf : Buffer) (pos : ℕ)
      → pos + 2 * n ≤ buf.len
      → Agrees buf.byte pos (serialize_units c (fill_units n []))
      → visit_units c n buf pos true ≡ some ([], (true, pos + 2 * n))
  unfolding visit_units fill_units serialize_units
  visit_zeros zero buf pos l h = ap (ended_at []) (omega arith)
  visit_zeros (suc n) buf pos l h =
      let (r, h') = unit_read buf pos 0 n (fill_units n []) (omega arith) l h in
      rw (r, visit_units)
        (visit_zeros n buf (pos + 2) (omega arith) h' ∙ ap (ended_at []) (omega arith))

  visit_fill :
      (n : ℕ) (us : List ℕ) (buf : Buffer) (pos : ℕ)
      → length us < n
      → All (λ u. (0 < u) × (u < 65536)) us
      → pos + 2 * n ≤ buf.len
      → Agrees buf.byte pos (serialize_units c (fill_units n us))
      → visit_units c n buf pos false ≡ some (us, (true, pos + 2 * n))
  unfolding visit_units fill_units serialize_units
  visit_fill zero us buf pos s a l h = absurd (omega arith)
  visit_fill (suc n) [] buf pos s a l h =
      let (r, h') = unit_read buf pos 0 n (fill_units n []) (omega arith) l h in
      rw (r, visit_units)
        (visit_zeros n buf (pos + 2) (omega arith) h' ∙ ap (ended_at []) (omega arith))
  visit_fill (suc n) (u ∷ us) buf pos s a l h =
      let (r, h') = unit_read buf pos u n (fill_units n us) a.0.1 l h in
      let z : (u == 0) ≡ false = ground (arith, a.0.0) in
      rw (r, z, visit_units)
        (rw (visit_fill n us buf (pos + 2) (omega arith) a.1 (omega arith) h')
          (ap (ended_at (u ∷ us)) (omega arith)))

  -- The fields of an entry fit their types, and its name fits its place.
  abbrev pub IsEntry : GptEntry → Type 0
  IsEntry e = IsFields (fields_of c e) × IsName c e.ent_name

  pub length-serialize_entry : (e : GptEntry) → IsEntry e → length (serialize_entry c e) ≡ 128
  unfolding serialize_entry
  length-serialize_entry e h =
      let units = fill_units name_units (c.encode_utf16 e.ent_name) in
      omega (
        arith,
        length-append {0} (c.serialize_fields (fields_of c e)) (serialize_units c units),
        law.fields_len (fields_of c e) h.0,
        length-serialize_units units,
        length-fill_units name_units (c.encode_utf16 e.ent_name),
      )

  -- An entry whose fields fit their types, with a name of fewer than 36 code units, none of them zero,
  -- is read back from wherever its bytes stand, and the cursor is then behind it.
  pub entry_read_back :
      (e : GptEntry) (buf : Buffer) (pos : ℕ)
      → IsEntry e
      → pos + 128 ≤ buf.len
      → Agrees buf.byte pos (serialize_entry c e)
      → deserialize_entry c buf pos ≡ some (e, pos + 128)
  unfolding deserialize_entry deserialize_name serialize_entry
  entry_read_back e buf pos h l a =
      let fields = c.serialize_fields (fields_of c e) in
      let units = serialize_units c (fill_units name_units (c.encode_utf16 e.ent_name)) in
      let (x, y) = split_bytes buf.byte pos fields units a in
      let y' =
        move_bytes buf.byte (pos + length fields) (pos + 56) units
          (omega (arith, law.fields_len (fields_of c e) h.0)) y in
      let v =
        visit_fill name_units (c.encode_utf16 e.ent_name) buf (pos + 56) h.1.short h.1.units
          (omega arith) y' in
      let r = law.fields_read buf pos (fields_of c e) h.0 (omega arith) x in
      let n : deserialize_name c buf (pos + 56) ≡ some (e.ent_name, pos + 56 + 2 * name_units) =
        rw (v, deserialize_name) (ap (named (pos + 56 + 2 * name_units)) h.1.kept) in
      rw (r, n, deserialize_entry) (ap (read_entry e) (omega arith))
