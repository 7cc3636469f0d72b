-- ===== src/Label/LittleEndian.antt =====
-- An instance of the serialisation that the label code relies on: little-endian, as bincode writes
-- it. Its checksum and its texts are the simplest that the laws allow.
use co_create_openebs.Label.Bytes.{Agrees}
use co_create_openebs.Label.Forms.{Form, number, bytes, both_of, through, length-digits}
use co_create_openebs.Label.Validate.{bytes_eq}
use co_create_openebs.Label.Layout.{default_entry, GptGuid, GptHeader, MbrEntry, Pmbr}
use co_create_openebs.Label.Format.{EntryFields, Codec, Buffer}
use co_create_openebs.Label.Laws.{IsGuid, IsHeader, IsFields, IsMbrEntry, IsCodec, IsPmbr}
use co_create_openebs.Prelude.{
  refl, List, ℕ, length, ◌<◌, ◌+◌, ◌≡◌, Option, arith, All, ◌≤◌, if◌then◌else◌, u32_mod, leb, some,
  none, true, ◌∷◌, [], String, ◌%◌, ◌*◌,
}
use Prim.Native.Char.{code}
use Prim.Native.String.{[] as no_text, ◌∷◌ as ◌∷ₜ◌}

abbrev guid_form : Form GptGuid
guid_form =
    through (both_of (number 4) (both_of (number 2) (both_of (number 2) (bytes 8))))
      (λ g. (g.time_low, (g.time_mid, (g.time_high, g.node))))
      (λ t. record { time_low = t.0; time_mid = t.1.0; time_high = t.1.1.0; node = t.1.1.1 })

guid_fits : (g : GptGuid) → IsGuid g → guid_form.Fits g
guid_fits g h = ((h.low, (h.mid, (h.high, h.node.0))), refl)

-- The first part of a header, and the rest.
abbrev header_form : Form GptHeader
header_form =
    through
      (both_of (bytes 8) (
        both_of (bytes 4) (
          both_of (number 4) (
            both_of (number 4) (
              both_of (bytes 4) (
                both_of (number 8) (
                  both_of (number 8) (
                    both_of (number 8) (
                      both_of (number 8) (
                        both_of guid_form (
                          both_of (number 8)
                            (both_of (number 4) (both_of (number 4) (number 4))))))))))))))
      (λ h. (
        h.signature,
        (
          h.revision,
          (
            h.header_size,
            (
              h.self_checksum,
              (
                h.reserved,
                (
                  h.lba_self,
                  (
                    h.lba_alt,
                    (
                      h.lba_start,
                      (
                        h.lba_end,
                        (h.guid, (h.lba_table, (h.num_entries, (h.entry_size, h.table_crc)))),
                      ),
                    ),
                  ),
                ),
              ),
            ),
          ),
        ),
      ))
      (λ (a, (b, (c, (d, (e, (f, (g, (h, (i, (j, (k, (l, (m, n))))))))))))). record {
        signature = a;
        revision = b;
        header_size = c;
        self_checksum = d;
        reserved = e;
        lba_self = f;
        lba_alt = g;
        lba_start = h;
        lba_end = i;
        guid = j;
        lba_table = k;
        num_entries = l;
        entry_size = m;
        table_crc = n;
      })

header_fits : (h : GptHeader) → IsHeader h → header_form.Fits h
header_fits h p = (
  (
    p.signature.0,
    (
      p.revision.0,
      (
        p.header_size,
        (
          p.checksum,
          (
            p.reserved.0,
            (
              p.self_,
              (
                p.alt,
                (
                  p.start,
                  (p.end_, (guid_fits h.guid p.guid, (p.table, (p.entries, (p.entry, p.crc))))),
                ),
              ),
            ),
          ),
        ),
      ),
    ),
  ),
  refl,
)

abbrev fields_form : Form EntryFields
fields_form =
    through
      (both_of guid_form (both_of guid_form (both_of (number 8) (both_of (number 8) (number 8)))))
      (λ e. (e.ent_type, (e.ent_guid, (e.ent_start, (e.ent_end, e.ent_attr)))))
      (λ (a, (b, (c, (d, e)))). record {
        ent_type = a;
        ent_guid = b;
        ent_start = c;
        ent_end = d;
        ent_attr = e;
      })

fields_fits : (e : EntryFields) → IsFields e → fields_form.Fits e
fields_fits e p = (
  (guid_fits e.ent_type p.type_, (guid_fits e.ent_guid p.guid, (p.start, (p.end_, p.attr)))),
  refl,
)

abbrev entry_form : Form MbrEntry
entry_form =
    through
      (both_of (number 1) (
        both_of (bytes 3) (both_of (number 1) (both_of (bytes 3) (both_of (number 4) (number 4))))))
      (λ e. (e.attributes, (e.chs_start, (e.ent_type, (e.chs_last, (e.lba_start, e.num_sectors))))))
      (λ (a, (b, (c, (d, (e, f))))). record {
        attributes = a;
        chs_start = b;
        ent_type = c;
        chs_last = d;
        lba_start = e;
        num_sectors = f;
      })

entry_fits : (e : MbrEntry) → IsMbrEntry e → entry_form.Fits e
entry_fits e p =
    ((p.attributes, (p.chs_start.0, (p.type_, (p.chs_last.0, (p.start, p.sectors))))), refl)

-- The first, second and third of a list.
abbrev triple : List MbrEntry → MbrEntry × (MbrEntry × MbrEntry)
triple (a ∷ b ∷ d ∷ es) = (a, (b, d))
triple _ = (default_entry, (default_entry, default_entry))

abbrev others_form : Form (List MbrEntry)
others_form =
    through (both_of entry_form (both_of entry_form entry_form)) triple
      (λ t. t.0 ∷ t.1.0 ∷ t.1.1 ∷ [])

others_fits : (es : List MbrEntry) → length es ≡ 3 → All IsMbrEntry es → others_form.Fits es
others_fits [] e p = absurd (omega arith)
others_fits (a ∷ []) e p = absurd (omega arith)
others_fits (a ∷ b ∷ []) e p = absurd (omega arith)
others_fits (a ∷ b ∷ d ∷ []) e p =
    ((entry_fits a p.0, (entry_fits b p.1.0, entry_fits d p.1.1.0)), refl)
others_fits (a ∷ b ∷ d ∷ x ∷ es) e p = absurd (omega arith)

abbrev mbr_form : Form Pmbr
mbr_form =
    through
      (both_of (number 4) (both_of (number 2) (both_of entry_form (both_of others_form (bytes 2)))))
      (λ m. (m.disk_signature, (m.reserved, (m.entry, (m.others, m.signature)))))
      (λ (a, (b, (c, (d, e)))). record {
        disk_signature = a;
        reserved = b;
        entry = c;
        others = d;
        signature = e;
      })

mbr_fits : (m : Pmbr) → IsPmbr m → mbr_form.Fits m
mbr_fits m p = (
  (
    p.disk,
    (
      p.reserved,
      (entry_fits m.entry p.entry, (others_fits m.others p.others.0 p.others.1, p.signature.0)),
    ),
  ),
  refl,
)

-- Reading with the end of the buffer in view.
abbrev read_form : {A : Type 0} → Form A → Buffer → (pos : ℕ) → Option (A × ℕ)
read_form F buf pos =
    if leb (pos + F.width) buf.len then some (F.read buf.byte pos, pos + F.width) else none

read_form-back :
    {A : Type 0} (F : Form A) (buf : Buffer) (pos : ℕ) (a : A)
    → F.Fits a
    → pos + F.width ≤ buf.len
    → Agrees buf.byte pos (F.write a)
    → read_form F buf pos ≡ some (a, pos + F.width)
read_form-back F buf pos a h l x =
    let e : leb (pos + F.width) buf.len ≡ true = ground arith in
    rw (e, F.back buf.byte pos a h x) refl

abbrev units_of : String → List ℕ
units_of no_text = []
units_of (ch ∷ₜ s) = code ch ∷ units_of s

-- The two names of partitions.
abbrev name_of : List ℕ → String
name_of us = if bytes_eq us (units_of "MayaMeta") then "MayaMeta" else "MayaData"

abbrev sum_of : List ℕ → ℕ
sum_of [] = 0
sum_of (b ∷ bs) = (b + 257 * sum_of bs) % u32_mod

unfoldable pub little_endian : Codec
little_endian = record {
  serialize_mbr = mbr_form.write;
  serialize_header = header_form.write;
  serialize_fields = fields_form.write;
  serialize_u16 = (number 2).write;
  deserialize_mbr = read_form mbr_form;
  deserialize_header = read_form header_form;
  deserialize_fields = read_form fields_form;
  deserialize_u16 = read_form (number 2);
  checksum_ieee = sum_of;
  encode_utf16 = units_of;
  from_utf16_lossy = name_of;
}

sum_of_small : (bs : List ℕ) → sum_of bs < u32_mod
sum_of_small [] = omega arith
sum_of_small (b ∷ bs) = omega arith

pub little_endian-IsCodec : IsCodec little_endian
unfolding little_endian
little_endian-IsCodec = record {
  mbr_len = λ m h. mbr_form.len m (mbr_fits m h);
  mbr_read = λ buf pos m h l a. read_form-back mbr_form buf pos m (mbr_fits m h) l a;
  header_len = λ m h. header_form.len m (header_fits m h);
  header_read = λ buf pos m h l a. read_form-back header_form buf pos m (header_fits m h) l a;
  fields_len = λ m h. fields_form.len m (fields_fits m h);
  fields_read = λ buf pos m h l a. read_form-back fields_form buf pos m (fields_fits m h) l a;
  u16_len = λ u. (length-digits 2 u);
  u16_read = λ buf pos u h l a. read_form-back (number 2) buf pos u h l a;
  crc = sum_of_small;
  meta_name = record { short = omega arith; units = ground arith; kept = refl };
  data_name = record { short = omega arith; units = ground arith; kept = refl };
}
