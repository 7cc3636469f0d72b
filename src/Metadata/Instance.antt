-- ===== src/Metadata/Instance.antt =====
-- An instance of the serialisation that nexus_metadata.rs relies on: little-endian, as bincode writes
-- it, with the checksum and the objects as simple as the laws allow.
use co_create_openebs.Label.Bytes.{Agrees}
use co_create_openebs.Metadata.Layout.{
  MetaCodec, NexusConfig, MetaDataIndexEntry, MetaDataHeader, version1, version4, version2,
  version3,
}
use co_create_openebs.Metadata.Laws.{IsReadable, IsMetaCodec, FitsEntry, FitsHeader}
use co_create_openebs.Prelude.{
  ℕ, ◌≡◌, ◌∙◌, List, ◌++◌, arith, suc, ◌∷◌, ap, some, length, ◌+◌, zero, refl, [], replicate, ◌*◌,
  String,
}
use co_create_openebs.Label.Forms.{Form, number, bytes, both_of, through}
use co_create_openebs.Label.LittleEndian.{little_endian, little_endian-IsCodec}

abbrev header_form : Form MetaDataHeader
header_form =
    through
      (both_of (bytes 8) (
        both_of (number 4) (
          both_of (number 4) (
            both_of (number 8) (
              both_of (number 8) (
                both_of (number 8) (
                  both_of (number 4) (
                    both_of (number 4) (
                      both_of (number 4)
                        (both_of (number 4) (both_of (number 8) (number 8))))))))))))
      (λ h. (
        h.signature,
        (
          h.header_size,
          (
            h.self_checksum,
            (
              h.generation,
              (
                h.self_lba,
                (
                  h.index_start,
                  (
                    h.used_entries,
                    (h.max_entries, (h.entry_size, (h.index_checksum, (h.data_start, h.data_end)))),
                  ),
                ),
              ),
            ),
          ),
        ),
      ))
      (λ (a, (b, (c, (d, (e, (f, (g, (h, (i, (j, (k, l))))))))))). record {
        signature = a;
        header_size = b;
        self_checksum = c;
        generation = d;
        self_lba = e;
        index_start = f;
        used_entries = g;
        max_entries = h;
        entry_size = i;
        index_checksum = j;
        data_start = k;
        data_end = l;
      })

header_fits : (h : MetaDataHeader) → FitsHeader h → header_form.Fits h
header_fits h p = (
  (
    p.signature.0,
    (
      p.size,
      (
        p.checksum,
        (
          p.generation,
          (
            p.self_,
            (p.start, (p.used, (p.max, (p.entry, (p.index_checksum, (p.data_start, p.data_end)))))),
          ),
        ),
      ),
    ),
  ),
  refl,
)

abbrev entry_form : Form MetaDataIndexEntry
entry_form =
    through
      (both_of (number 8)
        (both_of (number 16) (both_of (number 4) (both_of (number 8) (number 8)))))
      (λ e. (e.revision, (e.timestamp, (e.data_checksum, (e.data_start, e.data_end)))))
      (λ (a, (b, (c, (d, e)))). record {
        revision = a;
        timestamp = b;
        data_checksum = c;
        data_start = d;
        data_end = e;
      })

entry_fits : (e : MetaDataIndexEntry) → FitsEntry e → entry_form.Fits e
entry_fits e p = ((p.revision, (p.timestamp, (p.checksum, (p.start, p.end_)))), refl)

-- A byte of a list, and the rest of a list.
abbrev byte_at : List ℕ → ℕ → ℕ
byte_at [] i = 0
byte_at (x ∷ xs) zero = x
byte_at (x ∷ xs) (suc i) = byte_at xs i

abbrev rest_of : ℕ → List ℕ → List ℕ
rest_of zero xs = xs
rest_of (suc n) [] = []
rest_of (suc n) (x ∷ xs) = rest_of n xs

byte_at-Agrees :
    (f : ℕ → ℕ) (n : ℕ) (xs rest : List ℕ)
    → ((i : ℕ) → f (n + i) ≡ byte_at (xs ++ rest) i)
    → Agrees f n xs
byte_at-Agrees f n [] rest h = tt
byte_at-Agrees f n (x ∷ xs) rest h = (
  ap f {x = n} {y = n + 0} (omega arith) ∙ h 0,
  byte_at-Agrees f (suc n) xs rest
      (λ i. ap f {x = suc n + i} {y = n + suc i} (omega arith) ∙ h (suc i)),
)

rest_of-append : (n : ℕ) (xs rest : List ℕ) → length xs ≡ n → rest_of n (xs ++ rest) ≡ rest
rest_of-append zero [] rest e = refl
rest_of-append zero (x ∷ xs) rest e = absurd (omega arith)
rest_of-append (suc n) [] rest e = absurd (omega arith)
rest_of-append (suc n) (x ∷ xs) rest e = rest_of-append n xs rest (omega arith)

-- Reading from the start of a list.
abbrev read_start : {A : Type 0} → Form A → List ℕ → A
read_start F xs = F.read (byte_at xs) 0

read_start-append :
    {A : Type 0} (F : Form A) (a : A) (rest : List ℕ)
    → F.Fits a
    → read_start F (F.write a ++ rest) ≡ a
read_start-append F a rest h = F.back (byte_at (F.write a ++ rest)) 0 a h (
    byte_at-Agrees (byte_at (F.write a ++ rest)) 0 (F.write a) rest
      (λ i. ap (byte_at (F.write a ++ rest)) {x = 0 + i} {y = i} (omega arith)))

length-replicate {ℓ} : {A : Type ℓ} (n : ℕ) (a : A) → length (replicate n a) ≡ n
length-replicate zero a = refl
length-replicate (suc n) a = ap suc (length-replicate n a)

-- Of an object, the variant and the number of its pairs, each of which takes 300 bytes more.
abbrev write_config : NexusConfig → List ℕ
write_config (version1 c) = 0 ∷ []
write_config (version2 c) = 1 ∷ []
write_config (version3 c) = 2 ∷ []
write_config (version4 pairs) = 3 ∷ length pairs ∷ replicate (300 * length pairs) 0

abbrev pub pairs_of : ℕ → NexusConfig
pairs_of n = version4 (replicate n ("", ""))

unfoldable pub meta_codec : MetaCodec
unfolding little_endian
meta_codec = record {
  serialize_meta = header_form.write;
  deserialize_meta = λ xs. some (read_start header_form xs);
  serialize_index = entry_form.write;
  deserialize_index = λ xs. some (read_start entry_form xs, rest_of 44 xs);
  serialize_config = write_config;
  deserialize_config = λ xs. some (pairs_of (byte_at xs 1));
  checksum_ieee = little_endian.checksum_ieee;
  label = little_endian;
}

pub meta_codec-IsMetaCodec : IsMetaCodec meta_codec
unfolding meta_codec little_endian
meta_codec-IsMetaCodec = record {
  header_len = λ h p. header_form.len h (header_fits h p);
  header_read = λ h rest p. ap some (read_start-append header_form h rest (header_fits h p));
  entry_len = λ e p. entry_form.len e (entry_fits e p);
  entry_read = λ e rest p.
      let a = read_start-append entry_form e rest (entry_fits e p) in
      let b = rest_of-append 44 (entry_form.write e) rest (entry_form.len e (entry_fits e p)) in
      λ i. some (a i, b i);
  crc = λ bytes. little_endian-IsCodec.crc bytes;
  crc_nothing = refl;
}

pub pairs_of-IsReadable : (n : ℕ) → IsReadable meta_codec (pairs_of n)
unfolding meta_codec
pairs_of-IsReadable n = record {
  some_bytes = omega arith;
  read_back = λ rest. ap (λ j. some (pairs_of j)) (length-replicate n ("", ""));
}

pub length-pairs : (n : ℕ) → length (meta_codec.serialize_config (pairs_of n)) ≡ 2 + 300 * n
unfolding meta_codec
length-pairs n =
    let a = length-replicate {A = String × String} n ("", "") in
    let b =
      length-replicate {A = ℕ} (300 * length (replicate {A = String × String} n ("", ""))) 0 in
    omega (arith, a, b)
