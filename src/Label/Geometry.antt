-- ===== src/Label/Geometry.antt =====
-- The places of a label that is generated (`GptHeader::new`, `reference`, `generate_label` of
-- nexus_label.rs): it passes the checks that a label is read with.
use co_create_openebs.Label.Validate.{validate_primary_header, validate_secondary_header}
use co_create_openebs.Label.Layout.{
  reference_header, get_blocks, new_header, gpt_table_size, GptGuid, mebibyte,
  metadata_partition_size, GptHeader, header_at,
}
use co_create_openebs.Prelude.{
  ℕ, ◌+◌, ◌≡◌, ◌≤◌, ok, ◌/◌, ◌<◌, u64_mod, arith, add_u64, sub_u64, ap, ◌∙◌, ◌*◌, ◌==◌, Bool-cases,
  false, refl, ◌%◌, inl, inr, ◌⊎◌, suc, zero,
}
use native.Mathlib.Nat.{mod-eq_of_lt, div-eq_of_lt, div-add-mod', mod-lt}

-- What the sizes of a device and of the nexus must satisfy, for blocks of `s` bytes, `d` blocks of data
-- and `n` blocks of device: the table fits before the first usable block, and no sum wraps.
pub record IsRoomy (s d n : ℕ) : Type 0 where
  pub table : 2 + get_blocks gpt_table_size s ≤ mebibyte / s
  pub bound : n < u64_mod
  pub metadata :
      mebibyte / s + get_blocks metadata_partition_size s + get_blocks gpt_table_size s + 2 < n
  pub blocks : 0 < d
  pub fits : mebibyte / s + get_blocks metadata_partition_size s + d < u64_mod

-- Fewer blocks take no more bytes.
pub mul_mono : (m n s : ℕ) → m ≤ n → m * s ≤ n * s
mul_mono m n s p = grind arith

pub get_blocks_one : (size s : ℕ) → 0 < size → size < s → get_blocks size s ≡ 1
unfolding get_blocks
get_blocks_one size s p l =
    let m = mod-eq_of_lt {n = size} {m = s} l in
    let d = div-eq_of_lt {n = size} {m = s} l in
    let z : (size == 0) ≡ false = ground arith in rw (m, z, d) refl

-- The blocks hold what they are for.
pub get_blocks_cover : (size s : ℕ) → 0 < s → size ≤ get_blocks size s * s
unfolding get_blocks
get_blocks_cover size s p =
    let e = div-add-mod' size s in
    let l = mod-lt size {m = s} p in
    elim (Bool-cases (size % s == 0)) [
      | inl z ↦ let z' : size % s ≡ 0 = ground arith in rw z (omega arith)
      | inr z ↦ rw z (omega arith)
    ]

zero_or_positive : (n : ℕ) → (n ≡ 0) ⊎ (0 < n)
zero_or_positive zero = inl refl
zero_or_positive (suc n) = inr (omega arith)

pub get_blocks_positive : (size s : ℕ) → 0 < size → 0 < s → 0 < get_blocks size s
get_blocks_positive size s p q =
    let l = get_blocks_cover size s q in
    elim (zero_or_positive (get_blocks size s)) [
      | inl z ↦ absurd (omega (arith, rw z at l))
      | inr k ↦ k
    ]

-- The header that serves as a reference is that of a device with just the blocks needed.
pub reference_header-new_header :
    (s d : ℕ) (guid : GptGuid)
    → let n =
        mebibyte / s + get_blocks metadata_partition_size s + d + get_blocks gpt_table_size s + 1 in
      n < u64_mod → 0 < mebibyte / s → reference_header s d guid ≡ new_header s n guid
unfolding reference_header new_header
reference_header-new_header s d guid b p =
    let q : ℕ = get_blocks gpt_table_size s in
    let m : ℕ = get_blocks metadata_partition_size s in
    let t : ℕ = mebibyte / s in
    let alt : add_u64 (add_u64 (add_u64 t m) d) q ≡ sub_u64 (t + m + d + q + 1) 1 = omega arith in
    let last : sub_u64 (add_u64 (add_u64 t m) d) 1 ≡ sub_u64 (sub_u64 (t + m + d + q + 1) q) 2 =
      omega arith in
    ap (λ (a : ℕ). header_at a t (sub_u64 (add_u64 (add_u64 t m) d) 1) guid) alt
    ∙ ap (λ (l : ℕ). header_at (sub_u64 (t + m + d + q + 1) 1) t l guid) last

-- The parts of a header at block 1.
pub record IsPrimary (h : GptHeader) (s n : ℕ) : Type 0 where
  pub self_ : h.lba_self ≡ 1
  pub alt : h.lba_alt + 1 ≡ n
  pub table : h.lba_table ≡ 2
  pub room : 2 + get_blocks gpt_table_size s ≤ h.lba_start
  pub after : h.lba_end + get_blocks gpt_table_size s + 1 ≡ h.lba_alt
  pub entries : h.num_entries ≡ 2
  pub entry : h.entry_size ≡ 128
  pub bound : n < u64_mod
  pub order : h.lba_start ≤ h.lba_end

pub validate_primary-IsPrimary :
    (h : GptHeader) (s n : ℕ) → IsPrimary h s n → validate_primary_header h s n ≡ ok tt
unfolding validate_primary_header
validate_primary-IsPrimary h s n r = ground arith

-- The backup of a header, without its checksum.
abbrev pub swapped : GptHeader → GptHeader
swapped h = record h { lba_self = h.lba_alt; lba_alt = h.lba_self; lba_table = add_u64 h.lba_end 1 }

pub validate_secondary-IsPrimary :
    (h : GptHeader) (s n crc : ℕ)
    → IsPrimary h s n
    → validate_secondary_header (record (swapped h) { self_checksum = crc }) s n ≡ ok tt
unfolding validate_secondary_header
validate_secondary-IsPrimary h s n crc r = ground arith

pub new_header-IsPrimary :
    (s d n : ℕ) (guid : GptGuid) → IsRoomy s d n → IsPrimary (new_header s n guid) s n
unfolding new_header
new_header-IsPrimary s d n guid r = omega arith
