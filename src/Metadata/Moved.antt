-- ===== src/Metadata/Moved.antt =====
-- One move of `compact` (nexus_metadata.rs): an object is copied to a place in front of it.
use co_create_openebs.Label.Geometry.{mul_mono}
use co_create_openebs.Metadata.Slices.{factor_bounded, same_slice}
use co_create_openebs.Metadata.Read.{read_blocks}
use co_create_openebs.Metadata.Synced.{with_contents, block_len_of, read_blocks-eq, write_blocks-eq}
use co_create_openebs.Metadata.Write.{Compacted, after_move, write_result, moved_entry, keep_entry}
use co_create_openebs.Metadata.Laws.{IsMetaCodec, FitsEntry}
use co_create_openebs.Label.Disk.{stored}
use co_create_openebs.Metadata.Objects.{
  IsPacked, IsChained, used_blocks, Holds, blocks_in, decoded, object_bytes, keep-Holds,
}
use co_create_openebs.Label.Format.{Buffer}
use co_create_openebs.Metadata.Layout.{
  MetaCodec, MetaChild, MetaDataIndexEntry, NexusConfig, bytes_from,
}
use co_create_openebs.Prelude.{
  ℕ, List, ◌+◌, ◌<◌, ◌≤◌, suc, ◌≡◌, arith, ◌∷◌, leb, [], true, ok, ◌*◌, ltb, u64_mod, add_u64, ◌-◌,
  sub_u64, ap, ◌∙◌, refl,
}
use co_create_openebs.Metadata.Signed.{IsWorking}

pub stored_at :
    (f : ℕ → ℕ) (o : ℕ) (buf : Buffer) (i : ℕ) → i < buf.len → stored f o buf (o + i) ≡ buf.byte i
stored_at f o buf i l =
    let a : leb o (o + i) ≡ true = ground arith in
    let b : ltb (o + i) (o + buf.len) ≡ true = ground arith in
    let e : o + i - o ≡ i = omega arith in rw (a, b) (ap buf.byte e)

pub stored_below : (f : ℕ → ℕ) (o : ℕ) (buf : Buffer) (i : ℕ) → i < o → stored f o buf i ≡ f i
stored_below f o buf i l = ground arith

pub stored_above :
    (f : ℕ → ℕ) (o : ℕ) (buf : Buffer) (i : ℕ) → o + buf.len ≤ i → stored f o buf i ≡ f i
stored_above f o buf i l = ground arith

pub weaken-IsChained :
    (start start' last : ℕ) (es : List MetaDataIndexEntry)
    → start' ≤ start
    → IsChained start last es
    → IsChained start' last es
weaken-IsChained start start' last [] l a = tt
weaken-IsChained start start' last (e ∷ es) l (a, r) = (omega arith, r)

pub used_blocks-IsChained :
    (start last : ℕ) (es : List MetaDataIndexEntry)
    → start ≤ suc last
    → IsChained start last es
    → start + used_blocks es ≤ suc last
used_blocks-IsChained start last [] l a = omega arith
used_blocks-IsChained start last (e ∷ es) l (a, (b, (d, r))) =
    omega (arith, used_blocks-IsChained (suc e.data_end) last es (omega arith) r)

pub packed-IsChained :
    (start last : ℕ) (es : List MetaDataIndexEntry)
    → IsPacked start es
    → start + used_blocks es ≤ suc last
    → IsChained start last es
packed-IsChained start last [] a l = tt
packed-IsChained start last (e ∷ es) (a, (b, r)) l = (
  omega arith,
  (omega arith, (omega arith, packed-IsChained (suc e.data_end) last es r (omega arith))),
)

module _ (m : MetaCodec) where
  -- The contents after the first object was moved, and its entry.
  pub record IsMoved (k : MetaChild) (self_lba start last : ℕ) (e moved : MetaDataIndexEntry)
      (es : List MetaDataIndexEntry) (c : NexusConfig) (cs : List NexusConfig) (g : ℕ → ℕ)
      : Type 0 where
    pub step :
        (next : MetaChild → Compacted)
        → after_move e moved es
            (write_result k (add_u64 self_lba start) (
              read_blocks m k
                (add_u64 self_lba e.data_start)
                (add_u64 (sub_u64 e.data_end e.data_start) 1)))
            next
          ≡ keep_entry moved (next (with_contents k g))
    pub from : moved.data_start ≡ start
    pub size : blocks_in moved ≡ blocks_in e
    pub order : start ≤ moved.data_end
    pub fits : FitsEntry moved
    pub there :
        decoded m (object_bytes g self_lba (block_len_of k) moved) moved.data_checksum ≡ ok c
    pub rest : Holds m g self_lba (block_len_of k) es cs
    pub kept : (i : ℕ) → i < (self_lba + start) * block_len_of k → g i ≡ k.device.contents i

  pub copy_first :
      (k : MetaChild) (self_lba start last : ℕ) (e : MetaDataIndexEntry)
      (es : List MetaDataIndexEntry) (c : NexusConfig) (cs : List NexusConfig)
      → IsMetaCodec m
      → IsWorking k
      → 0 < block_len_of k
      → (self_lba + suc last) * block_len_of k < u64_mod
      → FitsEntry e
      → IsChained start last (e ∷ es)
      → Holds m k.device.contents self_lba (block_len_of k) (e ∷ es) (c ∷ cs)
      → (g : ℕ → ℕ) × IsMoved k self_lba start last e (moved_entry e start) es c cs g
  copy_first k self_lba start last e es c cs law w p u fits (a, (b, (d, r))) ((x, n), h) =
      let s : ℕ = block_len_of k in
      let f = k.device.contents in
      let top = factor_bounded (self_lba + suc last) s p u in
      let size : ℕ = blocks_in e in
      let from : ℕ = (self_lba + e.data_start) * s in
      let to : ℕ = (self_lba + start) * s in
      let buf : Buffer = record { len = size * s; byte = λ i. f (from + i) } in
      let g : ℕ → ℕ = stored f to buf in
      let z : from + size * s ≡ (self_lba + e.data_start + size) * s = grind arith in
      let z' : to + size * s ≡ (self_lba + start + size) * s = grind arith in
      let hi = mul_mono (self_lba + e.data_start + size) (self_lba + suc last) s (omega arith) in
      let ord = mul_mono (self_lba + start + size) (self_lba + suc e.data_end) s (omega arith) in
      let src : add_u64 self_lba e.data_start ≡ self_lba + e.data_start = omega arith in
      let dst : add_u64 self_lba start ≡ self_lba + start = omega arith in
      let blocks : add_u64 (sub_u64 e.data_end e.data_start) 1 ≡ size = omega arith in
      let end_ : add_u64 start (sub_u64 e.data_end e.data_start)
          ≡ start + (e.data_end - e.data_start) =
        omega arith in
      let q = read_blocks-eq m law k (self_lba + e.data_start) size w (omega arith) (omega arith) in
      let y =
        write_blocks-eq m law k (self_lba + start) buf w
          (omega (arith, mul_mono (self_lba + start) (self_lba + suc last) s (omega arith))) in
      let n' : blocks_in (moved_entry e start) ≡ size = omega (arith, end_) in
      let same : object_bytes g self_lba s (moved_entry e start) ≡ object_bytes f self_lba s e =
        ap (λ (j : ℕ). bytes_from g to (j * s)) n'
        ∙ same_slice g f to from (size * s) (λ i l. stored_at f to buf i l) in
      (
        g,
        record {
          step = λ next. rw (src, dst, blocks, q, y) refl;
          from = refl;
          size = n';
          order = omega (arith, end_);
          fits = record {
            revision = fits.revision;
            timestamp = fits.timestamp;
            checksum = fits.checksum;
            start = omega arith;
            end_ = omega (arith, end_);
          };
          there = rw same x;
          rest =
              keep-Holds m f g self_lba s (suc e.data_end) last es cs r
                (λ i l v. stored_above f to buf i (omega arith)) h;
          kept = λ i l. stored_below f to buf i l;
        },
      )
