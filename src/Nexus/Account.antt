-- ===== src/Nexus/Account.antt =====
-- What every submission leaves (`nexus_submit_io`, `readv`, `submit_all` of nexus_io.rs,
-- `child_select` of nexus_channel.rs).
use co_create_openebs.Nexus.Submission.{IsFresh, Accounted, to_all, after_submit-Accounted}
use co_create_openebs.Nexus.Channel.{child_select, BdevHandle, NexusChannelInner}
use co_create_openebs.Nexus.Io.{
  readv, NexusBio, Submitted, read, Spdk, submit_read, submit_one, submit_cmd, submit_all,
  nexus_submit_io, IoStatus, io_complete, IoType, Errno, write, success, unmap, failed, write_zeros,
  reset, flush,
}
use co_create_openebs.Prelude.{
  ◌≡◌, [], ◌∷◌, List, Bool, ℕ, none, ok, true, false, ◌⊎◌, ◌<◌, err, length, get_elem?, inl, ◌+◌,
  some, inr, ◌≤◌, Bool-cases, Result-cases, arith, suc, ◌==◌, nil_of_length, refl, zero, ltb, ◌-◌,
  ap, ◌∙◌, Option,
}

-- The index that `child_select` gives is one of a reader: the next in turn.
pub child_select_next :
    (c : NexusChannelInner)
    → ((c.readers ≡ []) × (child_select c ≡ (c, none)))
      ⊎ ((i : ℕ) × ((i < length c.readers)
            × ((i ≡ c.previous + 1) ⊎ ((i ≡ 0) × (length c.readers ≤ c.previous + 1)))
            × (child_select c ≡ (record c { previous = i }, some i))))
unfolding child_select
child_select_next c = elim (Bool-cases (length c.readers == 0)) [
  | inl e ↦ inl (nil_of_length c.readers (ground arith), rw e refl)
  | inr e ↦ elim (Bool-cases (ltb c.previous (length c.readers - 1))) [
    | inl l ↦ inr (c.previous + 1, (ground arith, inl refl, rw (e, l) refl))
    | inr l ↦ inr (0, (ground arith, inr (refl, ground arith), rw (e, l) refl))
  ]
]

nth_some :
    (hs : List BdevHandle) (i : ℕ) → i < length hs → (h : BdevHandle) × (get_elem? hs i ≡ some h)
nth_some [] i p = absurd (omega arith)
nth_some (h ∷ hs) zero p = (h, refl)
nth_some (h ∷ hs) (suc i) p = nth_some hs i (omega arith)

abbrev pub refused : Submitted → Bool
refused (ok _) = false
refused (err _) = true

-- A read that its child refuses leaves the I/O as it was.
abbrev pub Dropped : NexusBio → NexusBio × Submitted → Type 0
Dropped io r = (io.io_type ≡ read) × (r.0 ≡ io) × (refused r.1 ≡ true)

readv_left :
    (spdk : Spdk) (ent core : ℕ) (channel : NexusChannelInner) (io : NexusBio)
    → IsFresh io core
    → Accounted (readv spdk ent channel io).1.0
      ⊎ (((readv spdk ent channel io).1.0 ≡ io) × (refused (readv spdk ent channel io).1.1 ≡ true))
unfolding readv
readv_left spdk ent core channel io h = elim (child_select_next channel) [
  | inl (e, q) ↦
      rw (q, readv) (inl (inr (ap (λ (l : List IoStatus). suc (length l)) h.new, h.in_flight)))
  | inr (i, (b, t, q)) ↦
      let (x, g) = nth_some channel.readers i b in
      elim (Result-cases (submit_read spdk ent io x)) [
        | inl (u, a) ↦ rw (q, g, a, readv) (inl (inl (h.new, omega (arith, h.in_flight))))
        | inr (e, a) ↦ rw (q, g, a, readv) (inr (refl, refl))
      ]
]

submit_one-some :
    (spdk : Spdk) (ent : ℕ) (io : NexusBio) (t : IoType)
    → io.io_type ≡ t
    → to_all t ≡ true
    → (f : BdevHandle → Submitted) × (submit_one spdk ent io ≡ some f)
unfolding submit_one
submit_one-some spdk ent io write q t = rw q (_, refl)
submit_one-some spdk ent io unmap q t = rw q (_, refl)
submit_one-some spdk ent io write_zeros q t = rw q (_, refl)
submit_one-some spdk ent io reset q t = rw q (_, refl)
submit_one-some spdk ent io _ q t = cc

submit_all-Accounted :
    (spdk : Spdk) (ent core : ℕ) (channel : NexusChannelInner) (io : NexusBio)
    → IsFresh io core
    → to_all io.io_type ≡ true
    → Accounted (submit_all spdk ent channel io).0
unfolding submit_all
submit_all-Accounted spdk ent core channel io h t =
    let (f, q) = submit_one-some spdk ent io io.io_type refl t in
    rw (q, submit_all) (after_submit-Accounted io core _ _ h)

-- A fresh I/O that is completed at once.
complete_now :
    (io : NexusBio) (core : ℕ) (s : IoStatus) → IsFresh io core → Accounted (io_complete io s)
complete_now io core s h = inr (ap (λ (l : List IoStatus). suc (length l)) h.new, h.in_flight)

submit_cmd_left :
    (spdk : Spdk) (ent core : ℕ) (channel : NexusChannelInner) (io : NexusBio) (t : IoType)
    → io.io_type ≡ t
    → IsFresh io core
    → let r = (submit_cmd spdk ent t channel io).1 in Accounted r.0 ⊎ Dropped io r
unfolding submit_cmd
submit_cmd_left spdk ent core channel io read q h = elim (readv_left spdk ent core channel io h) [
  | inl a ↦ inl a
  | inr (e, r) ↦ inr (q, e, r)
]
submit_cmd_left spdk ent core channel io write q h =
    inl (submit_all-Accounted spdk ent core channel io h (ap to_all q))
submit_cmd_left spdk ent core channel io unmap q h =
    inl (submit_all-Accounted spdk ent core channel io h (ap to_all q))
submit_cmd_left spdk ent core channel io write_zeros q h =
    inl (submit_all-Accounted spdk ent core channel io h (ap to_all q))
submit_cmd_left spdk ent core channel io reset q h =
    inl (submit_all-Accounted spdk ent core channel io h (ap to_all q))
submit_cmd_left spdk ent core channel io flush q h = inl (complete_now io core success h)
submit_cmd_left spdk ent core channel io _ q h = inl (complete_now io core failed h)

-- Whatever SPDK answers, a submitted I/O is afterwards either in flight and not completed, or
-- completed once with nothing in flight, unless it is a read that its child refused: that one is
-- neither completed nor in flight.
pub submit_accounts :
    (spdk : Spdk) (ent core : ℕ) (channel : NexusChannelInner) (io : NexusBio)
    → IsFresh io core
    → let r = (nexus_submit_io spdk ent channel io).1 in Accounted r.0 ⊎ Dropped io r
unfolding nexus_submit_io
submit_accounts spdk ent core channel io h =
    submit_cmd_left spdk ent core channel io io.io_type refl h

abbrev readv_result :
    NexusChannelInner → NexusBio → Errno → NexusChannelInner × (NexusBio × Submitted)
readv_result c io e = (c, (io, err e))

readv_refused :
    (spdk : Spdk) (ent : ℕ) (channel : NexusChannelInner) (io : NexusBio) (i : ℕ) (x : BdevHandle)
    (e : Errno)
    → child_select channel ≡ (record channel { previous = i }, some i)
    → get_elem? channel.readers i ≡ some x
    → submit_read spdk ent io x ≡ err e
    → readv spdk ent channel io ≡ (record channel { previous = i }, (io, err e))
unfolding readv
readv_refused spdk ent channel io i x e c g a =
    rw (c, g, a, readv) (ap (λ (v : NexusChannelInner × Option ℕ). readv_result v.0 io e) c)

-- A read that is refused at whichever reader it is submitted to is afterwards neither completed nor
-- in flight.
pub refused_read_lost :
    (spdk : Spdk) (ent core : ℕ) (channel : NexusChannelInner) (io : NexusBio)
    (refusal : BdevHandle → Errno)
    → IsFresh io core
    → io.io_type ≡ read
    → 0 < length channel.readers
    → ((h : BdevHandle) → submit_read spdk ent io h ≡ err (refusal h))
    → let io' = (nexus_submit_io spdk ent channel io).1.0 in
      (io'.completed ≡ []) × (io'.ctx.in_flight ≡ 0)
unfolding nexus_submit_io submit_cmd
refused_read_lost spdk ent core channel io refusal h q p a = elim (child_select_next channel) [
  | inl (e, _) ↦ absurd (omega (arith, ap (λ (l : List BdevHandle). length l) e))
  | inr (i, (b, t, c)) ↦
      let (x, g) = nth_some channel.readers i b in
      let r =
        ap (λ (v : IoType). submit_cmd spdk ent v channel io) q
        ∙ readv_refused spdk ent channel io i x (refusal x) c g (a x) in
      rw (r, nexus_submit_io) (h.new, h.in_flight)
]
