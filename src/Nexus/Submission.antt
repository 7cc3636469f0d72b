-- ===== src/Nexus/Submission.antt =====
-- The submission of an I/O to the children of a nexus, and what becomes of it (`submit_all`,
-- `readv`, `nexus_submit_io`, `complete` of nexus_io.rs).
use co_create_openebs.Nexus.Mirror.{Results, complete_each, successes, failures, IsFlying}
use co_create_openebs.Nexus.Ended.{IsEnded, complete_each-IsEnded}
use co_create_openebs.Nexus.Channel.{BdevHandle, NexusChannelInner}
use co_create_openebs.Nexus.Io.{
  NexusBio, try_for_each, Spdk, submit_one, IoType, Submitted, pending, write, unmap, write_zeros,
  reset, after_submit, IoStatus, nexus_submit_io, submit_all, set_ctx, submit_cmd, submit_status,
}
use co_create_openebs.Prelude.{
  ◌≡◌, [], ◌∷◌, ℕ, Bool, List, All, true, ◌+◌, ok, some, false, length, ◌<◌, refl, ◌⊎◌, ap,
  Bool-cases, arith, add_u8, ◌==◌, inl, ◌∙◌, inr, suc, sym,
}

-- The I/O is one that is sent to all writers.
abbrev pub to_all : IoType → Bool
to_all write = true
to_all unmap = true
to_all write_zeros = true
to_all reset = true
to_all _ = false

-- An I/O that `nexus_bio_setup` has just prepared, on a core.
pub record IsFresh (io : NexusBio) (core : ℕ) : Type 0 where
  pub in_flight : io.ctx.in_flight ≡ 0
  pub num_ok : io.ctx.num_ok ≡ 0
  pub status : io.ctx.status ≡ pending
  pub on_core : io.ctx.core ≡ core
  pub new : io.completed ≡ []

-- Every handle accepts the I/O.
abbrev pub Accepts : (BdevHandle → Submitted) → List BdevHandle → Type 0
Accepts f hs = All (λ h. f h ≡ ok tt) hs

-- Every submission function of SPDK accepts its I/O at these handles.
pub record AcceptsAll (spdk : Spdk) (hs : List BdevHandle) : Type 0 where
  pub writev : (offset n : ℕ) → Accepts (λ h. spdk.writev_blocks h offset n) hs
  pub unmap_ : (offset n : ℕ) → Accepts (λ h. spdk.unmap_blocks h offset n) hs
  pub zeroes : (offset n : ℕ) → Accepts (λ h. spdk.write_zeroes_blocks h offset n) hs
  pub resets : Accepts (λ h. spdk.reset_bdev h) hs

abbrev pair : ℕ → Submitted → ℕ × Submitted
pair k r = (k, r)

try_for_each_accepted :
    (f : BdevHandle → Submitted) (hs : List BdevHandle) (n : ℕ)
    → Accepts f hs
    → n + length hs < 256
    → try_for_each f hs n ≡ (n + length hs, ok tt)
unfolding try_for_each
try_for_each_accepted f [] n a b = ap (λ (k : ℕ). pair k (ok tt)) (omega arith)
try_for_each_accepted f (h ∷ hs) n a b =
    let e : add_u8 n 1 ≡ n + 1 = omega arith in
    rw (a.0, e, try_for_each)
      (try_for_each_accepted f hs (n + 1) a.1 (omega arith)
        ∙ ap (λ (k : ℕ). pair k (ok tt)) (omega arith))

submit_one_accepted :
    (spdk : Spdk) (ent : ℕ) (io : NexusBio) (hs : List BdevHandle) (t : IoType)
    → io.io_type ≡ t
    → to_all t ≡ true
    → AcceptsAll spdk hs
    → (f : BdevHandle → Submitted) × ((submit_one spdk ent io ≡ some f) × Accepts f hs)
unfolding submit_one
submit_one_accepted spdk ent io hs write q t a = rw q (_, (refl, a.writev _ _))
submit_one_accepted spdk ent io hs unmap q t a = rw q (_, (refl, a.unmap_ _ _))
submit_one_accepted spdk ent io hs write_zeros q t a = rw q (_, (refl, a.zeroes _ _))
submit_one_accepted spdk ent io hs reset q t a = rw q (_, (refl, a.resets))
submit_one_accepted spdk ent io hs _ q t a = cc

-- An I/O with no child I/O in flight that has been completed once, or one with some in flight that
-- has not been completed.
abbrev pub Accounted : NexusBio → Type 0
Accounted io =
    ((io.completed ≡ []) × (0 < io.ctx.in_flight))
    ⊎ ((length io.completed ≡ 1) × (io.ctx.in_flight ≡ 0))

pub after_submit-Accounted :
    (io : NexusBio) (core n : ℕ) (result : Submitted)
    → IsFresh io core
    → Accounted (after_submit io (n, result)).0
unfolding after_submit
after_submit-Accounted io core n result h = elim (Bool-cases (n == 0)) [
  | inl e ↦ rw e (inr (ap (λ (l : List IoStatus). suc (length l)) h.new, h.in_flight))
  | inr e ↦ rw e (inl (h.new, ground arith))
]

after_submit_flying :
    (io : NexusBio) (n : ℕ) (result : Submitted)
    → 0 < n
    → after_submit io (n, result)
      ≡ (set_ctx io (record (io.ctx) { in_flight = n; status = submit_status result }), result)
unfolding after_submit
after_submit_flying io n result p =
    let z : (n == 0) ≡ false = ground arith in rw (z, after_submit) refl

submit_all_accepted :
    (spdk : Spdk) (ent : ℕ) (channel : NexusChannelInner) (io : NexusBio)
    → to_all io.io_type ≡ true
    → AcceptsAll spdk channel.writers
    → 0 < length channel.writers
    → length channel.writers < 256
    → submit_all spdk ent channel io ≡ (
      set_ctx io (record (io.ctx) { in_flight = length channel.writers; status = pending }),
      ok tt,
    )
unfolding submit_all
submit_all_accepted spdk ent channel io t a p b =
    let (f, (q, h)) = submit_one_accepted spdk ent io channel.writers io.io_type refl t a in
    let e = try_for_each_accepted f channel.writers 0 h (omega arith) in
    let n = ap (λ (k : ℕ). pair k (ok tt)) (omega arith) in
    rw (q, submit_all)
      (ap (after_submit io) (e ∙ n) ∙ after_submit_flying io (length channel.writers) (ok tt) p)

submits_to_all :
    (spdk : Spdk) (ent : ℕ) (channel : NexusChannelInner) (io : NexusBio) (t : IoType)
    → to_all t ≡ true
    → submit_cmd spdk ent t channel io ≡ (channel, submit_all spdk ent channel io)
unfolding submit_cmd
submits_to_all spdk ent channel io write t = refl
submits_to_all spdk ent channel io unmap t = refl
submits_to_all spdk ent channel io write_zeros t = refl
submits_to_all spdk ent channel io reset t = refl
submits_to_all spdk ent channel io _ t = cc

-- An I/O that is sent to all writers, each of which accepts it, is completed once, when the last
-- result has arrived, in whatever order they do: with success if some writer succeeded, else as
-- failed. No assertion fails, each child I/O is freed once, and unless all writers failed, those
-- to retire are the ones that failed, but for an invalid opcode.
pub submit_mirrors :
    (spdk : Spdk) (ent core : ℕ) (channel : NexusChannelInner) (io : NexusBio) (rs : Results)
    → IsFresh io core
    → to_all io.io_type ≡ true
    → AcceptsAll spdk channel.writers
    → 0 < length channel.writers
    → length channel.writers < 256
    → length rs ≡ length channel.writers
    → IsEnded io
        (complete_each core (nexus_submit_io spdk ent channel io).1.0 rs)
        (length rs)
        (successes rs)
        (failures rs io.retiring)
unfolding nexus_submit_io
submit_mirrors spdk ent core channel io rs h t a p b n =
    let e = submits_to_all spdk ent channel io io.io_type t in
    let q = submit_all_accepted spdk ent channel io t a p b in
    let io' =
      set_ctx io (record (io.ctx) { in_flight = length channel.writers; status = pending }) in
    let flying : IsFlying io' core (length rs) 0 = record {
      in_flight = sym n;
      num_ok = h.num_ok;
      status = refl;
      on_core = h.on_core;
      bounded = omega arith;
    } in
    let d = complete_each-IsEnded rs io' core 0 (omega arith) flying in
    let k : 0 + successes rs ≡ successes rs = omega arith in
    let d' = rw k at d in
    rw (e, q)
      (record {
        once = d'.once;
        nothing_flies = d'.nothing_flies;
        all_freed = d'.all_freed;
        same = d'.same;
        retires = d'.retires;
      })
