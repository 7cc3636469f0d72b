-- ===== src/Nexus/Partial.antt =====
-- An I/O that some of the writers have accepted when one refuses it (`submit_all`, `complete`,
-- `disposition` of nexus_io.rs), and a read that its child refuses (`readv`).
use co_create_openebs.Nexus.Submission.{IsFresh}
use co_create_openebs.Nexus.Channel.{NexusChannelInner}
use co_create_openebs.Nexus.Mirror.{complete-eq, Results, complete_each, successes, IsFlying}
use co_create_openebs.Nexus.Ended.{complete_each-IsEnded, outcome_pos}
use co_create_openebs.Nexus.Io.{
  NexusBio, disposition, after_submit, Errno, settle, submit_status, ChildIo, no_memory,
  complete_child_io, submit_all, Spdk, submit_one, einval, enomem, success, IoStatus, set_status,
  Submitted, try_for_each, failed, pending,
}
use co_create_openebs.Prelude.{
  ◌≡◌, [], ◌∷◌, ℕ, ◌<◌, err, Bool-cases, true, ◌==◌, length, inl, arith, suc, sub_u8, inr, refl,
  List, map, Option-cases, ◌+◌, ◌∙◌, false, ap, sym,
}

-- What is left of a submission that was refused with child I/Os in flight.
pub record IsShort (io io' : NexusBio) (e : Errno) : Type 0 where
  pub status : io'.ctx.status ≡ submit_status (err e)
  pub on_core : io'.ctx.core ≡ io.ctx.core
  pub num_ok : io'.ctx.num_ok ≡ io.ctx.num_ok
  pub same : io'.completed ≡ io.completed

after_submit-IsShort :
    (io : NexusBio) (n : ℕ) (e : Errno)
    → io.ctx.in_flight ≡ 0
    → 0 < (after_submit io (n, err e)).0.ctx.in_flight
    → IsShort io (after_submit io (n, err e)).0 e
unfolding after_submit
after_submit-IsShort io n e z p = elim (Bool-cases (n == 0)) [
  | inl q ↦ absurd (omega (arith, z, rw (q, after_submit) at p))
  | inr q ↦ rw q (record { status = refl; on_core = refl; num_ok = refl; same = refl })
]

-- A result after a submission that ran out of memory completes the I/O each time.
complete_no_memory :
    (io : NexusBio) (core : ℕ) (child_io : ChildIo)
    → io.ctx.core ≡ core
    → io.ctx.status ≡ no_memory
    → let io' = complete_child_io core io child_io true in
      (io'.ctx.status ≡ no_memory)
      × (io'.ctx.core ≡ core)
      × (length io'.completed ≡ suc (length io.completed))
unfolding disposition settle
complete_no_memory io core child_io c s = elim (Bool-cases (sub_u8 io.ctx.in_flight 1 == 0)) [
  | inl e ↦ rw (complete-eq io core child_io true c, s, e, disposition) (refl, c, refl)
  | inr e ↦ rw (complete-eq io core child_io true c, s, e, disposition) (refl, c, refl)
]

abbrev pub all_succeed : List ChildIo → Results
all_succeed cs = map (λ c. (c, true)) cs

complete_each_no_memory :
    (cs : List ChildIo) (io : NexusBio) (core : ℕ)
    → io.ctx.core ≡ core
    → io.ctx.status ≡ no_memory
    → length (complete_each core io (all_succeed cs)).completed ≡ length io.completed + length cs
complete_each_no_memory [] io core c s = omega arith
complete_each_no_memory (x ∷ cs) io core c s =
    let (s', c', n) = complete_no_memory io core x c s in
    let d = complete_each_no_memory cs (complete_child_io core io x true) core c' s' in
    omega (arith, d, n)

after_submit-result :
    (io : NexusBio) (n : ℕ) (result : Submitted) → (after_submit io (n, result)).1 ≡ result
unfolding after_submit
after_submit-result io n result = elim (Bool-cases (n == 0)) [
  | inl q ↦ rw (q, after_submit) refl
  | inr q ↦ rw (q, after_submit) refl
]

refused-IsShort :
    (io : NexusBio) (n : ℕ) (result : Submitted) (e : Errno)
    → io.ctx.in_flight ≡ 0
    → (after_submit io (n, result)).1 ≡ err e
    → 0 < (after_submit io (n, result)).0.ctx.in_flight
    → IsShort io (after_submit io (n, result)).0 e
refused-IsShort io n result e z r p =
    let q = sym (after_submit-result io n result) ∙ r in
    rw q (after_submit-IsShort io n e z (rw q at p))

submit_all-IsShort :
    (spdk : Spdk) (ent : ℕ) (channel : NexusChannelInner) (io : NexusBio) (e : Errno)
    → io.ctx.in_flight ≡ 0
    → (submit_all spdk ent channel io).1 ≡ err e
    → 0 < (submit_all spdk ent channel io).0.ctx.in_flight
    → IsShort io (submit_all spdk ent channel io).0 e
unfolding submit_all
submit_all-IsShort spdk ent channel io e z r p = elim (Option-cases (submit_one spdk ent io)) [
  | inl q ↦ absurd (ground (arith, rw (q, submit_all) at r))
  | inr (f, q) ↦
      rw (q, submit_all)
        (refused-IsShort io (try_for_each f channel.writers 0).0
          (try_for_each f channel.writers 0).1 e z (rw (q, submit_all) at r)
          (rw (q, submit_all) at p))
]

-- A writer ran out of memory after others had accepted the I/O, and those all succeed: the I/O is
-- completed as often as it was accepted.
pub no_memory_completes_each :
    (spdk : Spdk) (ent core : ℕ) (channel : NexusChannelInner) (io : NexusBio) (cs : List ChildIo)
    → IsFresh io core
    → (submit_all spdk ent channel io).1 ≡ err enomem
    → 0 < (submit_all spdk ent channel io).0.ctx.in_flight
    → length cs ≡ (submit_all spdk ent channel io).0.ctx.in_flight
    → length (complete_each core (submit_all spdk ent channel io).0 (all_succeed cs)).completed
      ≡ (submit_all spdk ent channel io).0.ctx.in_flight
no_memory_completes_each spdk ent core channel io cs h r p n =
    let s = submit_all-IsShort spdk ent channel io enomem h.in_flight r p in
    let d =
      complete_each_no_memory cs (submit_all spdk ent channel io).0 core (s.on_core ∙ h.on_core)
        s.status in
    omega (arith, d, n, ap (λ (l : List IoStatus). length l) (s.same ∙ h.new))

-- A failure overrides what the status was.
failed_first :
    (io : NexusBio) (core : ℕ) (child_io : ChildIo)
    → io.ctx.core ≡ core
    → complete_child_io core io child_io false
      ≡ complete_child_io core (set_status io pending) child_io false
failed_first io core child_io c =
    complete-eq io core child_io false c
    ∙ sym (complete-eq (set_status io pending) core child_io false c)

-- A writer refused the I/O after others had accepted it, whatever the error: if the first of those
-- to end fails and another succeeds, the I/O is completed once, with success.
pub refused_yet_success :
    (spdk : Spdk) (ent core : ℕ) (channel : NexusChannelInner) (io : NexusBio) (e : Errno)
    (child_io : ChildIo) (rs : Results)
    → IsFresh io core
    → (submit_all spdk ent channel io).1 ≡ err e
    → (submit_all spdk ent channel io).0.ctx.in_flight ≡ suc (length rs)
    → length rs < 255
    → 0 < successes rs
    → (complete_each core (submit_all spdk ent channel io).0 ((child_io, false) ∷ rs)).completed
      ≡ success ∷ []
refused_yet_success spdk ent core channel io e child_io rs h r n b p =
    let s = submit_all-IsShort spdk ent channel io e h.in_flight r (omega arith) in
    let io' = (submit_all spdk ent channel io).0 in
    let flying : IsFlying (set_status io' pending) core (suc (length rs)) 0 = record {
      in_flight = n;
      num_ok = s.num_ok ∙ h.num_ok;
      status = refl;
      on_core = s.on_core ∙ h.on_core;
      bounded = omega arith;
    } in
    let d =
      complete_each-IsEnded ((child_io, false) ∷ rs) (set_status io' pending) core 0 (omega arith)
        flying in
    ap (λ (v : NexusBio). (complete_each core v rs).completed)
      (failed_first io' core child_io (s.on_core ∙ h.on_core))
    ∙ d.once
    ∙ ap (λ (o : IoStatus). o ∷ io'.completed) (outcome_pos _ (omega arith))
    ∙ ap (λ (l : List IoStatus). success ∷ l) (s.same ∙ h.new)

success_panics :
    (io : NexusBio) (core : ℕ) (child_io : ChildIo)
    → io.ctx.core ≡ core
    → io.ctx.status ≡ failed
    → io.ctx.num_ok ≡ 0
    → (complete_child_io core io child_io true).panicked ≡ true
unfolding disposition settle
success_panics io core child_io c s z = elim (Bool-cases (sub_u8 io.ctx.in_flight 1 == 0)) [
  | inl e ↦ rw (complete-eq io core child_io true c, s, e, z, disposition) refl
  | inr e ↦ rw (complete-eq io core child_io true c, s, e, disposition) refl
]

-- A writer refused the I/O with EINVAL after others had accepted it: if the first of those to end
-- succeeds, an assertion fails.
pub refused_panics :
    (spdk : Spdk) (ent core : ℕ) (channel : NexusChannelInner) (io : NexusBio) (child_io : ChildIo)
    → IsFresh io core
    → (submit_all spdk ent channel io).1 ≡ err einval
    → 0 < (submit_all spdk ent channel io).0.ctx.in_flight
    → (complete_child_io core (submit_all spdk ent channel io).0 child_io true).panicked ≡ true
refused_panics spdk ent core channel io child_io h r p =
    let s = submit_all-IsShort spdk ent channel io einval h.in_flight r p in
    success_panics (submit_all spdk ent channel io).0 core child_io (s.on_core ∙ h.on_core) s.status
      (s.num_ok ∙ h.num_ok)
