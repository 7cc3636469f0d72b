-- ===== src/Nexus/Mirror.antt =====
-- The I/O that a nexus sends to all of its children: how the results of the children become one
-- (`complete`, `disposition` of nexus_io.rs).
use co_create_openebs.Nexus.Channel.{BdevHandle}
use co_create_openebs.Nexus.Io.{
  NexusBio, complete_child_io, try_retire, ChildIo, pending, record_result, disposition, settle,
  set_ctx, flying, success, retire, IoStatus, failed,
}
use co_create_openebs.Prelude.{
  [], ◌∷◌, ◌≡◌, List, ℕ, Bool, suc, true, ◌+◌, false, arith, ◌<◌, ◌==◌, refl, sub_u8, Bool-cases,
  inl, inr, zero,
}

-- The results of children, in the order in which they arrive.
abbrev pub Results : Type 0
Results = List (ChildIo × Bool)

abbrev pub complete_each : ℕ → NexusBio → Results → NexusBio
complete_each core io [] = io
complete_each core io ((child_io, ok') ∷ rs) =
    complete_each core (complete_child_io core io child_io ok') rs

-- An I/O with `n` of its child I/Os in flight, of which `m` have succeeded before.
pub record IsFlying (io : NexusBio) (core n m : ℕ) : Type 0 where
  pub in_flight : io.ctx.in_flight ≡ n
  pub num_ok : io.ctx.num_ok ≡ m
  pub status : io.ctx.status ≡ pending
  pub on_core : io.ctx.core ≡ core
  pub bounded : n + m < 256

-- The children to retire after a result: one that failed is, but for an invalid opcode.
abbrev pub noted : ChildIo → Bool → List BdevHandle → List BdevHandle
noted child_io true acc = acc
noted child_io false acc = elim child_io.invalid_opcode [ true ↦ acc | false ↦ child_io.bdev ∷ acc ]

abbrev pub failures : Results → List BdevHandle → List BdevHandle
failures [] acc = acc
failures ((child_io, ok') ∷ rs) acc = failures rs (noted child_io ok' acc)

abbrev pub oks : Bool → ℕ
oks true = 1
oks false = 0

pub record_flying :
    (io : NexusBio) (core n m : ℕ) (ok' : Bool)
    → IsFlying io core (suc n) m
    → ((record_result io.ctx ok').in_flight ≡ n) × ((record_result io.ctx ok').num_ok ≡ m + oks ok')
record_flying io core n m true h =
    (omega (arith, h.in_flight, h.bounded), omega (arith, h.num_ok, h.bounded))
record_flying io core n m false h = (omega (arith, h.in_flight, h.bounded), omega (arith, h.num_ok))

-- `complete` on the core of the I/O.
pub complete-eq :
    (io : NexusBio) (core : ℕ) (child_io : ChildIo) (ok' : Bool)
    → io.ctx.core ≡ core
    → complete_child_io core io child_io ok'
      ≡ settle
          (disposition (record_result io.ctx ok'))
          (set_ctx io (record_result io.ctx ok'))
          child_io
          ok'
unfolding complete_child_io
complete-eq io core child_io ok' c =
    let e : (io.ctx.core == core) ≡ true = ground arith in rw (e, complete_child_io) refl

disposition_flying :
    (io : NexusBio) (core n m : ℕ)
    → IsFlying io core (suc (suc n)) m
    → (disposition (record_result io.ctx true) ≡ flying success)
      × (disposition (record_result io.ctx false) ≡ retire pending)
unfolding disposition
disposition_flying io core n m h =
    let e : (sub_u8 io.ctx.in_flight 1 == 0) ≡ false = ground (arith, h.in_flight, h.bounded) in
    (rw (h.status, e) refl, rw e refl)

-- One result of several that are awaited.
pub complete-IsFlying :
    (io : NexusBio) (core n m : ℕ) (child_io : ChildIo) (ok' : Bool)
    → IsFlying io core (suc (suc n)) m
    → let io' = complete_child_io core io child_io ok' in
      (IsFlying io' core (suc n) (m + oks ok'))
      × (io'.completed ≡ io.completed)
      × (io'.retiring ≡ noted child_io ok' io.retiring)
      × (io'.freed ≡ io.freed + 1)
      × (io'.panicked ≡ io.panicked)
unfolding try_retire settle
complete-IsFlying io core n m child_io true h =
    let (a, b) = record_flying io core (suc n) m true h in
    rw (complete-eq io core child_io true h.on_core, (disposition_flying io core n m h).0)
      (
        record {
          in_flight = a;
          num_ok = b;
          status = h.status;
          on_core = h.on_core;
          bounded = omega (arith, h.bounded);
        },
        refl,
        refl,
        refl,
        refl,
      )
complete-IsFlying io core n m child_io false h =
    let (a, b) = record_flying io core (suc n) m false h in
    rw (complete-eq io core child_io false h.on_core, (disposition_flying io core n m h).1)
      (elim (Bool-cases child_io.invalid_opcode) [
        | inl e ↦
            rw (e, try_retire)
              (
                record {
                  in_flight = a;
                  num_ok = b;
                  status = refl;
                  on_core = h.on_core;
                  bounded = omega (arith, h.bounded);
                },
                refl,
                refl,
                refl,
                refl,
              )
        | inr e ↦
            rw (e, try_retire)
              (
                record {
                  in_flight = a;
                  num_ok = b;
                  status = refl;
                  on_core = h.on_core;
                  bounded = omega (arith, h.bounded);
                },
                refl,
                refl,
                refl,
                refl,
              )
      ])

abbrev pub successes : Results → ℕ
successes [] = 0
successes ((child_io, ok') ∷ rs) = oks ok' + successes rs

-- The result of an I/O of which `m` child I/Os have succeeded.
abbrev pub outcome : ℕ → IoStatus
outcome zero = failed
outcome (suc m) = success
