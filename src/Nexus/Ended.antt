-- ===== src/Nexus/Ended.antt =====
-- The last result of an I/O that was sent to all children (`complete`, `disposition` of
-- nexus_io.rs).
use co_create_openebs.Nexus.Mirror.{
  IsFlying, Results, outcome, complete_each, oks, successes, noted, failures, complete-eq,
  complete-IsFlying, record_flying,
}
use co_create_openebs.Nexus.Channel.{BdevHandle}
use co_create_openebs.Nexus.Io.{
  NexusBio, complete_child_io, try_retire, ChildIo, record_result, disposition, settle, success,
  retire, completes, IoStatus, failed,
}
use co_create_openebs.Prelude.{
  [], ◌∷◌, ◌≡◌, List, ℕ, Bool, suc, true, ◌+◌, false, arith, ◌<◌, ◌==◌, refl, sub_u8, Bool-cases,
  inl, inr, if◌then◌else◌, zero, ap, sym, length, ◌∙◌, ◌⊎◌,
}

-- How an I/O stands after its last result.
pub record IsEnded (io io' : NexusBio) (results ok_count : ℕ) (retired : List BdevHandle)
    : Type 0 where
  pub once : io'.completed ≡ outcome ok_count ∷ io.completed
  pub nothing_flies : io'.ctx.in_flight ≡ 0
  pub all_freed : io'.freed ≡ io.freed + results
  pub same : io'.panicked ≡ io.panicked
  pub retires : (ok_count ≡ 0) ⊎ (io'.retiring ≡ retired)

pub outcome_pos : (m : ℕ) → 0 < m → outcome m ≡ success
outcome_pos zero p = absurd (omega arith)
outcome_pos (suc m) p = refl

disposition_last :
    (io : NexusBio) (core m : ℕ)
    → IsFlying io core 1 m
    → (disposition (record_result io.ctx true) ≡ completes success)
      × (disposition (record_result io.ctx false)
          ≡ (if m == 0 then completes failed else retire success))
unfolding disposition
disposition_last io core m h =
    let e : (sub_u8 io.ctx.in_flight 1 == 0) ≡ true = ground (arith, h.in_flight) in
    (rw (h.status, e) refl, rw (h.num_ok, e) refl)

complete_last :
    (io : NexusBio) (core m : ℕ) (child_io : ChildIo) (ok' : Bool)
    → IsFlying io core 1 m
    → IsEnded io
        (complete_child_io core io child_io ok')
        1
        (m + oks ok')
        (noted child_io ok' io.retiring)
unfolding try_retire settle
complete_last io core m child_io true h =
    rw (complete-eq io core child_io true h.on_core, (disposition_last io core m h).0)
      (record {
        once = ap (λ (o : IoStatus). o ∷ io.completed) (sym (outcome_pos (m + 1) (omega arith)));
        nothing_flies = (record_flying io core 0 m true h).0;
        all_freed = refl;
        same = refl;
        retires = inr refl;
      })
complete_last io core zero child_io false h =
    rw (complete-eq io core child_io false h.on_core, (disposition_last io core zero h).1)
      (record {
        once = refl;
        nothing_flies = (record_flying io core 0 zero false h).0;
        all_freed = refl;
        same = refl;
        retires = inl refl;
      })
complete_last io core (suc m) child_io false h =
    let once' =
      ap (λ (o : IoStatus). o ∷ io.completed) (sym (outcome_pos (suc m + 0) (omega arith))) in
    let z : (suc m == 0) ≡ false = ground arith in
    rw (complete-eq io core child_io false h.on_core, (disposition_last io core (suc m) h).1, z)
      (elim (Bool-cases child_io.invalid_opcode) [
        | inl e ↦
            rw (e, try_retire)
              (record {
                once = once';
                nothing_flies = (record_flying io core 0 (suc m) false h).0;
                all_freed = refl;
                same = refl;
                retires = inr refl;
              })
        | inr e ↦
            rw (e, try_retire)
              (record {
                once = once';
                nothing_flies = (record_flying io core 0 (suc m) false h).0;
                all_freed = refl;
                same = refl;
                retires = inr refl;
              })
      ])

-- Several results, of all that are awaited.
pub complete_each-IsEnded :
    (rs : Results) (io : NexusBio) (core m : ℕ)
    → 0 < length rs
    → IsFlying io core (length rs) m
    → IsEnded io (complete_each core io rs) (length rs) (m + successes rs) (failures rs io.retiring)
complete_each-IsEnded [] io core m p h = absurd (omega arith)
complete_each-IsEnded ((child_io, ok') ∷ []) io core m p h =
    let e : m + (oks ok' + 0) ≡ m + oks ok' = omega arith in
    rw e (complete_last io core m child_io ok' h)
complete_each-IsEnded ((child_io, ok') ∷ r ∷ rs) io core m p h =
    let (h', c, t, f, q) = complete-IsFlying io core (length rs) m child_io ok' h in
    let e : m + oks ok' + successes (r ∷ rs) ≡ m + successes ((child_io, ok') ∷ r ∷ rs) =
      omega arith in
    let d =
      complete_each-IsEnded (r ∷ rs) (complete_child_io core io child_io ok') core (m + oks ok')
        (omega arith) h' in
    record {
      once =
          d.once
          ∙ ap (λ (k : ℕ). outcome k ∷ (complete_child_io core io child_io ok').completed) e
          ∙ ap (λ (l : List IoStatus). outcome (m + successes ((child_io, ok') ∷ r ∷ rs)) ∷ l) c;
      nothing_flies = d.nothing_flies;
      all_freed = omega (arith, d.all_freed, f);
      same = d.same ∙ q;
      retires = elim d.retires [
        | inl z ↦ inl (omega arith)
        | inr z ↦ inr (z ∙ ap (failures (r ∷ rs)) t)
      ];
    }
