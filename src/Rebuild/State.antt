-- ===== src/Rebuild/State.antt =====
-- The states of a rebuild job, its operations and its errors: `RebuildState`, `RebuildError` of
-- rebuild_api.rs, `RebuildStates`, `RebuildOperation` of rebuild_impl.rs.
use co_create_openebs.Prelude.{
  ℕ, String, Bool, true, false, Option, none, some, Result, ok, err, not, ◌&&◌,
}

pub data RebuildState : Type 0 where
  init running stopped paused failed completed : RebuildState

-- `PartialEq` of `RebuildState`, as derived.
abbrev pub state_eq : RebuildState → RebuildState → Bool
state_eq init init = true
state_eq running running = true
state_eq stopped stopped = true
state_eq paused paused = true
state_eq failed failed = true
state_eq completed completed = true
state_eq _ _ = false

-- The final states.
abbrev pub done : RebuildState → Bool
done stopped = true
done failed = true
done completed = true
done _ = false

pub record RebuildStates : Type 0 where
  pub current : RebuildState
  pub pending : Option RebuildState

pub data RebuildOperation : Type 0 where
  start stop pause resume fail complete : RebuildOperation

-- The errors. A `source` is an error of another component, kept as a number; the texts of
-- `OpError` and `StatePending` are kept as the values that they print.
pub data RebuildError : Type 0 where
  no_copy_buffer : (source : ℕ) → RebuildError
  invalid_parameters : RebuildError
  no_bdev_handle : (source : ℕ) (bdev : String) → RebuildError
  bdev_not_found : (source : ℕ) (bdev : String) → RebuildError
  io_error : (source : ℕ) (bdev : String) → RebuildError
  read_io_error : (source : ℕ) (bdev : String) → RebuildError
  write_io_error : (source : ℕ) (bdev : String) → RebuildError
  job_not_found : (job : String) → RebuildError
  job_already_exists : (job : String) → RebuildError
  missing_destination : (job : String) → RebuildError
  op_error : (operation : RebuildOperation) (state : RebuildStates) → RebuildError
  state_pending : (state : RebuildState) → RebuildError
  range_lock_error : (blk len source : ℕ) → RebuildError
  range_unlock_error : (blk len source : ℕ) → RebuildError
  bdev_invalid_uri : (source : ℕ) (uri : String) → RebuildError

abbrev pub UnitResult : Type 0
UnitResult = Result RebuildError (Unit {0})

-- `set_pending` where nothing stands in the way.
abbrev pub put_pending : RebuildStates → RebuildState → RebuildStates × UnitResult
put_pending s state = elim (state_eq s.current state) [
  | true ↦ (record s { pending = none }, ok tt)
  | false ↦ (record s { pending = some state }, ok tt)
]

unfoldable pub set_pending : RebuildStates → RebuildState → Bool → RebuildStates × UnitResult
set_pending s state override_pending = elim s.pending [
  | some pending ↦ elim (not override_pending && not (state_eq pending state)) [
    | true ↦ (s, err (state_pending pending))
    | false ↦ put_pending s state
  ]
  | none ↦ put_pending s state
]

unfoldable pub pending_equals : RebuildStates → RebuildState → Bool
pending_equals s state = elim s.pending [ none ↦ false | some p ↦ state_eq p state ]

-- The pending state becomes the current one.
unfoldable pub reconcile_states : RebuildStates → RebuildStates
reconcile_states s = elim s.pending [ none ↦ s | some p ↦ record s { current = p; pending = none } ]
