-- ===== src/Host/ErrorOr.antt =====
-- `ErrorOr` of libkpl/include/kpl/errors.h: a value or an error in a union, with the object's
-- construction and destruction by hand.
pub mod Lifetimes
use ledger_kee_pass.Base.{ℕ, ◌+◌, Bool, true, false, Option, some, none, if◌then◌else◌}
use ledger_kee_pass.Host.Result.{Result}

-- `Valid_`, the union's `Error_` and `V_`, and how often a `T` was constructed and destroyed in the
-- union. `object` is `none` while no object lives there.
pub record ErrorOr (T : Type 0) : Type 0 where
  pub valid : Bool
  pub object : Option T
  pub error : Result
  pub built : ℕ
  pub destroyed : ℕ

module _ {T : Type 0} where
  -- `ErrorOr(ErrorTag, Result)`, and `ErrorOr()` with an indeterminate error
  unfoldable pub error_or_error : Result → ErrorOr T
  error_or_error err = record {
    valid = false;
    object = none;
    error = err;
    built = 0;
    destroyed = 0;
  }

  -- `ErrorOr(Args &&...)` around the value, over an indeterminate error
  unfoldable pub error_or_value : Result → T → ErrorOr T
  error_or_value junk v = record {
    valid = true;
    object = some v;
    error = junk;
    built = 1;
    destroyed = 0;
  }

  -- `get`; `none` is a failed assert, or a read of an object that does not live.
  unfoldable pub get : ErrorOr T → Option T
  get o = if o.valid then o.object else none

  -- `reset`, which is all that `~ErrorOr` does
  unfoldable pub reset : ErrorOr T → ErrorOr T
  reset o = if o.valid then record o { object = none; destroyed = o.destroyed + 1 } else o

  -- `ErrorOr(ErrorOr &&O)`: the new object and `O` behind it. The move constructor of `T` gives the
  -- value, and what it leaves in `O` is destroyed at once.
  unfoldable pub move : Result → ErrorOr T → Option (ErrorOr T × ErrorOr T)
  unfolding get reset error_or_value error_or_error
  move junk o =
      if o.valid
      then (elim (get o) [ none ↦ none | some v ↦ some (error_or_value junk v, reset o) ])
      else some (error_or_error o.error, o)

  -- `operator=(ErrorOr &&O)` for another object `O`
  unfoldable pub assign : ErrorOr T → ErrorOr T → Option (ErrorOr T × ErrorOr T)
  unfolding get reset
  assign this o =
      let this' = reset this in
      if o.valid
      then (elim (get o) [
        | none ↦ none
        | some v ↦
            some (record this' { valid = true; object = some v; built = this'.built + 1 }, reset o)
      ])
      else some (record this' { valid = false; error = o.error }, o)
