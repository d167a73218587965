-- ===== src/Host/ErrorOr/Lifetimes.antt =====
-- What `ErrorOr` (libkpl/include/kpl/errors.h) destroys when it is moved.
use ledger_kee_pass.Base.{
  ℕ, ◌+◌, ◌≡◌, refl, Bool, true, false, Option, some, none, arith, if◌then◌else◌,
}
use ledger_kee_pass.Host.Result.{Result}
use ledger_kee_pass.Host.ErrorOr.{ErrorOr, error_or_error, error_or_value, get, reset, move, assign}

-- What the union holds, as the reader of `hasError`, `errorValue` and `get` sees it.
pub data Content (T : Type 0) : Type 0 where
  value : T → Content T
  failure : Result → Content T

-- The union holds what `Valid_` says, and each object that is gone was destroyed once.
pub data Owns {T : Type 0} : Content T → ErrorOr T → Type 0 where
  owns_value :
      (v : T) (junk : Result) (n : ℕ)
      → Owns
          (value v)
          (record { valid = true; object = some v; error = junk; built = n + 1; destroyed = n })
  owns_error :
      (err : Result) (n : ℕ)
      → Owns
          (failure err)
          (record { valid = false; object = none; error = err; built = n; destroyed = n })

abbrev pub holds_value : {T : Type 0} → Content T → Bool
holds_value (value v) = true
holds_value (failure err) = false

-- What a move from an object that held `c` gives: the target owns `c`, and when the source's
-- destructor has run, its `T` was destroyed once more than it was constructed if there was one.
abbrev pub HandsOver : {T : Type 0} → Content T → Option (ErrorOr T × ErrorOr T) → Type 0
HandsOver c none = ⊥
HandsOver c (some (target, source)) =
    Owns c target
    × ((reset source).destroyed ≡ (reset source).built + (if holds_value c then 1 else 0))

module _ {T : Type 0} where
  -- The destructor of an object that was never moved from destroys what was constructed.
  pub reset-Owns :
      (c : Content T) (o : ErrorOr T) → Owns c o → (reset o).destroyed ≡ (reset o).built
  unfolding reset
  reset-Owns c _ (owns_value v junk n) = refl
  reset-Owns c _ (owns_error err n) = refl

  -- Both ways to move hand the value or the error over, and a value that was moved from is then
  -- destroyed twice: by the move, which leaves `Valid_` set, and by the source's destructor.
  pub moves-HandsOver :
      (c c' : Content T) (o target : ErrorOr T) (junk : Result)
      → Owns c o
      → Owns c' target
      → HandsOver c (move junk o) × HandsOver c (assign target o)
  unfolding move assign reset get error_or_value error_or_error
  moves-HandsOver c c' _ _ junk (owns_value v j n) (owns_value v' j' m) =
      ((owns_value v junk 0, omega arith), (owns_value v j' (m + 1), omega arith))
  moves-HandsOver c c' _ _ junk (owns_value v j n) (owns_error e' m) =
      ((owns_value v junk 0, omega arith), (owns_value v e' m, omega arith))
  moves-HandsOver c c' _ _ junk (owns_error err n) (owns_value v' j' m) =
      ((owns_error err 0, omega arith), (owns_error err (m + 1), omega arith))
  moves-HandsOver c c' _ _ junk (owns_error err n) (owns_error e' m) =
      ((owns_error err 0, omega arith), (owns_error err m, omega arith))
