-- ===== src/Host/CApi.antt =====
-- The C interface of the library: libkpl/src/c_api/kpl_c.cpp, ledger_device_c.cpp and wrap.h. A
-- pointer is `none` if it is NULL; a pointer to an array is the bytes that stand there.
pub mod Wrapped
pub mod Names
pub mod Lists
use Prim.Native.String.{String}
use ledger_kee_pass.Base.{
  ℕ, ◌+◌, ◌-◌, Bool, true, false, ◌||◌, Option, some, none, List, [], ◌∷◌, ◌++◌, ltb, ◌==◌, ℤ,
  minus, if◌then◌else◌, length, take, blit, replicate,
}
use mathlib.Core.Bool.{not}
use ledger_kee_pass.App.Consts.{slot_count}
use ledger_kee_pass.Host.Result.{Result, success, lib_bad_length, lib_out_of_memory, is_success}
use ledger_kee_pass.Host.Sodium.{Sodium}
use ledger_kee_pass.Host.Messages.{result_code, error_str}
use ledger_kee_pass.Host.Transport.{LedgerDevice}
use ledger_kee_pass.Host.Kpl.{
  Version, Ended, get_key, get_key_from_name, set_key, get_valid_key_slots, from_device,
}

abbrev pub Pointer : Type 0 → Type 0
Pointer A = Option A

abbrev pub is_null : {A : Type 0} → Pointer A → Bool
is_null none = true
is_null (some a) = false

-- KPL_C_BAD_PARAMS
abbrev pub c_bad_params : ℤ
c_bad_params = minus 100

-- `wrapRes`: the `int` of the result
abbrev pub wrap_res : Result → ℤ
wrap_res r = result_code r

-- `KPLErrorStr`; `unwrapRes` keeps the `int`.
unfoldable pub kpl_error_str : ℤ → String
unfolding error_str
kpl_error_str res = error_str res

-- How a function ends: the `KPLResult`, what it wrote to where the caller pointed, and the device.
pub record Finished (S : Type 0) (Out : Type 0) : Type 0 where
  pub code : ℤ
  pub out : Out
  pub device : S

-- The object behind a `KPLObj`: it holds the version of the application.
abbrev pub KplObj : Type 0
KplObj = Version

-- The `Ended` of a method, for a caller in C
abbrev pub finish : {S : Type 0} → Ended S (List ℕ) → Finished S (Pointer (List ℕ))
finish r = record { code = wrap_res r.result; out = some r.out; device = r.device }

abbrev pub bad_params : {S Out : Type 0} → Out → S → Finished S Out
bad_params out s = record { code = c_bad_params; out = out; device = s }

-- What was written, at the caller's pointers
abbrev pub pointed :
    {S : Type 0} → Finished S (List ℕ × ℕ) → Finished S (Pointer (List ℕ) × Pointer ℕ)
pointed r = record { code = r.code; out = (some r.out.0, some r.out.1); device = r.device }

module _ {S : Type 0} (dev : LedgerDevice S) where
  -- `KPLSetKey`
  unfoldable pub kpl_set_key : Pointer KplObj → ℕ → Pointer (List ℕ) → S → Finished S (Unit {0})
  kpl_set_key none slot key s = bad_params tt s
  kpl_set_key (some obj) slot none s = bad_params tt s
  kpl_set_key (some obj) slot (some key) s =
      let (result, s') = set_key dev slot key s in
      record { code = wrap_res result; out = tt; device = s' }

  -- `KPLGetValidKeySlots` behind the test of its pointers: the array `Out` and `Count`
  unfoldable pub copy_slots : Ended S (List ℕ) → List ℕ → ℕ → Finished S (List ℕ × ℕ)
  copy_slots r out count =
      if not (is_success r.result)
      then record { code = wrap_res r.result; out = (out, count); device = r.device }
      else (if ltb slot_count (length r.out)
          then record { code = wrap_res lib_bad_length; out = (out, count); device = r.device }
          else record {
            code = wrap_res success;
            out = (blit out 0 r.out, length r.out);
            device = r.device;
          })

  -- `KPLGetValidKeySlots`
  unfoldable pub kpl_get_valid_key_slots :
      Pointer KplObj → Pointer (List ℕ) → Pointer ℕ → S → Finished S (Pointer (List ℕ) × Pointer ℕ)
  unfolding copy_slots
  kpl_get_valid_key_slots none out count s = bad_params (out, count) s
  kpl_get_valid_key_slots (some obj) none count s = bad_params (none, count) s
  kpl_get_valid_key_slots (some obj) (some out) none s = bad_params (some out, none) s
  kpl_get_valid_key_slots (some obj) (some out) (some count) s =
      pointed (copy_slots (get_valid_key_slots dev s) out count)

  -- `KPLFromDevice`: what stands at `*Ret`. `new` does not give NULL, so KPL_LIB_OUT_OF_MEMORY is
  -- not reached.
  unfoldable pub kpl_from_device :
      Pointer (Pointer KplObj) → Bool → S → Finished S (Pointer (Pointer KplObj))
  kpl_from_device none dev_given s = bad_params none s
  kpl_from_device (some ret) false s = bad_params (some ret) s
  kpl_from_device (some ret) true s =
      let r = from_device dev (record { major = 0; minor = 0; patch = 0 }) s in
      record {
        code = wrap_res r.result;
        out = some (if is_success r.result then some r.out else ret);
        device = r.device;
      }

module _ (sodium : Sodium) {S : Type 0} (dev : LedgerDevice S) where
  -- `KPLGetKey`
  unfoldable pub kpl_get_key :
      Pointer KplObj → ℕ → List ℕ → Pointer (List ℕ) → S → Finished S (Pointer (List ℕ))
  kpl_get_key none slot own_priv out s = bad_params out s
  kpl_get_key (some obj) slot own_priv none s = bad_params none s
  kpl_get_key (some obj) slot own_priv (some out) s =
      finish (get_key sodium dev slot own_priv out s)

  -- `KPLGetKeyFromName`
  unfoldable pub kpl_get_key_from_name :
      Pointer KplObj
      → Pointer (List ℕ)
      → List ℕ
      → Pointer (List ℕ)
      → S
      → Finished S (Pointer (List ℕ))
  kpl_get_key_from_name none name own_priv out s = bad_params out s
  kpl_get_key_from_name (some obj) none own_priv out s = bad_params out s
  kpl_get_key_from_name (some obj) (some name) own_priv none s = bad_params none s
  kpl_get_key_from_name (some obj) (some name) own_priv (some out) s =
      finish (get_key_from_name sodium dev name own_priv out s)

-- `strncpy(dst, src, n)`, where `src` is a C string: the bytes before its zero byte
abbrev pub strncpy : List ℕ → List ℕ → ℕ → List ℕ
strncpy dst src n = blit dst 0 (take n (src ++ replicate n 0))

-- `KPLLedgerDeviceName`: the code, the array at `Name` and the number at `NameLength`. `Dev` is
-- given by its name.
unfoldable pub kpl_ledger_device_name :
    Pointer (List ℕ) → Pointer ℕ → Pointer (List ℕ) → ℤ × (Pointer (List ℕ) × Pointer ℕ)
kpl_ledger_device_name name name_length none = (c_bad_params, (name, name_length))
kpl_ledger_device_name name none (some cxx_name) = (c_bad_params, (name, none))
kpl_ledger_device_name none (some n) (some cxx_name) =
    (wrap_res success, (none, some (length cxx_name + 1)))
kpl_ledger_device_name (some name) (some nl) (some cxx_name) =
    if ltb nl 1
    then (c_bad_params, (some name, some nl))
    else (wrap_res success, (some (strncpy name cxx_name (nl - 1)), some nl))
