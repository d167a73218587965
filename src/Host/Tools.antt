-- ===== src/Host/Tools.antt =====
-- The command line tools: libkpl/tools. A text is its bytes; a tool runs over a computer (`Machine`)
-- and over what a device does once it is opened.
pub mod Text
pub mod Hex
use ledger_kee_pass.Base.{
  ℕ, ◌+◌, ◌-◌, ◌*◌, ◌/◌, ◌%◌, Bool, true, false, ◌&&◌, ◌||◌, Option, some, none, List, [], ◌∷◌,
  ◌++◌, leb, ltb, ℤ, pos, negsuc, if◌then◌else◌,
}
use mathlib.Core.Bool.{not}
use ledger_kee_pass.App.Instrs.{codes}
use ledger_kee_pass.Host.Result.{Result, is_success}
use ledger_kee_pass.Host.Sodium.{Sodium}
use ledger_kee_pass.Host.Messages.{result_code, error_str}
use ledger_kee_pass.Host.Transport.{LedgerDevice}
use ledger_kee_pass.Host.Kpl.{
  Version, Ended, get_key, get_key_from_name, set_key, erase_all_slots, get_valid_key_slots,
  from_device,
}
use ledger_kee_pass.Host.Devices.{
  DeviceInfo, Machine, name, to_string, atoi, list_devices, get_first_device,
}
use ledger_kee_pass.Host.Tools.Text.{
  to_lower, is_hex, digit_value, scan_hex, from_hex, upper_digit, print_hex, print_int, as_byte,
  print_slots, new_line, complaint,
}

-- How a tool ends: the exit status, what it wrote to `stdout` and to `stderr`, and the device.
pub record Tool (S : Type 0) : Type 0 where
  pub status : ℕ
  pub out : List ℕ
  pub err : List ℕ
  pub device : S

abbrev pub failed : {S : Type 0} → List ℕ → S → Tool S
failed err s = record { status = 1; out = []; err = err; device = s }

abbrev pub done : {S : Type 0} → List ℕ → S → Tool S
done out s = record { status = 0; out = out; err = []; device = s }

abbrev pub usage : {S : Type 0} → List ℕ → List ℕ → S → Tool S
usage argv0 args s = failed (codes "Usage: " ++ (argv0 ++ (args ++ new_line))) s

-- `KPLDev`: the device behind `KPL_`, which is `none` if `KPL_` is not set; with what was written to
-- `stderr`.
pub record KplDev (S : Type 0) : Type 0 where
  pub kpl : Option DeviceInfo
  pub said : List ℕ
  pub device : S

module _ {S : Type 0} (transport : DeviceInfo → LedgerDevice S) where
  -- `getFirstDeviceKPL` with a device
  unfoldable pub use_device : DeviceInfo → S → KplDev S
  unfolding name
  use_device info s =
      let ekpl = from_device (transport info) (record { major = 0; minor = 0; patch = 0 }) s in
      let using = codes "Using device '" ++ (name info ++ (codes "'" ++ new_line)) in
      if not (is_success ekpl.result)
      then record {
        kpl = none;
        said =
            using
            ++ complaint (codes "Error while initializing connection") ekpl.result (codes ".");
        device = ekpl.device;
      }
      else record { kpl = some info; said = using; device = ekpl.device }

  -- `getFirstDeviceKPL` behind `getFirstDevice`
  unfoldable pub first_kpl : Option DeviceInfo → S → KplDev S
  unfolding use_device
  first_kpl none s = record {
    kpl = none;
    said = codes "Unable to find a Ledger device!" ++ new_line;
    device = s;
  }
  first_kpl (some info) s = use_device info s

  -- How each tool goes on with its `KPLDev`.
  unfoldable pub go_on : Option DeviceInfo → List ℕ → (LedgerDevice S → S → Tool S) → S → Tool S
  go_on none said f s = failed said s
  go_on (some info) said f s = let t = f (transport info) s in record t { err = said ++ t.err }

  unfoldable pub with_first_kpl : Machine → (LedgerDevice S → S → Tool S) → S → Tool S
  unfolding first_kpl go_on
  with_first_kpl m f s =
      let dev = first_kpl (get_first_device m) s in go_on dev.kpl dev.said f dev.device

-- What follows a method: a complaint, or what a success prints.
unfoldable pub reported : {S : Type 0} → List ℕ → List ℕ → Result → List ℕ → S → Tool S
unfolding result_code error_str
reported what end res out s =
    if is_success res then done out s else failed (complaint what res end) s

-- `what: code!`
unfoldable pub reported_code : {S : Type 0} → List ℕ → Result → List ℕ → S → Tool S
unfolding result_code
reported_code what res out s =
    if is_success res
    then done out s
    else failed (what ++ (codes ": " ++ (print_int (result_code res) ++ (codes "!" ++ new_line)))) s

abbrev pub slots_text : List ℕ → List ℕ
slots_text [] = codes "No valid slots!" ++ new_line
slots_text (s ∷ slots) = print_slots (s ∷ slots) ++ new_line

module _ {S : Type 0} (transport : DeviceInfo → LedgerDevice S) (m : Machine) (argv0 : List ℕ) where
  -- `main` of tools/set.cpp behind its test of `argc`
  unfoldable pub set_with : (ℕ → ℕ → ℕ) → List ℕ → List ℕ → S → Tool S
  unfolding with_first_kpl reported from_hex atoi
  set_with junk slot_text key_text =
      let slot = as_byte (atoi slot_text) in
      let key = from_hex junk key_text in
      with_first_kpl transport m λ dev s.
        let (res, s') = set_key dev slot key s in
        reported (codes "Unable to set key") (codes ".") res
          (codes "Key set on slot " ++ (to_string 3 slot ++ (codes "." ++ new_line))) s'

  -- `main` of tools/set.cpp, with the arguments behind `argv[0]`
  unfoldable pub set_main : (ℕ → ℕ → ℕ) → List (List ℕ) → S → Tool S
  unfolding set_with
  set_main junk [] s = usage argv0 (codes " slot key") s
  set_main junk (slot ∷ []) s = usage argv0 (codes " slot key") s
  set_main junk (slot ∷ key ∷ args) s = set_with junk slot key s

  -- `main` of tools/get_slots.cpp
  unfoldable pub get_slots_main : S → Tool S
  unfolding with_first_kpl reported_code print_slots
  get_slots_main = with_first_kpl transport m λ dev s.
      let ended = get_valid_key_slots dev s in
      reported_code (codes "Unable to get slots") ended.result (slots_text ended.out) ended.device

  -- `main` of tools/erase_all_slots.cpp
  unfoldable pub erase_main : S → Tool S
  unfolding with_first_kpl reported_code
  erase_main = with_first_kpl transport m λ dev s.
      let (res, s') = erase_all_slots dev s in
      reported_code (codes "Unable to erase all slots") res
        (codes "All slots have been erased!" ++ new_line) s'

module _ (sodium : Sodium) {S : Type 0} (transport : DeviceInfo → LedgerDevice S) (m : Machine)
    (argv0 own_priv : List ℕ) where
  -- `main` of tools/get.cpp behind its test of `argc`; `key` is what its array holds at first.
  unfoldable pub get_with : List ℕ → List ℕ → S → Tool S
  unfolding with_first_kpl reported print_hex atoi
  get_with key slot_text = with_first_kpl transport m λ dev s.
      let ended = get_key sodium dev (as_byte (atoi slot_text)) own_priv key s in
      reported (codes "Unable to get key") (codes "!") ended.result
        (print_hex ended.out ++ new_line) ended.device

  -- `main` of tools/get.cpp
  unfoldable pub get_main : List ℕ → List (List ℕ) → S → Tool S
  unfolding get_with
  get_main key [] s = usage argv0 (codes " slot") s
  get_main key (slot ∷ args) s = get_with key slot s

  -- `main` of tools/derive.cpp
  unfoldable pub derive_main : List ℕ → List (List ℕ) → S → Tool S
  unfolding with_first_kpl reported print_hex
  derive_main key [] s = usage argv0 (codes " name") s
  derive_main key (name ∷ args) s =
      with_first_kpl transport m
        (λ dev s.
          let ended = get_key_from_name sodium dev name own_priv key s in
          reported (codes "Unable to get key") (codes ".") ended.result
            (print_hex ended.out ++ new_line) ended.device)
        s

-- The lines of tools/list_devices.cpp
unfoldable pub device_lines : List DeviceInfo → List ℕ
unfolding name
device_lines [] = []
device_lines (dev ∷ devs) = name dev ++ (new_line ++ device_lines devs)

-- `main` of tools/list_devices.cpp
unfoldable pub list_devices_main : {S : Type 0} → Machine → S → Tool S
unfolding device_lines list_devices
list_devices_main m s = done (device_lines (list_devices m)) s
