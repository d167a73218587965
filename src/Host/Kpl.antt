-- ===== src/Host/Kpl.antt =====
-- libkpl/src/kpl.cpp: the methods of `KPL`, over the client of libkpl/src/ledger_client.cpp.
pub mod Decrypted
pub mod ValidSlots
pub mod Versions
use ledger_kee_pass.Base.{
  ℕ, zero, suc, ◌+◌, ◌-◌, ◌/◌, ◌%◌, Bool, true, false, ◌||◌, Option, some, none, List, [], ◌∷◌,
  ◌++◌, ltb, ◌==◌, if◌then◌else◌, length, get_or, take, drop, bit_and,
}
use mathlib.Core.Bool.{not}
use ledger_kee_pass.App.Consts.{
  key_size, max_name_size, version_major, version_minor, version_patch,
}
use ledger_kee_pass.Host.Result.{
  Result, success, lib_bad_length, lib_x25519_fail, protocol_bad_length, protocol_bad_version,
  is_success, parse_app_sw,
}
use ledger_kee_pass.Host.Sodium.{Sodium}
use ledger_kee_pass.Host.Crypto.{x25519_gen_priv_key, x25519_decrypt_key}
use ledger_kee_pass.Host.Transport.{LedgerDevice, Exchanged, answer_sw, data_size}
use ledger_kee_pass.Host.Client.{apdu_stream, exchange}

-- `Version` of libkpl/include/kpl/version.h
pub record Version : Type 0 where
  pub major : ℕ
  pub minor : ℕ
  pub patch : ℕ

-- `Version::lib`
abbrev pub version_lib : Version
version_lib = record { major = version_major; minor = version_minor; patch = version_patch }

-- `isProtocolCompatible`
abbrev pub is_protocol_compatible : Version → Version → Bool
is_protocol_compatible v o = v.major == o.major

-- The loop of `getValidKeySlots` on `Slots` and `S`; each round halves `Slots`.
unfoldable pub slots_loop : ℕ → ℕ → ℕ → List ℕ
slots_loop zero slots s = []
slots_loop (suc fuel) slots s =
    let rest = slots_loop fuel (slots / 2) ((s + 1) % 256) in
    if slots == 0 then [] else (if bit_and slots 1 == 1 then s ∷ rest else rest)

-- How a method ends: its result, the caller's buffer, and the device.
pub record Ended (S : Type 0) (Out : Type 0) : Type 0 where
  pub result : Result
  pub out : Out
  pub device : S

-- The results of an exchange and of the status word, which every method looks at in turn.
unfoldable pub answer_result : {S : Type 0} → Exchanged S → Result
answer_result r = if is_success r.result then parse_app_sw (answer_sw r.answer) else r.result

-- `sendKeyApduAndDecrypt` behind the exchange: `memcpy` to `Out` and the decryption.
unfoldable pub decrypt_to : {S : Type 0} → S → List ℕ → Option (List ℕ) → Ended S (List ℕ)
decrypt_to s copied none = record { result = lib_x25519_fail; out = copied; device = s }
decrypt_to s copied (some key) = record { result = success; out = key; device = s }

module _ (sodium : Sodium) {S : Type 0} (dev : LedgerDevice S) where
  unfoldable pub decrypt_answer : Exchanged S → List ℕ → List ℕ → List ℕ → Ended S (List ℕ)
  unfolding decrypt_to
  decrypt_answer r own_pub own_priv out =
      let app_pub = take 32 r.answer in
      let copied = take key_size (drop 32 r.answer) in
      if not (is_success (answer_result r))
      then record { result = answer_result r; out = out; device = r.device }
      else (if not (data_size r.answer == 32 + key_size)
          then record { result = protocol_bad_length; out = out; device = r.device }
          else decrypt_to r.device copied
              (x25519_decrypt_key sodium copied app_pub own_pub own_priv))

  -- `getKey`, given the bytes of `randombytes_buf`, on a buffer `out`
  unfoldable pub get_key : ℕ → List ℕ → List ℕ → S → Ended S (List ℕ)
  unfolding decrypt_answer
  get_key slot own_priv out s =
      let own_pub = x25519_gen_priv_key sodium own_priv in
      if not (length out == key_size)
      then record { result = lib_bad_length; out = out; device = s }
      else decrypt_answer (exchange dev (32 + key_size + 2) (apdu_stream 2 slot 0 ++ own_pub) s)
          own_pub own_priv out

  -- `getKeyFromName`
  unfoldable pub get_key_from_name : List ℕ → List ℕ → List ℕ → S → Ended S (List ℕ)
  unfolding decrypt_answer
  get_key_from_name name own_priv out s =
      let own_pub = x25519_gen_priv_key sodium own_priv in
      if ltb max_name_size (length name) || not (length out == key_size)
      then record { result = lib_bad_length; out = out; device = s }
      else decrypt_answer
          (exchange dev (32 + key_size + 2) ((apdu_stream 3 0 0 ++ own_pub) ++ name) s) own_pub
          own_priv out

module _ {S : Type 0} (dev : LedgerDevice S) where
  -- `setKey`
  unfoldable pub set_key : ℕ → List ℕ → S → Result × S
  set_key slot key s =
      let r = exchange dev 2 (apdu_stream 1 slot 0 ++ key) s in
      if not (length key == key_size) then (lib_bad_length, s) else (answer_result r, r.device)

  -- `eraseAllSlots`
  unfoldable pub erase_all_slots : S → Result × S
  erase_all_slots s = let r = exchange dev 3 (apdu_stream 5 0 0) s in (answer_result r, r.device)

  -- `getValidKeySlots`, on an empty vector
  unfoldable pub get_valid_key_slots : S → Ended S (List ℕ)
  get_valid_key_slots s =
      let r = exchange dev 3 (apdu_stream 4 0 0) s in
      if not (is_success (answer_result r))
      then record { result = answer_result r; out = []; device = r.device }
      else (if not (data_size r.answer == 1)
          then record { result = protocol_bad_length; out = []; device = r.device }
          else record {
            result = success;
            out = slots_loop 8 (get_or r.answer 0 0) 0;
            device = r.device;
          })

  -- `fillAppVersion`, on the version that the object held
  unfoldable pub fill_app_version : Version → S → Ended S Version
  fill_app_version held s =
      let r = exchange dev 5 (apdu_stream 0 0 0) s in
      if not (is_success (answer_result r))
      then record { result = answer_result r; out = held; device = r.device }
      else (if not (data_size r.answer == 3)
          then record { result = protocol_bad_length; out = held; device = r.device }
          else record {
            result = success;
            out = record {
              major = get_or r.answer 0 0;
              minor = get_or r.answer 1 0;
              patch = get_or r.answer 2 0;
            };
            device = r.device;
          })

  -- `fromDevice`: the version that was read goes to `AppVer`; the result says whether the object is
  -- given to the caller.
  unfoldable pub from_device : Version → S → Ended S Version
  unfolding fill_app_version
  from_device app_ver s =
      let (connected, s') = dev.connect s in
      let filled = fill_app_version (record { major = 0; minor = 0; patch = 0 }) s' in
      if not (is_success connected)
      then record { result = connected; out = app_ver; device = s' }
      else (if not (is_success filled.result)
          then record { result = filled.result; out = app_ver; device = filled.device }
          else (if not (is_protocol_compatible version_lib filled.out)
              then record {
                result = protocol_bad_version;
                out = filled.out;
                device = filled.device;
              }
              else filled))
