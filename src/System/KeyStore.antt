-- ===== src/System/KeyStore.antt =====
-- What the library (libkpl/src/kpl.cpp) and the application (app/src) promise together: a map from
-- slots to keys that the user watches over, and its commands.
pub mod Refines
use ledger_kee_pass.Base.{
  ℕ, ◌<◌, ◌≤◌, ◌≡◌, ◌++◌, Bool, true, false, Option, some, none, List, [], ◌∷◌, ◌==◌, if◌then◌else◌,
  length,
}
use ledger_kee_pass.App.Consts.{
  slot_count, key_size, max_name_size, version_major, version_minor, version_patch,
}
use ledger_kee_pass.App.Sdk.{Sdk, Derived}
use ledger_kee_pass.App.Instrs.{seed_prefix, is_name_valid, derive_name_key}
use ledger_kee_pass.App.Device.{Device}
use ledger_kee_pass.App.Approve.{Button, right_released, left_released}
use ledger_kee_pass.Host.Result.{Result, success, app_unauthorized_access, app_empty_slot}
use ledger_kee_pass.Host.Sodium.{Sodium}
use ledger_kee_pass.Host.Kpl.{
  get_key, get_key_from_name, set_key, erase_all_slots, get_valid_key_slots, from_device,
}
use ledger_kee_pass.Host.Kpl.ValidSlots.{slots_where}
use ledger_kee_pass.System.Link.{link}

abbrev pub Keys : Type 0
Keys = ℕ → Option (List ℕ)

-- A call of the library: `fromDevice`, `getValidKeySlots`, `setKey`, `getKey` and `getKeyFromName`
-- with the bytes of `randombytes_buf` and the caller's buffer, `eraseAllSlots`.
pub data Command : Type 0 where
  connect : Command
  list : Command
  store : ℕ → List ℕ → Command
  open_key : ℕ → List ℕ → List ℕ → Command
  derive : List ℕ → List ℕ → List ℕ → Command
  erase : Command

-- A result, the bytes in the caller's buffer, and what it leaves.
pub record Effect (S : Type 0) : Type 0 where
  pub result : Result
  pub buffer : List ℕ
  pub left : S

abbrev pub update : ℕ → List ℕ → Keys → Keys
update slot key keys j = if slot == j then some key else keys j

-- `consents` says whether the user approves what the application asks.
abbrev pub store_over : Bool → ℕ → List ℕ → Keys → Option (List ℕ) → Effect Keys
store_over consents slot key keys none = record {
  result = success;
  buffer = [];
  left = update slot key keys;
}
store_over true slot key keys (some old) = record {
  result = success;
  buffer = [];
  left = update slot key keys;
}
store_over false slot key keys (some old) = record {
  result = app_unauthorized_access;
  buffer = [];
  left = keys;
}

abbrev pub open_held : Bool → List ℕ → Keys → Option (List ℕ) → Effect Keys
open_held consents out keys none = record { result = app_empty_slot; buffer = out; left = keys }
open_held true out keys (some key) = record { result = success; buffer = key; left = keys }
open_held false out keys (some key) = record {
  result = app_unauthorized_access;
  buffer = out;
  left = keys;
}

abbrev pub is_some : Option (List ℕ) → Bool
is_some none = false
is_some (some key) = true

-- The promise, where `named` gives the key of a name: an overwritten key, a key that is given out and
-- an erasure need the user's consent, and a name's key is none of those that are stored.
abbrev pub promised : (List ℕ → List ℕ) → Bool → Command → Keys → Effect Keys
promised named consents connect keys = record {
  result = success;
  buffer = version_major ∷ version_minor ∷ version_patch ∷ [];
  left = keys;
}
promised named consents list keys = record {
  result = success;
  buffer = slots_where slot_count 0 (λ j. is_some (keys j));
  left = keys;
}
promised named consents (derive name own_priv out) keys =
    open_held consents out keys (some (named name))
promised named consents (store slot key) keys = store_over consents slot key keys (keys slot)
promised named consents (open_key slot own_priv out) keys = open_held consents out keys (keys slot)
promised named true erase keys = record { result = success; buffer = []; left = λ j. none }
promised named false erase keys = record {
  result = app_unauthorized_access;
  buffer = [];
  left = keys;
}

-- The key of a name, as the application computes it
abbrev pub derived_key : Sdk → Derived → List ℕ
derived_key sdk (Derived.node priv chain) = sdk.sha256 (priv ++ chain)
derived_key sdk (Derived.raises e) = []

abbrev pub key_of_name : Sdk → List ℕ → List ℕ
key_of_name sdk name = derived_key sdk (derive_name_key sdk (seed_prefix ++ name))

abbrev pub button_of : Bool → Button
button_of true = right_released
button_of false = left_released

module _ (sdk : Sdk) (sodium : Sodium) where
  -- The command by the library, over the application and the user's button.
  abbrev pub run : Bool → Command → Device → Effect Device
  run consents connect d =
      let ended =
        from_device (link sdk (button_of consents)) (record { major = 0; minor = 0; patch = 0 })
          d in
      record {
        result = ended.result;
        buffer = ended.out.major ∷ ended.out.minor ∷ ended.out.patch ∷ [];
        left = ended.device;
      }
  run consents list d =
      let ended = get_valid_key_slots (link sdk (button_of consents)) d in
      record { result = ended.result; buffer = ended.out; left = ended.device }
  run consents (derive name own_priv out) d =
      let ended = get_key_from_name sodium (link sdk (button_of consents)) name own_priv out d in
      record { result = ended.result; buffer = ended.out; left = ended.device }
  run consents (store slot key) d =
      let (result, d') = set_key (link sdk (button_of consents)) slot key d in
      record { result = result; buffer = []; left = d' }
  run consents (open_key slot own_priv out) d =
      let ended = get_key sodium (link sdk (button_of consents)) slot own_priv out d in
      record { result = ended.result; buffer = ended.out; left = ended.device }
  run consents erase d =
      let (result, d') = erase_all_slots (link sdk (button_of consents)) d in
      record { result = result; buffer = []; left = d' }

  -- libsodium's exchange of a private key with whatever the application draws succeeds.
  abbrev pub Exchanges : List ℕ → Type 0
  Exchanges own_priv =
      (n : ℕ)
      → (secret : List ℕ) × (sodium.scalarmult own_priv (sodium.scalarmult_base (sdk.rng n 32))
          ≡ some secret)

  -- A slot in range, a printable name for which the SDK derives a key, bytes of the proper sizes.
  abbrev pub IsProper : Command → Type 0
  IsProper connect = Unit {0}
  IsProper list = Unit {0}
  IsProper (store slot key) = (slot < slot_count) × (length key ≡ key_size)
  IsProper (open_key slot own_priv out) =
      (slot < slot_count) × (length own_priv ≡ 32) × (length out ≡ 32) × Exchanges own_priv
  IsProper (derive name own_priv out) =
      ((1 ≤ length name) × (length name ≤ max_name_size) × (is_name_valid name ≡ true))
      × ((priv : List ℕ) × (chain : List ℕ) × (derive_name_key sdk (seed_prefix ++ name)
            ≡ Derived.node priv chain))
      × (length own_priv ≡ 32)
      × (length out ≡ 32)
      × Exchanges own_priv
  IsProper erase = Unit {0}

  -- Commands in a row, each with the user's answer to it: the results and the buffers, and what is
  -- left.
  pub run_all : List (Bool × Command) → Device → List (Result × List ℕ) × Device
  run_all [] d = ([], d)
  run_all ((consents, c) ∷ cs) d =
      let first = run consents c d in
      let rest = run_all cs first.left in ((first.result, first.buffer) ∷ rest.0, rest.1)

  abbrev pub AllProper : List (Bool × Command) → Type 0
  AllProper [] = Unit {0}
  AllProper ((consents, c) ∷ cs) = IsProper c × AllProper cs

pub promised_all : (List ℕ → List ℕ) → List (Bool × Command) → Keys → List (Result × List ℕ) × Keys
promised_all named [] keys = ([], keys)
promised_all named ((consents, c) ∷ cs) keys =
    let first = promised named consents c keys in
    let rest = promised_all named cs first.left in ((first.result, first.buffer) ∷ rest.0, rest.1)
