-- ===== src/Tests/Store.antt =====
-- The library and the application as a key store, at concrete inputs.
use ledger_kee_pass.Base.{
  ℕ, ◌≡◌, ◌<◌, refl, arith, Bool, true, false, some, List, [], ◌∷◌, ◌++◌, ◌==◌, if◌then◌else◌,
  replicate,
}
use ledger_kee_pass.App.Storage.{
  is_key_valid, store_key_slot, set_key_as_valid, write_key, nv_app_state_init,
}
use ledger_kee_pass.App.Consts.{slot_count}
use ledger_kee_pass.App.Sdk.{Derived}
use ledger_kee_pass.App.Storage.View.{view}
use ledger_kee_pass.App.Device.WellFormed.{WellFormed}
use ledger_kee_pass.App.Instrs.{codes, derive_name_key, path_from_hash, is_name_valid, seed_prefix}
use ledger_kee_pass.App.Main.{restart}
use ledger_kee_pass.App.Approve.{left_released, right_released}
use ledger_kee_pass.App.Session.{at_start}
use ledger_kee_pass.Host.Result.{success, app_unauthorized_access}
use ledger_kee_pass.Host.Kpl.{Version, version_lib, get_key_from_name, set_key, from_device}
use ledger_kee_pass.System.Link.{link}
use ledger_kee_pass.System.Overwrite.{set_key_full}
use ledger_kee_pass.System.FromDevice.{from_device-link}
use ledger_kee_pass.System.FromName.{get_key_from_name-link}
use ledger_kee_pass.System.KeyStore.{
  Command, connect, list, derive, key_of_name, store, open_key, erase, Keys, run_all, promised_all,
  IsProper, AllProper,
}
use ledger_kee_pass.System.KeyStore.Refines.{Shows, run_all-refines}
use ledger_kee_pass.Tests.Toy.{toy_sdk, toy_sdk-IsDocumented, toy_sodium, toy-SameCurve}
use ledger_kee_pass.Tests.Device.{fresh, fresh-Inv}

abbrev pub other_key : List ℕ
other_key = replicate 32 0x5C

slot_full : is_key_valid fresh.nv 3 ≡ true
unfolding at_start restart nv_app_state_init store_key_slot set_key_as_valid write_key is_key_valid
slot_full = refl

set_key_full_example :
    let (result, d₁) = set_key (link toy_sdk right_released) 3 other_key fresh in
    let (result', d₂) = set_key (link toy_sdk left_released) 3 other_key fresh in
    ((result ≡ success)
      × ((j : ℕ) → view d₁.nv j ≡ (if 3 == j then some other_key else view fresh.nv j))
      × WellFormed toy_sdk d₁)
    × ((result' ≡ app_unauthorized_access) × (d₂.nv ≡ fresh.nv) × WellFormed toy_sdk d₂)
set_key_full_example =
    set_key_full toy_sdk toy_sdk-IsDocumented fresh fresh-Inv.well_formed 3 other_key (omega arith)
      refl slot_full

from_device-link_example :
    let held : Version = record { major = 9; minor = 9; patch = 9 } in
    let ended = from_device (link toy_sdk left_released) held fresh in
    (ended.result ≡ success) × (ended.out ≡ version_lib) × (ended.device.nv ≡ fresh.nv)
from_device-link_example =
    from_device-link toy_sdk toy_sdk-IsDocumented fresh fresh-Inv.well_formed left_released
      (record { major = 9; minor = 9; patch = 9 })

abbrev mail : List ℕ
mail = codes "mail"

-- The node that the small SDK derives for the name.
abbrev mail_node : List ℕ
mail_node = replicate 32 54

mail_derives :
    derive_name_key toy_sdk (seed_prefix ++ mail) ≡ Derived.node mail_node (replicate 32 5)
unfolding derive_name_key path_from_hash
mail_derives = refl

get_key_from_name-link_example :
    let yes_ended =
      get_key_from_name toy_sodium
        (link toy_sdk right_released)
        mail
        (replicate 32 2)
        (replicate 32 0)
        fresh in
    let no_ended =
      get_key_from_name toy_sodium
        (link toy_sdk left_released)
        mail
        (replicate 32 2)
        (replicate 32 0)
        fresh in
    ((yes_ended.result ≡ success)
      × (yes_ended.out ≡ toy_sdk.sha256 (mail_node ++ replicate 32 5))
      × (yes_ended.device.nv ≡ fresh.nv))
    × ((no_ended.result ≡ app_unauthorized_access)
        × (no_ended.out ≡ replicate 32 0)
        × (no_ended.device.nv ≡ fresh.nv))
get_key_from_name-link_example =
    get_key_from_name-link toy_sdk toy_sdk-IsDocumented fresh fresh-Inv.well_formed mail
      (omega arith) (omega arith) (unfold is_name_valid in refl) toy_sodium toy-SameCurve
      (replicate 32 2) (replicate 32 0) refl refl mail_derives refl

-- A key is stored, overwritten with and without consent, given out, and all are erased.
abbrev commands : List (Bool × Command)
commands =
    (false, connect)
    ∷ (true, store 5 other_key)
    ∷ (false, list)
    ∷ (true, derive mail (replicate 32 2) (replicate 32 0))
    ∷ (false, derive mail (replicate 32 2) (replicate 32 0))
    ∷ (false, store 3 other_key)
    ∷ (true, open_key 3 (replicate 32 2) (replicate 32 0))
    ∷ (false, open_key 5 (replicate 32 2) (replicate 32 0))
    ∷ (true, erase)
    ∷ (true, open_key 3 (replicate 32 2) (replicate 32 0))
    ∷ []

abbrev pub keys : Keys
keys j = view fresh.nv j

pub given_out :
    (slot : ℕ)
    → slot < slot_count
    → IsProper toy_sdk toy_sodium (open_key slot (replicate 32 2) (replicate 32 0))
given_out slot lt = (lt, refl, refl, λ n. (_, refl))

derives_mail : IsProper toy_sdk toy_sodium (derive mail (replicate 32 2) (replicate 32 0))
derives_mail = (
  (omega arith, omega arith, unfold is_name_valid in refl),
  (_, _, mail_derives),
  refl,
  refl,
  λ n. (_, refl),
)

commands-AllProper : AllProper toy_sdk toy_sodium commands
commands-AllProper = (
  tt,
  (
    (omega arith, refl),
    (
      tt,
      (
        derives_mail,
        (
          derives_mail,
          (
            (omega arith, refl),
            (
              given_out 3 (omega arith),
              (given_out 5 (omega arith), (tt, (given_out 3 (omega arith), tt))),
            ),
          ),
        ),
      ),
    ),
  ),
)

run_all-refines_example :
    ((run_all toy_sdk toy_sodium commands fresh).0
      ≡ (promised_all (key_of_name toy_sdk) commands keys).0)
    × Shows toy_sdk
        (run_all toy_sdk toy_sodium commands fresh).1
        (promised_all (key_of_name toy_sdk) commands keys).1
run_all-refines_example =
    run_all-refines toy_sdk toy_sdk-IsDocumented toy_sodium toy-SameCurve commands fresh keys
      commands-AllProper (record { well_formed = fresh-Inv.well_formed; shown = λ j. refl })
