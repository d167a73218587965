-- ===== src/Tests/Tools.antt =====
-- The command line tools (libkpl/tools) at concrete arguments.
use ledger_kee_pass.Base.{◌≡◌, refl, [], ◌∷◌, ◌++◌, arith, some, replicate}
use ledger_kee_pass.App.Instrs.{codes}
use ledger_kee_pass.App.Approve.{Button, right_released, left_released}
use ledger_kee_pass.Host.Devices.{tcp, get_first_device}
use ledger_kee_pass.Host.Tools.{set_main, get_main}
use ledger_kee_pass.Host.Tools.Text.{from_hex, new_line}
use ledger_kee_pass.Host.Tools.Hex.{hex_text, hex_text-IsHexOf}
use ledger_kee_pass.System.KeyStore.{update}
use ledger_kee_pass.System.Link.{link}
use ledger_kee_pass.System.Tools.{Ran, stored_text, get_main-set_main}
use ledger_kee_pass.Tests.Toy.{toy_sdk, toy_sdk-IsDocumented, toy_sodium, toy-SameCurve}
use ledger_kee_pass.Tests.Device.{fresh, fresh-Inv}
use ledger_kee_pass.Tests.Devices.{machine}
use ledger_kee_pass.Tests.Store.{other_key, keys}

machine_found : get_first_device machine ≡ some (tcp (codes "localhost") 9999)
unfolding get_first_device
machine_found = refl

reads_lower : from_hex (λ a b. 0) (codes "5cA0fF") ≡ 0x5C ∷ 0xA0 ∷ 0xFF ∷ []
unfolding from_hex
reads_lower = refl

get_main-set_main_example :
    let text = hex_text other_key in
    let t =
      set_main
        (λ _. link toy_sdk right_released)
        machine
        (codes "kpl_set")
        (λ a b. 0)
        (codes "3" ∷ text ∷ [])
        fresh in
    let get_by = λ (b : Button).
      get_main toy_sodium
        (λ _. link toy_sdk b)
        machine
        (codes "kpl_set")
        (replicate 32 2)
        (replicate 32 0)
        (codes "3" ∷ [])
        t.device in
    let after = update 3 other_key keys in
    Ran toy_sdk 0 (stored_text 3) after t
    × Ran toy_sdk 0 (text ++ new_line) after (get_by right_released)
    × Ran toy_sdk 1 [] after (get_by left_released)
get_main-set_main_example =
    get_main-set_main toy_sdk toy_sdk-IsDocumented toy_sodium toy-SameCurve machine
      (tcp (codes "localhost") 9999) machine_found (codes "kpl_set") 3 (omega arith)
      (replicate 32 2) (replicate 32 0) refl refl (λ n. (_, refl)) (λ a b. 0) other_key
      (hex_text other_key) fresh keys refl (hex_text-IsHexOf other_key (omega arith))
      (record { well_formed = fresh-Inv.well_formed; shown = λ j. refl })
