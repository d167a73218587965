-- ===== src/Tests/System.antt =====
-- The library against the application, at concrete inputs.
use ledger_kee_pass.Base.{◌≡◌, refl, arith, replicate}
use ledger_kee_pass.App.Storage.{is_key_valid}
use ledger_kee_pass.App.Instrs.{get_handle_instr, handle_get_key}
use ledger_kee_pass.App.Main.{received, app_main_round, catch_apdu}
use ledger_kee_pass.App.Main.Dispatched.{packet_of, loaded, app_main_round-packet}
use ledger_kee_pass.App.Approve.{left_released}
use ledger_kee_pass.Host.Result.{success}
use ledger_kee_pass.Host.Kpl.{get_valid_key_slots}
use ledger_kee_pass.Host.Kpl.ValidSlots.{contains}
use ledger_kee_pass.System.Link.{link}
use ledger_kee_pass.System.Immediate.{get_valid_key_slots-held}
use ledger_kee_pass.Tests.Toy.{toy_sdk, toy_sdk-IsDocumented}
use ledger_kee_pass.Tests.Device.{fresh, fresh-Inv}

get_valid_key_slots-held_example :
    let ended = get_valid_key_slots (link toy_sdk left_released) fresh in
    (ended.result ≡ success) × (contains 3 ended.out ≡ is_key_valid fresh.nv 3)
get_valid_key_slots-held_example =
    get_valid_key_slots-held toy_sdk toy_sdk-IsDocumented fresh fresh-Inv.well_formed left_released
      3 (omega arith)

app_main_round-packet_example :
    app_main_round toy_sdk (received (packet_of 2 3 0 (replicate 32 9))) fresh
    ≡ catch_apdu toy_sdk (
        handle_get_key toy_sdk 3 0
          (replicate 32 9)
          0
          (loaded fresh (packet_of 2 3 0 (replicate 32 9))))
app_main_round-packet_example =
    app_main_round-packet toy_sdk toy_sdk-IsDocumented fresh fresh-Inv.well_formed 2 3 0
      (replicate 32 9) (handle_get_key toy_sdk) (unfold get_handle_instr in refl) (omega arith)
