-- ===== src/Tests/Answers.antt =====
-- Buttons, sequences of steps, and the callback that derives a key from a name, at concrete inputs.
use ledger_kee_pass.Base.{ℕ, ◌≡◌, refl, sym, true, some, List, [], ◌∷◌, ◌++◌, arith, replicate}
use ledger_kee_pass.App.Sdk.{Sdk, IsDocumented, Derived}
use ledger_kee_pass.App.Storage.{
  nv_app_state_init, store_key_slot, set_key_as_valid, write_key, is_key_valid,
}
use ledger_kee_pass.App.Device.{Device, Screen, Callback}
use ledger_kee_pass.App.Device.WellFormed
use ledger_kee_pass.App.Device.WellFormed.{WellFormed}
use ledger_kee_pass.App.Device.Outcomes.{Returns}
use ledger_kee_pass.App.Instrs.{
  derive_name_key, handle_get_key_from_name, c_string, codes, is_name_valid,
}
use ledger_kee_pass.App.Instrs.Asking.{hashed_name, erase_all}
use ledger_kee_pass.App.Instrs.NameAsked.{AsksAbout, handle_get_key_from_name-AsksAbout}
use ledger_kee_pass.App.Status.{sw_bytes, status_word}
use ledger_kee_pass.App.Approve.{right_released, touch_okay}
use ledger_kee_pass.App.Approve.KeyReply.{Replied}
use ledger_kee_pass.App.Approve.Touch.{touch_okay-raises}
use ledger_kee_pass.App.Approve.Sends.{Sends, touch_okay-get_key_from_name}
use ledger_kee_pass.App.Instrs.Derivation.{derivation_path}
use ledger_kee_pass.App.Session.{Step, Inv, Reach-Inv, here, next, reset, at_start}
use ledger_kee_pass.App.Main.{restart}
use ledger_kee_pass.App.Session.Safety.{packet-Unattended, press_answers}
use ledger_kee_pass.Tests.Toy.{toy_sdk, toy_sdk-IsDocumented}
use ledger_kee_pass.Tests.Device.{fresh, fresh-Inv, get_key_packet, ask_for, ask_for-WellFormed}

holds_slot : is_key_valid fresh.nv 3 ≡ true
unfolding at_start restart nv_app_state_init store_key_slot set_key_as_valid write_key is_key_valid
holds_slot = refl

-- The state behind a GET_KEY packet, and the step that leads to it.
abbrev served : (t : Device) × Step toy_sdk fresh t
served =
    let (t, step, _) =
      packet-Unattended toy_sdk toy_sdk-IsDocumented get_key_packet fresh fresh-Inv in
    (t, step)

Reach-Inv_example : Inv toy_sdk (restart served.0)
Reach-Inv_example =
    Reach-Inv toy_sdk toy_sdk-IsDocumented fresh-Inv (next (next here served.1) (reset refl))

-- The question of ERASE_ALL_SLOTS on the screen.
abbrev asked : Device
asked = record fresh {
  line1 = c_string "Erase all slots?" ++ replicate 15 0;
  line2 = c_string "They will be erased forever!" ++ replicate 3 0;
  approve_cb = some Callback.erase_all_slots_approve;
  screen = Screen.approval;
}

asked-Inv : Inv toy_sdk asked
asked-Inv = record {
  well_formed =
      WellFormed.flags-WellFormed toy_sdk _
        (WellFormed.lines-WellFormed toy_sdk fresh fresh-Inv.well_formed asked.line1 asked.line2
          (sym fresh-Inv.well_formed.line1_size) (sym fresh-Inv.well_formed.line2_size))
        fresh.asynch Screen.approval asked.approve_cb fresh.draws fresh.sent;
  asking = λ _. (Callback.erase_all_slots_approve, refl, erase_all refl refl);
}

press_answers_example :
    (t : Device) × Step toy_sdk asked t
    × (t.screen ≡ Screen.idle)
    × ((reply : List ℕ) × (t.sent ≡ reply ∷ asked.sent))
press_answers_example =
    press_answers toy_sdk toy_sdk-IsDocumented right_released asked asked-Inv refl (λ e. cc)

handle_get_key_from_name-AsksAbout_example :
    Returns
      (AsksAbout toy_sdk fresh (replicate 32 9) (codes "db"))
      (handle_get_key_from_name toy_sdk 0 0 (replicate 32 9 ++ codes "db") 0 fresh)
handle_get_key_from_name-AsksAbout_example =
    handle_get_key_from_name-AsksAbout toy_sdk fresh fresh-Inv.well_formed 0 0 (replicate 32 9)
      (codes "db") refl (omega arith) (omega arith) (unfold is_name_valid in refl)

abbrev naming : Device
naming = ask_for Callback.get_key_from_name_after_approve

-- What the small SDK derives from the name.
abbrev name_node : List ℕ
name_node = elim (toy_sdk.derive_node (derivation_path (toy_sdk.sha256 (hashed_name naming)))) [
  | Derived.raises e ↦ []
  | Derived.node key chain ↦ key
]

touch_okay-get_key_from_name_example :
    Returns
      (Sends toy_sdk toy_sdk-IsDocumented naming
        (ask_for-WellFormed Callback.get_key_from_name_after_approve)
        (toy_sdk.sha256 (name_node ++ replicate 32 5))
        (replicate 32 9))
      (touch_okay toy_sdk naming)
touch_okay-get_key_from_name_example =
    touch_okay-get_key_from_name toy_sdk toy_sdk-IsDocumented naming
      (ask_for-WellFormed Callback.get_key_from_name_after_approve) name_node (replicate 32 5) refl
      refl

-- An SDK that refuses to derive keys.
abbrev raising_sdk : Sdk
raising_sdk = record toy_sdk { derive_node = λ _. Derived.raises 4 }

raised_word : {k : ℕ} → Derived.raises 4 ≡ Derived.raises k → k ≡ 4
raised_word e = cc

raising_sdk-IsDocumented : IsDocumented raising_sdk
raising_sdk-IsDocumented = record {
  invalid_parameter_is = refl;
  io_reset_is = refl;
  buffer_size_is = refl;
  length_rng = toy_sdk-IsDocumented.length_rng;
  length_scalar_mult = toy_sdk-IsDocumented.length_scalar_mult;
  length_sha256 = toy_sdk-IsDocumented.length_sha256;
  sha256_bytes = toy_sdk-IsDocumented.sha256_bytes;
  length_blake2b = toy_sdk-IsDocumented.length_blake2b;
  length_node = λ path e. cc;
  raises_is = λ path e. omega (arith, raised_word e);
}

raising-WellFormed : WellFormed raising_sdk naming
raising-WellFormed =
    let wf = ask_for-WellFormed Callback.get_key_from_name_after_approve in
    record {
      storage = wf.storage;
      apdu_size = wf.apdu_size;
      erase_key_size = wf.erase_key_size;
      key_caller_size = wf.key_caller_size;
      name_size = wf.name_size;
      name_caller_size = wf.name_caller_size;
      line1_size = wf.line1_size;
      line2_size = wf.line2_size;
    }

touch_okay-raises_example :
    Returns (Replied raising_sdk naming (sw_bytes (status_word 4))) (touch_okay raising_sdk naming)
touch_okay-raises_example =
    touch_okay-raises raising_sdk raising_sdk-IsDocumented naming raising-WellFormed 4 refl
      (unfold derive_name_key in refl)
