-- ===== src/Tests/Device.antt =====
-- The properties of the application (app/src/), each at a concrete input.
use ledger_kee_pass.Base.{
  ℕ, ◌≡◌, ◌⊎◌, refl, sym, false, some, List, [], ◌∷◌, arith, replicate, take, blit, ◌==◌,
  if◌then◌else◌,
}
use ledger_kee_pass.App.Consts.{key_size, sw_success, sw_unauthorized_access}
use ledger_kee_pass.App.Storage.{
  Storage, erased, set_key_as_valid, store_key_slot, store_key_slot_writes, run_writes, write_key,
  nv_app_state_init,
}
use ledger_kee_pass.App.Storage.View.{IsValid, view, erased-IsValid}
use ledger_kee_pass.App.Storage.Slots.{
  store_key_slot-IsValid, view-store_key_slot, store_key_slot_power_cut,
}
use ledger_kee_pass.App.Curve.{reverse_bytes}
use ledger_kee_pass.App.Curve.Reverse.{reverse_bytes-eq-reverse}
use ledger_kee_pass.App.Device.{Device, Screen, Callback}
use ledger_kee_pass.App.Device.WellFormed
use ledger_kee_pass.App.Device.WellFormed.{WellFormed}
use ledger_kee_pass.App.Device.Outcomes.{Returns}
use ledger_kee_pass.App.Status.{sw_bytes}
use ledger_kee_pass.App.Approve.{touch_okay, touch_deny}
use ledger_kee_pass.App.Approve.KeyReply.{Replied}
use ledger_kee_pass.App.Approve.Touch.{touch_deny-Replied, touch_okay-confirm_erase}
use ledger_kee_pass.App.Approve.Sends.{Sends, touch_okay-get_key}
use ledger_kee_pass.App.Main.{app_main_round, received, restart}
use ledger_kee_pass.App.Main.Answers.{Answers, app_main_round-Answers}
use ledger_kee_pass.App.Session.{Step, Inv, at_start}
use ledger_kee_pass.App.Session.Safety.{Unattended, packet-Unattended, at_start-Inv}
use ledger_kee_pass.Tests.Toy.{toy_sdk, toy_sdk-IsDocumented}

abbrev pub some_key : List ℕ
some_key = replicate 32 0xAB

-- A memory with a key in slot 3.
abbrev pub one_key : Storage
one_key = store_key_slot 3 some_key erased

pub one_key-IsValid : IsValid one_key
one_key-IsValid =
    store_key_slot-IsValid 3 some_key erased erased-IsValid (omega arith) (omega arith)

abbrev pub fresh : Device
fresh = at_start toy_sdk one_key

pub fresh-Inv : Inv toy_sdk fresh
fresh-Inv = at_start-Inv toy_sdk one_key (λ _. one_key-IsValid)

-- GET_KEY for slot 3, with a public key of 32 bytes.
abbrev pub get_key_packet : List ℕ
get_key_packet = 0xE0 ∷ 2 ∷ 3 ∷ 0 ∷ 32 ∷ replicate 32 9

view-store_key_slot_example : view (store_key_slot 3 some_key erased) 3 ≡ some some_key
view-store_key_slot_example =
    view-store_key_slot 3 some_key erased erased-IsValid (omega arith) (omega arith) 3

store_key_slot_power_cut_example :
    ((j : ℕ)
      → view (run_writes (take 1 (store_key_slot_writes 3 some_key)) erased) j ≡ view erased j)
    ⊎ ((j : ℕ)
        → view (run_writes (take 1 (store_key_slot_writes 3 some_key)) erased) j
          ≡ view (store_key_slot 3 some_key erased) j)
store_key_slot_power_cut_example =
    store_key_slot_power_cut 3 some_key erased erased-IsValid (omega arith) (omega arith) 1

reverse_bytes-eq-reverse_example : reverse_bytes 1 4 (2 ∷ 5 ∷ 6 ∷ 7 ∷ []) ≡ 2 ∷ 7 ∷ 6 ∷ 5 ∷ []
reverse_bytes-eq-reverse_example =
    reverse_bytes-eq-reverse (2 ∷ []) (5 ∷ 6 ∷ 7 ∷ []) {first = 1} {last = 4} refl refl

packet-Unattended_example : (t : Device) × Step toy_sdk fresh t × Unattended fresh t
packet-Unattended_example =
    packet-Unattended toy_sdk toy_sdk-IsDocumented get_key_packet fresh fresh-Inv

-- A question for a slot, a name and an erasure, and an SDK that refuses to derive keys.
abbrev pub ask_for : Callback → Device
ask_for cb = record fresh {
  key_args = record { caller_pub = replicate 32 9; slot = 3 };
  name_args = record { name = replicate 27 0x61; caller_pub = replicate 32 9; name_len = 12 };
  erase_args = record { key = replicate 32 1; slot = 3 };
  approve_cb = some cb;
  screen = Screen.approval;
}

pub ask_for-WellFormed : (cb : Callback) → WellFormed toy_sdk (ask_for cb)
ask_for-WellFormed cb =
    let wf = fresh-Inv.well_formed in
    let args =
      WellFormed.key_args-WellFormed toy_sdk fresh wf (replicate 32 9) 3 (sym wf.key_caller_size) in
    let named =
      WellFormed.name_args-WellFormed toy_sdk _ args (replicate 27 0x61) (replicate 32 9) 12
        (sym wf.name_size) (sym wf.name_caller_size) in
    let erasing = WellFormed.erase_args-WellFormed toy_sdk _ named (replicate 32 1) 3 refl in
    WellFormed.flags-WellFormed toy_sdk _ erasing fresh.asynch Screen.approval (some cb) fresh.draws
      fresh.sent

pub fresh_held : view fresh.nv 3 ≡ some some_key
unfolding at_start restart nv_app_state_init store_key_slot set_key_as_valid write_key
fresh_held = view-store_key_slot 3 some_key erased erased-IsValid (omega arith) (omega arith) 3

held : view (ask_for Callback.get_key_after_approve).nv 3 ≡ some some_key
held = fresh_held

touch_deny-Replied_example :
    Returns
      (Replied toy_sdk (ask_for Callback.confirm_erase) (sw_bytes sw_unauthorized_access))
      (touch_deny toy_sdk (ask_for Callback.confirm_erase))
touch_deny-Replied_example =
    touch_deny-Replied toy_sdk toy_sdk-IsDocumented (ask_for Callback.confirm_erase)
      (ask_for-WellFormed Callback.confirm_erase)

touch_okay-get_key_example :
    let d = ask_for Callback.get_key_after_approve in
    Returns
      (Sends toy_sdk toy_sdk-IsDocumented d
        (ask_for-WellFormed Callback.get_key_after_approve)
        some_key
        (replicate 32 9))
      (touch_okay toy_sdk d)
touch_okay-get_key_example =
    touch_okay-get_key toy_sdk toy_sdk-IsDocumented (ask_for Callback.get_key_after_approve)
      (ask_for-WellFormed Callback.get_key_after_approve) some_key refl held

touch_okay-confirm_erase_example :
    let d = ask_for Callback.confirm_erase in
    Returns
      (λ _ _ d'.
        ((j : ℕ) → view d'.nv j ≡ (if 3 == j then some (replicate 32 1) else view d.nv j))
        × (d'.erase_args ≡ record { key = replicate key_size 0; slot = 0 })
        × (d'.sent ≡ sw_bytes sw_success ∷ d.sent)
        × (d'.screen ≡ Screen.idle))
      (touch_okay toy_sdk d)
touch_okay-confirm_erase_example =
    touch_okay-confirm_erase toy_sdk toy_sdk-IsDocumented (ask_for Callback.confirm_erase)
      (ask_for-WellFormed Callback.confirm_erase) refl (omega arith)

app_main_round-Answers_example :
    Returns
      (Answers toy_sdk (record fresh { apdu = blit fresh.apdu 0 get_key_packet; asynch = false }))
      (app_main_round toy_sdk (received get_key_packet) fresh)
app_main_round-Answers_example =
    app_main_round-Answers toy_sdk toy_sdk-IsDocumented fresh fresh-Inv.well_formed fresh-Inv.asking
      get_key_packet
