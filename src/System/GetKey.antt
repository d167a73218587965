-- ===== src/System/GetKey.antt =====
-- GET_KEY from end to end: the packet of `KPL::getKey` (libkpl/src/kpl.cpp) against the application
-- (app/src), for both answers of the user.
use ledger_kee_pass.Base.{
  ℕ, ◌≡◌, ◌≤◌, refl, ◌∙◌, ap, ap₂, false, ◌||◌, some, List, ◌∷◌, ◌==◌, leb, arith, length,
}
use mathlib.Core.Bool.{not}
use ledger_kee_pass.App.Consts.{slot_count, sw_unauthorized_access}
use ledger_kee_pass.App.Sdk.{Sdk, IsDocumented}
use ledger_kee_pass.App.Status.{sw_bytes}
use ledger_kee_pass.App.Storage.View.{view, view-eq-some}
use ledger_kee_pass.App.Device.{Device, Callback}
use ledger_kee_pass.App.Device.WellFormed.{WellFormed}
use ledger_kee_pass.App.Device.Outcomes.{Returns, Returns-map}
use ledger_kee_pass.App.Instrs.{handle_get_key, get_handle_instr}
use ledger_kee_pass.App.Instrs.Questions.{ask_open_slot-Asks}
use ledger_kee_pass.App.Main.{received, app_main_round}
use ledger_kee_pass.App.Main.Dispatched.{packet_of, loaded, loaded-WellFormed}
use ledger_kee_pass.App.Curve.{Encrypted, x25519_encrypt_kp_key}
use ledger_kee_pass.App.Approve.{
  left_released, right_released, bagl_ui_approval_nanos_button, touch_okay,
}
use ledger_kee_pass.App.Approve.KeyReply.{Replied, drawn, key_reply}
use ledger_kee_pass.App.Approve.Touch.{get_key-Replied}
use ledger_kee_pass.Host.Result.{success}
use ledger_kee_pass.System.Link.{exchange_with}
use ledger_kee_pass.System.Asked.{
  Waiting, AskedFor, round-Waiting, exchange-pressed, exchange-refused, right_is_okay,
}

abbrev pub get_key_packet : ℕ → List ℕ → List ℕ
get_key_packet slot pub_key = packet_of 2 slot 0 pub_key

module _ (sdk : Sdk) (doc : IsDocumented sdk) (d : Device) (wf : WellFormed sdk d) (slot : ℕ)
    (pub_key key : List ℕ) (size : length pub_key ≡ 32) (held : view d.nv slot ≡ some key) where
  -- The callback will open this slot for this public key.
  abbrev WillOpen : Device → Type 0
  WillOpen e = e.key_args ≡ record { caller_pub = pub_key; slot = slot }

  WillOpen-kept : (e : Device) (apdu : List ℕ) → WillOpen e → WillOpen (record e { apdu = apdu })
  WillOpen-kept e apdu p = p

  get_key_round :
      Returns
        (Waiting sdk d Callback.get_key_after_approve WillOpen)
        (app_main_round sdk (received (get_key_packet slot pub_key)) d)
  get_key_round =
      round-Waiting sdk doc Callback.get_key_after_approve WillOpen WillOpen-kept d wf 2 slot 0
        pub_key (handle_get_key sdk) (unfold get_handle_instr in refl) (omega (arith, size)) asks
    where
      start : Device
      start = loaded d (get_key_packet slot pub_key)

      asks :
          Returns
            (AskedFor sdk doc Callback.get_key_after_approve WillOpen WillOpen-kept start)
            (handle_get_key sdk slot 0 pub_key 0 start)
      asks =
          let (lt, valid, _) = view-eq-some d.nv slot held in
          let in_range : (leb slot_count slot || not (length pub_key == 32)) ≡ false =
            ground arith in
          unfold handle_get_key in
          rw (in_range, valid)
            (ask_open_slot-Asks sdk start
              (loaded-WellFormed sdk doc d wf (get_key_packet slot pub_key) (omega (arith, size)))
              slot pub_key 0 lt size valid)

  abbrev encrypted : Encrypted sdk
  encrypted = x25519_encrypt_kp_key sdk key pub_key (sdk.rng d.draws 32)

  -- The application behind an answer: well-formed, with the storage as it was.
  abbrev Kept : Device → Type 0
  Kept e = WellFormed sdk e × (e.nv ≡ d.nv)

  pressed :
      (sw tx : ℕ) (d' : Device)
      → Waiting sdk d Callback.get_key_after_approve WillOpen sw tx d'
      → Returns
          (λ _ _ e. (e.sent ≡ key_reply sdk encrypted ∷ d.sent) × Kept e)
          (bagl_ui_approval_nanos_button sdk right_released d')
  pressed sw tx d' w = rw (right_is_okay sdk d') (
      Returns-map
        (Replied sdk (drawn d') (
          key_reply sdk
            (x25519_encrypt_kp_key sdk key d'.key_args.caller_pub (sdk.rng d'.draws 32))))
        _ (touch_okay sdk d')
        (λ _ _ e p. (
          p.sent_is
              ∙ ap₂ ◌∷◌
                  (ap₂ (λ c n. key_reply sdk (x25519_encrypt_kp_key sdk key c (sdk.rng n 32)))
                    (ap (λ a. a.caller_pub) w.args) w.nothing_drawn)
                  w.nothing_sent,
          (p.well_formed, p.storage_kept ∙ w.storage_kept),
        ))
        (get_key-Replied sdk doc d' w.well_formed key w.callback_is
          (ap₂ view w.storage_kept (ap (λ a. a.slot) w.args) ∙ held)))

  -- When the user approves, the transport brings the slot's key, encrypted.
  pub exchange-replies :
      length (key_reply sdk encrypted) ≤ 66
      → (e : Device) × (exchange_with sdk right_released 66 (get_key_packet slot pub_key) d
          ≡ record { result = success; answer = key_reply sdk encrypted; device = e })
        × (WellFormed sdk e × (e.nv ≡ d.nv))
  exchange-replies fits =
      exchange-pressed sdk doc Callback.get_key_after_approve WillOpen WillOpen-kept right_released
        d 66 (get_key_packet slot pub_key) (key_reply sdk encrypted) Kept get_key_round pressed fits

  -- When the user refuses, it brings the status word of a refusal.
  pub exchange-refuses :
      (e : Device) × (exchange_with sdk left_released 66 (get_key_packet slot pub_key) d
        ≡ record { result = success; answer = sw_bytes sw_unauthorized_access; device = e })
      × (WellFormed sdk e × (e.nv ≡ d.nv))
  exchange-refuses =
      exchange-refused sdk doc Callback.get_key_after_approve WillOpen WillOpen-kept d 66
        (get_key_packet slot pub_key) get_key_round (omega arith)
