-- ===== src/System/Overwrite.antt =====
-- `KPL::setKey` (libkpl/src/kpl.cpp) into a slot of the application (app/src) that holds a key, for
-- both answers of the user.
use ledger_kee_pass.Base.{
  ℕ, ◌+◌, ◌*◌, ◌<◌, ◌≡◌, refl, ◌∙◌, ap, true, false, some, List, [], ◌∷◌, ◌++◌, arith, leb, ◌==◌,
  if◌then◌else◌, length,
}
use ledger_kee_pass.App.Consts.{slot_count, key_size, sw_success}
use ledger_kee_pass.App.Sdk.{Sdk, IsDocumented}
use ledger_kee_pass.App.Status.{sw_bytes}
use ledger_kee_pass.App.Storage.{is_key_valid}
use ledger_kee_pass.App.Storage.View.{view}
use ledger_kee_pass.App.Device.{Device, Callback}
use ledger_kee_pass.App.Device.WellFormed.{WellFormed}
use ledger_kee_pass.App.Device.Outcomes.{Returns, Returns-map, Returns-both}
use ledger_kee_pass.App.Instrs.{get_handle_instr, handle_store_key}
use ledger_kee_pass.App.Instrs.Questions.{ask_erase-Asks}
use ledger_kee_pass.App.Main.{received, app_main_round}
use ledger_kee_pass.App.Main.Dispatched.{packet_of, loaded, loaded-WellFormed}
use ledger_kee_pass.App.Approve.{
  Button, right_released, left_released, bagl_ui_approval_nanos_button, touch_okay,
}
use ledger_kee_pass.App.Approve.KeyReply.{Replied}
use ledger_kee_pass.App.Approve.Touch.{erased_slot, confirm_erase-Replied, touch_okay-confirm_erase}
use ledger_kee_pass.Host.Result.{success, app_unauthorized_access, is_success, parse_app_sw}
use ledger_kee_pass.Host.Client.{apdu_stream, exchange, check_answer, exchange-sends}
use ledger_kee_pass.Host.Kpl.{answer_result, set_key}
use ledger_kee_pass.System.Link.{link}
use ledger_kee_pass.System.Asked.{
  Waiting, AskedFor, round-Waiting, exchange-pressed, exchange-refused, right_is_okay,
}
use ledger_kee_pass.System.Immediate.{check_answer-sized}

module _ (sdk : Sdk) (doc : IsDocumented sdk) (d : Device) (wf : WellFormed sdk d) (slot : ℕ)
    (key : List ℕ) (lt : slot < slot_count) (size : length key ≡ key_size)
    (full : is_key_valid d.nv slot ≡ true) where
  -- The callback will store this key into this slot.
  abbrev WillStore : Device → Type 0
  WillStore e = e.erase_args ≡ record { key = key; slot = slot }

  WillStore-kept : (e : Device) (apdu : List ℕ) → WillStore e → WillStore (record e { apdu = apdu })
  WillStore-kept e apdu p = p

  overwrite_round :
      Returns
        (Waiting sdk d Callback.confirm_erase WillStore)
        (app_main_round sdk (received (packet_of 1 slot 0 key)) d)
  overwrite_round =
      round-Waiting sdk doc Callback.confirm_erase WillStore WillStore-kept d wf 1 slot 0 key
        (handle_store_key sdk) (unfold get_handle_instr in refl) (omega arith) asks
    where
      start : Device
      start = loaded d (packet_of 1 slot 0 key)

      asks :
          Returns
            (AskedFor sdk doc Callback.confirm_erase WillStore WillStore-kept start)
            (handle_store_key sdk slot 0 key 0 start)
      asks =
          let in_range : leb slot_count slot ≡ false = ground arith in
          let whole : (length key == key_size) ≡ true = ground arith in
          unfold handle_store_key in
          rw (in_range, whole, full)
            (ask_erase-Asks sdk start
              (loaded-WellFormed sdk doc d wf (packet_of 1 slot 0 key) (omega arith)) slot key 0 lt
              size)

  -- A status word alone comes back.
  set_key-brought :
      (b : Button) (hi lo : ℕ) (e : Device)
      → (link sdk b).exchange 2 (packet_of 1 slot 0 key) d
        ≡ record { result = success; answer = hi ∷ lo ∷ []; device = e }
      → set_key (link sdk b) slot key d ≡ (parse_app_sw (hi * 256 + lo), e)
  set_key-brought b hi lo e brought =
      unfold set_key answer_result is_success in simp (sized, whole) refl
    where
      sized : (length key == key_size) ≡ true
      sized = ground arith

      whole :
          exchange (link sdk b) 2 (apdu_stream 1 slot 0 ++ key) d
          ≡ record { result = success; answer = hi ∷ lo ∷ []; device = e }
      whole =
          exchange-sends (link sdk b) 2 1 slot 0 key d (omega arith)
          ∙ ap (check_answer (link sdk b)) brought
          ∙ check_answer-sized (link sdk b) (hi ∷ lo ∷ []) e (omega arith)

  -- The slot shows the key, and every other slot what it showed.
  abbrev Overwritten : Device → Type 0
  Overwritten e = (j : ℕ) → view e.nv j ≡ (if slot == j then some key else view d.nv j)

  pressed :
      (sw tx : ℕ) (d' : Device)
      → Waiting sdk d Callback.confirm_erase WillStore sw tx d'
      → Returns
          (λ _ _ e. (e.sent ≡ sw_bytes sw_success ∷ d.sent) × (WellFormed sdk e × Overwritten e))
          (bagl_ui_approval_nanos_button sdk right_released d')
  pressed sw tx d' w = rw (right_is_okay sdk d') (
      Returns-map _ _ (touch_okay sdk d')
        (λ _ _ e p. (
          p.0.sent_is ∙ ap (λ s. sw_bytes sw_success ∷ s) w.nothing_sent,
          (p.0.well_formed, λ j. p.1.0 j ∙ shown_by j),
        ))
        (Returns-both (Replied sdk (erased_slot sdk doc d' w.well_formed) (sw_bytes sw_success)) _
          (touch_okay sdk d')
          (confirm_erase-Replied sdk doc d' w.well_formed w.callback_is in_range)
          (touch_okay-confirm_erase sdk doc d' w.well_formed w.callback_is in_range)))
    where
      slot_is : d'.erase_args.slot ≡ slot
      slot_is = ap (λ a. a.slot) w.args

      in_range : d'.erase_args.slot < slot_count
      in_range = omega (arith, slot_is)

      shown_by :
          (j : ℕ)
          → (if d'.erase_args.slot == j then some d'.erase_args.key else view d'.nv j)
            ≡ (if slot == j then some key else view d.nv j)
      shown_by j =
          ap (λ a. if a.slot == j then some a.key else view d'.nv j) w.args
          ∙ ap (λ st. if slot == j then some key else view st j) w.storage_kept

  -- If the application is well-formed and a slot in range holds a key, then `KPL::setKey` of a
  -- key of 32 bytes into that slot succeeds when the user confirms, and then the slot shows the
  -- new key and every other slot what it showed; when the user refuses it gives
  -- APP_UNAUTHORIZED_ACCESS, and the storage is as it was. The application is well-formed behind
  -- both.
  pub set_key_full :
      let (result, d₁) = set_key (link sdk right_released) slot key d in
      let (result', d₂) = set_key (link sdk left_released) slot key d in
      ((result ≡ success) × Overwritten d₁ × WellFormed sdk d₁)
      × ((result' ≡ app_unauthorized_access) × (d₂.nv ≡ d.nv) × WellFormed sdk d₂)
  set_key_full =
      let (e, brought, (wf₁, stored)) =
        exchange-pressed sdk doc Callback.confirm_erase WillStore WillStore-kept right_released d 2
          (packet_of 1 slot 0 key) (sw_bytes sw_success) (λ e. WellFormed sdk e × Overwritten e)
          overwrite_round pressed (omega arith) in
      let (e', brought', (wf₂, kept)) =
        exchange-refused sdk doc Callback.confirm_erase WillStore WillStore-kept d 2
          (packet_of 1 slot 0 key) overwrite_round (omega arith) in
      rw
        (
          set_key-brought right_released 0x90 0 e brought,
          set_key-brought left_released 0x68 0x20 e' brought',
        )
        (unfold parse_app_sw in ((refl, stored, wf₁), (refl, kept, wf₂)))
