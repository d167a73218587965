-- ===== src/System/Erase.antt =====
-- `KPL::eraseAllSlots` (libkpl/src/kpl.cpp) against the application (app/src), for both answers of
-- the user.
use ledger_kee_pass.Base.{ℕ, ◌+◌, ◌*◌, ◌≡◌, refl, ◌∙◌, ap, none, true, [], ◌∷◌, arith}
use ledger_kee_pass.App.Consts.{sw_success}
use ledger_kee_pass.App.Sdk.{Sdk, IsDocumented}
use ledger_kee_pass.App.Status.{sw_bytes}
use ledger_kee_pass.App.Storage.{nv_app_state_init}
use ledger_kee_pass.App.Storage.View.{view}
use ledger_kee_pass.App.Storage.Slots.{view-nv_app_state_init_forced}
use ledger_kee_pass.App.Device.{Device, Callback}
use ledger_kee_pass.App.Device.WellFormed.{WellFormed}
use ledger_kee_pass.App.Device.Outcomes.{Returns, Returns-map}
use ledger_kee_pass.App.Instrs.{get_handle_instr, handle_erase_all_slots}
use ledger_kee_pass.App.Instrs.Questions.{handle_erase_all_slots-Asks}
use ledger_kee_pass.App.Main.{received, app_main_round}
use ledger_kee_pass.App.Main.Dispatched.{packet_of, loaded, loaded-WellFormed}
use ledger_kee_pass.App.Approve.{
  Button, right_released, left_released, bagl_ui_approval_nanos_button, touch_okay,
}
use ledger_kee_pass.App.Approve.KeyReply.{Replied}
use ledger_kee_pass.App.Approve.Touch.{erase_all_slots-Replied}
use ledger_kee_pass.Host.Result.{success, app_unauthorized_access, is_success, parse_app_sw}
use ledger_kee_pass.Host.Client.{apdu_stream, exchange, check_answer, exchange-sends}
use ledger_kee_pass.Host.Kpl.{answer_result, erase_all_slots}
use ledger_kee_pass.System.Link.{link}
use ledger_kee_pass.System.Asked.{
  Waiting, AskedFor, round-Waiting, exchange-pressed, exchange-refused, right_is_okay,
}
use ledger_kee_pass.System.Immediate.{check_answer-sized}

abbrev NothingKnown : Device → Type 0
NothingKnown d = Unit {0}

module _ (sdk : Sdk) (doc : IsDocumented sdk) (d : Device) (wf : WellFormed sdk d) where
  erase_round :
      Returns
        (Waiting sdk d Callback.erase_all_slots_approve NothingKnown)
        (app_main_round sdk (received (packet_of 5 0 0 [])) d)
  erase_round =
      round-Waiting sdk doc Callback.erase_all_slots_approve NothingKnown (λ e apdu p. tt) d wf 5 0
        0 [] handle_erase_all_slots (unfold get_handle_instr in refl) (omega arith)
        (Returns-map _
          (AskedFor sdk doc Callback.erase_all_slots_approve NothingKnown (λ e apdu p. tt) start)
          (handle_erase_all_slots 0 0 [] 0 start) (λ sw tx e a. (a, tt))
          (handle_erase_all_slots-Asks sdk start
            (loaded-WellFormed sdk doc d wf (packet_of 5 0 0 []) (omega arith)) 0 0 [] 0))
    where
      start : Device
      start = loaded d (packet_of 5 0 0 [])

  -- A status word alone comes back.
  erase_all_slots-brought :
      (b : Button) (hi lo : ℕ) (e : Device)
      → (link sdk b).exchange 3 (packet_of 5 0 0 []) d
        ≡ record { result = success; answer = hi ∷ lo ∷ []; device = e }
      → erase_all_slots (link sdk b) d ≡ (parse_app_sw (hi * 256 + lo), e)
  unfolding erase_all_slots answer_result is_success
  erase_all_slots-brought b hi lo e brought = simp whole refl
    where
      whole :
          exchange (link sdk b) 3 (apdu_stream 5 0 0) d
          ≡ record { result = success; answer = hi ∷ lo ∷ []; device = e }
      whole =
          exchange-sends (link sdk b) 3 5 0 0 [] d (omega arith)
          ∙ ap (check_answer (link sdk b)) brought
          ∙ check_answer-sized (link sdk b) (hi ∷ lo ∷ []) e (omega arith)

  approved :
      (e : Device) × (erase_all_slots (link sdk right_released) d ≡ (success, e))
      × (WellFormed sdk e × ((j : ℕ) → view e.nv j ≡ none))
  approved =
      let (e, brought, q) =
        exchange-pressed sdk doc Callback.erase_all_slots_approve NothingKnown (λ e apdu p. tt)
          right_released d 3 (packet_of 5 0 0 []) (sw_bytes sw_success)
          (λ e. WellFormed sdk e × ((j : ℕ) → view e.nv j ≡ none)) erase_round pressed
          (omega arith) in
      (e, erase_all_slots-brought right_released 0x90 0 e brought ∙ unfold parse_app_sw in refl, q)
    where
      pressed :
          (sw tx : ℕ) (d' : Device)
          → Waiting sdk d Callback.erase_all_slots_approve NothingKnown sw tx d'
          → Returns
              (λ _ _ e.
                (e.sent ≡ sw_bytes sw_success ∷ d.sent)
                × (WellFormed sdk e × ((j : ℕ) → view e.nv j ≡ none)))
              (bagl_ui_approval_nanos_button sdk right_released d')
      pressed sw tx d' w = rw (right_is_okay sdk d') (
          Returns-map
            (Replied sdk (record d' { nv = nv_app_state_init true d'.nv }) (sw_bytes sw_success)) _
            (touch_okay sdk d')
            (λ _ _ e p. (
              p.sent_is ∙ ap (λ s. sw_bytes sw_success ∷ s) w.nothing_sent,
              (
                p.well_formed,
                λ j. ap (λ st. view st j) p.storage_kept ∙ view-nv_app_state_init_forced d'.nv j,
              ),
            ))
            (erase_all_slots-Replied sdk doc d' w.well_formed w.callback_is))

  refused :
      (e : Device) × (erase_all_slots (link sdk left_released) d ≡ (app_unauthorized_access, e))
      × (WellFormed sdk e × (e.nv ≡ d.nv))
  refused =
      let (e, brought, q) =
        exchange-refused sdk doc Callback.erase_all_slots_approve NothingKnown (λ e apdu p. tt) d 3
          (packet_of 5 0 0 []) erase_round (omega arith) in
      (
        e,
        erase_all_slots-brought left_released 0x68 0x20 e brought ∙ unfold parse_app_sw in refl,
        q,
      )

  -- If the application is well-formed, `KPL::eraseAllSlots` succeeds when the user approves, and
  -- no slot holds a key then; when the user refuses it gives APP_UNAUTHORIZED_ACCESS, and the
  -- storage is as it was. The application is well-formed behind both.
  pub erase_all_slots-link :
      let (result, d₁) = erase_all_slots (link sdk right_released) d in
      let (result', d₂) = erase_all_slots (link sdk left_released) d in
      ((result ≡ success) × ((j : ℕ) → view d₁.nv j ≡ none) × WellFormed sdk d₁)
      × ((result' ≡ app_unauthorized_access) × (d₂.nv ≡ d.nv) × WellFormed sdk d₂)
  erase_all_slots-link =
      let (e, whole, (wf₁, empty)) = approved in
      let (e', whole', (wf₂, kept)) = refused in
      rw (whole, whole') ((refl, empty, wf₁), (refl, kept, wf₂))
