-- ===== src/System/Asked.antt =====
-- A packet whose handler (app/src/instrs.c) asks the user, and the press of a button that answers
-- it, as one exchange of the library's transport.
use ledger_kee_pass.Base.{
  ℕ, ◌≡◌, ◌≤◌, refl, ◌∙◌, ap, sym, le→leb, true, some, List, ◌∷◌, ◌==◌, arith, length,
}
use mathlib.Core.Path.{subst}
use ledger_kee_pass.App.Sdk.{Sdk, IsDocumented}
use ledger_kee_pass.App.Status.{sw_bytes, status_word}
use ledger_kee_pass.App.Device.{Device, Callback, Outcome, returns, throws, fault}
use ledger_kee_pass.App.Device.WellFormed
use ledger_kee_pass.App.Device.WellFormed.{WellFormed}
use ledger_kee_pass.App.Device.Outcomes.{Returns, Returns-if, Returns-map, Returns-copy}
use ledger_kee_pass.App.Instrs.{Handler, get_handle_instr}
use ledger_kee_pass.App.Instrs.Questions.{Asks}
use ledger_kee_pass.App.Main.{send_reply, catch_apdu, append_status, received, app_main_round}
use ledger_kee_pass.App.Main.Dispatched.{packet_of, loaded, app_main_round-packet}
use ledger_kee_pass.App.Session.Safety.{returned}
use ledger_kee_pass.App.Consts.{sw_unauthorized_access}
use ledger_kee_pass.App.Approve.{
  Button, right_released, left_released, bagl_ui_approval_nanos_button, touch_okay, touch_deny,
}
use ledger_kee_pass.App.Approve.KeyReply.{Replied}
use ledger_kee_pass.App.Approve.Touch.{touch_deny-Replied}
use ledger_kee_pass.Host.Result.{success}
use ledger_kee_pass.System.Link.{answered, deliver, delivered, exchange_with}

-- The application waits for the user's answer to the question of a callback; `P` is what is known
-- of the callback's arguments.
pub record Waiting (sdk : Sdk) (d₀ : Device) (cb : Callback) (P : Device → Type 0) (sw : ℕ) (tx : ℕ)
    (d : Device) : Type 0 where
  pub well_formed : WellFormed sdk d
  pub waits : d.asynch ≡ true
  pub callback_is : d.approve_cb ≡ some cb
  pub args : P d
  pub storage_kept : d.nv ≡ d₀.nv
  pub nothing_sent : d.sent ≡ d₀.sent
  pub nothing_drawn : d.draws ≡ d₀.draws

module _ (sdk : Sdk) (doc : IsDocumented sdk) (cb : Callback) (P : Device → Type 0)
    (P_kept : (d : Device) (apdu : List ℕ) → P d → P (record d { apdu = apdu })) where
  -- The handler asked, and `P` is known.
  abbrev pub AskedFor : Device → ℕ → ℕ → Device → Type 0
  AskedFor d sw tx d' = Asks sdk cb d 0 sw tx d' × P d'

  append_status-Waiting :
      (d : Device) (sw tx : ℕ) (d' : Device)
      → AskedFor d sw tx d'
      → Returns (Waiting sdk d cb P) (append_status sdk sw tx d')
  unfolding append_status
  append_status-Waiting d sw tx d' (a, p) =
      Returns-if _ (sw == sdk.exception_io_reset) _ _
        (λ r. absurd (ground (arith, a.status_is, doc.io_reset_is)))
        λ _.
          Returns-copy _ d'.apdu tx (sw_bytes (status_word sw)) _
            (omega (arith, a.well_formed.apdu_size, doc.buffer_size_is, a.tx_kept))
            λ apdu e size. record {
              well_formed = WellFormed.apdu-WellFormed sdk d' a.well_formed apdu size;
              waits = a.asynchronous;
              callback_is = a.callback_is;
              args = P_kept d' apdu p;
              storage_kept = a.storage_kept;
              nothing_sent = a.nothing_sent;
              nothing_drawn = a.nothing_drawn;
            }

  catch_apdu-Waiting :
      (d : Device) (o : Outcome)
      → Returns (AskedFor d) o
      → Returns (Waiting sdk d cb P) (catch_apdu sdk o)
  unfolding catch_apdu
  catch_apdu-Waiting d (returns sw tx d') a = append_status-Waiting d sw tx d' a
  catch_apdu-Waiting d (throws e tx d') a = absurd a
  catch_apdu-Waiting d fault a = absurd a

  -- A round that serves a packet whose handler asks.
  pub round-Waiting :
      (d : Device) (wf : WellFormed sdk d) (ins p1 p2 : ℕ) (bytes : List ℕ) (f : Handler)
      → get_handle_instr sdk ins ≡ some f
      → length bytes ≤ 255
      → let start = loaded d (packet_of ins p1 p2 bytes) in
        Returns (AskedFor start) (f p1 p2 bytes 0 start)
        → Returns (Waiting sdk d cb P) (app_main_round sdk (received (packet_of ins p1 p2 bytes)) d)
  round-Waiting d wf ins p1 p2 bytes f known short asks =
      subst (Returns (Waiting sdk d cb P))
        (sym (app_main_round-packet sdk doc d wf ins p1 p2 bytes f known short))
        (Returns-map (Waiting sdk start cb P) (Waiting sdk d cb P)
          (catch_apdu sdk (f p1 p2 bytes 0 start))
          (λ _ _ d' w. record {
            well_formed = w.well_formed;
            waits = w.waits;
            callback_is = w.callback_is;
            args = w.args;
            storage_kept = w.storage_kept;
            nothing_sent = w.nothing_sent;
            nothing_drawn = w.nothing_drawn;
          })
          (catch_apdu-Waiting start (f p1 p2 bytes 0 start) asks))
    where
      start : Device
      start = loaded d (packet_of ins p1 p2 bytes)

  answered_waiting :
      (b : Button) (d : Device) (n sw tx sw' tx' : ℕ) (d' e : Device)
      → d'.asynch ≡ true
      → bagl_ui_approval_nanos_button sdk b d' ≡ returns sw' tx' e
      → answered sdk b n d (returns sw tx d') ≡ deliver n e
  unfolding answered delivered send_reply
  answered_waiting b d n sw tx sw' tx' d' e waits pressed = simp (waits, pressed) refl

  delivered_whole :
      (n : ℕ) (e : Device) {reply : List ℕ} {before : List (List ℕ)}
      → e.sent ≡ reply ∷ before
      → length reply ≤ n
      → deliver n e ≡ record { result = success; answer = reply; device = e }
  delivered_whole n e {reply} sent h = rw (sent, le→leb _ _ h) refl

  -- The reply to the press is what the transport brings.
  pub exchange-pressed :
      (b : Button) (d : Device) (n : ℕ) (packet reply : List ℕ) (Q : Device → Type 0)
      → Returns (Waiting sdk d cb P) (app_main_round sdk (received packet) d)
      → ((sw tx : ℕ) (d' : Device)
          → Waiting sdk d cb P sw tx d'
          → Returns
              (λ _ _ e. (e.sent ≡ reply ∷ d.sent) × Q e)
              (bagl_ui_approval_nanos_button sdk b d'))
      → length reply ≤ n
      → (e : Device) × (exchange_with sdk b n packet d
          ≡ record { result = success; answer = reply; device = e })
        × Q e
  unfolding exchange_with
  exchange-pressed b d n packet reply Q round press fits =
      let (sw, tx, d', e₁, w) =
        returned (Waiting sdk d cb P) (app_main_round sdk (received packet) d) round in
      let (sw', tx', e, e₂, both) =
        returned (λ _ _ e. (e.sent ≡ reply ∷ d.sent) × Q e) (bagl_ui_approval_nanos_button sdk b d')
          (press sw tx d' w) in
      (
        e,
        ap (answered sdk b n d) e₁
            ∙ answered_waiting b d n sw tx sw' tx' d' e w.waits e₂
            ∙ delivered_whole n e both.0 fits,
        both.1,
      )

pub right_is_okay :
    (sdk : Sdk) (d : Device) → bagl_ui_approval_nanos_button sdk right_released d ≡ touch_okay sdk d
unfolding bagl_ui_approval_nanos_button
right_is_okay sdk d = refl

pub left_is_deny :
    (sdk : Sdk) (d : Device) → bagl_ui_approval_nanos_button sdk left_released d ≡ touch_deny sdk d
unfolding bagl_ui_approval_nanos_button
left_is_deny sdk d = refl

module _ (sdk : Sdk) (doc : IsDocumented sdk) (cb : Callback) (P : Device → Type 0)
    (P_kept : (d : Device) (apdu : List ℕ) → P d → P (record d { apdu = apdu })) where
  -- A refusal brings its status word and changes no storage.
  pub exchange-refused :
      (d : Device) (n : ℕ) (packet : List ℕ)
      → Returns (Waiting sdk d cb P) (app_main_round sdk (received packet) d)
      → 2 ≤ n
      → (e : Device) × (exchange_with sdk left_released n packet d
          ≡ record { result = success; answer = sw_bytes sw_unauthorized_access; device = e })
        × (WellFormed sdk e × (e.nv ≡ d.nv))
  exchange-refused d n packet round fits =
      exchange-pressed sdk doc cb P P_kept left_released d n packet
        (sw_bytes sw_unauthorized_access) (λ e. WellFormed sdk e × (e.nv ≡ d.nv)) round
        (λ sw tx d' w.
          subst
            (Returns (λ _ _ e.
              (e.sent ≡ sw_bytes sw_unauthorized_access ∷ d.sent)
              × (WellFormed sdk e × (e.nv ≡ d.nv))))
            (sym (left_is_deny sdk d'))
            (Returns-map (Replied sdk d' (sw_bytes sw_unauthorized_access)) _ (touch_deny sdk d')
              (λ _ _ e p. (
                p.sent_is ∙ ap (λ s. sw_bytes sw_unauthorized_access ∷ s) w.nothing_sent,
                (p.well_formed, p.storage_kept ∙ w.storage_kept),
              ))
              (touch_deny-Replied sdk doc d' w.well_formed)))
        (omega arith)
