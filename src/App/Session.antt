-- ===== src/App/Session.antt =====
-- The application as a transition system: rounds of `app_main` (app/src/main.c), presses of a button
-- while a question is on the screen (app/src/approve.c), and restarts.
pub mod Safety
use ledger_kee_pass.Base.{
  ℕ, ◌+◌, ◌-◌, ◌≡◌, ◌≤◌, ◌<◌, refl, ◌∙◌, ap, sym, Bool, true, false, Option, some, none, List, [],
  ◌∷◌, ◌⊎◌, inl, inr, arith, if◌then◌else◌, ◌==◌, length, take, blit, length-take, replicate,
  Bool-cases,
}
use mathlib.Core.Path.{subst}
use ledger_kee_pass.App.Instrs.Serves.{Displays-kept}
use ledger_kee_pass.App.Sdk.{Sdk, IsDocumented}
use ledger_kee_pass.App.Storage.{Storage, erased, nv_app_state_init}
use ledger_kee_pass.App.Storage.View.{view, IsValid, erased-IsValid, nv_app_state_init-IsValid}
use ledger_kee_pass.App.Device.{Device, Screen, Callback, Outcome, returns, throws, fault}
use ledger_kee_pass.App.Device.WellFormed
use ledger_kee_pass.App.Device.WellFormed.{WellFormed}
use ledger_kee_pass.App.Device.Outcomes.{Returns}
use ledger_kee_pass.App.Instrs.Asking.{
  IsAsking, Displays, erase_slot, open_slot, open_name, erase_all,
}
use ledger_kee_pass.App.Approve.{
  Button, right_released, left_released, other, bagl_ui_approval_nanos_button, touch_okay,
  touch_deny,
}
use ledger_kee_pass.App.Approve.KeyReply.{Replied}
use ledger_kee_pass.App.Approve.Closed.{Closed, touch_deny-Closed, touch_okay-Closed}
use ledger_kee_pass.App.Main.{received, app_main_round, send_reply, restart}
use ledger_kee_pass.App.Main.Answers.{Answers, app_main_round-Answers}

module _ (sdk : Sdk) where
  -- A step goes on only from a call that returned: a fault would leave no step.
  pub data Step (s : Device) (t : Device) : Type 0 where
    serve :
        (packet : List ℕ) (sw tx : ℕ) (d : Device)
        → app_main_round sdk (received packet) s ≡ returns sw tx d
        → t ≡ send_reply tx d
        → Step s t
    press :
        (b : Button) (sw tx : ℕ)
        → s.screen ≡ Screen.approval
        → bagl_ui_approval_nanos_button sdk b s ≡ returns sw tx t
        → Step s t
    reset : t ≡ restart s → Step s t

  pub data Reach (s : Device) : Device → Type 0 where
    here : Reach s s
    next : {t u : Device} → Reach s t → Step t u → Reach s u

  pub record Inv (d : Device) : Type 0 where
    pub well_formed : WellFormed sdk d
    pub asking : IsAsking d

  -- The statics before `main` runs, over a memory that was initialised before.
  unfoldable pub at_start : Storage → Device
  at_start nv = restart (record {
    nv = nv;
    apdu = replicate sdk.apdu_buffer_size 0;
    asynch = false;
    erase_args = record { key = replicate 32 0; slot = 0 };
    key_args = record { caller_pub = replicate 32 0; slot = 0 };
    name_args = record { name = replicate 27 0; caller_pub = replicate 32 0; name_len = 0 };
    line1 = replicate 32 0;
    line2 = replicate 32 0;
    screen = Screen.idle;
    approve_cb = none;
    draws = 0;
    sent = [];
  })

pub if_either : (P : Device → Type 0) (b : Bool) (x y : Device) → P x → P y → P (if b then x else y)
if_either P true x y p q = p
if_either P false x y p q = q

returned_same : {s t : Device} {sw tx : ℕ} → returns 0 0 s ≡ returns sw tx t → s ≡ t
returned_same e = cc

not_idle : Screen.idle ≡ Screen.approval → ⊥
not_idle e = cc

-- `main` before `app_main` leaves the menu on the screen.
pub restart-Inv :
    (sdk : Sdk) (d : Device)
    → WellFormed sdk (record d { nv = nv_app_state_init false d.nv })
    → Inv sdk (restart d)
unfolding restart
restart-Inv sdk d wf = record {
  well_formed = WellFormed.flags-WellFormed sdk _ wf false Screen.idle d.approve_cb d.draws d.sent;
  asking = λ on. absurd (not_idle on);
}

module _ (sdk : Sdk) (doc : IsDocumented sdk) where
  pub sent_reply-Inv :
      (tx : ℕ) (d : Device) → WellFormed sdk d → IsAsking d → Inv sdk (send_reply tx d)
  unfolding send_reply
  sent_reply-Inv tx d wf asking =
      if_either (Inv sdk) d.asynch d _ kept (if_either (Inv sdk) (tx == 0) d _ kept sent_one)
    where
      kept : Inv sdk d
      kept = record { well_formed = wf; asking = asking }

      sent_one : Inv sdk (record d { sent = take tx d.apdu ∷ d.sent })
      sent_one = record {
        well_formed =
            WellFormed.flags-WellFormed sdk d wf d.asynch d.screen d.approve_cb d.draws
              (take tx d.apdu ∷ d.sent);
        asking = λ on.
            let (cb, e, q) = asking on in
            (
              cb,
              e,
              Displays-kept d (record d { sent = take tx d.apdu ∷ d.sent }) cb refl refl refl refl
                  refl (λ _ v. v) q,
            );
      }

  closed-Inv :
      (s : Device) (wf : WellFormed sdk s) (o : Outcome) {sw tx : ℕ} {t : Device}
      → Returns (Closed sdk doc s wf) o
      → o ≡ returns sw tx t
      → Inv sdk t
  closed-Inv s wf o {sw} {tx} {t} r e =
      let c : Closed sdk doc s wf sw tx t = subst (Returns (Closed sdk doc s wf)) e r in
      record {
        well_formed = c.well_formed;
        asking = λ on. absurd (not_idle (sym c.menu_back ∙ on));
      }

  pub press-Inv :
      (b : Button) (sw tx : ℕ) (s t : Device)
      → s.screen ≡ Screen.approval
      → bagl_ui_approval_nanos_button sdk b s ≡ returns sw tx t
      → Inv sdk s
      → Inv sdk t
  unfolding bagl_ui_approval_nanos_button
  press-Inv right_released sw tx s t on e inv =
      let (cb, c, q) = inv.asking on in
      closed-Inv s inv.well_formed (touch_okay sdk s)
        (touch_okay-Closed sdk doc s inv.well_formed cb c q) e
  press-Inv left_released sw tx s t on e inv =
      closed-Inv s inv.well_formed (touch_deny sdk s) (touch_deny-Closed sdk doc s inv.well_formed)
        e
  press-Inv other sw tx s t on e inv = subst (Inv sdk) (returned_same e) inv

  pub answered :
      (packet : List ℕ) (s d : Device) (sw tx : ℕ)
      → Inv sdk s
      → app_main_round sdk (received packet) s ≡ returns sw tx d
      → Answers sdk (record s { apdu = blit s.apdu 0 packet; asynch = false }) sw tx d
  answered packet s d sw tx inv e =
      subst (Returns (Answers sdk (record s { apdu = blit s.apdu 0 packet; asynch = false }))) e
        (app_main_round-Answers sdk doc s inv.well_formed inv.asking packet)

  -- Every step keeps the arrays' sizes, a valid storage, and a truthful question on the screen.
  pub Step-Inv : {s t : Device} → Step sdk s t → Inv sdk s → Inv sdk t
  Step-Inv {s} (serve packet sw tx d e te) inv =
      let a = answered packet s d sw tx inv e in rw te (sent_reply-Inv tx d a.well_formed a.asking)
  Step-Inv {s} {t} (press b sw tx on e) inv = press-Inv b sw tx s t on e inv
  Step-Inv {s} (reset e) inv = rw e (
      restart-Inv sdk s (
        WellFormed.nv-WellFormed sdk s inv.well_formed _
          (nv_app_state_init-IsValid false s.nv inv.well_formed.storage)))

  -- From a good state the application reaches good states only, by any packets, presses and
  -- restarts in any order: the sizes of the arrays hold, the storage is valid, and a question on
  -- the screen is about what the callback that is set will use.
  pub Reach-Inv : {s t : Device} → Inv sdk s → Reach sdk s t → Inv sdk t
  Reach-Inv inv here = inv
  Reach-Inv inv (next r st) = Step-Inv st (Reach-Inv inv r)
