-- ===== src/App/Session/Safety.antt =====
-- What a host can bring about in the application (app/src/) with and without the user.
use ledger_kee_pass.Base.{
  ℕ, ◌≡◌, ◌≢◌, ◌≤◌, refl, ◌∙◌, ap, true, false, some, List, ◌∷◌, ◌⊎◌, inl, inr, arith, ◌==◌, length,
  take, length-take, length-replicate, Bool-cases, ==_iff,
}
use ledger_kee_pass.App.Sdk.{Sdk, IsDocumented}
use ledger_kee_pass.App.Storage.{Storage, nv_app_state_init}
use ledger_kee_pass.App.Storage.View.{view, IsValid, erased-IsValid}
use ledger_kee_pass.App.Device.{Device, Screen, Outcome, returns, throws, fault}
use ledger_kee_pass.App.Device.Outcomes.{Returns}
use ledger_kee_pass.App.Approve.{
  Button, right_released, left_released, other, bagl_ui_approval_nanos_button, touch_okay,
  touch_deny,
}
use ledger_kee_pass.App.Approve.Closed.{Closed, touch_deny-Closed, touch_okay-Closed}
use ledger_kee_pass.App.Main.{received, app_main_round, send_reply}
use ledger_kee_pass.App.Main.Answers.{app_main_round-Answers}
use ledger_kee_pass.App.Session.{Step, serve, press, Inv, at_start, restart-Inv, if_either}

pub returned :
    (P : ℕ → ℕ → Device → Type 0) (o : Outcome)
    → Returns P o
    → (sw tx : ℕ) × (d : Device) × (o ≡ returns sw tx d) × P sw tx d
returned P (returns sw tx d) r = (sw, tx, d, refl, r)
returned P (throws e tx d) r = absurd r
returned P fault r = absurd r

-- What happens between two states without the user's consent.
pub record Unattended (s : Device) (t : Device) : Type 0 where
  pub keys_kept : (j : ℕ) {k : List ℕ} → view s.nv j ≡ some k → view t.nv j ≡ some k
  pub nothing_drawn : t.draws ≡ s.draws
  pub reply_short :
      (t.sent ≡ s.sent) ⊎ ((reply : List ℕ) × (t.sent ≡ reply ∷ s.sent) × (length reply ≤ 5))

module _ (sdk : Sdk) (doc : IsDocumented sdk) where
  send_reply-Unattended :
      (s d : Device) (tx : ℕ)
      → tx ≤ 5
      → d.sent ≡ s.sent
      → d.draws ≡ s.draws
      → ((j : ℕ) (k : List ℕ) → view s.nv j ≡ some k → view d.nv j ≡ some k)
      → Unattended s (send_reply tx d)
  unfolding send_reply
  send_reply-Unattended s d tx short e ed keys =
      if_either (Unattended s) d.asynch d _ quiet (if_either (Unattended s) (tx == 0) d _ quiet one)
    where
      quiet : Unattended s d
      quiet = record { keys_kept = λ j {k} h. keys j k h; nothing_drawn = ed; reply_short = inl e }

      one : Unattended s (record d { sent = take tx d.apdu ∷ d.sent })
      one = record {
        keys_kept = λ j {k} h. keys j k h;
        nothing_drawn = ed;
        reply_short = inr (
          take tx d.apdu,
          ap (λ r. take tx d.apdu ∷ r) e,
          omega (arith, length-take {0} tx d.apdu),
        );
      }

  -- In a good state every packet, whatever its bytes, is served by a step, and in the state
  -- behind it every stored key is still stored, `cx_rng` was not called, and at most one reply
  -- was sent, of at most five bytes: no key leaves the device, and none is lost, without the
  -- user.
  pub packet-Unattended :
      (packet : List ℕ) (s : Device) → Inv sdk s → (t : Device) × Step sdk s t × Unattended s t
  packet-Unattended packet s inv =
      let (sw, tx, d, e, a) =
        returned _ (app_main_round sdk (received packet) s)
          (app_main_round-Answers sdk doc s inv.well_formed inv.asking packet) in
      (
        send_reply tx d,
        serve packet sw tx d e refl,
        send_reply-Unattended s d tx a.reply_size.1 a.nothing_sent a.nothing_drawn
            (λ j k h. a.keys_kept j h),
      )

  answered_by :
      (b : Button) (s : Device) (inv : Inv sdk s)
      → s.screen ≡ Screen.approval
      → (o : Outcome) → bagl_ui_approval_nanos_button sdk b s ≡ o
      → Returns (Closed sdk doc s inv.well_formed) o
      → (t : Device) × Step sdk s t
        × (t.screen ≡ Screen.idle)
        × ((reply : List ℕ) × (t.sent ≡ reply ∷ s.sent))
  answered_by b s inv on o e r =
      let (sw, tx, t, e', c) = returned _ o r in
      (t, press b sw tx on (e ∙ e'), c.menu_back, c.one_reply)

  -- In a good state with a question on the screen, both buttons lead by a step to a state with
  -- the menu back and exactly one more reply.
  pub press_answers :
      (b : Button) (s : Device)
      → Inv sdk s
      → s.screen ≡ Screen.approval
      → b ≢ other
      → (t : Device) × Step sdk s t
        × (t.screen ≡ Screen.idle)
        × ((reply : List ℕ) × (t.sent ≡ reply ∷ s.sent))
  unfolding bagl_ui_approval_nanos_button
  press_answers right_released s inv on n =
      let (cb, c, q) = inv.asking on in
      answered_by right_released s inv on (touch_okay sdk s) refl
        (touch_okay-Closed sdk doc s inv.well_formed cb c q)
  press_answers left_released s inv on n =
      answered_by left_released s inv on (touch_deny sdk s) refl
        (touch_deny-Closed sdk doc s inv.well_formed)
  press_answers other s inv on n = absurd (n refl)

-- The application starts in a good state over a storage that is valid or was never initialised.
pub at_start-Inv :
    (sdk : Sdk) (nv : Storage) → (nv.initialized ≡ 1 → IsValid nv) → Inv sdk (at_start sdk nv)
unfolding at_start
at_start-Inv sdk nv h = restart-Inv sdk _ (record {
  storage = storage (Bool-cases (nv.initialized == 1));
  apdu_size = length-replicate sdk.apdu_buffer_size 0;
  erase_key_size = refl;
  key_caller_size = refl;
  name_size = refl;
  name_caller_size = refl;
  line1_size = refl;
  line2_size = refl;
})
  where
    storage :
        ((nv.initialized == 1) ≡ true) ⊎ ((nv.initialized == 1) ≡ false)
        → IsValid (nv_app_state_init false nv)
    storage (inl e) = unfold nv_app_state_init in simp e (h ((==_iff _ _).0 e))
    storage (inr e) = unfold nv_app_state_init in simp e erased-IsValid
