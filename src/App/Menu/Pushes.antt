-- ===== src/App/Menu/Pushes.antt =====
-- What a push of a button (app/src/menu.c, app/src/approve.c) leaves of a good state.
use ledger_kee_pass.Base.{ℕ, ◌≡◌, refl, ◌∙◌, sym, some, List, ◌⊎◌, inl, inr}
use ledger_kee_pass.App.Sdk.{Sdk, IsDocumented}
use ledger_kee_pass.App.Storage.View.{view}
use ledger_kee_pass.App.Device.{Device, Screen, Outcome, returns, throws, fault}
use ledger_kee_pass.App.Device.WellFormed.{WellFormed}
use ledger_kee_pass.App.Device.Outcomes.{Returns, Returns-map}
use ledger_kee_pass.App.Approve.{bagl_ui_approval_nanos_button, touch_okay, touch_deny}
use ledger_kee_pass.App.Approve.Touch.{touch_deny-Replied}
use ledger_kee_pass.App.Approve.Closed.{touch_okay-Closed}
use ledger_kee_pass.App.Session.{Inv}
use ledger_kee_pass.App.Menu.{
  MenuStep, logo, version, quit_step, Mask, left_mask, right_mask, both_mask, other_mask, Moved,
  shows, validates, Flow, button_of_mask, Pushed, stays, push_throws, quits, push_faults, validated,
  moved, after_button, push_on, push,
}

-- Every key that is stored stays so, and `cx_rng` is not called.
pub record KeysKept (s : Device) (t : Device) : Type 0 where
  pub keys : (j : ℕ) {k : List ℕ} → view s.nv j ≡ some k → view t.nv j ≡ some k
  pub draws : t.draws ≡ s.draws

pub KeysKept-refl : (d : Device) → KeysKept d d
KeysKept-refl d = record { keys = λ j h. h; draws = refl }

pub KeysKept-trans : {s t u : Device} → KeysKept s t → KeysKept t u → KeysKept s u
KeysKept-trans a b = record { keys = λ j h. b.keys j (a.keys j h); draws = b.draws ∙ a.draws }

-- The user quits: this mask validates the menu's last step.
abbrev pub Leaves : Flow → Mask → Type 0
Leaves flow b = flow.moves quit_step b ≡ validates

-- A push in the state `d` ends without an exception or a fault, in a good state; without the right
-- button alone no key is lost, and it quits only from the menu's last step.
abbrev pub PushesWell : Sdk → Flow → Mask → MenuStep → Device → Pushed → Type 0
PushesWell sdk flow b step d (stays next t) = Inv sdk t × ((b ≡ right_mask) ⊎ KeysKept d t)
PushesWell sdk flow b step d (push_throws e t) = ⊥
PushesWell sdk flow b step d (quits t) =
    (t ≡ d) × (d.screen ≡ Screen.idle) × (step ≡ quit_step) × Leaves flow b
PushesWell sdk flow b step d push_faults = ⊥

back-Inv : {sdk : Sdk} {d : Device} → WellFormed sdk d → d.screen ≡ Screen.idle → Inv sdk d
back-Inv wf menu = record { well_formed = wf; asking = λ on. absurd (not_idle (sym menu ∙ on)) }
  where
    not_idle : Screen.idle ≡ Screen.approval → ⊥
    not_idle e = cc

module _ (sdk : Sdk) (doc : IsDocumented sdk) (flow : Flow) (d : Device) (inv : Inv sdk d) where
  after_button-PushesWell :
      (b : Mask) (step : MenuStep) (o : Outcome)
      → Returns (λ sw tx t. Inv sdk t × ((b ≡ right_mask) ⊎ KeysKept d t)) o
      → PushesWell sdk flow b step d (after_button o)
  unfolding after_button
  after_button-PushesWell b step (returns sw tx t) r = r
  after_button-PushesWell b step (throws e tx t) r = absurd r
  after_button-PushesWell b step fault r = absurd r

  on_question :
      (b : Mask)
      → d.screen ≡ Screen.approval
      → Returns
          (λ sw tx t. Inv sdk t × ((b ≡ right_mask) ⊎ KeysKept d t))
          (bagl_ui_approval_nanos_button sdk (button_of_mask b) d)
  unfolding bagl_ui_approval_nanos_button
  on_question right_mask on =
      let (cb, c, q) = inv.asking on in
      Returns-map _ _ (touch_okay sdk d)
        (λ sw tx t r. (back-Inv r.well_formed r.menu_back, inl refl))
        (touch_okay-Closed sdk doc d inv.well_formed cb c q)
  on_question left_mask on =
      Returns-map _ _ (touch_deny sdk d)
        (λ sw tx t r. (
          back-Inv r.well_formed r.menu_back,
          inr (record { keys = λ j h. rw r.storage_kept h; draws = r.draws_kept }),
        ))
        (touch_deny-Replied sdk doc d inv.well_formed)
  on_question both_mask on = (inv, inr (KeysKept-refl d))
  on_question other_mask on = (inv, inr (KeysKept-refl d))

  on_menu :
      (b : Mask) (step : MenuStep) (m : Moved)
      → d.screen ≡ Screen.idle
      → flow.moves step b ≡ m
      → PushesWell sdk flow b step d (moved step m d)
  unfolding moved validated
  on_menu b step (shows next) idle e = (inv, inr (KeysKept-refl d))
  on_menu b logo validates idle e = (inv, inr (KeysKept-refl d))
  on_menu b version validates idle e = (inv, inr (KeysKept-refl d))
  on_menu b quit_step validates idle e = (refl, idle, refl, e)

  push_on-PushesWell :
      (b : Mask) (step : MenuStep) (v : Screen)
      → d.screen ≡ v
      → PushesWell sdk flow b step d (push_on sdk flow v b step d)
  unfolding push_on
  push_on-PushesWell b step Screen.idle e = on_menu b step (flow.moves step b) e refl
  push_on-PushesWell b step Screen.approval e =
      after_button-PushesWell b step (bagl_ui_approval_nanos_button sdk (button_of_mask b) d)
        (on_question b e)

  pub push-PushesWell :
      (b : Mask) (step : MenuStep) → PushesWell sdk flow b step d (push sdk flow b step d)
  unfolding push
  push-PushesWell b step = push_on-PushesWell b step d.screen refl
