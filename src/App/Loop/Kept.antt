-- ===== src/App/Loop/Kept.antt =====
-- What one event in the life of `main` (app/src/main.c) leaves: a good state of `app_main`, and every
-- key unless the user consents.
use ledger_kee_pass.Base.{
  ℕ, ◌≡◌, ◌≢◌, ◌<◌, refl, ◌∙◌, Bool, true, false, List, [], ◌∷◌, arith, ◌==◌, if◌then◌else◌, inr,
  ◌⊎◌,
}
use mathlib.Core.Bool.{not}
use ledger_kee_pass.App.Sdk.{Sdk, IsDocumented}
use ledger_kee_pass.App.Storage.{nv_app_state_init}
use ledger_kee_pass.App.Storage.View.{nv_app_state_init-IsValid}
use ledger_kee_pass.App.Device.{Device, Outcome, returns, throws, fault}
use ledger_kee_pass.App.Device.WellFormed
use ledger_kee_pass.App.Device.WellFormed.{WellFormed}
use ledger_kee_pass.App.Device.Outcomes.{Returns}
use ledger_kee_pass.App.Instrs.Asking.{IsAsking}
use ledger_kee_pass.App.Instrs.Serves.{Displays-kept, unchanged-Serves}
use ledger_kee_pass.App.Main.{
  received, raised, app_main_round, report, append_status, send_reply, restart,
}
use ledger_kee_pass.App.Main.Answers.{Answers, append_status-Answers, app_main_round-Answers}
use ledger_kee_pass.App.Session.{Inv, restart-Inv, sent_reply-Inv, if_either}
use ledger_kee_pass.App.Menu.{
  MenuStep, logo, right_mask, Flow, Pushed, stays, push_throws, quits, push_faults, push,
}
use ledger_kee_pass.App.Menu.Pushes.{KeysKept, KeysKept-refl, Leaves, PushesWell, push-PushesWell}
use ledger_kee_pass.App.Loop.{
  Event, packet, failure, button, Running, running, exited, quit, crashed, left_app_main,
  after_round, after_push, happens,
}

-- An exception is a number of 16 bits.
abbrev pub IsWord : Event → Type 0
IsWord (packet p) = Unit {0}
IsWord (failure e) = e < 65536
IsWord (button b) = Unit {0}

abbrev pub Consents : Event → Type 0
Consents (packet p) = ⊥
Consents (failure e) = ⊥
Consents (button b) = b ≡ right_mask

-- The user quits by the menu.
abbrev pub Quits : Flow → Event → Type 0
Quits flow (packet p) = ⊥
Quits flow (failure e) = ⊥
Quits flow (button b) = Leaves flow b

abbrev pub Each : (Event → Type 0) → List Event → Type 0
Each P [] = Unit {0}
Each P (ev ∷ evs) = P ev × Each P evs

abbrev pub Somewhere : (Event → Type 0) → List Event → Type 0
Somewhere P [] = ⊥
Somewhere P (ev ∷ evs) = P ev ⊎ Somewhere P evs

-- `main` is in `app_main`, in a good state that satisfies `P`, or the user has quit in such a state,
-- and then `Q` holds.
abbrev pub Goes : Sdk → (Device → Type 0) → Type 0 → Running → Type 0
Goes sdk P Q (running step d) = Inv sdk d × P d
Goes sdk P Q exited = ⊥
Goes sdk P Q (quit d) = (Inv sdk d × P d) × Q
Goes sdk P Q crashed = ⊥

pub Goes-map :
    (sdk : Sdk) (P P' : Device → Type 0) (Q Q' : Type 0) (m : Running)
    → ((d : Device) → P d → P' d)
    → (Q → Q')
    → Goes sdk P Q m
    → Goes sdk P' Q' m
Goes-map sdk P P' Q Q' (running step d) f g (inv, p) = (inv, f d p)
Goes-map sdk P P' Q Q' exited f g h = h
Goes-map sdk P P' Q Q' (quit d) f g ((inv, p), q) = ((inv, f d p), g q)
Goes-map sdk P P' Q Q' crashed f g h = h

module _ (sdk : Sdk) (doc : IsDocumented sdk) (s : Device) where
  sent_reply-KeysKept : (tx : ℕ) (d : Device) → KeysKept s d → KeysKept s (send_reply tx d)
  unfolding send_reply
  sent_reply-KeysKept tx d k =
      if_either (KeysKept s) d.asynch d _ k
        (if_either (KeysKept s) (tx == 0) d _ k (record { keys = k.keys; draws = k.draws }))

  answered-Goes :
      (d₀ : Device) (o : Outcome)
      → KeysKept s d₀
      → Returns (Answers sdk d₀) o
      → (step : MenuStep) → Goes sdk (KeysKept s) ⊥ (after_round sdk step o)
  unfolding after_round
  answered-Goes d₀ (returns sw tx d) k a step = (
    sent_reply-Inv sdk doc tx d a.well_formed a.asking,
    sent_reply-KeysKept tx d
        (record { keys = λ j h. a.keys_kept j (k.keys j h); draws = a.nothing_drawn ∙ k.draws }),
  )
  answered-Goes d₀ (throws e tx d) k r step = absurd r
  answered-Goes d₀ fault k r step = absurd r

module _ (sdk : Sdk) (doc : IsDocumented sdk) (d : Device) (inv : Inv sdk d) where
  restarted-KeysKept : KeysKept d (restart d)
  unfolding restart nv_app_state_init
  restarted-KeysKept = record {
    keys = λ j h. simp inv.well_formed.storage.is_initialized h;
    draws = refl;
  }

  restarted-Goes : Goes sdk (KeysKept d) ⊥ (running logo (restart d))
  restarted-Goes = (
    restart-Inv sdk d (
        WellFormed.nv-WellFormed sdk d inv.well_formed _
          (nv_app_state_init-IsValid false d.nv inv.well_formed.storage)),
    restarted-KeysKept,
  )

  -- The state in which an exception is reported.
  abbrev flagged : Bool → Device
  flagged b = record d { asynch = b }

  flagged-IsAsking : (b : Bool) → IsAsking (flagged b)
  flagged-IsAsking b on =
      let (cb, e, q) = inv.asking on in
      (cb, e, Displays-kept d (flagged b) cb refl refl refl refl refl (λ _ v. v) q)

  reported-Returns :
      (e : ℕ) (b : Bool)
      → e < 65536
      → e ≢ 16
      → Returns (Answers sdk (flagged b)) (append_status sdk e 0 (flagged b))
  reported-Returns e b fits n = append_status-Answers sdk doc (flagged b) e 0 (flagged b) (
      unchanged-Serves sdk doc (flagged b)
        (WellFormed.flags-WellFormed sdk d inv.well_formed b d.screen d.approve_cb d.draws d.sent)
        (flagged-IsAsking b) e 0 (omega arith) fits n)

  flagged-KeysKept : (b : Bool) → KeysKept d (flagged b)
  flagged-KeysKept b = record { keys = λ j h. h; draws = refl }

  raised-Goes :
      (e : ℕ)
      → e < 65536
      → (step : MenuStep)
      → Goes sdk (KeysKept d) ⊥ (after_round sdk step (app_main_round sdk (raised e) d))
  unfolding app_main_round report after_round left_app_main
  raised-Goes e fits step = either (e == sdk.exception_io_reset) refl
    where
      other_than : (e == sdk.exception_io_reset) ≡ false → e ≢ 16
      other_than r eq = ground (arith, doc.io_reset_is)

      either :
          (b : Bool)
          → (e == sdk.exception_io_reset) ≡ b
          → Goes sdk (KeysKept d) ⊥ (
              after_round sdk step (
                if b
                then throws e 0 d
                else append_status sdk e 0
                    (flagged (if not (e == 0x9000) then false else d.asynch))))
      either true r = simp r restarted-Goes
      either false r =
          let b = if not (e == 0x9000) then false else d.asynch in
          answered-Goes sdk doc d (flagged b) _ (flagged-KeysKept b)
            (reported-Returns e b fits (other_than r)) step

module _ (sdk : Sdk) (doc : IsDocumented sdk) (flow : Flow) where
  pub event-Goes :
      (ev : Event) (step : MenuStep) (d : Device)
      → IsWord ev
      → Inv sdk d
      → Goes sdk (λ t. Consents ev ⊎ KeysKept d t) (Quits flow ev) (happens sdk flow ev step d)
  unfolding happens after_push
  event-Goes (packet p) step d w inv =
      Goes-map sdk (KeysKept d) _ ⊥ _ (after_round sdk step (app_main_round sdk (received p) d))
        (λ t k. inr k) (λ q. q)
        (answered-Goes sdk doc d _ _ (record { keys = λ j h. h; draws = refl })
          (app_main_round-Answers sdk doc d inv.well_formed inv.asking p) step)
  event-Goes (failure e) step d w inv =
      Goes-map sdk (KeysKept d) _ ⊥ _ (after_round sdk step (app_main_round sdk (raised e) d))
        (λ t k. inr k) (λ q. q) (raised-Goes sdk doc d inv e w step)
  event-Goes (button b) step d w inv =
      pushed (push sdk flow b step d) (push-PushesWell sdk doc flow d inv b step)
    where
      pushed :
          (p : Pushed)
          → PushesWell sdk flow b step d p
          → Goes sdk
              (λ t. Consents (button b) ⊎ KeysKept d t)
              (Quits flow (button b))
              (after_push sdk step p)
      pushed (stays next t) g = g
      pushed (push_throws e t) g = absurd g
      pushed (quits t) (same, _, _, leaves) = rw same ((inv, inr (KeysKept-refl d)), leaves)
      pushed push_faults g = absurd g
