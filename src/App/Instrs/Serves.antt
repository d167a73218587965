-- ===== src/App/Instrs/Serves.antt =====
-- What every handler of app/src/instrs.c guarantees, whatever the packet holds: no fault, no key
-- lost, nothing sent, no key computed, and a truthful question wherever one is on the screen.
use ledger_kee_pass.Base.{
  ℕ, ◌≡◌, ◌≤◌, ◌<◌, ◌≢◌, refl, ◌∙◌, true, some, List, arith, length, inl, inr, ◌⊎◌,
}
use ledger_kee_pass.App.Consts.{slot_count, sw_success}
use ledger_kee_pass.App.Sdk.{Sdk, IsDocumented}
use ledger_kee_pass.App.Storage.{is_key_valid}
use ledger_kee_pass.App.Storage.View.{view}
use ledger_kee_pass.App.Device.{Device, Screen, Callback}
use ledger_kee_pass.App.Device.WellFormed
use ledger_kee_pass.App.Device.WellFormed.{WellFormed}
use ledger_kee_pass.App.Instrs.Asking.{
  hashed_name, Displays, erase_slot, open_slot, open_name, erase_all, IsAsking,
}
use ledger_kee_pass.App.Instrs.Questions.{Asks}

-- A question stays true while what it names stays.
pub Displays-kept :
    (d d' : Device) (cb : Callback)
    → d'.erase_args.slot ≡ d.erase_args.slot
    → d'.key_args.slot ≡ d.key_args.slot
    → hashed_name d' ≡ hashed_name d
    → d'.line1 ≡ d.line1
    → d'.line2 ≡ d.line2
    → (d.key_args.slot < slot_count
        → is_key_valid d.nv d.key_args.slot ≡ true
        → is_key_valid d'.nv d.key_args.slot ≡ true)
    → Displays d cb
    → Displays d' cb
Displays-kept d d' _ es ks hn l1 l2 v (erase_slot a b c) =
    erase_slot (rw es a) (rw (es, l1) b) (rw l2 c)
Displays-kept d d' _ es ks hn l1 l2 v (open_slot a b c e) =
    open_slot (rw ks a) (rw ks (v a b)) (rw l1 c) (rw (ks, l2) e)
Displays-kept d d' _ es ks hn l1 l2 v (open_name n a b c e f g) =
    open_name n a b c (hn ∙ e) (rw l1 f) (rw l2 g)
Displays-kept d d' _ es ks hn l1 l2 v (erase_all a b) = erase_all (rw l1 a) (rw l2 b)

pub record Serves (sdk : Sdk) (d₀ : Device) (sw : ℕ) (tx : ℕ) (d : Device) : Type 0 where
  pub well_formed : WellFormed sdk d
  pub asking : IsAsking d
  pub reply_short : tx ≤ 3
  pub status_fits : sw < 65536
  pub no_reset : sw ≢ sdk.exception_io_reset
  pub keys_kept : (j : ℕ) {k : List ℕ} → view d₀.nv j ≡ some k → view d.nv j ≡ some k
  pub waits_for_user : d.asynch ≡ true → (d₀.asynch ≡ true) ⊎ (d.screen ≡ Screen.approval)
  pub nothing_sent : d.sent ≡ d₀.sent
  pub nothing_drawn : d.draws ≡ d₀.draws

module _ (sdk : Sdk) (doc : IsDocumented sdk) (d : Device) (wf : WellFormed sdk d)
    (asking : IsAsking d) where
  pub Asks-Serves :
      (cb : Callback) (sw tx : ℕ) (d' : Device) → Asks sdk cb d 0 sw tx d' → Serves sdk d sw tx d'
  Asks-Serves cb sw tx d' a = record {
    well_formed = a.well_formed;
    asking = λ _. (cb, a.callback_is, a.question);
    reply_short = omega (arith, a.tx_kept);
    status_fits = omega (arith, a.status_is);
    no_reset = omega (arith, a.status_is, doc.io_reset_is);
    keys_kept = λ j h. rw a.storage_kept h;
    waits_for_user = λ _. inr a.on_screen;
    nothing_sent = a.nothing_sent;
    nothing_drawn = a.nothing_drawn;
  }

  -- A handler that refuses, or that answers from the buffer alone.
  pub unchanged-Serves : (sw tx : ℕ) → tx ≤ 3 → sw < 65536 → sw ≢ 16 → Serves sdk d sw tx d
  unchanged-Serves sw tx h s r = record {
    well_formed = wf;
    asking = asking;
    reply_short = h;
    status_fits = s;
    no_reset = rw doc.io_reset_is r;
    keys_kept = λ j k. k;
    waits_for_user = λ a. inl a;
    nothing_sent = refl;
    nothing_drawn = refl;
  }

  pub apdu-Serves :
      (apdu : List ℕ) (tx : ℕ)
      → length apdu ≡ length d.apdu
      → tx ≤ 3
      → Serves sdk d sw_success tx (record d { apdu = apdu })
  apdu-Serves apdu tx size h = record {
    well_formed = WellFormed.apdu-WellFormed sdk d wf apdu size;
    asking = λ on.
        let (cb, e, q) = asking on in
        (
          cb,
          e,
          Displays-kept d (record d { apdu = apdu }) cb refl refl refl refl refl (λ _ v. v) q,
        );
    reply_short = h;
    status_fits = omega arith;
    no_reset = omega (arith, doc.io_reset_is);
    keys_kept = λ j k. k;
    waits_for_user = λ a. inl a;
    nothing_sent = refl;
    nothing_drawn = refl;
  }
