-- ===== src/App/Approve/Closed.antt =====
-- Every answer of the user ends (app/src/approve.c): one reply is sent and the menu is back.
use ledger_kee_pass.Base.{ℕ, ◌≡◌, ◌<◌, refl, ◌∙◌, ap, true, some, List, ◌∷◌, ◌++◌, lt→ltb}
use ledger_kee_pass.App.Consts.{slot_count, sw_unauthorized_access}
use ledger_kee_pass.App.Sdk.{Sdk, IsDocumented, Derived}
use ledger_kee_pass.App.Status.{sw_bytes}
use ledger_kee_pass.App.Storage.{is_key_valid, key_at, nv_app_state_init}
use ledger_kee_pass.App.Storage.View.{view}
use ledger_kee_pass.App.Device.{Device, Screen, Callback, Outcome}
use ledger_kee_pass.App.Device.WellFormed.{WellFormed}
use ledger_kee_pass.App.Device.Outcomes.{Returns, Returns-map}
use ledger_kee_pass.App.Instrs.{derive_name_key}
use ledger_kee_pass.App.Instrs.Asking.{
  hashed_name, Displays, erase_slot, open_slot, open_name, erase_all,
}
use ledger_kee_pass.App.Approve.{touch_okay, touch_deny}
use ledger_kee_pass.App.Approve.KeyReply.{Replied, drawn}
use ledger_kee_pass.App.Approve.Touch.{
  erased_slot, confirm_erase-Replied, erase_all_slots-Replied, key_of, touch_deny-Replied,
  get_key-Replied, get_key_from_name-Replied, touch_okay-raises,
}

module _ (sdk : Sdk) (doc : IsDocumented sdk) (d : Device) (wf : WellFormed sdk d) where
  -- The slot in the question holds a key.
  pub held_key :
      d.key_args.slot < slot_count
      → is_key_valid d.nv d.key_args.slot ≡ true
      → view d.nv d.key_args.slot ≡ some (key_at d.nv d.key_args.slot).bytes
  unfolding view
  held_key lt valid = rw (lt→ltb _ _ lt, valid)

  -- How the answer to any question ends.
  pub record Closed (sw : ℕ) (tx : ℕ) (d' : Device) : Type 0 where
    pub well_formed : WellFormed sdk d'
    pub menu_back : d'.screen ≡ Screen.idle
    pub one_reply : (reply : List ℕ) × (d'.sent ≡ reply ∷ d.sent)

  closed :
      (d₁ : Device) (reply : List ℕ) (o : Outcome)
      → d₁.sent ≡ d.sent
      → Returns (Replied sdk d₁ reply) o
      → Returns Closed o
  closed d₁ reply o e r =
      Returns-map (Replied sdk d₁ reply) Closed o
        (λ _ _ d' p. record {
          well_formed = p.well_formed;
          menu_back = p.menu_back;
          one_reply = (reply, p.sent_is ∙ rw e);
        })
        r

  pub touch_deny-Closed : Returns Closed (touch_deny sdk d)
  touch_deny-Closed =
      closed d (sw_bytes sw_unauthorized_access) (touch_deny sdk d) refl
        (touch_deny-Replied sdk doc d wf)

  name-Closed :
      d.approve_cb ≡ some Callback.get_key_from_name_after_approve
      → Returns Closed (touch_okay sdk d)
  name-Closed cb = go (derive_name_key sdk (hashed_name d)) refl
    where
      go :
          (r : Derived)
          → derive_name_key sdk (hashed_name d) ≡ r
          → Returns Closed (touch_okay sdk d)
      go (Derived.raises e) h =
          closed d _ (touch_okay sdk d) refl (touch_okay-raises sdk doc d wf e cb h)
      go (Derived.node priv chain) h = closed (drawn d) _ (touch_okay sdk d) refl (
          get_key_from_name-Replied sdk doc d wf (sdk.sha256 (priv ++ chain)) cb
            (ap (key_of sdk doc d wf) h))

  -- With its question on the screen, every callback is answered by one reply, and the menu is back.
  pub touch_okay-Closed :
      (cb : Callback) → d.approve_cb ≡ some cb → Displays d cb → Returns Closed (touch_okay sdk d)
  touch_okay-Closed _ e (erase_slot lt _ _) =
      closed (erased_slot sdk doc d wf) _ (touch_okay sdk d) refl
        (confirm_erase-Replied sdk doc d wf e lt)
  touch_okay-Closed _ e (open_slot lt valid _ _) =
      closed (drawn d) _ (touch_okay sdk d) refl
        (get_key-Replied sdk doc d wf (key_at d.nv d.key_args.slot).bytes e (held_key lt valid))
  touch_okay-Closed _ e (open_name _ _ _ _ _ _ _) = name-Closed e
  touch_okay-Closed _ e (erase_all _ _) =
      closed (record d { nv = nv_app_state_init true d.nv }) _ (touch_okay sdk d) refl
        (erase_all_slots-Replied sdk doc d wf e)
