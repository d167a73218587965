-- ===== src/App/Approve/Touch.antt =====
-- What the user's answer does, for each question of app/src/instrs.c: `touch_okay` and
-- `touch_deny` of app/src/approve.c.
use ledger_kee_pass.Base.{
  ℕ, ◌≡◌, ◌<◌, refl, ◌∙◌, ap, sym, true, Option, some, none, List, ◌∷◌, ◌++◌, if◌then◌else◌, arith,
  ◌==◌, lt→ltb, length, take, take_all, replicate, some_inj,
}
use ledger_kee_pass.App.Consts.{key_size, slot_count, sw_success, sw_unauthorized_access}
use ledger_kee_pass.App.Sdk.{Sdk, IsDocumented, Derived}
use ledger_kee_pass.App.Status.{status_word, sw_bytes}
use ledger_kee_pass.App.Storage.{key_at, store_key_slot, nv_app_state_init}
use ledger_kee_pass.App.Storage.View.{view, view-eq-some, nv_app_state_init-IsValid}
use ledger_kee_pass.App.Storage.Slots.{
  view-store_key_slot, store_key_slot-IsValid, view-nv_app_state_init_forced,
}
use ledger_kee_pass.App.Curve.{x25519_encrypt_kp_key}
use ledger_kee_pass.App.Device.{Device, Screen, Callback, Outcome, fault}
use ledger_kee_pass.App.Device.WellFormed
use ledger_kee_pass.App.Device.WellFormed.{WellFormed}
use ledger_kee_pass.App.Device.Outcomes.{Returns, Returns-copy, Returns-map, copied_prefix}
use ledger_kee_pass.App.Instrs.{
  handle_store_key_confirm_erase, handle_get_key_after_approve,
  handle_get_key_from_name_after_approve, handle_erase_all_slots_approve, run_callback,
  derive_name_key, reply_derived,
}
use ledger_kee_pass.App.Instrs.Asking.{hashed_name}
use ledger_kee_pass.App.Approve.{caught, touch_okay, touch_deny}
use ledger_kee_pass.App.Approve.KeyReply.{
  Replied, key_reply, drawn, caught-copy, reply_status-Replied,
}
use ledger_kee_pass.App.Approve.KeyReply.Sealed.{encrypt_and_reply-Replied}

module _ (sdk : Sdk) (doc : IsDocumented sdk) (d : Device) (wf : WellFormed sdk d) where
  -- A refusal in a well-formed state sends the status word 0x6820 alone, draws no random bytes,
  -- and changes neither the storage nor the arguments of the callbacks.
  pub touch_deny-Replied :
      Returns (Replied sdk d (sw_bytes sw_unauthorized_access)) (touch_deny sdk d)
  unfolding touch_deny
  touch_deny-Replied =
      Returns-copy _ d.apdu 0 (sw_bytes sw_unauthorized_access) _
        (omega (arith, wf.apdu_size, doc.buffer_size_is))
        λ apdu e size. record {
          well_formed =
              WellFormed.flags-WellFormed sdk (record d { apdu = apdu })
                (WellFormed.apdu-WellFormed sdk d wf apdu size) d.asynch Screen.idle d.approve_cb
                d.draws (take 2 apdu ∷ d.sent);
          sent_is =
              ap (λ r. r ∷ d.sent)
                (ap (λ t. take 2 t) e
                  ∙ copied_prefix d.apdu (sw_bytes sw_unauthorized_access) 0
                      (omega (arith, wf.apdu_size, doc.buffer_size_is)) {n = 2} refl);
          menu_back = refl;
          flags_kept = refl;
          storage_kept = refl;
          draws_kept = refl;
          args_kept = (refl, refl, refl);
        }

  touch_okay_runs :
      {cb : Callback}
      → d.approve_cb ≡ some cb
      → touch_okay sdk d ≡ caught sdk (run_callback sdk cb d)
  unfolding touch_okay
  touch_okay_runs e =
      ap {B = Outcome}
        (λ o. elim o [ none ↦ fault | some cb' ↦ caught sdk (run_callback sdk cb' d) ]) e

  -- The state of the storage and of the arguments behind the confirmation of `handleStoreKey`.
  abbrev pub erased_slot : Device
  erased_slot = record d {
    nv = store_key_slot d.erase_args.slot d.erase_args.key d.nv;
    erase_args = record { key = replicate key_size 0; slot = 0 };
  }

  pub confirm_erase-Replied :
      d.approve_cb ≡ some Callback.confirm_erase
      → d.erase_args.slot < slot_count
      → Returns (Replied sdk erased_slot (sw_bytes sw_success)) (touch_okay sdk d)
  unfolding caught run_callback handle_store_key_confirm_erase status_word
  confirm_erase-Replied cb h = rw (touch_okay_runs cb) (
      reply_status-Replied sdk doc sw_success 0 erased_slot
        (WellFormed.erase_args-WellFormed sdk _
          (WellFormed.nv-WellFormed sdk d wf _ (
            store_key_slot-IsValid d.erase_args.slot d.erase_args.key d.nv wf.storage h
              (omega (arith, wf.erase_key_size))))
          (replicate key_size 0) 0 refl)
        (omega arith) (omega arith))

  -- When the user confirms that a slot in range is overwritten, that slot holds the key that came
  -- with the request, every other slot shows what it showed, the key is wiped from the arguments,
  -- and the reply is the status word 0x9000.
  pub touch_okay-confirm_erase :
      d.approve_cb ≡ some Callback.confirm_erase
      → d.erase_args.slot < slot_count
      → Returns
          (λ _ _ d'.
            ((j : ℕ)
              → view d'.nv j
                ≡ (if d.erase_args.slot == j then some d.erase_args.key else view d.nv j))
            × (d'.erase_args ≡ record { key = replicate key_size 0; slot = 0 })
            × (d'.sent ≡ sw_bytes sw_success ∷ d.sent)
            × (d'.screen ≡ Screen.idle))
          (touch_okay sdk d)
  touch_okay-confirm_erase cb h =
      Returns-map (Replied sdk erased_slot (sw_bytes sw_success)) _ (touch_okay sdk d)
        (λ _ _ d' p. (
          λ j. ap (λ st. view st j) p.storage_kept ∙ stored j,
          p.args_kept.0,
          p.sent_is,
          p.menu_back,
        ))
        (confirm_erase-Replied cb h)
    where
      stored :
          (j : ℕ)
          → view (store_key_slot d.erase_args.slot d.erase_args.key d.nv) j
            ≡ (if d.erase_args.slot == j then some d.erase_args.key else view d.nv j)
      stored j =
          view-store_key_slot d.erase_args.slot d.erase_args.key d.nv wf.storage h
            (omega (arith, wf.erase_key_size)) j
          ∙ rw (take_all d.erase_args.key {n = 32} (omega (arith, wf.erase_key_size)))

  pub erase_all_slots-Replied :
      d.approve_cb ≡ some Callback.erase_all_slots_approve
      → Returns
          (Replied sdk (record d { nv = nv_app_state_init true d.nv }) (sw_bytes sw_success))
          (touch_okay sdk d)
  unfolding caught run_callback handle_erase_all_slots_approve status_word
  erase_all_slots-Replied cb = rw (touch_okay_runs cb) (
      reply_status-Replied sdk doc sw_success 0 (record d { nv = nv_app_state_init true d.nv })
        (WellFormed.nv-WellFormed sdk d wf _ (nv_app_state_init-IsValid true d.nv wf.storage))
        (omega arith) (omega arith))

  -- When the user approves the erasure of all slots, no slot holds a key, the reply is the status
  -- word 0x9000 and the menu is back.
  pub touch_okay-erase_all_slots :
      d.approve_cb ≡ some Callback.erase_all_slots_approve
      → Returns
          (λ _ _ d'.
            ((j : ℕ) → view d'.nv j ≡ none)
            × (d'.sent ≡ sw_bytes sw_success ∷ d.sent)
            × (d'.screen ≡ Screen.idle))
          (touch_okay sdk d)
  touch_okay-erase_all_slots cb =
      Returns-map
        (Replied sdk (record d { nv = nv_app_state_init true d.nv }) (sw_bytes sw_success)) _
        (touch_okay sdk d)
        (λ _ _ d' p. (
          λ j. ap (λ st. view st j) p.storage_kept ∙ view-nv_app_state_init_forced d.nv j,
          p.sent_is,
          p.menu_back,
        ))
        (erase_all_slots-Replied cb)

  -- the approval of GET_KEY for a slot that holds a key
  pub get_key-Replied :
      (key : List ℕ)
      → d.approve_cb ≡ some Callback.get_key_after_approve
      → view d.nv d.key_args.slot ≡ some key
      → Returns
          (Replied sdk (drawn d) (
            key_reply sdk
              (x25519_encrypt_kp_key sdk key d.key_args.caller_pub (sdk.rng d.draws 32))))
          (touch_okay sdk d)
  unfolding caught run_callback handle_get_key_after_approve
  get_key-Replied key cb held =
      let (lt, valid, is_key) = view-eq-some d.nv d.key_args.slot held in
      let size : length key ≡ 32 = ap length (sym is_key) ∙ wf.storage.key_sizes d.key_args.slot in
      let whole : take 32 (key_at d.nv d.key_args.slot).bytes ≡ key =
        ap (λ t. take 32 t) is_key ∙ take_all key {n = 32} (omega arith) in
      rw (touch_okay_runs cb, lt→ltb _ _ lt, valid, whole)
        (caught-copy sdk _ d.apdu 32 key _ (omega (arith, wf.apdu_size, doc.buffer_size_is))
          λ apdu e _.
            encrypt_and_reply-Replied sdk doc d key apdu d.key_args.caller_pub wf size
              wf.key_caller_size e)

  -- The key that belongs to a name: `none` where the SDK raises an exception.
  abbrev pub key_of : Derived → Option (List ℕ)
  key_of (Derived.node key chain) = some (sdk.sha256 (key ++ chain))
  key_of (Derived.raises e) = none

  derived-Replied :
      (r : Derived) (key : List ℕ)
      → key_of r ≡ some key
      → Returns
          (Replied sdk (drawn d) (
            key_reply sdk
              (x25519_encrypt_kp_key sdk key d.name_args.caller_pub (sdk.rng d.draws 32))))
          (caught sdk (reply_derived sdk d r))
  unfolding caught reply_derived
  derived-Replied (Derived.raises e) key h = cc
  derived-Replied (Derived.node priv chain) key h =
      let size : length key ≡ 32 =
        ap length (sym (some_inj h)) ∙ doc.length_sha256 (priv ++ chain) in
      rw (some_inj h) (
        caught-copy sdk _ d.apdu 32 key _ (omega (arith, wf.apdu_size, doc.buffer_size_is))
          λ apdu e _.
            encrypt_and_reply-Replied sdk doc d key apdu d.name_args.caller_pub wf size
              wf.name_caller_size e)

  -- the approval of GET_KEY_FROM_NAME for a name that has a key
  pub get_key_from_name-Replied :
      (key : List ℕ)
      → d.approve_cb ≡ some Callback.get_key_from_name_after_approve
      → key_of (derive_name_key sdk (hashed_name d)) ≡ some key
      → Returns
          (Replied sdk (drawn d) (
            key_reply sdk
              (x25519_encrypt_kp_key sdk key d.name_args.caller_pub (sdk.rng d.draws 32))))
          (touch_okay sdk d)
  unfolding run_callback handle_get_key_from_name_after_approve
  get_key_from_name-Replied key cb derived =
      rw (touch_okay_runs cb) (derived-Replied (derive_name_key sdk (hashed_name d)) key derived)

  -- When the user approves the question of GET_KEY_FROM_NAME and the SDK raises an exception
  -- while it derives the key, the reply is the exception's status word alone, and no random bytes
  -- are drawn.
  pub touch_okay-raises :
      (e : ℕ)
      → d.approve_cb ≡ some Callback.get_key_from_name_after_approve
      → derive_name_key sdk (hashed_name d) ≡ Derived.raises e
      → Returns (Replied sdk d (sw_bytes (status_word e))) (touch_okay sdk d)
  unfolding caught run_callback handle_get_key_from_name_after_approve reply_derived derive_name_key
  touch_okay-raises e cb raised =
      rw (touch_okay_runs cb, raised)
        (reply_status-Replied sdk doc e 0 d wf (omega arith)
          (omega (arith, doc.io_reset_is, doc.raises_is _ raised)))
