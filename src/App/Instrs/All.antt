-- ===== src/App/Instrs/All.antt =====
-- Every handler of app/src/instrs.c serves its packet safely.
use ledger_kee_pass.Base.{
  ℕ, ◌≡◌, ◌<◌, ◌≤◌, refl, ◌∙◌, Bool, true, false, ◌||◌, Option, some, none, List, [], ◌∷◌,
  if◌then◌else◌, arith, ◌==◌, leb, ltb, length, take, drop, inl, length-take, length-drop,
}
use mathlib.Core.Bool.{not}
use mathlib.Core.Path.{subst}
use ledger_kee_pass.App.Consts.{key_size, max_name_size, slot_count, sw_success, x25519_pt_size}
use ledger_kee_pass.App.Sdk.{Sdk, IsDocumented}
use ledger_kee_pass.App.Storage.{is_key_valid, store_key_slot}
use ledger_kee_pass.App.Storage.Slots.{
  view-store_key_slot_other, store_key_slot-IsValid, is_key_valid-store_key_slot,
}
use ledger_kee_pass.App.Device.{Device, Callback, Outcome, returns, throws, fault}
use ledger_kee_pass.App.Device.WellFormed
use ledger_kee_pass.App.Device.WellFormed.{WellFormed}
use ledger_kee_pass.App.Device.Outcomes.{
  Ends, Ends-copy, Ends-if, Ends-map, Returns, Returns-map, Returns→Ends,
}
use ledger_kee_pass.App.Instrs.Handlers.{
  Handler, is_name_valid, handle_get_app_configuration, handle_store_key, handle_get_key,
  handle_get_key_from_name, handle_get_valid_slots, handle_erase_all_slots, ask_erase,
  ask_open_slot, ask_open_name, get_handle_instr,
}
use ledger_kee_pass.App.Instrs.Asking.{IsAsking}
use ledger_kee_pass.App.Instrs.Questions.{
  Asks, handle_erase_all_slots-Asks, ask_erase-Asks, ask_open_slot-Asks, ask_open_name-Asks,
}
use ledger_kee_pass.App.Instrs.Serves.{
  Serves, Displays-kept, Asks-Serves, unchanged-Serves, apdu-Serves,
}

module _ (sdk : Sdk) (doc : IsDocumented sdk) (d : Device) (wf : WellFormed sdk d)
    (asking : IsAsking d) (p1 p2 : ℕ) (payload : List ℕ) where
  -- A handler that asks serves its packet.
  asked-Serves : (cb : Callback) (o : Outcome) → Returns (Asks sdk cb d 0) o → Ends (Serves sdk d) o
  asked-Serves cb (returns sw tx d') a = Asks-Serves sdk doc d wf asking cb sw tx d' a
  asked-Serves cb (throws e tx d') a = absurd a
  asked-Serves cb fault a = absurd a

  get_app_configuration-Serves :
      Ends (Serves sdk d) (handle_get_app_configuration p1 p2 payload 0 d)
  unfolding handle_get_app_configuration
  get_app_configuration-Serves =
      Ends-copy _ d.apdu 0 (0 ∷ 3 ∷ 0 ∷ []) _ (omega (arith, wf.apdu_size, doc.buffer_size_is))
        λ apdu e s. apdu-Serves sdk doc d wf asking apdu 3 s (omega arith)

  get_valid_slots-Serves : Ends (Serves sdk d) (handle_get_valid_slots p1 p2 payload 0 d)
  unfolding handle_get_valid_slots
  get_valid_slots-Serves =
      Ends-copy _ d.apdu 0 (d.nv.key_valids ∷ []) _
        (omega (arith, wf.apdu_size, doc.buffer_size_is))
        λ apdu e s. apdu-Serves sdk doc d wf asking apdu 1 s (omega arith)

  erase_all_slots-Serves : Ends (Serves sdk d) (handle_erase_all_slots p1 p2 payload 0 d)
  erase_all_slots-Serves =
      asked-Serves Callback.erase_all_slots_approve (handle_erase_all_slots p1 p2 payload 0 d)
        (handle_erase_all_slots-Asks sdk d wf p1 p2 payload 0)

  refused-Serves : Serves sdk d sdk.invalid_parameter 0 d
  refused-Serves =
      unchanged-Serves sdk doc d wf asking _ 0 (omega arith)
        (omega (arith, doc.invalid_parameter_is)) (omega (arith, doc.invalid_parameter_is))

  -- `storeKeySlot` into an empty slot.
  stored-Serves :
      p1 < slot_count
      → length payload ≡ key_size
      → is_key_valid d.nv p1 ≡ false
      → Serves sdk d sw_success 0 (record d { nv = store_key_slot p1 payload d.nv })
  stored-Serves h size empty = record {
    well_formed =
        WellFormed.nv-WellFormed sdk d wf _
          (store_key_slot-IsValid p1 payload d.nv wf.storage h (omega arith));
    asking = λ on.
        let (cb, e, q) = asking on in
        (
          cb,
          e,
          Displays-kept d (record d { nv = store_key_slot p1 payload d.nv }) cb refl refl refl refl
              refl
              (λ lt v.
                is_key_valid-store_key_slot p1 d.key_args.slot payload d.nv wf.storage h
                  (omega arith) lt
                ∙ ground arith)
              q,
        );
    reply_short = omega arith;
    status_fits = omega arith;
    no_reset = omega (arith, doc.io_reset_is);
    keys_kept =
        λ j held. view-store_key_slot_other p1 j payload d.nv wf.storage h (omega arith) empty held;
    waits_for_user = λ a. inl a;
    nothing_sent = refl;
    nothing_drawn = refl;
  }

  store_key-Serves : Ends (Serves sdk d) (handle_store_key sdk p1 p2 payload 0 d)
  unfolding handle_store_key
  store_key-Serves =
      Ends-if _ (leb slot_count p1) _ _ (λ _. refused-Serves)
        λ h.
          Ends-if _ (not (length payload == key_size)) _ _ (λ _. refused-Serves)
            λ size.
              Ends-if _ (is_key_valid d.nv p1) _ _
                (λ valid. asked-Serves Callback.confirm_erase (ask_erase sdk p1 payload 0 d) (
                  Returns-map _ _ (ask_erase sdk p1 payload 0 d) (λ _ _ _ a. a.0)
                    (ask_erase-Asks sdk d wf p1 payload 0 (ground arith) (ground arith))))
                (λ empty. stored-Serves (ground arith) (ground arith) empty)

  get_key-Serves : Ends (Serves sdk d) (handle_get_key sdk p1 p2 payload 0 d)
  unfolding handle_get_key
  get_key-Serves =
      Ends-if _ (leb slot_count p1 || not (length payload == x25519_pt_size)) _ _
        (λ _. refused-Serves)
        λ h.
          Ends-if _ (not (is_key_valid d.nv p1)) _ _
            (λ _.
              unchanged-Serves sdk doc d wf asking _ 0 (omega arith) (omega arith) (omega arith))
            (λ v. asked-Serves Callback.get_key_after_approve (ask_open_slot sdk p1 payload 0 d) (
              Returns-map _ _ (ask_open_slot sdk p1 payload 0 d) (λ _ _ _ a. a.0)
                (ask_open_slot-Asks sdk d wf p1 payload 0 (ground arith) (ground arith)
                  (ground arith))))

  -- The state in which `handleGetKeyFromName` tests the name.
  abbrev with_caller : List ℕ → Device
  with_caller caller = record d { name_args = record d.name_args { caller_pub = caller } }

  from_with_caller :
      (caller : List ℕ) (sw tx : ℕ) (d' : Device)
      → Serves sdk (with_caller caller) sw tx d'
      → Serves sdk d sw tx d'
  from_with_caller caller sw tx d' s = record {
    well_formed = s.well_formed;
    asking = s.asking;
    reply_short = s.reply_short;
    status_fits = s.status_fits;
    no_reset = s.no_reset;
    keys_kept = s.keys_kept;
    waits_for_user = s.waits_for_user;
    nothing_sent = s.nothing_sent;
    nothing_drawn = s.nothing_drawn;
  }

  with_caller-IsAsking : (caller : List ℕ) → IsAsking (with_caller caller)
  with_caller-IsAsking caller on =
      let (cb, e, q) = asking on in
      (cb, e, Displays-kept d (with_caller caller) cb refl refl refl refl refl (λ _ v. v) q)

  with_name-Serves :
      (caller : List ℕ)
      → WellFormed sdk (with_caller caller)
      → 1 ≤ length (drop 32 payload)
      → length (drop 32 payload) ≤ max_name_size
      → is_name_valid (drop 32 payload) ≡ true
      → Ends
          (Serves sdk (with_caller caller))
          (ask_open_name sdk (drop 32 payload) 0 (with_caller caller))
  with_name-Serves caller wf' some_name short valid =
      Ends-map _ _ _
        (λ sw tx d' a.
          Asks-Serves sdk doc (with_caller caller) wf' (with_caller-IsAsking caller)
            Callback.get_key_from_name_after_approve sw tx d' a)
        (Returns→Ends (Asks sdk Callback.get_key_from_name_after_approve (with_caller caller) 0)
          (ask_open_name sdk (drop 32 payload) 0 (with_caller caller))
          (ask_open_name-Asks sdk (with_caller caller) wf' (drop 32 payload) 0 some_name short
            valid))

  get_key_from_name-Serves : Ends (Serves sdk d) (handle_get_key_from_name sdk p1 p2 payload 0 d)
  unfolding handle_get_key_from_name
  get_key_from_name-Serves =
      Ends-if _ (leb (length payload) 32 || ltb 52 (length payload)) _ _ (λ _. refused-Serves)
        λ h.
          Ends-copy _ d.name_args.caller_pub 0 (take 32 payload) _
            (omega (arith, wf.name_caller_size, length-take {0} 32 payload))
            λ caller e s.
              let wf' =
                WellFormed.name_args-WellFormed sdk d wf d.name_args.name caller
                  d.name_args.name_len refl s in
              let size = length-drop {0} 32 payload in
              Ends-if _ (not (is_name_valid (drop 32 payload))) _ _
                (λ _. from_with_caller caller _ _ _ (
                  unchanged-Serves sdk doc (with_caller caller) wf' (with_caller-IsAsking caller) _
                    0 (omega arith) (omega arith) (omega arith)))
                (λ v.
                  Ends-map _ _ (ask_open_name sdk (drop 32 payload) 0 (with_caller caller))
                    (from_with_caller caller)
                    (with_name-Serves caller wf' (ground arith) (ground arith) (ground arith)))

  abbrev ServesIfAny : Option Handler → Type 0
  ServesIfAny none = Unit {0}
  ServesIfAny (some f) = Ends (Serves sdk d) (f p1 p2 payload 0 d)

  one_of :
      (b : Bool) (f : Handler) (rest : Option Handler)
      → Ends (Serves sdk d) (f p1 p2 payload 0 d)
      → ServesIfAny rest
      → ServesIfAny (if b then some f else rest)
  one_of true f rest h k = h
  one_of false f rest h k = k

  -- Every entry of the table `Funcs` serves its packet safely.
  get_handle_instr-Serves : (ins : ℕ) → ServesIfAny (get_handle_instr sdk ins)
  unfolding get_handle_instr
  get_handle_instr-Serves ins = one_of (ins == 0) _ _ get_app_configuration-Serves (
      one_of (ins == 1) _ _ store_key-Serves (
        one_of (ins == 2) _ _ get_key-Serves (
          one_of (ins == 3) _ _ get_key_from_name-Serves (
            one_of (ins == 4) _ _ get_valid_slots-Serves
              (one_of (ins == 5) _ _ erase_all_slots-Serves tt)))))

  -- A handler that `getHandleInstr` finds ends with no fault, in a state that serves the caller.
  pub handler-Serves :
      (ins : ℕ) (f : Handler)
      → get_handle_instr sdk ins ≡ some f
      → Ends (Serves sdk d) (f p1 p2 payload 0 d)
  handler-Serves ins f e = subst ServesIfAny e (get_handle_instr-Serves ins)
