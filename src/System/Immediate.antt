-- ===== src/System/Immediate.antt =====
-- The methods of `KPL` (libkpl/src/kpl.cpp) that the application (app/src) answers at once.
use ledger_kee_pass.Base.{
  ℕ, suc, ◌+◌, ◌<◌, ◌≡◌, ◌≤◌, refl, ◌∙◌, ap, true, false, List, [], ◌∷◌, ◌++◌, arith, leb, ◌==◌,
  length, take, drop, le→leb,
}
use ledger_kee_pass.App.Consts.{slot_count, key_size}
use ledger_kee_pass.App.Sdk.{Sdk, IsDocumented}
use ledger_kee_pass.App.Status.{status_word}
use ledger_kee_pass.App.Storage.{is_key_valid, store_key_slot}
use ledger_kee_pass.App.Device.{Device, returns}
use ledger_kee_pass.App.Device.WellFormed
use ledger_kee_pass.App.Device.WellFormed.{WellFormed}
use ledger_kee_pass.App.Instrs.{get_handle_instr, handle_get_valid_slots, handle_store_key}
use ledger_kee_pass.App.Main.{received, app_main_round, send_reply, catch_apdu, append_status}
use ledger_kee_pass.App.Main.Dispatched.{
  packet_of, loaded, loaded-WellFormed, app_main_round-packet,
}
use ledger_kee_pass.App.Approve.{Button}
use ledger_kee_pass.Host.Result.{success, is_success, parse_app_sw}
use ledger_kee_pass.Host.Transport.{LedgerDevice}
use ledger_kee_pass.Host.Client.{apdu_stream, exchange, check_answer, exchange-sends}
use ledger_kee_pass.Host.Kpl.{answer_result, get_valid_key_slots, set_key, slots_loop}
use ledger_kee_pass.Host.Kpl.ValidSlots.{contains, contains-slots_loop}
use ledger_kee_pass.System.Link.{answered, exchange_with, link}

-- A round that does not wait delivers its reply.
answered_at_once :
    (sdk : Sdk) (b : Button) (n tx : ℕ) (d d' : Device)
    → d'.asynch ≡ false
    → 1 ≤ tx
    → length (take tx d'.apdu) ≤ n
    → answered sdk b n d (returns 0 tx d') ≡ record {
      result = success;
      answer = take tx d'.apdu;
      device = record d' { sent = take tx d'.apdu ∷ d'.sent };
    }
unfolding answered send_reply
answered_at_once sdk b n tx d d' now some_reply fits =
    let reply : (tx == 0) ≡ false = ground arith in simp (now, reply, le→leb _ _ fits) refl

pub exchange_at_once :
    (sdk : Sdk) (b : Button) (n tx : ℕ) (packet : List ℕ) (d d' : Device)
    → app_main_round sdk (received packet) d ≡ returns 0 tx d'
    → d'.asynch ≡ false
    → 1 ≤ tx
    → length (take tx d'.apdu) ≤ n
    → exchange_with sdk b n packet d ≡ record {
      result = success;
      answer = take tx d'.apdu;
      device = record d' { sent = take tx d'.apdu ∷ d'.sent };
    }
unfolding exchange_with
exchange_at_once sdk b n tx packet d d' round now some_reply fits =
    ap (answered sdk b n d) round ∙ answered_at_once sdk b n tx d d' now some_reply fits

pub check_answer-sized :
    {S : Type 0} (dev : LedgerDevice S) (answer : List ℕ) (s : S)
    → 2 ≤ length answer
    → check_answer dev (record { result = success; answer = answer; device = s })
      ≡ record { result = success; answer = answer; device = s }
unfolding check_answer is_success
check_answer-sized dev answer s h = rw (le→leb _ _ h) refl

module _ (sdk : Sdk) (doc : IsDocumented sdk) (d : Device) (wf : WellFormed sdk d) where
  abbrev slots_start : Device
  slots_start = loaded d (packet_of 4 0 0 [])

  -- The state behind the round that serves GET_VALID_SLOTS.
  abbrev slots_served : Device
  slots_served = record slots_start { apdu = d.nv.key_valids ∷ 0x90 ∷ 0 ∷ 0 ∷ 0 ∷ drop 5 d.apdu }

  valid_slots_round :
      app_main_round sdk (received (packet_of 4 0 0 [])) d ≡ returns 0 3 slots_served
  valid_slots_round =
      app_main_round-packet sdk doc d wf 4 0 0 [] handle_get_valid_slots
        (unfold get_handle_instr in refl) (omega arith)
      ∙ served
    where
      served :
          catch_apdu sdk (handle_get_valid_slots 0 0 [] 0 slots_start) ≡ returns 0 3 slots_served
      served =
          let room : leb 1 (suc (suc (suc (suc (suc (length (drop 5 d.apdu))))))) ≡ true =
            ground arith in
          let room' : leb 3 (suc (suc (suc (suc (suc (length (drop 5 d.apdu))))))) ≡ true =
            ground arith in
          unfold catch_apdu handle_get_valid_slots append_status status_word in
          simp (room, room', doc.io_reset_is) refl

  abbrev slots_answer : List ℕ
  slots_answer = d.nv.key_valids ∷ 0x90 ∷ 0 ∷ []

  abbrev pub slots_after : Device
  slots_after = record slots_served { sent = slots_answer ∷ d.sent }

  pub slots_after-WellFormed : WellFormed sdk slots_after
  slots_after-WellFormed =
      let start = loaded-WellFormed sdk doc d wf (packet_of 4 0 0 []) (omega arith) in
      let served = WellFormed.apdu-WellFormed sdk _ start slots_served.apdu refl in
      WellFormed.flags-WellFormed sdk _ served false d.screen d.approve_cb d.draws slots_after.sent

  pub get_valid_key_slots_whole :
      (b : Button)
      → get_valid_key_slots (link sdk b) d
        ≡ record { result = success; out = slots_loop 8 d.nv.key_valids 0; device = slots_after }
  get_valid_key_slots_whole b =
      unfold get_valid_key_slots answer_result is_success parse_app_sw in simp brought refl
    where
      brought :
          exchange (link sdk b) 3 (apdu_stream 4 0 0) d
          ≡ record { result = success; answer = slots_answer; device = slots_after }
      brought =
          exchange-sends (link sdk b) 3 4 0 0 [] d (omega arith)
          ∙ ap (check_answer (link sdk b)) (
              exchange_at_once sdk b 3 3 (packet_of 4 0 0 []) d slots_served valid_slots_round refl
                (omega arith) (omega arith))
          ∙ check_answer-sized (link sdk b) slots_answer slots_after (omega arith)

  -- If the application is well-formed, `KPL::getValidKeySlots` succeeds and lists a slot in range
  -- exactly if the slot is valid.
  pub get_valid_key_slots-held :
      (b : Button) (j : ℕ)
      → j < slot_count
      → let ended = get_valid_key_slots (link sdk b) d in
        (ended.result ≡ success) × (contains j ended.out ≡ is_key_valid d.nv j)
  get_valid_key_slots-held b j lt =
      let got = get_valid_key_slots_whole b in
      (
        ap (λ r. r.result) got,
        ap (λ r. contains j r.out) got ∙ contains-slots_loop d.nv j wf.storage.valids_byte lt,
      )

  -- KPL::setKey on an empty slot.
  module _ (slot : ℕ) (key : List ℕ) (lt : slot < slot_count) (size : length key ≡ key_size)
      (empty : is_key_valid d.nv slot ≡ false) where
    abbrev store_start : Device
    store_start = loaded d (packet_of 1 slot 0 key)

    abbrev pub stored : Device
    stored = record store_start {
      nv = store_key_slot slot key d.nv;
      apdu =
          0x90
          ∷ 0
          ∷ slot
          ∷ 0
          ∷ length key
          ∷ (key ++ drop (0 + (suc (suc (suc (suc (suc (length key))))))) d.apdu);
      sent = (0x90 ∷ 0 ∷ []) ∷ d.sent;
    }

    stored_round :
        app_main_round sdk (received (packet_of 1 slot 0 key)) d
        ≡ returns 0 2 (record stored { sent = d.sent })
    stored_round =
        app_main_round-packet sdk doc d wf 1 slot 0 key (handle_store_key sdk)
          (unfold get_handle_instr in refl) (omega arith)
        ∙ served
      where
        rest : List ℕ
        rest = key ++ drop (0 + (suc (suc (suc (suc (suc (length key))))))) d.apdu

        served :
            catch_apdu sdk (handle_store_key sdk slot 0 key 0 store_start)
            ≡ returns 0 2 (record stored { sent = d.sent })
        served =
            let in_range : leb slot_count slot ≡ false = ground arith in
            let whole : (length key == key_size) ≡ true = ground arith in
            let room : leb 2 (suc (suc (suc (suc (suc (length rest)))))) ≡ true = ground arith in
            unfold catch_apdu handle_store_key append_status status_word in
            simp (in_range, whole, empty, room, doc.io_reset_is) refl

    pub set_key_lem : (b : Button) → set_key (link sdk b) slot key d ≡ (success, stored)
    set_key_lem b =
        unfold set_key answer_result is_success parse_app_sw in simp (whole, brought) refl
      where
        whole : (length key == key_size) ≡ true
        whole = ground arith

        brought :
            exchange (link sdk b) 2 (apdu_stream 1 slot 0 ++ key) d
            ≡ record { result = success; answer = 0x90 ∷ 0 ∷ []; device = stored }
        brought =
            exchange-sends (link sdk b) 2 1 slot 0 key d (omega arith)
            ∙ ap (check_answer (link sdk b)) (
                exchange_at_once sdk b 2 2 (packet_of 1 slot 0 key) d
                  (record stored { sent = d.sent }) stored_round refl (omega arith) (omega arith))
            ∙ check_answer-sized (link sdk b) (0x90 ∷ 0 ∷ []) stored (omega arith)
