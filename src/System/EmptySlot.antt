-- ===== src/System/EmptySlot.antt =====
-- `KPL::getKey` (libkpl/src/kpl.cpp) for a slot of the application (app/src) that holds no key.
use ledger_kee_pass.Base.{
  ℕ, suc, ◌+◌, ◌<◌, ◌≡◌, refl, ◌∙◌, ap, true, false, ◌||◌, List, [], ◌∷◌, ◌++◌, arith, leb, ◌==◌,
  length, drop,
}
use mathlib.Core.Bool.{not}
use ledger_kee_pass.App.Consts.{slot_count}
use ledger_kee_pass.App.Sdk.{Sdk, IsDocumented}
use ledger_kee_pass.App.Status.{status_word}
use ledger_kee_pass.App.Storage.{is_key_valid}
use ledger_kee_pass.App.Device.{Device, returns}
use ledger_kee_pass.App.Device.WellFormed
use ledger_kee_pass.App.Device.WellFormed.{WellFormed}
use ledger_kee_pass.App.Instrs.{get_handle_instr, handle_get_key}
use ledger_kee_pass.App.Main.{received, app_main_round, catch_apdu, append_status}
use ledger_kee_pass.App.Main.Dispatched.{
  packet_of, loaded, loaded-WellFormed, app_main_round-packet,
}
use ledger_kee_pass.App.Approve.{Button}
use ledger_kee_pass.Host.Result.{success, app_empty_slot, is_success, parse_app_sw}
use ledger_kee_pass.Host.Sodium.{Sodium}
use ledger_kee_pass.Host.Crypto.{x25519_gen_priv_key}
use ledger_kee_pass.Host.Transport.{LedgerDevice}
use ledger_kee_pass.Host.Client.{check_answer, exchange-sends}
use ledger_kee_pass.Host.Kpl.{answer_result, decrypt_answer, get_key}
use ledger_kee_pass.System.Link.{link}
use ledger_kee_pass.System.Immediate.{exchange_at_once, check_answer-sized}
use ledger_kee_pass.System.RoundTrip.{get_key_lem}

decrypt_answer-empty :
    (sodium : Sodium) {S : Type 0} (dev : LedgerDevice S) (own_pub own_priv out : List ℕ) (s : S)
    → decrypt_answer sodium dev
        (record { result = success; answer = 0x68 ∷ 0x21 ∷ []; device = s })
        own_pub
        own_priv
        out
      ≡ record { result = app_empty_slot; out = out; device = s }
unfolding decrypt_answer answer_result is_success parse_app_sw
decrypt_answer-empty sodium dev own_pub own_priv out s = refl

module _ (sdk : Sdk) (doc : IsDocumented sdk) (d : Device) (wf : WellFormed sdk d) (slot : ℕ)
    (lt : slot < slot_count) (empty : is_key_valid d.nv slot ≡ false) where
  abbrev refused : List ℕ → Device
  refused pub_key = record d {
    apdu =
        0x68
        ∷ 0x21
        ∷ slot
        ∷ 0
        ∷ length pub_key
        ∷ (pub_key ++ drop (0 + suc (suc (suc (suc (suc (length pub_key)))))) d.apdu);
    asynch = false;
  }

  empty_round :
      (pub_key : List ℕ)
      → length pub_key ≡ 32
      → app_main_round sdk (received (packet_of 2 slot 0 pub_key)) d ≡ returns 0 2 (refused pub_key)
  empty_round pub_key size =
      app_main_round-packet sdk doc d wf 2 slot 0 pub_key (handle_get_key sdk)
        (unfold get_handle_instr in refl) (omega (arith, size))
      ∙ served
    where
      served :
          catch_apdu sdk
            (handle_get_key sdk slot 0 pub_key 0 (loaded d (packet_of 2 slot 0 pub_key)))
          ≡ returns 0 2 (refused pub_key)
      served =
          let proper : (leb slot_count slot || not (length pub_key == 32)) ≡ false = ground arith in
          let room : leb 2 (
                suc (
                  suc (
                    suc (
                      suc (
                        suc (
                          length (
                            pub_key
                            ++ drop (0 + suc (suc (suc (suc (suc (length pub_key)))))) d.apdu)))))))
              ≡ true =
            ground arith in
          unfold catch_apdu handle_get_key append_status status_word in
          simp (proper, empty, room, doc.io_reset_is) refl

  pub get_key-empty_whole :
      (sodium : Sodium) (b : Button) (own_priv out : List ℕ)
      → length (x25519_gen_priv_key sodium own_priv) ≡ 32
      → length out ≡ 32
      → (e : Device) × (get_key sodium (link sdk b) slot own_priv out d
          ≡ record { result = app_empty_slot; out = out; device = e })
        × (WellFormed sdk e × (e.nv ≡ d.nv))
  get_key-empty_whole sodium b own_priv out size hout = (after, whole, (after-WellFormed, refl))
    where
      own_pub : List ℕ
      own_pub = x25519_gen_priv_key sodium own_priv

      after : Device
      after = record (refused own_pub) { sent = (0x68 ∷ 0x21 ∷ []) ∷ d.sent }

      after-WellFormed : WellFormed sdk after
      after-WellFormed =
          let start =
            loaded-WellFormed sdk doc d wf (packet_of 2 slot 0 own_pub) (omega (arith, size)) in
          let answered = WellFormed.apdu-WellFormed sdk _ start after.apdu refl in
          WellFormed.flags-WellFormed sdk _ answered false d.screen d.approve_cb d.draws after.sent

      whole :
          get_key sodium (link sdk b) slot own_priv out d
          ≡ record { result = app_empty_slot; out = out; device = after }
      whole =
          get_key_lem sodium (link sdk b) slot own_priv out d hout
          ∙ ap (λ r. decrypt_answer sodium (link sdk b) r own_pub own_priv out)
              (exchange-sends (link sdk b) 66 2 slot 0 own_pub d (omega (arith, size))
                ∙ ap (check_answer (link sdk b)) (
                    exchange_at_once sdk b 66 2 (packet_of 2 slot 0 own_pub) d (refused own_pub)
                      (empty_round own_pub size) refl (omega arith) (omega arith))
                ∙ check_answer-sized (link sdk b) (0x68 ∷ 0x21 ∷ []) after (omega arith))
          ∙ decrypt_answer-empty sodium (link sdk b) own_pub own_priv out after

  -- If the application is well-formed, a slot in range holds no key and libsodium gives a public
  -- key of 32 bytes, then `KPL::getKey` for that slot, with a buffer of 32 bytes, gives
  -- APP_EMPTY_SLOT, with no question to the user, and the buffer and the storage are as they
  -- were.
  pub get_key-empty :
      (sodium : Sodium) (b : Button) (own_priv out : List ℕ)
      → length (x25519_gen_priv_key sodium own_priv) ≡ 32
      → length out ≡ 32
      → let ended = get_key sodium (link sdk b) slot own_priv out d in
        (ended.result ≡ app_empty_slot) × (ended.out ≡ out) × (ended.device.nv ≡ d.nv)
  get_key-empty sodium b own_priv out size hout =
      let (e, whole, (_, kept)) = get_key-empty_whole sodium b own_priv out size hout in
      (ap (λ r. r.result) whole, ap (λ r. r.out) whole, ap (λ r. r.device.nv) whole ∙ kept)
