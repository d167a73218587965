-- ===== src/System/FromDevice.antt =====
-- `KPL::fromDevice` (libkpl/src/kpl.cpp) against the application (app/src).
use ledger_kee_pass.Base.{
  ℕ, suc, ◌≡◌, refl, ◌∙◌, ap, true, false, List, [], ◌∷◌, arith, leb, length, drop,
}
use ledger_kee_pass.App.Sdk.{Sdk, IsDocumented}
use ledger_kee_pass.App.Status.{status_word}
use ledger_kee_pass.App.Device.{Device, returns}
use ledger_kee_pass.App.Device.WellFormed
use ledger_kee_pass.App.Device.WellFormed.{WellFormed}
use ledger_kee_pass.App.Instrs.{get_handle_instr, handle_get_app_configuration}
use ledger_kee_pass.App.Main.{received, app_main_round, catch_apdu, append_status}
use ledger_kee_pass.App.Main.Dispatched.{
  packet_of, loaded, loaded-WellFormed, app_main_round-packet,
}
use ledger_kee_pass.App.Approve.{Button}
use ledger_kee_pass.Host.Result.{success, is_success, parse_app_sw}
use ledger_kee_pass.Host.Client.{apdu_stream, exchange, check_answer, exchange-sends}
use ledger_kee_pass.Host.Kpl.{Version, version_lib, answer_result, fill_app_version, from_device}
use ledger_kee_pass.System.Link.{link}
use ledger_kee_pass.System.Immediate.{exchange_at_once, check_answer-sized}

module _ (sdk : Sdk) (doc : IsDocumented sdk) (d : Device) (wf : WellFormed sdk d) where
  abbrev start : Device
  start = loaded d (packet_of 0 0 0 [])

  -- The state behind the round that serves GET_APP_CONFIGURATION.
  abbrev served : Device
  served = record start { apdu = 0 ∷ 3 ∷ 0 ∷ 0x90 ∷ 0 ∷ drop 5 d.apdu }

  configuration_round : app_main_round sdk (received (packet_of 0 0 0 [])) d ≡ returns 0 5 served
  configuration_round =
      app_main_round-packet sdk doc d wf 0 0 0 [] handle_get_app_configuration
        (unfold get_handle_instr in refl) (omega arith)
      ∙ caught
    where
      caught : catch_apdu sdk (handle_get_app_configuration 0 0 [] 0 start) ≡ returns 0 5 served
      caught =
          let room : leb 3 (suc (suc (suc (suc (suc (length (drop 5 d.apdu))))))) ≡ true =
            ground arith in
          let room' : leb 5 (suc (suc (suc (suc (suc (length (drop 5 d.apdu))))))) ≡ true =
            ground arith in
          unfold catch_apdu handle_get_app_configuration append_status status_word in
          simp (room, room', doc.io_reset_is) refl

  abbrev configuration : List ℕ
  configuration = 0 ∷ 3 ∷ 0 ∷ 0x90 ∷ 0 ∷ []

  abbrev pub after : Device
  after = record served { sent = configuration ∷ d.sent }

  pub after-WellFormed : WellFormed sdk after
  after-WellFormed =
      let there = loaded-WellFormed sdk doc d wf (packet_of 0 0 0 []) (omega arith) in
      let answered = WellFormed.apdu-WellFormed sdk _ there served.apdu refl in
      WellFormed.flags-WellFormed sdk _ answered false d.screen d.approve_cb d.draws after.sent

  pub from_device_whole :
      (b : Button) (app_ver : Version)
      → from_device (link sdk b) app_ver d
        ≡ record { result = success; out = version_lib; device = after }
  from_device_whole b app_ver =
      unfold from_device fill_app_version answer_result is_success parse_app_sw in simp brought refl
    where
      brought :
          exchange (link sdk b) 5 (apdu_stream 0 0 0) d
          ≡ record { result = success; answer = configuration; device = after }
      brought =
          exchange-sends (link sdk b) 5 0 0 0 [] d (omega arith)
          ∙ ap (check_answer (link sdk b)) (
              exchange_at_once sdk b 5 5 (packet_of 0 0 0 []) d served configuration_round refl
                (omega arith) (omega arith))
          ∙ check_answer-sized (link sdk b) configuration after (omega arith)

  -- If the application is well-formed, `KPL::fromDevice` on it succeeds and gives the version
  -- that the library itself has, and the storage is as it was.
  pub from_device-link :
      (b : Button) (app_ver : Version)
      → let ended = from_device (link sdk b) app_ver d in
        (ended.result ≡ success) × (ended.out ≡ version_lib) × (ended.device.nv ≡ d.nv)
  from_device-link b app_ver =
      let whole = from_device_whole b app_ver in
      (ap (λ r. r.result) whole, ap (λ r. r.out) whole, ap (λ r. r.device.nv) whole)
