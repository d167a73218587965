-- ===== src/App/Main.antt =====
-- The APDU loop of app/src/main.c.
pub mod Answers
pub mod Dispatched
use ledger_kee_pass.Base.{
  ℕ, ◌+◌, ◌-◌, ◌≡◌, Bool, true, false, Option, some, none, List, [], ◌∷◌, ◌==◌, if◌then◌else◌, take,
  drop, length, blit, get_or, ltb,
}
use mathlib.Core.Bool.{not}
use ledger_kee_pass.App.Consts.{
  cla, offset_cla, offset_ins, offset_p1, offset_p2, offset_lc, offset_cdata, sw_unknown_instr,
  sw_invalid_cls,
}
use ledger_kee_pass.App.Sdk.{Sdk}
use ledger_kee_pass.App.Status.{status_word, sw_bytes}
use ledger_kee_pass.App.Storage.{nv_app_state_init}
use ledger_kee_pass.App.Device.{
  Device, Screen, Outcome, returns, throws, fault, copy, ◌>>=◌, ui_idle,
}
use ledger_kee_pass.App.Instrs.{Handler, get_handle_instr}

-- `data_len` bytes from `&G_io_apdu_buffer[OFFSET_CDATA]`
abbrev pub payload : Device → List ℕ
payload d = take (get_or d.apdu offset_lc 0) (drop offset_cdata d.apdu)

-- How `io_exchange` ends: a packet in the buffer, or an exception.
pub data Exchange : Type 0 where
  received : List ℕ → Exchange
  raised : ℕ → Exchange

module _ (sdk : Sdk) where
  unfoldable pub dispatch : Option Handler → ℕ → Device → Outcome
  dispatch none tx d = throws sw_unknown_instr tx d
  dispatch (some f) tx d =
      if ltb (sdk.apdu_buffer_size - offset_cdata) (get_or d.apdu offset_lc 0)
      then throws sdk.invalid_parameter tx d
      else f (get_or d.apdu offset_p1 0) (get_or d.apdu offset_p2 0) (payload d) tx d

  -- `TRY` of `handleApdu`: how it ends, by the handler's return or by an exception.
  unfoldable pub try_apdu : ℕ → Device → Outcome
  unfolding dispatch get_handle_instr
  try_apdu tx d =
      if not (get_or d.apdu offset_cla 0 == cla)
      then throws sw_invalid_cls tx d
      else dispatch (get_handle_instr sdk (get_or d.apdu offset_ins 0)) tx d

  -- `CATCH_OTHER(e)`: the status word goes behind the reply. `returns 0 tx` is the end of
  -- `handleApdu` with `*tx`.
  unfoldable pub append_status : ℕ → ℕ → Device → Outcome
  unfolding status_word
  append_status e tx d = if e == sdk.exception_io_reset then throws e tx d else (do
    apdu ← copy d.apdu tx (sw_bytes (status_word e))
    returns 0 (tx + 2) (record d { apdu = apdu }))

  unfoldable pub catch_apdu : Outcome → Outcome
  unfolding append_status
  catch_apdu (returns sw tx d) = append_status sw tx d
  catch_apdu (throws e tx d) = append_status e tx d
  catch_apdu fault = fault

  unfoldable pub handle_apdu : ℕ → Device → Outcome
  unfolding try_apdu catch_apdu
  handle_apdu tx d = catch_apdu (try_apdu tx d)

  -- `CATCH_OTHER(e)` of `app_main`
  unfoldable pub report : ℕ → Device → Outcome
  unfolding append_status
  report e d =
      if e == sdk.exception_io_reset
      then throws e 0 d
      else append_status e 0 (record d { asynch = if not (e == 0x9000) then false else d.asynch })

  -- One round of `app_main` behind the call of `io_exchange`, with `tx` 0.
  unfoldable pub app_main_round : Exchange → Device → Outcome
  unfolding handle_apdu report
  app_main_round (raised e) d = report e d
  app_main_round (received packet) d =
      let d' = record d { apdu = blit d.apdu 0 packet; asynch = false } in
      if length packet == 0 then report 0x6982 d' else handle_apdu 0 d'

-- What the next call of `io_exchange(CHANNEL_APDU | flags, tx)` sends first: nothing while the
-- reply is asynchronous.
unfoldable pub send_reply : ℕ → Device → Device
send_reply tx d =
    if d.asynch then d else (if tx == 0 then d else record d { sent = take tx d.apdu ∷ d.sent })

-- `main` before `app_main`, at the start and after an EXCEPTION_IO_RESET.
unfoldable pub restart : Device → Device
restart d = ui_idle (record d { nv = nv_app_state_init false d.nv; asynch = false })
