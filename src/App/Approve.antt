-- ===== src/App/Approve.antt =====
-- The approval screen of app/src/approve.c: what a press of a button does.
pub mod KeyReply
pub mod Touch
pub mod Sends
pub mod Closed
use ledger_kee_pass.Base.{
  ℕ, ◌+◌, ◌≡◌, Bool, true, false, Option, some, none, List, [], ◌∷◌, ◌==◌, if◌then◌else◌, take,
  length,
}
use ledger_kee_pass.App.Consts.{sw_unauthorized_access}
use ledger_kee_pass.App.Sdk.{Sdk}
use ledger_kee_pass.App.Status.{status_word, sw_bytes}
use ledger_kee_pass.App.Device.{
  Device, Screen, Outcome, returns, throws, fault, copy, ◌>>=◌, ui_idle,
}
use ledger_kee_pass.App.Instrs.{run_callback}

-- `io_exchange(CHANNEL_APDU | IO_RETURN_AFTER_TX, tx)`: the SDK sends the buffer's first bytes.
abbrev pub send : ℕ → Device → Device
send tx d = record d { sent = take tx d.apdu ∷ d.sent }

-- The masks that `bagl_ui_approval_nanos_button` tells apart.
pub data Button : Type 0 where
  right_released left_released other : Button

module _ (sdk : Sdk) where
  -- `CATCH_OTHER(e)` of `touch_okay`: the status word goes behind the reply, which is sent. The
  -- result holds no exception: `returns 0 0` stands for the end of a void function.
  unfoldable pub reply_status : ℕ → ℕ → Device → Outcome
  unfolding status_word
  reply_status e tx d = if e == sdk.exception_io_reset then throws e tx d else (do
    apdu ← copy d.apdu tx (sw_bytes (status_word e))
    returns 0 0 (ui_idle (send (tx + 2) (record d { apdu = apdu }))))

  -- `TRY { THROW(approve_cb_(&tx)); }`
  unfoldable pub caught : Outcome → Outcome
  unfolding reply_status
  caught (returns sw tx d) = reply_status sw tx d
  caught (throws e tx d) = reply_status e tx d
  caught fault = fault

  unfoldable pub touch_okay : Device → Outcome
  unfolding caught
  touch_okay d = elim d.approve_cb [ none ↦ fault | some cb ↦ caught (run_callback sdk cb d) ]

  unfoldable pub touch_deny : Device → Outcome
  touch_deny d = do
    apdu ← copy d.apdu 0 (sw_bytes sw_unauthorized_access)
    returns 0 0 (ui_idle (send 2 (record d { apdu = apdu })))

  unfoldable pub bagl_ui_approval_nanos_button : Button → Device → Outcome
  unfolding touch_okay touch_deny
  bagl_ui_approval_nanos_button right_released d = touch_okay d
  bagl_ui_approval_nanos_button left_released d = touch_deny d
  bagl_ui_approval_nanos_button other d = returns 0 0 d
