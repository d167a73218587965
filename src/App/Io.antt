-- ===== src/App/Io.antt =====
-- What app/src/main.c gives to the SDK's input and output: `io_event` and `io_exchange_al`, on a Nano S.
pub mod Events
use ledger_kee_pass.Base.{
  ℕ, ◌+◌, ◌*◌, ◌%◌, ◌^◌, Bool, true, false, ◌&&◌, Option, some, none, List, [], ◌∷◌, ◌==◌,
  if◌then◌else◌, get_or, take, blit, length, bit_and,
}
use mathlib.Core.Bool.{not}
use ledger_kee_pass.App.Sdk.{Sdk}
use ledger_kee_pass.App.Device.{Device}
use ledger_kee_pass.App.Menu.{
  MenuStep, Mask, Flow, Pushed, stays, push_throws, quits, push_faults, push,
}

-- The SDK's calls that the events lead to; a call of `UX_TICKER_EVENT` is due or not.
pub data UxCall : Type 0 where
  finger button_push default_event displayed ticker redisplay general_status : UxCall

-- The SDK's tags and numbers, the buttons that an event releases, if any, and whether the event is
-- answered behind these calls, the latest first (`io_seproxyhal_spi_is_status_sent`).
pub record Seproxyhal : Type 0 where
  pub finger_event : ℕ
  pub button_push_event : ℕ
  pub status_event : ℕ
  pub display_processed_event : ℕ
  pub ticker_event : ℕ
  pub usb_powered : ℕ
  pub media_usb_hid : ℕ
  pub mask_of : List ℕ → Option Mask
  pub is_status_sent : List UxCall → Bool

-- `G_io_seproxyhal_spi_buffer`, `G_io_apdu_media`, whether the ticker's body runs, UX_ALLOWED, the two
-- counters of app/src/globals.c, the calls since the event came, the step of the menu and the rest of
-- the application.
pub record Ux : Type 0 where
  pub spi_buffer : List ℕ
  pub media : ℕ
  pub ticker_due : Bool
  pub allowed : Bool
  pub ux_step : ℕ
  pub ux_step_count : ℕ
  pub calls : List UxCall
  pub step : MenuStep
  pub device : Device

-- How an event ends: handled, with an exception, with the `os_sched_exit` of the menu, or in a fault.
pub data EventEnd : Type 0 where
  handled : Ux → EventEnd
  raises : ℕ → Ux → EventEnd
  leaves : Ux → EventEnd
  event_faults : EventEnd

-- `U4BE`
abbrev pub u4be : List ℕ → ℕ → ℕ
u4be buf off =
    ((get_or buf off 0 * 256 + get_or buf (off + 1) 0) * 256 + get_or buf (off + 2) 0) * 256
    + get_or buf (off + 3) 0

abbrev pub call : UxCall → Ux → Ux
call c u = record u { calls = c ∷ u.calls }

-- The body of `UX_TICKER_EVENT`
unfoldable pub next_step : Ux → Ux
next_step u =
    if u.ticker_due && (u.allowed && not (u.ux_step_count == 0))
    then call redisplay (record u { ux_step = (u.ux_step + 1) % 2 ^ 32 % u.ux_step_count })
    else u

module _ (sp : Seproxyhal) where
  -- `USB` without power
  abbrev pub is_unpowered : Ux → Bool
  is_unpowered u = u.media == sp.media_usb_hid && bit_and (u4be u.spi_buffer 3) sp.usb_powered == 0

  -- The end of `io_event`
  unfoldable pub close_event : Ux → EventEnd
  close_event u = if sp.is_status_sent u.calls then handled u else handled (call general_status u)

module _ (sdk : Sdk) (flow : Flow) (sp : Seproxyhal) where
  -- The end of `io_event` behind the function of a button, which may raise an exception
  unfoldable pub close_push : Pushed → Ux → EventEnd
  unfolding close_event
  close_push (stays next d) u = close_event sp (record u { step = next; device = d })
  close_push (push_throws e d) u = raises e (record u { device = d })
  close_push (quits d) u = leaves (record u { device = d })
  close_push push_faults u = event_faults

  -- `UX_BUTTON_PUSH_EVENT`
  unfoldable pub push_event : Option Mask → Ux → EventEnd
  unfolding close_push push
  push_event none u = close_event sp u
  push_event (some b) u = close_push (push sdk flow b u.step u.device) u

  -- `io_event`, whose result is always 1. No element of the screens has a function for a finger.
  unfoldable pub io_event : Ux → EventEnd
  unfolding next_step push_event
  io_event u =
      let tag = get_or u.spi_buffer 0 0 in
      if tag == sp.finger_event
      then close_event sp (call finger u)
      else (if tag == sp.button_push_event
          then push_event (sp.mask_of u.spi_buffer) (call button_push u)
          else (if tag == sp.status_event && is_unpowered sp u
              then raises sdk.exception_io_reset u
              else (if tag == sp.display_processed_event
                  then close_event sp (call displayed u)
                  else (if tag == sp.ticker_event
                      then close_event sp (next_step (call ticker u))
                      else close_event sp (call default_event u)))))

-- `channel & ~(IO_FLAGS)`
pub data Channel : Type 0 where
  keyboard spi another : Channel

-- The SPI bus with states `H`.
pub record Spi (H : Type 0) : Type 0 where
  pub send : List ℕ → H → H
  pub recv : ℕ → H → List ℕ × H

-- How `io_exchange_al` ends: with a number, by the reset of the device, or with INVALID_PARAMETER.
pub data ExchangeEnd : Type 0 where
  gives : ℕ → ExchangeEnd
  resets : ExchangeEnd
  invalid : ExchangeEnd

-- `io_exchange_al` over `G_io_apdu_buffer`
unfoldable pub io_exchange_al :
    {H : Type 0} → Spi H → Channel → Bool → ℕ → List ℕ → H → ExchangeEnd × (List ℕ × H)
io_exchange_al bus keyboard reset_after tx_len apdu h = (gives 0, (apdu, h))
io_exchange_al bus spi reset_after tx_len apdu h =
    let (packet, h') = bus.recv (length apdu) h in
    if tx_len == 0
    then (gives (length packet), (blit apdu 0 packet, h'))
    else ((if reset_after then resets else gives 0), (apdu, bus.send (take tx_len apdu) h))
io_exchange_al bus another reset_after tx_len apdu h = (invalid, (apdu, h))
