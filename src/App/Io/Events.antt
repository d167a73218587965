-- ===== src/App/Io/Events.antt =====
-- What `io_event` (app/src/main.c) guarantees for every event.
use ledger_kee_pass.Base.{
  ◌≡◌, ◌≢◌, ◌<◌, true, false, Bool, ◌&&◌, Option, some, none, List, ◌∷◌, ◌⊎◌, ◌==◌, if◌then◌else◌,
  get_or,
}
use ledger_kee_pass.App.Sdk.{Sdk, IsDocumented}
use ledger_kee_pass.App.Device.{Screen}
use ledger_kee_pass.App.Session.{Inv}
use ledger_kee_pass.App.Menu.{quit_step, Mask, Flow, stays, push}
use ledger_kee_pass.App.Menu.Pushes.{Leaves}
use ledger_kee_pass.App.Io.{
  UxCall, general_status, Seproxyhal, Ux, EventEnd, handled, raises, leaves, event_faults,
  is_unpowered,
}

-- The kinds of event are told apart, and `io_seproxyhal_general_status` answers an event.
pub record IsSeproxyhal (sp : Seproxyhal) : Type 0 where
  pub finger_other : sp.finger_event ≢ sp.status_event
  pub button_other : sp.button_push_event ≢ sp.status_event
  pub finger_no_button : sp.finger_event ≢ sp.button_push_event
  pub general_answers : (cs : List UxCall) → sp.is_status_sent (general_status ∷ cs) ≡ true

abbrev pub InStep : Ux → Type 0
InStep u = (u.ux_step_count ≡ 0) ⊎ (u.ux_step < u.ux_step_count)

-- The device is on USB, and its status event says that the power is gone.
abbrev pub is_cut : Seproxyhal → Ux → Bool
is_cut sp u = get_or u.spi_buffer 0 0 == sp.status_event && is_unpowered sp u

-- The menu is on the screen at its last step, and a push validates that step.
abbrev pub IsQuit : Flow → Seproxyhal → Ux → Type 0
IsQuit flow sp u =
    (u.device.screen ≡ Screen.idle)
    × (u.step ≡ quit_step)
    × ((b : Mask) × (sp.mask_of u.spi_buffer ≡ some b) × Leaves flow b)

-- The buttons of a push
abbrev pub pressed : Seproxyhal → Ux → Option Mask
pressed sp u =
    if get_or u.spi_buffer 0 0 == sp.button_push_event then sp.mask_of u.spi_buffer else none

-- What an event does to the application and its menu: a push is served, all else leaves them alone.
abbrev pub Served : Sdk → Flow → Ux → Ux → Option Mask → Type 0
Served sdk flow u t none = (t.step ≡ u.step) × (t.device ≡ u.device)
Served sdk flow u t (some b) = push sdk flow b u.step u.device ≡ stays t.step t.device

abbrev pub EndsWell : Sdk → Flow → Seproxyhal → Ux → EventEnd → Type 0
EndsWell sdk flow sp u (handled t) =
    (is_cut sp u ≡ false)
    × (sp.is_status_sent t.calls ≡ true)
    × InStep t
    × Inv sdk t.device
    × Served sdk flow u t (pressed sp u)
EndsWell sdk flow sp u (raises e t) = (is_cut sp u ≡ true) × (e ≡ sdk.exception_io_reset) × (t ≡ u)
EndsWell sdk flow sp u (leaves t) = (is_cut sp u ≡ false) × (t.device ≡ u.device) × IsQuit flow sp u
EndsWell sdk flow sp u event_faults = ⊥

module _ (sdk : Sdk) (doc : IsDocumented sdk) (flow : Flow) (sp : Seproxyhal)
    (sdoc : IsSeproxyhal sp) (u : Ux) where
  abbrev Good : EventEnd → Type 0
  Good = EndsWell sdk flow sp u
