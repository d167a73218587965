-- ===== src/App/Menu.antt =====
-- The menu of app/src/menu.c, and what a push of a button does: on the menu, and on a question of
-- app/src/approve.c.
pub mod Pushes
use ledger_kee_pass.Base.{ℕ}
use ledger_kee_pass.App.Sdk.{Sdk}
use ledger_kee_pass.App.Device.{Device, Screen, Outcome, returns, throws, fault}
use ledger_kee_pass.App.Approve.{
  Button, right_released, left_released, other, bagl_ui_approval_nanos_button,
}

-- The steps of `ux_idle_flow`, in their order
pub data MenuStep : Type 0 where
  logo version quit_step : MenuStep

-- The buttons that are released, by their mask
pub data Mask : Type 0 where
  left_mask right_mask both_mask other_mask : Mask

-- What a push does to a flow: another step is shown, or the step is validated.
pub data Moved : Type 0 where
  shows : MenuStep → Moved
  validates : Moved

-- The flow of the SDK (`UX_FLOW`, `FLOW_LOOP`): how a push moves from a step.
pub record Flow : Type 0 where
  pub moves : MenuStep → Mask → Moved

-- `button_mask` as `bagl_ui_approval_nanos_button` tells it apart
abbrev pub button_of_mask : Mask → Button
button_of_mask left_mask = left_released
button_of_mask right_mask = right_released
button_of_mask both_mask = other
button_of_mask other_mask = other

-- How a push ends: with a step of the menu behind it, with an exception, with `os_sched_exit`, or in
-- a fault.
pub data Pushed : Type 0 where
  stays : MenuStep → Device → Pushed
  push_throws : ℕ → Device → Pushed
  quits : Device → Pushed
  push_faults : Pushed

-- The functions of the steps: UX_STEP_NOCB has none, `ux_idle_flow_3_step` ends the application.
unfoldable pub validated : MenuStep → Device → Pushed
validated logo d = stays logo d
validated version d = stays version d
validated quit_step d = quits d

unfoldable pub moved : MenuStep → Moved → Device → Pushed
unfolding validated
moved step (shows next) d = stays next d
moved step validates d = validated step d

-- `ui_idle`, at the end of a question, begins the flow anew.
unfoldable pub after_button : Outcome → Pushed
after_button (returns sw tx d) = stays logo d
after_button (throws e tx d) = push_throws e d
after_button fault = push_faults

module _ (sdk : Sdk) (flow : Flow) where
  unfoldable pub push_on : Screen → Mask → MenuStep → Device → Pushed
  unfolding moved after_button
  push_on Screen.idle b step d = moved step (flow.moves step b) d
  push_on Screen.approval b step d =
      after_button (bagl_ui_approval_nanos_button sdk (button_of_mask b) d)

  -- A push on whatever is on the screen
  unfoldable pub push : Mask → MenuStep → Device → Pushed
  unfolding push_on
  push b step d = push_on d.screen b step d
