-- ===== src/App/Loop.antt =====
-- The endless loops of app/src/main.c: `app_main`, and `main` around it, over what happens one after
-- the other.
pub mod Kept
pub mod Runs
use ledger_kee_pass.Base.{ℕ, ◌<◌, Bool, true, false, List, [], ◌∷◌, ◌==◌, if◌then◌else◌}
use ledger_kee_pass.App.Sdk.{Sdk}
use ledger_kee_pass.App.Device.{Device, Outcome, returns, throws, fault}
use ledger_kee_pass.App.Menu.{
  MenuStep, logo, Mask, Flow, Pushed, stays, push_throws, quits, push_faults, push,
}
use ledger_kee_pass.App.Main.{received, raised, app_main_round, send_reply, restart}

-- What `io_exchange` meets: a packet, an exception of the input and output, or a button, which it
-- serves by `io_event` while it waits.
pub data Event : Type 0 where
  packet : List ℕ → Event
  failure : ℕ → Event
  button : Mask → Event

-- Where `main` is: in `app_main`, with a step of the menu below; behind `app_exit`; behind the
-- `os_sched_exit` of the menu; or in a fault.
pub data Running : Type 0 where
  running : MenuStep → Device → Running
  exited : Running
  quit : Device → Running
  crashed : Running

module _ (sdk : Sdk) where
  -- The exception that leaves `app_main`: `CATCH(EXCEPTION_IO_RESET)` goes on, `CATCH_ALL` leaves the
  -- loop of `main`. The menu begins anew.
  unfoldable pub left_app_main : ℕ → Device → Running
  left_app_main e d = if e == sdk.exception_io_reset then running logo (restart d) else exited

  unfoldable pub after_round : MenuStep → Outcome → Running
  unfolding left_app_main
  after_round step (returns sw tx d) = running step (send_reply tx d)
  after_round step (throws e tx d) = left_app_main e d
  after_round step fault = crashed

  -- An exception of a button's function is one of `io_exchange`.
  unfoldable pub after_push : MenuStep → Pushed → Running
  unfolding after_round
  after_push step (stays next d) = running next d
  after_push step (push_throws e d) = after_round step (app_main_round sdk (raised e) d)
  after_push step (quits d) = quit d
  after_push step push_faults = crashed

module _ (sdk : Sdk) (flow : Flow) where
  unfoldable pub happens : Event → MenuStep → Device → Running
  unfolding after_round after_push push
  happens (packet p) step d = after_round sdk step (app_main_round sdk (received p) d)
  happens (failure e) step d = after_round sdk step (app_main_round sdk (raised e) d)
  happens (button b) step d = after_push sdk step (push sdk flow b step d)

  -- `for (;;)`
  unfoldable pub main_loop : List Event → Running → Running
  unfolding happens
  main_loop [] m = m
  main_loop (ev ∷ evs) (running step d) = main_loop evs (happens ev step d)
  main_loop (ev ∷ evs) exited = exited
  main_loop (ev ∷ evs) (quit d) = quit d
  main_loop (ev ∷ evs) crashed = crashed
