-- ===== src/Tests/Loop.antt =====
-- The properties of `main` (app/src/main.c), each at concrete events.
use ledger_kee_pass.Base.{◌≡◌, refl, List, [], ◌∷◌}
use ledger_kee_pass.App.Main.{restart}
use ledger_kee_pass.App.Menu.{
  MenuStep, logo, version, quit_step, Mask, left_mask, right_mask, both_mask, other_mask, Moved,
  shows, validates, Flow, push, push_on, moved, validated,
}
use ledger_kee_pass.App.Session.{at_start}
use ledger_kee_pass.App.Loop.{
  Event, packet, failure, button, running, quit, main_loop, happens, after_push,
}
use ledger_kee_pass.Tests.Toy.{toy_sdk}
use ledger_kee_pass.Tests.Device.{fresh, get_key_packet}

-- A flow in a ring whose step both buttons validate
abbrev toy_moves : MenuStep → Mask → Moved
toy_moves step both_mask = validates
toy_moves step other_mask = shows step
toy_moves logo left_mask = shows quit_step
toy_moves version left_mask = shows logo
toy_moves quit_step left_mask = shows version
toy_moves logo right_mask = shows version
toy_moves version right_mask = shows quit_step
toy_moves quit_step right_mask = shows logo

abbrev pub toy_flow : Flow
toy_flow = record { moves = toy_moves }

abbrev denied : List Event
denied =
    packet get_key_packet
    ∷ button both_mask
    ∷ button left_mask
    ∷ packet []
    ∷ failure 0x9000
    ∷ failure 16
    ∷ []

-- The user goes back to the last step and validates it.
quits_by_menu :
    main_loop toy_sdk toy_flow
      (button left_mask ∷ button both_mask ∷ packet [] ∷ [])
      (running logo fresh)
    ≡ quit fresh
unfolding main_loop happens after_push push push_on moved validated at_start restart
quits_by_menu = refl
