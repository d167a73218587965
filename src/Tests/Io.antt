-- ===== src/Tests/Io.antt =====
-- `io_event` and `io_exchange_al` (app/src/main.c) at concrete events.
use ledger_kee_pass.Base.{
  ◌≡◌, refl, Bool, true, false, ℕ, Option, some, none, List, [], ◌∷◌, ◌==◌, if◌then◌else◌, get_or,
  replicate,
}
use ledger_kee_pass.App.Menu.{
  Mask, logo, quit_step, left_mask, right_mask, both_mask, push, push_on, moved, validated,
}
use ledger_kee_pass.App.Main.{restart}
use ledger_kee_pass.App.Session.{at_start}
use ledger_kee_pass.Tests.Toy.{toy_sdk}
use ledger_kee_pass.Tests.Device.{fresh}
use ledger_kee_pass.Tests.Loop.{toy_flow}
use ledger_kee_pass.App.Io.{
  UxCall, finger, button_push, default_event, displayed, ticker, redisplay, general_status,
  Seproxyhal, Ux, handled, raises, leaves, io_event, push_event, close_push, next_step, close_event,
}

-- A screen that shows something answers the event.
abbrev answers : List UxCall → Bool
answers [] = false
answers (finger ∷ cs) = answers cs
answers (button_push ∷ cs) = answers cs
answers (default_event ∷ cs) = answers cs
answers (displayed ∷ cs) = answers cs
answers (ticker ∷ cs) = answers cs
answers (redisplay ∷ cs) = true
answers (general_status ∷ cs) = true

-- The released buttons stand in the fourth byte.
abbrev mask_at : ℕ → Option Mask
mask_at n =
    if n == 1
    then some left_mask
    else (if n == 2 then some right_mask else (if n == 3 then some both_mask else none))

abbrev nano_s : Seproxyhal
nano_s = record {
  finger_event = 0x0C;
  button_push_event = 0x05;
  status_event = 0x15;
  display_processed_event = 0x0D;
  ticker_event = 0x0E;
  usb_powered = 8;
  media_usb_hid = 1;
  mask_of = λ buf. mask_at (get_or buf 3 0);
  is_status_sent = answers;
}

-- A ticker event that is due, with three screens.
abbrev ticking : Ux
ticking = record {
  spi_buffer = 0x0E ∷ replicate 10 0;
  media = 1;
  ticker_due = true;
  allowed = true;
  ux_step = 2;
  ux_step_count = 3;
  calls = [];
  step = logo;
  device = fresh;
}

ticks :
    io_event toy_sdk toy_flow nano_s ticking
    ≡ handled (record ticking { ux_step = 0; calls = redisplay ∷ ticker ∷ [] })
unfolding io_event next_step close_event
ticks = refl

unplugged :
    let u = record ticking { spi_buffer = 0x15 ∷ replicate 10 0 } in
    io_event toy_sdk toy_flow nano_s u ≡ raises 16 u
unfolding io_event
unplugged = refl

-- Both buttons on the last step of the menu
abbrev quitting : Ux
quitting = record ticking { spi_buffer = 0x05 ∷ 0 ∷ 0 ∷ 3 ∷ replicate 7 0; step = quit_step }

pushed_quit :
    io_event toy_sdk toy_flow nano_s quitting
    ≡ leaves (record quitting { calls = button_push ∷ [] })
unfolding io_event push_event close_push push push_on moved validated at_start restart
pushed_quit = refl
