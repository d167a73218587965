-- ===== src/Tests/Usb.antt =====
-- The USB transport (libkpl/src/ledger_device_usb.cpp) at concrete inputs.
use ledger_kee_pass.Base.{ℕ, ◌+◌, ◌≤◌, ◌≡◌, refl, arith, List, [], ◌∷◌, length, replicate}
use ledger_kee_pass.Host.Result.{success}
use ledger_kee_pass.Host.Usb.{Hid, failed, transferred, send, read, usb_exchange, read_loop}
use ledger_kee_pass.Host.Usb.Framing.{usb_exchange-fits, send-unnoticed}
use ledger_kee_pass.Host.Usb.Rounds.{read_loop-rounds}
use ledger_kee_pass.Host.Usb.RoundTrip.{loopback, read-send}

-- Bytes for three packets.
abbrev long_packet : List ℕ
long_packet = replicate 150 7

read-send_example :
    ((send loopback long_packet []).0 ≡ success)
    × (read loopback 200 (send loopback long_packet []).1
        ≡ record { result = success; answer = long_packet; device = [] })
read-send_example = read-send long_packet 200 (omega arith) (omega arith)

usb_exchange-fits_example : length (usb_exchange loopback 20 (1 ∷ 2 ∷ []) []).answer ≤ 20
usb_exchange-fits_example = usb_exchange-fits loopback 20 (1 ∷ 2 ∷ []) []

-- A device that was pulled out.
abbrev unplugged : Hid ℕ
unplugged = record { write = λ pkt n. (failed, n + 1); read_timeout = λ buf n. (failed, (buf, n)) }

send-unnoticed_example : (send unplugged long_packet 0).0 ≡ success
send-unnoticed_example = send-unnoticed unplugged long_packet 0 (λ pkt n. refl) (omega arith)

-- A device that always sends the same report.
abbrev babbling : Hid ℕ
babbling = record {
  write = λ pkt n. (transferred (length pkt), n);
  read_timeout = λ buf n. (transferred 64, (replicate 64 1, n + 1));
}

read_loop-rounds_example :
    read_loop babbling (101 + 9) (replicate 64 0) (replicate 57 0) 100 1 [] 0
    ≡ read_loop babbling 101 (replicate 64 0) (replicate 57 0) 100 1 [] 0
read_loop-rounds_example =
    read_loop-rounds babbling (λ buf n. refl) 9 101 (replicate 64 0) (replicate 57 0) 100 1 [] 0
      (omega arith) (omega arith)
