-- ===== src/Tests/Tcp.antt =====
-- The TCP transport (libkpl/src/ledger_device_tcp.cpp) at concrete inputs.
use ledger_kee_pass.Base.{ℕ, ◌+◌, ◌≤◌, false, List, [], ◌∷◌, arith, length, take, length-take}
use ledger_kee_pass.Host.Usb.{transferred}
use ledger_kee_pass.Host.Tcp.{Sockets, IsBounded, tcp_exchange}
use ledger_kee_pass.Host.Tcp.Bounds.{tcp_exchange-fits}

abbrev announced : List ℕ
announced = 0 ∷ 0 ∷ 0 ∷ 1 ∷ []

-- A peer that announces one byte more than the status, at every receive.
abbrev boaster : Sockets ℕ
boaster = record {
  sock_send = λ bytes n. (transferred (length bytes), n);
  sock_recv = λ len n. record {
    count = transferred len;
    would_block = false;
    bytes = take len announced;
    socket = n + 1;
  };
}

boaster-IsBounded : IsBounded boaster
boaster-IsBounded = record { fits = λ len n. omega (arith, length-take {0} len announced) }

tcp_exchange-fits_example : length (tcp_exchange boaster 66 (1 ∷ 2 ∷ []) 0).answer ≤ 66
tcp_exchange-fits_example = tcp_exchange-fits boaster boaster-IsBounded 66 (1 ∷ 2 ∷ []) 0
