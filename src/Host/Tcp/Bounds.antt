-- ===== src/Host/Tcp/Bounds.antt =====
-- The length that a peer announces to libkpl/src/ledger_device_tcp.cpp is checked before its bytes
-- are read.
use ledger_kee_pass.Base.{ℕ, ◌+◌, ◌-◌, ◌%◌, ◌^◌, ◌≤◌, List, arith, ltb, length}
use mathlib.Core.Bool.{not}
use ledger_kee_pass.Host.Result.{is_success}
use ledger_kee_pass.Host.Transport.{Exchanged}
use ledger_kee_pass.Host.Usb.Framing.{if_property}
use ledger_kee_pass.Host.Tcp.{
  Sockets, IsBounded, load_be32, store_be32, tcp_send, tcp_read, tcp_answer, tcp_exchange,
}

module _ {H : Type 0} (os : Sockets H) (bounded : IsBounded os) (size : ℕ) where
  abbrev Small : Exchanged H → Type 0
  Small r = length r.answer ≤ size

  tcp_answer-fits : (h : H) → Small (tcp_answer os size h)
  unfolding tcp_answer tcp_read
  tcp_answer-fits h =
      if_property Small (not (is_success (tcp_read os 4 h).result)) _ _ (omega arith) λ _.
        if_property Small (ltb size ((load_be32 (tcp_read os 4 h).answer + 2) % 2 ^ 32)) _ _
          (omega arith)
          λ room.
            let bound : (load_be32 (tcp_read os 4 h).answer + 2) % 2 ^ 32 ≤ size = ground arith in
            omega (
              arith,
              bound,
              bounded.fits ((load_be32 (tcp_read os 4 h).answer + 2) % 2 ^ 32)
                  (tcp_read os 4 h).device,
            )

  -- If a receive of the operating system writes no more than it is given room for, then, whatever
  -- length the peer announces, an exchange over TCP writes at most as many bytes as the answer's
  -- buffer has.
  pub tcp_exchange-fits :
      (bytes : List ℕ) (h : H) → length (tcp_exchange os size bytes h).answer ≤ size
  unfolding tcp_exchange
  tcp_exchange-fits bytes h =
      if_property Small (ltb (2 ^ 32 - 1) (length bytes)) _ _ (omega arith) λ _.
        if_property Small (not (is_success (tcp_send os (store_be32 (length bytes)) h).0)) _ _
          (omega arith)
          λ _.
            if_property Small
              (not (is_success (tcp_send os bytes (tcp_send os (store_be32 (length bytes)) h).1).0))
              _ _ (omega arith)
              λ _.
                tcp_answer-fits (tcp_send os bytes (tcp_send os (store_be32 (length bytes)) h).1).1
