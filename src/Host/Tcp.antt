-- ===== src/Host/Tcp.antt =====
-- libkpl/src/ledger_device_tcp.cpp: an exchange over a socket that is connected.
pub mod Bounds
use ledger_kee_pass.Base.{
  ℕ, ◌+◌, ◌-◌, ◌*◌, ◌/◌, ◌%◌, ◌^◌, ◌≤◌, ◌≡◌, Bool, true, false, List, [], ◌∷◌, arith, ltb, ◌==◌,
  if◌then◌else◌, length, get_or, u8,
}
use mathlib.Core.Bool.{not}
use ledger_kee_pass.Host.Result.{
  Result, success, lib_bad_length, protocol_bad_length, transport_generic_error, transport_timeout,
  is_success,
}
use ledger_kee_pass.Host.Transport.{Exchanged}
use ledger_kee_pass.Host.Usb.{Count, transferred, failed, as_size}

-- How `sock_recv` ends: its `ssize_t`, whether errno is EWOULDBLOCK or EAGAIN, and the bytes that it
-- wrote.
pub record Received (H : Type 0) : Type 0 where
  pub count : Count
  pub would_block : Bool
  pub bytes : List ℕ
  pub socket : H

-- The operating system's sockets, which are not part of the repository, with states `H`.
pub record Sockets (H : Type 0) : Type 0 where
  -- `sock_send`
  pub sock_send : List ℕ → H → Count × H
  -- `sock_recv` into a buffer of that many bytes
  pub sock_recv : ℕ → H → Received H

-- What the code relies on: `recv` writes no more than it was given room for.
pub record IsBounded {H : Type 0} (os : Sockets H) : Type 0 where
  pub fits : (len : ℕ) (h : H) → length (os.sock_recv len h).bytes ≤ len

-- `htonl` on the bytes of the number, and `ntohl`
abbrev pub store_be32 : ℕ → List ℕ
store_be32 n = u8 (n / 2 ^ 24) ∷ u8 (n / 2 ^ 16) ∷ u8 (n / 2 ^ 8) ∷ u8 n ∷ []

abbrev pub load_be32 : List ℕ → ℕ
load_be32 b = get_or b 0 0 * 2 ^ 24 + get_or b 1 0 * 2 ^ 16 + get_or b 2 0 * 2 ^ 8 + get_or b 3 0

module _ {H : Type 0} (os : Sockets H) where
  -- `send`
  unfoldable pub tcp_send : List ℕ → H → Result × H
  tcp_send bytes h =
      let (count, h') = os.sock_send bytes h in
      ((if as_size count == length bytes then success else transport_generic_error), h')

  -- The tests of `read` on what `sock_recv` returned.
  unfoldable pub recv_result : ℕ → Received H → Result
  recv_result out_len r = elim r.count [
    | transferred n ↦
        if ltb n out_len
        then transport_timeout
        else (if n == out_len then success else transport_generic_error)
    | failed ↦ if r.would_block then transport_timeout else transport_generic_error
  ]

  -- `read`
  unfoldable pub tcp_read : ℕ → H → Exchanged H
  unfolding recv_result
  tcp_read out_len h =
      let r = os.sock_recv out_len h in
      record { result = recv_result out_len r; answer = r.bytes; device = r.socket }

  -- `exchange` behind the two calls of `send`
  unfoldable pub tcp_answer : ℕ → H → Exchanged H
  unfolding tcp_read
  tcp_answer size h =
      let len = tcp_read 4 h in
      let recv_len = (load_be32 len.answer + 2) % 2 ^ 32 in
      if not (is_success len.result)
      then record { result = len.result; answer = []; device = len.device }
      else (if ltb size recv_len
          then record { result = protocol_bad_length; answer = []; device = len.device }
          else tcp_read recv_len len.device)

  -- `exchange`
  unfoldable pub tcp_exchange : ℕ → List ℕ → H → Exchanged H
  unfolding tcp_send tcp_answer
  tcp_exchange size bytes h =
      let (header_sent, h') = tcp_send (store_be32 (length bytes)) h in
      let (bytes_sent, h'') = tcp_send bytes h' in
      if ltb (2 ^ 32 - 1) (length bytes)
      then record { result = lib_bad_length; answer = []; device = h }
      else (if not (is_success header_sent)
          then record { result = header_sent; answer = []; device = h' }
          else (if not (is_success bytes_sent)
              then record { result = bytes_sent; answer = []; device = h'' }
              else tcp_answer size h''))
