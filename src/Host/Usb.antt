-- ===== src/Host/Usb.antt =====
-- libkpl/src/ledger_device_usb.cpp: how a packet is cut into USB packets of 64 bytes and how an
-- answer is put together from them.
pub mod Framing
pub mod RoundTrip
pub mod Rounds
use ledger_kee_pass.Base.{
  ℕ, zero, suc, ◌+◌, ◌-◌, ◌*◌, ◌/◌, ◌^◌, min, Bool, true, false, ◌&&◌, List, [], ◌∷◌, ◌++◌, ltb,
  ◌==◌, if◌then◌else◌, length, get_or, take, drop, u8, u16, replicate,
}
use mathlib.Core.Bool.{not}
use ledger_kee_pass.Host.Result.{
  Result, success, lib_bad_length, protocol_bad_length, transport_generic_error, transport_timeout,
  transport_usb_bad_packet, transport_usb_bad_seq, is_success,
}
use ledger_kee_pass.Host.Transport.{Exchanged, LedgerDevice, load_be16}

-- The `int` that hidapi's functions return: a number of bytes, or -1.
pub data Count : Type 0 where
  transferred : ℕ → Count
  failed : Count

-- hidapi, which is not part of the repository, with the states `H` of a device that is open.
pub record Hid (H : Type 0) : Type 0 where
  -- `hid_write`
  pub write : List ℕ → H → Count × H
  -- `hid_read_timeout` into a buffer of 64 bytes, with the buffer as it is then
  pub read_timeout : List ℕ → H → Count × (List ℕ × H)

-- The `int` as a `size_t`, which a comparison with a `size_t` makes of it.
abbrev pub as_size : Count → ℕ
as_size (transferred n) = n
as_size failed = 2 ^ 64 - 1

-- `storeu_be<uint16_t>`
abbrev pub store_be16 : ℕ → List ℕ
store_be16 n = u8 (n / 256) ∷ u8 n ∷ []

-- The report number 0 and USB_PACKET_HEADER
abbrev pub usb_packet_start : List ℕ
usb_packet_start = 0 ∷ 1 ∷ 1 ∷ 5 ∷ []

-- `hid_read_timeout(…) != sizeof(Buf)`, where an `int` is compared as a `size_t`.
abbrev pub is_short : Count → Bool
is_short c = not (as_size c == 64)

-- The negation of `Buf[0] != 0x01 || Buf[1] != 0x01 || Buf[2] != 5`
abbrev pub has_usb_header : List ℕ → Bool
has_usb_header buf = get_or buf 0 0 == 1 && (get_or buf 1 0 == 1 && get_or buf 2 0 == 5)

module _ {H : Type 0} (hid : Hid H) where
  -- The loop of `send`: `head` stands in `Buf` up to `It`, with `room` bytes behind it. Each round
  -- but the last sends at least one byte of `data`.
  unfoldable pub send_loop : ℕ → List ℕ → ℕ → ℕ → List ℕ → H → Result × H
  send_loop zero head room seq_num bytes h = (success, h)
  send_loop (suc fuel) head room seq_num bytes h =
      let pkt = head ++ take room bytes in
      let left = drop room bytes in
      let (written, h') = hid.write pkt h in
      let rest =
        send_loop fuel (usb_packet_start ++ store_be16 seq_num) 59 (u16 (seq_num + 1)) left h' in
      if ltb (as_size written) (length pkt)
      then (transport_generic_error, h')
      else (if ltb 0 (length left) then rest else (success, h'))

  -- `send`, on a device that is open
  unfoldable pub send : List ℕ → H → Result × H
  unfolding send_loop
  send bytes h =
      if ltb 0xFFFF (length bytes)
      then (lib_bad_length, h)
      else send_loop (suc (length bytes))
          (usb_packet_start ++ (0 ∷ 0 ∷ store_be16 (u16 (length bytes)))) 57 1 bytes h

  -- The loop of `read`: `chunk` is `Buf` from `It` on, `out` what has been read.
  unfoldable pub read_loop : ℕ → List ℕ → List ℕ → ℕ → ℕ → List ℕ → H → Exchanged H
  read_loop zero buf chunk in_len seq_ref out h = record {
    result = transport_timeout;
    answer = out;
    device = h;
  }
  read_loop (suc fuel) buf chunk in_len seq_ref out h =
      let len = min in_len (length chunk) in
      let out' = out ++ take len chunk in
      let left = in_len - len in
      let (got, (buf', h')) = hid.read_timeout buf h in
      let rest = read_loop fuel buf' (drop 5 buf') left (u16 (seq_ref + 1)) out' h' in
      if left == 0
      then record { result = success; answer = out'; device = h }
      else (if is_short got
          then record { result = transport_timeout; answer = out'; device = h' }
          else (if not (load_be16 buf' 3 == seq_ref)
              then record { result = transport_usb_bad_seq; answer = out'; device = h' }
              else rest))

  -- `read`, for an answer of at most `out_len` bytes
  unfoldable pub read : ℕ → H → Exchanged H
  unfolding read_loop
  read out_len h =
      let (got, (buf, h')) = hid.read_timeout (replicate 64 0) h in
      let in_len = load_be16 buf 5 in
      if ltb 0xFFFF out_len
      then record { result = lib_bad_length; answer = []; device = h }
      else (if is_short got
          then record { result = transport_timeout; answer = []; device = h' }
          else (if not (has_usb_header buf)
              then record { result = transport_usb_bad_packet; answer = []; device = h' }
              else (if not (load_be16 buf 3 == 0)
                  then record { result = transport_usb_bad_seq; answer = []; device = h' }
                  else (if ltb out_len in_len
                      then record { result = protocol_bad_length; answer = []; device = h' }
                      else read_loop (suc in_len) buf (drop 7 buf) in_len 1 [] h'))))

  -- `exchange`
  unfoldable pub usb_exchange : ℕ → List ℕ → H → Exchanged H
  unfolding send read
  usb_exchange size bytes h =
      let (sent, h') = send bytes h in
      if is_success sent then read size h' else record { result = sent; answer = []; device = h' }
