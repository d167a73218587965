-- ===== src/Host/Usb/Rounds.antt =====
-- The rounds that libkpl/src/ledger_device_usb.cpp's loops are given in the model are enough.
use ledger_kee_pass.Base.{
  ℕ, zero, suc, ◌+◌, ◌-◌, ◌≤◌, ◌<◌, ◌≡◌, refl, min, List, ◌++◌, arith, ltb, ◌==◌, length, take,
  drop, length-drop, u16, Bool-cases, inl, inr,
}
use ledger_kee_pass.Host.Usb.{Hid, send_loop, read_loop, usb_packet_start, store_be16}

module _ {H : Type 0} (hid : Hid H) where
  -- If there is room for a byte in the first packet and the rounds outnumber the bytes to send,
  -- then more rounds of the loop of `send` change nothing.
  pub send_loop-rounds :
      (more fuel : ℕ) (head : List ℕ) (room seq : ℕ) (bytes : List ℕ) (h : H)
      → 1 ≤ room
      → length bytes < fuel
      → send_loop hid (fuel + more) head room seq bytes h ≡ send_loop hid fuel head room seq bytes h
  unfolding send_loop
  send_loop-rounds more zero head room seq bytes h some_room enough = absurd (omega arith)
  send_loop-rounds more (suc fuel) head room seq bytes h some_room enough =
      let next : suc fuel + more ≡ suc (fuel + more) = omega arith in
      let size = length-drop {0} room bytes in
      rw next (elim (Bool-cases (ltb 0 (length (drop room bytes)))) [
        | inl left ↦ rw left (
            rw
              (send_loop-rounds more fuel (usb_packet_start ++ store_be16 seq) 59 (u16 (seq + 1))
                (drop room bytes) (hid.write (head ++ take room bytes) h).1 (omega arith)
                (ground (arith, size)))
              refl)
        | inr all_sent ↦ rw all_sent refl
      ])

  -- If every read from the device fills a buffer of 64 bytes, there is a byte to take in the
  -- first and the rounds outnumber the bytes to come, then more rounds of the loop of `read`
  -- change nothing.
  pub read_loop-rounds :
      ((buf : List ℕ) (s : H) → length (hid.read_timeout buf s).1.0 ≡ 64)
      → (more fuel : ℕ) (buf chunk : List ℕ) (in_len seq_ref : ℕ) (out : List ℕ) (h : H)
      → 1 ≤ length chunk
      → in_len < fuel
      → read_loop hid (fuel + more) buf chunk in_len seq_ref out h
        ≡ read_loop hid fuel buf chunk in_len seq_ref out h
  unfolding read_loop
  read_loop-rounds whole more zero buf chunk in_len seq_ref out h some_bytes enough =
      absurd (omega arith)
  read_loop-rounds whole more (suc fuel) buf chunk in_len seq_ref out h some_bytes enough =
      let next : suc fuel + more ≡ suc (fuel + more) = omega arith in
      let size = length-drop {0} 5 (hid.read_timeout buf h).1.0 in
      rw next (elim (Bool-cases (in_len - min in_len (length chunk) == 0)) [
        | inr left ↦ rw left (
            rw
              (read_loop-rounds whole more fuel (hid.read_timeout buf h).1.0
                (drop 5 (hid.read_timeout buf h).1.0) (in_len - min in_len (length chunk))
                (u16 (seq_ref + 1)) (out ++ take (min in_len (length chunk)) chunk)
                (hid.read_timeout buf h).1.1 (omega (arith, size, whole buf h)) (ground arith))
              refl)
        | inl all_read ↦ rw all_read refl
      ])
