-- ===== src/Host/Usb/Framing.antt =====
-- The loops of libkpl/src/ledger_device_usb.cpp: they stay within the answer's buffer, and their
-- rounds are enough.
use ledger_kee_pass.Base.{
  ℕ, zero, suc, ◌+◌, ◌-◌, ◌^◌, ◌≤◌, ◌≡◌, refl, min, Bool, true, false, List, [], ◌∷◌, ◌++◌, arith,
  ltb, ◌==◌, if◌then◌else◌, length, take, drop, length-append, length-take, u16, replicate,
}
use mathlib.Core.Bool.{not}
use ledger_kee_pass.Host.Result.{Result, success, is_success}
use ledger_kee_pass.Host.Transport.{Exchanged, load_be16}
use ledger_kee_pass.Host.Usb.{
  Hid, failed, usb_exchange, send_loop, send, read_loop, read, is_short, has_usb_header,
  usb_packet_start, store_be16,
}

pub if_property :
    {A : Type 0} (P : A → Type 0) (b : Bool) (x y : A)
    → P x
    → (b ≡ false → P y)
    → P (if b then x else y)
if_property P true x y p q = p
if_property P false x y p q = q refl

module _ {H : Type 0} (hid : Hid H) where
  read_loop-fits :
      (fuel : ℕ) (buf chunk : List ℕ) (in_len seq_ref : ℕ) (out : List ℕ) (h : H)
      → length (read_loop hid fuel buf chunk in_len seq_ref out h).answer ≤ length out + in_len
  unfolding read_loop
  read_loop-fits zero buf chunk in_len seq_ref out h = omega arith
  read_loop-fits (suc fuel) buf chunk in_len seq_ref out h =
      if_property small (in_len - min in_len (length chunk) == 0) _ _ now λ _.
        (if_property small (is_short (hid.read_timeout buf h).0) _ _ now λ _.
          (if_property small (not (load_be16 (hid.read_timeout buf h).1.0 3 == seq_ref)) _ _ now
            λ _.
              (omega (
                arith,
                size,
                read_loop-fits fuel (hid.read_timeout buf h).1.0
                    (drop 5 (hid.read_timeout buf h).1.0) (in_len - min in_len (length chunk))
                    (u16 (seq_ref + 1)) (out ++ take (min in_len (length chunk)) chunk)
                    (hid.read_timeout buf h).1.1,
              ))))
    where
      small : Exchanged H → Type 0
      small r = length r.answer ≤ length out + in_len

      size :
          length (out ++ take (min in_len (length chunk)) chunk)
          ≡ length out + min in_len (length chunk)
      size = omega (
        arith,
        length-append {0} out (take (min in_len (length chunk)) chunk),
        length-take {0} (min in_len (length chunk)) chunk,
      )

      now : length (out ++ take (min in_len (length chunk)) chunk) ≤ length out + in_len
      now = omega (arith, size)

  read-fits : (out_len : ℕ) (h : H) → length (read hid out_len h).answer ≤ out_len
  unfolding read
  read-fits out_len h = if_property small (ltb 0xFFFF out_len) _ _ (omega arith) λ _.
      if_property small (is_short (hid.read_timeout (replicate 64 0) h).0) _ _ (omega arith) λ _.
        if_property small (not (has_usb_header first)) _ _ (omega arith) λ _.
          if_property small (not (load_be16 first 3 == 0)) _ _ (omega arith) λ _.
            if_property small (ltb out_len (load_be16 first 5)) _ _ (omega arith) λ room.
              let loop =
                read_loop-fits (suc (load_be16 first 5)) first (drop 7 first) (load_be16 first 5) 1
                  [] (hid.read_timeout (replicate 64 0) h).1.1 in
              let bound : load_be16 first 5 ≤ out_len = ground arith in omega (arith, loop, bound)
    where
      small : Exchanged H → Type 0
      small r = length r.answer ≤ out_len

      first : List ℕ
      first = (hid.read_timeout (replicate 64 0) h).1.0

  -- Whatever the device sends, an exchange over USB writes at most as many bytes as the answer's
  -- buffer has.
  pub usb_exchange-fits :
      (size : ℕ) (packet : List ℕ) (h : H) → length (usb_exchange hid size packet h).answer ≤ size
  unfolding usb_exchange
  usb_exchange-fits size packet h =
      if_property (λ (r : Exchanged H). length r.answer ≤ size) (is_success (send hid packet h).0) _
        _ (read-fits size (send hid packet h).1) λ _. omega arith

  -- The loop of `send` takes each -1 for a number that is large enough.
  send_loop-unnoticed :
      (fuel : ℕ) (head : List ℕ) (room seq : ℕ) (bytes : List ℕ) (h : H)
      → ((pkt : List ℕ) (s : H) → (hid.write pkt s).0 ≡ failed)
      → length head + room ≤ 65
      → (send_loop hid fuel head room seq bytes h).0 ≡ success
  unfolding send_loop
  send_loop-unnoticed zero head room seq bytes h fails fits = λ _. success
  send_loop-unnoticed (suc fuel) head room seq bytes h fails fits =
      let small : ltb (2 ^ 64 - 1) (length (head ++ take room bytes)) ≡ false =
        ground (arith, length-append {0} head (take room bytes), length-take {0} room bytes) in
      rw (fails (head ++ take room bytes) h, small)
        (if_property (λ (r : Result × H). r.0 ≡ success) (ltb 0 (length (drop room bytes))) _ _
          (send_loop-unnoticed fuel _ 59 _ (drop room bytes) _ fails (omega arith))
          (λ _ _. success))

  -- If every `hid_write` fails with -1, `send` of at most 65535 bytes still succeeds.
  pub send-unnoticed :
      (bytes : List ℕ) (h : H)
      → ((pkt : List ℕ) (s : H) → (hid.write pkt s).0 ≡ failed)
      → length bytes ≤ 65535
      → (send hid bytes h).0 ≡ success
  unfolding send
  send-unnoticed bytes h fails short =
      let accepted : ltb 0xFFFF (length bytes) ≡ false = ground arith in
      rw accepted (
        send_loop-unnoticed (suc (length bytes))
          (usb_packet_start ++ (0 ∷ 0 ∷ store_be16 (u16 (length bytes)))) 57 1 bytes h fails
          (omega arith))
