-- ===== src/Host/Usb/RoundTrip.antt =====
-- What `send` of libkpl/src/ledger_device_usb.cpp cuts into packets, `read` puts together.
use ledger_kee_pass.Base.{
  ℕ, zero, suc, ◌+◌, ◌-◌, ◌*◌, ◌/◌, ◌≤◌, ◌<◌, ◌≡◌, refl, ◌∙◌, ap, sym, min, true, false, List, [],
  ◌∷◌, ◌++◌, arith, ltb, ◌==◌, if◌then◌else◌, length, take, drop, length-append, length-take,
  length-drop, take_all, take-append-drop, append-nil, append_assoc, length-replicate, u8, u16,
  Bool-cases, inl, inr, replicate,
}
use ledger_kee_pass.Host.Result.{success}
use ledger_kee_pass.Host.Transport.{Exchanged, load_be16}
use ledger_kee_pass.Host.Usb.{
  Hid, Count, transferred, send_loop, send, read_loop, read, usb_packet_start, store_be16,
}

-- A report of 64 bytes: the number of the report is taken off, the rest of it is zero.
abbrev report : List ℕ → List ℕ
report pkt = take 64 (drop 1 pkt ++ replicate 64 0)

abbrev pop : List ℕ → List (List ℕ) → Count × (List ℕ × List (List ℕ))
pop buf [] = (transferred 0, (buf, []))
pop buf (p ∷ queue) = (transferred 64, (p, queue))

-- A cable that brings every written report back, in order.
abbrev pub loopback : Hid (List (List ℕ))
loopback = record {
  write = λ pkt queue. (transferred (length pkt), queue ++ report pkt ∷ []);
  read_timeout = pop;
}

-- The reports of `send_loop`.
abbrev frames : ℕ → List ℕ → ℕ → ℕ → List ℕ → List (List ℕ)
frames zero head room seq bytes = []
frames (suc fuel) head room seq bytes =
    let rest =
      frames fuel (usb_packet_start ++ store_be16 seq) 59 (u16 (seq + 1)) (drop room bytes) in
    report (head ++ take room bytes) ∷ (if ltb 0 (length (drop room bytes)) then rest else [])

send_loop-frames :
    (fuel : ℕ) (head : List ℕ) (room seq : ℕ) (bytes : List ℕ) (queue : List (List ℕ))
    → send_loop loopback fuel head room seq bytes queue
      ≡ (success, queue ++ frames fuel head room seq bytes)
unfolding send_loop
send_loop-frames zero head room seq bytes queue = ap (λ q. (success, q)) (sym (append-nil queue))
send_loop-frames (suc fuel) head room seq bytes queue =
    let whole : ltb (length (head ++ take room bytes)) (length (head ++ take room bytes)) ≡ false =
      ground arith in
    elim (Bool-cases (ltb 0 (length (drop room bytes)))) [
      | inl more ↦
          rw (whole, more)
            (send_loop-frames fuel _ 59 (u16 (seq + 1)) (drop room bytes)
                (queue ++ report (head ++ take room bytes) ∷ [])
              ∙ ap (λ q. (success, q))
                  (append_assoc queue (report (head ++ take room bytes) ∷ []) _))
      | inr none_left ↦ rw (whole, none_left) refl
    ]

-- What the reports hold behind one of them.
abbrev behind : ℕ → ℕ → ℕ → List ℕ → List (List ℕ)
behind g room seq bytes =
    if ltb 0 (length (drop room bytes))
    then frames g (usb_packet_start ++ store_be16 seq) 59 (u16 (seq + 1)) (drop room bytes)
    else []

-- The report that `send_loop` writes in a round behind the first.
abbrev next_report : ℕ → List ℕ → List ℕ
next_report seq bytes = report ((usb_packet_start ++ store_be16 seq) ++ take 59 bytes)

next_report-seq :
    (seq : ℕ) (bytes : List ℕ) → seq < 65536 → load_be16 (next_report seq bytes) 3 ≡ seq
next_report-seq seq bytes h = omega arith

-- The bytes in a report behind its head, for a head with `room` bytes behind it.
abbrev chunk_of : ℕ → List ℕ → List ℕ
chunk_of room bytes = take room (take room bytes ++ replicate 64 0)

length-chunk_of : (room : ℕ) (bytes : List ℕ) → room ≤ 64 → length (chunk_of room bytes) ≡ room
length-chunk_of room bytes h = omega (
  arith,
  length-take {0} room (take room bytes ++ replicate 64 0),
  length-append {0} (take room bytes) (replicate 64 0),
  length-replicate {0} {A = ℕ} 64 0,
)

take_front : (xs ys : List ℕ) (n : ℕ) → length xs ≤ n → take (length xs) (take n (xs ++ ys)) ≡ xs
take_front [] ys n h = refl
take_front (x ∷ xs) ys zero h = absurd (omega arith)
take_front (x ∷ xs) ys (suc n) h = ap (λ t. x ∷ t) (take_front xs ys n (omega arith))

take-chunk_of :
    (room : ℕ) (bytes : List ℕ)
    → room ≤ 64
    → take (min (length bytes) (length (chunk_of room bytes))) (chunk_of room bytes)
      ≡ take room bytes
take-chunk_of room bytes h =
    let count : min (length bytes) (length (chunk_of room bytes)) ≡ length (take room bytes) =
      omega (arith, length-chunk_of room bytes h, length-take {0} room bytes) in
    ap (λ (k : ℕ). take k (chunk_of room bytes)) count
    ∙ take_front (take room bytes) (replicate 64 0) room (omega (arith, length-take {0} room bytes))

read_loop-last :
    (fuel room seq : ℕ) (buf chunk bytes out : List ℕ) (queue : List (List ℕ))
    → length bytes ≤ room
    → length chunk ≡ room
    → take (min (length bytes) (length chunk)) chunk ≡ take room bytes
    → read_loop loopback (suc fuel) buf chunk (length bytes) seq out queue
      ≡ record { result = success; answer = out ++ bytes; device = queue }
unfolding read_loop
read_loop-last fuel room seq buf chunk bytes out queue short size same =
    let done : (length bytes - min (length bytes) (length chunk) == 0) ≡ true = ground arith in
    rw done (
      ap {B = Exchanged (List (List ℕ))}
        (λ (a : List ℕ). record { result = success; answer = out ++ a; device = queue })
        (same ∙ take_all bytes short))

read_loop-next :
    (fuel room seq : ℕ) (buf chunk bytes out : List ℕ) (queue : List (List ℕ))
    → room < length bytes
    → seq < 65536
    → length chunk ≡ room
    → take (min (length bytes) (length chunk)) chunk ≡ take room bytes
    → read_loop loopback
        (suc fuel)
        buf
        chunk
        (length bytes)
        seq
        out
        (next_report seq (drop room bytes) ∷ queue)
      ≡ read_loop loopback fuel
          (next_report seq (drop room bytes))
          (chunk_of 59 (drop room bytes))
          (length (drop room bytes))
          (u16 (seq + 1))
          (out ++ take room bytes)
          queue
unfolding read_loop
read_loop-next fuel room seq buf chunk bytes out queue long fits size same =
    let left : length bytes - min (length bytes) (length chunk) ≡ length (drop room bytes) =
      omega (arith, length-drop {0} room bytes) in
    let open_ : (length (drop room bytes) == 0) ≡ false =
      ground (arith, length-drop {0} room bytes) in
    let word : (load_be16 (next_report seq (drop room bytes)) 3 == seq) ≡ true =
      ground (arith, next_report-seq seq (drop room bytes) fits) in
    simp (left, open_, word, same) refl

read_loop-frames :
    (fuel g room seq : ℕ) (buf chunk bytes out : List ℕ)
    → 1 ≤ room
    → length bytes < fuel
    → length bytes ≤ g
    → seq < 65536
    → length chunk ≡ room
    → take (min (length bytes) (length chunk)) chunk ≡ take room bytes
    → read_loop loopback fuel buf chunk (length bytes) seq out (behind g room seq bytes)
      ≡ record { result = success; answer = out ++ bytes; device = [] }
read_loop-frames zero g room seq buf chunk bytes out h1 h2 h3 h4 h5 h6 = absurd (omega arith)
read_loop-frames (suc fuel) zero room seq buf chunk bytes out h1 h2 h3 h4 h5 h6 =
    let all_read : ltb 0 (length (drop room bytes)) ≡ false =
      ground (arith, length-drop {0} room bytes) in
    rw all_read (read_loop-last fuel room seq buf chunk bytes out [] (omega arith) h5 h6)
read_loop-frames (suc fuel) (suc g) room seq buf chunk bytes out h1 h2 h3 h4 h5 h6 =
    let size = length-drop {0} room bytes in
    elim (Bool-cases (ltb 0 (length (drop room bytes)))) [
      | inr all_read ↦
          rw all_read
            (read_loop-last fuel room seq buf chunk bytes out [] (ground (arith, size)) h5 h6)
      | inl more ↦ rw more (
          read_loop-next fuel room seq buf chunk bytes out
            (behind g 59 (u16 (seq + 1)) (drop room bytes)) (ground (arith, size)) h4 h5 h6
          ∙ read_loop-frames fuel g 59 (u16 (seq + 1)) (next_report seq (drop room bytes))
              (chunk_of 59 (drop room bytes)) (drop room bytes) (out ++ take room bytes)
              (omega arith) (ground (arith, size)) (omega (arith, size)) (omega arith)
              (length-chunk_of 59 (drop room bytes) (omega arith))
              (take-chunk_of 59 (drop room bytes) (omega arith))
          ∙ ap {B = Exchanged (List (List ℕ))}
              (λ (a : List ℕ). record { result = success; answer = a; device = [] })
              (append_assoc out (take room bytes) (drop room bytes)
                ∙ ap (λ t. out ++ t) (take-append-drop room bytes)))
    ]

-- The packets into which `send` cuts a message, each a report of 64 bytes, are put together to
-- that message by `read`, if the answer's buffer has room for it and at most 65535 bytes.
pub read-send :
    (bytes : List ℕ) (out_len : ℕ)
    → length bytes ≤ out_len
    → out_len ≤ 65535
    → ((send loopback bytes []).0 ≡ success)
      × (read loopback out_len (send loopback bytes []).1
          ≡ record { result = success; answer = bytes; device = [] })
read-send bytes out_len fits short =
    (ap (λ p. p.0) sent, ap (λ p. read loopback out_len p.1) sent ∙ joined)
  where
    head : List ℕ
    head = usb_packet_start ++ (0 ∷ 0 ∷ store_be16 (u16 (length bytes)))

    first : List ℕ
    first = report (head ++ take 57 bytes)

    sent : send loopback bytes [] ≡ (success, first ∷ behind (length bytes) 57 1 bytes)
    sent =
        let accepted : ltb 0xFFFF (length bytes) ≡ false = ground arith in
        unfold send in rw accepted (send_loop-frames (suc (length bytes)) head 57 1 bytes [])

    joined :
        read loopback out_len (first ∷ behind (length bytes) 57 1 bytes)
        ≡ record { result = success; answer = bytes; device = [] }
    joined =
        let count : u8 (u16 (length bytes) / 256) * 256 + u8 (u16 (length bytes)) ≡ length bytes =
          omega arith in
        let accepted : ltb 0xFFFF out_len ≡ false = ground arith in
        let room : ltb out_len (length bytes) ≡ false = ground arith in
        unfold read in
        simp (accepted, count, room)
          (read_loop-frames (suc (length bytes)) (length bytes) 57 1 first (chunk_of 57 bytes) bytes
            [] (omega arith) (omega arith) (omega arith) (omega arith)
            (length-chunk_of 57 bytes (omega arith)) (take-chunk_of 57 bytes (omega arith)))
