-- ===== src/Host/Devices/Ports.antt =====
-- The port of the environment goes through `atoi` and `std::to_string`
-- (libkpl/src/ledger_device_tcp.cpp) unchanged.
use ledger_kee_pass.Base.{
  ℕ, zero, suc, ◌+◌, ◌-◌, ◌*◌, ◌/◌, ◌%◌, ◌≤◌, ◌<◌, ◌≡◌, refl, ◌∙◌, ap, true, false, List, [], ◌∷◌,
  ◌++◌, arith, ltb, ◌==◌, Bool-cases, inl, inr, pos,
}
use ledger_kee_pass.Host.Devices.{
  to_string, is_digit, is_space, atoi_digits, skip_spaces, signed, atoi,
}

abbrev AllDigits : List ℕ → Type 0
AllDigits [] = Unit {0}
AllDigits (c ∷ text) = ((48 ≤ c) × (c ≤ 57)) × AllDigits text

-- The numbers with at most so many digits
abbrev pub decimals : ℕ → ℕ
decimals zero = 1
decimals (suc fuel) = 10 * decimals fuel

AllDigits-append : (xs ys : List ℕ) → AllDigits xs → AllDigits ys → AllDigits (xs ++ ys)
AllDigits-append [] ys h k = k
AllDigits-append (x ∷ xs) ys h k = (h.0, AllDigits-append xs ys h.1 k)

to_string-AllDigits : (fuel n : ℕ) → AllDigits (to_string fuel n)
unfolding to_string
to_string-AllDigits zero n = tt
to_string-AllDigits (suc fuel) n = elim (Bool-cases (ltb n 10)) [
  | inl one ↦ let below : n < 10 = ground arith in rw one ((omega arith, omega arith), tt)
  | inr more ↦ rw more (
      AllDigits-append (to_string fuel (n / 10)) ((48 + n % 10) ∷ [])
        (to_string-AllDigits fuel (n / 10)) ((omega arith, omega arith), tt))
]

atoi_digits-append :
    (acc c : ℕ) (text : List ℕ)
    → AllDigits text
    → 48 ≤ c
    → c ≤ 57
    → atoi_digits acc (text ++ c ∷ []) ≡ atoi_digits acc text * 10 + (c - 48)
unfolding atoi_digits
atoi_digits-append acc c [] h low high = ground arith
atoi_digits-append acc c (x ∷ text) h low high =
    let digit : is_digit x ≡ true = ground (arith, h.0.0, h.0.1) in
    rw digit (atoi_digits-append (acc * 10 + (x - 48)) c text h.1 low high)

atoi_digits-to_string : (fuel n : ℕ) → n < decimals fuel → atoi_digits 0 (to_string fuel n) ≡ n
unfolding atoi_digits to_string
atoi_digits-to_string zero n h = omega arith
atoi_digits-to_string (suc fuel) n h = elim (Bool-cases (ltb n 10)) [
  | inl one ↦
      let below : n < 10 = ground arith in
      let digit : is_digit (48 + n) ≡ true = ground arith in rw (one, digit) (omega arith)
  | inr more ↦ rw more (
      atoi_digits-append 0 (48 + n % 10) (to_string fuel (n / 10))
        (to_string-AllDigits fuel (n / 10)) (omega arith) (omega arith)
      ∙ omega (arith, atoi_digits-to_string fuel (n / 10) (omega arith)))
]

atoi-AllDigits : (text : List ℕ) → AllDigits text → atoi text ≡ pos (atoi_digits 0 text)
unfolding atoi skip_spaces signed atoi_digits
atoi-AllDigits [] h = refl
atoi-AllDigits (c ∷ text) h =
    let space : is_space c ≡ false = ground (arith, h.0.0, h.0.1) in
    let minus : (c == 45) ≡ false = ground (arith, h.0.0, h.0.1) in
    let plus : (c == 43) ≡ false = ground (arith, h.0.0, h.0.1) in rw (space, minus, plus) refl

-- A number that is written in at most so many digits reads back.
pub atoi-to_string : (fuel n : ℕ) → n < decimals fuel → atoi (to_string fuel n) ≡ pos n
atoi-to_string fuel n h =
    atoi-AllDigits (to_string fuel n) (to_string-AllDigits fuel n)
    ∙ ap pos (atoi_digits-to_string fuel n h)
