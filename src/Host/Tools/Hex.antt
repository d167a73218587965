-- ===== src/Host/Tools/Hex.antt =====
-- The hexadecimal texts that the tools read and print (libkpl/tools/set.cpp, get.cpp).
use ledger_kee_pass.Base.{
  ℕ, get_or, ◌==◌, ==_iff, holds_below, holds_below_at, ◌∙◌, ap, ◌/◌, ◌%◌, ◌<◌, ◌≡◌, refl, ap₂,
  true, List, [], ◌∷◌, arith, inl, inr, ◌⊎◌, AllBytes,
}
use ledger_kee_pass.App.Instrs.{codes}
use ledger_kee_pass.Host.Tools.Text.{
  to_lower, is_hex, digit_value, scan_hex, from_hex, upper_digit, print_hex,
}

-- The digits of the numbers below 16, and two for each byte
abbrev pub capital : ℕ → ℕ
capital v = get_or (codes "0123456789ABCDEF") v 0

abbrev pub small : ℕ → ℕ
small v = get_or (codes "0123456789abcdef") v 0

abbrev pub hex_text : List ℕ → List ℕ
hex_text [] = []
hex_text (v ∷ key) = capital (v / 16) ∷ capital (v % 16) ∷ hex_text key

-- The digit of a number below 16, in either case
abbrev pub IsDigit : ℕ → ℕ → Type 0
IsDigit v c = (c ≡ capital v) ⊎ (c ≡ small v)

-- A text of two digits for each byte, in either case
abbrev pub IsHexOf : List ℕ → List ℕ → Type 0
IsHexOf [] [] = Unit {0}
IsHexOf [] (c ∷ text) = ⊥
IsHexOf (v ∷ key) [] = ⊥
IsHexOf (v ∷ key) (a ∷ []) = ⊥
IsHexOf (v ∷ key) (a ∷ b ∷ text) =
    (v < 256) × IsDigit (v / 16) a × IsDigit (v % 16) b × IsHexOf key text

digits_agree :
    (f g : ℕ → ℕ) → holds_below (λ v. f v == g v) 16 ≡ true → (v : ℕ) → v < 16 → f v ≡ g v
digits_agree f g table v h = (==_iff _ _).0 (holds_below_at (λ v. f v == g v) 16 v h table)

digit_lem :
    (v : ℕ)
    → v < 16
    → (upper_digit v ≡ capital v)
      × (to_lower (capital v) ≡ small v)
      × (to_lower (small v) ≡ small v)
      × (is_hex (small v) ≡ true)
      × (digit_value (small v) ≡ v)
digit_lem v h = (
  digits_agree upper_digit capital (unfold holds_below in refl) v h,
  digits_agree (λ v. to_lower (capital v)) small (unfold holds_below in refl) v h,
  digits_agree (λ v. to_lower (small v)) small (unfold holds_below in refl) v h,
  holds_below_at (λ v. is_hex (small v)) 16 v h (unfold holds_below in refl),
  digits_agree (λ v. digit_value (small v)) (λ v. v) (unfold holds_below in refl) v h,
)

lower_digit : (v c : ℕ) → v < 16 → IsDigit v c → to_lower c ≡ small v
lower_digit v c h (inl e) = ap to_lower e ∙ (digit_lem v h).1
lower_digit v c h (inr e) = ap to_lower e ∙ (digit_lem v h).2

-- A digit in either case is read as the number that it stands for.
digit-IsHex : (v c : ℕ) → v < 16 → IsDigit v c → is_hex (to_lower c) ≡ true
digit-IsHex v c h d = ap is_hex (lower_digit v c h d) ∙ (digit_lem v h).3

digit_value_lem : (v c : ℕ) → v < 16 → IsDigit v c → digit_value (to_lower c) ≡ v
digit_value_lem v c h d = ap digit_value (lower_digit v c h d) ∙ (digit_lem v h).4

scan_hex_lem :
    (junk : ℕ → ℕ → ℕ) (v a b : ℕ)
    → v < 256
    → IsDigit (v / 16) a
    → IsDigit (v % 16) b
    → scan_hex junk (to_lower a) (to_lower b) % 256 ≡ v
unfolding scan_hex
scan_hex_lem junk v a b h ha hb =
    rw
      (
        digit-IsHex (v / 16) a (omega arith) ha,
        digit-IsHex (v % 16) b (omega arith) hb,
        digit_value_lem (v / 16) a (omega arith) ha,
        digit_value_lem (v % 16) b (omega arith) hb,
      )
      (omega arith)

-- Digits in either case are read as the bytes that they stand for.
pub from_hex_lem :
    (junk : ℕ → ℕ → ℕ) (key text : List ℕ) → IsHexOf key text → from_hex junk text ≡ key
unfolding from_hex
from_hex_lem junk [] [] h = refl
from_hex_lem junk [] (c ∷ text) h = absurd h
from_hex_lem junk (v ∷ key) [] h = absurd h
from_hex_lem junk (v ∷ key) (a ∷ []) h = absurd h
from_hex_lem junk (v ∷ key) (a ∷ b ∷ text) (fits, ha, hb, rest) =
    ap₂ ◌∷◌ (scan_hex_lem junk v a b fits ha hb) (from_hex_lem junk key text rest)

pub hex_text-IsHexOf : (key : List ℕ) → AllBytes key → IsHexOf key (hex_text key)
hex_text-IsHexOf [] h = tt
hex_text-IsHexOf (v ∷ key) (fits, rest) = (fits, inl refl, inl refl, hex_text-IsHexOf key rest)

-- What `kpl_get` prints for the bytes of such a text
pub print_hex-eq-hex_text : (key text : List ℕ) → IsHexOf key text → print_hex key ≡ hex_text key
unfolding print_hex
print_hex-eq-hex_text [] text h = refl
print_hex-eq-hex_text (v ∷ key) [] h = absurd h
print_hex-eq-hex_text (v ∷ key) (a ∷ []) h = absurd h
print_hex-eq-hex_text (v ∷ key) (a ∷ b ∷ text) (fits, ha, hb, rest) =
    ap₂ ◌∷◌ (digit_lem (v / 16) (omega arith)).0
      (ap₂ ◌∷◌ (digit_lem (v % 16) (omega arith)).0 (print_hex-eq-hex_text key text rest))
