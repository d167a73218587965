-- ===== src/Base/Bytes.antt =====
-- Bytes and arrays of bytes: `uint8_t` values are numbers below 256.
use Prim.Native.Nat.{ℕ, zero, suc, ◌%◌, ◌<◌, bit_xor}
use mathlib.Core.Path.{◌≡◌, refl, ap₂}
use mathlib.Core.List.{List, [], ◌∷◌, ◌++◌}
use native.Mathlib.Omega.{arith}
use ledger_kee_pass.Base.Lists.{length, take, drop}
use ledger_kee_pass.Base.Bits.{bit_xor_cancel}

-- `(uint8_t) n`
abbrev pub u8 : ℕ → ℕ
u8 n = n % 256

-- `(uint16_t) n`
abbrev pub u16 : ℕ → ℕ
u16 n = n % 65536

abbrev pub AllBytes : List ℕ → Type 0
AllBytes [] = Unit {0}
AllBytes (x ∷ xs) = (x < 256) × AllBytes xs

pub AllBytes-append : (xs ys : List ℕ) → AllBytes xs → AllBytes ys → AllBytes (xs ++ ys)
AllBytes-append [] ys h k = k
AllBytes-append (x ∷ xs) ys h k = (h.0, AllBytes-append xs ys h.1 k)

pub AllBytes-take : (n : ℕ) (xs : List ℕ) → AllBytes xs → AllBytes (take n xs)
AllBytes-take zero xs h = tt
AllBytes-take (suc n) [] h = tt
AllBytes-take (suc n) (x ∷ xs) h = (h.0, AllBytes-take n xs h.1)

pub AllBytes-drop : (n : ℕ) (xs : List ℕ) → AllBytes xs → AllBytes (drop n xs)
AllBytes-drop zero xs h = h
AllBytes-drop (suc n) [] h = tt
AllBytes-drop (suc n) (x ∷ xs) h = AllBytes-drop n xs h.1

-- `for (i < n) a[i] ^= b[i]`, on two arrays of the same length.
abbrev pub xor_bytes : List ℕ → List ℕ → List ℕ
xor_bytes [] ys = []
xor_bytes (x ∷ xs) [] = x ∷ xs
xor_bytes (x ∷ xs) (y ∷ ys) = bit_xor x y ∷ xor_bytes xs ys

pub length-xor_bytes : (xs ys : List ℕ) → length (xor_bytes xs ys) ≡ length xs
length-xor_bytes [] ys = refl
length-xor_bytes (x ∷ xs) [] = refl
length-xor_bytes (x ∷ xs) (y ∷ ys) = omega (arith, length-xor_bytes xs ys)

-- The same key stream applied twice gives the text back.
pub xor_bytes_cancel : (xs ys : List ℕ) → xor_bytes (xor_bytes xs ys) ys ≡ xs
xor_bytes_cancel [] ys = refl
xor_bytes_cancel (x ∷ xs) [] = refl
xor_bytes_cancel (x ∷ xs) (y ∷ ys) = ap₂ ◌∷◌ (bit_xor_cancel x y) (xor_bytes_cancel xs ys)
