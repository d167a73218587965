-- ===== src/Base/Bits.antt =====
-- Laws of the bit operations at variables, from the recursion on binary digits.
use Prim.Native.Nat.{
  ℕ, zero, suc, ◌+◌, ◌-◌, ◌*◌, ◌/◌, ◌%◌, ◌^◌, ◌≤◌, ◌<◌, min, max, digits, bitwise,
}
use Prim.Native.Nat.{bit_and, bit_or, bit_xor, differ}
use Prim.Native.Nat.{bit_and-bitwise, bit_or-bitwise, bit_xor-bitwise}
use mathlib.Core.Path.{◌≡◌, refl, ap, sym, ◌∙◌}
use native.Mathlib.Nat.{le_refl, pow-suc, one-le-pow}
use native.Mathlib.Omega.{arith}

module _ (finish : ℕ → ℕ) (digit : ℕ → ℕ → ℕ) where
  run_out : (rounds y : ℕ) → digits finish digit rounds 0 y ≡ finish y
  run_out zero y = refl
  run_out (suc rounds) y = refl

  -- Rounds beyond the size of the first number change nothing.
  extra_rounds : (n k x y : ℕ) → x ≤ n → digits finish digit (n + k) x y ≡ digits finish digit n x y
  extra_rounds n k zero y h = run_out (n + k) y ∙ sym (run_out n y)
  extra_rounds zero k (suc x) y h = absurd (omega arith)
  extra_rounds (suc n) k (suc x) y h =
      let next : suc n + k ≡ suc (n + k) = omega arith in
      rw next (
        ap (λ (t : ℕ). t * 2 + digit (suc x % 2) (y % 2))
          (extra_rounds n k (suc x / 2) (y / 2) (omega arith)))

  enough_rounds : (n x y : ℕ) → x ≤ n → digits finish digit n x y ≡ bitwise finish digit x y
  enough_rounds n x y h =
      let split : n ≡ x + (n - x) = omega arith in
      ap (λ (m : ℕ). digits finish digit m x y) split ∙ extra_rounds x (n - x) x y (omega arith)

  -- The lowest digit and the rest, where `finish` is itself the operation with 0.
  lowest_digit :
      (x y : ℕ)
      → finish y ≡ finish (y / 2) * 2 + digit 0 (y % 2)
      → bitwise finish digit x y ≡ bitwise finish digit (x / 2) (y / 2) * 2 + digit (x % 2) (y % 2)
  lowest_digit zero y h = h
  lowest_digit (suc x) y h =
      ap (λ (t : ℕ). t * 2 + digit (suc x % 2) (y % 2))
        (enough_rounds x (suc x / 2) (y / 2) (omega arith))

pub bit_or_digit : (x y : ℕ) → bit_or x y ≡ bit_or (x / 2) (y / 2) * 2 + max (x % 2) (y % 2)
bit_or_digit x y = simp bit_or-bitwise (lowest_digit (λ t. t) max x y (omega arith))

pub bit_and_digit : (x y : ℕ) → bit_and x y ≡ bit_and (x / 2) (y / 2) * 2 + min (x % 2) (y % 2)
bit_and_digit x y = simp bit_and-bitwise (lowest_digit (λ t. 0) min x y (omega arith))

pub bit_xor_digit : (x y : ℕ) → bit_xor x y ≡ bit_xor (x / 2) (y / 2) * 2 + differ (x % 2) (y % 2)
bit_xor_digit x y = simp bit_xor-bitwise (lowest_digit (λ t. t) differ x y (omega arith))

-- What holds at 0, and at a number when it holds at its half, holds everywhere.
module _ (P : ℕ → Type 0) (base : P 0) (up : (n : ℕ) → P (suc n / 2) → P (suc n)) where
  halving_up_to : (n x : ℕ) → x ≤ n → P x
  halving_up_to n zero h = base
  halving_up_to zero (suc x) h = absurd (omega arith)
  halving_up_to (suc n) (suc x) h = up x (halving_up_to n (suc x / 2) (omega arith))

  pub halving : (x : ℕ) → P x
  halving x = halving_up_to x x (le_refl x)

-- Two digits that differ: what a second exclusive or gives back.
differ_cancel : (x y : ℕ) → x < 2 → y < 2 → (differ (differ x y) y ≡ x) × (differ x y < 2)
differ_cancel zero zero p q = (refl, omega arith)
differ_cancel zero (suc zero) p q = (refl, omega arith)
differ_cancel zero (suc (suc y)) p q = absurd (omega arith)
differ_cancel (suc zero) zero p q = (refl, omega arith)
differ_cancel (suc zero) (suc zero) p q = (refl, omega arith)
differ_cancel (suc zero) (suc (suc y)) p q = absurd (omega arith)
differ_cancel (suc (suc x)) y p q = absurd (omega arith)

bit_xor_cancel_fuel : (n a b : ℕ) → a ≤ n → b ≤ n → bit_xor (bit_xor a b) b ≡ a
bit_xor_cancel_fuel zero zero zero p q = refl
bit_xor_cancel_fuel zero zero (suc b) p q = absurd (omega arith)
bit_xor_cancel_fuel zero (suc a) b p q = absurd (omega arith)
bit_xor_cancel_fuel (suc n) a b p q =
    let d = differ_cancel (a % 2) (b % 2) (omega arith) (omega arith) in
    let half : bit_xor a b / 2 ≡ bit_xor (a / 2) (b / 2) = omega (arith, bit_xor_digit a b, d.1) in
    let low : bit_xor a b % 2 ≡ differ (a % 2) (b % 2) = omega (arith, bit_xor_digit a b, d.1) in
    let ih = bit_xor_cancel_fuel n (a / 2) (b / 2) (omega arith) (omega arith) in
    bit_xor_digit (bit_xor a b) b ∙ rw (half, low, ih, d.0) (omega arith)

-- A second exclusive or with the same value undoes the first.
pub bit_xor_cancel : (a b : ℕ) → bit_xor (bit_xor a b) b ≡ a
bit_xor_cancel a b = bit_xor_cancel_fuel (a + b) a b (omega arith) (omega arith)

bit_xor-lt_fuel : (k a b : ℕ) → a < 2 ^ k → b < 2 ^ k → bit_xor a b < 2 ^ k
bit_xor-lt_fuel zero zero zero p q = omega arith
bit_xor-lt_fuel zero zero (suc b) p q = absurd (omega arith)
bit_xor-lt_fuel zero (suc a) b p q = absurd (omega arith)
bit_xor-lt_fuel (suc k) a b p q =
    let d = differ_cancel (a % 2) (b % 2) (omega arith) (omega arith) in
    let e = pow-suc 2 k in
    let ih = bit_xor-lt_fuel k (a / 2) (b / 2) (omega arith) (omega arith) in
    omega (arith, bit_xor_digit a b, d.1, ih)

-- A byte stays a byte.
pub bit_xor-lt : (a b : ℕ) → a < 256 → b < 256 → bit_xor a b < 256
bit_xor-lt a b p q = bit_xor-lt_fuel 8 a b p q

bit_or-zero : (x : ℕ) → bit_or x 0 ≡ x
bit_or-zero = halving (λ x. bit_or x 0 ≡ x) refl λ n ih. omega (arith, bit_or_digit (suc n) 0, ih)

bit_and-zero : (x : ℕ) → bit_and x 0 ≡ 0
bit_and-zero =
    halving (λ x. bit_and x 0 ≡ 0) refl λ n ih. omega (arith, bit_and_digit (suc n) 0, ih)

double : (q k : ℕ) → q * 2 ^ suc k ≡ 2 * (q * 2 ^ k)
double q k = omega (arith, ap (λ (t : ℕ). q * t) (pow-suc 2 k))

-- `(q << k) | r` is a sum when `r` fits `k` bits.
pub bit_or_sum : (k q r : ℕ) → r < 2 ^ k → bit_or (q * 2 ^ k) r ≡ q * 2 ^ k + r
bit_or_sum zero q zero h = ground (arith, bit_or-zero q)
bit_or_sum zero q (suc r) h = absurd (omega arith)
bit_or_sum (suc k) q r h = ground (
  arith,
  bit_or_digit (q * 2 ^ suc k) r,
  double q k,
  bit_or_sum k q (r / 2) (omega (arith, pow-suc 2 k)),
)

and_low : (k q r : ℕ) → r < 2 ^ k → bit_and (q * 2 ^ k + r) (2 ^ k - 1) ≡ r
and_low zero q r h = rw bit_and-zero (omega arith)
and_low (suc k) q r h = ground (
  arith,
  bit_and_digit (q * 2 ^ suc k + r) (2 ^ suc k - 1),
  double q k,
  pow-suc 2 k,
  and_low k q (r / 2) (omega (arith, pow-suc 2 k)),
)

-- A mask of `k` low bits is the remainder by `2 ^ k`.
pub bit_and_mask : (k a : ℕ) → bit_and a (2 ^ k - 1) ≡ a % 2 ^ k
bit_and_mask k a = ground (arith, one-le-pow k 2, and_low k (a / 2 ^ k) (a % 2 ^ k))

-- A mask that is zero in its low `k` bits looks only at the bits above.
pub bit_and_high :
    (k q r m : ℕ) → r < 2 ^ k → bit_and (q * 2 ^ k + r) (m * 2 ^ k) ≡ bit_and q m * 2 ^ k
bit_and_high zero q r m h =
    let e : q * 1 + r ≡ q = omega arith in
    let e' : m * 1 ≡ m = omega arith in rw (e, e') (omega arith)
bit_and_high (suc k) q r m h = ground (
  arith,
  bit_and_digit (q * 2 ^ suc k + r) (m * 2 ^ suc k),
  double q k,
  double m k,
  double (bit_and q m) k,
  bit_and_high k q (r / 2) m (omega (arith, pow-suc 2 k)),
)

-- `(m << k) | (q << k | r)` for an `r` that fits `k` bits.
pub bit_or_high :
    (k q r m : ℕ) → r < 2 ^ k → bit_or (q * 2 ^ k + r) (m * 2 ^ k) ≡ bit_or q m * 2 ^ k + r
bit_or_high zero q r m h =
    let e : q * 1 + r ≡ q = omega arith in
    let e' : m * 1 ≡ m = omega arith in rw (e, e') (omega arith)
bit_or_high (suc k) q r m h = ground (
  arith,
  bit_or_digit (q * 2 ^ suc k + r) (m * 2 ^ suc k),
  double q k,
  double m k,
  double (bit_or q m) k,
  bit_or_high k q (r / 2) m (omega (arith, pow-suc 2 k)),
)
