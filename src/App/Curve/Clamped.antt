-- ===== src/App/Curve/Clamped.antt =====
-- The scalar of app/src/x25519.c is the one that X25519 takes (RFC 7748, `decodeScalar25519`).
use ledger_kee_pass.Base.{
  ℕ, zero, suc, ◌+◌, ◌*◌, ◌/◌, ◌%◌, ◌^◌, ◌≡◌, refl, ◌∙◌, ap, ap₂, Bool, true, List, [], ◌∷◌, ◌++◌,
  arith, ◌==◌, ==_iff, bit_and, bit_or, bit_and_mask, bit_and_high, holds_below, holds_below_at,
  length, get_or, set, take, drop, get_or-set_self, length-append, length-take, length-drop,
}
use ledger_kee_pass.App.Curve.{clamp}

-- The three lowest bits of the first byte are 0, and the two highest bits of the last byte 01.
abbrev pub first_clamped : ℕ → ℕ
first_clamped b = b / 8 % 32 * 8

abbrev pub last_clamped : ℕ → ℕ
last_clamped b = b % 64 + 64

-- The clamped scalar of 32 bytes
abbrev pub rfc_scalar : List ℕ → List ℕ
rfc_scalar s =
    first_clamped (get_or s 0 0) ∷ (take 30 (drop 1 s) ++ last_clamped (get_or s 31 0) ∷ [])

first_byte : (b : ℕ) → bit_and b 0xf8 ≡ first_clamped b
first_byte b =
    let split : b ≡ b / 8 * 2 ^ 3 + b % 8 = omega arith in
    ap (λ (t : ℕ). bit_and t 0xf8) split
    ∙ bit_and_high 3 (b / 8) (b % 8) 31 (omega arith)
    ∙ ap (λ (t : ℕ). t * 8) (bit_and_mask 5 (b / 8))

abbrev set_row : ℕ → Bool
set_row t = bit_or t 0x40 == t % 64 + 64

set_table : holds_below set_row 128 ≡ true
unfolding holds_below
set_table = refl

last_byte : (b : ℕ) → bit_or (bit_and b 0x7f) 0x40 ≡ last_clamped b
last_byte b =
    ap (λ (t : ℕ). bit_or t 0x40) (bit_and_mask 7 b)
    ∙ (==_iff _ _).0 (holds_below_at set_row 128 (b % 128) (omega arith) set_table)
    ∙ omega arith

set_last : (xs : List ℕ) (n v : ℕ) → length xs ≡ n + 1 → set xs n v ≡ take n xs ++ v ∷ []
set_last [] n v size = absurd (omega arith)
set_last (x ∷ []) zero v size = refl
set_last (x ∷ y ∷ xs) zero v size = absurd (omega arith)
set_last (x ∷ xs) (suc n) v size = ap (λ (t : List ℕ). x ∷ t) (set_last xs n v (omega arith))

set_twice : (xs : List ℕ) (i v w : ℕ) → set (set xs i v) i w ≡ set xs i w
set_twice [] i v w = refl
set_twice (x ∷ xs) zero v w = refl
set_twice (x ∷ xs) (suc i) v w = ap (λ (t : List ℕ). x ∷ t) (set_twice xs i v w)

-- The assignments of `X25519` clamp the scalar.
pub clamp-eq-rfc_scalar : (s : List ℕ) → length s ≡ 32 → clamp s ≡ rfc_scalar s
unfolding clamp
clamp-eq-rfc_scalar [] size = absurd (omega arith)
clamp-eq-rfc_scalar (x ∷ xs) size = ap₂ ◌∷◌ (first_byte x) (
    set_twice xs 30 masked _
    ∙ ap (set xs 30) (
        ap (λ (t : ℕ). bit_or t 0x40) (get_or-set_self xs 30 masked 0 (omega arith))
        ∙ last_byte (get_or xs 30 0))
    ∙ set_last xs 30 _ (omega arith))
  where
    masked : ℕ
    masked = bit_and (get_or xs 30 0) 0x7f

pub length-rfc_scalar : (s : List ℕ) → length s ≡ 32 → length (rfc_scalar s) ≡ 32
length-rfc_scalar s size = omega (
  arith,
  length-append {0} (take 30 (drop 1 s)) (last_clamped (get_or s 31 0) ∷ []),
  length-take {0} 30 (drop 1 s),
  length-drop {0} 1 s,
)
