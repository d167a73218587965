-- ===== src/Tests/Toy.antt =====
-- A small SDK and a small libsodium that meet what the models of app/src/ and libkpl/src/ rely on,
-- and states of the application to run from. The curve is addition of bytes.
use mathlib.Core.List.{reverse, reverse-reverse}
use ledger_kee_pass.Base.{
  ℕ, zero, suc, ◌<◌, get_or, ◌+◌, ◌*◌, ◌≡◌, refl, ◌∙◌, ap, ap₂, sym, Option, some, none, List, [],
  ◌∷◌, arith, length, replicate, length-replicate, length-reverse, some_inj, u8,
}
use ledger_kee_pass.App.Sdk.{Sdk, IsDocumented, Derived}
use ledger_kee_pass.App.Curve.Clamped.{rfc_scalar, length-rfc_scalar}
use ledger_kee_pass.Host.Sodium.{Sodium}
use ledger_kee_pass.System.Curves.{SameCurve, base_point}

abbrev pub add_bytes : List ℕ → List ℕ → List ℕ
add_bytes [] ys = []
add_bytes (x ∷ xs) [] = x ∷ xs
add_bytes (x ∷ xs) (y ∷ ys) = u8 (x + y) ∷ add_bytes xs ys

length-add_bytes : (xs ys : List ℕ) → length (add_bytes xs ys) ≡ length xs
length-add_bytes [] ys = refl
length-add_bytes (x ∷ xs) [] = refl
length-add_bytes (x ∷ xs) (y ∷ ys) = ap suc (length-add_bytes xs ys)

add_bytes_swap :
    (g xs ys : List ℕ)
    → length xs ≡ length g
    → length ys ≡ length g
    → add_bytes (add_bytes g xs) ys ≡ add_bytes (add_bytes g ys) xs
add_bytes_swap [] xs ys p q = refl
add_bytes_swap (z ∷ g) [] ys p q = absurd (omega arith)
add_bytes_swap (z ∷ g) (x ∷ xs) [] p q = absurd (omega arith)
add_bytes_swap (z ∷ g) (x ∷ xs) (y ∷ ys) p q =
    ap₂ ◌∷◌ (omega arith) (add_bytes_swap g xs ys (omega arith) (omega arith))

abbrev checksum : List ℕ → ℕ
checksum [] = 7
checksum (x ∷ xs) = u8 (x + 3 * checksum xs)

abbrev toy_mult : List ℕ → List ℕ → Option (List ℕ)
toy_mult [] s = none
toy_mult (head ∷ p) s = some (head ∷ reverse (add_bytes (reverse p) (reverse s)))

abbrev pub toy_sdk : Sdk
toy_sdk = record {
  invalid_parameter = 2;
  exception_io_reset = 16;
  apdu_buffer_size = 260;
  rng = λ n len. replicate len (u8 (n + 1));
  scalar_mult = toy_mult;
  sha256 = λ xs. replicate 32 (checksum xs);
  blake2b = λ n xs. replicate n (checksum xs);
  derive_node = λ path. Derived.node (replicate 32 (checksum path)) (replicate 32 5);
}

toy_mult-length : (p s : List ℕ) {q : List ℕ} → toy_mult p s ≡ some q → length q ≡ length p
toy_mult-length [] s e = cc
toy_mult-length (head ∷ p) s e = rw (← some_inj e) (
    omega (
      arith,
      length-reverse {0} (add_bytes (reverse p) (reverse s)),
      length-add_bytes (reverse p) (reverse s),
      length-reverse {0} p,
    ))

node_sizes :
    {k c key chain : List ℕ}
    → Derived.node k c ≡ Derived.node key chain
    → length k ≡ 32
    → length c ≡ 32
    → (length key ≡ 32) × (length chain ≡ 32)
node_sizes {k} {c} {key} {chain} e hk hc =
    let ek : k ≡ key = cc in
    let ec : c ≡ chain = cc in (ap length (sym ek) ∙ hk, ap length (sym ec) ∙ hc)

checksum-lt : (xs : List ℕ) → checksum xs < 256
checksum-lt [] = omega arith
checksum-lt (x ∷ xs) = omega arith

toy_byte : (xs : List ℕ) (n i : ℕ) → get_or (replicate n (checksum xs)) i 0 < 256
toy_byte xs zero i = omega arith
toy_byte xs (suc n) zero = checksum-lt xs
toy_byte xs (suc n) (suc i) = toy_byte xs n i

pub toy_sdk-IsDocumented : IsDocumented toy_sdk
toy_sdk-IsDocumented = record {
  invalid_parameter_is = refl;
  io_reset_is = refl;
  buffer_size_is = refl;
  length_rng = λ n len. length-replicate len (u8 (n + 1));
  length_scalar_mult = toy_mult-length;
  length_sha256 = λ xs. length-replicate 32 (checksum xs);
  sha256_bytes = λ xs i. toy_byte xs 32 i;
  length_blake2b = λ n xs. length-replicate n (checksum xs);
  length_node = λ path e. node_sizes e refl refl;
  raises_is = λ path e. cc;
}

abbrev pub toy_sodium : Sodium
toy_sodium = record {
  scalarmult = λ s p. some (add_bytes p (rfc_scalar s));
  scalarmult_base = λ s. add_bytes base_point (rfc_scalar s);
  generichash = λ n xs. replicate n (checksum xs);
}

toy_curve :
    (s p : List ℕ) {q : List ℕ}
    → toy_sodium.scalarmult s p ≡ some q
    → toy_sdk.scalar_mult (2 ∷ reverse p) (reverse (rfc_scalar s)) ≡ some (2 ∷ reverse q)
toy_curve s p e =
    rw (reverse-reverse p, reverse-reverse (rfc_scalar s))
      (ap (λ t. some (2 ∷ reverse t)) (some_inj e))

pub toy-SameCurve : SameCurve toy_sdk toy_sodium
toy-SameCurve = record {
  curve = λ s p hs hp e. (2, toy_curve s p e);
  length_curve = λ s p h e. ap length (sym (some_inj e)) ∙ length-add_bytes p (rfc_scalar s) ∙ h;
  base = λ s h. refl;
  exchange = λ a b ha hb. ap some (
      add_bytes_swap base_point (rfc_scalar b) (rfc_scalar a) (length-rfc_scalar b hb)
        (length-rfc_scalar a ha));
  hash = λ n xs. refl;
}
