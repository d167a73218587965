-- ===== src/App/Sdk.antt =====
-- The BOLOS SDK, which is not part of the repository: its constants and its cryptography are
-- parameters of the application.
use ledger_kee_pass.Base.{ℕ, ◌≡◌, ◌≢◌, ◌<◌, List, Option, some, length, get_or}

-- `os_perso_derive_node_bip32` writes a private key and a chain code, or throws.
pub data Derived : Type 0 where
  node : List ℕ → List ℕ → Derived
  raises : ℕ → Derived

pub record Sdk : Type 0 where
  -- INVALID_PARAMETER, EXCEPTION_IO_RESET and IO_APDU_BUFFER_SIZE
  pub invalid_parameter : ℕ
  pub exception_io_reset : ℕ
  pub apdu_buffer_size : ℕ
  -- the bytes that the n-th call of `cx_rng` writes, by the length asked for
  pub rng : ℕ → ℕ → List ℕ
  -- `cx_ecfp_scalar_mult` on Curve25519: the point's buffer and the scalar, big endian; `none` is
  -- the result 0
  pub scalar_mult : List ℕ → List ℕ → Option (List ℕ)
  -- `cx_hash_sha256`
  pub sha256 : List ℕ → List ℕ
  -- `cx_blake2b_init` for a digest of that many bytes, and `cx_hash` over the whole input
  pub blake2b : ℕ → List ℕ → List ℕ
  -- `os_perso_derive_node_bip32` on secp256k1
  pub derive_node : List ℕ → Derived

-- What the application relies on, as the SDK documents it.
pub record IsDocumented (sdk : Sdk) : Type 0 where
  pub invalid_parameter_is : sdk.invalid_parameter ≡ 2
  pub io_reset_is : sdk.exception_io_reset ≡ 16
  pub buffer_size_is : sdk.apdu_buffer_size ≡ 260
  pub length_rng : (n len : ℕ) → length (sdk.rng n len) ≡ len
  pub length_scalar_mult :
      (p s : List ℕ) {q : List ℕ} → sdk.scalar_mult p s ≡ some q → length q ≡ length p
  pub length_sha256 : (xs : List ℕ) → length (sdk.sha256 xs) ≡ 32
  pub sha256_bytes : (xs : List ℕ) (i : ℕ) → get_or (sdk.sha256 xs) i 0 < 256
  pub length_blake2b : (n : ℕ) (xs : List ℕ) → length (sdk.blake2b n xs) ≡ n
  pub length_node :
      (path : List ℕ) {key chain : List ℕ}
      → sdk.derive_node path ≡ Derived.node key chain
      → (length key ≡ 32) × (length chain ≡ 32)
  pub raises_is :
      (path : List ℕ) {e : ℕ}
      → sdk.derive_node path ≡ Derived.raises e
      → (e < 65536) × (e ≢ sdk.exception_io_reset)
