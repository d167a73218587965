-- ===== src/Host/Sodium.antt =====
-- libsodium, which is not part of the repository: its functions are parameters of the library.
use ledger_kee_pass.Base.{ℕ, List, Option}

pub record Sodium : Type 0 where
  -- `crypto_scalarmult`: scalar and point; `none` is a result other than 0
  pub scalarmult : List ℕ → List ℕ → Option (List ℕ)
  -- `crypto_scalarmult_base`
  pub scalarmult_base : List ℕ → List ℕ
  -- `crypto_generichash_…` for a digest of that many bytes, over the whole input
  pub generichash : ℕ → List ℕ → List ℕ
