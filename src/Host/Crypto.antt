-- ===== src/Host/Crypto.antt =====
-- The key exchange on the library's side: the two functions at the head of libkpl/src/kpl.cpp.
use ledger_kee_pass.Base.{ℕ, Option, some, none, List, ◌++◌, xor_bytes}
use ledger_kee_pass.App.Consts.{key_size}
use ledger_kee_pass.Host.Sodium.{Sodium}

module _ (sodium : Sodium) where
  -- `X25519GenPrivKey`: the public key for the bytes that `randombytes_buf` wrote.
  unfoldable pub x25519_gen_priv_key : List ℕ → List ℕ
  x25519_gen_priv_key own_priv_key = sodium.scalarmult_base own_priv_key

  -- `X25519DecryptKey`: the key's new bytes, or `none` for the result false.
  unfoldable pub x25519_decrypt_key : List ℕ → List ℕ → List ℕ → List ℕ → Option (List ℕ)
  x25519_decrypt_key key app_pub_key own_pub_key own_priv_key =
      elim (sodium.scalarmult own_priv_key app_pub_key) [
        | none ↦ none
        | some shared_secret ↦ some (
            xor_bytes key
              (sodium.generichash key_size (shared_secret ++ (own_pub_key ++ app_pub_key))))
      ]
