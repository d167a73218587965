-- ===== src/Tests/Exchange.antt =====
-- The key exchange between app/src/x25519.c and libkpl/src/kpl.cpp at a concrete input, and the
-- callbacks that derive a key from a name.
use ledger_kee_pass.Base.{ℕ, ◌≡◌, refl, true, some, List, replicate}
use ledger_kee_pass.App.Curve.{x25519_encrypt_kp_key}
use ledger_kee_pass.Host.Crypto.{x25519_gen_priv_key, x25519_decrypt_key}
use ledger_kee_pass.System.Curves.{decrypt-encrypt}
use ledger_kee_pass.Tests.Toy.{toy_sdk, toy_sodium, toy-SameCurve}

decrypt-encrypt_example :
    let own_pub = x25519_gen_priv_key toy_sodium (replicate 32 2) in
    let e = x25519_encrypt_kp_key toy_sdk (replicate 32 0xAB) own_pub (replicate 32 1) in
    (app_pub : List ℕ) × (e.succeeds ≡ true)
    × (e.own_pubkey ≡ some app_pub)
    × (x25519_decrypt_key toy_sodium e.kpkey app_pub own_pub (replicate 32 2)
        ≡ some (replicate 32 0xAB))
decrypt-encrypt_example =
    decrypt-encrypt toy_sdk toy_sodium toy-SameCurve (replicate 32 0xAB) (replicate 32 1)
      (replicate 32 2) refl refl refl
