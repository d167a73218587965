-- ===== src/Host/Kpl/Decrypted.antt =====
-- What a caller of `getKey` and `getKeyFromName` (libkpl/src/kpl.cpp) can rely on.
use ledger_kee_pass.Base.{
  ℕ, ◌≡◌, ap, true, some, List, ◌++◌, arith, ◌==◌, length, take, drop, Bool-cases, inl, inr,
  Option-cases,
}
use ledger_kee_pass.App.Consts.{key_size}
use ledger_kee_pass.Host.Result.{success, is_success, is_success_sound, parse_app_sw-success}
use ledger_kee_pass.Host.Sodium.{Sodium}
use ledger_kee_pass.Host.Crypto.{x25519_gen_priv_key, x25519_decrypt_key}
use ledger_kee_pass.Host.Transport.{LedgerDevice, Exchanged, answer_sw, data_size}
use ledger_kee_pass.Host.Client.{apdu_stream, exchange}
use ledger_kee_pass.Host.Kpl.{answer_result, decrypt_answer, get_key}

-- An answer that carries a key, and the key that it gives.
pub record Carries (sodium : Sodium) (answer own_pub own_priv : List ℕ) (key : List ℕ)
    : Type 0 where
  pub word : answer_sw answer ≡ 0x9000
  pub size : length answer ≡ 66
  pub decrypted :
      x25519_decrypt_key sodium (take 32 (drop 32 answer)) (take 32 answer) own_pub own_priv
      ≡ some key

-- A method succeeds only where the exchange did and the status word is 0x9000.
pub answer_result-success :
    {S : Type 0} (r : Exchanged S)
    → answer_result r ≡ success
    → (r.result ≡ success) × (answer_sw r.answer ≡ 0x9000)
unfolding answer_result is_success
answer_result-success r h = elim (Bool-cases (is_success r.result)) [
  | inl ok ↦ (is_success_sound _ ok, parse_app_sw-success _ (simp ok at h))
  | inr fails ↦
      let bad : r.result ≡ success = simp fails at h in
      let yes : is_success r.result ≡ true = ap is_success bad in cc
]

module _ (sodium : Sodium) {S : Type 0} (dev : LedgerDevice S) where
  decrypt_answer-success :
      (r : Exchanged S) (own_pub own_priv out : List ℕ)
      → (decrypt_answer sodium dev r own_pub own_priv out).result ≡ success
      → Carries sodium r.answer own_pub own_priv
          (decrypt_answer sodium dev r own_pub own_priv out).out
  unfolding decrypt_answer is_success
  decrypt_answer-success r own_pub own_priv out h =
      elim (Bool-cases (is_success (answer_result r))) [
        | inr fails ↦
            let bad : answer_result r ≡ success = simp fails at h in
            let yes : is_success (answer_result r) ≡ true = ap is_success bad in cc
        | inl ok ↦ elim (Bool-cases (data_size r.answer == 64)) [
          | inr short ↦ let bad = simp (ok, short) at h in cc
          | inl sized ↦
              elim (Option-cases (
                x25519_decrypt_key sodium (take 32 (drop 32 r.answer)) (take 32 r.answer) own_pub
                  own_priv)) [
                    | inl failed ↦ let bad = simp (ok, sized, failed) at h in cc
                    | inr (key, e) ↦
                        simp (ok, sized, e)
                          (record {
                            word = (answer_result-success r (is_success_sound _ ok)).1;
                            size = ground arith;
                            decrypted = e;
                          })
                  ]
        ]
      ]

  -- `KPL::getKey` succeeds only with a buffer of 32 bytes and an answer of 66 bytes with the
  -- status word 0x9000, and the buffer then holds the decryption of the answer's second 32 bytes
  -- for the public key in its first 32.
  pub get_key-success :
      (slot : ℕ) (own_priv out : List ℕ) (s : S)
      → (get_key sodium dev slot own_priv out s).result ≡ success
      → let own_pub = x25519_gen_priv_key sodium own_priv in
        let r = exchange dev 66 (apdu_stream 2 slot 0 ++ own_pub) s in
        (length out ≡ key_size)
        × Carries sodium r.answer own_pub own_priv (get_key sodium dev slot own_priv out s).out
  unfolding get_key
  get_key-success slot own_priv out s h = elim (Bool-cases (length out == key_size)) [
    | inr fails ↦ let bad = simp fails at h in cc
    | inl ok ↦ (ground arith, simp ok (decrypt_answer-success _ _ _ _ (simp ok at h)))
  ]
