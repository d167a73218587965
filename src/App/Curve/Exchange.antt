-- ===== src/App/Curve/Exchange.antt =====
-- Sizes of what `X25519` and `X25519EncryptKPKey` of app/src/x25519.c write.
use ledger_kee_pass.Base.{
  ℕ, ◌≡◌, ◌≢◌, ◌≤◌, ◌∙◌, true, some, none, List, ◌∷◌, arith, length, take, drop, length-take,
  length-drop, length-xor_bytes, Option-cases, inl, inr, some_inj,
}
use ledger_kee_pass.App.Sdk.{Sdk, IsDocumented}
use ledger_kee_pass.App.Curve.{
  Encrypted, x25519, curve25519_g, x25519_encrypt_kp_key, reverse_bytes, clamp,
}
use ledger_kee_pass.App.Curve.Reverse.{length-reverse_bytes}

module _ (sdk : Sdk) where
  -- The sizes of the two output buffers of `X25519EncryptKPKey`.
  pub record IsSized (e : Encrypted sdk) : Type 0 where
    pub own_size : (own : List ℕ) → e.own_pubkey ≡ some own → length own ≡ 32
    pub kpkey_size : length e.kpkey ≡ 32
    pub own_written : e.succeeds ≡ true → e.own_pubkey ≢ none

module _ (sdk : Sdk) (doc : IsDocumented sdk) where
  pub length-x25519 :
      (point scalar : List ℕ) {out : List ℕ}
      → 32 ≤ length point
      → x25519 sdk point scalar ≡ some out
      → length out ≡ 32
  unfolding x25519
  length-x25519 point scalar h e = elim (Option-cases (sdk.scalar_mult outtmp scalar_)) [
    | inl failed ↦ cc (rw (failed, x25519) at e)
    | inr (result, done) ↦ rw (← some_inj (rw (done, x25519) at e)) (
        omega (
          arith,
          length-take {0} 32 (drop 1 (reverse_bytes 1 33 result)),
          length-drop {0} 1 (reverse_bytes 1 33 result),
          length-reverse_bytes 1 33 result,
          doc.length_scalar_mult outtmp scalar_ done,
          length-reverse_bytes 1 33 (2 ∷ take 32 point),
          length-take {0} 32 point,
        ))
  ]
    where
      outtmp : List ℕ
      outtmp = reverse_bytes 1 33 (2 ∷ take 32 point)

      scalar_ : List ℕ
      scalar_ = reverse_bytes 0 32 (clamp (take 32 scalar))

  pub x25519_encrypt_kp_key-IsSized :
      (kpkey caller priv : List ℕ)
      → length kpkey ≡ 32
      → 32 ≤ length caller
      → IsSized sdk (x25519_encrypt_kp_key sdk kpkey caller priv)
  unfolding x25519_encrypt_kp_key
  x25519_encrypt_kp_key-IsSized kpkey caller priv size h =
      elim (Option-cases (x25519 sdk curve25519_g priv)) [
        | inl failed ↦
            rw failed (record { own_size = λ own e. cc; kpkey_size = size; own_written = λ t. cc })
        | inr (own, done) ↦ rw done (elim (Option-cases (x25519 sdk caller priv)) [
          | inl failed ↦ rw failed (record {
            own_size = λ o e. own_length own o done (some_inj e);
            kpkey_size = size;
            own_written = λ t. cc;
          })
          | inr (secret, shared) ↦ rw shared (record {
            own_size = λ o e. own_length own o done (some_inj e);
            kpkey_size = length-xor_bytes kpkey _ ∙ size;
            own_written = λ t n. cc;
          })
        ])
      ]
    where
      own_length :
          (own o : List ℕ) → x25519 sdk curve25519_g priv ≡ some own → own ≡ o → length o ≡ 32
      own_length own o done e = rw (← e) (length-x25519 curve25519_g priv (omega arith) done)
