-- ===== src/System/Curves.antt =====
-- The key exchange of app/src/x25519.c and the one of libkpl/src/kpl.cpp agree.
use mathlib.Core.List.{reverse, reverse-reverse}
use ledger_kee_pass.Base.{
  ℕ, ◌≡◌, refl, ◌∙◌, ap, sym, true, some, List, [], ◌∷◌, ◌++◌, arith, length, take, take_all, drop,
  length-set, length-reverse, xor_bytes, xor_bytes_cancel,
}
use ledger_kee_pass.App.Sdk.{Sdk}
use ledger_kee_pass.App.Curve.{
  x25519, keystream, read_point, clamp, curve25519_g, reverse_bytes, x25519_encrypt_kp_key,
  encrypt_with, encrypt_shared,
}
use ledger_kee_pass.App.Curve.Reverse.{reverse_bytes-eq-reverse}
use ledger_kee_pass.App.Curve.Clamped.{rfc_scalar, clamp-eq-rfc_scalar}
use ledger_kee_pass.Host.Intmem.{le_bytes}
use ledger_kee_pass.Host.Sodium.{Sodium}
use ledger_kee_pass.Host.Crypto.{x25519_gen_priv_key, x25519_decrypt_key}

pub length-clamp : (s : List ℕ) → length (clamp s) ≡ length s
unfolding clamp
length-clamp s = length-set _ 31 _ ∙ length-set _ 31 _ ∙ length-set s 0 _

-- The base point of the curve: its first coordinate is 9, as 32 little endian bytes.
abbrev pub base_point : List ℕ
base_point = le_bytes 32 9

-- What both sides rely on: the two libraries implement X25519 and Blake2b. The SDK's curve function
-- takes big endian numbers and a scalar that is clamped already; libsodium's takes little endian
-- bytes and clamps the scalar itself, as RFC 7748 says.
pub record SameCurve (sdk : Sdk) (sodium : Sodium) : Type 0 where
  pub curve :
      (s p : List ℕ) {q : List ℕ}
      → length s ≡ 32
      → length p ≡ 32
      → sodium.scalarmult s p ≡ some q
      → (head : ℕ) × (sdk.scalar_mult (2 ∷ reverse p) (reverse (rfc_scalar s))
          ≡ some (head ∷ reverse q))
  pub length_curve :
      (s p : List ℕ) {q : List ℕ} → length p ≡ 32 → sodium.scalarmult s p ≡ some q → length q ≡ 32
  pub base :
      (s : List ℕ)
      → length s ≡ 32
      → sodium.scalarmult s base_point ≡ some (sodium.scalarmult_base s)
  -- the Diffie-Hellman property
  pub exchange :
      (a b : List ℕ)
      → length a ≡ 32
      → length b ≡ 32
      → sodium.scalarmult a (sodium.scalarmult_base b)
        ≡ sodium.scalarmult b (sodium.scalarmult_base a)
  pub hash : (n : ℕ) (xs : List ℕ) → sdk.blake2b n xs ≡ sodium.generichash n xs

module _ (sdk : Sdk) (sodium : Sodium) (same : SameCurve sdk sodium) where
  x25519_lem :
      (p s : List ℕ)
      → x25519 sdk p s
        ≡ read_point (
            sdk.scalar_mult
              (reverse_bytes 1 33 (2 ∷ take 32 p))
              (reverse_bytes 0 32 (clamp (take 32 s))))
  unfolding x25519
  x25519_lem p s = refl

  read_point_lem :
      (r : List ℕ) → read_point (some r) ≡ some (take 32 (drop 1 (reverse_bytes 1 33 r)))
  unfolding read_point
  read_point_lem r = refl

  -- If the SDK and libsodium implement the same X25519, `X25519` of the application gives the
  -- bytes of libsodium's `crypto_scalarmult` for a point and a scalar of 32 bytes on which that
  -- function succeeds.
  pub x25519-eq-scalarmult :
      (p s : List ℕ) {q : List ℕ}
      → length p ≡ 32
      → length s ≡ 32
      → sodium.scalarmult s p ≡ some q
      → x25519 sdk p s ≡ some q
  x25519-eq-scalarmult p s {q} hp hs e =
      let (head, done) = same.curve s p hs hp e in
      let hq = same.length_curve s p hp e in
      let turned = reverse_bytes-eq-reverse (2 ∷ []) p {first = 1} {last = 33} refl (omega arith) in
      let scalar =
        reverse_bytes-eq-reverse [] (clamp s) {first = 0} {last = 32} refl
          (omega (arith, length-clamp s)) in
      let back =
        reverse_bytes-eq-reverse (head ∷ []) (reverse q) {first = 1} {last = 33} refl
          (omega (arith, length-reverse {0} q)) in
      x25519_lem p s
      ∙ rw
          (
            take_all p {n = 32} (omega arith),
            take_all s {n = 32} (omega arith),
            turned,
            scalar,
            clamp-eq-rfc_scalar s hs,
            done,
          )
          (read_point_lem (head ∷ reverse q)
            ∙ rw (back, reverse-reverse q, take_all q {n = 32} (omega arith)))

  -- the point of the application
  generator : curve25519_g ≡ base_point
  generator = refl

  pub length-base : (s : List ℕ) → length s ≡ 32 → length (sodium.scalarmult_base s) ≡ 32
  length-base s h = same.length_curve s base_point refl (same.base s h)

  encrypt_with_lem :
      (kpkey caller priv own : List ℕ)
      → x25519 sdk curve25519_g priv ≡ some own
      → x25519_encrypt_kp_key sdk kpkey caller priv
        ≡ encrypt_shared sdk kpkey caller own (x25519 sdk caller priv)
  encrypt_with_lem kpkey caller priv own e =
      first ∙ ap (encrypt_with sdk kpkey caller priv) e ∙ second
    where
      first :
          x25519_encrypt_kp_key sdk kpkey caller priv
          ≡ encrypt_with sdk kpkey caller priv (x25519 sdk curve25519_g priv)
      first = unfold x25519_encrypt_kp_key in refl

      second :
          encrypt_with sdk kpkey caller priv (some own)
          ≡ encrypt_shared sdk kpkey caller own (x25519 sdk caller priv)
      second = unfold encrypt_with in refl

  encrypt_shared_lem :
      (kpkey caller own secret : List ℕ)
      → encrypt_shared sdk kpkey caller own (some secret) ≡ record {
        succeeds = true;
        own_pubkey = some own;
        kpkey = xor_bytes kpkey (keystream sdk secret caller own);
      }
  unfolding encrypt_shared
  encrypt_shared_lem kpkey caller own secret = refl

  -- What the application sends for the library's public key.
  encrypted :
      (kpkey app_priv own_priv : List ℕ) {secret : List ℕ}
      → length app_priv ≡ 32
      → length own_priv ≡ 32
      → sodium.scalarmult own_priv (sodium.scalarmult_base app_priv) ≡ some secret
      → let own_pub = x25519_gen_priv_key sodium own_priv in
        let app_pub = sodium.scalarmult_base app_priv in
        x25519_encrypt_kp_key sdk kpkey own_pub app_priv ≡ record {
          succeeds = true;
          own_pubkey = some app_pub;
          kpkey = xor_bytes kpkey (keystream sdk secret own_pub app_pub);
        }
  unfolding x25519_gen_priv_key
  encrypted kpkey app_priv own_priv {secret} ha ho e =
      let own_pub = sodium.scalarmult_base own_priv in
      let app_pub = sodium.scalarmult_base app_priv in
      encrypt_with_lem kpkey own_pub app_priv app_pub (
        x25519-eq-scalarmult curve25519_g app_priv refl ha
          (ap (sodium.scalarmult app_priv) generator ∙ same.base app_priv ha))
      ∙ ap (encrypt_shared sdk kpkey own_pub app_pub) (
          x25519-eq-scalarmult own_pub app_priv (length-base own_priv ho) ha
            (same.exchange app_priv own_priv ha ho ∙ e))
      ∙ encrypt_shared_lem kpkey own_pub app_pub secret

  decrypt_lem :
      (key app_pub own_pub own_priv : List ℕ) {secret : List ℕ}
      → sodium.scalarmult own_priv app_pub ≡ some secret
      → x25519_decrypt_key sodium key app_pub own_pub own_priv
        ≡ some (xor_bytes key (sodium.generichash 32 (secret ++ (own_pub ++ app_pub))))
  unfolding x25519_decrypt_key
  decrypt_lem key app_pub own_pub own_priv e = rw (e, x25519_decrypt_key)

  -- Both sides hash the same bytes in the same order.
  same_stream :
      (own_priv app_pub secret : List ℕ)
      → length own_priv ≡ 32
      → let own_pub = x25519_gen_priv_key sodium own_priv in
        keystream sdk secret own_pub app_pub
        ≡ sodium.generichash 32 (secret ++ (own_pub ++ app_pub))
  unfolding x25519_gen_priv_key
  same_stream own_priv app_pub secret ho =
      same.hash 32 _
      ∙ ap (λ t. sodium.generichash 32 (secret ++ (t ++ app_pub)))
          (take_all (sodium.scalarmult_base own_priv) {n = 32}
            (omega (arith, length-base own_priv ho)))

  -- If the SDK's curve function, given the scalar clamped as RFC 7748 says, agrees with
  -- libsodium's X25519 over the base point 9, both implement the same Blake2b, and libsodium's
  -- exchange of the two 32-byte private keys succeeds, then `X25519EncryptKPKey` succeeds for the
  -- library's public key, and the key that it encrypts is decrypted to itself by
  -- `X25519DecryptKey`.
  pub decrypt-encrypt :
      (kpkey app_priv own_priv : List ℕ) {secret : List ℕ}
      → length app_priv ≡ 32
      → length own_priv ≡ 32
      → sodium.scalarmult own_priv (sodium.scalarmult_base app_priv) ≡ some secret
      → let own_pub = x25519_gen_priv_key sodium own_priv in
        let e = x25519_encrypt_kp_key sdk kpkey own_pub app_priv in
        (app_pub : List ℕ) × (e.succeeds ≡ true)
        × (e.own_pubkey ≡ some app_pub)
        × (x25519_decrypt_key sodium e.kpkey app_pub own_pub own_priv ≡ some kpkey)
  decrypt-encrypt kpkey app_priv own_priv {secret} ha ho e =
      let enc = encrypted kpkey app_priv own_priv ha ho e in
      (
        app_pub,
        ap (λ r. r.succeeds) enc,
        ap (λ r. r.own_pubkey) enc,
        ap (λ r. x25519_decrypt_key sodium r.kpkey app_pub own_pub own_priv) enc ∙ decrypted,
      )
    where
      app_pub : List ℕ
      app_pub = sodium.scalarmult_base app_priv

      own_pub : List ℕ
      own_pub = x25519_gen_priv_key sodium own_priv

      stream : List ℕ
      stream = keystream sdk secret own_pub app_pub

      decrypted :
          x25519_decrypt_key sodium (xor_bytes kpkey stream) app_pub own_pub own_priv ≡ some kpkey
      decrypted =
          decrypt_lem _ app_pub own_pub own_priv e
          ∙ ap (λ t. some (xor_bytes (xor_bytes kpkey stream) t))
              (sym (same_stream own_priv app_pub secret ho))
          ∙ ap some (xor_bytes_cancel kpkey stream)
