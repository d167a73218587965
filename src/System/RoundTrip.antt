-- ===== src/System/RoundTrip.antt =====
-- `KPL::getKey` (libkpl/src/kpl.cpp) against the application (app/src): the key that comes out is
-- the key that the slot holds.
use ledger_kee_pass.Base.{
  ℕ, ◌≡◌, ◌≤◌, refl, ◌∙◌, ap, sym, true, some, List, [], ◌∷◌, ◌++◌, arith, length,
}
use ledger_kee_pass.App.Sdk.{Sdk, IsDocumented}
use ledger_kee_pass.App.Storage.View.{view, view-eq-some}
use ledger_kee_pass.App.Device.{Device}
use ledger_kee_pass.App.Device.WellFormed.{WellFormed}
use ledger_kee_pass.App.Main.Dispatched.{packet_of}
use ledger_kee_pass.App.Curve.{Encrypted, x25519_encrypt_kp_key}
use ledger_kee_pass.App.Curve.Exchange.{IsSized, x25519_encrypt_kp_key-IsSized}
use ledger_kee_pass.App.Approve.{right_released}
use ledger_kee_pass.App.Approve.KeyReply.{key_reply}
use ledger_kee_pass.Host.Result.{success, is_success, parse_app_sw}
use ledger_kee_pass.Host.Sodium.{Sodium}
use ledger_kee_pass.Host.Crypto.{x25519_gen_priv_key, x25519_decrypt_key}
use ledger_kee_pass.Host.Transport.{LedgerDevice}
use ledger_kee_pass.Host.Client.{apdu_stream, exchange, check_answer, exchange-sends}
use ledger_kee_pass.Host.Kpl.{answer_result, decrypt_to, decrypt_answer, get_key}
use ledger_kee_pass.System.Curves.{SameCurve, length-base, decrypt-encrypt}
use ledger_kee_pass.System.Link.{link}
use ledger_kee_pass.System.Answer.{length-answer, take-answer, take-drop-answer, answer_sw-answer}
use ledger_kee_pass.System.GetKey.{exchange-replies}

-- The reply for a key that was encrypted.
key_reply-sent :
    (sdk : Sdk) (e : Encrypted sdk) {own : List ℕ}
    → e.own_pubkey ≡ some own
    → e.succeeds ≡ true
    → key_reply sdk e ≡ own ++ (e.kpkey ++ 0x90 ∷ 0 ∷ [])
key_reply-sent sdk e written ok = rw (written, ok) refl

module _ (sodium : Sodium) {S : Type 0} (dev : LedgerDevice S) where
  -- The library takes a proper answer apart.
  decrypt_answer-answer :
      (own kpkey own_pub own_priv out : List ℕ) (e : S) {key : List ℕ}
      → length own ≡ 32
      → length kpkey ≡ 32
      → x25519_decrypt_key sodium kpkey own own_pub own_priv ≡ some key
      → decrypt_answer sodium dev
          (record { result = success; answer = own ++ (kpkey ++ 0x90 ∷ 0 ∷ []); device = e })
          own_pub
          own_priv
          out
        ≡ record { result = success; out = key; device = e }
  unfolding decrypt_answer decrypt_to answer_result is_success parse_app_sw
  decrypt_answer-answer own kpkey own_pub own_priv out e ho hk d =
      rw
        (
          answer_sw-answer own kpkey ho hk,
          length-answer own kpkey ho hk,
          take-answer own kpkey ho hk,
          take-drop-answer own kpkey ho hk,
          d,
        )
        refl

  pub get_key_lem :
      (slot : ℕ) (own_priv out : List ℕ) (s : S)
      → length out ≡ 32
      → let own_pub = x25519_gen_priv_key sodium own_priv in
        get_key sodium dev slot own_priv out s
        ≡ decrypt_answer sodium dev
            (exchange dev 66 (apdu_stream 2 slot 0 ++ own_pub) s)
            own_pub
            own_priv
            out
  unfolding get_key
  get_key_lem slot own_priv out s h = rw h refl

  check_answer-answer :
      (own kpkey : List ℕ) (e : S)
      → length own ≡ 32
      → length kpkey ≡ 32
      → check_answer dev
          (record { result = success; answer = own ++ (kpkey ++ 0x90 ∷ 0 ∷ []); device = e })
        ≡ record { result = success; answer = own ++ (kpkey ++ 0x90 ∷ 0 ∷ []); device = e }
  unfolding check_answer is_success
  check_answer-answer own kpkey e ho hk = rw (length-answer own kpkey ho hk) refl

module _ (sdk : Sdk) (doc : IsDocumented sdk) (sodium : Sodium) (same : SameCurve sdk sodium) where
  pub length-own_pub :
      (own_priv : List ℕ) → length own_priv ≡ 32 → length (x25519_gen_priv_key sodium own_priv) ≡ 32
  unfolding x25519_gen_priv_key
  length-own_pub own_priv h = length-base sdk sodium same own_priv h

  module _ (d : Device) (key own_priv : List ℕ) (key_size : length key ≡ 32)
      (ho : length own_priv ≡ 32) {secret : List ℕ}
      (e : sodium.scalarmult own_priv (sodium.scalarmult_base (sdk.rng d.draws 32))
        ≡ some secret) where
    abbrev own_pub : List ℕ
    own_pub = x25519_gen_priv_key sodium own_priv

    -- What the application puts together for this public key.
    abbrev pub enc : Encrypted sdk
    enc = x25519_encrypt_kp_key sdk key own_pub (sdk.rng d.draws 32)

    sized : IsSized sdk enc
    sized =
        x25519_encrypt_kp_key-IsSized sdk doc key own_pub (sdk.rng d.draws 32) key_size
          (omega (arith, length-own_pub own_priv ho))

    -- The parts of the reply, and what the library makes of them.
    parts :
        (app_pub : List ℕ) × (key_reply sdk enc ≡ app_pub ++ (enc.kpkey ++ 0x90 ∷ 0 ∷ []))
        × (length app_pub ≡ 32)
        × (x25519_decrypt_key sodium enc.kpkey app_pub own_pub own_priv ≡ some key)
    parts =
        let (app_pub, ok, own, dec) =
          decrypt-encrypt sdk sodium same key (sdk.rng d.draws 32) own_priv
            (doc.length_rng d.draws 32) ho e in
        (app_pub, key_reply-sent sdk enc own ok, sized.own_size app_pub own, dec)

    pub reply_short : length (key_reply sdk enc) ≤ 66
    reply_short =
        let (app_pub, reply, own_size, _) = parts in
        rw reply (omega (arith, length-answer app_pub enc.kpkey own_size sized.kpkey_size))

    -- If the transport brings the application's reply to a packet, the library has the key.
    pub decrypted :
        (dev : LedgerDevice Device) (ins p1 : ℕ) (bytes out : List ℕ) (s : Device)
        → length bytes ≤ 255
        → dev.exchange 66 (packet_of ins p1 0 bytes) d
          ≡ record { result = success; answer = key_reply sdk enc; device = s }
        → decrypt_answer sodium dev
            (exchange dev 66 (apdu_stream ins p1 0 ++ bytes) d)
            own_pub
            own_priv
            out
          ≡ record { result = success; out = key; device = s }
    decrypted dev ins p1 bytes out s short brought =
        let (app_pub, reply, own_size, dec) = parts in
        ap (λ r. decrypt_answer sodium dev r own_pub own_priv out)
          (exchange-sends dev 66 ins p1 0 bytes d short
            ∙ ap (check_answer dev) brought
            ∙ ap (λ r. check_answer dev (record { result = success; answer = r; device = s })) reply
            ∙ check_answer-answer sodium dev app_pub enc.kpkey s own_size sized.kpkey_size)
        ∙ decrypt_answer-answer sodium dev app_pub enc.kpkey own_pub own_priv out s own_size
            sized.kpkey_size dec

  pub get_key_whole :
      (d : Device) (slot : ℕ) (key own_priv out : List ℕ) {secret : List ℕ}
      → WellFormed sdk d
      → view d.nv slot ≡ some key
      → length own_priv ≡ 32
      → length out ≡ 32
      → sodium.scalarmult own_priv (sodium.scalarmult_base (sdk.rng d.draws 32)) ≡ some secret
      → (s : Device) × (get_key sodium (link sdk right_released) slot own_priv out d
          ≡ record { result = success; out = key; device = s })
        × (WellFormed sdk s × (s.nv ≡ d.nv))
  get_key_whole d slot key own_priv out wf held ho hout e =
      let (_, _, is_key) = view-eq-some d.nv slot held in
      let key_size : length key ≡ 32 = ap length (sym is_key) ∙ wf.storage.key_sizes slot in
      let own_pub_size = length-own_pub own_priv ho in
      let (s, brought, kept) =
        exchange-replies sdk doc d wf slot (x25519_gen_priv_key sodium own_priv) key own_pub_size
          held (reply_short d key own_priv key_size ho e) in
      (
        s,
        get_key_lem sodium (link sdk right_released) slot own_priv out d hout
            ∙ decrypted d key own_priv key_size ho e (link sdk right_released) 2 slot
                (x25519_gen_priv_key sodium own_priv) out s (omega (arith, own_pub_size)) brought,
        kept,
      )

  -- If the application is well-formed, its slot holds a key, the SDK and libsodium implement the
  -- same X25519 and Blake2b, libsodium's exchange of the two private keys succeeds, and the user
  -- approves, then `KPL::getKey` for that slot, with a private key and a buffer of 32 bytes,
  -- succeeds and leaves the slot's key in the buffer.
  pub get_key-held :
      (d : Device) (slot : ℕ) (key own_priv out : List ℕ) {secret : List ℕ}
      → WellFormed sdk d
      → view d.nv slot ≡ some key
      → length own_priv ≡ 32
      → length out ≡ 32
      → sodium.scalarmult own_priv (sodium.scalarmult_base (sdk.rng d.draws 32)) ≡ some secret
      → let ended = get_key sodium (link sdk right_released) slot own_priv out d in
        (ended.result ≡ success) × (ended.out ≡ key)
  get_key-held d slot key own_priv out wf held ho hout e =
      let (s, whole, _) = get_key_whole d slot key own_priv out wf held ho hout e in
      (ap (λ r. r.result) whole, ap (λ r. r.out) whole)
