-- ===== src/System/FromName.antt =====
-- `KPL::getKeyFromName` (libkpl/src/kpl.cpp) against the application (app/src), for both answers of
-- the user.
use ledger_kee_pass.Base.{
  ℕ, ◌+◌, ◌≡◌, ◌≤◌, refl, ◌∙◌, ap, ap₂, true, false, ◌||◌, some, List, ◌∷◌, ◌++◌, append_assoc,
  arith, ltb, ◌==◌, length, length-append,
}
use mathlib.Core.Bool.{not}
use ledger_kee_pass.App.Consts.{max_name_size, key_size}
use ledger_kee_pass.App.Sdk.{Sdk, IsDocumented, Derived}
use ledger_kee_pass.App.Device.{Device, Callback}
use ledger_kee_pass.App.Device.WellFormed.{WellFormed}
use ledger_kee_pass.App.Device.Outcomes.{Returns, Returns-map}
use ledger_kee_pass.App.Instrs.{
  get_handle_instr, handle_get_key_from_name, is_name_valid, derive_name_key, seed_prefix,
}
use ledger_kee_pass.App.Instrs.NameArgs.{WillDerive, handle_get_key_from_name-Asks}
use ledger_kee_pass.App.Main.{received, app_main_round}
use ledger_kee_pass.App.Main.Dispatched.{packet_of, loaded, loaded-WellFormed}
use ledger_kee_pass.App.Curve.{x25519_encrypt_kp_key}
use ledger_kee_pass.App.Approve.{
  right_released, left_released, bagl_ui_approval_nanos_button, touch_okay,
}
use ledger_kee_pass.App.Approve.KeyReply.{Replied, drawn, key_reply}
use ledger_kee_pass.App.Approve.Touch.{key_of, get_key_from_name-Replied}
use ledger_kee_pass.Host.Result.{success, app_unauthorized_access}
use ledger_kee_pass.Host.Sodium.{Sodium}
use ledger_kee_pass.Host.Crypto.{x25519_gen_priv_key}
use ledger_kee_pass.Host.Client.{apdu_stream, exchange, check_answer, exchange-sends}
use ledger_kee_pass.Host.Kpl.{decrypt_answer, get_key_from_name}
use ledger_kee_pass.Host.Transport.{LedgerDevice}
use ledger_kee_pass.System.Curves.{SameCurve}
use ledger_kee_pass.System.Link.{link}
use ledger_kee_pass.System.Asked.{
  Waiting, round-Waiting, exchange-pressed, exchange-refused, right_is_okay,
}
use ledger_kee_pass.System.RoundTrip.{enc, reply_short, decrypted, length-own_pub}
use ledger_kee_pass.System.Refused.{decrypt_answer-refused}

module _ (sodium : Sodium) {S : Type 0} (dev : LedgerDevice S) where
  get_key_from_name_lem :
      (name own_priv out : List ℕ) (s : S)
      → length name ≤ max_name_size
      → length out ≡ key_size
      → let own_pub = x25519_gen_priv_key sodium own_priv in
        get_key_from_name sodium dev name own_priv out s
        ≡ decrypt_answer sodium dev
            (exchange dev 66 (apdu_stream 3 0 0 ++ (own_pub ++ name)) s)
            own_pub
            own_priv
            out
  unfolding get_key_from_name
  get_key_from_name_lem name own_priv out s short h =
      let proper : (ltb max_name_size (length name) || not (length out == key_size)) ≡ false =
        ground arith in
      rw (proper, append_assoc (apdu_stream 3 0 0) (x25519_gen_priv_key sodium own_priv) name) refl

module _ (sdk : Sdk) (doc : IsDocumented sdk) (d : Device) (wf : WellFormed sdk d) (name : List ℕ)
    (some_name : 1 ≤ length name) (short : length name ≤ max_name_size)
    (printable : is_name_valid name ≡ true) where
  abbrev Kept : Device → Type 0
  Kept e = WellFormed sdk e × (e.nv ≡ d.nv)

  name_round :
      (pub_key : List ℕ)
      → length pub_key ≡ 32
      → Returns
          (Waiting sdk d Callback.get_key_from_name_after_approve (WillDerive pub_key name))
          (app_main_round sdk (received (packet_of 3 0 0 (pub_key ++ name))) d)
  name_round pub_key size =
      round-Waiting sdk doc Callback.get_key_from_name_after_approve (WillDerive pub_key name)
        (λ e apdu p. p) d wf 3 0 0 (pub_key ++ name) (handle_get_key_from_name sdk)
        (unfold get_handle_instr in refl) (omega (arith, fits))
        (handle_get_key_from_name-Asks sdk (loaded d (packet_of 3 0 0 (pub_key ++ name)))
          (loaded-WellFormed sdk doc d wf (packet_of 3 0 0 (pub_key ++ name)) (omega (arith, fits)))
          0 0 pub_key name size some_name short printable)
    where
      fits : length (pub_key ++ name) ≡ 32 + length name
      fits = omega (arith, length-append {0} pub_key name, size)

  pressed :
      (pub_key : List ℕ) {priv chain : List ℕ}
      → derive_name_key sdk (seed_prefix ++ name) ≡ Derived.node priv chain
      → (sw tx : ℕ) (d' : Device)
      → Waiting sdk d Callback.get_key_from_name_after_approve (WillDerive pub_key name) sw tx d'
      → Returns
          (λ _ _ e.
            (e.sent
              ≡ key_reply sdk (
                  x25519_encrypt_kp_key sdk
                    (sdk.sha256 (priv ++ chain))
                    pub_key
                    (sdk.rng d.draws 32))
                ∷ d.sent)
            × Kept e)
          (bagl_ui_approval_nanos_button sdk right_released d')
  pressed pub_key {priv} {chain} derives sw tx d' w = rw (right_is_okay sdk d') (
      Returns-map
        (Replied sdk (drawn d') (
          key_reply sdk
            (x25519_encrypt_kp_key sdk key d'.name_args.caller_pub (sdk.rng d'.draws 32))))
        _ (touch_okay sdk d')
        (λ _ _ e p. (
          p.sent_is
              ∙ ap₂ ◌∷◌
                  (ap₂ (λ c n. key_reply sdk (x25519_encrypt_kp_key sdk key c (sdk.rng n 32)))
                    w.args.0 w.nothing_drawn)
                  w.nothing_sent,
          (p.well_formed, p.storage_kept ∙ w.storage_kept),
        ))
        (get_key_from_name-Replied sdk doc d' w.well_formed key w.callback_is (
          ap (λ n. key_of sdk doc d' w.well_formed (derive_name_key sdk n)) w.args.1
          ∙ ap (key_of sdk doc d' w.well_formed) derives)))
    where
      key : List ℕ
      key = sdk.sha256 (priv ++ chain)

  module _ (sodium : Sodium) (same : SameCurve sdk sodium) (own_priv out : List ℕ)
      (ho : length own_priv ≡ 32) (hout : length out ≡ key_size) where
    abbrev own_pub : List ℕ
    own_pub = x25519_gen_priv_key sodium own_priv

    own_pub_size : length own_pub ≡ 32
    own_pub_size = length-own_pub sdk doc sodium same own_priv ho

    fits : length (own_pub ++ name) ≤ 255
    fits = omega (arith, length-append {0} own_pub name, own_pub_size)

    pub approved :
        {priv chain secret : List ℕ}
        → derive_name_key sdk (seed_prefix ++ name) ≡ Derived.node priv chain
        → sodium.scalarmult own_priv (sodium.scalarmult_base (sdk.rng d.draws 32)) ≡ some secret
        → (e : Device) × (get_key_from_name sodium (link sdk right_released) name own_priv out d
            ≡ record { result = success; out = sdk.sha256 (priv ++ chain); device = e })
          × (WellFormed sdk e × (e.nv ≡ d.nv))
    approved {priv} {chain} derives exchanged =
        let key = sdk.sha256 (priv ++ chain) in
        let key_size = doc.length_sha256 (priv ++ chain) in
        let (e, brought, kept) =
          exchange-pressed sdk doc Callback.get_key_from_name_after_approve
            (WillDerive own_pub name) (λ e apdu p. p) right_released d 66
            (packet_of 3 0 0 (own_pub ++ name))
            (key_reply sdk (enc sdk doc sodium same d key own_priv key_size ho exchanged)) Kept
            (name_round own_pub own_pub_size) (pressed own_pub derives)
            (reply_short sdk doc sodium same d key own_priv key_size ho exchanged) in
        (
          e,
          get_key_from_name_lem sodium (link sdk right_released) name own_priv out d short hout
              ∙ decrypted sdk doc sodium same d key own_priv key_size ho exchanged
                  (link sdk right_released) 3 0 (own_pub ++ name) out e fits brought,
          kept,
        )

    pub refused :
        (e : Device) × (get_key_from_name sodium (link sdk left_released) name own_priv out d
          ≡ record { result = app_unauthorized_access; out = out; device = e })
        × (WellFormed sdk e × (e.nv ≡ d.nv))
    refused =
        let dev = link sdk left_released in
        let (e, brought, kept) =
          exchange-refused sdk doc Callback.get_key_from_name_after_approve
            (WillDerive own_pub name) (λ e apdu p. p) d 66 (packet_of 3 0 0 (own_pub ++ name))
            (name_round own_pub own_pub_size) (omega arith) in
        (
          e,
          get_key_from_name_lem sodium dev name own_priv out d short hout
              ∙ ap (λ r. decrypt_answer sodium dev r own_pub own_priv out)
                  (exchange-sends dev 66 3 0 0 (own_pub ++ name) d fits
                    ∙ ap (check_answer dev) brought)
              ∙ decrypt_answer-refused sodium dev own_pub own_priv out e,
          kept,
        )

    -- If the application is well-formed, the SDK derives a key for a printable name of 1 to 20
    -- bytes, the SDK and libsodium implement the same X25519 and Blake2b and libsodium's exchange
    -- of the two private keys succeeds, then `KPL::getKeyFromName`, with a private key and a
    -- buffer of 32 bytes, succeeds and leaves the SHA-256 of the derived key and chain code in
    -- the buffer when the user approves; when the user refuses it gives APP_UNAUTHORIZED_ACCESS
    -- and the buffer is as it was. The storage is as it was behind both.
    pub get_key_from_name-link :
        {priv chain secret : List ℕ}
        → derive_name_key sdk (seed_prefix ++ name) ≡ Derived.node priv chain
        → sodium.scalarmult own_priv (sodium.scalarmult_base (sdk.rng d.draws 32)) ≡ some secret
        → let yes_ended = get_key_from_name sodium (link sdk right_released) name own_priv out d in
          let no_ended = get_key_from_name sodium (link sdk left_released) name own_priv out d in
          ((yes_ended.result ≡ success)
            × (yes_ended.out ≡ sdk.sha256 (priv ++ chain))
            × (yes_ended.device.nv ≡ d.nv))
          × ((no_ended.result ≡ app_unauthorized_access)
              × (no_ended.out ≡ out)
              × (no_ended.device.nv ≡ d.nv))
    get_key_from_name-link derives exchanged =
        let (e, whole, (_, kept)) = approved derives exchanged in
        let (e', whole', (_, kept')) = refused in
        (
          (ap (λ r. r.result) whole, ap (λ r. r.out) whole, ap (λ r. r.device.nv) whole ∙ kept),
          (ap (λ r. r.result) whole', ap (λ r. r.out) whole', ap (λ r. r.device.nv) whole' ∙ kept'),
        )
