-- ===== src/App/Approve/Sends.antt =====
-- What the user's approval of a key sends, on both branches of `X25519EncryptKPKey`: `touch_okay`
-- of app/src/approve.c over the two callbacks of app/src/instrs.c that send a key.
use ledger_kee_pass.Base.{
  ℕ, ◌≡◌, ◌⊎◌, inl, inr, refl, sym, ◌∙◌, ap, Bool, true, false, Option, some, none, List, [], ◌∷◌,
  ◌++◌, arith, length,
}
use ledger_kee_pass.App.Sdk.{Sdk, IsDocumented, Derived}
use ledger_kee_pass.App.Storage.View.{view, view-eq-some}
use ledger_kee_pass.App.Curve.{Encrypted, x25519_encrypt_kp_key}
use ledger_kee_pass.App.Curve.Exchange.{IsSized, x25519_encrypt_kp_key-IsSized}
use ledger_kee_pass.App.Device.{Device, Callback}
use ledger_kee_pass.App.Device.WellFormed.{WellFormed}
use ledger_kee_pass.App.Device.Outcomes.{Returns, Returns-map}
use ledger_kee_pass.App.Instrs.Asking.{hashed_name}
use ledger_kee_pass.App.Instrs.Derivation.{derivation_path, derive_name_key-eq-derive_node}
use ledger_kee_pass.App.Approve.{touch_okay}
use ledger_kee_pass.App.Approve.KeyReply.{Replied, key_reply, drawn}
use ledger_kee_pass.App.Approve.Touch.{key_of, get_key-Replied, get_key_from_name-Replied}

module _ (sdk : Sdk) where
  -- The reply for what the encryption left: the application's public key, the encrypted key and
  -- 0x9000 if it succeeded, and 0x6802 alone if it failed.
  abbrev pub SealedOrRefused : Encrypted sdk → List ℕ → Type 0
  SealedOrRefused e reply =
      ((e.succeeds ≡ true)
        × ((own : List ℕ) × (e.own_pubkey ≡ some own)
            × (length own ≡ 32)
            × (length e.kpkey ≡ 32)
            × (reply ≡ own ++ (e.kpkey ++ 0x90 ∷ 0 ∷ []))))
      ⊎ ((e.succeeds ≡ false) × (reply ≡ 0x68 ∷ 2 ∷ []))

  key_reply-SealedOrRefused :
      (ok : Bool) (own : Option (List ℕ)) (kpkey : List ℕ)
      → let e : Encrypted sdk = record { succeeds = ok; own_pubkey = own; kpkey = kpkey } in
        IsSized sdk e → SealedOrRefused e (key_reply sdk e)
  key_reply-SealedOrRefused true none kpkey s = absurd (s.own_written refl refl)
  key_reply-SealedOrRefused true (some own) kpkey s =
      inl (refl, (own, refl, s.own_size own refl, s.kpkey_size, refl))
  key_reply-SealedOrRefused false none kpkey s = inr (refl, refl)
  key_reply-SealedOrRefused false (some own) kpkey s = inr (refl, refl)

module _ (sdk : Sdk) (doc : IsDocumented sdk) (d : Device) (wf : WellFormed sdk d) where
  -- One such reply for this key, and one call of `cx_rng`; all else is as it was.
  abbrev pub Sends : List ℕ → List ℕ → ℕ → ℕ → Device → Type 0
  Sends key caller sw tx d' =
      (reply : List ℕ) × Replied sdk (drawn d) reply sw tx d'
      × SealedOrRefused sdk (x25519_encrypt_kp_key sdk key caller (sdk.rng d.draws 32)) reply

  sends :
      (key caller : List ℕ)
      → length key ≡ 32
      → length caller ≡ 32
      → Returns
          (Replied sdk
            (drawn d)
            (key_reply sdk (x25519_encrypt_kp_key sdk key caller (sdk.rng d.draws 32))))
          (touch_okay sdk d)
      → Returns (Sends key caller) (touch_okay sdk d)
  sends key caller size csize =
      let e : Encrypted sdk = x25519_encrypt_kp_key sdk key caller (sdk.rng d.draws 32) in
      let sized =
        x25519_encrypt_kp_key-IsSized sdk doc key caller (sdk.rng d.draws 32) size (omega arith) in
      Returns-map (Replied sdk (drawn d) (key_reply sdk e)) (Sends key caller) (touch_okay sdk d)
        λ _ _ _ replied. (
          key_reply sdk e,
          replied,
          key_reply-SealedOrRefused sdk e.succeeds e.own_pubkey e.kpkey sized,
        )

  -- When the user approves the question of GET_KEY and its slot holds a key, exactly one reply is
  -- sent, with one call of `cx_rng`, and the storage and the arguments are as they were. If
  -- `X25519EncryptKPKey` succeeds for that key, the caller's public key of the request and the
  -- next bytes of `cx_rng`, the reply is the application's public key, the encrypted key, each of
  -- 32 bytes, and 0x9000; if it fails, the reply is 0x6802 alone.
  pub touch_okay-get_key :
      (key : List ℕ)
      → d.approve_cb ≡ some Callback.get_key_after_approve
      → view d.nv d.key_args.slot ≡ some key
      → Returns (Sends key d.key_args.caller_pub) (touch_okay sdk d)
  touch_okay-get_key key cb held =
      let (lt, valid, is_key) = view-eq-some d.nv d.key_args.slot held in
      sends key d.key_args.caller_pub
        (ap length (sym is_key) ∙ wf.storage.key_sizes d.key_args.slot) wf.key_caller_size
        (get_key-Replied sdk doc d wf key cb held)

  -- When the user approves the question of GET_KEY_FROM_NAME and the SDK derives a private key
  -- and a chain code on the path 0x804B5041, then 2^31 + low + 256 * high for each two bytes of
  -- the SHA-256 of the name as the callback hashes it, exactly one reply is sent, with one call
  -- of `cx_rng`, and the storage and the arguments are as they were. If `X25519EncryptKPKey`
  -- succeeds for the SHA-256 of the private key and the chain code, the caller's public key of
  -- the request and the next bytes of `cx_rng`, the reply is the application's public key, the
  -- encrypted key, each of 32 bytes, and 0x9000; if it fails, the reply is 0x6802 alone.
  pub touch_okay-get_key_from_name :
      (priv chain : List ℕ)
      → d.approve_cb ≡ some Callback.get_key_from_name_after_approve
      → sdk.derive_node (derivation_path (sdk.sha256 (hashed_name d))) ≡ Derived.node priv chain
      → Returns (Sends (sdk.sha256 (priv ++ chain)) d.name_args.caller_pub) (touch_okay sdk d)
  touch_okay-get_key_from_name priv chain cb derived =
      sends (sdk.sha256 (priv ++ chain)) d.name_args.caller_pub (doc.length_sha256 (priv ++ chain))
        wf.name_caller_size
        (get_key_from_name-Replied sdk doc d wf (sdk.sha256 (priv ++ chain)) cb (
          ap (key_of sdk doc d wf)
            (derive_name_key-eq-derive_node sdk doc (hashed_name d) ∙ derived)))
