-- ===== src/System/Refused.antt =====
-- `KPL::getKey` (libkpl/src/kpl.cpp) against the application (app/src) when the user refuses.
use ledger_kee_pass.Base.{ℕ, ◌≡◌, refl, ◌∙◌, ap, some, List, arith, length}
use ledger_kee_pass.App.Consts.{sw_unauthorized_access}
use ledger_kee_pass.App.Sdk.{Sdk, IsDocumented}
use ledger_kee_pass.App.Status.{sw_bytes}
use ledger_kee_pass.App.Storage.View.{view}
use ledger_kee_pass.App.Device.{Device}
use ledger_kee_pass.App.Device.WellFormed.{WellFormed}
use ledger_kee_pass.App.Approve.{left_released}
use ledger_kee_pass.Host.Result.{success, app_unauthorized_access, is_success, parse_app_sw}
use ledger_kee_pass.Host.Sodium.{Sodium}
use ledger_kee_pass.Host.Crypto.{x25519_gen_priv_key}
use ledger_kee_pass.Host.Transport.{LedgerDevice}
use ledger_kee_pass.Host.Client.{check_answer, exchange-sends}
use ledger_kee_pass.Host.Kpl.{answer_result, decrypt_answer, get_key}
use ledger_kee_pass.System.Link.{link}
use ledger_kee_pass.System.GetKey.{exchange-refuses}
use ledger_kee_pass.System.RoundTrip.{get_key_lem}

module _ (sodium : Sodium) {S : Type 0} (dev : LedgerDevice S) where
  -- The library reads the status word of a refusal.
  pub decrypt_answer-refused :
      (own_pub own_priv out : List ℕ) (s : S)
      → decrypt_answer sodium dev
          (check_answer dev
            (record { result = success; answer = sw_bytes sw_unauthorized_access; device = s }))
          own_pub
          own_priv
          out
        ≡ record { result = app_unauthorized_access; out = out; device = s }
  unfolding decrypt_answer check_answer answer_result is_success parse_app_sw
  decrypt_answer-refused own_pub own_priv out s = refl

module _ (sdk : Sdk) (doc : IsDocumented sdk) (sodium : Sodium) where
  pub get_key-refused_whole :
      (d : Device) (slot : ℕ) (key own_priv out : List ℕ)
      → WellFormed sdk d
      → view d.nv slot ≡ some key
      → length (x25519_gen_priv_key sodium own_priv) ≡ 32
      → length out ≡ 32
      → (s : Device) × (get_key sodium (link sdk left_released) slot own_priv out d
          ≡ record { result = app_unauthorized_access; out = out; device = s })
        × (WellFormed sdk s × (s.nv ≡ d.nv))
  get_key-refused_whole d slot key own_priv out wf held size hout =
      let own_pub = x25519_gen_priv_key sodium own_priv in
      let dev = link sdk left_released in
      let (s, brought, kept) = exchange-refuses sdk doc d wf slot own_pub key size held in
      (
        s,
        get_key_lem sodium dev slot own_priv out d hout
            ∙ ap (λ r. decrypt_answer sodium dev r own_pub own_priv out)
                (exchange-sends dev 66 2 slot 0 own_pub d (omega (arith, size))
                  ∙ ap (check_answer dev) brought)
            ∙ decrypt_answer-refused sodium dev own_pub own_priv out s,
        kept,
      )

  -- If the application is well-formed, its slot holds a key, libsodium gives a public key of 32
  -- bytes, and the user refuses, then `KPL::getKey` for that slot, with a buffer of 32 bytes,
  -- gives APP_UNAUTHORIZED_ACCESS, the buffer is as it was and so is the application's storage.
  pub get_key-refused :
      (d : Device) (slot : ℕ) (key own_priv out : List ℕ)
      → WellFormed sdk d
      → view d.nv slot ≡ some key
      → length (x25519_gen_priv_key sodium own_priv) ≡ 32
      → length out ≡ 32
      → let ended = get_key sodium (link sdk left_released) slot own_priv out d in
        (ended.result ≡ app_unauthorized_access) × (ended.out ≡ out) × (ended.device.nv ≡ d.nv)
  get_key-refused d slot key own_priv out wf held size hout =
      let (s, whole, (_, kept)) = get_key-refused_whole d slot key own_priv out wf held size hout in
      (ap (λ r. r.result) whole, ap (λ r. r.out) whole, ap (λ r. r.device.nv) whole ∙ kept)
