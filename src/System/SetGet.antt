-- ===== src/System/SetGet.antt =====
-- `KPL::setKey` and then `KPL::getKey` (libkpl/src/kpl.cpp) against the application (app/src).
use ledger_kee_pass.Base.{
  ℕ, ◌<◌, ◌≡◌, refl, ◌∙◌, true, false, some, List, arith, ◌==◌, if◌then◌else◌, length, take_all,
}
use ledger_kee_pass.App.Consts.{slot_count, key_size}
use ledger_kee_pass.App.Sdk.{Sdk, IsDocumented}
use ledger_kee_pass.App.Storage.{is_key_valid}
use ledger_kee_pass.App.Storage.View.{view}
use ledger_kee_pass.App.Storage.Slots.{view-store_key_slot, store_key_slot-IsValid}
use ledger_kee_pass.App.Device.{Device}
use ledger_kee_pass.App.Device.WellFormed
use ledger_kee_pass.App.Device.WellFormed.{WellFormed}
use ledger_kee_pass.App.Main.Dispatched.{packet_of, loaded-WellFormed}
use ledger_kee_pass.App.Approve.{Button, right_released}
use ledger_kee_pass.Host.Result.{success}
use ledger_kee_pass.Host.Sodium.{Sodium}
use ledger_kee_pass.Host.Kpl.{get_key, set_key}
use ledger_kee_pass.System.Curves.{SameCurve}
use ledger_kee_pass.System.Link.{link}
use ledger_kee_pass.System.Immediate.{stored, set_key_lem}
use ledger_kee_pass.System.RoundTrip.{get_key-held}

module _ (sdk : Sdk) (doc : IsDocumented sdk) (d : Device) (wf : WellFormed sdk d) (slot : ℕ)
    (key : List ℕ) (lt : slot < slot_count) (size : length key ≡ key_size)
    (empty : is_key_valid d.nv slot ≡ false) where
  abbrev pub after : Device
  after = stored sdk doc d wf slot key lt size empty

  pub after-WellFormed : WellFormed sdk after
  after-WellFormed =
      let start = loaded-WellFormed sdk doc d wf (packet_of 1 slot 0 key) (omega (arith, size)) in
      let with_key =
        WellFormed.nv-WellFormed sdk _ start after.nv
          (store_key_slot-IsValid slot key d.nv wf.storage lt (omega arith)) in
      let answered = WellFormed.apdu-WellFormed sdk _ with_key after.apdu refl in
      WellFormed.flags-WellFormed sdk _ answered false d.screen d.approve_cb d.draws after.sent

  -- The slot shows the key, and every other slot what it showed.
  pub after_shows : (j : ℕ) → view after.nv j ≡ (if slot == j then some key else view d.nv j)
  after_shows j =
      view-store_key_slot slot key d.nv wf.storage lt (omega arith) j
      ∙ rw (take_all key {n = 32} (omega arith))

  after_holds : view after.nv slot ≡ some key
  after_holds = let same : (slot == slot) ≡ true = ground arith in after_shows slot ∙ rw same

  -- If the application is well-formed, a slot in range holds no key, the SDK and libsodium
  -- implement the same X25519 and Blake2b and libsodium's exchange of the two private keys
  -- succeeds, then `KPL::setKey` of a key of 32 bytes into that slot succeeds, and `KPL::getKey`
  -- behind it, approved by the user, with a private key and a buffer of 32 bytes, succeeds and
  -- leaves that key in the buffer.
  pub get_key-set_key :
      (sodium : Sodium) (same : SameCurve sdk sodium) (b : Button) (own_priv out : List ℕ)
      {secret : List ℕ}
      → length own_priv ≡ 32
      → length out ≡ 32
      → sodium.scalarmult own_priv (sodium.scalarmult_base (sdk.rng d.draws 32)) ≡ some secret
      → let (result, d') = set_key (link sdk b) slot key d in
        let ended = get_key sodium (link sdk right_released) slot own_priv out d' in
        (result ≡ success) × (ended.result ≡ success) × (ended.out ≡ key)
  get_key-set_key sodium same b own_priv out ho hout e =
      rw (set_key_lem sdk doc d wf slot key lt size empty b) (
        let (ok, is_key) =
          get_key-held sdk doc sodium same after slot key own_priv out after-WellFormed after_holds
            ho hout e in
        (refl, ok, is_key))
