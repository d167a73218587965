-- ===== src/App/Instrs/Callbacks.antt =====
-- The callbacks of app/src/instrs.c. Each begins with `*tx = 0`, as `touch_okay` calls it.
use ledger_kee_pass.Base.{
  ℕ, zero, suc, ◌+◌, ◌*◌, ◌^◌, true, false, some, none, List, [], ◌∷◌, ◌++◌, bit_or, ltb, get_or,
  take, drop, replicate,
}
use ledger_kee_pass.App.Consts.{key_size, slot_count, sw_success, x25519_pt_size}
use ledger_kee_pass.App.Sdk.{Sdk, Derived}
use ledger_kee_pass.App.Storage.{is_key_valid, key_at, store_key_slot, nv_app_state_init}
use ledger_kee_pass.App.Curve.{Encrypted, x25519_encrypt_kp_key}
use ledger_kee_pass.App.Device.{
  Device, Callback, Outcome, returns, throws, copy, ◌>>=◌, assert, ui_idle,
}

unfoldable pub handle_store_key_confirm_erase : Device → Outcome
handle_store_key_confirm_erase d = returns sw_success 0 (record d {
  nv = store_key_slot d.erase_args.slot d.erase_args.key d.nv;
  erase_args = record { key = replicate key_size 0; slot = 0 };
})

-- KPL_BIP39_PATH of app/Makefile
abbrev pub kpl_bip39_path : ℕ
kpl_bip39_path = 0x804B5041

-- The loop that fills `path` from the hash of the name, two bytes to an element.
unfoldable pub path_from_hash : ℕ → List ℕ → List ℕ
path_from_hash zero hash = []
path_from_hash (suc n) hash =
    bit_or (bit_or 0x80000000 (get_or hash 0 0)) (get_or hash 1 0 * 2 ^ 8)
    ∷ path_from_hash n (drop 2 hash)

module _ (sdk : Sdk) where
  -- The end of both callbacks that send a key. `apdu` holds the key behind the first 32 bytes.
  unfoldable pub reply_encrypted : Device → Encrypted sdk → Outcome
  reply_encrypted d e = do
    with_pub ← elim e.own_pubkey [ none ↦ some d.apdu | some own ↦ copy d.apdu 0 own ]
    with_key ← copy with_pub x25519_pt_size e.kpkey
    let d' = record d { apdu = with_key; draws = d.draws + 1 }
    elim e.succeeds [
      | true ↦ returns sw_success (x25519_pt_size + key_size) d'
      | false ↦ returns sdk.invalid_parameter 0 (ui_idle d')
    ]

  -- `X25519EncryptKPKey` on the key in the buffer.
  unfoldable pub encrypt_and_reply : Device → List ℕ → Outcome
  unfolding reply_encrypted
  encrypt_and_reply d caller = reply_encrypted d (
      x25519_encrypt_kp_key sdk (take key_size (drop x25519_pt_size d.apdu)) caller
        (sdk.rng d.draws 32))

  unfoldable pub handle_get_key_after_approve : Device → Outcome
  unfolding encrypt_and_reply
  handle_get_key_after_approve d =
      let slot = d.key_args.slot in
      assert (ltb slot slot_count) (
        assert (is_key_valid d.nv slot) (do
          with_key ← copy d.apdu x25519_pt_size (take key_size (key_at d.nv slot).bytes)
          encrypt_and_reply (record d { apdu = with_key }) d.key_args.caller_pub))

  unfoldable pub derive_name_key : List ℕ → Derived
  unfolding path_from_hash
  derive_name_key name = sdk.derive_node (kpl_bip39_path ∷ path_from_hash 16 (sdk.sha256 name))

  -- What follows the derivation: the hash of the private key and the chain code is the key.
  unfoldable pub reply_derived : Device → Derived → Outcome
  unfolding encrypt_and_reply
  reply_derived d (Derived.raises e) = throws e 0 d
  reply_derived d (Derived.node key chain) = do
    with_key ← copy d.apdu x25519_pt_size (sdk.sha256 (key ++ chain))
    encrypt_and_reply (record d { apdu = with_key }) d.name_args.caller_pub

  unfoldable pub handle_get_key_from_name_after_approve : Device → Outcome
  unfolding derive_name_key reply_derived
  handle_get_key_from_name_after_approve d =
      reply_derived d (derive_name_key (take d.name_args.name_len d.name_args.name))

  unfoldable pub handle_erase_all_slots_approve : Device → Outcome
  handle_erase_all_slots_approve d =
      returns sw_success 0 (record d { nv = nv_app_state_init true d.nv })

  -- A call through `approve_cb_`.
  unfoldable pub run_callback : Callback → Device → Outcome
  run_callback Callback.confirm_erase = handle_store_key_confirm_erase
  run_callback Callback.get_key_after_approve = handle_get_key_after_approve
  run_callback Callback.get_key_from_name_after_approve = handle_get_key_from_name_after_approve
  run_callback Callback.erase_all_slots_approve = handle_erase_all_slots_approve
