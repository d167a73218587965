-- ===== src/App/Instrs/Handlers.antt =====
-- The six instruction handlers and the table that chooses one. A handler is given `p1`, `p2`, the
-- payload (`data_len` bytes at `data`) and `*tx`.
use ledger_kee_pass.Base.{
  ℕ, ◌+◌, Bool, true, false, ◌||◌, Option, some, none, List, [], ◌∷◌, ltb, leb, ◌==◌, if◌then◌else◌,
  length, set, take, drop,
}
use mathlib.Core.Bool.{not}
use ledger_kee_pass.App.Consts.{
  key_size, slot_count, max_name_size, version_major, version_minor, version_patch, sw_success,
  sw_empty_slot, sw_invalid_name, x25519_pt_size,
}
use ledger_kee_pass.App.Sdk.{Sdk}
use ledger_kee_pass.App.Storage.{is_key_valid, store_key_slot}
use ledger_kee_pass.App.Device.{Device, Callback, Outcome, returns, copy, ◌>>=◌, ui_approval}
use ledger_kee_pass.App.Instrs.Text.{c_string, seed_prefix}

abbrev pub Handler : Type 0
Handler = ℕ → ℕ → List ℕ → ℕ → Device → Outcome

unfoldable pub handle_get_app_configuration : Handler
handle_get_app_configuration slot p2 payload tx d = do
  apdu ← copy d.apdu 0 (version_major ∷ version_minor ∷ version_patch ∷ [])
  returns sw_success 3 (record d { apdu = apdu })

-- `ui_approval(cb); *flags |= IO_ASYNCH_REPLY; return KPL_SW_SUCCESS;`
abbrev pub ask : Callback → ℕ → Device → Outcome
ask cb tx d = returns sw_success tx (record (ui_approval cb d) { asynch = true })

unfoldable pub is_name_valid : List ℕ → Bool
is_name_valid [] = true
is_name_valid (v ∷ buf) = if leb v 0x1F || leb 0x7F v then false else is_name_valid buf

unfoldable pub handle_get_valid_slots : Handler
handle_get_valid_slots p1 p2 payload tx d = do
  apdu ← copy d.apdu 0 (d.nv.key_valids ∷ [])
  returns sw_success 1 (record d { apdu = apdu })

unfoldable pub handle_erase_all_slots : Handler
handle_erase_all_slots p1 p2 payload tx d = do
  line1 ← copy d.line1 0 (c_string "Erase all slots?")
  line2 ← copy d.line2 0 (c_string "They will be erased forever!")
  ask Callback.erase_all_slots_approve tx (record d { line1 = line1; line2 = line2 })

module _ (sdk : Sdk) where
  -- The branch of `handleStoreKey` for a slot that is set already.
  unfoldable pub ask_erase : ℕ → List ℕ → ℕ → Device → Outcome
  ask_erase slot payload tx d = do
    key ← copy d.erase_args.key 0 payload
    line1 ← copy d.line1 0 (c_string "Slot #X already set.")
    line2 ← copy d.line2 0 (c_string "Erase?")
    ask Callback.confirm_erase tx (record d {
      erase_args = record { key = key; slot = slot };
      line1 = set line1 6 (b'0' + slot);
      line2 = line2;
    })

  unfoldable pub handle_store_key : Handler
  unfolding ask_erase
  handle_store_key slot p2 payload tx d =
      if leb slot_count slot
      then returns sdk.invalid_parameter tx d
      else (if not (length payload == key_size)
          then returns sdk.invalid_parameter tx d
          else (if is_key_valid d.nv slot
              then ask_erase slot payload tx d
              else returns sw_success 0 (record d { nv = store_key_slot slot payload d.nv })))

  unfoldable pub ask_open_slot : ℕ → List ℕ → ℕ → Device → Outcome
  ask_open_slot slot payload tx d = do
    caller_pub ← copy d.key_args.caller_pub 0 (take x25519_pt_size payload)
    line1 ← copy d.line1 0 (c_string "Database open slot")
    line2 ← copy d.line2 0 (c_string "Slot #X")
    ask Callback.get_key_after_approve tx (record d {
      key_args = record { caller_pub = caller_pub; slot = slot };
      line1 = line1;
      line2 = set line2 6 (b'0' + slot);
    })

  unfoldable pub handle_get_key : Handler
  unfolding ask_open_slot
  handle_get_key slot p2 payload tx d =
      if leb slot_count slot || not (length payload == x25519_pt_size)
      then returns sdk.invalid_parameter tx d
      else (if not (is_key_valid d.nv slot)
          then returns sw_empty_slot tx d
          else ask_open_slot slot payload tx d)

  -- `handleGetKeyFromName` behind the test of the name; the name is `n`.
  unfoldable pub ask_open_name : List ℕ → ℕ → Device → Outcome
  ask_open_name n tx d = do
    prefixed ← copy d.name_args.name 0 seed_prefix
    name ← copy prefixed 7 n
    line1 ← copy d.line1 0 (c_string "Database open name")
    quoted ← copy d.line2 0 (b'\'' ∷ [])
    named ← copy quoted 1 n
    closed ← copy named (length n + 1) (b'\'' ∷ [])
    line2 ← copy closed (length n + 2) (0 ∷ [])
    ask Callback.get_key_from_name_after_approve tx (record d {
      name_args = record d.name_args { name = name; name_len = 7 + length n };
      line1 = line1;
      line2 = line2;
    })

  unfoldable pub handle_get_key_from_name : Handler
  unfolding ask_open_name is_name_valid
  handle_get_key_from_name p1 p2 payload tx d =
      if leb (length payload) x25519_pt_size
        || ltb (x25519_pt_size + max_name_size) (length payload)
      then returns sdk.invalid_parameter tx d
      else (do
        caller_pub ← copy d.name_args.caller_pub 0 (take x25519_pt_size payload)
        let n = drop x25519_pt_size payload
        let d' = record d { name_args = record d.name_args { caller_pub = caller_pub } }
        if not (is_name_valid n) then returns sw_invalid_name tx d' else ask_open_name n tx d')

  -- `Funcs[Ins]`, with `getHandleInstr`'s test against INS_LAST.
  unfoldable pub get_handle_instr : ℕ → Option Handler
  get_handle_instr ins =
      if ins == 0
      then some handle_get_app_configuration
      else (if ins == 1
          then some handle_store_key
          else (if ins == 2
              then some handle_get_key
              else (if ins == 3
                  then some handle_get_key_from_name
                  else (if ins == 4
                      then some handle_get_valid_slots
                      else (if ins == 5 then some handle_erase_all_slots else none)))))
