-- ===== src/App/Storage.antt =====
-- The key slots in the device's non-volatile memory: `internalStorage_t` and its accessors in
-- app/src/globals.h, `nv_app_state_init` of app/src/main.c, `storeKeySlot` of app/src/instrs.c.
pub mod View
pub mod Slots
use ledger_kee_pass.Base.{
  ℕ, ◌*◌, ◌/◌, ◌^◌, ◌≤◌, ◌<◌, suc, ◌≡◌, bit_and, bit_or, Bool, ◌||◌, List, [], ◌∷◌, ltb, ◌==◌,
  if◌then◌else◌, u8, length, set, get_or, replicate, take,
}
use mathlib.Core.Bool.{not}
use ledger_kee_pass.App.Consts.{key_size, slot_count}

-- `stored_key_t`
pub record StoredKey : Type 0 where
  pub bytes : List ℕ

-- `internalStorage_t`
pub record Storage : Type 0 where
  pub keys : List StoredKey
  pub key_valids : ℕ
  pub initialized : ℕ

abbrev pub zero_key : StoredKey
zero_key = record { bytes = replicate key_size 0 }

-- `N_storage.keys[slot]`
abbrev pub key_at : Storage → ℕ → StoredKey
key_at st slot = get_or st.keys slot zero_key

unfoldable pub is_key_valid : Storage → ℕ → Bool
is_key_valid st slot = ltb 0 (bit_and (st.key_valids / 2 ^ slot) 1)

-- An `nvm_write` is one change of the memory.
abbrev pub NvmWrite : Type 0
NvmWrite = Storage → Storage

unfoldable pub set_key_as_valid : ℕ → NvmWrite
set_key_as_valid slot st = record st { key_valids = u8 (bit_or st.key_valids (1 * 2 ^ slot)) }

-- `nvm_write((void *)&N_storage.keys[slot], &key, sizeof(key))`
unfoldable pub write_key : ℕ → StoredKey → NvmWrite
write_key slot key st = record st { keys = set st.keys slot key }

-- The writes of `storeKeySlot`, in their order: the key, then its valid bit.
unfoldable pub store_key_slot_writes : ℕ → List ℕ → List NvmWrite
store_key_slot_writes slot from =
    let key : StoredKey = record { bytes = take key_size from } in
    write_key slot key ∷ set_key_as_valid slot ∷ []

abbrev pub run_writes : List NvmWrite → Storage → Storage
run_writes [] st = st
run_writes (w ∷ ws) st = run_writes ws (w st)

unfoldable pub store_key_slot : ℕ → List ℕ → Storage → Storage
unfolding store_key_slot_writes
store_key_slot slot from = run_writes (store_key_slot_writes slot from)

-- What the chip's memory holds after `nv_app_state_init(true)`.
abbrev pub erased : Storage
erased = record { keys = replicate slot_count zero_key; key_valids = 0; initialized = 1 }

unfoldable pub nv_app_state_init : Bool → Storage → Storage
nv_app_state_init force st = if force || not (st.initialized == 1) then erased else st
