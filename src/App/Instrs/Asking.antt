-- ===== src/App/Instrs/Asking.antt =====
-- What the screen tells the user while a callback waits for approval (app/src/instrs.c and
-- app/src/approve.c): the question names the very slot or name that the callback will use.
use ledger_kee_pass.Base.{
  ℕ, ◌+◌, ◌≡◌, ◌≤◌, ◌<◌, refl, true, some, List, [], ◌∷◌, ◌++◌, if◌then◌else◌, arith, ◌==◌, length,
  take,
}
use ledger_kee_pass.App.Consts.{slot_count, max_name_size}
use ledger_kee_pass.App.Storage.{is_key_valid}
use ledger_kee_pass.App.Device.{Device, Screen, Callback}
use ledger_kee_pass.App.Instrs.Text.{codes, seed_prefix}
use ledger_kee_pass.App.Instrs.Handlers.{is_name_valid}

-- A line as it is shown: its bytes up to the terminator.
abbrev pub shown : List ℕ → List ℕ
shown [] = []
shown (c ∷ line) = if c == 0 then [] else c ∷ shown line

abbrev pub quote : ℕ
quote = b'\''

-- The name that `handleGetKeyFromNameAfterApprove` hashes.
abbrev pub hashed_name : Device → List ℕ
hashed_name d = take d.name_args.name_len d.name_args.name

-- The question on the screen for a callback, by what that callback reads.
pub data Displays (d : Device) : Callback → Type 0 where
  erase_slot :
      d.erase_args.slot < slot_count
      → shown d.line1 ≡ codes "Slot #" ++ ((48 + d.erase_args.slot) ∷ codes " already set.")
      → shown d.line2 ≡ codes "Erase?"
      → Displays d Callback.confirm_erase
  open_slot :
      d.key_args.slot < slot_count
      → is_key_valid d.nv d.key_args.slot ≡ true
      → shown d.line1 ≡ codes "Database open slot"
      → shown d.line2 ≡ codes "Slot #" ++ ((48 + d.key_args.slot) ∷ [])
      → Displays d Callback.get_key_after_approve
  open_name :
      (name : List ℕ)
      → 1 ≤ length name
      → length name ≤ max_name_size
      → is_name_valid name ≡ true
      → hashed_name d ≡ seed_prefix ++ name
      → shown d.line1 ≡ codes "Database open name"
      → shown d.line2 ≡ quote ∷ (name ++ quote ∷ [])
      → Displays d Callback.get_key_from_name_after_approve
  erase_all :
      shown d.line1 ≡ codes "Erase all slots?"
      → shown d.line2 ≡ codes "They will be erased forever!"
      → Displays d Callback.erase_all_slots_approve

-- While a question is on the screen, a callback is set and the question is the callback's.
abbrev pub IsAsking : Device → Type 0
IsAsking d = d.screen ≡ Screen.approval → (cb : Callback) × (d.approve_cb ≡ some cb) × Displays d cb

-- A valid name has no terminator in it.
pub shown-append :
    (name line : List ℕ) → is_name_valid name ≡ true → shown (name ++ line) ≡ name ++ shown line
unfolding is_name_valid
shown-append [] line h = refl
shown-append (c ∷ name) line h = ground (arith, shown-append name line)
