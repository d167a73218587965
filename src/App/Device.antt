-- ===== src/App/Device.antt =====
-- The state of the running application: the statics of app/src/instrs.c and app/src/approve.c, the
-- APDU buffer, the variables of `app_main`'s loop, the memory, the screen, and what was sent.
pub mod WellFormed
pub mod Outcomes
use ledger_kee_pass.Base.{
  ℕ, ◌+◌, ◌≡◌, ◌≤◌, Bool, Option, some, none, List, [], ◌∷◌, ◌++◌, if◌then◌else◌, leb, length, blit,
  take, replicate,
}
use ledger_kee_pass.App.Storage.{Storage}

-- The callbacks that are given to `ui_approval`.
pub data Callback : Type 0 where
  confirm_erase : Callback  -- handleStoreKeyConfirmErase
  get_key_after_approve : Callback  -- handleGetKeyAfterApprove
  get_key_from_name_after_approve : Callback  -- handleGetKeyFromNameAfterApprove
  erase_all_slots_approve : Callback  -- handleEraseAllSlotsApprove

-- What the screen shows: the menu of `ui_idle`, or the question of `ui_approval`.
pub data Screen : Type 0 where
  idle approval : Screen

-- `handleStoreKeyConfirmEraseArgs_`
pub record ConfirmEraseArgs : Type 0 where
  pub key : List ℕ
  pub slot : ℕ

-- `GetKeyAfterApproveArgs_`
pub record GetKeyArgs : Type 0 where
  pub caller_pub : List ℕ
  pub slot : ℕ

-- `GetKeyFromNameArgs_`
pub record NameArgs : Type 0 where
  pub name : List ℕ
  pub caller_pub : List ℕ
  pub name_len : ℕ

pub record Device : Type 0 where
  pub nv : Storage
  pub apdu : List ℕ  -- G_io_apdu_buffer
  pub asynch : Bool  -- IO_ASYNCH_REPLY, the only bit of `flags` that is used
  pub erase_args : ConfirmEraseArgs
  pub key_args : GetKeyArgs
  pub name_args : NameArgs
  pub line1 : List ℕ  -- ApproveLine1
  pub line2 : List ℕ  -- ApproveLine2
  pub screen : Screen
  pub approve_cb : Option Callback  -- approve_cb_, NULL at the start
  pub draws : ℕ  -- the calls of `cx_rng` so far
  pub sent : List (List ℕ)  -- the replies, the latest first

-- How a call of a handler or a callback ends: a status word and `*tx`, an exception, or a fault: a
-- write outside an array, a call of NULL or a failed `assert`.
pub data Outcome : Type 0 where
  returns : ℕ → ℕ → Device → Outcome
  throws : ℕ → ℕ → Device → Outcome
  fault : Outcome

-- `os_memcpy(&array[off], bytes, …)`
abbrev pub copy : List ℕ → ℕ → List ℕ → Option (List ℕ)
copy array off bytes =
    if leb (off + length bytes) (length array) then some (blit array off bytes) else none

infixl 5 ◌>>=◌
abbrev pub ◌>>=◌ : Option (List ℕ) → (List ℕ → Outcome) → Outcome
none >>= k = fault
some array >>= k = k array

abbrev pub assert : Bool → Outcome → Outcome
assert holds rest = if holds then rest else fault

-- The two sides of `approve.c`'s interface for the handlers: `ui_approval` and `ui_idle`.
abbrev pub ui_approval : Callback → Device → Device
ui_approval cb d = record d { approve_cb = some cb; screen = Screen.approval }

abbrev pub ui_idle : Device → Device
ui_idle d = record d { screen = Screen.idle }
