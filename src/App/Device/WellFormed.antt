-- ===== src/App/Device/WellFormed.antt =====
-- What holds of the application's arrays (app/src/instrs.c, app/src/approve.c) between two calls.
use ledger_kee_pass.Base.{ℕ, ◌≡◌, Bool, Option, List, length}
use ledger_kee_pass.App.Sdk.{Sdk}
use mathlib.Core.Path.{◌∙◌}
use ledger_kee_pass.App.Storage.{Storage}
use ledger_kee_pass.App.Storage.View.{IsValid}
use ledger_kee_pass.App.Device.{Device, Screen, Callback}

-- The sizes of the C arrays, and a valid storage.
pub record WellFormed (sdk : Sdk) (d : Device) : Type 0 where
  pub storage : IsValid d.nv
  pub apdu_size : length d.apdu ≡ sdk.apdu_buffer_size
  pub erase_key_size : length d.erase_args.key ≡ 32
  pub key_caller_size : length d.key_args.caller_pub ≡ 32
  pub name_size : length d.name_args.name ≡ 27
  pub name_caller_size : length d.name_args.caller_pub ≡ 32
  pub line1_size : length d.line1 ≡ 32
  pub line2_size : length d.line2 ≡ 32

module _ (sdk : Sdk) (d : Device) (wf : WellFormed sdk d) where
  -- The updates that keep a device well formed.
  pub lines-WellFormed :
      (line1 line2 : List ℕ)
      → length line1 ≡ length d.line1
      → length line2 ≡ length d.line2
      → WellFormed sdk (record d { line1 = line1; line2 = line2 })
  lines-WellFormed line1 line2 s1 s2 = record {
    storage = wf.storage;
    apdu_size = wf.apdu_size;
    erase_key_size = wf.erase_key_size;
    key_caller_size = wf.key_caller_size;
    name_size = wf.name_size;
    name_caller_size = wf.name_caller_size;
    line1_size = s1 ∙ wf.line1_size;
    line2_size = s2 ∙ wf.line2_size;
  }

  pub erase_args-WellFormed :
      (key : List ℕ) (slot : ℕ)
      → length key ≡ 32
      → WellFormed sdk (record d { erase_args = record { key = key; slot = slot } })
  erase_args-WellFormed key slot size = record {
    storage = wf.storage;
    apdu_size = wf.apdu_size;
    erase_key_size = size;
    key_caller_size = wf.key_caller_size;
    name_size = wf.name_size;
    name_caller_size = wf.name_caller_size;
    line1_size = wf.line1_size;
    line2_size = wf.line2_size;
  }

  pub key_args-WellFormed :
      (caller : List ℕ) (slot : ℕ)
      → length caller ≡ length d.key_args.caller_pub
      → WellFormed sdk (record d { key_args = record { caller_pub = caller; slot = slot } })
  key_args-WellFormed caller slot size = record {
    storage = wf.storage;
    apdu_size = wf.apdu_size;
    erase_key_size = wf.erase_key_size;
    key_caller_size = size ∙ wf.key_caller_size;
    name_size = wf.name_size;
    name_caller_size = wf.name_caller_size;
    line1_size = wf.line1_size;
    line2_size = wf.line2_size;
  }

  pub name_args-WellFormed :
      (name caller : List ℕ) (n : ℕ)
      → length name ≡ length d.name_args.name
      → length caller ≡ length d.name_args.caller_pub
      → WellFormed sdk
          (record d { name_args = record { name = name; caller_pub = caller; name_len = n } })
  name_args-WellFormed name caller n sn sc = record {
    storage = wf.storage;
    apdu_size = wf.apdu_size;
    erase_key_size = wf.erase_key_size;
    key_caller_size = wf.key_caller_size;
    name_size = sn ∙ wf.name_size;
    name_caller_size = sc ∙ wf.name_caller_size;
    line1_size = wf.line1_size;
    line2_size = wf.line2_size;
  }

  pub nv-WellFormed : (st : Storage) → IsValid st → WellFormed sdk (record d { nv = st })
  nv-WellFormed st valid = record {
    storage = valid;
    apdu_size = wf.apdu_size;
    erase_key_size = wf.erase_key_size;
    key_caller_size = wf.key_caller_size;
    name_size = wf.name_size;
    name_caller_size = wf.name_caller_size;
    line1_size = wf.line1_size;
    line2_size = wf.line2_size;
  }

  pub apdu-WellFormed :
      (apdu : List ℕ) → length apdu ≡ length d.apdu → WellFormed sdk (record d { apdu = apdu })
  apdu-WellFormed apdu size = record {
    storage = wf.storage;
    apdu_size = size ∙ wf.apdu_size;
    erase_key_size = wf.erase_key_size;
    key_caller_size = wf.key_caller_size;
    name_size = wf.name_size;
    name_caller_size = wf.name_caller_size;
    line1_size = wf.line1_size;
    line2_size = wf.line2_size;
  }

  -- The fields that carry no array.
  pub flags-WellFormed :
      (asynch : Bool) (screen : Screen) (cb : Option Callback) (draws : ℕ) (sent : List (List ℕ))
      → WellFormed sdk (record d {
        asynch = asynch;
        screen = screen;
        approve_cb = cb;
        draws = draws;
        sent = sent;
      })
  flags-WellFormed asynch screen cb draws sent = record {
    storage = wf.storage;
    apdu_size = wf.apdu_size;
    erase_key_size = wf.erase_key_size;
    key_caller_size = wf.key_caller_size;
    name_size = wf.name_size;
    name_caller_size = wf.name_caller_size;
    line1_size = wf.line1_size;
    line2_size = wf.line2_size;
  }
