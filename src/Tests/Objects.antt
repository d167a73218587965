-- ===== src/Tests/Objects.antt =====
-- Memory, answers, results and the C interface of the library (libkpl/), at concrete inputs.
use ledger_kee_pass.Base.{
  ℕ, ◌+◌, ◌≡◌, ◌≤◌, refl, arith, true, false, some, none, [], ◌∷◌, ◌++◌, pos, length, drop,
  if◌then◌else◌, replicate,
}
use ledger_kee_pass.App.Consts.{slot_count}
use ledger_kee_pass.App.Instrs.{codes}
use ledger_kee_pass.Host.Result.{success, device_not_found, is_success}
use ledger_kee_pass.Host.Intmem.{little, big, w16, w32, storeu_be, loadu_be, storeu_le, loadu_le}
use ledger_kee_pass.Host.Intmem.Orders.{be_bytes, storeu_be-eq-be_bytes, loadu-storeu_between}
use ledger_kee_pass.Host.Transport.{LedgerDevice}
use ledger_kee_pass.Host.Answer.{LedgerAnswer, exchange_into}
use ledger_kee_pass.Host.Answer.Viewed.{Reads, exchange_into-Reads}
use ledger_kee_pass.Host.ErrorOr.{ErrorOr, move, assign}
use ledger_kee_pass.Host.ErrorOr.Lifetimes.{
  value, failure, HandsOver, owns_value, owns_error, moves-HandsOver,
}
use ledger_kee_pass.Host.Kpl.{get_valid_key_slots}
use ledger_kee_pass.Host.CApi.{wrap_res, kpl_get_valid_key_slots, kpl_ledger_device_name}
use ledger_kee_pass.Host.CApi.Wrapped.{kpl_get_valid_key_slots-fits}
use ledger_kee_pass.Host.CApi.Names.{kpl_ledger_device_name-unterminated}

storeu_be-eq-be_bytes_example : storeu_be little w32 0x01020304 ≡ be_bytes w32 0x01020304
storeu_be-eq-be_bytes_example = storeu_be-eq-be_bytes little w32 0x01020304

loadu-storeu_between_example :
    (loadu_be big w16 (storeu_be little w16 0x9000 ++ 7 ∷ []) ≡ 0x9000)
    × (loadu_le big w16 (storeu_le little w16 0x9000 ++ 7 ∷ []) ≡ 0x9000)
loadu-storeu_between_example = loadu-storeu_between little big w16 0x9000 (7 ∷ []) (omega arith)

-- A device that lists the slots 0 and 2.
abbrev lister : LedgerDevice ℕ
lister = record {
  connect = λ n. (success, n);
  exchange =
      λ size packet n. record { result = success; answer = 5 ∷ 0x90 ∷ 0 ∷ []; device = n + 1 };
}

abbrev answer : LedgerAnswer
answer = record { n = 3; buf = 0xAA ∷ 0xBB ∷ 0xCC ∷ [] }

exchange_into-Reads_example :
    let r = lister.exchange answer.n [] 0 in
    let (result, (a', s')) = exchange_into lister answer [] 0 in
    (result ≡ success) × Reads little a' r.answer × (s' ≡ r.device)
exchange_into-Reads_example =
    exchange_into-Reads lister little answer [] 0 (omega arith) (omega arith) (omega arith) refl

abbrev holding : ErrorOr ℕ
holding = record { valid = true; object = some 8; error = success; built = 0 + 1; destroyed = 0 }

abbrev failing : ErrorOr ℕ
failing = record {
  valid = false;
  object = none;
  error = device_not_found;
  built = 0;
  destroyed = 0;
}

moves-HandsOver_example :
    HandsOver (value 8) (move success holding) × HandsOver (value 8) (assign failing holding)
moves-HandsOver_example =
    moves-HandsOver (value 8) (failure device_not_found) holding failing success
      (owns_value 8 success 0) (owns_error device_not_found 0)

kpl_get_valid_key_slots-fits_example :
    let r = get_valid_key_slots lister 0 in
    (length r.out ≤ slot_count)
    × (kpl_get_valid_key_slots lister
          (some (record { major = 0; minor = 3; patch = 0 }))
          (some (replicate 8 9))
          (some 77)
          0
        ≡ (if is_success r.result
            then record {
              code = wrap_res success;
              out = (some (r.out ++ drop (length r.out) (replicate 8 9)), some (length r.out));
              device = r.device;
            }
            else record {
              code = wrap_res r.result;
              out = (some (replicate 8 9), some 77);
              device = r.device;
            }))
kpl_get_valid_key_slots-fits_example =
    kpl_get_valid_key_slots-fits lister (record { major = 0; minor = 3; patch = 0 }) (replicate 8 9)
      77 0 (omega arith)

kpl_ledger_device_name-unterminated_example :
    let asked = (kpl_ledger_device_name none (some 0) (some (codes "USB"))).1.1 in
    (asked ≡ some (length (codes "USB") + 1))
    × (kpl_ledger_device_name (some ((1 ∷ 2 ∷ 3 ∷ []) ++ 4 ∷ [])) asked (some (codes "USB"))
        ≡ (pos 0, (some (codes "USB" ++ 4 ∷ []), some (length (codes "USB") + 1))))
kpl_ledger_device_name-unterminated_example =
    kpl_ledger_device_name-unterminated (codes "USB") (1 ∷ 2 ∷ 3 ∷ []) 4 0 refl
