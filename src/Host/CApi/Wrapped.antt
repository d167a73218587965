-- ===== src/Host/CApi/Wrapped.antt =====
-- `KPLGetValidKeySlots` (libkpl/src/c_api/kpl_c.cpp) against the method that it wraps.
use ledger_kee_pass.Base.{
  ℕ, ◌==◌, Bool, zero, suc, ◌+◌, ◌/◌, ◌%◌, ◌≤◌, ◌≡◌, refl, ◌∙◌, ap, true, false, some, List, ◌++◌,
  arith, ltb, Bool-cases, inl, inr, if◌then◌else◌, length, drop, blit, blit_parts,
}
use mathlib.Core.Bool.{not}
use ledger_kee_pass.App.Consts.{slot_count}
use ledger_kee_pass.Host.Result.{success, is_success}
use ledger_kee_pass.Host.Transport.{LedgerDevice, data_size}
use ledger_kee_pass.Host.Client.{apdu_stream, exchange}
use ledger_kee_pass.Host.Kpl.{Ended, slots_loop, answer_result, get_valid_key_slots}
use ledger_kee_pass.Host.CApi.{KplObj, pointed, wrap_res, copy_slots, kpl_get_valid_key_slots}

length-slots_loop : (fuel slots s : ℕ) → length (slots_loop fuel slots s) ≤ fuel
unfolding slots_loop
length-slots_loop zero slots s = omega arith
length-slots_loop (suc fuel) slots s =
    ground (arith, length-slots_loop fuel (slots / 2) ((s + 1) % 256))

taken {ℓ} : {A : Type ℓ} {b : Bool} → b ≡ true → (x y : A) → x ≡ (if b then x else y)
taken h x y = rw h refl

not_taken {ℓ} : {A : Type ℓ} {b : Bool} → b ≡ false → (x y : A) → y ≡ (if b then x else y)
not_taken h x y = rw h refl

module _ {S : Type 0} (dev : LedgerDevice S) where
  length-get_valid_key_slots : (s : S) → length (get_valid_key_slots dev s).out ≤ slot_count
  unfolding get_valid_key_slots
  length-get_valid_key_slots s =
      let r = exchange dev 3 (apdu_stream 4 0 0) s in
      elim (Bool-cases (not (is_success (answer_result r)))) [
        | inl bad ↦ rw bad (omega arith)
        | inr good ↦ elim (Bool-cases (not (data_size r.answer == 1))) [
          | inl long ↦ rw (good, long) (omega arith)
          | inr one ↦ rw (good, one) (length-slots_loop 8 _ 0)
        ]
      ]

  copied :
      (r : Ended S (List ℕ)) (out : List ℕ) (count : ℕ)
      → length r.out ≤ slot_count
      → slot_count ≤ length out
      → is_success r.result ≡ true
      → copy_slots dev r out count ≡ record {
        code = wrap_res success;
        out = (r.out ++ drop (length r.out) out, length r.out);
        device = r.device;
      }
  unfolding copy_slots
  copied r out count few room ok =
      let fits : ltb slot_count (length r.out) ≡ false = ground arith in
      let front : blit out 0 r.out ≡ r.out ++ drop (length r.out) out =
        blit_parts r.out out 0 (omega arith) ∙ ap (λ (t : ℕ). r.out ++ drop t out) (omega arith) in
      simp (ok, fits, front) refl

  not_copied :
      (r : Ended S (List ℕ)) (out : List ℕ) (count : ℕ)
      → is_success r.result ≡ false
      → copy_slots dev r out count
        ≡ record { code = wrap_res r.result; out = (out, count); device = r.device }
  unfolding copy_slots
  not_copied r out count failed = simp failed refl

  -- With an array of at least eight bytes, `KPLGetValidKeySlots` gives the code of
  -- `KPL::getValidKeySlots`, whose slots are at most eight, so KPL_LIB_BAD_LENGTH is never its
  -- own: a success puts the slots at the front of the array, leaves the bytes behind them alone
  -- and sets the count to their number, and an error leaves the array and the count as they were.
  pub kpl_get_valid_key_slots-fits :
      (obj : KplObj) (out : List ℕ) (count : ℕ) (s : S)
      → slot_count ≤ length out
      → let r = get_valid_key_slots dev s in
        (length r.out ≤ slot_count)
        × (kpl_get_valid_key_slots dev (some obj) (some out) (some count) s ≡ (
            if is_success r.result
            then record {
              code = wrap_res success;
              out = (some (r.out ++ drop (length r.out) out), some (length r.out));
              device = r.device;
            }
            else record {
              code = wrap_res r.result;
              out = (some out, some count);
              device = r.device;
            }))
  unfolding kpl_get_valid_key_slots
  kpl_get_valid_key_slots-fits obj out count s room =
      let r = get_valid_key_slots dev s in
      let few = length-get_valid_key_slots s in
      (
        few,
        elim (Bool-cases (is_success r.result)) [
          | inl ok ↦ ap pointed (copied r out count few room ok) ∙ taken ok _ _
          | inr failed ↦ ap pointed (not_copied r out count failed) ∙ not_taken failed _ _
        ],
      )
