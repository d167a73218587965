-- ===== src/Host/Kpl/ValidSlots.antt =====
-- The loop of `getValidKeySlots` (libkpl/src/kpl.cpp) reads the application's bit field.
use ledger_kee_pass.Base.{
  ℕ, zero, suc, ◌+◌, ◌/◌, ◌^◌, ◌<◌, ◌≡◌, refl, sym, ◌∙◌, ap₂, Bool, true, false, ◌&&◌, ◌||◌, List,
  [], ◌∷◌, ltb, ◌==◌, bit_and, if◌then◌else◌, Bool-cases, inl, inr, ==_iff, arith, holds_below,
  holds_below_at,
}
use ledger_kee_pass.App.Consts.{slot_count}
use ledger_kee_pass.App.Storage.{Storage, is_key_valid}
use ledger_kee_pass.App.Storage.View.{same, same→eq}
use ledger_kee_pass.Host.Kpl.{slots_loop}

abbrev pub contains : ℕ → List ℕ → Bool
contains j [] = false
contains j (x ∷ xs) = x == j || contains j xs

abbrev slot_row : ℕ → ℕ → Bool
slot_row v j = same (contains j (slots_loop 8 v 0)) (ltb 0 (bit_and (v / 2 ^ j) 1))

abbrev slot_rows : ℕ → Bool
slot_rows v = holds_below (slot_row v) 8

slot_table : holds_below slot_rows 256 ≡ true
unfolding holds_below slots_loop
slot_table = refl

-- For a bit field below 256 the loop of `getValidKeySlots` lists a slot in range exactly if the
-- application's `is_key_valid` holds of it.
pub contains-slots_loop :
    (st : Storage) (j : ℕ)
    → st.key_valids < 256
    → j < slot_count
    → contains j (slots_loop 8 st.key_valids 0) ≡ is_key_valid st j
unfolding is_key_valid
contains-slots_loop st j h hj =
    let row = holds_below_at slot_rows 256 st.key_valids h slot_table in
    same→eq _ _ (holds_below_at (slot_row st.key_valids) 8 j hj row)

-- The slots of a row of so many, from `s` on, in which `held` is true
abbrev pub slots_where : ℕ → ℕ → (ℕ → Bool) → List ℕ
slots_where zero s held = []
slots_where (suc n) s held =
    let rest = slots_where n (s + 1) held in if held s then s ∷ rest else rest

pub slots_where-eq :
    (n s : ℕ) (p q : ℕ → Bool)
    → ((j : ℕ) → j < s + n → p j ≡ q j)
    → slots_where n s p ≡ slots_where n s q
slots_where-eq zero s p q h = refl
slots_where-eq (suc n) s p q h =
    rw (h s (omega arith), slots_where-eq n (s + 1) p q (λ j lt. h j (omega arith))) refl

abbrev same_list : List ℕ → List ℕ → Bool
same_list [] [] = true
same_list [] (y ∷ ys) = false
same_list (x ∷ xs) [] = false
same_list (x ∷ xs) (y ∷ ys) = x == y && same_list xs ys

same_list→eq : (xs ys : List ℕ) → same_list xs ys ≡ true → xs ≡ ys
same_list→eq [] [] h = refl
same_list→eq [] (y ∷ ys) h = cc
same_list→eq (x ∷ xs) [] h = cc
same_list→eq (x ∷ xs) (y ∷ ys) h = elim (Bool-cases (x == y)) [
  | inl e ↦
      let rest : same_list xs ys ≡ true = sym (rw e refl) ∙ h in
      ap₂ ◌∷◌ ((==_iff x y).0 e) (same_list→eq xs ys rest)
  | inr e ↦ absurd (refuted (sym (rw e refl) ∙ h))
]
  where
    refuted : false ≡ true → ⊥
    refuted e = cc

abbrev listed_row : ℕ → Bool
listed_row v = same_list (slots_loop 8 v 0) (slots_where 8 0 (λ j. ltb 0 (bit_and (v / 2 ^ j) 1)))

listed_table : holds_below listed_row 256 ≡ true
unfolding holds_below slots_loop
listed_table = refl

-- The loop lists the valid slots in their order, each once.
pub slots_loop-eq-slots_where :
    (st : Storage)
    → st.key_valids < 256
    → slots_loop 8 st.key_valids 0 ≡ slots_where slot_count 0 (is_key_valid st)
unfolding is_key_valid
slots_loop-eq-slots_where st h =
    same_list→eq _ _ (holds_below_at listed_row 256 st.key_valids h listed_table)
