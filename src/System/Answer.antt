-- ===== src/System/Answer.antt =====
-- The bytes of an answer that carries a key, as the application (app/src/instrs.c) puts them
-- together and the library (libkpl/src/kpl.cpp) takes them apart.
use ledger_kee_pass.Base.{
  ℕ, ◌≡◌, refl, ◌∙◌, ap, List, [], ◌∷◌, ◌++◌, arith, length, take, drop, get_or, take_of_append,
  drop_of_append, length-append, get_or-append,
}
use ledger_kee_pass.Host.Transport.{answer_sw}

module _ (own kpkey : List ℕ) (own_size : length own ≡ 32) (kpkey_size : length kpkey ≡ 32) where
  abbrev pub answer : List ℕ
  answer = own ++ (kpkey ++ 0x90 ∷ 0 ∷ [])

  pub length-answer : length answer ≡ 66
  length-answer = omega (
    arith,
    length-append {0} own (kpkey ++ 0x90 ∷ 0 ∷ []),
    length-append {0} kpkey (0x90 ∷ 0 ∷ []),
  )

  pub take-answer : take 32 answer ≡ own
  take-answer = take_of_append own (kpkey ++ 0x90 ∷ 0 ∷ []) own_size

  pub take-drop-answer : take 32 (drop 32 answer) ≡ kpkey
  take-drop-answer =
      ap (λ t. take 32 t) (drop_of_append own (kpkey ++ 0x90 ∷ 0 ∷ []) own_size)
      ∙ take_of_append kpkey (0x90 ∷ 0 ∷ []) kpkey_size

  high : get_or answer 64 0 ≡ 0x90
  high =
      rw
        (
          get_or-append own (kpkey ++ 0x90 ∷ 0 ∷ []) 64 0,
          own_size,
          get_or-append kpkey (0x90 ∷ 0 ∷ []) 32 0,
          kpkey_size,
        )
        refl

  low : get_or answer 65 0 ≡ 0
  low =
      rw
        (
          get_or-append own (kpkey ++ 0x90 ∷ 0 ∷ []) 65 0,
          own_size,
          get_or-append kpkey (0x90 ∷ 0 ∷ []) 33 0,
          kpkey_size,
        )
        refl

  pub answer_sw-answer : answer_sw answer ≡ 0x9000
  answer_sw-answer = rw (length-answer, high, low) refl
