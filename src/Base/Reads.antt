-- ===== src/Base/Reads.antt =====
-- Reads of an array by index, through appends and reversal, and equality of arrays by their reads.
use Prim.Native.Nat.{ℕ, zero, suc, ◌-◌, ◌≤◌}
use mathlib.Core.Path.{◌≡◌, refl, ap, ap₂, ◌∙◌}
use mathlib.Core.List.{List, [], ◌∷◌, ◌++◌, reverse, reverse-cons}
use native.Mathlib.Omega.{arith}
use ledger_kee_pass.Base.Lists.{length, get_or, length-append}
use ledger_kee_pass.Base.Tests.{ltb, lt→ltb, if◌then◌else◌}
use native.Mathlib.Decide.{dec_lt, ℕ_discrete}

module _ {ℓ} {A : Type ℓ} where
  pub get_or-append :
      (xs ys : List A) (j : ℕ) (d : A)
      → get_or (xs ++ ys) j d
        ≡ (if ltb j (length xs) then get_or xs j d else get_or ys (j - length xs) d)
  get_or-append [] ys j d = ground arith
  get_or-append (x ∷ xs) ys zero d = ground arith
  get_or-append (x ∷ xs) ys (suc j) d = get_or-append xs ys j d ∙ ground arith

  pub get_or_out : (xs : List A) (j : ℕ) (d : A) → length xs ≤ j → get_or xs j d ≡ d
  get_or_out [] j d h = refl
  get_or_out (x ∷ xs) zero d h = absurd (omega arith)
  get_or_out (x ∷ xs) (suc j) d h = get_or_out xs j d (omega arith)

  pub length-reverse : (xs : List A) → length (reverse xs) ≡ length xs
  length-reverse [] = refl
  length-reverse (x ∷ xs) =
      ap length (reverse-cons x xs)
      ∙ omega (arith, length-append (reverse xs) (x ∷ []), length-reverse xs)

  -- The reads of `reverse xs ++ x ∷ []`, against those of `x ∷ xs`.
  last_read :
      (x : A) (xs : List A) (j : ℕ) (d : A)
      → (if ltb j (length xs)
          then (if ltb j (length xs) then get_or xs (length xs - 1 - j) d else d)
          else get_or (x ∷ []) (j - length xs) d)
        ≡ (if ltb j (suc (length xs)) then get_or (x ∷ xs) (suc (length xs) - 1 - j) d else d)
  last_read x xs j d = elim (dec_lt j (length xs)) [
    | yes p ↦
        let e : suc (length xs) - 1 - j ≡ suc (length xs - 1 - j) = omega arith in
        rw (e, lt→ltb j (length xs) p, lt→ltb j (suc (length xs)) (omega arith))
    | no p ↦ elim (ℕ_discrete j (length xs)) [
      | yes e ↦
          let e' : suc (length xs) - 1 - j ≡ 0 = omega arith in
          let e'' : j - length xs ≡ 0 = omega arith in rw (e', e'') (ground arith)
      | no n ↦ ground (arith, get_or_out (x ∷ []) (j - length xs) d (omega arith))
    ]
  ]

  pub get_or-reverse :
      (xs : List A) (j : ℕ) (d : A)
      → get_or (reverse xs) j d ≡ (if ltb j (length xs) then get_or xs (length xs - 1 - j) d else d)
  get_or-reverse [] j d = ground arith
  get_or-reverse (x ∷ xs) j d =
      ap (λ t. get_or t j d) (reverse-cons x xs)
      ∙ get_or-append (reverse xs) (x ∷ []) j d
      ∙ rw (length-reverse xs, get_or-reverse xs j d) (last_read x xs j d)

  pub get_or_ext :
      (d : A) (xs ys : List A)
      → length xs ≡ length ys
      → ((i : ℕ) → get_or xs i d ≡ get_or ys i d)
      → xs ≡ ys
  get_or_ext d [] [] e h = refl
  get_or_ext d [] (y ∷ ys) e h = absurd (omega arith)
  get_or_ext d (x ∷ xs) [] e h = absurd (omega arith)
  get_or_ext d (x ∷ xs) (y ∷ ys) e h =
      ap₂ ◌∷◌ (h 0) (get_or_ext d xs ys (omega arith) (λ i. h (suc i)))
