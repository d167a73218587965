-- ===== src/Base/Lists.antt =====
-- Lists measured and indexed by native numbers, under the library's names.
use Prim.Native.Nat.{ℕ, zero, suc, ◌+◌, ◌-◌, ◌≤◌, ◌<◌, min}
use mathlib.Core.Path.{◌≡◌, refl, sym, ap, ap₂, ◌∙◌}
use mathlib.Core.Logic.{◌≢◌}
use mathlib.Core.List.{List, [], ◌∷◌, ◌++◌, append_assoc}
use native.Mathlib.Nat.{add-zero}
use native.Mathlib.Omega.{arith}

module _ {ℓ} {A : Type ℓ} where
  abbrev pub length : List A → ℕ
  length [] = 0
  length (x ∷ xs) = suc (length xs)

  -- A write out of bounds changes nothing.
  abbrev pub set : List A → ℕ → A → List A
  set [] i v = []
  set (x ∷ xs) zero v = v ∷ xs
  set (x ∷ xs) (suc i) v = x ∷ set xs i v

  abbrev pub get_or : List A → ℕ → A → A
  get_or [] i d = d
  get_or (x ∷ xs) zero d = x
  get_or (x ∷ xs) (suc i) d = get_or xs i d

  abbrev pub take : ℕ → List A → List A
  take zero xs = []
  take (suc n) [] = []
  take (suc n) (x ∷ xs) = x ∷ take n xs

  abbrev pub drop : ℕ → List A → List A
  drop zero xs = xs
  drop (suc n) [] = []
  drop (suc n) (x ∷ xs) = drop n xs

  abbrev pub replicate : ℕ → A → List A
  replicate zero a = []
  replicate (suc n) a = a ∷ replicate n a

module _ {ℓ} {A : Type ℓ} where
  pub length-append : (xs ys : List A) → length (xs ++ ys) ≡ length xs + length ys
  length-append [] ys = omega arith
  length-append (x ∷ xs) ys = omega (arith, length-append xs ys)

  pub length-set : (xs : List A) (i : ℕ) (v : A) → length (set xs i v) ≡ length xs
  length-set [] i v = refl
  length-set (x ∷ xs) zero v = refl
  length-set (x ∷ xs) (suc i) v = ap suc (length-set xs i v)

  pub get_or-set_self :
      (xs : List A) (i : ℕ) (v d : A) → i < length xs → get_or (set xs i v) i d ≡ v
  get_or-set_self [] i v d h = absurd (omega arith)
  get_or-set_self (x ∷ xs) zero v d h = refl
  get_or-set_self (x ∷ xs) (suc i) v d h = get_or-set_self xs i v d (omega arith)

  pub get_or-set_ne :
      (xs : List A) (i j : ℕ) (v d : A) → i ≢ j → get_or (set xs i v) j d ≡ get_or xs j d
  get_or-set_ne [] i j v d h = refl
  get_or-set_ne (x ∷ xs) zero zero v d h = absurd (h refl)
  get_or-set_ne (x ∷ xs) zero (suc j) v d h = refl
  get_or-set_ne (x ∷ xs) (suc i) zero v d h = refl
  get_or-set_ne (x ∷ xs) (suc i) (suc j) v d h = get_or-set_ne xs i j v d (λ e. h (ap suc e))

  pub get_or-replicate : (n i : ℕ) (a : A) → get_or (replicate n a) i a ≡ a
  get_or-replicate zero i a = refl
  get_or-replicate (suc n) zero a = refl
  get_or-replicate (suc n) (suc i) a = get_or-replicate n i a

  pub take-append-drop : (n : ℕ) (xs : List A) → take n xs ++ drop n xs ≡ xs
  take-append-drop zero xs = refl
  take-append-drop (suc n) [] = refl
  take-append-drop (suc n) (x ∷ xs) = ap (λ t. x ∷ t) (take-append-drop n xs)

  pub length-take : (n : ℕ) (xs : List A) → length (take n xs) ≡ min n (length xs)
  length-take zero xs = omega arith
  length-take (suc n) [] = omega arith
  length-take (suc n) (x ∷ xs) = omega (arith, length-take n xs)

  pub length-drop : (n : ℕ) (xs : List A) → length (drop n xs) ≡ length xs - n
  length-drop zero xs = omega arith
  length-drop (suc n) [] = omega arith
  length-drop (suc n) (x ∷ xs) = omega (arith, length-drop n xs)

  pub length-replicate : (n : ℕ) (a : A) → length (replicate n a) ≡ n
  length-replicate zero a = refl
  length-replicate (suc n) a = ap suc (length-replicate n a)

  -- The prefix of a list that begins with a list of that length.
  pub take_of_append : (xs ys : List A) {n : ℕ} → length xs ≡ n → take n (xs ++ ys) ≡ xs
  take_of_append [] ys {n = zero} h = refl
  take_of_append [] ys {n = suc n} h = absurd (omega arith)
  take_of_append (x ∷ xs) ys {n = zero} h = absurd (omega arith)
  take_of_append (x ∷ xs) ys {n = suc n} h = ap (λ t. x ∷ t) (take_of_append xs ys (omega arith))

  pub drop_of_append : (xs ys : List A) {n : ℕ} → length xs ≡ n → drop n (xs ++ ys) ≡ ys
  drop_of_append [] ys {n = zero} h = refl
  drop_of_append [] ys {n = suc n} h = absurd (omega arith)
  drop_of_append (x ∷ xs) ys {n = zero} h = absurd (omega arith)
  drop_of_append (x ∷ xs) ys {n = suc n} h = drop_of_append xs ys (omega arith)

  pub take_all : (xs : List A) {n : ℕ} → length xs ≤ n → take n xs ≡ xs
  take_all [] {n = zero} h = refl
  take_all [] {n = suc n} h = refl
  take_all (x ∷ xs) {n = zero} h = absurd (omega arith)
  take_all (x ∷ xs) {n = suc n} h = ap (λ t. x ∷ t) (take_all xs (omega arith))

  pub drop_all : (xs : List A) {n : ℕ} → length xs ≤ n → drop n xs ≡ []
  drop_all [] {n = zero} h = refl
  drop_all [] {n = suc n} h = refl
  drop_all (x ∷ xs) {n = zero} h = absurd (omega arith)
  drop_all (x ∷ xs) {n = suc n} h = drop_all xs (omega arith)

  -- `memcpy` into an array: the bytes from `off` on are replaced. What would fall behind the end
  -- is not written; the callers prove that nothing does.
  abbrev pub blit : List A → ℕ → List A → List A
  blit buf off [] = buf
  blit buf off (x ∷ xs) = blit (set buf off x) (suc off) xs

  pub length-blit : (xs buf : List A) (off : ℕ) → length (blit buf off xs) ≡ length buf
  length-blit [] buf off = refl
  length-blit (x ∷ xs) buf off = length-blit xs (set buf off x) (suc off) ∙ length-set buf off x

  drop-set :
      (buf : List A) (off : ℕ) (x : A) (n : ℕ) → off < n → drop n (set buf off x) ≡ drop n buf
  drop-set [] off x n h = refl
  drop-set (y ∷ buf) off x zero h = absurd (omega arith)
  drop-set (y ∷ buf) zero x (suc n) h = refl
  drop-set (y ∷ buf) (suc off) x (suc n) h = drop-set buf off x n (omega arith)

  take-set_next :
      (buf : List A) (off : ℕ) (x : A)
      → off < length buf
      → take (suc off) (set buf off x) ≡ take off buf ++ x ∷ []
  take-set_next [] off x h = absurd (omega arith)
  take-set_next (y ∷ buf) zero x h = refl
  take-set_next (y ∷ buf) (suc off) x h = ap (λ t. y ∷ t) (take-set_next buf off x (omega arith))

  -- What a copy into an array leaves: the part before, the bytes copied, the part behind.
  pub blit_parts :
      (xs buf : List A) (off : ℕ)
      → off + length xs ≤ length buf
      → blit buf off xs ≡ take off buf ++ (xs ++ drop (off + length xs) buf)
  blit_parts [] buf off h = rw add-zero (sym (take-append-drop off buf))
  blit_parts (x ∷ xs) buf off h =
      blit_parts xs (set buf off x) (suc off) (omega (arith, length-set buf off x))
      ∙ ap₂ ◌++◌ (take-set_next buf off x (omega arith))
          (ap (λ t. xs ++ t) (drop-set buf off x _ (omega arith)))
      ∙ append_assoc (take off buf) (x ∷ []) _
      ∙ ap (λ (t : ℕ). take off buf ++ (x ∷ (xs ++ drop t buf))) (omega arith)

  -- What was copied to the front reads back.
  pub take-blit_front :
      (xs buf : List A) {n : ℕ} → length xs ≡ n → n ≤ length buf → take n (blit buf 0 xs) ≡ xs
  take-blit_front xs buf e h = rw (blit_parts xs buf 0 (omega arith)) (take_of_append xs _ e)

  pub drop_behind :
      (xs ys : List A) (k : ℕ) {n : ℕ} → length xs + k ≡ n → drop n (xs ++ ys) ≡ drop k ys
  drop_behind [] ys k {n} h = ap (λ (t : ℕ). drop t ys) (omega arith)
  drop_behind (x ∷ xs) ys k {n = zero} h = absurd (omega arith)
  drop_behind (x ∷ xs) ys k {n = suc n} h = drop_behind xs ys k (omega arith)
