-- ===== src/App/Device/Outcomes.antt =====
-- A rule for each way that a handler of app/src/instrs.c goes on: how it ends is described by a
-- postcondition without faults, and a copy by what the array then holds.
use ledger_kee_pass.Base.{
  ℕ, ◌+◌, ◌≡◌, ◌≤◌, refl, Bool, true, false, some, List, ◌++◌, if◌then◌else◌, arith, le→leb, length,
  blit, blit_parts, length-blit, take, drop, take_of_append, drop_of_append, length-take,
  length-append, drop_behind, append_assoc, append-nil, drop_all, ap, ap₂, sym,
}
use mathlib.Core.Path.{◌∙◌}
use ledger_kee_pass.App.Device.{Device, Outcome, returns, throws, fault, copy, ◌>>=◌}

-- A call ends with no fault, and its status, `*tx` and state satisfy `P`.
abbrev pub Ends : (ℕ → ℕ → Device → Type 0) → Outcome → Type 0
Ends P (returns sw tx d) = P sw tx d
Ends P (throws e tx d) = P e tx d
Ends P fault = ⊥

-- What an array holds after a copy that fits.
abbrev pub copied : List ℕ → ℕ → List ℕ → List ℕ
copied array off bytes = take off array ++ (bytes ++ drop (off + length bytes) array)

pub copy_fits :
    (array : List ℕ) (off : ℕ) (bytes : List ℕ)
    → off + length bytes ≤ length array
    → copy array off bytes ≡ some (copied array off bytes)
copy_fits array off bytes h = rw (le→leb _ _ h, blit_parts bytes array off h)

pub Ends-copy :
    (P : ℕ → ℕ → Device → Type 0) (array : List ℕ) (off : ℕ) (bytes : List ℕ) (k : List ℕ → Outcome)
    → off + length bytes ≤ length array
    → ((array' : List ℕ)
        → array' ≡ copied array off bytes
        → length array' ≡ length array
        → Ends P (k array'))
    → Ends P (copy array off bytes >>= k)
Ends-copy P array off bytes k h rest =
    rw (le→leb _ _ h)
      (rest (blit array off bytes) (blit_parts bytes array off h) (length-blit bytes array off))

pub Ends-if :
    (P : ℕ → ℕ → Device → Type 0) (b : Bool) (x y : Outcome)
    → (b ≡ true → Ends P x)
    → (b ≡ false → Ends P y)
    → Ends P (if b then x else y)
Ends-if P true x y t f = t refl
Ends-if P false x y t f = f refl

-- A postcondition may be weakened.
pub Ends-map :
    (P Q : ℕ → ℕ → Device → Type 0) (o : Outcome)
    → ((sw tx : ℕ) (d : Device) → P sw tx d → Q sw tx d)
    → Ends P o
    → Ends Q o
Ends-map P Q (returns sw tx d) f h = f sw tx d h
Ends-map P Q (throws e tx d) f h = f e tx d h
Ends-map P Q fault f h = h

-- A copy right behind a known beginning of the array makes that beginning longer.
pub copied_behind :
    (xs ys bytes : List ℕ) {off : ℕ}
    → length xs ≡ off
    → copied (xs ++ ys) off bytes ≡ (xs ++ bytes) ++ drop (length bytes) ys
copied_behind xs ys bytes {off} e =
    ap₂ ◌++◌ (take_of_append xs ys e)
      (ap (λ t. bytes ++ t) (drop_behind xs ys (length bytes) (omega arith)))
    ∙ sym (append_assoc xs bytes _)

-- A copy that fills its array leaves nothing of it.
pub copied_whole :
    (array bytes : List ℕ) → length bytes ≡ length array → copied array 0 bytes ≡ bytes
copied_whole array bytes h =
    ap (λ t. bytes ++ t) (drop_all array {n = 0 + length bytes} (omega arith)) ∙ append-nil bytes

-- A call returns, with no exception and no fault.
abbrev pub Returns : (ℕ → ℕ → Device → Type 0) → Outcome → Type 0
Returns P (returns sw tx d) = P sw tx d
Returns P (throws e tx d) = ⊥
Returns P fault = ⊥

pub Returns→Ends : (P : ℕ → ℕ → Device → Type 0) (o : Outcome) → Returns P o → Ends P o
Returns→Ends P (returns sw tx d) h = h
Returns→Ends P (throws e tx d) h = absurd h
Returns→Ends P fault h = h

pub Returns-copy :
    (P : ℕ → ℕ → Device → Type 0) (array : List ℕ) (off : ℕ) (bytes : List ℕ) (k : List ℕ → Outcome)
    → off + length bytes ≤ length array
    → ((array' : List ℕ)
        → array' ≡ copied array off bytes
        → length array' ≡ length array
        → Returns P (k array'))
    → Returns P (copy array off bytes >>= k)
Returns-copy P array off bytes k h rest =
    rw (le→leb _ _ h)
      (rest (blit array off bytes) (blit_parts bytes array off h) (length-blit bytes array off))

pub Returns-if :
    (P : ℕ → ℕ → Device → Type 0) (b : Bool) (x y : Outcome)
    → (b ≡ true → Returns P x)
    → (b ≡ false → Returns P y)
    → Returns P (if b then x else y)
Returns-if P true x y t f = t refl
Returns-if P false x y t f = f refl

module _ (array bytes : List ℕ) (off : ℕ) (h : off + length bytes ≤ length array) where
  front : length (take off array) ≡ off
  front = omega (arith, length-take {0} off array)

  -- The array up to the end of a copy that fits.
  pub copied_prefix :
      {n : ℕ} → off + length bytes ≡ n → take n (copied array off bytes) ≡ take off array ++ bytes
  copied_prefix {n} e =
      ap (λ t. take n t) (sym (append_assoc (take off array) bytes _))
      ∙ take_of_append (take off array ++ bytes) _
          (omega (arith, length-append {0} (take off array) bytes, front))

  -- A copy that fits reads back.
  pub copied_read : drop off (take (off + length bytes) (copied array off bytes)) ≡ bytes
  copied_read =
      ap (λ t. drop off t) (copied_prefix refl) ∙ drop_of_append (take off array) bytes front

  pub copied_read_at :
      {n : ℕ} → length bytes ≡ n → take n (drop off (copied array off bytes)) ≡ bytes
  copied_read_at {n} e =
      ap (λ t. take n t) (drop_of_append (take off array) _ front) ∙ take_of_append bytes _ e

pub Returns-map :
    (P Q : ℕ → ℕ → Device → Type 0) (o : Outcome)
    → ((sw tx : ℕ) (d : Device) → P sw tx d → Q sw tx d)
    → Returns P o
    → Returns Q o
Returns-map P Q (returns sw tx d) f h = f sw tx d h
Returns-map P Q (throws e tx d) f h = h
Returns-map P Q fault f h = h

pub length-copied :
    (array : List ℕ) (off : ℕ) (bytes : List ℕ)
    → off + length bytes ≤ length array
    → length (copied array off bytes) ≡ length array
length-copied array off bytes h =
    ap length (sym (blit_parts bytes array off h)) ∙ length-blit bytes array off

-- What two postconditions say of one call.
pub Returns-both :
    (P Q : ℕ → ℕ → Device → Type 0) (o : Outcome)
    → Returns P o
    → Returns Q o
    → Returns (λ sw tx d. P sw tx d × Q sw tx d) o
Returns-both P Q (returns sw tx d) p q = (p, q)
Returns-both P Q (throws e tx d) p q = absurd p
Returns-both P Q fault p q = absurd p
