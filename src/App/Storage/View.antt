-- ===== src/App/Storage/View.antt =====
-- The storage as a map from slots to keys, and each operation of app/src/globals.h,
-- `storeKeySlot` and `nv_app_state_init` on that map.
use ledger_kee_pass.Base.{
  ℕ, ◌*◌, ◌/◌, ◌^◌, ◌<◌, ◌≡◌, refl, ◌∙◌, ap, bit_and, bit_or, Bool, true, false, ◌&&◌, Option, some,
  none, List, arith, ltb, ◌==◌, if◌then◌else◌, u8, length, length-set, replicate, get_or,
  get_or-set_self, get_or-set_ne, get_or-replicate, holds_below, holds_below_at, Bool-cases, inl,
  inr, ==_iff,
}
use ledger_kee_pass.App.Consts.{key_size, slot_count}
use ledger_kee_pass.App.Storage.{
  Storage, key_at, zero_key, is_key_valid, set_key_as_valid, write_key, nv_app_state_init, erased,
}

pub record IsValid (st : Storage) : Type 0 where
  pub slots : length st.keys ≡ slot_count
  pub valids_byte : st.key_valids < 256
  pub is_initialized : st.initialized ≡ 1
  pub key_sizes : (j : ℕ) → length (key_at st j).bytes ≡ key_size

-- The key that a slot holds for the user: none unless its bit is set.
unfoldable pub view : Storage → ℕ → Option (List ℕ)
view st j = if ltb j slot_count && is_key_valid st j then some (key_at st j).bytes else none

abbrev bit_at : ℕ → ℕ → Bool
bit_at v j = ltb 0 (bit_and (v / 2 ^ j) 1)

abbrev pub same : Bool → Bool → Bool
same true b = b
same false true = false
same false false = true

pub same→eq : (a b : Bool) → same a b ≡ true → a ≡ b
same→eq true true h = refl
same→eq true false h = cc
same→eq false true h = cc
same→eq false false h = refl

abbrev set_bit_row : ℕ → ℕ → ℕ → Bool
set_bit_row s j v =
    same (bit_at (u8 (bit_or v (1 * 2 ^ s))) j) (if s == j then true else bit_at v j)

abbrev set_bit_rows : ℕ → ℕ → Bool
set_bit_rows s j = holds_below (set_bit_row s j) 256

abbrev set_bit_column : ℕ → Bool
set_bit_column s = holds_below (set_bit_rows s) 8

set_bit_table : holds_below set_bit_column 8 ≡ true
unfolding holds_below
set_bit_table = refl

set_bit :
    (s j v : ℕ)
    → s < 8
    → j < 8
    → v < 256
    → bit_at (u8 (bit_or v (1 * 2 ^ s))) j ≡ (if s == j then true else bit_at v j)
set_bit s j v hs hj hv =
    let column = holds_below_at set_bit_column 8 s hs set_bit_table in
    let row = holds_below_at (set_bit_rows s) 8 j hj column in
    same→eq _ _ (holds_below_at (set_bit_row s j) 256 v hv row)

-- On a valid storage `set_key_as_valid` sets the bit of its slot and keeps the bits of the other
-- slots in range.
pub is_key_valid-set_key_as_valid :
    (s j : ℕ) (st : Storage)
    → IsValid st
    → s < slot_count
    → j < slot_count
    → is_key_valid (set_key_as_valid s st) j ≡ (if s == j then true else is_key_valid st j)
unfolding is_key_valid set_key_as_valid
is_key_valid-set_key_as_valid s j st v hs hj = set_bit s j st.key_valids hs hj v.valids_byte

pub key_at-write_key :
    (s j : ℕ) (st : Storage) (k : List ℕ)
    → IsValid st
    → s < slot_count
    → (key_at (write_key s (record { bytes = k }) st) j).bytes
      ≡ (if s == j then k else (key_at st j).bytes)
unfolding write_key
key_at-write_key s j st k v hs = elim (Bool-cases (s == j)) [
  | inl e ↦
      rw (e, ← (==_iff s j).0 e)
        (ap (λ r. r.bytes)
          (get_or-set_self st.keys s (record { bytes = k }) zero_key (omega (arith, v.slots))))
  | inr e ↦
      rw e (
        ap (λ r. r.bytes)
          (get_or-set_ne st.keys s j (record { bytes = k }) zero_key (ground arith)))
]

pub write_key-IsValid :
    (s : ℕ) (st : Storage) (k : List ℕ)
    → IsValid st
    → s < slot_count
    → length k ≡ key_size
    → IsValid (write_key s (record { bytes = k }) st)
write_key-IsValid s st k v hs size = record {
  slots = unfold write_key in length-set st.keys s (record { bytes = k }) ∙ v.slots;
  valids_byte = unfold write_key in v.valids_byte;
  is_initialized = unfold write_key in v.is_initialized;
  key_sizes = λ j. ground (arith, key_at-write_key s j st k v hs, v.key_sizes j);
}

pub set_key_as_valid-IsValid : (s : ℕ) (st : Storage) → IsValid st → IsValid (set_key_as_valid s st)
unfolding set_key_as_valid
set_key_as_valid-IsValid s st v = record {
  slots = v.slots;
  valids_byte = omega arith;
  is_initialized = v.is_initialized;
  key_sizes = v.key_sizes;
}

length-zero_key : (n j : ℕ) → length (get_or (replicate n zero_key) j zero_key).bytes ≡ key_size
length-zero_key n j = rw get_or-replicate

pub erased-IsValid : IsValid erased
erased-IsValid = record {
  slots = refl;
  valids_byte = omega arith;
  is_initialized = refl;
  key_sizes = length-zero_key slot_count;
}

-- Erased or not, the storage is valid once it has been initialised.
pub nv_app_state_init-IsValid :
    (force : Bool) (st : Storage) → IsValid st → IsValid (nv_app_state_init force st)
unfolding nv_app_state_init
nv_app_state_init-IsValid true st v = erased-IsValid
nv_app_state_init-IsValid false st v = simp v.is_initialized v

-- A slot that shows a key is in range and valid, and that is the stored key.
pub view-eq-some :
    (st : Storage) (j : ℕ) {k : List ℕ}
    → view st j ≡ some k
    → (j < slot_count) × (is_key_valid st j ≡ true) × ((key_at st j).bytes ≡ k)
unfolding view
view-eq-some st j h = ground arith

pub view-eq-none :
    (st : Storage) (j : ℕ) → j < slot_count → view st j ≡ none → is_key_valid st j ≡ false
unfolding view
view-eq-none st j lt h = ground arith
