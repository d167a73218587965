-- ===== src/App/Storage/Slots.antt =====
-- What `storeKeySlot` and `nv_app_state_init` do to the map from slots to keys, also when the
-- power fails between two writes.
use ledger_kee_pass.Base.{
  ℕ, zero, suc, ◌/◌, ◌^◌, ◌<◌, ◌≤◌, ◌≡◌, refl, ◌∙◌, ap, sym, Bool, true, false, some, none, List,
  arith, ltb, ltb→lt, ◌==◌, if◌then◌else◌, length, take, length-take, Bool-cases, ==_iff, ◌⊎◌, inl,
  inr,
}
use ledger_kee_pass.App.Consts.{key_size, slot_count}
use ledger_kee_pass.App.Storage.{
  Storage, StoredKey, key_at, is_key_valid, set_key_as_valid, write_key, store_key_slot,
  store_key_slot_writes, run_writes, nv_app_state_init,
}
use ledger_kee_pass.App.Storage.View.{
  IsValid, view, is_key_valid-set_key_as_valid, key_at-write_key, write_key-IsValid,
  set_key_as_valid-IsValid,
}

if_same {ℓ} : {A : Type ℓ} (b : Bool) (x : A) → (if b then x else x) ≡ x
if_same true x = refl
if_same false x = refl

module _ (s : ℕ) (from : List ℕ) (st : Storage) (v : IsValid st) (in_range : s < slot_count)
    (size : key_size ≤ length from) where
  abbrev the_key : StoredKey
  the_key = record { bytes = take key_size from }

  length-the_key : length the_key.bytes ≡ key_size
  length-the_key = omega (arith, length-take {0} key_size from)

  after_key-IsValid : IsValid (write_key s the_key st)
  after_key-IsValid = write_key-IsValid s st (take key_size from) v in_range length-the_key

  is_key_valid-write_key : (j : ℕ) → is_key_valid (write_key s the_key st) j ≡ is_key_valid st j
  unfolding is_key_valid write_key
  is_key_valid-write_key j = refl

  -- After the first write the slot shows the new key if it was valid, else nothing has changed.
  view-write_key :
      (j : ℕ)
      → view (write_key s the_key st) j ≡ (
          if s == j
          then (if is_key_valid st s then some the_key.bytes else view st j)
          else view st j)
  unfolding view
  view-write_key j =
      let key = key_at-write_key s j st (take key_size from) v in_range in
      ground (arith, key, is_key_valid-write_key j)

  -- On a valid storage, with a slot in range and at least 32 bytes, `storeKeySlot` makes its slot
  -- show the first 32 of them, and every other slot shows what it showed.
  pub view-store_key_slot :
      (j : ℕ)
      → view (store_key_slot s from st) j
        ≡ (if s == j then some (take key_size from) else view st j)
  unfolding store_key_slot
  view-store_key_slot j = elim (Bool-cases (ltb j slot_count)) [
    | inl lt ↦ unfold view in ground (arith, key, bit (ltb→lt j _ lt))
    | inr ge ↦ unfold view in ground arith
  ]
    where
      stored : Storage
      stored = set_key_as_valid s (write_key s the_key st)

      key : (key_at stored j).bytes ≡ (if s == j then take key_size from else (key_at st j).bytes)
      key = unfold set_key_as_valid in key_at-write_key s j st (take key_size from) v in_range

      bit : j < slot_count → is_key_valid stored j ≡ (if s == j then true else is_key_valid st j)
      bit lt =
          is_key_valid-set_key_as_valid s j (write_key s the_key st) after_key-IsValid in_range lt
          ∙ ap (λ (b : Bool). if s == j then true else b) (is_key_valid-write_key j)

  pub store_key_slot-IsValid : IsValid (store_key_slot s from st)
  unfolding store_key_slot
  store_key_slot-IsValid = set_key_as_valid-IsValid s (write_key s the_key st) after_key-IsValid

  -- If the power fails before, between or after the two writes of `storeKeySlot`, on a valid
  -- storage with a slot in range and at least 32 bytes, every slot shows what it showed before
  -- the call or every slot shows what it shows after it.
  pub store_key_slot_power_cut :
      (n : ℕ)
      → ((j : ℕ) → view (run_writes (take n (store_key_slot_writes s from)) st) j ≡ view st j)
        ⊎ ((j : ℕ)
            → view (run_writes (take n (store_key_slot_writes s from)) st) j
              ≡ view (store_key_slot s from st) j)
  store_key_slot_power_cut zero = inl (λ j. refl)
  store_key_slot_power_cut (suc zero) = elim (Bool-cases (is_key_valid st s)) [
    | inl valid ↦ inr (λ j.
        unfold store_key_slot_writes in view-write_key j ∙ rw valid (sym (view-store_key_slot j)))
    | inr clear ↦ inl (λ j.
        unfold store_key_slot_writes in view-write_key j ∙ rw clear (if_same (s == j) (view st j)))
  ]
  store_key_slot_power_cut (suc (suc zero)) =
      inr (λ j. unfold store_key_slot_writes store_key_slot in refl)
  store_key_slot_power_cut (suc (suc (suc n))) =
      inr (λ j. unfold store_key_slot_writes store_key_slot in refl)

-- A forced initialisation empties every slot.
pub view-nv_app_state_init_forced :
    (st : Storage) (j : ℕ) → view (nv_app_state_init true st) j ≡ none
unfolding view nv_app_state_init is_key_valid
view-nv_app_state_init_forced st j =
    let e : 0 / 2 ^ j ≡ 0 = omega arith in
    elim (Bool-cases (ltb j slot_count)) [ inl lt ↦ rw (lt, e) | inr ge ↦ rw ge ]

-- An initialisation that is not forced changes nothing behind another initialisation, forced or
-- not: a restart keeps the keys.
pub nv_app_state_init_keeps :
    (force : Bool) (st : Storage)
    → nv_app_state_init false (nv_app_state_init force st) ≡ nv_app_state_init force st
unfolding nv_app_state_init
nv_app_state_init_keeps force st = ground arith

-- Storing a key clears no valid bit.
pub is_key_valid-store_key_slot :
    (s j : ℕ) (from : List ℕ) (st : Storage)
    → IsValid st
    → s < slot_count
    → key_size ≤ length from
    → j < slot_count
    → is_key_valid (store_key_slot s from st) j ≡ (if s == j then true else is_key_valid st j)
unfolding store_key_slot
is_key_valid-store_key_slot s j from st v h size hj =
    is_key_valid-set_key_as_valid s j _ (after_key-IsValid s from st v h size) h hj
    ∙ ap (λ (b : Bool). if s == j then true else b) (is_key_valid-write_key s from st v h size j)

view_empty : (st : Storage) (s : ℕ) → is_key_valid st s ≡ false → view st s ≡ none
unfolding view
view_empty st s h = ground arith

-- A slot with a key keeps it when a key is stored into an empty slot.
pub view-store_key_slot_other :
    (s j : ℕ) (from : List ℕ) (st : Storage) {k : List ℕ}
    → IsValid st
    → s < slot_count
    → key_size ≤ length from
    → is_key_valid st s ≡ false
    → view st j ≡ some k
    → view (store_key_slot s from st) j ≡ some k
view-store_key_slot_other s j from st {k} v h size empty held = elim (Bool-cases (s == j)) [
  | inl e ↦ cc (view_empty st s empty, ap (view st) ((==_iff s j).0 e), held)
  | inr e ↦ view-store_key_slot s from st v h size j ∙ rw e held
]
