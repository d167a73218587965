-- ===== src/Host/CApi/Names.antt =====
-- What `KPLLedgerDeviceName` (libkpl/src/c_api/ledger_device_c.cpp) leaves in the caller's array.
use ledger_kee_pass.Base.{
  ℕ, ◌+◌, ◌-◌, ◌≡◌, refl, ◌∙◌, ap, some, none, List, [], ◌∷◌, ◌++◌, arith, ltb, pos, false, length,
  length-append, blit, blit_parts, replicate, take_of_append, drop_of_append,
}
use ledger_kee_pass.Host.Messages.{result_code}
use ledger_kee_pass.Host.CApi.{strncpy, kpl_ledger_device_name}

copied-length :
    (cxx_name name : List ℕ) (last : ℕ)
    → length name ≡ length cxx_name
    → strncpy (name ++ last ∷ []) cxx_name (length cxx_name + 1 - 1) ≡ cxx_name ++ last ∷ []
copied-length cxx_name name last size =
    ap (λ (t : ℕ). strncpy (name ++ last ∷ []) cxx_name t) (omega arith)
    ∙ ap (blit (name ++ last ∷ []) 0) (take_of_append cxx_name (replicate (length cxx_name) 0) refl)
    ∙ blit_parts cxx_name (name ++ last ∷ []) 0
        (omega (arith, size, length-append {0} name (last ∷ [])))
    ∙ ap (λ t. cxx_name ++ t) (drop_of_append name (last ∷ []) (omega (arith, size)))

-- If an array has one byte more than a device's name, as the function asks for when it is called
-- without an array, then the function succeeds on it and writes the name, but the byte behind the
-- name stays what it was: the name is terminated only if the caller had a zero byte there.
pub kpl_ledger_device_name-unterminated :
    (cxx_name name : List ℕ) (last n : ℕ)
    → length name ≡ length cxx_name
    → let asked = (kpl_ledger_device_name none (some n) (some cxx_name)).1.1 in
      (asked ≡ some (length cxx_name + 1))
      × (kpl_ledger_device_name (some (name ++ last ∷ [])) asked (some cxx_name)
          ≡ (pos 0, (some (cxx_name ++ last ∷ []), some (length cxx_name + 1))))
unfolding kpl_ledger_device_name result_code
kpl_ledger_device_name-unterminated cxx_name name last n size =
    let some_room : ltb (length cxx_name + 1) 1 ≡ false = ground arith in
    (refl, simp (some_room, copied-length cxx_name name last size) refl)
