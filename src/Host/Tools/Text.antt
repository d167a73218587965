-- ===== src/Host/Tools/Text.antt =====
-- The texts that the command line tools of libkpl/tools read and print.
use ledger_kee_pass.Base.{
  ℕ, ◌+◌, ◌-◌, ◌*◌, ◌/◌, ◌%◌, Bool, ◌&&◌, ◌||◌, List, [], ◌∷◌, ◌++◌, leb, ltb, ℤ, pos, negsuc,
  if◌then◌else◌,
}
use ledger_kee_pass.App.Instrs.{codes}
use ledger_kee_pass.Host.Result.{Result}
use ledger_kee_pass.Host.Messages.{result_code, error_str}
use ledger_kee_pass.Host.Devices.{to_string}

-- `tolower`
abbrev pub to_lower : ℕ → ℕ
to_lower c = if leb b'A' c && leb c b'Z' then c + 32 else c

abbrev pub is_hex : ℕ → Bool
is_hex c = leb b'0' c && leb c b'9' || leb b'a' c && leb c b'f'

abbrev pub digit_value : ℕ → ℕ
digit_value c = if leb c b'9' then c - b'0' else c - 87

-- `sscanf(Buf, "%02x", &v)` of two characters. `junk` is what `v` holds behind it when they are not
-- two digits: then `v` need not be written.
unfoldable pub scan_hex : (ℕ → ℕ → ℕ) → ℕ → ℕ → ℕ
scan_hex junk a b = if is_hex a && is_hex b then digit_value a * 16 + digit_value b else junk a b

-- `fromHex` of tools/set.cpp
unfoldable pub from_hex : (ℕ → ℕ → ℕ) → List ℕ → List ℕ
unfolding scan_hex
from_hex junk [] = []
from_hex junk (a ∷ []) = []
from_hex junk (a ∷ b ∷ hex) = (scan_hex junk (to_lower a) (to_lower b) % 256) ∷ from_hex junk hex

-- A digit of "%02X"
abbrev pub upper_digit : ℕ → ℕ
upper_digit v = if ltb v 10 then b'0' + v else 55 + v

-- The loop of `printf("%02X", V)`
unfoldable pub print_hex : List ℕ → List ℕ
print_hex [] = []
print_hex (v ∷ key) = upper_digit (v / 16) ∷ upper_digit (v % 16) ∷ print_hex key

-- "%d" of an `int`
abbrev pub print_int : ℤ → List ℕ
print_int (pos n) = to_string 10 n
print_int (negsuc n) = b'-' ∷ to_string 10 (n + 1)

-- `uint8_t` of an `int`
abbrev pub as_byte : ℤ → ℕ
as_byte (pos n) = n % 256
as_byte (negsuc n) = 255 - n % 256

-- The loop of `printf("%d ", S)`
unfoldable pub print_slots : List ℕ → List ℕ
print_slots [] = []
print_slots (s ∷ slots) = to_string 3 s ++ (codes " " ++ print_slots slots)

abbrev pub new_line : List ℕ
new_line = 10 ∷ []

-- `what (code): text`
abbrev pub complaint : List ℕ → Result → List ℕ → List ℕ
complaint what res end =
    what
    ++ (codes " ("
        ++ (print_int (result_code res)
            ++ (codes "): " ++ (codes (error_str (result_code res)) ++ (end ++ new_line)))))
