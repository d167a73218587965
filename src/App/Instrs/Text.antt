-- ===== src/App/Instrs/Text.antt =====
-- The texts that the handlers of app/src/instrs.c copy to the screen's lines, as bytes.
use Prim.Native.Char.{code}
use Prim.Native.String.{String}
use ledger_kee_pass.Base.{ℕ, List, [], ◌∷◌, ◌++◌}

-- The bytes of an ASCII text.
abbrev pub codes : String → List ℕ
codes String.[] = []
codes (String.◌∷◌ c s) = code c ∷ codes s

-- A C string literal, with its terminator.
abbrev pub c_string : String → List ℕ
c_string s = codes s ++ 0 ∷ []

-- `SEED_PREFIX`, whose length is 7
abbrev pub seed_prefix : List ℕ
seed_prefix = c_string "dbname"
