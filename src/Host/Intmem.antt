-- ===== src/Host/Intmem.antt =====
-- libkpl/src/intmem.h: integers in memory, in either byte order, on a machine of either byte order.
-- A value of an integer type stands as its bit pattern, so a signed type is the unsigned one.
pub mod Orders
use mathlib.Core.List.{reverse}
use ledger_kee_pass.Base.{ℕ, zero, suc, ◌+◌, ◌*◌, ◌/◌, ◌%◌, List, [], ◌∷◌, take}

-- `__BYTE_ORDER__`
pub data Endian : Type 0 where
  little big : Endian

-- The integer types that `bswap` takes.
pub data Width : Type 0 where
  w8 w16 w32 w64 : Width

-- `sizeof`
abbrev pub size_of : Width → ℕ
size_of w8 = 1
size_of w16 = 2
size_of w32 = 4
size_of w64 = 8

-- The number that bytes are, the lowest first.
abbrev pub le_value : List ℕ → ℕ
le_value [] = 0
le_value (b ∷ bs) = b + 256 * le_value bs

-- The bytes of a number, the lowest first.
abbrev pub le_bytes : ℕ → ℕ → List ℕ
le_bytes zero v = []
le_bytes (suc n) v = (v % 256) ∷ le_bytes n (v / 256)

-- `__builtin_bswap16` and its like: the bytes in the other order.
abbrev pub builtin_bswap : ℕ → ℕ → ℕ
builtin_bswap n v = le_value (reverse (le_bytes n v))

-- `bswap`
unfoldable pub bswap : Width → ℕ → ℕ
bswap w8 v = v
bswap w16 v = builtin_bswap 2 v
bswap w32 v = builtin_bswap 4 v
bswap w64 v = builtin_bswap 8 v

-- `loadu`: `memcpy` into an object of the machine
unfoldable pub loadu : Endian → Width → List ℕ → ℕ
loadu little w ptr = le_value (take (size_of w) ptr)
loadu big w ptr = le_value (reverse (take (size_of w) ptr))

-- `storeu`: the bytes of an object of the machine
unfoldable pub storeu : Endian → Width → ℕ → List ℕ
storeu little w v = le_bytes (size_of w) v
storeu big w v = reverse (le_bytes (size_of w) v)

-- `bswap_le`, which is also `load_le` and `store_le` of an object
unfoldable pub bswap_le : Endian → Width → ℕ → ℕ
bswap_le little w v = v
bswap_le big w v = bswap w v

-- `bswap_be`, which is also `load_be` and `store_be` of an object
unfoldable pub bswap_be : Endian → Width → ℕ → ℕ
bswap_be little w v = bswap w v
bswap_be big w v = v

unfoldable pub loadu_le : Endian → Width → List ℕ → ℕ
unfolding bswap_le loadu
loadu_le e w ptr = bswap_le e w (loadu e w ptr)

unfoldable pub loadu_be : Endian → Width → List ℕ → ℕ
unfolding bswap_be loadu
loadu_be e w ptr = bswap_be e w (loadu e w ptr)

unfoldable pub storeu_le : Endian → Width → ℕ → List ℕ
unfolding storeu bswap_le
storeu_le e w v = storeu e w (bswap_le e w v)

unfoldable pub storeu_be : Endian → Width → ℕ → List ℕ
unfolding storeu bswap_be
storeu_be e w v = storeu e w (bswap_be e w v)
