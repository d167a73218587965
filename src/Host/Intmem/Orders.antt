-- ===== src/Host/Intmem/Orders.antt =====
-- The byte orders of libkpl/src/intmem.h are the same on every machine.
use mathlib.Core.List.{reverse, reverse-cons, reverse-reverse}
use mathlib.Core.Path.{subst}
use ledger_kee_pass.Base.{
  ℕ, zero, suc, ◌+◌, ◌*◌, ◌/◌, ◌<◌, ◌≡◌, refl, ◌∙◌, sym, ap, ap₂, List, [], ◌∷◌, ◌++◌, arith,
  length, length-reverse, take, take_of_append, u8, AllBytes, AllBytes-append,
}
use ledger_kee_pass.Host.Intmem.{
  Endian, little, big, Width, w8, w16, w32, w64, size_of, le_value, le_bytes, builtin_bswap, bswap,
  loadu, storeu, bswap_le, bswap_be, loadu_le, loadu_be, storeu_le, storeu_be,
}

-- 256 to the number of the bytes
abbrev pub values : ℕ → ℕ
values zero = 1
values (suc n) = 256 * values n

abbrev be_bytes32 : ℕ → List ℕ
be_bytes32 v = u8 (v / 16777216) ∷ u8 (v / 65536) ∷ u8 (v / 256) ∷ u8 v ∷ []

-- The bytes of a number, the highest first, each by its own division.
abbrev pub be_bytes : Width → ℕ → List ℕ
be_bytes w8 v = u8 v ∷ []
be_bytes w16 v = u8 (v / 256) ∷ u8 v ∷ []
be_bytes w32 v = be_bytes32 v
be_bytes w64 v =
    u8 (v / 72057594037927936)
    ∷ u8 (v / 281474976710656)
    ∷ u8 (v / 1099511627776)
    ∷ u8 (v / 4294967296)
    ∷ be_bytes32 v

le_value-le_bytes : (n v : ℕ) → v < values n → le_value (le_bytes n v) ≡ v
le_value-le_bytes zero v h = omega arith
le_value-le_bytes (suc n) v h = omega (arith, le_value-le_bytes n (v / 256) (omega arith))

le_bytes-le_value : (bs : List ℕ) → AllBytes bs → le_bytes (length bs) (le_value bs) ≡ bs
le_bytes-le_value [] h = refl
le_bytes-le_value (b ∷ bs) h =
    ap₂ ◌∷◌ (omega (arith, h.0))
      (ap (λ (t : ℕ). le_bytes (length bs) t) (omega (arith, h.0)) ∙ le_bytes-le_value bs h.1)

length-le_bytes : (n v : ℕ) → length (le_bytes n v) ≡ n
length-le_bytes zero v = refl
length-le_bytes (suc n) v = omega (arith, length-le_bytes n (v / 256))

AllBytes-le_bytes : (n v : ℕ) → AllBytes (le_bytes n v)
AllBytes-le_bytes zero v = tt
AllBytes-le_bytes (suc n) v = (omega arith, AllBytes-le_bytes n (v / 256))

AllBytes-reverse : (bs : List ℕ) → AllBytes bs → AllBytes (reverse bs)
AllBytes-reverse [] h = tt
AllBytes-reverse (b ∷ bs) h =
    rw (reverse-cons b bs)
      (AllBytes-append (reverse bs) (b ∷ []) (AllBytes-reverse bs h.1) (h.0, tt))

-- The compiler's `bswap` exchanges the bytes in memory.
le_bytes-builtin_bswap : (n v : ℕ) → le_bytes n (builtin_bswap n v) ≡ reverse (le_bytes n v)
le_bytes-builtin_bswap n v =
    ap (λ (t : ℕ). le_bytes t (le_value (reverse (le_bytes n v))))
      (omega (arith, length-reverse {0} (le_bytes n v), length-le_bytes n v))
    ∙ le_bytes-le_value (reverse (le_bytes n v))
        (AllBytes-reverse (le_bytes n v) (AllBytes-le_bytes n v))

builtin_bswap-reverse :
    (n v : ℕ) → v < values n → le_value (reverse (le_bytes n (builtin_bswap n v))) ≡ v
builtin_bswap-reverse n v h =
    ap (λ bs. le_value (reverse bs)) (le_bytes-builtin_bswap n v)
    ∙ ap le_value (reverse-reverse (le_bytes n v))
    ∙ le_value-le_bytes n v h

reverse-le_bytes : (w : Width) (v : ℕ) → reverse (le_bytes (size_of w) v) ≡ be_bytes w v
reverse-le_bytes w8 v = refl
reverse-le_bytes w16 v = ground arith
reverse-le_bytes w32 v = ground arith
reverse-le_bytes w64 v = ground arith

-- `storeu_be` writes the bytes of every value of every width, the highest first, on machines of
-- both byte orders.
pub storeu_be-eq-be_bytes : (e : Endian) (w : Width) (v : ℕ) → storeu_be e w v ≡ be_bytes w v
unfolding storeu_be storeu bswap_be bswap
storeu_be-eq-be_bytes little w8 v = refl
storeu_be-eq-be_bytes little w16 v = le_bytes-builtin_bswap 2 v ∙ reverse-le_bytes w16 v
storeu_be-eq-be_bytes little w32 v = le_bytes-builtin_bswap 4 v ∙ reverse-le_bytes w32 v
storeu_be-eq-be_bytes little w64 v = le_bytes-builtin_bswap 8 v ∙ reverse-le_bytes w64 v
storeu_be-eq-be_bytes big w v = reverse-le_bytes w v

taken : (n : ℕ) (bs rest : List ℕ) → length bs ≡ n → take n (bs ++ rest) ≡ bs
taken n bs rest h = take_of_append bs rest h

length-reverse-le_bytes : (n v : ℕ) → length (reverse (le_bytes n v)) ≡ n
length-reverse-le_bytes n v = length-reverse (le_bytes n v) ∙ length-le_bytes n v

le_value-lt : (bs : List ℕ) → AllBytes bs → le_value bs < values (length bs)
le_value-lt [] h = omega arith
le_value-lt (b ∷ bs) h = omega (arith, h.0, le_value-lt bs h.1)

builtin_bswap-lt : (n v : ℕ) → builtin_bswap n v < values n
builtin_bswap-lt n v =
    subst (λ (t : ℕ). le_value (reverse (le_bytes n v)) < values t) (length-reverse-le_bytes n v)
      (le_value-lt (reverse (le_bytes n v))
        (AllBytes-reverse (le_bytes n v) (AllBytes-le_bytes n v)))

loadu-storeu :
    (e : Endian) (w : Width) (v : ℕ) (rest : List ℕ)
    → v < values (size_of w)
    → loadu e w (storeu e w v ++ rest) ≡ v
unfolding loadu storeu
loadu-storeu little w v rest h =
    ap le_value (taken (size_of w) _ rest (length-le_bytes (size_of w) v))
    ∙ le_value-le_bytes (size_of w) v h
loadu-storeu big w v rest h =
    ap (λ bs. le_value (reverse bs))
      (taken (size_of w) _ rest (length-reverse-le_bytes (size_of w) v))
    ∙ ap le_value (reverse-reverse (le_bytes (size_of w) v))
    ∙ le_value-le_bytes (size_of w) v h

bswap-lt : (w : Width) (v : ℕ) → v < values (size_of w) → bswap w v < values (size_of w)
unfolding bswap
bswap-lt w8 v h = h
bswap-lt w16 v h = builtin_bswap-lt 2 v
bswap-lt w32 v h = builtin_bswap-lt 4 v
bswap-lt w64 v h = builtin_bswap-lt 8 v

bswap-bswap : (w : Width) (v : ℕ) → v < values (size_of w) → bswap w (bswap w v) ≡ v
unfolding bswap
bswap-bswap w8 v h = refl
bswap-bswap w16 v h = builtin_bswap-reverse 2 v h
bswap-bswap w32 v h = builtin_bswap-reverse 4 v h
bswap-bswap w64 v h = builtin_bswap-reverse 8 v h

loadu_be-storeu_be_same :
    (e : Endian) (w : Width) (v : ℕ) (rest : List ℕ)
    → v < values (size_of w)
    → loadu_be e w (storeu_be e w v ++ rest) ≡ v
unfolding loadu_be storeu_be bswap_be
loadu_be-storeu_be_same little w v rest h =
    ap (bswap w) (loadu-storeu little w (bswap w v) rest (bswap-lt w v h)) ∙ bswap-bswap w v h
loadu_be-storeu_be_same big w v rest h = loadu-storeu big w v rest h

swapped_twice : (n v : ℕ) → reverse (le_bytes n (builtin_bswap n v)) ≡ le_bytes n v
swapped_twice n v = ap reverse (le_bytes-builtin_bswap n v) ∙ reverse-reverse (le_bytes n v)

storeu_le-eq-le_bytes : (e : Endian) (w : Width) (v : ℕ) → storeu_le e w v ≡ le_bytes (size_of w) v
unfolding storeu_le storeu bswap_le bswap
storeu_le-eq-le_bytes little w v = refl
storeu_le-eq-le_bytes big w8 v = refl
storeu_le-eq-le_bytes big w16 v = swapped_twice 2 v
storeu_le-eq-le_bytes big w32 v = swapped_twice 4 v
storeu_le-eq-le_bytes big w64 v = swapped_twice 8 v

loadu_le-storeu_le_same :
    (e : Endian) (w : Width) (v : ℕ) (rest : List ℕ)
    → v < values (size_of w)
    → loadu_le e w (storeu_le e w v ++ rest) ≡ v
unfolding loadu_le storeu_le bswap_le
loadu_le-storeu_le_same little w v rest h = loadu-storeu little w v rest h
loadu_le-storeu_le_same big w v rest h =
    ap (bswap w) (loadu-storeu big w (bswap w v) rest (bswap-lt w v h)) ∙ bswap-bswap w v h

-- A value of any width that one machine stores by `storeu_be` reads back by `loadu_be` on any
-- machine, and so for `storeu_le` and `loadu_le`.
pub loadu-storeu_between :
    (e e' : Endian) (w : Width) (v : ℕ) (rest : List ℕ)
    → v < values (size_of w)
    → (loadu_be e' w (storeu_be e w v ++ rest) ≡ v) × (loadu_le e' w (storeu_le e w v ++ rest) ≡ v)
loadu-storeu_between e e' w v rest h = (
  ap (λ bs. loadu_be e' w (bs ++ rest))
        (storeu_be-eq-be_bytes e w v ∙ sym (storeu_be-eq-be_bytes e' w v))
      ∙ loadu_be-storeu_be_same e' w v rest h,
  ap (λ bs. loadu_le e' w (bs ++ rest))
        (storeu_le-eq-le_bytes e w v ∙ sym (storeu_le-eq-le_bytes e' w v))
      ∙ loadu_le-storeu_le_same e' w v rest h,
)

-- The two bytes that the transports read as a number.
pub loadu_be-bytes :
    (e : Endian) (a b : ℕ) (rest : List ℕ)
    → a < 256
    → b < 256
    → loadu_be e w16 (a ∷ b ∷ rest) ≡ a * 256 + b
loadu_be-bytes e a b rest ha hb =
    ap (λ bs. loadu_be e w16 (bs ++ rest)) (sym written)
    ∙ loadu_be-storeu_be_same e w16 (a * 256 + b) rest (omega arith)
  where
    written : storeu_be e w16 (a * 256 + b) ≡ a ∷ b ∷ []
    written = storeu_be-eq-be_bytes e w16 (a * 256 + b) ∙ ground arith
