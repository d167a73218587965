-- ===== src/App/Curve/Reverse.antt =====
-- The in-place loop of `reverse_bytes` reverses the bytes between its two pointers.
use mathlib.Core.List.{reverse}
use ledger_kee_pass.Base.{
  ℕ, zero, suc, ◌+◌, ◌-◌, ◌≤◌, ◌<◌, ◌≡◌, refl, ◌∙◌, ap, sym, ◌&&◌, List, ◌++◌, arith, if◌then◌else◌,
  ◌==◌, ltb, leb, length, set, get_or, length-set, get_or-set_self, get_or-set_ne, length-append,
  get_or-append, get_or-reverse, get_or_out, get_or_ext, length-reverse, lt→ltb, Bool-cases, inl,
  inr, ==_iff,
}
use native.Mathlib.Decide.{dec_lt}
use ledger_kee_pass.App.Curve.{reverse_loop, reverse_bytes}

-- Where byte `j` comes from when the bytes from `first` up to `last` are reversed.
abbrev pub mirror : ℕ → ℕ → ℕ → ℕ
mirror first last j = if leb first j && ltb j last then first + last - 1 - j else j

get_or-set :
    (buf : List ℕ) (i j v : ℕ)
    → i < length buf
    → get_or (set buf i v) j 0 ≡ (if i == j then v else get_or buf j 0)
get_or-set buf i j v h = elim (Bool-cases (i == j)) [
  | inl e ↦ rw (e, ← (==_iff i j).0 e) (get_or-set_self buf i v 0 h)
  | inr e ↦ rw e (get_or-set_ne buf i j v 0 (ground arith))
]

-- One swap, read at `j`.
get_or-swap :
    (buf : List ℕ) (first last j : ℕ)
    → first < length buf
    → last < length buf
    → get_or (set (set buf last (get_or buf first 0)) first (get_or buf last 0)) j 0 ≡ (
        if first == j
        then get_or buf last 0
        else (if last == j then get_or buf first 0 else get_or buf j 0))
get_or-swap buf first last j p q =
    get_or-set (set buf last (get_or buf first 0)) first j (get_or buf last 0)
      (omega (arith, length-set buf last (get_or buf first 0)))
    ∙ ap (λ t. if first == j then get_or buf last 0 else t)
        (get_or-set buf last j (get_or buf first 0) q)

length-swap :
    (buf : List ℕ) (first last x y : ℕ) → length (set (set buf last x) first y) ≡ length buf
length-swap buf first last x y = length-set (set buf last x) first y ∙ length-set buf last x

-- The same, as a read of the array before the swap.
abbrev exchange : ℕ → ℕ → ℕ → ℕ
exchange first last j = if first == j then last else (if last == j then first else j)

get_or-swap_exchange :
    (buf : List ℕ) (first last j : ℕ)
    → first < length buf
    → last < length buf
    → get_or (set (set buf last (get_or buf first 0)) first (get_or buf last 0)) j 0
      ≡ get_or buf (exchange first last j) 0
get_or-swap_exchange buf first last j p q = get_or-swap buf first last j p q ∙ ground arith

exchange-mirror :
    (first last j : ℕ)
    → first + 1 < last
    → exchange first (last - 1) (mirror (first + 1) (last - 1) j) ≡ mirror first last j
exchange-mirror first last j h = ground arith

mirror_short : (first last j : ℕ) → first ≤ last → last ≤ first + 1 → mirror first last j ≡ j
mirror_short first last j p q = ground arith

get_or-reverse_loop :
    (fuel first last : ℕ) (buf : List ℕ) (j : ℕ)
    → first ≤ last
    → last - first ≤ fuel
    → last ≤ length buf
    → get_or (reverse_loop fuel first last buf) j 0 ≡ get_or buf (mirror first last j) 0
unfolding reverse_loop
get_or-reverse_loop zero first last buf j p q r =
    ap (λ (m : ℕ). get_or buf m 0) (sym (mirror_short first last j p (omega arith)))
get_or-reverse_loop (suc fuel) first last buf j p q r = elim (Bool-cases (first == last)) [
  | inl e ↦ rw e (ap (λ (m : ℕ). get_or buf m 0) (sym (mirror_short first last j p (ground arith))))
  | inr ne ↦ elim (Bool-cases (first == last - 1)) [
    | inl e ↦
        rw (ne, e)
          (ap (λ (m : ℕ). get_or buf m 0) (sym (mirror_short first last j p (ground arith))))
    | inr ne' ↦
        rw (ne, ne')
          (get_or-reverse_loop fuel (first + 1) (last - 1) swapped j (ground arith) (omega arith) (
              omega (
                arith,
                length-swap buf first (last - 1) (get_or buf first 0) (get_or buf (last - 1) 0),
              ))
            ∙ get_or-swap_exchange buf first (last - 1) _ (ground arith) (ground arith)
            ∙ ap (λ (m : ℕ). get_or buf m 0) (exchange-mirror first last j (ground arith)))
  ]
]
  where
    swapped : List ℕ
    swapped = set (set buf (last - 1) (get_or buf first 0)) first (get_or buf (last - 1) 0)

length-reverse_loop :
    (fuel first last : ℕ) (buf : List ℕ) → length (reverse_loop fuel first last buf) ≡ length buf
unfolding reverse_loop
length-reverse_loop zero first last buf = refl
length-reverse_loop (suc fuel) first last buf = ground (
  arith,
  length-reverse_loop fuel (first + 1) (last - 1)
      (set (set buf (last - 1) (get_or buf first 0)) first (get_or buf (last - 1) 0)),
  length-swap buf first (last - 1) (get_or buf first 0) (get_or buf (last - 1) 0),
)

pub length-reverse_bytes :
    (first last : ℕ) (buf : List ℕ) → length (reverse_bytes first last buf) ≡ length buf
unfolding reverse_bytes
length-reverse_bytes first last buf = length-reverse_loop (last - first) first last buf

-- With its pointers in the array, `reverse_bytes` moves byte `first + last - 1 - j` to `j` between
-- them and leaves the others alone.
pub get_or-reverse_bytes :
    (first last : ℕ) (buf : List ℕ) (j : ℕ)
    → first ≤ last
    → last ≤ length buf
    → get_or (reverse_bytes first last buf) j 0 ≡ get_or buf (mirror first last j) 0
unfolding reverse_bytes
get_or-reverse_bytes first last buf j p q =
    get_or-reverse_loop (last - first) first last buf j p (omega arith) q

-- The loop of `reverse_bytes` from the end of the bytes `front` to the end of the bytes `xs`
-- behind them reverses `xs` in place, as `reverse` would, and leaves `front` alone.
pub reverse_bytes-eq-reverse :
    (front xs : List ℕ) {first last : ℕ}
    → length front ≡ first
    → first + length xs ≡ last
    → reverse_bytes first last (front ++ xs) ≡ front ++ reverse xs
reverse_bytes-eq-reverse front xs {first} {last} e h = get_or_ext 0 _ _ lengths λ j.
    get_or-reverse_bytes first last (front ++ xs) j (omega arith)
      (omega (arith, length-append {0} front xs))
    ∙ reads j
  where
    lengths : length (reverse_bytes first last (front ++ xs)) ≡ length (front ++ reverse xs)
    lengths = omega (
      arith,
      length-reverse_bytes first last (front ++ xs),
      length-append {0} front xs,
      length-append {0} front (reverse xs),
      length-reverse {0} xs,
    )

    mirrored :
        (j : ℕ)
        → (if ltb (mirror first last j) (length front)
            then get_or front (mirror first last j) 0
            else get_or xs (mirror first last j - length front) 0)
          ≡ (if ltb j (length front)
              then get_or front j 0
              else get_or (reverse xs) (j - length front) 0)
    mirrored j = elim (dec_lt j first) [
      | yes p ↦ let m : mirror first last j ≡ j = ground arith in rw (m, e, lt→ltb j first p)
      | no p ↦ elim (dec_lt j last) [
        | yes q ↦
            let m : mirror first last j ≡ first + (length xs - 1 - (j - first)) = ground arith in
            let i : first + (length xs - 1 - (j - first)) - first ≡ length xs - 1 - (j - first) =
              omega arith in
            rw (m, e, i, get_or-reverse xs (j - first) 0) (ground arith)
        | no q ↦
            let m : mirror first last j ≡ j = ground arith in
            rw (m, e, get_or-reverse xs (j - first) 0)
              (ground (arith, get_or_out xs (j - first) 0 (omega arith)))
      ]
    ]

    reads :
        (j : ℕ) → get_or (front ++ xs) (mirror first last j) 0 ≡ get_or (front ++ reverse xs) j 0
    reads j =
        get_or-append front xs (mirror first last j) 0
        ∙ mirrored j
        ∙ sym (get_or-append front (reverse xs) j 0)
