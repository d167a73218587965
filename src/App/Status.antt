-- ===== src/App/Status.antt =====
-- How an exception's number becomes the status word of a reply: the `switch (e & 0xF000)` that
-- `handleApdu` and `app_main` of app/src/main.c and `touch_okay` of app/src/approve.c share.
use ledger_kee_pass.Base.{
  ℕ, ◌+◌, ◌*◌, ◌/◌, ◌%◌, ◌≡◌, ◌<◌, ◌≤◌, ◌⊎◌, ◌∙◌, ap, arith, bit_and, bit_or, ◌==◌, if◌then◌else◌,
  u8, u16, List, [], ◌∷◌, bit_and_high, bit_and_mask, bit_or_sum,
}

unfoldable pub status_word : ℕ → ℕ
status_word e =
    if bit_and e 0xF000 == 0x6000
    then u16 e
    else (if bit_and e 0xF000 == 0x9000 then u16 e else u16 (bit_or 0x6800 (bit_and e 0x7FF)))

-- The two bytes of a status word, as they are written behind a reply: `sw >> 8` and `sw`.
abbrev pub sw_bytes : ℕ → List ℕ
sw_bytes sw = u8 (sw / 256) ∷ u8 sw ∷ []

-- the words `0x6…` and `0x9…`
abbrev pub IsStatusClass : ℕ → Type 0
IsStatusClass sw = ((0x6000 ≤ sw) × (sw < 0x7000)) ⊎ ((0x9000 ≤ sw) × (sw < 0xA000))

and_table : (q : ℕ) → q < 16 → bit_and q 15 ≡ q
and_table q h = bit_and_mask 4 q ∙ omega arith

high_nibble : (e : ℕ) → e < 65536 → bit_and e 0xF000 ≡ e / 4096 * 4096
high_nibble e h =
    let split : e ≡ e / 4096 * 4096 + e % 4096 = omega arith in
    ap (λ (t : ℕ). bit_and t 0xF000) split
    ∙ bit_and_high 12 (e / 4096) (e % 4096) 15 (omega arith)
    ∙ ap (λ (t : ℕ). t * 4096) (and_table (e / 4096) (omega arith))

low_part : (e : ℕ) → bit_or 0x6800 (bit_and e 0x7FF) ≡ 0x6800 + e % 2048
low_part e = rw (bit_and_mask 11 e) (bit_or_sum 11 13 (e % 2048) (omega arith))

-- The switch in arithmetic.
pub status_word_lem :
    (e : ℕ)
    → e < 65536
    → status_word e
      ≡ (if e / 4096 == 6 then e else (if e / 4096 == 9 then e else 0x6800 + e % 2048))
unfolding status_word
status_word_lem e h = rw (high_nibble e h, low_part e) (ground arith)

-- An exception below 65536 gives a status word of the class `0x6…` or `0x9…`: itself if it is of
-- one of these classes, else 0x6800 and its lowest eleven bits.
pub status_word-IsStatusClass :
    (e : ℕ)
    → e < 65536
    → IsStatusClass (status_word e)
      × (status_word e
          ≡ (if e / 4096 == 6 then e else (if e / 4096 == 9 then e else 0x6800 + e % 2048)))
status_word-IsStatusClass e h = (rw (status_word_lem e h) (ground arith), status_word_lem e h)

-- The two bytes give the word back, most significant byte first.
pub sw_bytes_read : (sw : ℕ) → sw < 65536 → u8 (sw / 256) * 256 + u8 sw ≡ sw
sw_bytes_read sw h = omega arith
