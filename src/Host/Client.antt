-- ===== src/Host/Client.antt =====
-- libkpl/src/ledger_client.cpp: how a packet is put together and exchanged.
use ledger_kee_pass.Base.{
  ℕ, ◌-◌, ◌≤◌, ◌<◌, ◌≡◌, ap, true, false, ◌&&◌, List, [], ◌∷◌, ◌++◌, arith, ltb, leb, Bool-cases,
  inl, inr, if◌then◌else◌, length, set, u8,
}
use mathlib.Core.Bool.{not}
use ledger_kee_pass.Host.Result.{success, lib_bad_length, protocol_bad_length, is_success}
use ledger_kee_pass.Host.Transport.{LedgerDevice, Exchanged}

-- APDU_HEADER_SIZE and APDU_LEN_IDX
abbrev pub apdu_header_size : ℕ
apdu_header_size = 5

abbrev pub apdu_len_idx : ℕ
apdu_len_idx = 4

-- `apduStream`, with the class 0xE0 of the client
abbrev pub apdu_stream : ℕ → ℕ → ℕ → List ℕ
apdu_stream ins p1 p2 = 0xE0 ∷ ins ∷ p1 ∷ p2 ∷ 0 ∷ []

module _ {S : Type 0} (dev : LedgerDevice S) where
  -- The test of the answer's size at the end of `exchange`.
  unfoldable pub check_answer : Exchanged S → Exchanged S
  check_answer r =
      if is_success r.result && not (leb 2 (length r.answer))
      then record r { result = protocol_bad_length }
      else r

  -- `APDUStream::exchange`
  unfoldable pub exchange : ℕ → List ℕ → S → Exchanged S
  unfolding check_answer
  exchange size buf s =
      let apdu_len = length buf - apdu_header_size in
      if ltb 255 apdu_len
      then record { result = lib_bad_length; answer = []; device = s }
      else check_answer (dev.exchange size (set buf apdu_len_idx (u8 apdu_len)) s)

  -- If the data are at most 255 bytes, `exchange` sends the class 0xE0, the instruction, the two
  -- parameters, the number of the data and the data.
  pub exchange-sends :
      (size ins p1 p2 : ℕ) (bytes : List ℕ) (s : S)
      → length bytes ≤ 255
      → exchange size (apdu_stream ins p1 p2 ++ bytes) s
        ≡ check_answer (dev.exchange size (0xE0 ∷ ins ∷ p1 ∷ p2 ∷ length bytes ∷ bytes) s)
  unfolding exchange
  exchange-sends size ins p1 p2 bytes s h =
      let fits : ltb 255 (length (apdu_stream ins p1 p2 ++ bytes) - 5) ≡ false = ground arith in
      let count : u8 (length (apdu_stream ins p1 p2 ++ bytes) - 5) ≡ length bytes = omega arith in
      rw (fits, count)

  -- More than 255 bytes of data are refused before anything is sent.
  pub exchange-refuses :
      (size ins p1 p2 : ℕ) (bytes : List ℕ) (s : S)
      → 255 < length bytes
      → exchange size (apdu_stream ins p1 p2 ++ bytes) s
        ≡ record { result = lib_bad_length; answer = []; device = s }
  unfolding exchange
  exchange-refuses size ins p1 p2 bytes s h =
      let long : ltb 255 (length (apdu_stream ins p1 p2 ++ bytes) - 5) ≡ true = ground arith in
      rw long

  check_answer-success :
      (r : Exchanged S) → (check_answer r).result ≡ success → 2 ≤ length (check_answer r).answer
  unfolding check_answer is_success
  check_answer-success r h =
      elim (Bool-cases (is_success r.result && not (leb 2 (length r.answer)))) [
        | inl short ↦ let bad = simp short at h in cc
        | inr kept ↦ simp kept (sized kept (simp kept at h))
      ]
    where
      sized :
          (is_success r.result && not (leb 2 (length r.answer))) ≡ false
          → r.result ≡ success
          → 2 ≤ length r.answer
      sized kept e =
          let known : is_success r.result ≡ true = ap is_success e in ground (arith, known)

  -- What comes back as a success has room for a status word.
  pub exchange-success :
      (size : ℕ) (buf : List ℕ) (s : S)
      → (exchange size buf s).result ≡ success
      → 2 ≤ length (exchange size buf s).answer
  unfolding exchange
  exchange-success size buf s h = elim (Bool-cases (ltb 255 (length buf - 5))) [
    | inl long ↦ let bad = simp long at h in cc
    | inr fits ↦ simp fits (check_answer-success _ (simp fits at h))
  ]
