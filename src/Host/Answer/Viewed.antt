-- ===== src/Host/Answer/Viewed.antt =====
-- An answer object (libkpl/include/kpl/ledger_answer.h) behind an exchange reads as the list of the
-- bytes that the transport brought.
use ledger_kee_pass.Base.{
  ℕ, zero, suc, ◌+◌, ◌-◌, ◌≤◌, ◌<◌, ◌≡◌, refl, ◌∙◌, ap, List, [], ◌∷◌, ◌++◌, arith, length, get_or,
  drop, blit, blit_parts, length-blit, AllBytes,
}
use ledger_kee_pass.Host.Intmem.{Endian, w16, loadu_be}
use ledger_kee_pass.Host.Intmem.Orders.{loadu_be-bytes}
use ledger_kee_pass.Host.Result.{success, is_success}
use ledger_kee_pass.Host.Transport
use ledger_kee_pass.Host.Transport.{LedgerDevice, Exchanged, answer_sw}
use ledger_kee_pass.Host.Answer
use ledger_kee_pass.Host.Answer.{LedgerAnswer, buf_size, at, sw, exchange_into, resize}

-- `Buf_` has room for the `N_` bytes that are read.
abbrev pub IsRoomy : LedgerAnswer → Type 0
IsRoomy a = a.n ≤ length a.buf

-- The object reads as `bytes`, by each of its accessors.
pub record Reads (e : Endian) (a : LedgerAnswer) (bytes : List ℕ) : Type 0 where
  pub roomy : IsRoomy a
  pub size_is : buf_size a ≡ length bytes
  pub data_size_is : Answer.data_size a ≡ Transport.data_size bytes
  pub at_is : (i : ℕ) → i < length bytes → at a i ≡ get_or bytes i 0
  pub sw_is : 2 ≤ length bytes → sw e a ≡ answer_sw bytes

get_or_byte : (bytes : List ℕ) (i : ℕ) → AllBytes bytes → get_or bytes i 0 < 256
get_or_byte [] i h = omega arith
get_or_byte (b ∷ bytes) zero h = h.0
get_or_byte (b ∷ bytes) (suc i) h = get_or_byte bytes i h.1

-- The last two of the bytes that begin a buffer.
last_two_at :
    (k : ℕ) (bytes tail : List ℕ)
    → length bytes ≡ suc (suc k)
    → drop k (bytes ++ tail) ≡ get_or bytes k 0 ∷ get_or bytes (suc k) 0 ∷ tail
last_two_at k [] tail h = absurd (omega arith)
last_two_at k (a ∷ []) tail h = absurd (omega arith)
last_two_at zero (a ∷ b ∷ []) tail h = refl
last_two_at zero (a ∷ b ∷ c ∷ bytes) tail h = absurd (omega arith)
last_two_at (suc k) (a ∷ b ∷ bytes) tail h = last_two_at k (b ∷ bytes) tail (omega arith)

last_two :
    (bytes tail : List ℕ)
    → 2 ≤ length bytes
    → drop (length bytes - 2) (bytes ++ tail)
      ≡ get_or bytes (length bytes - 2) 0 ∷ get_or bytes (length bytes - 2 + 1) 0 ∷ tail
last_two bytes tail h =
    last_two_at (length bytes - 2) bytes tail (omega arith)
    ∙ ap (λ (t : ℕ). get_or bytes (length bytes - 2) 0 ∷ get_or bytes t 0 ∷ tail) (omega arith)

get_or_front :
    (bytes tail : List ℕ) (i : ℕ) → i < length bytes → get_or (bytes ++ tail) i 0 ≡ get_or bytes i 0
get_or_front [] tail i lt = absurd (omega arith)
get_or_front (b ∷ bytes) tail zero lt = refl
get_or_front (b ∷ bytes) tail (suc i) lt = get_or_front bytes tail i (omega arith)

written-Reads :
    (e : Endian) (bytes buf : List ℕ)
    → length bytes ≤ length buf
    → AllBytes bytes
    → Reads e (record { n = length bytes; buf = blit buf 0 bytes }) bytes
unfolding at sw buf_size Answer.data_size
written-Reads e bytes buf fits all = record {
  roomy = omega (arith, length-blit {0} bytes buf 0);
  size_is = refl;
  data_size_is = refl;
  at_is = λ i lt.
      ap (λ m. get_or m i 0) (blit_parts bytes buf 0 (omega arith))
      ∙ get_or_front bytes (drop (0 + length bytes) buf) i lt;
  sw_is = λ two.
      ap (λ m. loadu_be e w16 (drop (length bytes - 2) m)) (blit_parts bytes buf 0 (omega arith))
      ∙ ap (loadu_be e w16) (last_two bytes (drop (0 + length bytes) buf) two)
      ∙ loadu_be-bytes e _ _ _ (get_or_byte bytes _ all) (get_or_byte bytes _ all);
}

-- If a transport brings bytes, no more than the answer has room for, then on machines of both
-- byte orders a successful exchange leaves an answer whose size, data size, bytes and status word
-- are those of the bytes brought, and whose array has room for its size.
pub exchange_into-Reads :
    {S : Type 0} (dev : LedgerDevice S) (e : Endian) (a : LedgerAnswer) (packet : List ℕ) (s : S)
    → IsRoomy a
    → length (dev.exchange a.n packet s).answer ≤ a.n
    → AllBytes (dev.exchange a.n packet s).answer
    → (dev.exchange a.n packet s).result ≡ success
    → let r = dev.exchange a.n packet s in
      let (result, (a', s')) = exchange_into dev a packet s in
      (result ≡ success) × Reads e a' r.answer × (s' ≡ r.device)
unfolding exchange_into resize buf_size is_success
exchange_into-Reads dev e a packet s roomy fits all ok =
    simp ok (refl, written-Reads e _ a.buf (omega arith) all, refl)
