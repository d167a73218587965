-- ===== src/Host/Answer.antt =====
-- `LedgerAnswerBase` of libkpl/include/kpl/ledger_answer.h and libkpl/src/ledger_answer.cpp, and an
-- exchange that writes into it.
pub mod Viewed
use ledger_kee_pass.Base.{
  ℕ, ◌+◌, ◌-◌, ◌≤◌, List, ◌++◌, length, get_or, take, drop, blit, replicate, if◌then◌else◌,
}
use ledger_kee_pass.Host.Intmem.{Endian, w16, loadu_be}
use ledger_kee_pass.Host.Result.{Result, is_success}
use ledger_kee_pass.Host.Transport.{LedgerDevice, Exchanged}

-- `N_` and the bytes of `Buf_`
pub record LedgerAnswer : Type 0 where
  pub n : ℕ
  pub buf : List ℕ

-- `LedgerAnswer<N>`, over the bytes that its array holds at first
unfoldable pub new_answer : ℕ → List ℕ → LedgerAnswer
new_answer n junk = record { n = n + 2; buf = take (n + 2) (junk ++ replicate (n + 2) 0) }

unfoldable pub buf_size : LedgerAnswer → ℕ
buf_size a = a.n

unfoldable pub data_size : LedgerAnswer → ℕ
data_size a = a.n - 2

-- `operator[]`
unfoldable pub at : LedgerAnswer → ℕ → ℕ
at a idx = get_or a.buf idx 0

-- `SW`
unfoldable pub sw : Endian → LedgerAnswer → ℕ
sw e a = loadu_be e w16 (drop (a.n - 2) a.buf)

unfoldable pub resize : ℕ → LedgerAnswer → LedgerAnswer
resize len a = record a { n = len }

-- `~LedgerAnswerBase`: the first `bufSize()` bytes are wiped.
unfoldable pub wipe : LedgerAnswer → LedgerAnswer
wipe a = record a { buf = blit a.buf 0 (replicate a.n 0) }

-- An `exchange` on an answer, as over USB: the bytes are written from `buf_begin()` on, and a success
-- resizes it to them. TCP resizes it before the bytes come, which a success does not show.
unfoldable pub exchange_into :
    {S : Type 0} → LedgerDevice S → LedgerAnswer → List ℕ → S → Result × (LedgerAnswer × S)
unfolding resize buf_size
exchange_into dev a packet s =
    let r = dev.exchange (buf_size a) packet s in
    let written = record a { buf = blit a.buf 0 r.answer } in
    (
      r.result,
      ((if is_success r.result then resize (length r.answer) written else written), r.device),
    )
