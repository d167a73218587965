-- ===== src/Host/Transport.antt =====
-- The interface between the client and a transport: `LedgerDevice` of
-- libkpl/include/kpl/ledger_device.h, and the answer of libkpl/include/kpl/ledger_answer.h.
use ledger_kee_pass.Base.{ℕ, ◌+◌, ◌-◌, ◌*◌, List, length, get_or}
use ledger_kee_pass.Host.Result.{Result}

-- How `LedgerDevice::exchange` ends: its result, the bytes of the answer up to `bufSize()`, and the
-- device as it is then.
pub record Exchanged (S : Type 0) : Type 0 where
  pub result : Result
  pub answer : List ℕ
  pub device : S

-- A transport with states `S`. `exchange` is given the answer's `bufSize()` and the packet.
pub record LedgerDevice (S : Type 0) : Type 0 where
  pub connect : S → Result × S
  pub exchange : ℕ → List ℕ → S → Exchanged S

-- `loadu_be<uint16_t>` of two bytes
abbrev pub load_be16 : List ℕ → ℕ → ℕ
load_be16 buf at = get_or buf at 0 * 256 + get_or buf (at + 1) 0

-- `LedgerAnswerBase::SW`
abbrev pub answer_sw : List ℕ → ℕ
answer_sw buf = load_be16 buf (length buf - 2)

-- `LedgerAnswerBase::dataSize`
abbrev pub data_size : List ℕ → ℕ
data_size buf = length buf - 2
