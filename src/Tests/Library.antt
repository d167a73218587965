-- ===== src/Tests/Library.antt =====
-- The library (libkpl/src/) at concrete inputs, some of them against the application.
use ledger_kee_pass.Base.{ℕ, ◌+◌, ◌∷◌, [], ◌++◌, ◌≡◌, refl, List, replicate, length}
use ledger_kee_pass.App.Consts.{key_size}
use ledger_kee_pass.App.Approve.{right_released}
use ledger_kee_pass.Host.Result.{success}
use ledger_kee_pass.Host.Crypto.{x25519_gen_priv_key}
use ledger_kee_pass.Host.Transport.{LedgerDevice}
use ledger_kee_pass.Host.Client.{apdu_stream, exchange}
use ledger_kee_pass.Host.Kpl.{get_key}
use ledger_kee_pass.Host.Kpl.Decrypted.{Carries, get_key-success}
use ledger_kee_pass.System.Link.{link}
use ledger_kee_pass.System.RoundTrip.{get_key-held}
use ledger_kee_pass.Tests.Toy.{toy_sdk, toy_sdk-IsDocumented, toy_sodium, toy-SameCurve}
use ledger_kee_pass.Tests.Device.{some_key, fresh, fresh-Inv, fresh_held}

abbrev zeros : List ℕ
zeros = replicate 32 0

get_key-held_example :
    let ended = get_key toy_sodium (link toy_sdk right_released) 3 (replicate 32 2) zeros fresh in
    (ended.result ≡ success) × (ended.out ≡ some_key)
get_key-held_example =
    get_key-held toy_sdk toy_sdk-IsDocumented toy_sodium toy-SameCurve fresh 3 some_key
      (replicate 32 2) zeros fresh-Inv.well_formed fresh_held refl refl refl

get_key-success_example :
    let own_pub = x25519_gen_priv_key toy_sodium (replicate 32 2) in
    let r = exchange (link toy_sdk right_released) 66 (apdu_stream 2 3 0 ++ own_pub) fresh in
    (length zeros ≡ key_size)
    × Carries toy_sodium r.answer own_pub
        (replicate 32 2)
        (get_key toy_sodium (link toy_sdk right_released) 3 (replicate 32 2) zeros fresh).out
get_key-success_example =
    get_key-success toy_sodium (link toy_sdk right_released) 3 (replicate 32 2) zeros fresh
      (get_key-held toy_sdk toy_sdk-IsDocumented toy_sodium toy-SameCurve fresh 3 some_key
        (replicate 32 2) zeros fresh-Inv.well_formed fresh_held refl refl refl).0

-- A device that gives the same answer to every packet.
abbrev parrot : List ℕ → LedgerDevice ℕ
parrot answer = record {
  connect = λ n. (success, n);
  exchange = λ size packet n. record { result = success; answer = answer; device = n + 1 };
}

abbrev version_answer : List ℕ
version_answer = 0 ∷ 3 ∷ 1 ∷ 0x90 ∷ 0 ∷ []
