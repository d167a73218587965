-- ===== src/System/Link.antt =====
-- The application at the other end of the library's transport: a packet is a round of `app_main`
-- (app/src/main.c), and a user answers its question with one press of a button (app/src/approve.c).
use ledger_kee_pass.Base.{ℕ, List, [], ◌∷◌, if◌then◌else◌, leb, length}
use ledger_kee_pass.App.Sdk.{Sdk}
use ledger_kee_pass.App.Device.{Device, Outcome, returns, throws, fault}
use ledger_kee_pass.App.Approve.{Button, bagl_ui_approval_nanos_button}
use ledger_kee_pass.App.Main.{received, app_main_round, send_reply}
use ledger_kee_pass.Host.Result.{success, protocol_bad_length, transport_timeout}
use ledger_kee_pass.Host.Transport.{LedgerDevice, Exchanged}

abbrev pub latest : List (List ℕ) → List ℕ
latest [] = []
latest (reply ∷ sent) = reply

-- The reply that was sent last, if it fits the answer.
abbrev pub deliver : ℕ → Device → Exchanged Device
deliver size d =
    if leb (length (latest d.sent)) size
    then record { result = success; answer = latest d.sent; device = d }
    else record { result = protocol_bad_length; answer = []; device = d }

-- A call that ends in an exception or a fault sends nothing.
unfoldable pub delivered : ℕ → Device → Outcome → Exchanged Device
delivered size d (returns sw tx d') = deliver size d'
delivered size d (throws e tx d') = record { result = transport_timeout; answer = []; device = d' }
delivered size d fault = record { result = transport_timeout; answer = []; device = d }

module _ (sdk : Sdk) where
  unfoldable pub answered : Button → ℕ → Device → Outcome → Exchanged Device
  unfolding delivered
  answered b size d (returns sw tx d') =
      if d'.asynch
      then delivered size d (bagl_ui_approval_nanos_button sdk b (send_reply tx d'))
      else deliver size (send_reply tx d')
  answered b size d (throws e tx d') = record {
    result = transport_timeout;
    answer = [];
    device = d';
  }
  answered b size d fault = record { result = transport_timeout; answer = []; device = d }

  unfoldable pub exchange_with : Button → ℕ → List ℕ → Device → Exchanged Device
  unfolding answered
  exchange_with b size packet d = answered b size d (app_main_round sdk (received packet) d)

  abbrev pub link : Button → LedgerDevice Device
  link b = record { connect = λ d. (success, d); exchange = exchange_with b }
