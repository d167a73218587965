-- ===== src/App/Main/Answers.antt =====
-- What `handleApdu` and a round of `app_main` (app/src/main.c) guarantee for every packet.
use ledger_kee_pass.Base.{
  ℕ, ◌+◌, ◌-◌, ◌≡◌, ◌≤◌, refl, true, false, some, List, arith, ◌==◌, ltb, length, take, drop,
  get_or, Option-cases, inl, inr, ◌⊎◌, blit, length-blit,
}
use mathlib.Core.Bool.{not}
use ledger_kee_pass.App.Consts.{offset_ins}
use ledger_kee_pass.App.Sdk.{Sdk, IsDocumented}
use ledger_kee_pass.App.Status.{status_word, sw_bytes, IsStatusClass, status_word-IsStatusClass}
use ledger_kee_pass.App.Storage.View.{view}
use ledger_kee_pass.App.Device.{Device, Screen, Outcome, returns, throws, fault}
use ledger_kee_pass.App.Device.WellFormed
use ledger_kee_pass.App.Device.WellFormed.{WellFormed}
use ledger_kee_pass.App.Device.Outcomes.{
  Ends, Ends-if, copied_read, Returns, Returns-if, Returns-copy,
}
use ledger_kee_pass.App.Instrs.{get_handle_instr}
use ledger_kee_pass.App.Instrs.Asking.{IsAsking}
use ledger_kee_pass.App.Instrs.Serves.{Serves, Displays-kept, unchanged-Serves}
use ledger_kee_pass.App.Instrs.All.{handler-Serves}
use ledger_kee_pass.App.Main.{
  payload, dispatch, try_apdu, append_status, catch_apdu, handle_apdu, received, report,
  app_main_round,
}

-- How a packet is answered: a reply of 2 to 5 bytes that ends with a status word, no key lost,
-- nothing sent yet, no key computed, and a truthful question wherever one is on the screen.
pub record Answers (sdk : Sdk) (d₀ : Device) (sw : ℕ) (tx : ℕ) (d : Device) : Type 0 where
  pub well_formed : WellFormed sdk d
  pub asking : IsAsking d
  pub reply_size : (2 ≤ tx) × (tx ≤ 5)
  pub word : ℕ
  pub word_class : IsStatusClass word
  pub word_last : drop (tx - 2) (take tx d.apdu) ≡ sw_bytes word
  pub keys_kept : (j : ℕ) {k : List ℕ} → view d₀.nv j ≡ some k → view d.nv j ≡ some k
  pub waits_for_user : d.asynch ≡ true → (d₀.asynch ≡ true) ⊎ (d.screen ≡ Screen.approval)
  pub nothing_sent : d.sent ≡ d₀.sent
  pub nothing_drawn : d.draws ≡ d₀.draws

module _ (sdk : Sdk) (doc : IsDocumented sdk) (d₀ : Device) where
  pub append_status-Answers :
      (e tx : ℕ) (d : Device)
      → Serves sdk d₀ e tx d
      → Returns (Answers sdk d₀) (append_status sdk e tx d)
  unfolding append_status
  append_status-Answers e tx d s =
      Returns-if _ (e == sdk.exception_io_reset) _ _ (λ r. absurd (s.no_reset (ground arith)))
        λ _.
          Returns-copy _ d.apdu tx (sw_bytes (status_word e)) _
            (omega (arith, s.well_formed.apdu_size, doc.buffer_size_is, s.reply_short))
            λ apdu eq size.
              let room : tx + 2 ≤ length d.apdu =
                omega (arith, s.well_formed.apdu_size, doc.buffer_size_is, s.reply_short) in
              let back : tx + 2 - 2 ≡ tx = omega arith in
              let wf = WellFormed.apdu-WellFormed sdk d s.well_formed apdu size in
              record {
                well_formed = wf;
                asking = λ on.
                    let (cb, c, q) = s.asking on in
                    (
                      cb,
                      c,
                      Displays-kept d (record d { apdu = apdu }) cb refl refl refl refl refl
                          (λ _ v. v) q,
                    );
                reply_size = omega (arith, s.reply_short);
                word = status_word e;
                word_class = (status_word-IsStatusClass e s.status_fits).0;
                word_last = rw (back, eq) (copied_read d.apdu (sw_bytes (status_word e)) tx room);
                keys_kept = s.keys_kept;
                waits_for_user = s.waits_for_user;
                nothing_sent = s.nothing_sent;
                nothing_drawn = s.nothing_drawn;
              }

  catch_apdu-Answers :
      (o : Outcome) → Ends (Serves sdk d₀) o → Returns (Answers sdk d₀) (catch_apdu sdk o)
  unfolding catch_apdu
  catch_apdu-Answers (returns sw tx d) s = append_status-Answers sw tx d s
  catch_apdu-Answers (throws e tx d) s = append_status-Answers e tx d s
  catch_apdu-Answers fault s = s

module _ (sdk : Sdk) (doc : IsDocumented sdk) (d : Device) (wf : WellFormed sdk d)
    (asking : IsAsking d) where
  dispatch-Serves : (ins : ℕ) → Ends (Serves sdk d) (dispatch sdk (get_handle_instr sdk ins) 0 d)
  unfolding dispatch
  dispatch-Serves ins = elim (Option-cases (get_handle_instr sdk ins)) [
    | inl unknown ↦
        rw unknown
          (unchanged-Serves sdk doc d wf asking _ 0 (omega arith) (omega arith) (omega arith))
    | inr (f, known) ↦ rw known (
        Ends-if _ (ltb (sdk.apdu_buffer_size - 5) (get_or d.apdu 4 0)) _ _
          (λ _.
            unchanged-Serves sdk doc d wf asking _ 0 (omega arith)
              (omega (arith, doc.invalid_parameter_is)) (omega (arith, doc.invalid_parameter_is)))
          (λ _. handler-Serves sdk doc d wf asking _ _ (payload d) ins f known))
  ]

  try_apdu-Serves : Ends (Serves sdk d) (try_apdu sdk 0 d)
  unfolding try_apdu
  try_apdu-Serves =
      Ends-if _ (not (get_or d.apdu 0 0 == 0xE0)) _ _
        (λ _. unchanged-Serves sdk doc d wf asking _ 0 (omega arith) (omega arith) (omega arith))
        (λ _. dispatch-Serves (get_or d.apdu offset_ins 0))

  -- For every content of the APDU buffer `handleApdu` returns with a proper answer.
  pub handle_apdu-Answers : Returns (Answers sdk d) (handle_apdu sdk 0 d)
  unfolding handle_apdu
  handle_apdu-Answers = catch_apdu-Answers sdk doc d (try_apdu sdk 0 d) try_apdu-Serves

module _ (sdk : Sdk) (doc : IsDocumented sdk) (d : Device) (wf : WellFormed sdk d)
    (asking : IsAsking d) where
  -- The state in which a received packet is handled.
  abbrev loaded : List ℕ → Device
  loaded packet = record d { apdu = blit d.apdu 0 packet; asynch = false }

  loaded-WellFormed : (packet : List ℕ) → WellFormed sdk (loaded packet)
  loaded-WellFormed packet =
      WellFormed.flags-WellFormed sdk (record d { apdu = blit d.apdu 0 packet })
        (WellFormed.apdu-WellFormed sdk d wf (blit d.apdu 0 packet) (length-blit packet d.apdu 0))
        false d.screen d.approve_cb d.draws d.sent

  loaded-IsAsking : (packet : List ℕ) → IsAsking (loaded packet)
  loaded-IsAsking packet on =
      let (cb, e, q) = asking on in
      (cb, e, Displays-kept d (loaded packet) cb refl refl refl refl refl (λ _ v. v) q)

  -- A round of `app_main` that receives a packet in a well-formed state with a truthful question,
  -- if any, returns with no fault: a reply of 2 to 5 bytes that ends with a status word of the
  -- class 0x6 or 0x9, no key lost, nothing sent and no random bytes drawn yet, and a question on
  -- the screen if the reply is to wait.
  pub app_main_round-Answers :
      (packet : List ℕ)
      → Returns (Answers sdk (loaded packet)) (app_main_round sdk (received packet) d)
  unfolding app_main_round report
  app_main_round-Answers packet =
      Returns-if _ (length packet == 0) _ _
        (λ _.
          Returns-if _ (0x6982 == sdk.exception_io_reset) _ _
            (λ r. absurd (ground (arith, doc.io_reset_is)))
            (λ _. append_status-Answers sdk doc (loaded packet) 0x6982 0 (loaded packet) (
              unchanged-Serves sdk doc (loaded packet) (loaded-WellFormed packet)
                (loaded-IsAsking packet) 0x6982 0 (omega arith) (omega arith) (omega arith))))
        (λ _.
          handle_apdu-Answers sdk doc (loaded packet) (loaded-WellFormed packet)
            (loaded-IsAsking packet))
