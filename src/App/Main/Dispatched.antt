-- ===== src/App/Main/Dispatched.antt =====
-- A packet that is put together as the protocol says reaches its handler: a round of `app_main` and
-- `handleApdu` (app/src/main.c).
use ledger_kee_pass.Base.{
  ℕ, ◌+◌, ◌-◌, ◌≡◌, ◌≤◌, refl, ◌∙◌, ap, sym, false, some, List, ◌∷◌, ◌++◌, ◌==◌, ltb, arith, length,
  drop, blit, take_of_append, blit_parts, length-blit,
}
use ledger_kee_pass.App.Sdk.{Sdk, IsDocumented}
use ledger_kee_pass.App.Device.{Device, Outcome}
use ledger_kee_pass.App.Device.WellFormed
use ledger_kee_pass.App.Device.WellFormed.{WellFormed}
use ledger_kee_pass.App.Instrs.{Handler, get_handle_instr}
use ledger_kee_pass.App.Main.{try_apdu, dispatch, handle_apdu, catch_apdu, received, app_main_round}

abbrev pub packet_of : ℕ → ℕ → ℕ → List ℕ → List ℕ
packet_of ins p1 p2 bytes = 0xE0 ∷ ins ∷ p1 ∷ p2 ∷ length bytes ∷ bytes

-- The buffer with a packet in front of what was in it.
abbrev pub loaded : Device → List ℕ → Device
loaded d packet = record d { apdu = packet ++ drop (0 + length packet) d.apdu; asynch = false }

module _ (sdk : Sdk) (doc : IsDocumented sdk) (d : Device) (wf : WellFormed sdk d) where
  pub loaded-WellFormed : (packet : List ℕ) → length packet ≤ 260 → WellFormed sdk (loaded d packet)
  loaded-WellFormed packet fits =
      WellFormed.flags-WellFormed sdk (record d { apdu = (loaded d packet).apdu })
        (WellFormed.apdu-WellFormed sdk d wf (loaded d packet).apdu (
          ap length
            (sym (blit_parts packet d.apdu 0 (omega (arith, wf.apdu_size, doc.buffer_size_is))))
          ∙ length-blit packet d.apdu 0))
        false d.screen d.approve_cb d.draws d.sent

  try_apdu-packet :
      (ins p1 p2 : ℕ) (bytes rest : List ℕ) (f : Handler)
      → get_handle_instr sdk ins ≡ some f
      → length bytes ≤ 255
      → try_apdu sdk 0 (record d { apdu = packet_of ins p1 p2 bytes ++ rest; asynch = false })
        ≡ f p1 p2 bytes 0 (record d { apdu = packet_of ins p1 p2 bytes ++ rest; asynch = false })
  unfolding try_apdu dispatch
  try_apdu-packet ins p1 p2 bytes rest f known short =
      let fits : ltb (sdk.apdu_buffer_size - 5) (length bytes) ≡ false =
        ground (arith, doc.buffer_size_is) in
      rw (known, fits, take_of_append bytes rest {n = length bytes} refl) refl

  -- In a well-formed state, a round of `app_main` that receives the class 0xE0, a known
  -- instruction, two parameters, the number of at most 255 bytes and these bytes is the
  -- instruction's handler on the two parameters and these bytes, with its status word put behind
  -- the reply.
  pub app_main_round-packet :
      (ins p1 p2 : ℕ) (bytes : List ℕ) (f : Handler)
      → get_handle_instr sdk ins ≡ some f
      → length bytes ≤ 255
      → app_main_round sdk (received (packet_of ins p1 p2 bytes)) d
        ≡ catch_apdu sdk (f p1 p2 bytes 0 (loaded d (packet_of ins p1 p2 bytes)))
  app_main_round-packet ins p1 p2 bytes f known short =
      first
      ∙ ap {B = Outcome} (λ a. handle_apdu sdk 0 (record d { apdu = a; asynch = false }))
          (blit_parts packet d.apdu 0 (omega (arith, wf.apdu_size, doc.buffer_size_is)))
      ∙ unfold handle_apdu in ap (catch_apdu sdk) (try_apdu-packet ins p1 p2 bytes _ f known short)
    where
      packet : List ℕ
      packet = packet_of ins p1 p2 bytes

      nonempty : (length packet == 0) ≡ false
      nonempty = ground arith

      first :
          app_main_round sdk (received packet) d
          ≡ handle_apdu sdk 0 (record d { apdu = blit d.apdu 0 packet; asynch = false })
      first = unfold app_main_round in rw nonempty refl
