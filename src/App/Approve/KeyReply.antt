-- ===== src/App/Approve/KeyReply.antt =====
-- The reply that carries a key: the end of the two callbacks of app/src/instrs.c that send one,
-- with the status word that `touch_okay` of app/src/approve.c puts behind it.
pub mod Sealed
use ledger_kee_pass.Base.{
  ℕ, ◌+◌, ◌≡◌, ◌≤◌, ◌≢◌, refl, ◌∙◌, ap, Bool, true, false, Option, some, none, List, ◌∷◌, ◌++◌,
  if◌then◌else◌, arith, ◌==◌, le→leb, length, take, drop, blit, blit_parts, length-blit,
  append_assoc,
}
use ledger_kee_pass.App.Consts.{sw_success, sw_invalid_parameter}
use ledger_kee_pass.App.Sdk.{Sdk, IsDocumented}
use ledger_kee_pass.App.Status.{status_word, sw_bytes}
use ledger_kee_pass.App.Curve.{Encrypted, x25519_encrypt_kp_key}
use ledger_kee_pass.App.Curve.Exchange.{IsSized, x25519_encrypt_kp_key-IsSized}
use ledger_kee_pass.App.Device.{Device, Screen, Outcome, copy, ◌>>=◌}
use ledger_kee_pass.App.Device.WellFormed
use ledger_kee_pass.App.Device.WellFormed.{WellFormed}
use ledger_kee_pass.App.Device.Outcomes.{
  Returns, Returns-if, Returns-copy, Returns-map, copied, copied_prefix, copied_read_at,
  length-copied,
}
use ledger_kee_pass.App.Instrs.{reply_encrypted, encrypt_and_reply}
use ledger_kee_pass.App.Approve.{caught, reply_status}

-- The state in which a callback that sends a key ends: one more call of `cx_rng` has been made.
abbrev pub drawn : Device → Device
drawn d = record d { draws = d.draws + 1 }

-- What an approved callback has done: one reply is sent and the menu is back.
pub record Replied (sdk : Sdk) (d₀ : Device) (reply : List ℕ) (sw : ℕ) (tx : ℕ) (d : Device)
    : Type 0 where
  pub well_formed : WellFormed sdk d
  pub sent_is : d.sent ≡ reply ∷ d₀.sent
  pub menu_back : d.screen ≡ Screen.idle
  pub flags_kept : d.asynch ≡ d₀.asynch
  pub storage_kept : d.nv ≡ d₀.nv
  pub draws_kept : d.draws ≡ d₀.draws
  pub args_kept :
      (d.erase_args ≡ d₀.erase_args) × (d.key_args ≡ d₀.key_args) × (d.name_args ≡ d₀.name_args)

module _ (sdk : Sdk) where
  -- The bytes of the reply for a key that was encrypted, or could not be.
  abbrev pub key_reply : Encrypted sdk → List ℕ
  key_reply e = elim e.own_pubkey [
    | none ↦ sw_bytes sw_invalid_parameter
    | some own ↦
        if e.succeeds
        then own ++ (e.kpkey ++ sw_bytes sw_success)
        else sw_bytes sw_invalid_parameter
  ]

  pub caught-copy :
      (P : ℕ → ℕ → Device → Type 0) (array : List ℕ) (off : ℕ) (bytes : List ℕ)
      (k : List ℕ → Outcome)
      → off + length bytes ≤ length array
      → ((array' : List ℕ)
          → array' ≡ copied array off bytes
          → length array' ≡ length array
          → Returns P (caught sdk (k array')))
      → Returns P (caught sdk (copy array off bytes >>= k))
  caught-copy P array off bytes k h rest =
      rw (le→leb _ _ h)
        (rest (blit array off bytes) (blit_parts bytes array off h) (length-blit bytes array off))

module _ (sdk : Sdk) (doc : IsDocumented sdk) where
  -- `reply_status` on a word that is no EXCEPTION_IO_RESET and a reply that leaves room for it.
  pub reply_status-Replied :
      (e tx : ℕ) (d : Device)
      → WellFormed sdk d
      → tx ≤ 64
      → e ≢ 16
      → Returns
          (Replied sdk d (take tx d.apdu ++ sw_bytes (status_word e)))
          (reply_status sdk e tx d)
  unfolding reply_status
  reply_status-Replied e tx d wf h r =
      Returns-if _ (e == sdk.exception_io_reset) _ _
        (λ eq. absurd (r (ground (arith, doc.io_reset_is))))
        λ _.
          Returns-copy _ d.apdu tx (sw_bytes (status_word e)) _
            (omega (arith, wf.apdu_size, doc.buffer_size_is))
            λ apdu eq size. record {
              well_formed =
                  WellFormed.flags-WellFormed sdk (record d { apdu = apdu })
                    (WellFormed.apdu-WellFormed sdk d wf apdu size) d.asynch Screen.idle
                    d.approve_cb d.draws (take (tx + 2) apdu ∷ d.sent);
              sent_is =
                  ap (λ r. r ∷ d.sent)
                    (ap (λ t. take (tx + 2) t) eq
                      ∙ copied_prefix d.apdu (sw_bytes (status_word e)) tx
                          (omega (arith, wf.apdu_size, doc.buffer_size_is)) refl);
              menu_back = refl;
              flags_kept = refl;
              storage_kept = refl;
              draws_kept = refl;
              args_kept = (refl, refl, refl);
            }
