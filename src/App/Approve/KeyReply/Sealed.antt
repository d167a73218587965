-- ===== src/App/Approve/KeyReply/Sealed.antt =====
-- A key that was encrypted by app/src/x25519.c, in a reply of app/src/instrs.c.
use ledger_kee_pass.Base.{
  ℕ, ◌+◌, ◌≡◌, ◌≤◌, ◌≢◌, refl, ◌∙◌, ap, Bool, true, false, Option, some, none, List, ◌++◌, arith,
  length, take, drop, append_assoc,
}
use ledger_kee_pass.App.Consts.{sw_success, sw_invalid_parameter}
use ledger_kee_pass.App.Sdk.{Sdk, IsDocumented}
use ledger_kee_pass.App.Status.{status_word, sw_bytes}
use ledger_kee_pass.App.Curve.{Encrypted, x25519_encrypt_kp_key}
use ledger_kee_pass.App.Curve.Exchange.{IsSized, x25519_encrypt_kp_key-IsSized}
use ledger_kee_pass.App.Device.{Device, Screen}
use ledger_kee_pass.App.Device.WellFormed
use ledger_kee_pass.App.Device.WellFormed.{WellFormed}
use ledger_kee_pass.App.Device.Outcomes.{
  Returns, Returns-map, copied, copied_prefix, copied_read_at, length-copied,
}
use ledger_kee_pass.App.Instrs.{reply_encrypted, encrypt_and_reply}
use ledger_kee_pass.App.Approve.{caught, reply_status}
use ledger_kee_pass.App.Approve.KeyReply.{
  drawn, Replied, key_reply, caught-copy, reply_status-Replied,
}

module _ (sdk : Sdk) (doc : IsDocumented sdk) where
  key_sent :
      (d d' : Device) (e tx : ℕ) (reply : List ℕ)
      → WellFormed sdk d'
      → tx ≤ 64
      → e ≢ 16
      → d'.sent ≡ d.sent
      → d'.asynch ≡ d.asynch
      → d'.nv ≡ d.nv
      → d'.draws ≡ d.draws + 1
      → (d'.erase_args ≡ d.erase_args) × (d'.key_args ≡ d.key_args) × (d'.name_args ≡ d.name_args)
      → take tx d'.apdu ++ sw_bytes (status_word e) ≡ reply
      → Returns (Replied sdk (drawn d) reply) (reply_status sdk e tx d')
  key_sent d d' e tx reply wf h r es ea en ed args er =
      Returns-map _ _ (reply_status sdk e tx d')
        (λ _ _ d'' p. record {
          well_formed = p.well_formed;
          sent_is = p.sent_is ∙ rw (es, er);
          menu_back = p.menu_back;
          flags_kept = p.flags_kept ∙ ea;
          storage_kept = p.storage_kept ∙ en;
          draws_kept = p.draws_kept ∙ ed;
          args_kept = (p.args_kept.0 ∙ args.0, p.args_kept.1 ∙ args.1, p.args_kept.2 ∙ args.2);
        })
        (reply_status-Replied sdk doc e tx d' wf h r)

  ended :
      (d : Device)
      → WellFormed sdk d
      → (screen : Screen) (apdu : List ℕ) → length apdu ≡ length d.apdu
      → WellFormed sdk (record d { apdu = apdu; draws = d.draws + 1; screen = screen })
  ended d wf screen apdu size =
      WellFormed.flags-WellFormed sdk (record d { apdu = apdu })
        (WellFormed.apdu-WellFormed sdk d wf apdu size) d.asynch screen d.approve_cb (d.draws + 1)
        d.sent

  -- The public key and the encrypted key stand in front of the buffer, and the word follows.
  two_parts :
      (d : Device) (own kpkey with_pub apdu : List ℕ)
      → WellFormed sdk d
      → length own ≡ 32
      → length kpkey ≡ 32
      → with_pub ≡ copied d.apdu 0 own
      → apdu ≡ copied with_pub 32 kpkey
      → take 64 apdu ++ sw_bytes (status_word sw_success) ≡ own ++ (kpkey ++ sw_bytes sw_success)
  unfolding status_word
  two_parts d own kpkey with_pub apdu wf so sk e1 e =
      ap (λ t. t ++ sw_bytes sw_success)
        (ap (λ t. take 64 t) e
          ∙ copied_prefix with_pub kpkey 32 (omega (arith, with_pub_size)) {n = 64} (omega arith)
          ∙ ap (λ t. t ++ kpkey)
              (ap (λ t. take 32 t) e1
                ∙ copied_prefix d.apdu own 0 (omega (arith, wf.apdu_size, doc.buffer_size_is))
                    {n = 32} (omega arith)))
      ∙ append_assoc own kpkey _
    where
      with_pub_size : length with_pub ≡ 260
      with_pub_size = omega (
        arith,
        ap (length {0}) e1,
        length-copied d.apdu 0 own (omega (arith, wf.apdu_size, doc.buffer_size_is)),
        wf.apdu_size,
        doc.buffer_size_is,
      )

  refused_word : status_word sdk.invalid_parameter ≡ sw_invalid_parameter
  unfolding status_word
  refused_word = rw doc.invalid_parameter_is

  reply_encrypted-Replied :
      (d : Device) (ok : Bool) (own : Option (List ℕ)) (kpkey : List ℕ)
      → WellFormed sdk d
      → IsSized sdk (record { succeeds = ok; own_pubkey = own; kpkey = kpkey })
      → Returns
          (Replied sdk
            (drawn d)
            (key_reply sdk (record { succeeds = ok; own_pubkey = own; kpkey = kpkey })))
          (caught sdk
            (reply_encrypted sdk d (record { succeeds = ok; own_pubkey = own; kpkey = kpkey })))
  unfolding reply_encrypted caught
  reply_encrypted-Replied d true none kpkey wf s = absurd (s.own_written refl refl)
  reply_encrypted-Replied d false none kpkey wf s =
      caught-copy sdk _ d.apdu 32 kpkey _
        (omega (arith, s.kpkey_size, wf.apdu_size, doc.buffer_size_is))
        λ apdu e size.
          key_sent d _ sdk.invalid_parameter 0 _ (ended d wf Screen.idle apdu size) (omega arith)
            (omega (arith, doc.invalid_parameter_is)) refl refl refl refl (refl, refl, refl)
            (ap sw_bytes refused_word)
  reply_encrypted-Replied d false (some own) kpkey wf s =
      caught-copy sdk _ d.apdu 0 own _
        (omega (arith, s.own_size own refl, wf.apdu_size, doc.buffer_size_is))
        λ with_pub e1 size1.
          caught-copy sdk _ with_pub 32 kpkey _
            (omega (arith, s.kpkey_size, wf.apdu_size, doc.buffer_size_is))
            λ apdu e size.
              key_sent d _ sdk.invalid_parameter 0 _ (ended d wf Screen.idle apdu (size ∙ size1))
                (omega arith) (omega (arith, doc.invalid_parameter_is)) refl refl refl refl
                (refl, refl, refl) (ap sw_bytes refused_word)
  reply_encrypted-Replied d true (some own) kpkey wf s =
      caught-copy sdk _ d.apdu 0 own _
        (omega (arith, s.own_size own refl, wf.apdu_size, doc.buffer_size_is))
        λ with_pub e1 size1.
          caught-copy sdk _ with_pub 32 kpkey _
            (omega (arith, s.kpkey_size, wf.apdu_size, doc.buffer_size_is))
            λ apdu e size.
              key_sent d _ sw_success 64 _ (ended d wf d.screen apdu (size ∙ size1)) (omega arith)
                (omega arith) refl refl refl refl (refl, refl, refl)
                (two_parts d own kpkey with_pub apdu wf (s.own_size own refl) s.kpkey_size e1 e)

  -- `X25519EncryptKPKey` on a key that was written behind the first 32 bytes of the buffer.
  pub encrypt_and_reply-Replied :
      (d : Device) (key apdu caller : List ℕ)
      → WellFormed sdk d
      → length key ≡ 32
      → length caller ≡ 32
      → apdu ≡ copied d.apdu 32 key
      → Returns
          (Replied sdk
            (drawn d)
            (key_reply sdk (x25519_encrypt_kp_key sdk key caller (sdk.rng d.draws 32))))
          (caught sdk (encrypt_and_reply sdk (record d { apdu = apdu }) caller))
  unfolding encrypt_and_reply
  encrypt_and_reply-Replied d key apdu caller wf size csize e = rw in_place (
      Returns-map
        (Replied sdk (drawn (record d { apdu = apdu }))
          (key_reply sdk (x25519_encrypt_kp_key sdk key caller (sdk.rng d.draws 32))))
        _ _
        (λ _ _ _ p. record {
          well_formed = p.well_formed;
          sent_is = p.sent_is;
          menu_back = p.menu_back;
          flags_kept = p.flags_kept;
          storage_kept = p.storage_kept;
          draws_kept = p.draws_kept;
          args_kept = p.args_kept;
        })
        (reply_encrypted-Replied (record d { apdu = apdu }) result.succeeds result.own_pubkey
          result.kpkey (WellFormed.apdu-WellFormed sdk d wf apdu apdu_kept)
          (x25519_encrypt_kp_key-IsSized sdk doc key caller (sdk.rng d.draws 32) size
            (omega arith))))
    where
      room : 32 + length key ≤ length d.apdu
      room = omega (arith, wf.apdu_size, doc.buffer_size_is)

      apdu_kept : length apdu ≡ length d.apdu
      apdu_kept = ap length e ∙ length-copied d.apdu 32 key room

      in_place : take 32 (drop 32 apdu) ≡ key
      in_place = ap (λ t. take 32 (drop 32 t)) e ∙ copied_read_at d.apdu key 32 room size

      result : Encrypted sdk
      result = x25519_encrypt_kp_key sdk key caller (sdk.rng d.draws 32)
