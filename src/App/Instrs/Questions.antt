-- ===== src/App/Instrs/Questions.antt =====
-- The handlers of app/src/instrs.c that ask the user: each writes within its arrays, and leaves a
-- question that is about what its callback will use.
use ledger_kee_pass.Base.{
  ℕ, ◌+◌, ◌≡◌, ◌≤◌, ◌<◌, refl, ◌∙◌, ap, true, false, some, List, [], ◌∷◌, ◌++◌, arith, ◌==◌, length,
  take, drop, set, length-append, length-take, length-set, take_of_append, take_all, append_assoc,
}
use ledger_kee_pass.App.Consts.{key_size, slot_count, max_name_size, sw_success, x25519_pt_size}
use ledger_kee_pass.App.Sdk.{Sdk}
use ledger_kee_pass.App.Storage.{is_key_valid}
use ledger_kee_pass.App.Device.{Device, Screen, Callback, ConfirmEraseArgs, GetKeyArgs}
use ledger_kee_pass.App.Device.WellFormed.{
  WellFormed, lines-WellFormed, erase_args-WellFormed, key_args-WellFormed, name_args-WellFormed,
  flags-WellFormed,
}
use ledger_kee_pass.App.Device.Outcomes.{Returns, copied_whole, copied, copied_behind, Returns-copy}
use ledger_kee_pass.App.Instrs.Text.{c_string, seed_prefix}
use ledger_kee_pass.App.Instrs.Handlers.{
  is_name_valid, ask, ask_erase, ask_open_slot, ask_open_name, handle_erase_all_slots,
}
use ledger_kee_pass.App.Instrs.Asking.{
  shown, shown-append, quote, Displays, erase_slot, open_slot, open_name, erase_all,
}

-- How a handler that asks ends: with the question of `cb` on the screen, and nothing stored or sent.
pub record Asks (sdk : Sdk) (cb : Callback) (d₀ : Device) (tx₀ : ℕ) (sw : ℕ) (tx : ℕ) (d : Device)
    : Type 0 where
  pub well_formed : WellFormed sdk d
  pub status_is : sw ≡ sw_success
  pub tx_kept : tx ≡ tx₀
  pub asynchronous : d.asynch ≡ true
  pub on_screen : d.screen ≡ Screen.approval
  pub callback_is : d.approve_cb ≡ some cb
  pub question : Displays d cb
  pub storage_kept : d.nv ≡ d₀.nv
  pub apdu_kept : d.apdu ≡ d₀.apdu
  pub nothing_sent : d.sent ≡ d₀.sent
  pub nothing_drawn : d.draws ≡ d₀.draws

-- The end that the four share, from a state `d` in which the arguments and the lines are written.
ask-Asks :
    (sdk : Sdk) (cb : Callback) (d₀ d : Device) (tx : ℕ)
    → WellFormed sdk d
    → d.nv ≡ d₀.nv
    → d.apdu ≡ d₀.apdu
    → d.sent ≡ d₀.sent
    → d.draws ≡ d₀.draws
    → Displays (record d { approve_cb = some cb; screen = Screen.approval; asynch = true }) cb
    → Returns (Asks sdk cb d₀ tx) (ask cb tx d)
ask-Asks sdk cb d₀ d tx wf nv apdu sent draws question = record {
  well_formed = flags-WellFormed sdk d wf true Screen.approval (some cb) d.draws d.sent;
  status_is = refl;
  tx_kept = refl;
  asynchronous = refl;
  on_screen = refl;
  callback_is = refl;
  question = question;
  storage_kept = nv;
  apdu_kept = apdu;
  nothing_sent = sent;
  nothing_drawn = draws;
}

module _ (sdk : Sdk) (d : Device) (wf : WellFormed sdk d) where
  -- The question for the erasure of all slots.
  pub handle_erase_all_slots-Asks :
      (p1 p2 : ℕ) (payload : List ℕ) (tx : ℕ)
      → Returns
          (Asks sdk Callback.erase_all_slots_approve d tx)
          (handle_erase_all_slots p1 p2 payload tx d)
  unfolding handle_erase_all_slots
  handle_erase_all_slots-Asks p1 p2 payload tx =
      Returns-copy _ d.line1 0 (c_string "Erase all slots?") _ (omega (arith, wf.line1_size))
        λ line1 e1 s1.
          Returns-copy _ d.line2 0 (c_string "They will be erased forever!") _
            (omega (arith, wf.line2_size))
            λ line2 e2 s2.
              ask-Asks sdk _ d _ tx (lines-WellFormed sdk d wf line1 line2 s1 s2) refl refl refl
                refl (erase_all (rw e1) (rw e2))

  -- the digit of a slot is no terminator
  digit : (slot : ℕ) → ((48 + slot) == 0) ≡ false
  digit slot = ground arith

  -- For a slot in range and a payload of 32 bytes, the branch of `handleStoreKey` that asks
  -- returns success: its question names that slot, the callback will store the payload into it, a
  -- reply is to wait, `*tx` is as it was, and nothing is stored, sent or drawn.
  pub ask_erase-Asks :
      (slot : ℕ) (payload : List ℕ) (tx : ℕ)
      → slot < slot_count
      → length payload ≡ key_size
      → Returns
          (λ sw tx' d'.
            Asks sdk Callback.confirm_erase d tx sw tx' d'
            × (d'.erase_args ≡ record { key = payload; slot = slot }))
          (ask_erase sdk slot payload tx d)
  unfolding ask_erase
  ask_erase-Asks slot payload tx h size =
      Returns-copy _ d.erase_args.key 0 payload _ (omega (arith, wf.erase_key_size)) λ key e0 s0.
        Returns-copy _ d.line1 0 (c_string "Slot #X already set.") _ (omega (arith, wf.line1_size))
          λ line1 e1 s1.
            Returns-copy _ d.line2 0 (c_string "Erase?") _ (omega (arith, wf.line2_size))
              λ line2 e2 s2.
                let args = erase_args-WellFormed sdk d wf key slot (s0 ∙ wf.erase_key_size) in
                let whole =
                  e0 ∙ copied_whole d.erase_args.key payload (omega (arith, wf.erase_key_size)) in
                (
                  ask-Asks sdk _ d _ tx
                      (lines-WellFormed sdk _ args (set line1 6 (48 + slot)) line2
                        (length-set line1 6 (48 + slot) ∙ s1) s2)
                      refl refl refl refl (erase_slot h (rw (e1, digit slot)) (rw e2)),
                  ap {B = ConfirmEraseArgs} (λ k. record { key = k; slot = slot }) whole,
                )

  -- For a valid slot in range and a payload of 32 bytes, `handleGetKey` returns success: its
  -- question names that slot, the callback will use that slot and the payload as the caller's
  -- public key, a reply is to wait, `*tx` is as it was, and nothing is stored, sent or drawn.
  pub ask_open_slot-Asks :
      (slot : ℕ) (payload : List ℕ) (tx : ℕ)
      → slot < slot_count
      → length payload ≡ x25519_pt_size
      → is_key_valid d.nv slot ≡ true
      → Returns
          (λ sw tx' d'.
            Asks sdk Callback.get_key_after_approve d tx sw tx' d'
            × (d'.key_args ≡ record { caller_pub = payload; slot = slot }))
          (ask_open_slot sdk slot payload tx d)
  unfolding ask_open_slot
  ask_open_slot-Asks slot payload tx h size valid =
      Returns-copy _ d.key_args.caller_pub 0 (take 32 payload) _
        (omega (arith, wf.key_caller_size, length-take {0} 32 payload))
        λ caller e0 s0.
          Returns-copy _ d.line1 0 (c_string "Database open slot") _ (omega (arith, wf.line1_size))
            λ line1 e1 s1.
              Returns-copy _ d.line2 0 (c_string "Slot #X") _ (omega (arith, wf.line2_size))
                λ line2 e2 s2.
                  let args = key_args-WellFormed sdk d wf caller slot s0 in
                  let taken = take_all payload {n = 32} (omega arith) in
                  let whole =
                    e0
                    ∙ ap (λ t. copied d.key_args.caller_pub 0 t) taken
                    ∙ copied_whole d.key_args.caller_pub payload
                        (omega (arith, wf.key_caller_size)) in
                  (
                    ask-Asks sdk _ d _ tx
                        (lines-WellFormed sdk _ args line1 (set line2 6 (48 + slot)) s1
                          (length-set line2 6 (48 + slot) ∙ s2))
                        refl refl refl refl (open_slot h valid (rw e1) (rw (e2, digit slot))),
                    ap {B = GetKeyArgs} (λ c. record { caller_pub = c; slot = slot }) whole,
                  )

  -- The second line of the screen, after the four writes of `handleGetKeyFromName`.
  name_line :
      (n quoted named closed line2 : List ℕ)
      → quoted ≡ copied d.line2 0 (quote ∷ [])
      → named ≡ copied quoted 1 n
      → closed ≡ copied named (length n + 1) (quote ∷ [])
      → line2 ≡ copied closed (length n + 2) (0 ∷ [])
      → is_name_valid n ≡ true
      → shown line2 ≡ quote ∷ (n ++ quote ∷ [])
  name_line n quoted named closed line2 e1 e2 e3 e4 valid = rw whole (
      ap (λ t. quote ∷ t)
        (rw (append_assoc n (quote ∷ []) (0 ∷ []), append_assoc n (quote ∷ 0 ∷ []) rest)
          (shown-append n (quote ∷ 0 ∷ rest) valid)))
    where
      open_quote : List ℕ
      open_quote = quote ∷ []

      behind : List ℕ
      behind = drop (length n) (drop 1 d.line2)

      rest : List ℕ
      rest = drop 1 (drop 1 behind)

      two : named ≡ (open_quote ++ n) ++ behind
      two = e2 ∙ ap (λ t. copied t 1 n) e1 ∙ copied_behind open_quote (drop 1 d.line2) n refl

      three : closed ≡ ((open_quote ++ n) ++ open_quote) ++ drop 1 behind
      three =
          e3
          ∙ ap (λ t. copied t (length n + 1) open_quote) two
          ∙ copied_behind (open_quote ++ n) behind open_quote (omega arith)

      whole : line2 ≡ (((open_quote ++ n) ++ open_quote) ++ 0 ∷ []) ++ rest
      whole =
          e4
          ∙ ap (λ t. copied t (length n + 2) (0 ∷ [])) three
          ∙ copied_behind ((open_quote ++ n) ++ open_quote) (drop 1 behind) (0 ∷ [])
              (omega (arith, length-append {0} (open_quote ++ n) open_quote))

  pub name_prefix :
      (n prefixed name : List ℕ)
      → prefixed ≡ copied d.name_args.name 0 seed_prefix
      → name ≡ copied prefixed 7 n
      → take (7 + length n) name ≡ seed_prefix ++ n
  name_prefix n prefixed name e0 e1 =
      ap (λ t. take (7 + length n) t)
        (e1
          ∙ ap (λ t. copied t 7 n) e0
          ∙ copied_behind seed_prefix (drop 7 d.name_args.name) n refl)
      ∙ take_of_append (seed_prefix ++ n) _ (omega (arith, length-append {0} seed_prefix n))

  -- the question for a printable name of 1 to 20 bytes
  pub ask_open_name-Asks :
      (n : List ℕ) (tx : ℕ)
      → 1 ≤ length n
      → length n ≤ max_name_size
      → is_name_valid n ≡ true
      → Returns (Asks sdk Callback.get_key_from_name_after_approve d tx) (ask_open_name sdk n tx d)
  unfolding ask_open_name
  ask_open_name-Asks n tx some_name short valid =
      Returns-copy _ d.name_args.name 0 seed_prefix _ (omega (arith, wf.name_size))
        λ prefixed e0 s0. Returns-copy _ prefixed 7 n _ (omega (arith, wf.name_size)) λ name e1 s1.
          Returns-copy _ d.line1 0 (c_string "Database open name") _ (omega (arith, wf.line1_size))
            λ line1 e2 s2.
              Returns-copy _ d.line2 0 (quote ∷ []) _ (omega (arith, wf.line2_size)) λ quoted e3 s3.
                Returns-copy _ quoted 1 n _ (omega (arith, wf.line2_size)) λ named e4 s4.
                  Returns-copy _ named (length n + 1) (quote ∷ []) _ (omega (arith, wf.line2_size))
                    λ closed e5 s5.
                      Returns-copy _ closed (length n + 2) (0 ∷ []) _ (omega (arith, wf.line2_size))
                        λ line2 e6 s6.
                          let args =
                            name_args-WellFormed sdk d wf name d.name_args.caller_pub (7 + length n)
                              (s1 ∙ s0) refl in
                          ask-Asks sdk _ d _ tx
                            (lines-WellFormed sdk _ args line1 line2 s2 (s6 ∙ s5 ∙ s4 ∙ s3)) refl
                            refl refl refl
                            (open_name n some_name short valid (name_prefix n prefixed name e0 e1)
                              (rw e2) (name_line n quoted named closed line2 e3 e4 e5 e6 valid))
