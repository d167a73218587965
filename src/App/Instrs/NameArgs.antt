-- ===== src/App/Instrs/NameArgs.antt =====
-- What `handleGetKeyFromName` (app/src/instrs.c) leaves for its callback.
use ledger_kee_pass.Base.{
  ℕ, ◌+◌, ◌≡◌, ◌≤◌, refl, ◌∙◌, true, false, ◌||◌, List, [], ◌∷◌, ◌++◌, arith, leb, ltb, length,
  take, drop, take_of_append, drop_of_append, length-append,
}
use ledger_kee_pass.App.Consts.{max_name_size}
use ledger_kee_pass.App.Sdk.{Sdk}
use ledger_kee_pass.App.Device.{Device, Callback}
use ledger_kee_pass.App.Device.WellFormed
use ledger_kee_pass.App.Device.WellFormed.{WellFormed}
use ledger_kee_pass.App.Device.Outcomes.{
  Returns, Returns-copy, Returns-map, Returns-both, copied_whole,
}
use ledger_kee_pass.App.Instrs.Text.{c_string, seed_prefix}
use ledger_kee_pass.App.Instrs.Handlers.{ask_open_name, handle_get_key_from_name, is_name_valid}
use ledger_kee_pass.App.Instrs.Asking.{quote, hashed_name}
use ledger_kee_pass.App.Instrs.Questions.{Asks, ask_open_name-Asks, name_prefix}

-- The callback will hash this name and encrypt for this public key.
abbrev pub WillDerive : List ℕ → List ℕ → Device → Type 0
WillDerive pub_key name e =
    (e.name_args.caller_pub ≡ pub_key) × (hashed_name e ≡ seed_prefix ++ name)

module _ (sdk : Sdk) (d : Device) (wf : WellFormed sdk d) where
  ask_open_name-WillDerive :
      (n : List ℕ) (tx : ℕ)
      → length n ≤ max_name_size
      → Returns (λ _ _ e. WillDerive d.name_args.caller_pub n e) (ask_open_name sdk n tx d)
  unfolding ask_open_name
  ask_open_name-WillDerive n tx short =
      Returns-copy _ d.name_args.name 0 seed_prefix _ (omega (arith, wf.name_size))
        λ prefixed e0 s0. Returns-copy _ prefixed 7 n _ (omega (arith, wf.name_size)) λ name e1 s1.
          Returns-copy _ d.line1 0 (c_string "Database open name") _ (omega (arith, wf.line1_size))
            λ line1 e2 s2.
              Returns-copy _ d.line2 0 (quote ∷ []) _ (omega (arith, wf.line2_size)) λ quoted e3 s3.
                Returns-copy _ quoted 1 n _ (omega (arith, wf.line2_size)) λ named e4 s4.
                  Returns-copy _ named (length n + 1) (quote ∷ []) _ (omega (arith, wf.line2_size))
                    λ closed e5 s5.
                      Returns-copy _ closed (length n + 2) (0 ∷ []) _ (omega (arith, wf.line2_size))
                        λ line2 e6 s6. (refl, name_prefix sdk d wf n prefixed name e0 e1)

module _ (sdk : Sdk) (d : Device) (wf : WellFormed sdk d) where
  -- A public key and a printable name of 1 to 20 bytes behind it.
  pub handle_get_key_from_name-Asks :
      (p1 p2 : ℕ) (pub_key name : List ℕ)
      → length pub_key ≡ 32
      → 1 ≤ length name
      → length name ≤ max_name_size
      → is_name_valid name ≡ true
      → Returns
          (λ sw tx e.
            Asks sdk Callback.get_key_from_name_after_approve d 0 sw tx e
            × WillDerive pub_key name e)
          (handle_get_key_from_name sdk p1 p2 (pub_key ++ name) 0 d)
  unfolding handle_get_key_from_name
  handle_get_key_from_name-Asks p1 p2 pub_key name size some_name short valid =
      rw (proper, front, behind, valid)
        (Returns-copy _ d.name_args.caller_pub 0 pub_key _
          (omega (arith, size, wf.name_caller_size))
          λ caller e s.
            asked caller
              (e
                ∙ copied_whole d.name_args.caller_pub pub_key
                    (omega (arith, size, wf.name_caller_size)))
              s)
    where
      proper :
          (leb (length (pub_key ++ name)) 32 || ltb (32 + max_name_size) (length (pub_key ++ name)))
          ≡ false
      proper = ground (arith, length-append {0} pub_key name)

      front : take 32 (pub_key ++ name) ≡ pub_key
      front = take_of_append pub_key name size

      behind : drop 32 (pub_key ++ name) ≡ name
      behind = drop_of_append pub_key name size

      asked :
          (caller : List ℕ)
          → caller ≡ pub_key
          → length caller ≡ length d.name_args.caller_pub
          → Returns
              (λ sw tx e.
                Asks sdk Callback.get_key_from_name_after_approve d 0 sw tx e
                × WillDerive pub_key name e)
              (ask_open_name sdk name 0
                (record d { name_args = record d.name_args { caller_pub = caller } }))
      asked caller is_key s =
          let d' = record d { name_args = record d.name_args { caller_pub = caller } } in
          let wf' =
            WellFormed.name_args-WellFormed sdk d wf d.name_args.name caller d.name_args.name_len
              refl s in
          Returns-map _ _ (ask_open_name sdk name 0 d')
            (λ sw tx e p. (
              record {
                well_formed = p.0.well_formed;
                status_is = p.0.status_is;
                tx_kept = p.0.tx_kept;
                asynchronous = p.0.asynchronous;
                on_screen = p.0.on_screen;
                callback_is = p.0.callback_is;
                question = p.0.question;
                storage_kept = p.0.storage_kept;
                apdu_kept = p.0.apdu_kept;
                nothing_sent = p.0.nothing_sent;
                nothing_drawn = p.0.nothing_drawn;
              },
              (p.1.0 ∙ is_key, p.1.1),
            ))
            (Returns-both (Asks sdk Callback.get_key_from_name_after_approve d' 0) _
              (ask_open_name sdk name 0 d')
              (ask_open_name-Asks sdk d' wf' name 0 some_name short valid)
              (ask_open_name-WillDerive sdk d' wf' name 0 short))
