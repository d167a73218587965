-- ===== src/App/Instrs/NameAsked.antt =====
-- What `handleGetKeyFromName` (app/src/instrs.c) asks the user, against what its callback will use.
use ledger_kee_pass.Base.{ℕ, ◌≡◌, ◌≤◌, sym, ◌∙◌, ap, true, List, [], ◌∷◌, ◌++◌, length, drop}
use ledger_kee_pass.App.Consts.{max_name_size}
use ledger_kee_pass.App.Sdk.{Sdk}
use ledger_kee_pass.App.Device.{Device, Callback}
use ledger_kee_pass.App.Device.WellFormed.{WellFormed}
use ledger_kee_pass.App.Device.Outcomes.{Returns, Returns-map}
use ledger_kee_pass.App.Instrs.Text.{codes, seed_prefix}
use ledger_kee_pass.App.Instrs.Handlers.{handle_get_key_from_name, is_name_valid}
use ledger_kee_pass.App.Instrs.Asking.{shown, quote, hashed_name, Displays, open_name}
use ledger_kee_pass.App.Instrs.Questions.{Asks}
use ledger_kee_pass.App.Instrs.NameArgs.{WillDerive, handle_get_key_from_name-Asks}

-- The two lines name `name`, which is what the callback will hash behind its prefix, and it will
-- encrypt for `pub_key`.
pub record AsksAbout (sdk : Sdk) (d₀ : Device) (pub_key name : List ℕ) (sw : ℕ) (tx : ℕ)
    (d : Device) : Type 0 where
  pub asks : Asks sdk Callback.get_key_from_name_after_approve d₀ 0 sw tx d
  pub encrypts_for : d.name_args.caller_pub ≡ pub_key
  pub hashes : hashed_name d ≡ codes "dbname" ++ (0 ∷ name)
  pub first_line : shown d.line1 ≡ codes "Database open name"
  pub second_line : shown d.line2 ≡ codes "'" ++ (name ++ codes "'")

-- The name of the question is the one that is hashed.
lines_of :
    (d : Device) (name : List ℕ)
    → Displays d Callback.get_key_from_name_after_approve
    → hashed_name d ≡ seed_prefix ++ name
    → (shown d.line1 ≡ codes "Database open name")
      × (shown d.line2 ≡ codes "'" ++ (name ++ codes "'"))
lines_of d name (open_name n some_name short valid is_hashed line1 line2) hashed =
    let same : n ≡ name = ap (λ (t : List ℕ). drop 7 t) (sym is_hashed ∙ hashed) in
    (line1, line2 ∙ ap (λ (t : List ℕ). quote ∷ (t ++ quote ∷ [])) same)

module _ (sdk : Sdk) (d : Device) (wf : WellFormed sdk d) where
  -- For a payload of a public key of 32 bytes and a printable name of 1 to 20 bytes behind it,
  -- `handleGetKeyFromName` called with `*tx` 0 returns success: the screen's two lines are
  -- "Database open name" and that very name in quotes, the callback will hash "dbname", a zero
  -- byte and the name and encrypt for that public key, a reply is to wait, `*tx` is 0, and
  -- nothing is stored, sent or drawn.
  pub handle_get_key_from_name-AsksAbout :
      (p1 p2 : ℕ) (pub_key name : List ℕ)
      → length pub_key ≡ 32
      → 1 ≤ length name
      → length name ≤ max_name_size
      → is_name_valid name ≡ true
      → Returns
          (AsksAbout sdk d pub_key name)
          (handle_get_key_from_name sdk p1 p2 (pub_key ++ name) 0 d)
  handle_get_key_from_name-AsksAbout p1 p2 pub_key name size some_name short valid =
      Returns-map
        (λ sw tx e.
          Asks sdk Callback.get_key_from_name_after_approve d 0 sw tx e × WillDerive pub_key name e)
        (AsksAbout sdk d pub_key name) (handle_get_key_from_name sdk p1 p2 (pub_key ++ name) 0 d)
        (λ _ _ e p.
          let lines = lines_of e name p.0.question p.1.1 in
          record {
            asks = p.0;
            encrypts_for = p.1.0;
            hashes = p.1.1;
            first_line = lines.0;
            second_line = lines.1;
          })
        (handle_get_key_from_name-Asks sdk d wf p1 p2 pub_key name size some_name short valid)
