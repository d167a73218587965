-- ===== src/System/Tools.antt =====
-- The command line tools (libkpl/tools) against the application (app/src).
use ledger_kee_pass.Base.{
  ℕ, suc, sym, ◌+◌, ◌<◌, ◌≡◌, refl, ◌∙◌, ap, true, false, Option, some, none, List, [], ◌∷◌, ◌++◌,
  arith, ◌==◌, length,
}
use mathlib.Core.Path.{subst}
use ledger_kee_pass.App.Consts.{slot_count, key_size}
use ledger_kee_pass.App.Sdk.{Sdk, IsDocumented}
use ledger_kee_pass.App.Device.{Device}
use ledger_kee_pass.App.Instrs.{codes}
use ledger_kee_pass.App.Approve.{Button, right_released, left_released}
use ledger_kee_pass.Host.Result.{Result, success, app_unauthorized_access, is_success}
use ledger_kee_pass.Host.Sodium.{Sodium}
use ledger_kee_pass.Host.Transport.{LedgerDevice}
use ledger_kee_pass.Host.Devices.{DeviceInfo, Machine, name, to_string, atoi, get_first_device}
use ledger_kee_pass.Host.Devices.Ports.{atoi-to_string}
use ledger_kee_pass.Host.Tools.{
  Tool, use_device, first_kpl, go_on, with_first_kpl, reported, set_with, set_main, get_with,
  get_main,
}
use ledger_kee_pass.Host.Tools.Text.{as_byte, print_hex, new_line}
use ledger_kee_pass.Host.Tools.Hex.{IsHexOf, from_hex_lem, hex_text, print_hex-eq-hex_text}
use ledger_kee_pass.System.Curves.{SameCurve}
use ledger_kee_pass.System.Link.{link}
use ledger_kee_pass.System.FromDevice
use ledger_kee_pass.System.FromDevice.{from_device_whole}
use ledger_kee_pass.System.KeyStore.{Keys, store, open_key, update, store_over, open_held, run}
use ledger_kee_pass.System.KeyStore.Refines.{Shows, Keeps, run-Keeps}

abbrev using : DeviceInfo → List ℕ
using info = codes "Using device '" ++ (name info ++ (codes "'" ++ new_line))

module _ (sdk : Sdk) (doc : IsDocumented sdk) (m : Machine) (info : DeviceInfo)
    (found : get_first_device m ≡ some info) (b : Button) where
  -- Behind its start a tool talks to the application, which shows the same keys.
  started :
      (d : Device) (keys : Keys)
      → Shows sdk d keys
      → (d' : Device) × Shows sdk d' keys
        × ((f : LedgerDevice Device → Device → Tool Device)
            → with_first_kpl (λ _. link sdk b) m f d
              ≡ (let t = f (link sdk b) d' in record t { err = using info ++ t.err }))
  started d keys s = (
    FromDevice.after sdk doc d s.well_formed,
    record { well_formed = FromDevice.after-WellFormed sdk doc d s.well_formed; shown = s.shown },
    λ f.
        unfold with_first_kpl first_kpl use_device go_on is_success in
        simp (found, from_device_whole sdk doc d s.well_formed b) refl,
  )

-- A slot in range is one digit.
slot_digit : (fuel slot : ℕ) → slot < slot_count → to_string (suc fuel) slot ≡ (48 + slot) ∷ []
unfolding to_string
slot_digit fuel slot lt = ground arith

as_byte-atoi : (slot : ℕ) → slot < slot_count → as_byte (atoi ((48 + slot) ∷ [])) ≡ slot
as_byte-atoi slot lt =
    ap (λ t. as_byte (atoi t)) (sym (slot_digit 4 slot lt))
    ∙ ap as_byte (atoi-to_string 5 slot (omega arith))
    ∙ omega arith

consented_store :
    (slot : ℕ) (key : List ℕ) (keys : Keys) (held : Option (List ℕ))
    → store_over true slot key keys held
      ≡ record { result = success; buffer = []; left = update slot key keys }
consented_store slot key keys none = refl
consented_store slot key keys (some old) = refl

-- A tool that ended with this status and this text on `stdout`, over these keys.
pub record Ran (sdk : Sdk) (status : ℕ) (text : List ℕ) (keys : Keys) (t : Tool Device)
    : Type 0 where
  pub status_is : t.status ≡ status
  pub printed : t.out ≡ text
  pub shows : Shows sdk t.device keys

-- A tool that ends behind a method, by the method's result; `said` was written before.
reported-Ran :
    {sdk : Sdk} {res : Result} {keys : Keys} {d : Device} {text' : List ℕ}
    (what end said text : List ℕ)
    → res ≡ success
    → text ≡ text'
    → Shows sdk d keys
    → let t = reported what end res text d in
      Ran sdk 0 text' keys (record t { err = said ++ t.err })
unfolding reported is_success
reported-Ran what end said text e same s = record {
  status_is = rw e refl;
  printed = rw e same;
  shows = rw e s;
}

refused-Ran :
    {sdk : Sdk} {res : Result} {keys : Keys} {d : Device} (what end said text : List ℕ)
    → res ≡ app_unauthorized_access
    → Shows sdk d keys
    → let t = reported what end res text d in Ran sdk 1 [] keys (record t { err = said ++ t.err })
unfolding reported is_success
refused-Ran what end said text e s = record {
  status_is = rw e refl;
  printed = rw e refl;
  shows = rw e s;
}

abbrev pub stored_text : ℕ → List ℕ
stored_text slot = codes "Key set on slot " ++ ((48 + slot) ∷ codes "." ++ new_line)

module _ (sdk : Sdk) (doc : IsDocumented sdk) (sodium : Sodium) (same : SameCurve sdk sodium)
    (m : Machine) (info : DeviceInfo) (found : get_first_device m ≡ some info) (argv0 : List ℕ)
    (slot : ℕ) (lt : slot < slot_count) where
  abbrev user : Button → DeviceInfo → LedgerDevice Device
  user b info = link sdk b

  -- `kpl_set` of a key in hexadecimal digits of either case, confirmed by the user if he is asked
  pub set_main-Ran :
      (junk : ℕ → ℕ → ℕ) (key text : List ℕ) (d : Device) (keys : Keys)
      → length key ≡ key_size
      → IsHexOf key text
      → Shows sdk d keys
      → Ran sdk 0
          (stored_text slot)
          (update slot key keys)
          (set_main (user right_released) m argv0 junk (((48 + slot) ∷ []) ∷ text ∷ []) d)
  unfolding set_main set_with
  set_main-Ran junk key text d keys size hex s =
      let (d', s', starts) = started sdk doc m info found right_released d keys s in
      let k =
        subst (Keeps sdk (run sdk sodium true (store slot key) d'))
          (consented_store slot key keys (keys slot))
          (run-Keeps sdk doc sodium same true (store slot key) d' keys (lt, size) s') in
      rw (starts _, from_hex_lem junk key text hex, as_byte-atoi slot lt)
        (reported-Ran (codes "Unable to set key") (codes ".") (using info) _ k.result_is
          (ap (λ text. codes "Key set on slot " ++ (text ++ (codes "." ++ new_line)))
            (slot_digit 2 slot lt))
          k.shows)

  module _ (own_priv out : List ℕ) (own_size : length own_priv ≡ 32) (out_size : length out ≡ 32)
      (exchanges : (n : ℕ)
        → (secret : List ℕ) × (sodium.scalarmult own_priv (sodium.scalarmult_base (sdk.rng n 32))
            ≡ some secret)) where
    -- `kpl_get` of a slot that holds a key, approved by the user
    pub get_main-Ran :
        (key text : List ℕ) (d : Device) (keys : Keys)
        → IsHexOf key text
        → keys slot ≡ some key
        → Shows sdk d keys
        → Ran sdk 0
            (hex_text key ++ new_line)
            keys
            (get_main sodium (user right_released) m argv0 own_priv out (((48 + slot) ∷ []) ∷ []) d)
    unfolding get_main get_with
    get_main-Ran key text d keys hex held s =
        let (d', s', starts) = started sdk doc m info found right_released d keys s in
        let k =
          subst
            (λ h.
              Keeps sdk (run sdk sodium true (open_key slot own_priv out) d')
                (open_held true out keys h))
            held
            (run-Keeps sdk doc sodium same true (open_key slot own_priv out) d' keys
              (lt, own_size, out_size, exchanges) s') in
        rw (starts _, as_byte-atoi slot lt)
          (reported-Ran (codes "Unable to get key") (codes "!") (using info) _ k.result_is
            (ap (λ out. print_hex out ++ new_line) k.buffer_is
              ∙ ap (λ t. t ++ new_line) (print_hex-eq-hex_text key text hex))
            k.shows)

    -- `kpl_get` of a slot that holds a key, refused by the user
    pub get_main-refused :
        (key : List ℕ) (d : Device) (keys : Keys)
        → keys slot ≡ some key
        → Shows sdk d keys
        → Ran sdk 1 [] keys
            (get_main sodium (user left_released) m argv0 own_priv out (((48 + slot) ∷ []) ∷ []) d)
    unfolding get_main get_with
    get_main-refused key d keys held s =
        let (d', s', starts) = started sdk doc m info found left_released d keys s in
        let k =
          subst
            (λ h.
              Keeps sdk (run sdk sodium false (open_key slot own_priv out) d')
                (open_held false out keys h))
            held
            (run-Keeps sdk doc sodium same false (open_key slot own_priv out) d' keys
              (lt, own_size, out_size, exchanges) s') in
        rw (starts _, as_byte-atoi slot lt)
          (refused-Ran (codes "Unable to get key") (codes "!") (using info) _ k.result_is k.shows)

    -- If a device is found, the application behind it is well-formed and shows the map `keys`,
    -- the SDK and libsodium implement the same X25519 and Blake2b, the tool's private key and its
    -- array for the key are of 32 bytes, libsodium's exchange of that private key with whatever
    -- the application draws succeeds, and the user confirms what he is asked, then `kpl_set` of
    -- the digit of a slot in range and of 64 hexadecimal digits, each in either case, ends with
    -- status 0, prints that the key was set on that digit, and the application shows `keys` with
    -- the key of these digits in that slot; `kpl_get` of the slot behind it prints two digits of
    -- "0123456789ABCDEF" for each byte of that key with status 0 if the user approves, and
    -- nothing on `stdout` with status 1 if he refuses.
    pub get_main-set_main :
        (junk : ℕ → ℕ → ℕ) (key text : List ℕ) (d : Device) (keys : Keys)
        → length key ≡ key_size
        → IsHexOf key text
        → Shows sdk d keys
        → let arg = (48 + slot) ∷ [] in
          let t = set_main (user right_released) m argv0 junk (arg ∷ text ∷ []) d in
          let get_by =
            λ (b : Button). get_main sodium (user b) m argv0 own_priv out (arg ∷ []) t.device in
          let after = update slot key keys in
          Ran sdk 0 (stored_text slot) after t
          × Ran sdk 0 (hex_text key ++ new_line) after (get_by right_released)
          × Ran sdk 1 [] after (get_by left_released)
    get_main-set_main junk key text d keys size hex s =
        let set = set_main-Ran junk key text d keys size hex s in
        let same_slot : (slot == slot) ≡ true = ground arith in
        let held : update slot key keys slot ≡ some key = rw same_slot refl in
        (
          set,
          get_main-Ran key text _ (update slot key keys) hex held set.shows,
          get_main-refused key _ (update slot key keys) held set.shows,
        )
