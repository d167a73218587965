-- ===== src/System/KeyStore/Refines.antt =====
-- The library (libkpl/src/kpl.cpp) over the application (app/src) keeps the promise of a key store.
use ledger_kee_pass.Base.{
  ℕ, ◌<◌, ◌≡◌, refl, ◌∙◌, ap, ap₂, Bool, true, false, Option, some, none, List, [], ◌∷◌, ◌==◌,
  if◌then◌else◌, length, ltb, arith,
}
use ledger_kee_pass.App.Consts.{slot_count, key_size}
use ledger_kee_pass.App.Sdk.{Sdk, IsDocumented}
use ledger_kee_pass.App.Storage.View.{view, view-eq-some, view-eq-none}
use ledger_kee_pass.App.Device.{Device}
use ledger_kee_pass.App.Device.WellFormed.{WellFormed}
use ledger_kee_pass.Host.Sodium.{Sodium}
use ledger_kee_pass.System.Curves.{SameCurve}
use ledger_kee_pass.System.Immediate.{set_key_lem}
use ledger_kee_pass.System.SetGet.{after, after-WellFormed, after_shows}
use ledger_kee_pass.System.Overwrite.{set_key_full}
use ledger_kee_pass.System.RoundTrip.{get_key_whole, length-own_pub}
use ledger_kee_pass.System.Refused.{get_key-refused_whole}
use ledger_kee_pass.System.EmptySlot.{get_key-empty_whole}
use ledger_kee_pass.System.Erase.{erase_all_slots-link}
use ledger_kee_pass.App.Storage.{Storage, is_key_valid, key_at}
use ledger_kee_pass.Host.Kpl.ValidSlots.{slots_loop-eq-slots_where, slots_where-eq}
use ledger_kee_pass.System.Immediate.{get_valid_key_slots_whole, slots_after-WellFormed}
use ledger_kee_pass.System.FromDevice
use ledger_kee_pass.System.FromDevice.{from_device_whole}
use ledger_kee_pass.System.FromName.{approved, refused}
use ledger_kee_pass.System.KeyStore.{
  connect, list, derive, key_of_name, is_some, Keys, Command, store, open_key, erase, Effect,
  update, store_over, open_held, promised, button_of, run, IsProper, run_all, AllProper,
  promised_all,
}

-- A well-formed application whose slots show these keys.
pub record Shows (sdk : Sdk) (d : Device) (keys : Keys) : Type 0 where
  pub well_formed : WellFormed sdk d
  pub shown : (j : ℕ) → view d.nv j ≡ keys j

-- One command as it is run, against one that is promised.
pub record Keeps (sdk : Sdk) (e : Effect Device) (p : Effect Keys) : Type 0 where
  pub result_is : e.result ≡ p.result
  pub buffer_is : e.buffer ≡ p.buffer
  pub shows : Shows sdk e.left p.left

is_some-if : (b : Bool) (key : List ℕ) → b ≡ is_some (if b then some key else none)
is_some-if true key = refl
is_some-if false key = refl

-- A slot in range is valid exactly if it shows a key.
is_key_valid-is_some :
    (st : Storage) (j : ℕ) → j < slot_count → is_key_valid st j ≡ is_some (view st j)
unfolding view
is_key_valid-is_some st j lt =
    let in_range : ltb j slot_count ≡ true = ground arith in
    rw in_range (is_some-if (is_key_valid st j) (key_at st j).bytes)

module _ (sdk : Sdk) (doc : IsDocumented sdk) (sodium : Sodium) (same : SameCurve sdk sodium) where
  update_shown :
      (d : Device) (keys : Keys) (slot : ℕ) (key : List ℕ) (d' : Device)
      → Shows sdk d keys
      → WellFormed sdk d'
      → ((j : ℕ) → view d'.nv j ≡ (if slot == j then some key else view d.nv j))
      → Shows sdk d' (update slot key keys)
  update_shown d keys slot key d' s wf stored = record {
    well_formed = wf;
    shown = λ j. stored j ∙ ap (λ k. if slot == j then some key else k) (s.shown j);
  }

  kept_shown :
      (d : Device) (keys : Keys) (d' : Device)
      → Shows sdk d keys
      → WellFormed sdk d'
      → d'.nv ≡ d.nv
      → Shows sdk d' keys
  kept_shown d keys d' s wf kept = record {
    well_formed = wf;
    shown = λ j. ap (λ st. view st j) kept ∙ s.shown j;
  }

  store-Keeps :
      (consents : Bool) (slot : ℕ) (key : List ℕ) (d : Device) (keys : Keys)
      → slot < slot_count
      → length key ≡ key_size
      → Shows sdk d keys
      → (held : Option (List ℕ)) → view d.nv slot ≡ held
      → Keeps sdk
          (run sdk sodium consents (store slot key) d)
          (store_over consents slot key keys held)
  store-Keeps consents slot key d keys lt size s none e =
      let empty = view-eq-none d.nv slot lt e in
      rw (set_key_lem sdk doc d s.well_formed slot key lt size empty (button_of consents)) (record {
        result_is = refl;
        buffer_is = refl;
        shows =
            update_shown d keys slot key (after sdk doc d s.well_formed slot key lt size empty) s
              (after-WellFormed sdk doc d s.well_formed slot key lt size empty)
              (after_shows sdk doc d s.well_formed slot key lt size empty);
      })
  store-Keeps true slot key d keys lt size s (some old) e =
      let (_, valid, _) = view-eq-some d.nv slot e in
      let (r, stored, wf) = (set_key_full sdk doc d s.well_formed slot key lt size valid).0 in
      record { result_is = r; buffer_is = refl; shows = update_shown d keys slot key _ s wf stored }
  store-Keeps false slot key d keys lt size s (some old) e =
      let (_, valid, _) = view-eq-some d.nv slot e in
      let (r, kept, wf) = (set_key_full sdk doc d s.well_formed slot key lt size valid).1 in
      record { result_is = r; buffer_is = refl; shows = kept_shown d keys _ s wf kept }

  open_key-Keeps :
      (consents : Bool) (slot : ℕ) (own_priv out : List ℕ) (d : Device) (keys : Keys)
      → IsProper sdk sodium (open_key slot own_priv out)
      → Shows sdk d keys
      → (held : Option (List ℕ)) → view d.nv slot ≡ held
      → Keeps sdk
          (run sdk sodium consents (open_key slot own_priv out) d)
          (open_held consents out keys held)
  open_key-Keeps consents slot own_priv out d keys (lt, ho, hout, exchanges) s none e =
      let (d', whole, (wf, kept)) =
        get_key-empty_whole sdk doc d s.well_formed slot lt (view-eq-none d.nv slot lt e) sodium
          (button_of consents) own_priv out (length-own_pub sdk doc sodium same own_priv ho) hout in
      rw whole
        (record { result_is = refl; buffer_is = refl; shows = kept_shown d keys d' s wf kept })
  open_key-Keeps true slot own_priv out d keys (lt, ho, hout, exchanges) s (some key) e =
      let (d', whole, (wf, kept)) =
        get_key_whole sdk doc sodium same d slot key own_priv out s.well_formed e ho hout
          (exchanges d.draws).1 in
      rw whole
        (record { result_is = refl; buffer_is = refl; shows = kept_shown d keys d' s wf kept })
  open_key-Keeps false slot own_priv out d keys (lt, ho, hout, exchanges) s (some key) e =
      let (d', whole, (wf, kept)) =
        get_key-refused_whole sdk doc sodium d slot key own_priv out s.well_formed e
          (length-own_pub sdk doc sodium same own_priv ho) hout in
      rw whole
        (record { result_is = refl; buffer_is = refl; shows = kept_shown d keys d' s wf kept })

  connect-Keeps :
      (consents : Bool) (d : Device) (keys : Keys)
      → Shows sdk d keys
      → Keeps sdk
          (run sdk sodium consents connect d)
          (promised (key_of_name sdk) consents connect keys)
  connect-Keeps consents d keys s =
      rw (from_device_whole sdk doc d s.well_formed (button_of consents) _) (record {
        result_is = refl;
        buffer_is = refl;
        shows = record {
          well_formed = FromDevice.after-WellFormed sdk doc d s.well_formed;
          shown = s.shown;
        };
      })

  list-Keeps :
      (consents : Bool) (d : Device) (keys : Keys)
      → Shows sdk d keys
      → Keeps sdk (run sdk sodium consents list d) (promised (key_of_name sdk) consents list keys)
  list-Keeps consents d keys s =
      rw (get_valid_key_slots_whole sdk doc d s.well_formed (button_of consents)) (record {
        result_is = refl;
        buffer_is =
            slots_loop-eq-slots_where d.nv s.well_formed.storage.valids_byte
            ∙ slots_where-eq slot_count 0 (is_key_valid d.nv) _
                (λ j lt. is_key_valid-is_some d.nv j lt ∙ ap is_some (s.shown j));
        shows = record {
          well_formed = slots_after-WellFormed sdk doc d s.well_formed;
          shown = s.shown;
        };
      })

  derive-Keeps :
      (consents : Bool) (name own_priv out : List ℕ) (d : Device) (keys : Keys)
      → IsProper sdk sodium (derive name own_priv out)
      → Shows sdk d keys
      → Keeps sdk
          (run sdk sodium consents (derive name own_priv out) d)
          (promised (key_of_name sdk) consents (derive name own_priv out) keys)
  derive-Keeps true name own_priv out d keys
        ((some_name, short, printable), (priv, chain, derives), ho, hout, exchanges) s =
      let (e, whole, (wf, kept)) =
        approved sdk doc d s.well_formed name some_name short printable sodium same own_priv out ho
          hout derives (exchanges d.draws).1 in
      rw (whole, derives)
        (record { result_is = refl; buffer_is = refl; shows = kept_shown d keys e s wf kept })
  derive-Keeps false name own_priv out d keys
        ((some_name, short, printable), derives, ho, hout, exchanges) s =
      let (e, whole, (wf, kept)) =
        refused sdk doc d s.well_formed name some_name short printable sodium same own_priv out ho
          hout in
      rw whole
        (record { result_is = refl; buffer_is = refl; shows = kept_shown d keys e s wf kept })

  pub run-Keeps :
      (consents : Bool) (c : Command) (d : Device) (keys : Keys)
      → IsProper sdk sodium c
      → Shows sdk d keys
      → Keeps sdk (run sdk sodium consents c d) (promised (key_of_name sdk) consents c keys)
  run-Keeps consents connect d keys proper s = connect-Keeps consents d keys s
  run-Keeps consents list d keys proper s = list-Keeps consents d keys s
  run-Keeps consents (derive name own_priv out) d keys proper s =
      derive-Keeps consents name own_priv out d keys proper s
  run-Keeps consents (store slot key) d keys (lt, size) s =
      store-Keeps consents slot key d keys lt size s (keys slot) (s.shown slot)
  run-Keeps consents (open_key slot own_priv out) d keys proper s =
      open_key-Keeps consents slot own_priv out d keys proper s (keys slot) (s.shown slot)
  run-Keeps true erase d keys proper s =
      let (r, empty, wf) = (erase_all_slots-link sdk doc d s.well_formed).0 in
      record { result_is = r; buffer_is = refl; shows = record { well_formed = wf; shown = empty } }
  run-Keeps false erase d keys proper s =
      let (r, kept, wf) = (erase_all_slots-link sdk doc d s.well_formed).1 in
      record { result_is = r; buffer_is = refl; shows = kept_shown d keys _ s wf kept }

  -- If the SDK and libsodium implement the same X25519 and Blake2b, then for any row of calls of
  -- the library (`fromDevice`, `getValidKeySlots`, `setKey`, `getKey`, `getKeyFromName`,
  -- `eraseAllSlots`) whose slots are in range, whose names are printable, of 1 to 20 bytes and
  -- have a key that the SDK derives, whose keys, private keys and buffers are of 32 bytes and
  -- whose exchange with whatever the application draws succeeds, each with the user's yes or no,
  -- over a well-formed application, the results and buffers of all of them are those that the map
  -- from slots to keys promises, and the application shows the map that is left.
  pub run_all-refines :
      (cs : List (Bool × Command)) (d : Device) (keys : Keys)
      → AllProper sdk sodium cs
      → Shows sdk d keys
      → ((run_all sdk sodium cs d).0 ≡ (promised_all (key_of_name sdk) cs keys).0)
        × Shows sdk (run_all sdk sodium cs d).1 (promised_all (key_of_name sdk) cs keys).1
  unfolding run_all promised_all
  run_all-refines [] d keys proper s = (refl, s)
  run_all-refines ((consents, c) ∷ cs) d keys (proper, rest) s =
      let k = run-Keeps consents c d keys proper s in
      let (replies, shows) =
        run_all-refines cs (run sdk sodium consents c d).left
          (promised (key_of_name sdk) consents c keys).left rest k.shows in
      (ap₂ ◌∷◌ (ap₂ (λ r b. (r, b)) k.result_is k.buffer_is) replies, shows)
