-- ===== src/App/Loop/Runs.antt =====
-- How `main` (app/src/main.c) ends, and what it keeps while the user does not consent.
use ledger_kee_pass.Base.{◌≡◌, refl, List, [], ◌∷◌, inl, inr, ◌⊎◌}
use ledger_kee_pass.App.Sdk.{Sdk, IsDocumented}
use ledger_kee_pass.App.Storage.{Storage}
use ledger_kee_pass.App.Device.{Device}
use ledger_kee_pass.App.Menu.{MenuStep, Flow}
use ledger_kee_pass.App.Menu.Pushes.{KeysKept}
use ledger_kee_pass.App.Session.{Inv}
use ledger_kee_pass.App.Loop.{Event, Running, running, exited, quit, crashed, happens, main_loop}
use ledger_kee_pass.App.Loop.Kept.{
  IsWord, Consents, Quits, Each, Somewhere, Goes, Goes-map, event-Goes,
}

module _ (sdk : Sdk) (doc : IsDocumented sdk) (flow : Flow) where
  -- A loop that the user has quit changes nothing more.
  main_loop-quit : (evs : List Event) (d : Device) → main_loop sdk flow evs (quit d) ≡ quit d
  unfolding main_loop
  main_loop-quit [] d = refl
  main_loop-quit (ev ∷ evs) d = refl

  -- `main` ends only by the menu from a good state.
  pub main_loop-Goes :
      (evs : List Event) (step : MenuStep) (d : Device)
      → Each IsWord evs
      → Inv sdk d
      → Goes sdk
          (λ _. Unit {0})
          (Somewhere (Quits flow) evs)
          (main_loop sdk flow evs (running step d))
  unfolding main_loop
  main_loop-Goes [] step d w inv = (inv, tt)
  main_loop-Goes (ev ∷ evs) step d w inv =
      onward (happens sdk flow ev step d) (event-Goes sdk doc flow ev step d w.0 inv)
        (λ next t inv_t. main_loop-Goes evs next t w.1 inv_t)
    where
      onward :
          (m : Running)
          → Goes sdk (λ t. Consents ev ⊎ KeysKept d t) (Quits flow ev) m
          → ((next : MenuStep) (t : Device)
              → Inv sdk t
              → Goes sdk
                  (λ _. Unit {0})
                  (Somewhere (Quits flow) evs)
                  (main_loop sdk flow evs (running next t)))
          → Goes sdk (λ _. Unit {0}) (Somewhere (Quits flow) (ev ∷ evs)) (main_loop sdk flow evs m)
      onward (running next t) g rest =
          Goes-map sdk _ _ _ _ (main_loop sdk flow evs (running next t)) (λ u k. k) (λ q. inr q)
            (rest next t g.0)
      onward exited g rest = absurd g
      onward (quit t) ((inv_t, _), q) rest = rw (main_loop-quit evs t) ((inv_t, tt), inl q)
      onward crashed g rest = absurd g
