-- ===== src/Inventory/Setup/Outcome.antt =====
-- How `main` of inventory-service/main.go ends.
use micro_market.Base.{◌≡◌, none, List, [], ◌∷◌}
use micro_market.Common.Action.{Action}
use micro_market.Common.Process.{
  Resource, telemetry, database, peer_client, Process, Exit, on_system, or_panic, or_exit, deferred,
  serve,
}
use micro_market.Common.Process.Ends.{Ends, IsAt}
use micro_market.Inventory.Setup.{
  System, init_db, close_db, init_checkout_client, close_checkout_client,
}

abbrev pub all_opened : List Resource
all_opened = peer_client ∷ database ∷ telemetry ∷ []

-- An exit leaves everything open.
abbrev pub NothingClosed : List Resource → List Resource → Type 0
NothingClosed opened closed = (opened ≡ all_opened) × (closed ≡ [])

module _ {S : Type 0} (sys : System S) (run_seed : Action S (Unit {0}))
    (pooled : (s : S) → (sys.sql_db s).0 ≡ none) where
  abbrev Phase : List Resource → (Process S → Exit × Process S) → Type 0
  Phase below next = (p : Process S) → IsAt p below → Ends all_opened below NothingClosed (next p)

  -- The phases of `main`, from the last to the second.
  abbrev seed_phase : Process S → Exit × Process S
  seed_phase = or_exit (on_system run_seed) serve

  client_phase : Process S → Exit × Process S
  client_phase =
      or_panic (init_checkout_client sys) (deferred (close_checkout_client sys) seed_phase)

  database_phase : Process S → Exit × Process S
  unfolding client_phase
  database_phase = or_panic (init_db sys) (deferred (close_db sys) client_phase)
