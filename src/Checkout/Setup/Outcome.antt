-- ===== src/Checkout/Setup/Outcome.antt =====
-- How `main` of checkout-service/main.go ends.
use micro_market.Base.{◌≡◌, false, none, List, [], ◌∷◌}
use micro_market.Common.Action.{Action}
use micro_market.Common.Process.{
  Resource, telemetry, database, redis, peer_client, Process, Exit, is_database, any, on_system,
  or_panic, deferred, serve,
}
use micro_market.Common.Process.Ends.{Ends, IsAt}
use micro_market.Checkout.Setup.{
  System, init_db, close_db, init_redis_db, close_redis_db, init_inventory_client,
  close_inventory_client,
}

abbrev pub all_opened : List Resource
all_opened = peer_client ∷ redis ∷ database ∷ telemetry ∷ []

-- An exit leaves no database open.
abbrev pub NoDatabase : List Resource → List Resource → Type 0
NoDatabase opened closed = (any is_database opened ≡ false) × (closed ≡ [])

module _ {S : Type 0} (sys : System S) (run_seed : Action S (Unit {0}))
    (pooled : (s : S) → (sys.sql_db s).0 ≡ none) where
  abbrev Phase : List Resource → (Process S → Exit × Process S) → Type 0
  Phase below next = (p : Process S) → IsAt p below → Ends all_opened below NoDatabase (next p)

  -- The phases of `main`, from the last to the second.
  abbrev seed_phase : Process S → Exit × Process S
  seed_phase = or_panic (on_system run_seed) serve

  client_phase : Process S → Exit × Process S
  client_phase =
      or_panic (init_inventory_client sys) (deferred (close_inventory_client sys) seed_phase)

  redis_phase : Process S → Exit × Process S
  unfolding client_phase
  redis_phase = or_panic (init_redis_db sys) (deferred (close_redis_db sys) client_phase)

  database_phase : Process S → Exit × Process S
  unfolding redis_phase
  database_phase = or_panic (init_db sys) (deferred (close_db sys) redis_phase)
