-- ===== src/Inventory/Setup/Database.antt =====
-- When `initDB` of inventory-service/db.go returns an error.
use micro_market.Base.{◌≡◌, refl, ◌↔◌, Option, none, some, List, arith}
use micro_market.Common.AppError.{Error}
use micro_market.Common.Action.{ok}
use micro_market.Common.Process.{Resource, Server}
use micro_market.Inventory.Setup.{product_model, order_model, System, init_db}

module _ {S : Type 0} (sys : System S) (s : S) where
  -- The system before each call that is looked at.
  abbrev pub at_open : S
  at_open = (sys.mkdir_all s).1

  abbrev pub at_migration : S
  at_migration = (sys.use_gorm_plugin (sys.open_database at_open).1).1

  abbrev pub at_last_migration : S
  at_last_migration = (sys.auto_migrate product_model at_migration).1

  -- `initDB` returns no error exactly when the directory is made, the database opened, and the
  -- last migration made; what the first migration returned does not matter.
  pub init_db-ok_iff :
      (opened closed : List Resource) (servers : List Server)
      → ((init_db sys
            (record { system = s; opened = opened; closed = closed; servers = servers })).0
          ≡ ok tt)
        ↔ (((sys.mkdir_all s).0 ≡ none)
            × ((sys.open_database at_open).0 ≡ none)
            × ((sys.auto_migrate order_model at_last_migration).0 ≡ none))
  unfolding init_db
  init_db-ok_iff opened closed servers =
      go (sys.mkdir_all s).0 (sys.open_database at_open).0
        (sys.auto_migrate order_model at_last_migration).0 refl refl refl
    where
      go :
          (a b c : Option Error)
          → (sys.mkdir_all s).0 ≡ a
          → (sys.open_database at_open).0 ≡ b
          → (sys.auto_migrate order_model at_last_migration).0 ≡ c
          → ((init_db sys
                (record { system = s; opened = opened; closed = closed; servers = servers })).0
              ≡ ok tt)
            ↔ (((sys.mkdir_all s).0 ≡ none)
                × ((sys.open_database at_open).0 ≡ none)
                × ((sys.auto_migrate order_model at_last_migration).0 ≡ none))
      go none none none f g h = (λ e. (f, g, h), λ k. ground arith)
      go none none (some z) f g h = (λ e. absurd (ground arith), λ k. absurd (ground (arith, k.2)))
      go none (some y) c f g h = (λ e. absurd (ground arith), λ k. absurd (ground (arith, k.1)))
      go (some x) b c f g h = (λ e. absurd (ground arith), λ k. absurd (ground (arith, k.0)))
