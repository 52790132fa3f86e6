-- ===== src/Tests/SetupTests.antt =====
-- The theorems on the start of the services at concrete inputs.
use micro_market.Base.{ℕ, ◌≡◌, refl, ◌↔◌, none, some, [], ◌∷◌}
use micro_market.Common.AppError.{other}
use micro_market.Common.Action.{ok}
use micro_market.Common.Process.{telemetry, Call, TelemetrySystem}
use micro_market.Common.Process.Ends.{Ends}
use micro_market.Inventory.Seed as StoresSeed
use micro_market.Inventory.Setup as Stores
use micro_market.Inventory.Setup.Database
use micro_market.Inventory.Setup.Outcome as StoresOutcome
use micro_market.Checkout.Seed as ShopsSeed
use micro_market.Checkout.Setup as Shops
use micro_market.Checkout.Setup.Outcome as ShopsOutcome
use micro_market.Tests.InventoryTests as StoresTests
use micro_market.Tests.CheckoutTests as ShopsTests

-- A call that goes through, and one that fails.
abbrev works : {S : Type 0} → Call S
works s = (none, s)

abbrev fails : {S : Type 0} → Call S
fails s = (some (other "no such file or directory"), s)

abbrev working : {S : Type 0} → TelemetrySystem S
working = record {
  new_logger_provider = works;
  new_meter_provider = works;
  start_runtime = works;
  new_tracer_provider = works;
  shutdown_logger = works;
  shutdown_meter = works;
  shutdown_tracer = works;
}

abbrev migrates : {S : Type 0} → Stores.Table → Call S
migrates Stores.product_model = fails
migrates Stores.order_model = works

-- The table of the products is not made.
abbrev stores_system : {S : Type 0} → Stores.System S
stores_system = record {
  telemetry_system = working;
  mkdir_all = works;
  open_database = works;
  use_gorm_plugin = works;
  auto_migrate = migrates;
  sql_db = works;
  close_database = works;
  client_address = "checkout:50051";
  new_client = λ address. works;
  close_client = works;
}

init_db-ok_iff_example :
    ((Stores.init_db {S = ℕ} stores_system
        (record { system = 0; opened = telemetry ∷ []; closed = []; servers = [] })).0
      ≡ ok tt)
    ↔ (((works {S = ℕ} 0).0 ≡ none) × ((works {S = ℕ} 0).0 ≡ none) × ((works {S = ℕ} 0).0 ≡ none))
init_db-ok_iff_example = Database.init_db-ok_iff {S = ℕ} stores_system 0 (telemetry ∷ []) [] []

-- No error is returned, though the first migration failed.
init_db_test :
    (Stores.init_db {S = ℕ} stores_system
      (record { system = 0; opened = telemetry ∷ []; closed = []; servers = [] })).0
    ≡ ok tt
init_db_test =
    (Database.init_db-ok_iff {S = ℕ} stores_system 0 (telemetry ∷ []) [] []).1 (refl, refl, refl)

-- Redis does not answer.
abbrev shops_system : {S : Type 0} → Shops.System S
shops_system = record {
  telemetry_system = working;
  mkdir_all = works;
  open_database = works;
  use_gorm_plugin = works;
  auto_migrate = λ table. works;
  sql_db = works;
  close_database = works;
  ping = fails;
  use_redis_plugin = works;
  close_redis_client = works;
  client_address = "inventory:50051";
  new_client = λ address. works;
  close_client = works;
}
