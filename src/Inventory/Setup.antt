-- ===== src/Inventory/Setup.antt =====
-- inventory-service/main.go, db.go and the connection of checkout_client.go.
pub mod Database
pub mod Outcome
use micro_market.Base.{if◌then◌else◌, String, not, str_eq}
use micro_market.Common.AppError.{other}
use micro_market.Common.Action.{Action, raise, ◌>>=◌, ◌>>◌}
use micro_market.Common.Process.{
  telemetry, database, peer_client, Process, Exit, Closed, Call, is_peer_client, check, ignore,
  on_system, set, or_panic, or_exit, deferred, serve, close, close_pool, TelemetrySystem,
  new_telemetry, close_telemetry,
}

pub data Table : Type 0 where
  product_model order_model : Table

-- What is called to open and close: `os.MkdirAll`, `gorm.Open`, `UseGormPlugin`, `AutoMigrate`,
-- `dbInstance.DB()`, `db.Close`, `grpc.NewClient` and `Close` of the connection, and
-- the telemetry. `client_address` is read from the environment.
pub record System (S : Type 0) : Type 0 where
  pub telemetry_system : TelemetrySystem S
  pub mkdir_all : Call S
  pub open_database : Call S
  pub use_gorm_plugin : Call S
  pub auto_migrate : Table → Call S
  pub sql_db : Call S
  pub close_database : Call S
  pub client_address : String
  pub new_client : String → Call S
  pub close_client : Call S

module _ {S : Type 0} (sys : System S) where
  -- The error of the first migration is overwritten by the second's.
  unfoldable pub init_db : Action (Process S) (Unit {0})
  init_db = do
    check sys.mkdir_all
    check sys.open_database
    set database
    ignore sys.use_gorm_plugin
    ignore (sys.auto_migrate product_model)
    check (sys.auto_migrate order_model)

  unfoldable pub close_db : Process S → Closed × Process S
  close_db = close_pool sys.sql_db sys.close_database

  unfoldable pub init_checkout_client : Action (Process S) (Unit {0})
  init_checkout_client =
      if str_eq sys.client_address ""
      then raise (other "CHECKOUT_SERVICE_ADDRESS is not set")
      else (do check (sys.new_client sys.client_address); set peer_client)

  unfoldable pub close_checkout_client : Process S → Closed × Process S
  close_checkout_client =
      close peer_client is_peer_client
        (other "closing checkout connection: checkout connection not initialized") sys.close_client

  -- `main`, with `RunSeed` as an argument. `LogFatallnf` calls `os.Exit`.
  unfoldable pub main : Action S (Unit {0}) → Process S → Exit × Process S
  unfolding init_db init_checkout_client close_checkout_client close_db new_telemetry
      close_telemetry
  main run_seed = or_panic (new_telemetry sys.telemetry_system >> set telemetry) (
      deferred (close_telemetry sys.telemetry_system) (
        or_panic init_db (
          deferred close_db (
            or_panic init_checkout_client
              (deferred close_checkout_client (or_exit (on_system run_seed) serve))))))
