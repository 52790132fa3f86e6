-- ===== src/Common/Process.antt =====
-- The process of a service: what `main` opens, closes and starts, the `defer` of Go, and what the
-- two `main` functions share (common/otel/otel_telemetry.go).
pub mod Ends
pub mod Telemetry
use micro_market.Base.{
  if◌then◌else◌, Bool, true, false, not, ◌||◌, Option, none, some, List, [], ◌∷◌, ◌++◌,
}
use micro_market.Common.AppError.{Error, other}
use micro_market.Common.Action.{ok, err, Action, ◌>>=◌, ◌>>◌}

pub data Resource : Type 0 where
  telemetry database redis peer_client : Resource

pub data Server : Type 0 where
  grpc_server http_server : Server

-- `opened` are the package variables that were set, the last one first; `closed` those whose
-- `Close` was called, in that order.
pub record Process (S : Type 0) : Type 0 where
  pub system : S
  pub opened : List Resource
  pub closed : List Resource
  pub servers : List Server

-- How `main` ends, if it does: it serves for ever, panics, or calls `os.Exit`.
pub data Exit : Type 0 where
  serving : Exit
  panicked : Error → Exit
  exited : Error → Exit

-- What a deferred call does: it returns, with an error or without, or it calls `os.Exit`.
pub data Closed : Type 0 where
  returned : Option Error → Closed
  fatal : Error → Closed

-- A call that returns an `error`.
abbrev pub Call : Type 0 → Type 0
Call S = S → Option Error × S

abbrev pub is_telemetry : Resource → Bool
is_telemetry telemetry = true
is_telemetry _ = false

abbrev pub is_database : Resource → Bool
is_database database = true
is_database _ = false

abbrev pub is_redis : Resource → Bool
is_redis redis = true
is_redis _ = false

abbrev pub is_peer_client : Resource → Bool
is_peer_client peer_client = true
is_peer_client _ = false

abbrev pub any : (Resource → Bool) → List Resource → Bool
any p [] = false
any p (r ∷ rs) = p r || any p rs

module _ {S : Type 0} where
  -- A call whose error is returned, one whose error is dropped, and an action of the system.
  abbrev pub check : Call S → Action (Process S) (Unit {0})
  check f p =
      let (e, s) = f p.system in (elim e [ none ↦ ok tt | some x ↦ err x ], record p { system = s })

  abbrev pub ignore : Call S → Action (Process S) (Unit {0})
  ignore f p = let (e, s) = f p.system in (ok tt, record p { system = s })

  abbrev pub on_system : {A : Type 0} → Action S A → Action (Process S) A
  on_system m p = let (r, s) = m p.system in (r, record p { system = s })

  abbrev pub set : Resource → Action (Process S) (Unit {0})
  set r p = (ok tt, record p { opened = r ∷ p.opened })

  -- What follows a call: a panic or an exit where it returned an error.
  abbrev pub or_panic :
      Action (Process S) (Unit {0}) → (Process S → Exit × Process S) → Process S → Exit × Process S
  or_panic m next p = let (r, p') = m p in elim r [ ok u ↦ next p' | err e ↦ (panicked e, p') ]

  abbrev pub or_exit :
      Action (Process S) (Unit {0}) → (Process S → Exit × Process S) → Process S → Exit × Process S
  or_exit m next p = let (r, p') = m p in elim r [ ok u ↦ next p' | err e ↦ (exited e, p') ]

  -- `defer`: a panic runs the deferred call, and `os.Exit` does not. Its error is dropped.
  abbrev pub deferred :
      (Process S → Closed × Process S)
      → (Process S → Exit × Process S)
      → Process S
      → Exit × Process S
  deferred close next p =
      let (x, p') = next p in
      elim x [
        | serving ↦ (serving, p')
        | panicked e ↦
            let (c, p'') = close p' in
            elim c [ returned r ↦ (panicked e, p'') | fatal f ↦ (exited f, p'') ]
        | exited e ↦ (exited e, p')
      ]

  -- `go initGRPCServer()`, `go initHTTPServer()` and `select {}`.
  abbrev pub serve : Process S → Exit × Process S
  serve p = (serving, record p { servers = p.servers ++ grpc_server ∷ http_server ∷ [] })

  -- `Close` of a resource, which is an error before it is opened.
  abbrev pub close : Resource → (Resource → Bool) → Error → Call S → Process S → Closed × Process S
  close r is unset f p =
      let (e, s) = f p.system in
      if any is p.opened
      then (returned e, record p { system = s; closed = p.closed ++ r ∷ [] })
      else (returned (some unset), p)

  -- `closeDB` of both services: `dbInstance.DB()`, whose error is fatal, then `db.Close()`.
  abbrev pub close_pool : Call S → Call S → Process S → Closed × Process S
  close_pool sql_db close_database p =
      let (e, s) = sql_db p.system in
      if any is_database p.opened
      then elim e [
        | some x ↦ (fatal x, record p { system = s })
        | none ↦
            close database is_database (other "database not initialized") close_database
              (record p { system = s })
      ]
      else (returned (some (other "database not initialized")), p)

-- What `NewTelemetry` and `Close` call: the providers, each with an exporter, the runtime's
-- instrumentation, and their shutdowns.
pub record TelemetrySystem (S : Type 0) : Type 0 where
  pub new_logger_provider : Call S
  pub new_meter_provider : Call S
  pub start_runtime : Call S
  pub new_tracer_provider : Call S
  pub shutdown_logger : Call S
  pub shutdown_meter : Call S
  pub shutdown_tracer : Call S

module _ {S : Type 0} (t : TelemetrySystem S) where
  -- `NewTelemetry`; the caller sets the variable.
  unfoldable pub new_telemetry : Action (Process S) (Unit {0})
  new_telemetry = do
    check t.new_logger_provider
    check t.new_meter_provider
    check t.start_runtime
    check t.new_tracer_provider

  -- `Telemetry.Close`, whose calls' errors are dropped.
  unfoldable pub close_telemetry : Process S → Closed × Process S
  close_telemetry p =
      let (r, p') =
        (do ignore t.shutdown_logger; ignore t.shutdown_meter; ignore t.shutdown_tracer)
          (record p { closed = p.closed ++ telemetry ∷ [] }) in
      (returned none, p')
