-- ===== src/Collector.antt =====
-- custom-collector/cprocessor/: the processor of the collector that enriches and redacts logs. The
-- maps of attributes of the collector's pdata library are a parameter.
pub mod Redaction
use micro_market.Base.{
  if◌then◌else◌, String, Bool, true, not, Option, none, some, List, map, str_eq,
}
use micro_market.Common.AppError.{Error, other}

pub record Config : Type 0 where
  pub environment : String
  pub add_log_attribute : Bool
  pub redact_user_email : Bool

unfoldable pub validate : Config → Option Error
validate c = if str_eq c.environment "" then some (other "environment must not be empty") else none

abbrev pub create_default_config : Config
create_default_config = record {
  environment = "dev";
  add_log_attribute = true;
  redact_user_email = true;
}

-- `pcommon.Map` and `pcommon.Value`: `Get`, `PutStr`, `PutBool` and the text of a value, which is
-- "" for a value that is no text.
pub record Attributes : Type 1 where
  pub Attrs : Type 0
  pub Value : Type 0
  pub get : String → Attrs → Option Value
  pub put_str : String → String → Attrs → Attrs
  pub put_bool : String → Bool → Attrs → Attrs
  pub str : Value → String

module _ (a : Attributes) where
  -- A record of a log, as far as the processor looks at it; `rest` is all else.
  pub record LogRecord (Rest : Type 0) : Type 0 where
    pub attributes : a.Attrs
    pub rest : Rest

  pub record ResourceLogs (Rest : Type 0) : Type 0 where
    pub resource : a.Attrs
    pub scope_logs : List (List (LogRecord Rest))

  module _ (cfg : Config) where
    -- The two changes of a record's attributes.
    unfoldable pub mark : a.Attrs → a.Attrs
    mark m = if cfg.add_log_attribute then a.put_bool "collector.processed" true m else m

    unfoldable pub redact : a.Attrs → a.Attrs
    redact m =
        if cfg.redact_user_email
        then elim (a.get "user.email" m) [
          | none ↦ m
          | some v ↦ if not (str_eq (a.str v) "") then a.put_str "user.email" "[REDACTED]" m else m
        ]
        else m

  module _ {Rest : Type 0} (cfg : Config) where
    unfoldable pub modify_log : LogRecord Rest → LogRecord Rest
    unfolding mark redact
    modify_log log = record log { attributes = redact cfg (mark cfg log.attributes) }

    unfoldable pub modify_resource : ResourceLogs Rest → ResourceLogs Rest
    unfolding modify_log
    modify_resource rl = record {
      resource =
          if not (str_eq cfg.environment "")
          then a.put_str "deployment.environment" cfg.environment rl.resource
          else rl.resource;
      scope_logs = map (λ logs. map modify_log logs) rl.scope_logs;
    }

    -- `modifyLogs`, which changes its argument in place.
    unfoldable pub modify_logs : List (ResourceLogs Rest) → List (ResourceLogs Rest)
    unfolding modify_resource
    modify_logs ld = map modify_resource ld

    -- `ConsumeLogs`: the next consumer gets the logs that were changed.
    unfoldable pub consume_logs :
        {S : Type 0}
        → (List (ResourceLogs Rest) → S → Option Error × S)
        → List (ResourceLogs Rest)
        → S
        → Option Error × S
    consume_logs next ld s = next (modify_logs ld) s
