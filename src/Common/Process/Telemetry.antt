-- ===== src/Common/Process/Telemetry.antt =====
-- How `NewTelemetry` and `Close` of common/otel/otel_telemetry.go leave a process.
use micro_market.Base.{◌≡◌, refl, sym, ap, subst, fun_ext, ◌∙◌, none, [], arith}
use micro_market.Common.Action.{Result, ok, err, Action, ◌>>◌}
use micro_market.Common.Process.{
  telemetry, Process, check, set, TelemetrySystem, new_telemetry, close_telemetry,
}
use micro_market.Common.Process.Ends.{IsAt, Closes, Opening, check_then, set-IsAt}

then_assoc : {S : Type 0} (a b c : Action S (Unit {0})) → (a >> b) >> c ≡ a >> (b >> c)
then_assoc {S = S} a b c = fun_ext (λ s. go s (a s).0 refl)
  where
    go : (s : S) (r : Result (Unit {0})) → (a s).0 ≡ r → ((a >> b) >> c) s ≡ (a >> (b >> c)) s
    go s (ok u) e = ground arith
    go s (err x) e = ground arith

module _ {S : Type 0} (t : TelemetrySystem S) where
  -- `new_telemetry` before the variable is set, in the order of its calls.
  opened_last :
      (p : Process S)
      → (new_telemetry t >> set telemetry) p
        ≡ (check t.new_logger_provider
              >> (check t.new_meter_provider
                  >> (check t.start_runtime >> (check t.new_tracer_provider >> set telemetry))))
            p
  unfolding new_telemetry
  opened_last p =
      ap (λ (m : Action (Process S) (Unit {0})). m p)
        (then_assoc (check t.new_logger_provider)
            (check t.new_meter_provider >> (check t.start_runtime >> check t.new_tracer_provider))
            (set telemetry)
          ∙ ap (λ m. check t.new_logger_provider >> m)
              (then_assoc (check t.new_meter_provider)
                  (check t.start_runtime >> check t.new_tracer_provider) (set telemetry)
                ∙ ap (λ m. check t.new_meter_provider >> m)
                    (then_assoc (check t.start_runtime) (check t.new_tracer_provider)
                      (set telemetry))))

  pub opens_telemetry :
      (p : Process S) → IsAt p [] → Opening telemetry [] ((new_telemetry t >> set telemetry) p)
  opens_telemetry p a = subst (Opening telemetry []) (sym (opened_last p)) (
      check_then telemetry [] t.new_logger_provider
        (check t.new_meter_provider
          >> (check t.start_runtime >> (check t.new_tracer_provider >> set telemetry)))
        p a
        λ q b.
          check_then telemetry [] t.new_meter_provider
            (check t.start_runtime >> (check t.new_tracer_provider >> set telemetry)) q b
            λ q b.
              check_then telemetry [] t.start_runtime (check t.new_tracer_provider >> set telemetry)
                q b
                λ q b.
                  check_then telemetry [] t.new_tracer_provider (set telemetry) q b
                    (set-IsAt telemetry []))

  pub close_telemetry_lem : (q : Process S) → Closes telemetry q (close_telemetry t q)
  unfolding close_telemetry
  close_telemetry_lem q = (none, refl, refl, refl, refl)
