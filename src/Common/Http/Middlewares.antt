-- ===== src/Common/Http/Middlewares.antt =====
-- common/otel/otel_middlewares.go: the handlers that count requests around the next handler. The
-- instruments of OpenTelemetry are the numbers and lists that are reported to them.
use micro_market.Base.Int.{◌-ℤ◌, ◌+ℤ◌, pos, ℤ}
use micro_market.Base.{ℕ, ◌+◌, ◌-◌, ◌/◌, String, List, [], ◌∷◌, ◌++◌}
use micro_market.Base.Text.{concat, decimal}
use micro_market.Common.Http.{ResponseWriter, Handler, json_middleware}

-- What the instruments were told. `durations` are milliseconds, `responses` the attributes of each
-- count, and `requests` the logged lines.
pub record Meters : Type 0 where
  pub requests : List String
  pub durations : List ℕ
  pub active : ℤ
  pub responses : List (ℕ × String)

abbrev pub no_meters : Meters
no_meters = record { requests = []; durations = []; active = pos 0; responses = [] }

-- `statusResponseWriter`: the writer that it embeds, and the status last written.
pub record StatusResponseWriter (W : Type 0) : Type 0 where
  pub response_writer : W
  pub status : ℕ

-- `WriteHeader` is its own; all else is the embedded writer's.
abbrev pub status_writer :
    {A W : Type 0} → ResponseWriter A W → ResponseWriter A (StatusResponseWriter W)
status_writer o = record {
  set_content_type = λ t w. record w { response_writer = o.set_content_type t w.response_writer };
  write_header = λ status w. record {
    response_writer = o.write_header status w.response_writer;
    status = status;
  };
  encode = λ p w. record w { response_writer = o.encode p w.response_writer };
}

unfoldable pub status_class : ℕ → String
status_class status = concat (decimal (status / 100) ∷ "xx" ∷ [])

-- The state behind the middlewares: the service's, the meters and a clock in nanoseconds, which a
-- handler may move.
pub record Served (S : Type 0) : Type 0 where
  pub state : S
  pub meters : Meters
  pub clock : ℕ

module _ {W S : Type 0} where
  -- `request` is `r.Method` and `r.URL.Path`.
  unfoldable pub log_request : String → Handler W (Served S) → Handler W (Served S)
  log_request request next w s =
      next w
        (record s { meters = record s.meters { requests = s.meters.requests ++ request ∷ [] } })

  unfoldable pub meter_request_duration : Handler W (Served S) → Handler W (Served S)
  meter_request_duration next w s =
      let (w', s') = next w s in
      (
        w',
        record s' {
          meters = record s'.meters {
            durations = s'.meters.durations ++ (s'.clock - s.clock) / 1000000 ∷ [];
          };
        },
      )

  -- The counter goes up, and down again when the handler has returned.
  unfoldable pub meter_request_in_flight : Handler W (Served S) → Handler W (Served S)
  meter_request_in_flight next w s =
      let up : Served S = record s {
        meters = record s.meters { active = s.meters.active +ℤ pos 1 };
      } in
      let (w', s') = next w up in
      (w', record s' { meters = record s'.meters { active = s'.meters.active -ℤ pos 1 } })

  -- The next handler writes to a `statusResponseWriter` around the writer.
  unfoldable pub meter_request_status :
      Handler (StatusResponseWriter W) (Served S) → Handler W (Served S)
  unfolding status_class
  meter_request_status next w s =
      let (srw, s') = next (record { response_writer = w; status = 200 }) s in
      (
        srw.response_writer,
        record s' {
          meters = record s'.meters {
            responses = s'.meters.responses ++ (srw.status, status_class srw.status) ∷ [];
          };
        },
      )

-- `r.Use` of both services, in the order of the calls: the first is the outermost. `otel` is the
-- middleware of `MuxMiddleware`, which starts a span and calls the next handler.
unfoldable pub middlewares :
    {A W S : Type 0}
    → ResponseWriter A W
    → (Handler (StatusResponseWriter W) (Served S) → Handler (StatusResponseWriter W) (Served S))
    → String
    → Handler (StatusResponseWriter W) (Served S)
    → Handler W (Served S)
unfolding json_middleware log_request meter_request_duration meter_request_in_flight
    meter_request_status
middlewares o otel request handler = json_middleware o (
    log_request request
      (meter_request_duration (meter_request_in_flight (meter_request_status (otel handler)))))

-- A handler of the service's state, which does not touch the meters; `took` is the time it takes.
abbrev pub behind : {W S : Type 0} → ℕ → Handler W S → Handler W (Served S)
behind took h w s =
    let (w', s') = h w s.state in (w', record s { state = s'; clock = s.clock + took })
