-- ===== src/Common/Http/Served.antt =====
-- A request that goes through the middlewares of common/otel/otel_middlewares.go.
use micro_market.Base.{◌/◌, ℕ, String, ◌≡◌, refl, ap, none, some, [], ◌∷◌, ◌++◌, arith}
use micro_market.Base.Int.{pos, ◌+ℤ◌, int_laws}
use micro_market.Common.Http.{Payload, Response, new_response, server, Handler}
use micro_market.Common.Http.Middlewares.{
  StatusResponseWriter, status_class, Served, middlewares, behind,
}
use micro_market.Common.Http.Answered.{Fits, IsFresh, IsAnswer}

-- What one request leaves: an answer in JSON, what the service made of its state, and in the
-- meters its line, its time in milliseconds, the status that was sent, and as many requests in
-- flight as before.
pub record IsServed {A S : Type 0} (request : String) (took : ℕ) (state : S) (s s' : Served S)
    (w : Response A) : Type 0 where
  pub status : ℕ
  pub payload : Payload A
  pub content_type : w.content_type ≡ some "application/json"
  pub status_sent : w.status ≡ some status
  pub body_sent : w.body ≡ payload ∷ []
  pub fits : Fits status payload
  pub changed : s'.state ≡ state
  pub logged : s'.meters.requests ≡ s.meters.requests ++ request ∷ []
  pub timed : s'.meters.durations ≡ s.meters.durations ++ took / 1000000 ∷ []
  pub in_flight : s'.meters.active ≡ s.meters.active
  pub counted : s'.meters.responses ≡ s.meters.responses ++ (status, status_class status) ∷ []

-- The writer that the handler is called with.
abbrev pub passed_on : {A : Type 0} → StatusResponseWriter (Response A)
passed_on = record {
  response_writer = record { content_type = some "application/json"; status = none; body = [] };
  status = 200;
}

module _ {A S : Type 0}
    (otel : Handler (StatusResponseWriter (Response A)) (Served S)
      → Handler (StatusResponseWriter (Response A)) (Served S))
    (calls : (h : Handler (StatusResponseWriter (Response A)) (Served S))
        (w : StatusResponseWriter (Response A)) (s : Served S)
      → otel h w s ≡ h w s)
    (h : Handler (StatusResponseWriter (Response A)) S)
    (answers : (w : StatusResponseWriter (Response A)) (s : S)
      → IsFresh w
      → IsAnswer w (h w s).0) where
  pub middlewares-IsServed :
      (request : String) (took : ℕ) (s : Served S)
      → IsServed request took
          (h passed_on s.state).1
          s
          (middlewares server otel request (behind took h) new_response s).1
          (middlewares server otel request (behind took h) new_response s).0
  unfolding middlewares
  middlewares-IsServed request took s =
      let a =
        answers passed_on s.state (record { no_status = refl; no_body = refl; counts_ok = refl }) in
      let inner : Served S = record s {
        meters = record s.meters {
          requests = s.meters.requests ++ request ∷ [];
          active = s.meters.active +ℤ pos 1;
        };
      } in
      let k = calls (behind took h) passed_on inner in
      rw k (record {
        status = (h passed_on s.state).0.status;
        payload = a.payload;
        content_type = a.same_type;
        status_sent = a.status_sent;
        body_sent = a.body_sent;
        fits = a.fits;
        changed = refl;
        logged = refl;
        timed = ap (λ n. s.meters.durations ++ n / 1000000 ∷ []) (omega arith);
        in_flight = omega int_laws;
        counted = refl;
      })
