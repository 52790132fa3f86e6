-- ===== src/Common/Http/Answered.antt =====
-- One complete answer: a status, and one payload that fits it, by a handler behind
-- `MeterRequestStatus`.
use micro_market.Base.{ℕ, String, ◌≡◌, refl, Option, none, some, [], ◌∷◌, arith}
use micro_market.Common.AppError.{AppError, Error, as_app_error}
use micro_market.Common.Action.{Result, ok, err}
use micro_market.Common.StatusCode
use micro_market.Common.Http.{Payload, failure, success, Response, server, send_json_error, respond}
use micro_market.Common.Http.Middlewares.{StatusResponseWriter, status_writer}

-- The payload says the status that was sent, and a value is sent with 200.
abbrev pub Fits : {A : Type 0} → ℕ → Payload A → Type 0
Fits status (failure e ts code) = code ≡ status
Fits status (success a) = status ≡ 200

-- The writer that `MeterRequestStatus` passes on, before anything is written.
pub record IsFresh {A : Type 0} (w : StatusResponseWriter (Response A)) : Type 0 where
  pub no_status : w.response_writer.status ≡ none
  pub no_body : w.response_writer.body ≡ []
  pub counts_ok : w.status ≡ 200

-- The header was written once, one payload was written that fits it, and the wrapper has seen the
-- status.
pub record IsAnswer {A : Type 0} (w w' : StatusResponseWriter (Response A)) : Type 0 where
  pub payload : Payload A
  pub status_sent : w'.response_writer.status ≡ some w'.status
  pub body_sent : w'.response_writer.body ≡ payload ∷ []
  pub fits : Fits w'.status payload
  pub same_type : w'.response_writer.content_type ≡ w.response_writer.content_type

module _ {A : Type 0} (text : Error → String) (ts : String) where
  pub send_json_error-IsAnswer :
      (status : ℕ) (e : Error) (w : StatusResponseWriter (Response A))
      → IsFresh w
      → IsAnswer w (send_json_error (status_writer server) text ts status e w)
  unfolding send_json_error
  send_json_error-IsAnswer status e w f = go (as_app_error e) refl
    where
      go :
          (o : Option AppError)
          → as_app_error e ≡ o
          → IsAnswer w (send_json_error (status_writer server) text ts status e w)
      go (some a) k = record {
        payload = failure a.message ts a.code;
        status_sent = ground (arith, f.no_status);
        body_sent = ground (arith, f.no_status, f.no_body);
        fits = ground arith;
        same_type = ground (arith, f.no_status);
      }
      go none k = record {
        payload = failure (text e) ts status;
        status_sent = ground (arith, f.no_status);
        body_sent = ground (arith, f.no_status, f.no_body);
        fits = ground arith;
        same_type = ground (arith, f.no_status);
      }

  pub encode-IsAnswer :
      (a : A) (w : StatusResponseWriter (Response A))
      → IsFresh w
      → IsAnswer w ((status_writer server).encode (success a) w)
  encode-IsAnswer a w f = record {
    payload = success a;
    status_sent = ground (arith, f.no_status, f.counts_ok);
    body_sent = ground (arith, f.no_status, f.no_body);
    fits = f.counts_ok;
    same_type = ground (arith, f.no_status);
  }

  pub respond-IsAnswer :
      {B : Type 0} (content : B → A) (r : Result B) (w : StatusResponseWriter (Response A))
      → IsFresh w
      → IsAnswer w (respond (status_writer server) text ts content r w)
  unfolding respond
  respond-IsAnswer content (ok b) w f = encode-IsAnswer (content b) w f
  respond-IsAnswer content (err e) w f =
      send_json_error-IsAnswer StatusCode.internal_server_error e w f
