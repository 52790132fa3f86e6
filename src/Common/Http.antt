-- ===== src/Common/Http.antt =====
-- common/utils.go and common/json_middleware.go: what a handler does to a `http.ResponseWriter`,
-- the answer to an error, and the small helpers.
pub mod Answered
pub mod Middlewares
pub mod Served
use micro_market.Base.Strconv.{Parsed, range_error}
use micro_market.Base.Text.{concat}
use micro_market.Common.StatusCode
use micro_market.Base.{
  ℕ, Bool, String, Option, none, some, List, [], ◌∷◌, ◌++◌, str_eq, if◌then◌else◌,
}
use micro_market.Common.AppError.{other, Error, as_app_error}
use micro_market.Common.Action.{Result, ok, err}

-- What `json.Encode` writes: the payload of an error or a value.
pub data Payload (A : Type 0) : Type 0 where
  failure : (error : String) (timestamp : String) (status_code : ℕ) → Payload A
  success : A → Payload A

-- The interface `http.ResponseWriter`, as far as the code calls it: `w.Header().Set` of the
-- content type, `w.WriteHeader`, and the write of `json.NewEncoder(w).Encode`.
pub record ResponseWriter (A W : Type 0) : Type 0 where
  pub set_content_type : String → W → W
  pub write_header : ℕ → W → W
  pub encode : Payload A → W → W

-- The response of a net/http server: `status` is `none` until the header is written. The first
-- `WriteHeader` counts, a later one is ignored, and a write to the body writes status 200 first.
pub record Response (A : Type 0) : Type 0 where
  pub content_type : Option String
  pub status : Option ℕ
  pub body : List (Payload A)

abbrev pub new_response : {A : Type 0} → Response A
new_response = record { content_type = none; status = none; body = [] }

abbrev pub write_header : {A : Type 0} → ℕ → Response A → Response A
write_header code w = elim w.status [ none ↦ record w { status = some code } | some _ ↦ w ]

abbrev pub server : {A : Type 0} → ResponseWriter A (Response A)
server = record {
  set_content_type = λ t w. record w { content_type = some t };
  write_header = write_header;
  encode = λ p w. let w' = write_header 200 w in record w' { body = w'.body ++ p ∷ [] };
}

-- What the handlers read of a request: the variable `id` of its path, and its body.
pub record Request : Type 0 where
  pub id : String
  pub body : String

-- A handler, and a state that it changes.
abbrev pub Handler : Type 0 → Type 0 → Type 0
Handler W S = W → S → W × S

unfoldable pub bool_ptr : Bool → Option Bool
bool_ptr b = some b

unfoldable pub ptr : {A : Type 0} → A → Option A
ptr a = some a

-- `EnvOrDef`, over `os.Getenv`, which is "" for a variable that is not set.
unfoldable pub env_or_def : (String → String) → String → String → String
env_or_def getenv env default_value =
    let value = getenv env in if str_eq value "" then default_value else value

-- `SendJsonError`. `text` is `err.Error()`, and `ts` is the formatted time.
module _ {A W : Type 0} (o : ResponseWriter A W) where
  unfoldable pub send_json_error : (Error → String) → String → ℕ → Error → W → W
  send_json_error text ts status e w = elim (as_app_error e) [
    | none ↦ o.encode (failure (text e) ts status) (o.write_header status w)
    | some a ↦ o.encode (failure a.message ts a.code) (o.write_header a.code w)
  ]

  -- `JSONMiddleware`: sets the content type, then runs the next handler.
  unfoldable pub json_middleware : {S : Type 0} → Handler W S → Handler W S
  json_middleware next w s = next (o.set_content_type "application/json" w) s

  -- What the handlers end with: the value, or the error with status 500 where it has none.
  unfoldable pub respond : {B : Type 0} → (Error → String) → String → (B → A) → Result B → W → W
  unfolding send_json_error
  respond text ts content (ok b) w = o.encode (success (content b)) w
  respond text ts content (err e) w = send_json_error text ts StatusCode.internal_server_error e w

abbrev pub reason : Parsed → String
reason range_error = "value out of range"
reason _ = "invalid syntax"

-- The error of `strconv.ParseUint(s, 10, 64)`, if it has one; `quote` is `strconv.Quote`.
unfoldable pub num_error : (String → String) → String → Parsed → Error
num_error quote s p =
    other (concat ("strconv.ParseUint: parsing " ∷ quote s ∷ ": " ∷ reason p ∷ []))
