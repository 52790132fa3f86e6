-- ===== src/Common/AppError.antt =====
-- common/app_error.go: the error type of the services, and the values that an `error` of the
-- services can be, as far as the code tells them apart.
use micro_market.Common.StatusCode
use micro_market.Base.{ℕ, ◌==◌, ◌||◌, Bool, true, false, String, Option, none, some, if◌then◌else◌}

-- The constants of google.golang.org/grpc/codes that the code names.
pub data Code : Type 0 where
  unknown invalid_argument not_found internal : Code
  failed_precondition resource_exhausted deadline_exceeded unavailable : Code

-- `*status.Status`; an error made from it is `Error.rpc`.
pub record Status : Type 0 where
  pub code : Code
  pub message : String

pub record AppError : Type 0 where
  pub code : ℕ
  pub message : String

-- An `error`: the service's own, gorm's "record not found", one that carries a gRPC status, or
-- any other, by its text.
pub data Error : Type 0 where
  app : AppError → Error
  record_not_found : Error
  rpc : Status → Error
  other : String → Error

-- The arguments of the format verbs are already put in.
abbrev pub new_app_error : ℕ → String → Error
new_app_error code message = app (record { code = code; message = message })

unfoldable pub map_code_to_grpc_code : ℕ → Code
map_code_to_grpc_code code =
    if code == StatusCode.unprocessable_entity
    then invalid_argument
    else if code == StatusCode.not_found || code == StatusCode.gone
    then not_found
    else if code == StatusCode.internal_server_error
        || code == StatusCode.bad_gateway
        || code == StatusCode.service_unavailable
        || code == StatusCode.gateway_timeout
    then internal
    else unknown

unfoldable pub grpc_status : AppError → Status
unfolding map_code_to_grpc_code
grpc_status e = record { code = map_code_to_grpc_code e.code; message = e.message }

-- `errors.Is(err, gorm.ErrRecordNotFound)`
abbrev pub is_record_not_found : Error → Bool
is_record_not_found record_not_found = true
is_record_not_found _ = false

-- `err.(*AppError)`
abbrev pub as_app_error : Error → Option AppError
as_app_error (app e) = some e
as_app_error _ = none
