-- ===== src/Checkout/Orders/Errors.antt =====
-- What `PlaceNewOrder` of checkout-service/orders_controller.go makes of the errors that the
-- inventory service's handlers answer.
use micro_market.Common.StatusCode
use micro_market.Base.{
  ◌==◌, if◌then◌else◌, String, ◌≡◌, Bool, false, ◌||◌, Option, none, some, arith,
}
use micro_market.Common.AppError.{
  unknown, Status, Error, app, record_not_found, rpc, other, new_app_error, map_code_to_grpc_code,
  as_app_error,
}
use micro_market.Common.Grpc.{handle_grpc_error}
use micro_market.Checkout.Orders.{translate}

-- The error has a status that the gRPC side maps to `NotFound`.
abbrev is_gone : Error → Bool
is_gone e = elim (as_app_error e) [
  | none ↦ false
  | some a ↦ a.code == StatusCode.not_found || a.code == StatusCode.gone
]

-- Of all errors that a handler may return, only those of status 404 and 410 are translated, to
-- "product not found" (400). Every other, "product out of stock" (400) among them, comes back as
-- the gRPC error that it is.
pub translate-handle_grpc_error :
    (from_error : Error → Option Status) (text : Error → String) (e : Error)
    → ((s : Status) → from_error (rpc s) ≡ some s)
    → translate from_error (handle_grpc_error text e) ≡ (
        if is_gone e
        then new_app_error StatusCode.bad_request "product not found"
        else handle_grpc_error text e)
unfolding translate handle_grpc_error
translate-handle_grpc_error from_error text (app a) law =
    ground (arith, law (record { code = map_code_to_grpc_code a.code; message = a.message }))
translate-handle_grpc_error from_error text record_not_found law =
    ground (arith, law (record { code = unknown; message = text record_not_found }))
translate-handle_grpc_error from_error text (rpc s) law =
    ground (arith, law (record { code = unknown; message = text (rpc s) }))
translate-handle_grpc_error from_error text (other m) law =
    ground (arith, law (record { code = unknown; message = text (other m) }))
