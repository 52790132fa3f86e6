-- ===== src/Common/Grpc.antt =====
-- `handleGRPCError` of checkout-service/grpc_server.go and inventory-service/grpc_server.go,
-- which read the same, and what a client makes of an error.
use micro_market.Base.{String, none, some}
use micro_market.Common.AppError.{unknown, Error, rpc, grpc_status, as_app_error}
use micro_market.Common.Action.{ok, err, Action}

-- For an `err` that is not nil. `text` is `err.Error()`.
unfoldable pub handle_grpc_error : (Error → String) → Error → Error
unfolding grpc_status
handle_grpc_error text e = elim (as_app_error e) [
  | some a ↦ rpc (grpc_status a)
  | none ↦ rpc (record { code = unknown; message = text e })
]

-- The answer of a gRPC method: a value, or its error as a status.
unfoldable pub answer : {S A B : Type 0} → (Error → String) → (A → B) → Action S A → Action S B
unfolding handle_grpc_error
answer text f m s =
    let (r, s') = m s in
    elim r [ ok a ↦ (ok (f a), s') | err e ↦ (err (handle_grpc_error text e), s') ]
