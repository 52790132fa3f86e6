-- ===== src/Market/Wire.antt =====
-- Numbers that cross the wire of the two services as an `int32`.
use micro_market.Base.{ℕ, ◌^◌, ◌<◌, ◌≡◌, subst, ◌↔◌, arith}
use micro_market.Base.Int.{ℤ, pos, int32, uint64, IsInt32, int32_of_IsInt32, int32-IsInt32}
use micro_market.Checkout.Model.{ProductModel, OrderModel}
use micro_market.Checkout.Orders.{PlaceOrderRequest, register_request}
use micro_market.Inventory.Grpc.{placed_request}

-- Of a key of the database, which is below 2 ^ 63, an `int32` and the way back keep what is below
-- 2 ^ 31 and nothing else.
uint64-int32_iff : (n : ℕ) → n < 2 ^ 63 → (uint64 (int32 (pos n)) ≡ n) ↔ (n < 2 ^ 31)
unfolding uint64 int32
uint64-int32_iff n h = (λ e. ground arith, λ k. ground arith)

int32_iff : (a : ℤ) → (int32 a ≡ a) ↔ IsInt32 a
int32_iff a = (λ e. subst IsInt32 e (int32-IsInt32 a), int32_of_IsInt32 a)

-- For a user's key below 2 ^ 63, the inventory service is asked to place the order of the same
-- user and in the same quantity as the checkout service was, exactly when the key is below
-- 2 ^ 31 and the quantity fits an `int32`.
pub placed_request-register_request_iff :
    (req : PlaceOrderRequest) (product : ProductModel) (order : OrderModel)
    → req.user_id < 2 ^ 63
    → (((placed_request (register_request req product order)).user_id ≡ req.user_id)
        × ((placed_request (register_request req product order)).quantity ≡ req.quantity))
      ↔ ((req.user_id < 2 ^ 31) × IsInt32 req.quantity)
unfolding placed_request register_request
placed_request-register_request_iff req product order h = (
  λ e. ((uint64-int32_iff req.user_id h).0 e.0, (int32_iff req.quantity).0 e.1),
  λ k. ((uint64-int32_iff req.user_id h).1 k.0, (int32_iff req.quantity).1 k.1),
)
