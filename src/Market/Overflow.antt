-- ===== src/Market/Overflow.antt =====
-- What the conversion to `int32` of checkout-service/orders_controller.go does to the stock of
-- inventory-service/orders_controller.go.
use micro_market.Base.{ℕ, ◌+◌, ◌-◌, ◌^◌, ◌≤◌, ◌<◌, ◌≡◌, ap, ◌∙◌, false, some, arith}
use micro_market.Base.Int.{pos, negsuc, ◌-ℤ◌, int32, int64}
use micro_market.Checkout.Model as Shop
use micro_market.Checkout.Orders.{PlaceOrderRequest, register_request}
use micro_market.Inventory.Grpc.{placed_request}
use micro_market.Inventory.Model.{ProductModel, is_out_of_stock, get_available_quantity}
use micro_market.Inventory.Orders.{is_short, taken}
use micro_market.Common.Http.{ptr}

-- The quantity as the other service gets it.
wrapped : (q : ℕ) → 2 ^ 31 ≤ q → q < 2 ^ 32 → int32 (pos q) ≡ negsuc (2 ^ 32 - q - 1)
unfolding int32
wrapped q low high = ground arith

-- An order of 2 ^ 31 pieces or more, and less than 2 ^ 32, of a product that is in stock with
-- less than 2 ^ 62, passes the inventory service's test of the stock and raises the stock by
-- 2 ^ 32 less the quantity.
pub taken-register_request :
    (req : PlaceOrderRequest) (q m : ℕ) (product : Shop.ProductModel) (order : Shop.OrderModel)
    (row : ProductModel)
    → req.quantity ≡ pos q
    → 2 ^ 31 ≤ q
    → q < 2 ^ 32
    → is_out_of_stock row ≡ false
    → row.available_quantity ≡ some (pos m)
    → m < 2 ^ 62
    → (is_short row (placed_request (register_request req product order)).quantity ≡ false)
      × ((taken row
            (placed_request (register_request req product order)).quantity).available_quantity
          ≡ some (pos (m + (2 ^ 32 - q))))
unfolding placed_request register_request is_short taken get_available_quantity is_out_of_stock ptr
    int64 ◌-ℤ◌
taken-register_request req q m product order row e low high there stock small =
    let w = wrapped q low high in
    let v : int32 req.quantity ≡ negsuc (2 ^ 32 - q - 1) = ap int32 e ∙ w in
    (ground arith, ground arith)
