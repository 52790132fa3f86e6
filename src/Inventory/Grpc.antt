-- ===== src/Inventory/Grpc.antt =====
-- inventory-service/grpc_server.go: the two methods that the checkout service calls.
pub mod Answers
use micro_market.Base.{String, true}
use micro_market.Base.Int.{int32, uint64}
use micro_market.Common.AppError.{Error}
use micro_market.Common.Action.{Action}
use micro_market.Common.Grpc.{answer}
use micro_market.Common.Wire.{
  Success, ReserveProductRequest, ReserveProductResponse, RegisterOrderRequest,
}
use micro_market.Inventory.Environment.{World, Environment}
use micro_market.Inventory.Products.{ProductAvailabilityResponse, check_product_availability}
use micro_market.Inventory.Orders.{PlaceOrderRequest, place_new_order}

-- The response of `ReserveProduct`, and the request that `RegisterOrder` places.
unfoldable pub reserve_response : ProductAvailabilityResponse → ReserveProductResponse
reserve_response out = record {
  available_quantity = int32 out.available_quantity;
  out_of_stock = out.out_of_stock;
  is_available = out.is_available;
}

unfoldable pub placed_request : RegisterOrderRequest → PlaceOrderRequest
placed_request req = record {
  order_sid = req.order_sid;
  user_id = uint64 req.user_id;
  product_sid = req.product_sid;
  quantity = req.quantity;
}

module _ {Db Peer Rng : Type 0} (env : Environment Db Peer Rng) (text : Error → String) where
  unfoldable pub reserve_product :
      ReserveProductRequest → Action (World Db Peer Rng) ReserveProductResponse
  reserve_product req =
      answer text reserve_response (check_product_availability env req.sid req.quantity)

  unfoldable pub register_order : RegisterOrderRequest → Action (World Db Peer Rng) Success
  register_order req =
      answer text (λ _. record { success = true }) (place_new_order env (placed_request req))
