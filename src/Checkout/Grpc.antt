-- ===== src/Checkout/Grpc.antt =====
-- checkout-service/grpc_server.go: the three methods that the inventory service calls.
use micro_market.Base.{String, true}
use micro_market.Common.AppError.{Error}
use micro_market.Common.Action.{Action}
use micro_market.Common.Grpc.{answer}
use micro_market.Common.Wire.{
  AddNewProductRequest, UpdateProductRequest, DeleteProductRequest, Success,
}
use micro_market.Checkout.Environment.{World, Environment}
use micro_market.Checkout.Products

module _ {Db Peer Redis Rng : Type 0} (env : Environment Db Peer Redis Rng)
    (text : Error → String) where
  unfoldable pub add_new_product : AddNewProductRequest → Action (World Db Peer Redis Rng) Success
  add_new_product req =
      answer text (λ _. record { success = true }) (Products.add_new_product env req)

  unfoldable pub update_product : UpdateProductRequest → Action (World Db Peer Redis Rng) Success
  update_product req =
      answer text (λ _. record { success = true }) (Products.update_product env req)

  unfoldable pub delete_product : DeleteProductRequest → Action (World Db Peer Redis Rng) Success
  delete_product req =
      answer text (λ _. record { success = true }) (Products.delete_product env req)
