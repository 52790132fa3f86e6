-- ===== src/Market/Links.antt =====
-- A client whose calls are answered by the other service's handlers, or lost.
use micro_market.Base.{String}
use micro_market.Common.AppError.{Error}
use micro_market.Common.Wire.{
  ReserveProductRequest, RegisterOrderRequest, InventoryClient, CallEnds,
}
use micro_market.Inventory.Environment
use micro_market.Inventory.Grpc
use micro_market.Checkout.Environment as CheckoutEnvironment
use micro_market.Checkout.Grpc as CheckoutGrpc
use micro_market.Common.Wire.{
  AddNewProductRequest, UpdateProductRequest, DeleteProductRequest, CheckoutClient, answered,
  request_lost, answer_lost,
}
use micro_market.Common.Action.{Result, ok, err, Action}
use micro_market.Common.Grpc.{answer}
use micro_market.Base.{◌≡◌, refl, arith}

module _ {Db Peer Rng : Type 0} (inventory : Environment.Environment Db Peer Rng)
    (text : Error → String) where
  -- The client of the checkout service.
  pub record IsInventoryClient (client : InventoryClient (Environment.World Db Peer Rng))
      : Type 0 where
    pub reserve_product :
        (req : ReserveProductRequest) (w : Environment.World Db Peer Rng)
        → CallEnds (Grpc.reserve_product inventory text) req w (client.reserve_product req w)
    pub register_order :
        (req : RegisterOrderRequest) (w : Environment.World Db Peer Rng)
        → CallEnds (Grpc.register_order inventory text) req w (client.register_order req w)

module _ {Db Peer Redis Rng : Type 0} (checkout : CheckoutEnvironment.Environment Db Peer Redis Rng)
    (text : Error → String) where
  -- The client of the inventory service.
  pub record IsCheckoutClient
      (client : CheckoutClient (CheckoutEnvironment.World Db Peer Redis Rng)) : Type 0 where
    pub add_new_product :
        (req : AddNewProductRequest) (w : CheckoutEnvironment.World Db Peer Redis Rng)
        → CallEnds (CheckoutGrpc.add_new_product checkout text) req w (client.add_new_product req w)
    pub update_product :
        (req : UpdateProductRequest) (w : CheckoutEnvironment.World Db Peer Redis Rng)
        → CallEnds (CheckoutGrpc.update_product checkout text) req w (client.update_product req w)
    pub delete_product :
        (req : DeleteProductRequest) (w : CheckoutEnvironment.World Db Peer Redis Rng)
        → CallEnds (CheckoutGrpc.delete_product checkout text) req w (client.delete_product req w)

-- A call that returns a value was answered, by the handler's function.
pub answered_ok :
    {S Req A B : Type 0} (text : Error → String) (f : A → B) (m : Req → Action S A) (req : Req)
    (s s' : S) (b : B) (end : Result B × S)
    → CallEnds (λ r. answer text f (m r)) req s end
    → end ≡ (ok b, s')
    → (a : A) × (m req s ≡ (ok a, s'))
unfolding answer
answered_ok text f m req s s' b end (request_lost x e) k = absurd (ground arith)
answered_ok text f m req s s' b end (answer_lost x e) k = absurd (ground arith)
answered_ok {S = S} {A = A} text f m req s s' b end (answered e) k = go (m req s).0 (m req s).1 refl
  where
    go : (r : Result A) (v : S) → m req s ≡ (r, v) → (a : A) × (m req s ≡ (ok a, s'))
    go (ok a) v g = (a, ground arith)
    go (err x) v g = absurd (ground arith)
