-- ===== src/Market/Refusals.antt =====
-- What an order that the checkout service's `PlaceNewOrder` refuses leaves at the inventory
-- service.
use micro_market.Base.{arith, String, refl, ◌≡◌, sym, ap, ◌∙◌, some}
use micro_market.Common.AppError.{Error}
use micro_market.Common.Action.{Result, ok, err}
use micro_market.Common.Grpc.{answer}
use micro_market.Common.Wire.{
  ReserveProductRequest, RegisterOrderRequest, InventoryClient, CallEnds, answered, request_lost,
  answer_lost,
}
use micro_market.Market.Links.{IsInventoryClient}
use micro_market.Inventory.Environment.{
  Environment as InventoryEnvironment, World as InventoryWorld,
}
use micro_market.Inventory.Contract.{Contract as InventoryContract}
use micro_market.Inventory.Model.{OrderResource, order_resource}
use micro_market.Inventory.Orders
use micro_market.Inventory.Orders.Outcome
use micro_market.Inventory.Grpc
use micro_market.Inventory.Grpc.Answers
use micro_market.Checkout.Environment.{Environment as CheckoutEnvironment, World as CheckoutWorld}
use micro_market.Checkout.Contract.{Contract as CheckoutContract}
use micro_market.Checkout.Model.{ProductModel, OrderModel}
use micro_market.Checkout.Orders.{
  reserve_request, register_request, PlaceOrderRequest as CheckoutRequest,
  place_new_order as checkout,
}
use micro_market.Checkout.Orders.Outcome as Checkout

module _ {IDb IPeer IRng CDb Redis CRng : Type 0} (ie : InventoryEnvironment IDb IPeer IRng)
    (ic : InventoryContract ie)
    (ce : CheckoutEnvironment CDb (InventoryWorld IDb IPeer IRng) Redis CRng)
    (cc' : CheckoutContract ce) (text : Error → String)
    (linked : (client : InventoryClient (InventoryWorld IDb IPeer IRng))
      → ce.client ≡ some client
      → IsInventoryClient ie text client) where
  -- The inventory service's database after a refusal: as it was, or with a sale that the checkout
  -- service does not know of.
  pub data Leaves (req : CheckoutRequest) (w w' : InventoryWorld IDb IPeer IRng) : Type 0 where
    nothing : w'.db ≡ w.db → Leaves req w w'
    stray :
        (product : ProductModel) (order : OrderModel)
        → Answers.Sale ie ic text (Grpc.placed_request (register_request req product order)) w w'
        → Leaves req w w'

  -- However a reservation ends, it leaves the inventory service as it was.
  reserve_keeps :
      (client : InventoryClient (InventoryWorld IDb IPeer IRng)) (req : ReserveProductRequest)
      (w : InventoryWorld IDb IPeer IRng)
      → IsInventoryClient ie text client
      → (client.reserve_product req w).1 ≡ w
  reserve_keeps client req w l =
      go (l.reserve_product req w) (Answers.reserve_product-ReserveEnds ie ic text req w)
    where
      same :
          Answers.ReserveEnds ie ic text req w (Grpc.reserve_product ie text req w)
          → (Grpc.reserve_product ie text req w).1 ≡ w
      same (Answers.known p f g) = ap (λ x. x.1) g
      same (Answers.unknown_product f g) = ap (λ x. x.1) g
      same (Answers.broken s g) = ap (λ x. x.1) g

      go :
          CallEnds (Grpc.reserve_product ie text) req w (client.reserve_product req w)
          → Answers.ReserveEnds ie ic text req w (Grpc.reserve_product ie text req w)
          → (client.reserve_product req w).1 ≡ w
      go (answered a) r = ap (λ x. x.1) a ∙ same r
      go (request_lost s a) r = ap (λ x. x.1) a
      go (answer_lost s a) r = ap (λ x. x.1) a ∙ same r

  -- The handler of a registration changes what `PlaceNewOrder` changes.
  register_world :
      (req : RegisterOrderRequest) (w : InventoryWorld IDb IPeer IRng)
      → (Grpc.register_order ie text req w).1
        ≡ (Orders.place_new_order ie (Grpc.placed_request req) w).1
  unfolding Grpc.register_order answer
  register_world req w = go (Orders.place_new_order ie (Grpc.placed_request req) w) refl
    where
      go :
          (end : Result OrderResource × InventoryWorld IDb IPeer IRng)
          → Orders.place_new_order ie (Grpc.placed_request req) w ≡ end
          → (Grpc.register_order ie text req w).1
            ≡ (Orders.place_new_order ie (Grpc.placed_request req) w).1
      go (ok r, v) f = ground arith
      go (err x, v) f = ground arith

  -- What a registration leaves, however it ends.
  register_order-Leaves :
      (client : InventoryClient (InventoryWorld IDb IPeer IRng)) (req : CheckoutRequest)
      (product : ProductModel) (order : OrderModel) (w w' : InventoryWorld IDb IPeer IRng)
      → IsInventoryClient ie text client
      → w' ≡ (client.register_order (register_request req product order) w).1
      → Leaves req w w'
  register_order-Leaves client req product order w w' l e =
      let rq = register_request req product order in go (l.register_order rq w)
    where
      rq : RegisterOrderRequest
      rq = register_request req product order

      placed :
          w' ≡ (Orders.place_new_order ie (Grpc.placed_request rq) w).1
          → Outcome.PlaceEnds ie ic
              (Grpc.placed_request rq)
              w
              (Orders.place_new_order ie (Grpc.placed_request rq) w)
          → Leaves req w w'
      placed k (Outcome.injected x v f u) = nothing (ap (λ y. y.db) (k ∙ ap (λ y. y.1) f) ∙ u.db)
      placed k (Outcome.broken m v f u) = nothing (ap (λ y. y.db) (k ∙ ap (λ y. y.1) f) ∙ u.db)
      placed k (Outcome.unknown_product v n f u) =
          nothing (ap (λ y. y.db) (k ∙ ap (λ y. y.1) f) ∙ u.db)
      placed k (Outcome.short p v n s _ f u) = nothing (ap (λ y. y.db) (k ∙ ap (λ y. y.1) f) ∙ u.db)
      placed k (Outcome.placed p o v n s f same q _) =
          let same_world : v ≡ w' = sym (k ∙ ap (λ y. y.1) f) in
          let answer' =
            f ∙ ap (λ (z : InventoryWorld IDb IPeer IRng). (ok (order_resource o), z)) same_world in
          stray product order (
            Answers.place_new_order-Sale ie ic text (Grpc.placed_request rq) w w' (order_resource o)
              answer')

      handled : w' ≡ (Grpc.register_order ie text rq w).1 → Leaves req w w'
      handled k =
          placed (k ∙ register_world rq w)
            (Outcome.place_new_order-PlaceEnds ie ic (Grpc.placed_request rq) w)

      go :
          CallEnds (Grpc.register_order ie text) rq w (client.register_order rq w) → Leaves req w w'
      go (answered a) = handled (e ∙ ap (λ x. x.1) a)
      go (request_lost s a) = nothing (ap (λ y. y.db) (e ∙ ap (λ x. x.1) a))
      go (answer_lost s a) = handled (e ∙ ap (λ x. x.1) a)

  -- Where the calls of the client are answered by the inventory service's handlers or lost, a call
  -- of `PlaceNewOrder` that the checkout service refuses leaves its orders as they were, and
  -- the inventory service's database either as it was, or with one sale that took its stock: the
  -- registration went through and was not taken back.
  pub place_new_order-Leaves :
      (req : CheckoutRequest) (w w' : CheckoutWorld CDb (InventoryWorld IDb IPeer IRng) Redis CRng)
      (x : Error)
      → checkout ce req w ≡ (err x, w')
      → (cc'.orders w'.db ≡ cc'.orders w.db) × Leaves req w.inventory w'.inventory
  place_new_order-Leaves req w w' x e = go (Checkout.place_new_order-OrderEnds ce cc' req w)
    where
      asked :
          Checkout.Asked ce cc' req w.inventory w'.inventory → Leaves req w.inventory w'.inventory
      asked (Checkout.unasked k) = nothing (ap (λ y. y.db) k)
      asked (Checkout.reserved client product fc k) = nothing (
          ap (λ y. y.db)
            (k ∙ reserve_keeps client (reserve_request req product) w.inventory (linked client fc)))
      asked (Checkout.registered client product order fc k) =
          register_order-Leaves client req product order w.inventory w'.inventory (linked client fc)
            (k
              ∙ ap (λ p. (client.register_order (register_request req product order) p).1)
                  (reserve_keeps client (reserve_request req product) w.inventory
                    (linked client fc)))

      go :
          Checkout.PlaceEnds ce cc' req w (checkout ce req w)
          → (cc'.orders w'.db ≡ cc'.orders w.db) × Leaves req w.inventory w'.inventory
      go (Checkout.refused y v f same quiet a) =
          let same_world : v ≡ w' = ap (λ z. z.1) (sym f ∙ e) in
          (ap cc'.orders (rw same_world at same), asked (rw same_world at a))
      go (Checkout.placed user product client resp order ulid peer s v fu fp fc er free t k rd f) =
          cc
