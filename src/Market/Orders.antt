-- ===== src/Market/Orders.antt =====
-- An order across the two services: `PlaceNewOrder` of the checkout service, with the handlers of
-- the inventory service at the other end of its client.
use micro_market.Base.{find?, ℕ, String, ◌≡◌, sym, ap, subst, ◌∙◌, true, some, [], ◌∷◌, ◌++◌}
use micro_market.Base.Int.{int32}
use micro_market.Common.AppError.{Error}
use micro_market.Common.Action.{ok}
use micro_market.Common.Wire.{
  Success, ReserveProductRequest, ReserveProductResponse, RegisterOrderRequest, InventoryClient,
  CallEnds, answered, request_lost, answer_lost,
}
use micro_market.Market.Links.{IsInventoryClient}
use micro_market.Inventory.Environment.{
  Environment as InventoryEnvironment, World as InventoryWorld,
}
use micro_market.Inventory.Contract.{Contract as InventoryContract}
use micro_market.Inventory.Contract
use micro_market.Inventory.Model
use micro_market.Inventory.Orders
use micro_market.Inventory.Grpc
use micro_market.Inventory.Grpc.Answers
use micro_market.Inventory.Orders.Effects.{can_fill, after_sale}
use micro_market.Checkout.Contract as CheckoutContracts
use micro_market.Checkout.Environment.{Environment as CheckoutEnvironment, World as CheckoutWorld}
use micro_market.Checkout.Contract.{Contract as CheckoutContract}
use micro_market.Checkout.Model.{
  OrderModel as CheckoutOrder, OrderResource as CheckoutResource, ProductModel as CheckoutProduct,
}
use micro_market.Checkout.Orders as CheckoutOrders
use micro_market.Checkout.Model.{before_create}
use micro_market.Checkout.Orders.{
  reserve_request, register_request, PlaceOrderRequest as CheckoutRequest,
  place_new_order as checkout,
}
use micro_market.Checkout.Orders.Outcome as Checkout

module _ {IDb IPeer IRng CDb Redis CRng : Type 0} (ie : InventoryEnvironment IDb IPeer IRng)
    (ic : InventoryContract ie)
    (ce : CheckoutEnvironment CDb (InventoryWorld IDb IPeer IRng) Redis CRng)
    (cc' : CheckoutContract ce) (text : Error → String)
    (linked : (client : InventoryClient (InventoryWorld IDb IPeer IRng))
      → ce.client ≡ some client
      → IsInventoryClient ie text client) where
  -- One order of the request, in both services, and the stock that it took: `shown` and `product`
  -- are the rows of the ordered product in the checkout and in the inventory service.
  pub record InBoth (req : CheckoutRequest)
      (w w' : CheckoutWorld CDb (InventoryWorld IDb IPeer IRng) Redis CRng) : Type 0 where
    pub shown : CheckoutProduct
    pub product : Model.ProductModel
    pub order : CheckoutOrder
    pub sale : Model.OrderModel
    pub at : ℕ
    pub shown_found :
        find? (CheckoutContracts.has_id req.product_id) (cc'.products w.db) ≡ some shown
    pub found : find? (Contract.has_sid shown.sid) (ic.products w.inventory.db) ≡ some product
    pub ordered : cc'.orders w'.db ≡ cc'.orders w.db ++ order ∷ []
    pub ordered_user : order.user_id ≡ req.user_id
    pub ordered_product : order.product_id ≡ req.product_id
    pub ordered_quantity : order.quantity ≡ req.quantity
    pub sold : ic.orders w'.inventory.db ≡ ic.orders w.inventory.db ++ sale ∷ []
    pub same_sid : sale.sid ≡ order.sid
    pub sold_product : sale.product_id ≡ product.id
    pub sold_price : sale.price_per_item ≡ product.price
    pub sold_quantity : sale.quantity ≡ int32 req.quantity
    pub enough : can_fill product (int32 req.quantity) ≡ true
    pub taken :
        ic.products w'.inventory.db
        ≡ Contract.change product.id
            (λ _. after_sale product (int32 req.quantity) at)
            (ic.products w.inventory.db)

  -- The answer to a reservation leaves the inventory service as it was.
  reserved_same :
      (client : InventoryClient (InventoryWorld IDb IPeer IRng)) (req : ReserveProductRequest)
      (w w' : InventoryWorld IDb IPeer IRng) (resp : ReserveProductResponse)
      → IsInventoryClient ie text client
      → client.reserve_product req w ≡ (ok resp, w')
      → w' ≡ w
  reserved_same client req w w' resp l e =
      go (l.reserve_product req w) (Answers.reserve_product-ReserveEnds ie ic text req w)
    where
      go :
          CallEnds (Grpc.reserve_product ie text) req w (client.reserve_product req w)
          → Answers.ReserveEnds ie ic text req w (Grpc.reserve_product ie text req w)
          → w' ≡ w
      go (answered a) (Answers.known p f g) = ap (λ x. x.1) (sym e ∙ a ∙ g)
      go (answered a) (Answers.unknown_product f g) = cc
      go (answered a) (Answers.broken s g) = cc
      go (request_lost s a) _ = cc
      go (answer_lost s a) _ = cc

  -- A registration that is answered is a sale.
  register_order-Sale :
      (client : InventoryClient (InventoryWorld IDb IPeer IRng)) (req : RegisterOrderRequest)
      (w w' : InventoryWorld IDb IPeer IRng) (s : Success)
      → IsInventoryClient ie text client
      → client.register_order req w ≡ (ok s, w')
      → Answers.Sale ie ic text (Grpc.placed_request req) w w'
  register_order-Sale client req w w' s l e = go (l.register_order req w)
    where
      go :
          CallEnds (Grpc.register_order ie text) req w (client.register_order req w)
          → Answers.Sale ie ic text (Grpc.placed_request req) w w'
      go (answered a) =
          let (r, p) = Answers.register_order-placed ie ic text req w w' s (sym a ∙ e) in
          Answers.place_new_order-Sale ie ic text (Grpc.placed_request req) w w' r p
      go (request_lost s a) = cc
      go (answer_lost s a) = cc

  -- Where the calls of the client are answered by the inventory service's handlers or lost, an
  -- order that the checkout service accepts is in both services, once each, under the same
  -- identifier. The ordered product, found by its key in the checkout service and by that row's
  -- identifier in the inventory service, was not marked there as out of stock and held the
  -- quantity, as an `int32`, and this has been taken off its row, and off no other.
  pub place_new_order-InBoth :
      (req : CheckoutRequest) (w w' : CheckoutWorld CDb (InventoryWorld IDb IPeer IRng) Redis CRng)
      (r : CheckoutResource)
      → checkout ce req w ≡ (ok r, w')
      → InBoth req w w'
  unfolding CheckoutOrders.new_order before_create Orders.new_order Grpc.placed_request
      register_request
  place_new_order-InBoth req w w' r e = go (Checkout.place_new_order-OrderEnds ce cc' req w)
    where
      go : Checkout.PlaceEnds ce cc' req w (checkout ce req w) → InBoth req w w'
      go (Checkout.refused x v f same quiet a) = cc
      go (Checkout.placed user product client resp order ulid peer s v fu fp fc er free t k rd f) =
          let same_world : v ≡ w' = ap (λ x. x.1) (sym f ∙ e) in
          let same_peer =
            reserved_same client (reserve_request req product) w.inventory peer resp
              (linked client fc) er in
          let sale =
            register_order-Sale client (register_request req product order) w.inventory v.inventory
              s (linked client fc) (rw same_peer at t) in
          let order_is = sale.sells.order_is in
          subst (InBoth req w) same_world (record {
            shown = product;
            product = sale.product;
            order = order;
            sale = sale.order;
            at = sale.sells.at;
            shown_found = fp;
            found = sale.found;
            ordered = k.orders;
            ordered_user = ap (λ (o : CheckoutOrder). o.user_id) k.row;
            ordered_product = ap (λ (o : CheckoutOrder). o.product_id) k.row;
            ordered_quantity = ap (λ (o : CheckoutOrder). o.quantity) k.row;
            sold = sale.sells.order_added;
            same_sid = order_is.sid_is;
            sold_product = order_is.product_is;
            sold_price = order_is.price_is;
            sold_quantity = order_is.quantity_is;
            enough = sale.sells.filled;
            taken = sale.sells.stock_taken;
          })
