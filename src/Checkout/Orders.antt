-- ===== src/Checkout/Orders.antt =====
-- checkout-service/orders_controller.go, function by function.
pub mod Commit
pub mod Outcome
pub mod Errors
use micro_market.Common.StatusCode
use micro_market.Base.Text.{concat, decimal, decimal_ℤ}
use micro_market.Base.{[], ◌∷◌, ◌==◌, if◌then◌else◌, ℕ, String, not, Option, none, some, List, map}
use micro_market.Base.Int.{ℤ, pos, ◌*ℤ◌, int32, int64}
use micro_market.Common.AppError.{
  not_found, failed_precondition, resource_exhausted, deadline_exceeded, unavailable, Status, Error,
  new_app_error,
}
use micro_market.Common.Action.{ok, err, Action, pure, raise, ◌>>=◌, ◌>>◌}
use micro_market.Common.Wire.{
  ReserveProductRequest, ReserveProductResponse, RegisterOrderRequest, InventoryClient,
}
use micro_market.Checkout.Model.{
  ProductModel, zero_product, UserModel, zero_user, OrderModel, OrderResource, order_resource,
}
use micro_market.Checkout.Environment.{
  InvoiceRequest, World, query, call, Environment, maybe_fail, create, get_inventory_client,
  publish_invoice, or_zero,
}

pub record PlaceOrderRequest : Type 0 where
  pub user_id : ℕ
  pub product_id : ℕ
  pub quantity : ℤ

unfoldable pub new_order : PlaceOrderRequest → ProductModel → OrderModel
new_order req product = record {
  id = 0;
  sid = "";
  user_id = req.user_id;
  user = none;
  product_id = req.product_id;
  product = none;
  quantity = req.quantity;
  price_per_item = product.price;
  total = int64 (req.quantity *ℤ product.price);
  created_at = 0;
  updated_at = 0;
}

-- The requests to the inventory service.
unfoldable pub reserve_request : PlaceOrderRequest → ProductModel → ReserveProductRequest
reserve_request req product = record { sid = product.sid; quantity = int32 req.quantity }

unfoldable pub register_request :
    PlaceOrderRequest → ProductModel → OrderModel → RegisterOrderRequest
register_request req product order = record {
  order_sid = order.sid;
  user_id = int32 (pos req.user_id);
  product_sid = product.sid;
  quantity = int32 req.quantity;
}

unfoldable pub invoice : UserModel → ProductModel → OrderModel → InvoiceRequest
invoice user product order = record {
  order_sid = order.sid;
  user_id = user.id;
  product_sid = product.sid;
  quantity = order.quantity;
  product_price = product.price;
  currency = product.currency;
  total = order.total;
  user_name = user.name;
  user_email = user.email;
  product_name = product.name;
}

-- What the two calls of the inventory service make of its error.
unfoldable pub translate : (Error → Option Status) → Error → Error
translate from_error e = elim (from_error e) [
  | none ↦ e
  | some st ↦ elim st.code [
    | not_found ↦ new_app_error StatusCode.bad_request "product not found"
    | failed_precondition ↦ new_app_error StatusCode.bad_request "product out of stock"
    | resource_exhausted ↦ new_app_error StatusCode.bad_request "product out of stock"
    | deadline_exceeded ↦ new_app_error StatusCode.service_unavailable "inventory unavailable"
    | unavailable ↦ new_app_error StatusCode.service_unavailable "inventory unavailable"
    | _ ↦ e
  ]
]

abbrev pub no_client : Error
no_client = new_app_error StatusCode.internal_server_error "inventory client not initialized"

-- A call of the client with its error translated.
abbrev pub translated : {S A : Type 0} → (Error → Option Status) → Action S A → Action S A
translated from_error m s =
    let (r, s') = m s in elim r [ ok a ↦ (ok a, s') | err e ↦ (err (translate from_error e), s') ]

module _ {Db Peer Redis Rng : Type 0} (env : Environment Db Peer Redis Rng) where
  unfoldable pub get_all_orders : Action (World Db Peer Redis Rng) (List OrderResource)
  get_all_orders = do pure (map order_resource (← query env.gorm.find_orders))

  unfoldable pub find_user : ℕ → Action (World Db Peer Redis Rng) UserModel
  find_user id = do
    user ← query (λ db. or_zero zero_user (env.gorm.first_user id db))
    if user.id == 0
        then raise (
            new_app_error StatusCode.bad_request
              (concat ("user: " ∷ decimal id ∷ " not found" ∷ [])))
        else pure user

  unfoldable pub find_product : ℕ → Action (World Db Peer Redis Rng) ProductModel
  find_product id = do
    product ← query (λ db. or_zero zero_product (env.gorm.first_product id db))
    if product.id == 0
        then raise (
            new_app_error StatusCode.bad_request
              (concat ("product: " ∷ decimal id ∷ " not found" ∷ [])))
        else pure product

  -- The client, or the error if it is not set.
  unfoldable pub require_client : Action (World Db Peer Redis Rng) (InventoryClient Peer)
  require_client = elim (get_inventory_client env) [ none ↦ raise no_client | some c ↦ pure c ]

  -- The two tests of the reservation's answer.
  unfoldable pub check_reservation :
      PlaceOrderRequest
      → ProductModel
      → ReserveProductResponse
      → Action (World Db Peer Redis Rng) (Unit {0})
  check_reservation req product resp =
      if resp.out_of_stock
      then raise (
          new_app_error StatusCode.bad_request
            (concat ("product: " ∷ product.sid ∷ " is out of stock" ∷ [])))
      else if not resp.is_available
      then raise (
          new_app_error StatusCode.bad_request (
            concat (
              "product: "
              ∷ product.sid
              ∷ " is not available in the quantity of "
              ∷ decimal_ℤ req.quantity
              ∷ [])))
      else pure tt

  -- The transaction: the order's row, which it fills in, then its registration.
  unfoldable pub place_body :
      InventoryClient Peer
      → PlaceOrderRequest
      → ProductModel
      → Action (World Db Peer Redis Rng) OrderModel
  place_body client req product = do
    order ← create env (new_order req product)
    translated env.from_error (call (client.register_order (register_request req product order)))
    pure order

  unfoldable pub place_new_order :
      PlaceOrderRequest → Action (World Db Peer Redis Rng) OrderResource
  place_new_order req = do
    maybe_fail env "checkout.PlaceNewOrder"
    user ← find_user req.user_id
    product ← find_product req.product_id
    client ← require_client
    resp ← translated env.from_error (call (client.reserve_product (reserve_request req product)))
    check_reservation req product resp
    order ← env.transaction OrderModel (place_body client req product)
    publish_invoice env (invoice user product order)
    pure (order_resource order)
