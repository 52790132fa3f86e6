-- ===== src/Inventory/Orders.antt =====
-- inventory-service/orders_controller.go, function by function.
pub mod Effects
pub mod Commit
pub mod Outcome
pub mod Stock
pub mod Race
pub mod Service
use micro_market.Common.StatusCode
use micro_market.Base.{if◌then◌else◌, ℕ, String, Bool, true, ◌||◌, none, List, map}
use micro_market.Base.Int.{ℤ, pos, ◌-ℤ◌, ◌*ℤ◌, ltb_ℤ, leb_ℤ, int64}
use micro_market.Common.AppError.{Error, new_app_error}
use micro_market.Common.Action.{◌>>◌, ◌>>=◌, Action, pure, raise}
use micro_market.Common.Http.{ptr}
use micro_market.Inventory.Model.{
  ProductModel, get_available_quantity, is_out_of_stock, OrderModel, OrderResource, order_resource,
}
use micro_market.Inventory.Environment.{World, Environment, query, exec, maybe_fail}
use micro_market.Inventory.Products.{find_product}

pub record PlaceOrderRequest : Type 0 where
  pub order_sid : String
  pub user_id : ℕ
  pub product_sid : String
  pub quantity : ℤ

abbrev pub out_of_stock_error : Error
out_of_stock_error = new_app_error StatusCode.bad_request "product out of stock"

-- `product.IsOutOfStock() || product.GetAvailableQuantity() < req.Quantity`
unfoldable pub is_short : ProductModel → ℤ → Bool
unfolding is_out_of_stock get_available_quantity
is_short product quantity =
    is_out_of_stock product || ltb_ℤ (get_available_quantity product) quantity

-- The product with the ordered quantity taken off, and the order's row.
unfoldable pub taken : ProductModel → ℤ → ProductModel
unfolding get_available_quantity ptr
taken product quantity =
    let left = int64 (get_available_quantity product -ℤ quantity) in
    let product' : ProductModel = record product { available_quantity = ptr left } in
    if leb_ℤ left (pos 0) then record product' { out_of_stock = ptr true } else product'

unfoldable pub new_order : PlaceOrderRequest → ProductModel → OrderModel
new_order req product = record {
  id = 0;
  sid = req.order_sid;
  user_id = req.user_id;
  product_id = product.id;
  product = none;
  price_per_item = product.price;
  quantity = req.quantity;
  total = int64 (req.quantity *ℤ product.price);
  created_at = 0;
  updated_at = 0;
}

module _ {Db Peer Rng : Type 0} (env : Environment Db Peer Rng) where
  unfoldable pub get_all_orders : Action (World Db Peer Rng) (List OrderResource)
  get_all_orders = do pure (map order_resource (← query env.gorm.find_orders))

  -- The transaction: the stock, then the order, whose row it fills in.
  unfoldable pub place_body : ProductModel → OrderModel → Action (World Db Peer Rng) OrderModel
  place_body product order = do
    exec (env.gorm.updates_product product)
    exec (env.gorm.create_order order)

  unfoldable pub place_new_order : PlaceOrderRequest → Action (World Db Peer Rng) OrderResource
  place_new_order req = do
    maybe_fail env "inventory.PlaceNewOrder"
    product ← find_product env (env.gorm.first_by_sid req.product_sid)
    if is_short product req.quantity then raise out_of_stock_error else (do
      order ←
          env.transaction OrderModel
            (place_body (taken product req.quantity) (new_order req product))
      pure (order_resource order))
