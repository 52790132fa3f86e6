-- ===== src/Inventory/Products.antt =====
-- inventory-service/products_controller.go, function by function.
pub mod Effects
pub mod Outcome
pub mod Updating
pub mod Deleting
use micro_market.Common.StatusCode
use micro_market.Base.{
  ◌==◌, if◌then◌else◌, ℕ, String, Bool, true, false, not, none, some, List, map,
}
use micro_market.Base.Int.{ℤ, pos, ltb_ℤ, leb_ℤ, int32}
use micro_market.Common.AppError.{not_found, Error, new_app_error}
use micro_market.Common.Action.{Result, Action, pure, raise, ◌>>=◌, ◌>>◌}
use micro_market.Common.Http.{ptr}
use micro_market.Common.Wire.{AddNewProductRequest, UpdateProductRequest, Success, CheckoutClient}
use micro_market.Inventory.Model.{
  ProductModel, zero_product, get_available_quantity, is_out_of_stock, ProductResource,
  product_resource,
}
use micro_market.Inventory.Environment.{
  World, Environment, query, exec, call, maybe_fail, create, get_checkout_client, or_zero,
}

-- `CreateProductRequest` and `UpdateProductRequest`, which have the same fields.
pub record ProductRequest : Type 0 where
  pub name : String
  pub price : ℤ
  pub currency : String
  pub available_quantity : ℤ

pub record ProductAvailabilityResponse : Type 0 where
  pub is_available : Bool
  pub available_quantity : ℤ
  pub out_of_stock : Bool

-- The row that `CreateProduct` writes, and what `UpdateProduct` makes of the row that it read.
unfoldable pub new_product : ProductRequest → ProductModel
unfolding ptr
new_product req = record zero_product {
  name = req.name;
  price = req.price;
  currency = req.currency;
  available_quantity = ptr req.available_quantity;
  out_of_stock = ptr false;
}

unfoldable pub updated_product : ProductRequest → ProductModel → ProductModel
unfolding ptr
updated_product req product = record product {
  name = req.name;
  price = req.price;
  currency = req.currency;
  available_quantity = ptr req.available_quantity;
  out_of_stock = if ltb_ℤ (pos 0) req.available_quantity then ptr false else ptr true;
}

-- The requests to the checkout service.
unfoldable pub add_request : ProductModel → AddNewProductRequest
unfolding is_out_of_stock
add_request product = record {
  product = record {
    sid = product.sid;
    name = product.name;
    price = int32 product.price;
    currency = product.currency;
    out_of_stock = is_out_of_stock product;
  };
}

unfoldable pub update_request : ProductModel → UpdateProductRequest
unfolding is_out_of_stock get_available_quantity
update_request product = record {
  sid = product.sid;
  name = product.name;
  price = int32 product.price;
  currency = product.currency;
  available_quantity = int32 (get_available_quantity product);
  out_of_stock = is_out_of_stock product;
}

abbrev pub no_client : Error
no_client = new_app_error StatusCode.internal_server_error "checkout client not initialized"

abbrev pub no_product : Error
no_product = new_app_error StatusCode.not_found "product not found"

module _ {Db Peer Rng : Type 0} (env : Environment Db Peer Rng) where
  unfoldable pub get_all_products : Action (World Db Peer Rng) (List ProductResource)
  get_all_products = do pure (map product_resource (← query env.gorm.find_products))

  -- The query of a row and the test `product.ID == 0`.
  unfoldable pub find_product : (Db → Result ProductModel) → Action (World Db Peer Rng) ProductModel
  find_product q = do
    product ← query (λ db. or_zero (q db))
    if product.id == 0 then raise no_product else pure product

  unfoldable pub get_product : ℕ → Action (World Db Peer Rng) ProductResource
  get_product id = do
    maybe_fail env "inventory.GetProduct"
    product ← find_product (env.gorm.first_by_id id)
    pure (product_resource product)

  -- The client, or the error if it is not set.
  unfoldable pub with_client :
      (CheckoutClient Peer → Action Peer Success) → Action (World Db Peer Rng) (Unit {0})
  with_client f = elim (get_checkout_client env) [
    | none ↦ raise no_client
    | some c ↦ call (f c) >>= λ _. pure tt
  ]

  -- What the transactions of the functions below run: a statement, then a call of the checkout
  -- service about what it wrote. The variables that the statement fills in are its value.
  unfoldable pub write_and_tell :
      {A : Type 0}
      → Action (World Db Peer Rng) A
      → (A → CheckoutClient Peer → Action Peer Success)
      → Action (World Db Peer Rng) A
  write_and_tell write tell = do a ← write; with_client (tell a); pure a

  unfoldable pub create_body : ProductModel → Action (World Db Peer Rng) ProductModel
  create_body product =
      write_and_tell (create env product) (λ p client. client.add_new_product (add_request p))

  unfoldable pub save_body : ProductModel → Action (World Db Peer Rng) (Unit {0})
  save_body product =
      write_and_tell (exec (env.gorm.save_product product))
        (λ _ client. client.update_product (update_request product))

  unfoldable pub delete_body : ℕ → String → Action (World Db Peer Rng) (Unit {0})
  delete_body id sid =
      write_and_tell (exec (env.gorm.delete_product id))
        (λ _ client. client.delete_product (record { sid = sid }))

  unfoldable pub create_product : ProductRequest → Action (World Db Peer Rng) ProductResource
  create_product req = do
    maybe_fail env "inventory.CreateProduct"
    product ← env.transaction ProductModel (create_body (new_product req))
    pure (product_resource product)

  unfoldable pub update_product : ℕ → ProductRequest → Action (World Db Peer Rng) ProductResource
  update_product id req = do
    maybe_fail env "inventory.UpdateProduct"
    old ← find_product (env.gorm.first_by_id id)
    env.transaction (Unit {0}) (save_body (updated_product req old))
    pure (product_resource (updated_product req old))

  unfoldable pub delete_product : ℕ → Action (World Db Peer Rng) (Unit {0})
  delete_product id = do
    maybe_fail env "inventory.DeleteProduct"
    product ← find_product (env.gorm.select_by_id id)
    env.transaction (Unit {0}) (delete_body id product.sid)

  unfoldable pub check_product_availability :
      String → ℤ → Action (World Db Peer Rng) ProductAvailabilityResponse
  unfolding get_available_quantity is_out_of_stock
  check_product_availability sid quantity = do
    product ← find_product (env.gorm.first_by_sid sid)
    pure (record {
      is_available = leb_ℤ quantity (get_available_quantity product);
      available_quantity = get_available_quantity product;
      out_of_stock = is_out_of_stock product;
    })
