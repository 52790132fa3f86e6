-- ===== src/Checkout/Products.antt =====
-- checkout-service/products_controller.go and users_controller.go, function by function.
pub mod Effects
pub mod Outcome
use micro_market.Common.StatusCode
use micro_market.Base.Text.{concat}
use micro_market.Base.{[], ◌∷◌, ◌==◌, if◌then◌else◌, String, not, List, map}
use micro_market.Common.AppError.{not_found, new_app_error}
use micro_market.Common.Action.{Action, pure, raise, ◌>>=◌, ◌>>◌}
use micro_market.Common.Http.{ptr}
use micro_market.Common.Wire.{
  Product, AddNewProductRequest, UpdateProductRequest, DeleteProductRequest,
}
use micro_market.Checkout.Model.{
  ProductModel, zero_product, ProductResource, product_resource, UserResource, user_resource,
}
use micro_market.Checkout.Environment.{World, query, exec, Environment, maybe_fail, or_zero}

-- The row that `AddNewProduct` writes, and what `UpdateProduct` makes of the row that it read.
-- `int(rp.Price)` keeps every value of an `int32`.
unfoldable pub new_product : Product → ProductModel
unfolding ptr
new_product rp = record zero_product {
  sid = rp.sid;
  name = rp.name;
  price = rp.price;
  currency = rp.currency;
  out_of_stock = ptr rp.out_of_stock;
}

unfoldable pub updated_product : UpdateProductRequest → ProductModel → ProductModel
unfolding ptr
updated_product req product = record product {
  name = req.name;
  price = req.price;
  currency = req.currency;
  out_of_stock = ptr req.out_of_stock;
}

module _ {Db Peer Redis Rng : Type 0} (env : Environment Db Peer Redis Rng) where
  unfoldable pub get_all_products : Action (World Db Peer Redis Rng) (List ProductResource)
  get_all_products = do pure (map product_resource (← query env.gorm.find_products))

  unfoldable pub get_all_users : Action (World Db Peer Redis Rng) (List UserResource)
  get_all_users = do pure (map user_resource (← query env.gorm.find_users))

  unfoldable pub add_new_product :
      AddNewProductRequest → Action (World Db Peer Redis Rng) (Unit {0})
  add_new_product req = do
    maybe_fail env "checkout.AddNewProduct"
    exec (env.gorm.create_product (new_product req.product))
    pure tt

  -- The query and the test `product.ID == 0` of `UpdateProduct`.
  unfoldable pub find_product : String → Action (World Db Peer Redis Rng) ProductModel
  find_product sid = do
    product ← query (λ db. or_zero zero_product (env.gorm.first_product_by_sid sid db))
    if product.id == 0
        then raise
            (new_app_error StatusCode.not_found (concat ("product: " ∷ sid ∷ " not found" ∷ [])))
        else pure product

  unfoldable pub update_product : UpdateProductRequest → Action (World Db Peer Redis Rng) (Unit {0})
  update_product req = do
    maybe_fail env "checkout.UpdateProduct"
    product ← find_product req.sid
    exec (env.gorm.save_product (updated_product req product))

  -- This query's error is returned whatever it is.
  unfoldable pub delete_product : DeleteProductRequest → Action (World Db Peer Redis Rng) (Unit {0})
  delete_product req = do
    maybe_fail env "checkout.DeleteProduct"
    product ← query (env.gorm.first_product_by_sid req.sid)
    exec (env.gorm.delete_product product)
