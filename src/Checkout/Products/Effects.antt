-- ===== src/Checkout/Products/Effects.antt =====
-- What `AddNewProduct` and `UpdateProduct` of checkout-service/products_controller.go are to do to
-- the table, field by field, and that the rows that the code builds are the ones described.
use micro_market.Base.{find?, ℕ, ◌<◌, ◌≡◌, sym, ap, subst, none, some, List, [], ◌∷◌, ◌++◌}
use micro_market.Common.Wire.{Product, UpdateProductRequest}
use micro_market.Checkout.Model.{ProductModel, OrderModel}
use micro_market.Checkout.Contract.{has_id, has_sid, change, ProductCreated, ProductSaved}
use micro_market.Checkout.Products.{new_product, updated_product}

-- One new row, with the fields of the product that the inventory service sent.
pub record Adds (sent : Product) (ps ps' : List ProductModel) (os os' : List OrderModel)
    : Type 0 where
  pub row : ProductModel
  pub added : ps' ≡ ps ++ row ∷ []
  pub key_pos : 0 < row.id
  pub new_key : find? (has_id row.id) ps ≡ none
  pub new_sid : find? (has_sid sent.sid) ps ≡ none
  pub sid_is : row.sid ≡ sent.sid
  pub name_is : row.name ≡ sent.name
  pub price_is : row.price ≡ sent.price
  pub currency_is : row.currency ≡ sent.currency
  pub mark_is : row.out_of_stock ≡ some sent.out_of_stock
  pub live : row.deleted_at ≡ none
  pub orders_kept : os' ≡ os

-- The row of a product once the request is written to it.
abbrev pub written_row : UpdateProductRequest → ProductModel → ℕ → ProductModel
written_row req old t = record old {
  name = req.name;
  price = req.price;
  currency = req.currency;
  out_of_stock = some req.out_of_stock;
  updated_at = t;
}

-- The row of the request's identifier is written, and no other.
pub record Saves (req : UpdateProductRequest) (ps ps' : List ProductModel)
    (os os' : List OrderModel) : Type 0 where
  pub old : ProductModel
  pub at : ℕ
  pub found : find? (has_sid req.sid) ps ≡ some old
  pub written : ps' ≡ change old.id (λ _. written_row req old at) ps
  pub orders_kept : os' ≡ os

module _ {Db : Type 0} (rows : Db → List ProductModel) (sold : Db → List OrderModel) where
  pub ProductCreated-Adds :
      (sent : Product) (p : ProductModel) (db db' : Db)
      → ProductCreated rows sold db (new_product sent) p db'
      → Adds sent (rows db) (rows db') (sold db) (sold db')
  unfolding new_product
  ProductCreated-Adds sent p db db' k =
      let key = ap (λ (x : ProductModel). x.id) k.row in
      record {
        row = p;
        added = k.products;
        key_pos = subst (λ i. 0 < i) (sym key) k.id_pos;
        new_key = subst (λ i. find? (has_id i) (rows db) ≡ none) (sym key) k.id_new;
        new_sid = k.sid_new;
        sid_is = ap (λ (x : ProductModel). x.sid) k.row;
        name_is = ap (λ (x : ProductModel). x.name) k.row;
        price_is = ap (λ (x : ProductModel). x.price) k.row;
        currency_is = ap (λ (x : ProductModel). x.currency) k.row;
        mark_is = ap (λ (x : ProductModel). x.out_of_stock) k.row;
        live = ap (λ (x : ProductModel). x.deleted_at) k.row;
        orders_kept = k.orders;
      }

  pub ProductSaved-Saves :
      (req : UpdateProductRequest) (old : ProductModel) (db db' : Db)
      → find? (has_sid req.sid) (rows db) ≡ some old
      → ProductSaved rows sold db (updated_product req old) db'
      → Saves req (rows db) (rows db') (sold db) (sold db')
  unfolding updated_product
  ProductSaved-Saves req old db db' f k = record {
    old = old;
    at = k.at;
    found = f;
    written = k.products;
    orders_kept = k.orders;
  }
