-- ===== src/Inventory/Products/Effects.antt =====
-- What `CreateProduct` and `UpdateProduct` of inventory-service/products_controller.go are to do,
-- field by field: the row, the message to the checkout service and the answer; and that those
-- that the code builds are the ones described.
use micro_market.Base.{
  find?, if◌then◌else◌, Bool-cases, ℕ, ◌<◌, String, ◌≡◌, refl, sym, ap, subst, ◌∙◌, inl, inr, Bool,
  true, false, Option, none, some, List, [], ◌∷◌, ◌++◌, arith,
}
use micro_market.Base.Int.{ℤ, pos, ltb_ℤ, leb_ℤ, int32}
use micro_market.Common.Action.{ok}
use micro_market.Common.Wire.{AddNewProductRequest, UpdateProductRequest, Success, CheckoutClient}
use micro_market.Inventory.Model.{
  ProductModel, zero_product, before_create, get_available_quantity, is_out_of_stock,
  ProductResource, product_resource, OrderModel,
}
use micro_market.Inventory.Contract.{
  has_id, has_sid, change, stored_product, ProductCreated, ProductChanged, saved,
}
use micro_market.Inventory.Products.{
  ProductRequest, new_product, updated_product, add_request, update_request,
}

-- The answer shows a row that holds the quantity and is marked as said.
pub record ShowsProduct (p : ProductModel) (quantity : ℤ) (mark : Bool) (r : ProductResource)
    : Type 0 where
  pub id_shown : r.internal_id ≡ p.id
  pub sid_shown : r.sid ≡ p.sid
  pub name_shown : r.name ≡ p.name
  pub price_shown : r.price ≡ p.price
  pub currency_shown : r.currency ≡ p.currency
  pub quantity_shown : r.available_quantity ≡ quantity
  pub mark_shown : r.out_of_stock ≡ mark
  pub time_shown : r.created_at ≡ p.created_at

-- What the checkout service is told of a new product, and of a product that is updated.
abbrev pub add_message : ProductRequest → String → AddNewProductRequest
add_message req sid = record {
  product = record {
    sid = sid;
    name = req.name;
    price = int32 req.price;
    currency = req.currency;
    out_of_stock = false;
  };
}

abbrev pub update_message : ProductRequest → String → UpdateProductRequest
update_message req sid = record {
  sid = sid;
  name = req.name;
  price = int32 req.price;
  currency = req.currency;
  available_quantity = int32 req.available_quantity;
  out_of_stock = leb_ℤ req.available_quantity (pos 0);
}

-- One new row `p` of the request's fields, that the checkout service has accepted.
pub record Creates {Peer : Type 0} (req : ProductRequest) (client : CheckoutClient Peer)
    (p : ProductModel) (r : ProductResource) (peer peer' : Peer) (ps ps' : List ProductModel)
    (os os' : List OrderModel) : Type 0 where
  pub added : ps' ≡ ps ++ p ∷ []
  pub key_pos : 0 < p.id
  pub new_key : find? (has_id p.id) ps ≡ none
  pub new_sid : find? (has_sid p.sid) ps ≡ none
  pub name_is : p.name ≡ req.name
  pub price_is : p.price ≡ req.price
  pub currency_is : p.currency ≡ req.currency
  pub quantity_is : p.available_quantity ≡ some req.available_quantity
  pub mark_is : p.out_of_stock ≡ some false
  pub live : p.deleted_at ≡ none
  pub success : Success
  pub accepted : client.add_new_product (add_message req p.sid) peer ≡ (ok success, peer')
  pub shown : ShowsProduct p req.available_quantity false r
  pub orders_kept : os' ≡ os

-- The row with the request's fields. It is marked where the quantity is not positive.
abbrev pub updated_row : ProductRequest → ProductModel → ProductModel
updated_row req old = record old {
  name = req.name;
  price = req.price;
  currency = req.currency;
  available_quantity = some req.available_quantity;
  out_of_stock = some (leb_ℤ req.available_quantity (pos 0));
}

-- The row of the key alone is written, and the checkout service has accepted it.
pub record Updates {Peer : Type 0} (id : ℕ) (req : ProductRequest) (client : CheckoutClient Peer)
    (old : ProductModel) (r : ProductResource) (peer peer' : Peer) (ps ps' : List ProductModel)
    (os os' : List OrderModel) : Type 0 where
  pub at : ℕ
  pub written : ps' ≡ change id (λ _. record (updated_row req old) { updated_at = at }) ps
  pub success : Success
  pub accepted : client.update_product (update_message req old.sid) peer ≡ (ok success, peer')
  pub shown :
      ShowsProduct
        (updated_row req old)
        req.available_quantity
        (leb_ℤ req.available_quantity (pos 0))
        r
  pub orders_kept : os' ≡ os

-- The code's own rows and messages are the ones described.
stored_fields :
    (req : ProductRequest) (ulid : String) (id t : ℕ)
    → stored_product id t (before_create ulid (new_product req)) ≡ record zero_product {
      id = id;
      sid = ulid;
      name = req.name;
      price = req.price;
      currency = req.currency;
      available_quantity = some req.available_quantity;
      out_of_stock = some false;
      created_at = t;
      updated_at = t;
    }
unfolding before_create new_product
stored_fields req ulid id t = refl

mark_lem : (q : ℤ) → (if ltb_ℤ (pos 0) q then some false else some true) ≡ some (leb_ℤ q (pos 0))
mark_lem q = elim (Bool-cases (leb_ℤ q (pos 0))) [
  | inl nothing ↦ ground arith
  | inr more ↦ ground arith
]

pub updated_product-updated_row :
    (req : ProductRequest) (old : ProductModel) → updated_product req old ≡ updated_row req old
unfolding updated_product
updated_product-updated_row req old =
    ap (λ (m : Option Bool). record (updated_row req old) { out_of_stock = m })
      (mark_lem req.available_quantity)

pub update_request-update_message :
    (req : ProductRequest) (old : ProductModel)
    → update_request (updated_product req old) ≡ update_message req old.sid
unfolding update_request
update_request-update_message req old = rw (updated_product-updated_row req old) refl

pub updated_product-ShowsProduct :
    (req : ProductRequest) (old : ProductModel)
    → ShowsProduct
        (updated_row req old)
        req.available_quantity
        (leb_ℤ req.available_quantity (pos 0))
        (product_resource (updated_product req old))
unfolding product_resource
updated_product-ShowsProduct req old = rw (updated_product-updated_row req old) (record {
  id_shown = refl;
  sid_shown = refl;
  name_shown = refl;
  price_shown = refl;
  currency_shown = refl;
  quantity_shown = refl;
  mark_shown = refl;
  time_shown = refl;
})

module _ {Db Peer : Type 0} (rows : Db → List ProductModel) (sold : Db → List OrderModel)
    (req : ProductRequest) (client : CheckoutClient Peer) (s : Success) (peer peer' : Peer)
    (db db' : Db) where
  pub ProductCreated-Creates :
      (p : ProductModel) (ulid : String)
      → client.add_new_product (add_request p) peer ≡ (ok s, peer')
      → ProductCreated rows sold db (before_create ulid (new_product req)) p db'
      → Creates req client p
          (product_resource p)
          peer
          peer'
          (rows db)
          (rows db')
          (sold db)
          (sold db')
  unfolding add_request product_resource before_create new_product
  ProductCreated-Creates p ulid t k =
      let row = k.row ∙ stored_fields req ulid k.id k.at in
      let key = ap (λ (x : ProductModel). x.id) k.row in
      let message : add_request p ≡ add_message req p.sid =
        subst (λ x. add_request x ≡ add_message req x.sid) (sym row) refl in
      record {
        added = k.products;
        key_pos = subst (λ i. 0 < i) (sym key) k.id_pos;
        new_key = subst (λ i. find? (has_id i) (rows db) ≡ none) (sym key) k.id_new;
        new_sid =
            subst (λ x. find? (has_sid x) (rows db) ≡ none)
              (sym (ap (λ (x : ProductModel). x.sid) k.row)) k.sid_new;
        name_is = ap (λ (x : ProductModel). x.name) row;
        price_is = ap (λ (x : ProductModel). x.price) row;
        currency_is = ap (λ (x : ProductModel). x.currency) row;
        quantity_is = ap (λ (x : ProductModel). x.available_quantity) row;
        mark_is = ap (λ (x : ProductModel). x.out_of_stock) row;
        live = ap (λ (x : ProductModel). x.deleted_at) row;
        success = s;
        accepted = rw message at t;
        shown = record {
          id_shown = refl;
          sid_shown = refl;
          name_shown = refl;
          price_shown = refl;
          currency_shown = refl;
          quantity_shown = ap (λ (x : ProductModel). get_available_quantity x) row;
          mark_shown = ap (λ (x : ProductModel). is_out_of_stock x) row;
          time_shown = refl;
        };
        orders_kept = k.orders;
      }

  pub ProductChanged-Updates :
      (id : ℕ) (old : ProductModel)
      → client.update_product (update_request (updated_product req old)) peer ≡ (ok s, peer')
      → ProductChanged rows sold db id (saved (updated_product req old)) db'
      → Updates id req client old
          (product_resource (updated_product req old))
          peer
          peer'
          (rows db)
          (rows db')
          (sold db)
          (sold db')
  ProductChanged-Updates id old t k = record {
    at = k.at;
    written =
        subst (λ p. rows db' ≡ change id (saved p k.at) (rows db))
          (updated_product-updated_row req old) k.products;
    success = s;
    accepted = rw (update_request-update_message req old) at t;
    shown = updated_product-ShowsProduct req old;
    orders_kept = k.orders;
  }
