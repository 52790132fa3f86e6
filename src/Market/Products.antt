-- ===== src/Market/Products.antt =====
-- A product across the two services: the functions of inventory-service/products_controller.go,
-- with the handlers of the checkout service at the other end of the client.
pub mod Updating
pub mod Deleting
use micro_market.Base.{
  find?, String, ◌≡◌, refl, sym, ap, subst, ◌∙◌, true, none, some, [], ◌∷◌, ◌++◌,
}
use micro_market.Base.Int.{int32}
use micro_market.Common.AppError.{Error}
use micro_market.Common.Action.{ok}
use micro_market.Common.Wire.{CheckoutClient}
use micro_market.Market.Links.{IsCheckoutClient, answered_ok}
use micro_market.Inventory.Environment.{
  Environment as InventoryEnvironment, World as InventoryWorld,
}
use micro_market.Inventory.Contract.{Contract as InventoryContract}
use micro_market.Inventory.Model as InventoryModel
use micro_market.Inventory.Contract as InventoryContracts
use micro_market.Inventory.Products as Inventory
use micro_market.Inventory.Products.Outcome as Creating
use micro_market.Checkout.Environment.{Environment as CheckoutEnvironment, World as CheckoutWorld}
use micro_market.Checkout.Contract.{Contract as CheckoutContract}
use micro_market.Checkout.Model as CheckoutModel
use micro_market.Checkout.Products.Effects.{Adds}
use micro_market.Checkout.Products as Checkout
use micro_market.Checkout.Grpc as CheckoutGrpc
use micro_market.Checkout.Products.Outcome as Changes

module _ {IDb IRng CDb CPeer Redis CRng : Type 0}
    (ie : InventoryEnvironment IDb (CheckoutWorld CDb CPeer Redis CRng) IRng)
    (ic : InventoryContract ie) (ce : CheckoutEnvironment CDb CPeer Redis CRng)
    (cc' : CheckoutContract ce) (text : Error → String)
    (linked : (client : CheckoutClient (CheckoutWorld CDb CPeer Redis CRng))
      → ie.client ≡ some client
      → IsCheckoutClient ce text client) where
  -- One new row in each service, of one product.
  pub record CreatedInBoth (w w' : InventoryWorld IDb (CheckoutWorld CDb CPeer Redis CRng) IRng)
      : Type 0 where
    pub kept : InventoryModel.ProductModel
    pub shown : CheckoutModel.ProductModel
    pub in_inventory : ic.products w'.db ≡ ic.products w.db ++ kept ∷ []
    pub in_checkout : cc'.products w'.checkout.db ≡ cc'.products w.checkout.db ++ shown ∷ []
    pub new_sid : find? (InventoryContracts.has_sid kept.sid) (ic.products w.db) ≡ none
    pub same_sid : shown.sid ≡ kept.sid
    pub same_name : shown.name ≡ kept.name
    pub same_currency : shown.currency ≡ kept.currency
    pub same_price : shown.price ≡ int32 kept.price
    pub same_stock : CheckoutModel.is_out_of_stock shown ≡ InventoryModel.is_out_of_stock kept

  -- Where the calls of the client are answered by the checkout service's handlers or lost, a product
  -- that `CreateProduct` returns is a new row in both services, with the same identifier, name,
  -- currency, and mark of being out of stock, and with its price as an `int32`.
  pub create_product-CreatedInBoth :
      (req : Inventory.ProductRequest)
      (w w' : InventoryWorld IDb (CheckoutWorld CDb CPeer Redis CRng) IRng)
      (r : InventoryModel.ProductResource)
      → Inventory.create_product ie req w ≡ (ok r, w')
      → CreatedInBoth w w'
  unfolding Inventory.add_request CheckoutModel.is_out_of_stock CheckoutGrpc.add_new_product
  create_product-CreatedInBoth req w w' r e = go (Creating.create_product-CreateEnds ie ic req w)
    where
      in_checkout :
          (p : InventoryModel.ProductModel)
          (v : InventoryWorld IDb (CheckoutWorld CDb CPeer Redis CRng) IRng)
          → v ≡ w'
          → ic.products v.db ≡ ic.products w.db ++ p ∷ []
          → find? (InventoryContracts.has_sid p.sid) (ic.products w.db) ≡ none
          → Checkout.add_new_product ce (Inventory.add_request p) w.checkout ≡ (ok tt, v.checkout)
          → Changes.ChangeEnds ce cc'
              (λ db'.
                Adds
                  (Inventory.add_request p).product
                  (cc'.products w.checkout.db)
                  (cc'.products db')
                  (cc'.orders w.checkout.db)
                  (cc'.orders db'))
              w.checkout
              (Checkout.add_new_product ce (Inventory.add_request p) w.checkout)
          → CreatedInBoth w w'
      in_checkout p v same i n f (Changes.refused x u g same') = cc
      in_checkout p v same i n f (Changes.changed u g quiet same' k) =
          let there : u ≡ v.checkout = ap (λ x. x.1) (sym g ∙ f) in
          subst (CreatedInBoth w) same (record {
            kept = p;
            shown = k.row;
            in_inventory = i;
            in_checkout =
                subst
                  (λ (x : CheckoutWorld CDb CPeer Redis CRng).
                    cc'.products x.db ≡ cc'.products w.checkout.db ++ k.row ∷ [])
                  there k.added;
            new_sid = n;
            same_sid = k.sid_is;
            same_name = k.name_is;
            same_currency = k.currency_is;
            same_price = k.price_is;
            same_stock = rw k.mark_is refl;
          })

      go : Creating.CreateEnds ie ic req w (Inventory.create_product ie req w) → CreatedInBoth w w'
      go (Creating.refused x v f u) = cc
      go (Creating.created p ulid client s v fc t f k _) =
          let same : v ≡ w' = ap (λ x. x.1) (sym f ∙ e) in
          let (u, a) =
            answered_ok text (λ _. record { success = true }) (Checkout.add_new_product ce)
              (Inventory.add_request p) w.checkout v.checkout s
              (client.add_new_product (Inventory.add_request p) w.checkout)
              ((linked client fc).add_new_product (Inventory.add_request p) w.checkout) t in
          let n =
            subst
              (λ (q : InventoryModel.ProductModel).
                find? (InventoryContracts.has_sid q.sid) (ic.products w.db) ≡ none)
              (sym k.row) k.sid_new in
          in_checkout p v same k.products n a
            (Changes.add_new_product-ChangeEnds ce cc' (Inventory.add_request p) w.checkout)
