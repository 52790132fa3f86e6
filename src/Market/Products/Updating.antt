-- ===== src/Market/Products/Updating.antt =====
-- A product that is updated, in the two services.
use micro_market.Base.{find?, ℕ, String, ◌≡◌, refl, sym, ap, subst, ◌∙◌, true, some}
use micro_market.Base.Int.{int32}
use micro_market.Common.AppError.{Error}
use micro_market.Common.Action.{ok}
use micro_market.Common.Wire.{CheckoutClient}
use micro_market.Market.Links.{IsCheckoutClient, answered_ok}
use micro_market.Inventory.Environment.{
  Environment as InventoryEnvironment, World as InventoryWorld,
}
use micro_market.Inventory.Contract.{Contract as InventoryContract}
use micro_market.Inventory.Model as InventoryModel
use micro_market.Inventory.Contract as InventoryContracts
use micro_market.Inventory.Products as Inventory
use micro_market.Inventory.Products.Updating as Updating
use micro_market.Checkout.Environment.{Environment as CheckoutEnvironment, World as CheckoutWorld}
use micro_market.Checkout.Contract.{Contract as CheckoutContract}
use micro_market.Checkout.Model as CheckoutModel
use micro_market.Checkout.Contract as CheckoutContracts
use micro_market.Checkout.Products as Checkout
use micro_market.Checkout.Products.Effects.{Saves}
use micro_market.Checkout.Grpc as CheckoutGrpc
use micro_market.Checkout.Products.Outcome as Changes

module _ {IDb IRng CDb CPeer Redis CRng : Type 0}
    (ie : InventoryEnvironment IDb (CheckoutWorld CDb CPeer Redis CRng) IRng)
    (ic : InventoryContract ie) (ce : CheckoutEnvironment CDb CPeer Redis CRng)
    (cc' : CheckoutContract ce) (text : Error → String)
    (linked : (client : CheckoutClient (CheckoutWorld CDb CPeer Redis CRng))
      → ie.client ≡ some client
      → IsCheckoutClient ce text client) where
  -- The row of one product changed in each service.
  pub record UpdatedInBoth (id : ℕ) (req : Inventory.ProductRequest)
      (w w' : InventoryWorld IDb (CheckoutWorld CDb CPeer Redis CRng) IRng) : Type 0 where
    pub kept : InventoryModel.ProductModel
    pub shown : CheckoutModel.ProductModel
    pub kept_found : find? (InventoryContracts.has_id id) (ic.products w.db) ≡ some kept
    pub shown_found :
        find? (CheckoutContracts.has_sid kept.sid) (cc'.products w.checkout.db) ≡ some shown
    pub kept_at : ℕ
    pub shown_at : ℕ
    pub row : CheckoutModel.ProductModel
    pub in_inventory :
        ic.products w'.db
        ≡ InventoryContracts.change id
            (InventoryContracts.saved (Inventory.updated_product req kept) kept_at)
            (ic.products w.db)
    pub in_checkout :
        cc'.products w'.checkout.db
        ≡ CheckoutContracts.change shown.id
            (CheckoutContracts.saved row shown_at)
            (cc'.products w.checkout.db)
    pub same_sid : row.sid ≡ shown.sid
    pub same_name : row.name ≡ req.name
    pub same_currency : row.currency ≡ req.currency
    pub same_price : row.price ≡ int32 req.price
    pub same_stock :
        CheckoutModel.is_out_of_stock row
        ≡ InventoryModel.is_out_of_stock (Inventory.updated_product req kept)

  -- Where the calls of the client are answered by the checkout service's handlers or lost, an
  -- update that `UpdateProduct` returns has written the request's name, currency and price, this
  -- as an `int32`, and the mark of being out of stock, to the product's row in both services, and
  -- to no other row.
  pub update_product-UpdatedInBoth :
      (id : ℕ) (req : Inventory.ProductRequest)
      (w w' : InventoryWorld IDb (CheckoutWorld CDb CPeer Redis CRng) IRng)
      (r : InventoryModel.ProductResource)
      → Inventory.update_product ie id req w ≡ (ok r, w')
      → UpdatedInBoth id req w w'
  unfolding CheckoutModel.is_out_of_stock Inventory.update_request Inventory.updated_product
      Checkout.updated_product CheckoutGrpc.update_product
  update_product-UpdatedInBoth id req w w' r e =
      go (Updating.update_product-UpdateEnds ie ic id req w)
    where
      in_checkout :
          (old : InventoryModel.ProductModel)
          (v : InventoryWorld IDb (CheckoutWorld CDb CPeer Redis CRng) IRng)
          → v ≡ w'
          → find? (InventoryContracts.has_id id) (ic.products w.db) ≡ some old
          → InventoryContracts.ProductChanged ic.products ic.orders w.db id
              (InventoryContracts.saved (Inventory.updated_product req old))
              v.db
          → Checkout.update_product ce
              (Inventory.update_request (Inventory.updated_product req old))
              w.checkout
            ≡ (ok tt, v.checkout)
          → Changes.ChangeEnds ce cc'
              (λ db'.
                Saves
                  (Inventory.update_request (Inventory.updated_product req old))
                  (cc'.products w.checkout.db)
                  (cc'.products db')
                  (cc'.orders w.checkout.db)
                  (cc'.orders db'))
              w.checkout
              (Checkout.update_product ce
                (Inventory.update_request (Inventory.updated_product req old))
                w.checkout)
          → UpdatedInBoth id req w w'
      in_checkout old v same n i f (Changes.refused x u g same') = cc
      in_checkout old v same n i f (Changes.changed u g quiet same' k) =
          let there : u ≡ v.checkout = ap (λ x. x.1) (sym g ∙ f) in
          subst (UpdatedInBoth id req w) same (record {
            kept = old;
            shown = k.old;
            kept_found = n;
            shown_found = k.found;
            kept_at = i.at;
            shown_at = k.at;
            row =
                Checkout.updated_product
                  (Inventory.update_request (Inventory.updated_product req old)) k.old;
            in_inventory = i.products;
            in_checkout =
                ap (λ (x : CheckoutWorld CDb CPeer Redis CRng). cc'.products x.db) (sym there)
                ∙ k.written;
            same_sid = refl;
            same_name = refl;
            same_currency = refl;
            same_price = refl;
            same_stock = refl;
          })

      go :
          Updating.UpdateEnds ie ic id req w (Inventory.update_product ie id req w)
          → UpdatedInBoth id req w w'
      go (Updating.refused x p v f u) = cc
      go (Updating.unknown_product v n f u) = cc
      go (Updating.updated old client s v n fc t f k _) =
          let same : v ≡ w' = ap (λ x. x.1) (sym f ∙ e) in
          let req' = Inventory.update_request (Inventory.updated_product req old) in
          let (u, a) =
            answered_ok text (λ _. record { success = true }) (Checkout.update_product ce) req'
              w.checkout v.checkout s (client.update_product req' w.checkout)
              ((linked client fc).update_product req' w.checkout) t in
          in_checkout old v same n k a (Changes.update_product-ChangeEnds ce cc' req' w.checkout)
