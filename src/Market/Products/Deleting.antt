-- ===== src/Market/Products/Deleting.antt =====
-- A product that is deleted, in the two services.
use micro_market.Base.{find?, keep, ◌==◌, ℕ, String, ◌≡◌, sym, ap, subst, ◌∙◌, true, not, some}
use micro_market.Common.AppError.{Error}
use micro_market.Common.Action.{ok}
use micro_market.Common.Wire.{CheckoutClient}
use micro_market.Market.Links.{IsCheckoutClient, answered_ok}
use micro_market.Inventory.Environment.{
  Environment as InventoryEnvironment, World as InventoryWorld,
}
use micro_market.Inventory.Contract.{Contract as InventoryContract}
use micro_market.Inventory.Model as InventoryModel
use micro_market.Inventory.Contract as InventoryContracts
use micro_market.Inventory.Products as Inventory
use micro_market.Inventory.Products.Deleting as Deleting
use micro_market.Checkout.Environment.{Environment as CheckoutEnvironment, World as CheckoutWorld}
use micro_market.Checkout.Contract.{Contract as CheckoutContract}
use micro_market.Checkout.Model as CheckoutModel
use micro_market.Checkout.Contract as CheckoutContracts
use micro_market.Checkout.Products as Checkout
use micro_market.Checkout.Grpc as CheckoutGrpc
use micro_market.Checkout.Products.Outcome as Changes

module _ {IDb IRng CDb CPeer Redis CRng : Type 0}
    (ie : InventoryEnvironment IDb (CheckoutWorld CDb CPeer Redis CRng) IRng)
    (ic : InventoryContract ie) (ce : CheckoutEnvironment CDb CPeer Redis CRng)
    (cc' : CheckoutContract ce) (text : Error → String)
    (linked : (client : CheckoutClient (CheckoutWorld CDb CPeer Redis CRng))
      → ie.client ≡ some client
      → IsCheckoutClient ce text client) where
  -- The row of one product taken out in each service.
  pub record DeletedInBoth (id : ℕ)
      (w w' : InventoryWorld IDb (CheckoutWorld CDb CPeer Redis CRng) IRng) : Type 0 where
    pub kept : InventoryModel.ProductModel
    pub shown : CheckoutModel.ProductModel
    pub kept_found : find? (InventoryContracts.has_id id) (ic.products w.db) ≡ some kept
    pub shown_found :
        find? (CheckoutContracts.has_sid kept.sid) (cc'.products w.checkout.db) ≡ some shown
    pub in_inventory : ic.products w'.db ≡ keep (λ p. not (p.id == id)) (ic.products w.db)
    pub in_checkout :
        cc'.products w'.checkout.db
        ≡ keep (λ p. not (p.id == shown.id)) (cc'.products w.checkout.db)

  -- Where the calls of the client are answered by the checkout service's handlers or lost, a
  -- deletion that `DeleteProduct` returns from without an error has taken out the product's row in
  -- the inventory service and the row of the same identifier in the checkout service, and no other
  -- row.
  pub delete_product-DeletedInBoth :
      (id : ℕ) (w w' : InventoryWorld IDb (CheckoutWorld CDb CPeer Redis CRng) IRng)
      → Inventory.delete_product ie id w ≡ (ok tt, w')
      → DeletedInBoth id w w'
  unfolding CheckoutGrpc.delete_product
  delete_product-DeletedInBoth id w w' e = go (Deleting.delete_product-DeleteEnds ie ic id w)
    where
      in_checkout :
          (old : InventoryModel.ProductModel)
          (v : InventoryWorld IDb (CheckoutWorld CDb CPeer Redis CRng) IRng)
          → v ≡ w'
          → find? (InventoryContracts.has_id id) (ic.products w.db) ≡ some old
          → InventoryContracts.ProductDeleted ic.products ic.orders w.db id v.db
          → Checkout.delete_product ce (record { sid = old.sid }) w.checkout ≡ (ok tt, v.checkout)
          → Changes.ChangeEnds ce cc'
              (λ db'.
                (p : CheckoutModel.ProductModel) × (find?
                    (CheckoutContracts.has_sid old.sid)
                    (cc'.products w.checkout.db)
                  ≡ some p)
                × CheckoutContracts.ProductDeleted cc'.products cc'.orders w.checkout.db p db')
              w.checkout
              (Checkout.delete_product ce (record { sid = old.sid }) w.checkout)
          → DeletedInBoth id w w'
      in_checkout old v same n i f (Changes.refused x u g same') = cc
      in_checkout old v same n i f (Changes.changed u g quiet same' (q, m, k)) =
          let there : u ≡ v.checkout = ap (λ x. x.1) (sym g ∙ f) in
          subst (DeletedInBoth id w) same (record {
            kept = old;
            shown = q;
            kept_found = n;
            shown_found = m;
            in_inventory = i.products;
            in_checkout =
                ap (λ (x : CheckoutWorld CDb CPeer Redis CRng). cc'.products x.db) (sym there)
                ∙ k.products;
          })

      go : Deleting.DeleteEnds ie ic id w (Inventory.delete_product ie id w) → DeletedInBoth id w w'
      go (Deleting.refused x sid v f u) = cc
      go (Deleting.unknown_product v n f u) = cc
      go (Deleting.deleted old client s v n fc t f k) =
          let same : v ≡ w' = ap (λ x. x.1) (sym f ∙ e) in
          let (u, a) =
            answered_ok text (λ _. record { success = true }) (Checkout.delete_product ce)
              (record { sid = old.sid }) w.checkout v.checkout s
              (client.delete_product (record { sid = old.sid }) w.checkout)
              ((linked client fc).delete_product (record { sid = old.sid }) w.checkout) t in
          in_checkout old v same n k a
            (Changes.delete_product-ChangeEnds ce cc' (record { sid = old.sid }) w.checkout)
