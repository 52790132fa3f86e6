-- ===== src/Market/Mirror.antt =====
-- The products of the two services have the same identifiers, whatever is done that goes through.
pub mod Sids
pub mod Changes
use micro_market.Inventory.Orders.Effects.{taken-id}
use micro_market.Base.{ℕ, String, ◌≡◌, refl, sym, ap, subst, ◌∙◌, some, map, arith}
use micro_market.Common.AppError.{Error}
use micro_market.Common.Action.{ok}
use micro_market.Common.Wire.{CheckoutClient}
use micro_market.Market.Links.{IsCheckoutClient}
use micro_market.Market.Products as Creating
use micro_market.Market.Products.Updating
use micro_market.Market.Products.Deleting
use micro_market.Market.Mirror.Sids.{find?-key, sids-change}
use micro_market.Market.Mirror.Changes.{kept_id, kept_sid, shown_sid}
use micro_market.Market.Mirror.Changes as Changes
use micro_market.Inventory.Steps.{Unchanged}
use micro_market.Base.Int.{ℤ}
use micro_market.Inventory.Environment.{
  Environment as InventoryEnvironment, World as InventoryWorld,
}
use micro_market.Inventory.Contract.{Contract as InventoryContract}
use micro_market.Inventory.Model as InventoryModel
use micro_market.Inventory.Contract as InventoryContracts
use micro_market.Inventory.Products as Inventory
use micro_market.Inventory.Orders as InventoryOrders
use micro_market.Inventory.Orders.Outcome as Placing
use micro_market.Checkout.Environment.{Environment as CheckoutEnvironment, World as CheckoutWorld}
use micro_market.Checkout.Contract.{Contract as CheckoutContract}
use micro_market.Checkout.Model as CheckoutModel
use micro_market.Checkout.Contract as CheckoutContracts
use micro_market.Checkout.Orders as CheckoutOrders
use micro_market.Checkout.Orders.Outcome as Ordering

module _ {IDb IRng CDb CPeer Redis CRng : Type 0}
    (ie : InventoryEnvironment IDb (CheckoutWorld CDb CPeer Redis CRng) IRng)
    (ic : InventoryContract ie) (ce : CheckoutEnvironment CDb CPeer Redis CRng)
    (cc' : CheckoutContract ce) (text : Error → String)
    (linked : (client : CheckoutClient (CheckoutWorld CDb CPeer Redis CRng))
      → ie.client ≡ some client
      → IsCheckoutClient ce text client) where
  abbrev Worlds : Type 0
  Worlds = InventoryWorld IDb (CheckoutWorld CDb CPeer Redis CRng) IRng

  abbrev pub IsMirror : Worlds → Type 0
  IsMirror = Changes.IsMirror ie ic ce cc' text linked

  -- What may happen to the products: a change that goes through, and an order in either service,
  -- however it ends.
  pub data Step : Worlds → Worlds → Type 0 where
    created :
        {w w' : Worlds} (req : Inventory.ProductRequest) (r : InventoryModel.ProductResource)
        → Inventory.create_product ie req w ≡ (ok r, w')
        → Step w w'
    updated :
        {w w' : Worlds} (id : ℕ) (req : Inventory.ProductRequest)
        (r : InventoryModel.ProductResource)
        → Inventory.update_product ie id req w ≡ (ok r, w')
        → Step w w'
    deleted : {w w' : Worlds} (id : ℕ) → Inventory.delete_product ie id w ≡ (ok tt, w') → Step w w'
    placed :
        {w : Worlds} (req : InventoryOrders.PlaceOrderRequest)
        → Step w (InventoryOrders.place_new_order ie req w).1
    ordered :
        {w : Worlds} (req : CheckoutOrders.PlaceOrderRequest)
        → Step w (record w { checkout = (CheckoutOrders.place_new_order ce req w.checkout).1 })

  pub data Runs : Worlds → Worlds → Type 0 where
    start : {w : Worlds} → Runs w w
    step : {w w' w'' : Worlds} → Runs w w' → Step w' w'' → Runs w w''

  -- Neither table is changed.
  unchanged :
      (w w' : Worlds)
      → ic.products w'.db ≡ ic.products w.db
      → cc'.products w'.checkout.db ≡ cc'.products w.checkout.db
      → IsMirror w
      → IsMirror w'
  unchanged w w' k s m =
      Changes.moved ie ic ce cc' text linked (λ ss. ss) w w' (λ ss d e. d) m (ap (map kept_sid) k)
        (ap (map shown_sid) s)

  quiet : (w v w' : Worlds) → v ≡ w' → Unchanged w v → IsMirror w → IsMirror w'
  quiet w v w' here u m = subst IsMirror here (
      unchanged w v (ap ic.products u.db)
        (ap (λ (c : CheckoutWorld CDb CPeer Redis CRng). cc'.products c.db) u.checkout) m)

  -- The identifier of a row that stock is taken off.
  sid-merge :
      (p : InventoryModel.ProductModel) (q : ℤ) (t : ℕ)
      → (InventoryContracts.merge (InventoryOrders.taken p q) t p).sid ≡ p.sid
  unfolding InventoryOrders.taken
  sid-merge p q t = ground arith

  placed-IsMirror :
      (req : InventoryOrders.PlaceOrderRequest) (w w' : Worlds)
      → (InventoryOrders.place_new_order ie req w).1 ≡ w'
      → Placing.PlaceEnds ie ic req w (InventoryOrders.place_new_order ie req w)
      → IsMirror w
      → IsMirror w'
  placed-IsMirror req w w' e (Placing.injected x v f u) m =
      quiet w v w' (ap (λ x. x.1) (sym f) ∙ e) u m
  placed-IsMirror req w w' e (Placing.broken x v f u) m =
      quiet w v w' (ap (λ x. x.1) (sym f) ∙ e) u m
  placed-IsMirror req w w' e (Placing.unknown_product v n f u) m =
      quiet w v w' (ap (λ x. x.1) (sym f) ∙ e) u m
  placed-IsMirror req w w' e (Placing.short p v n s _ f u) m =
      quiet w v w' (ap (λ x. x.1) (sym f) ∙ e) u m
  placed-IsMirror req w w' e (Placing.placed p o v n s f c k _) m =
      let here : v ≡ w' = ap (λ x. x.1) (sym f) ∙ e in
      let rows = rw (taken-id p req.quantity) at k.products in
      subst IsMirror here (
        Changes.moved ie ic ce cc' text linked (λ ss. ss) w v (λ ss d e. d) m
          (ap (map kept_sid) rows
            ∙ sids-change kept_id kept_sid p.id
                (InventoryContracts.merge (InventoryOrders.taken p req.quantity) k.at) p
                (ic.products w.db) (ic.unique_ids w.db)
                (find?-key kept_id kept_sid (InventoryContracts.has_sid req.product_sid) p
                  (ic.products w.db) (ic.unique_ids w.db) n)
                (sid-merge p req.quantity k.at))
          (ap (λ (c : CheckoutWorld CDb CPeer Redis CRng). map shown_sid (cc'.products c.db)) c))

  ordered-IsMirror :
      (req : CheckoutOrders.PlaceOrderRequest) (w : Worlds) (v : CheckoutWorld CDb CPeer Redis CRng)
      → (CheckoutOrders.place_new_order ce req w.checkout).1 ≡ v
      → Ordering.PlaceEnds ce cc' req w.checkout (CheckoutOrders.place_new_order ce req w.checkout)
      → IsMirror w
      → IsMirror (record w { checkout = v })
  ordered-IsMirror req w v e (Ordering.refused x u f same quiet a) m =
      let here : u ≡ v = ap (λ x. x.1) (sym f) ∙ e in
      unchanged w (record w { checkout = v }) refl
        (ap (λ (c : CheckoutWorld CDb CPeer Redis CRng). cc'.products c.db) (sym here)
          ∙ ap cc'.products same)
        m
  ordered-IsMirror req w v e
        (Ordering.placed user product client resp order ulid peer s u fu fp fc er free t k rd f) m =
      let here : u ≡ v = ap (λ x. x.1) (sym f) ∙ e in
      unchanged w (record w { checkout = v }) refl
        (ap (λ (c : CheckoutWorld CDb CPeer Redis CRng). cc'.products c.db) (sym here) ∙ k.products)
        m

  Step-IsMirror : {w w' : Worlds} → Step w w' → IsMirror w → IsMirror w'
  Step-IsMirror {w = w} {w' = w'} (created req r e) m =
      Changes.created-IsMirror ie ic ce cc' text linked w w'
        (Creating.create_product-CreatedInBoth ie ic ce cc' text linked req w w' r e) m
  Step-IsMirror {w = w} {w' = w'} (updated id req r e) m =
      Changes.updated-IsMirror ie ic ce cc' text linked id req w w'
        (Updating.update_product-UpdatedInBoth ie ic ce cc' text linked id req w w' r e) m
  Step-IsMirror {w = w} {w' = w'} (deleted id e) m =
      Changes.deleted-IsMirror ie ic ce cc' text linked id w w'
        (Deleting.delete_product-DeletedInBoth ie ic ce cc' text linked id w w' e) m
  Step-IsMirror {w = w} (placed req) m =
      placed-IsMirror req w (InventoryOrders.place_new_order ie req w).1 refl
        (Placing.place_new_order-PlaceEnds ie ic req w) m
  Step-IsMirror {w = w} (ordered req) m =
      ordered-IsMirror req w (CheckoutOrders.place_new_order ce req w.checkout).1 refl
        (Ordering.place_new_order-OrderEnds ce cc' req w.checkout) m

  -- Where the two services list products of the same identifiers in the same order, each
  -- identifier once, they still do after any number of creations, updates and deletions that
  -- return without an error, and of orders in either service, however these end. The calls of the
  -- client are answered by the checkout service's handlers or lost.
  pub Runs-IsMirror : {w w' : Worlds} → IsMirror w → Runs w w' → IsMirror w'
  Runs-IsMirror m start = m
  Runs-IsMirror m (step r s) = Step-IsMirror s (Runs-IsMirror m r)
