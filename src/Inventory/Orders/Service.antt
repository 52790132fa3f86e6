-- ===== src/Inventory/Orders/Service.antt =====
-- When `PlaceNewOrder` of inventory-service/orders_controller.go returns an order: over a database
-- whose statements do not fail, and without an injected fault.
use micro_market.Base.{
  refl, ◌<◌, Option, subst, find?, Bool-cases, String, ◌≡◌, sym, ap, ◌∙◌, inl, inr, Bool, true,
  false, none, some, List, arith,
}
use micro_market.Common.Action.{Result, ok, err, Action}
use micro_market.Common.Query.{or_not_found, Writes, wrote}
use micro_market.Inventory.Model.{ProductModel, OrderModel}
use micro_market.Inventory.Environment.{or_zero, World, Environment, maybe_fail}
use micro_market.Inventory.Contract.{has_sid, order_has_sid, merge, ProductChanged, Contract}
use micro_market.Inventory.Products.{find_product}
use micro_market.Inventory.Orders.{
  PlaceOrderRequest, is_short, taken, new_order, place_body, place_new_order,
}
use micro_market.Inventory.Orders.Effects.{can_fill, can_fill_of_short}
use micro_market.Inventory.Steps.{
  find?-All, Unchanged, MayFail, injected, passed, maybe_fail-MayFail,
}

-- The product is there, not marked as out of stock, and so is the quantity.
pub can_place : PlaceOrderRequest → List ProductModel → Bool
can_place req ps = elim (find? (has_sid req.product_sid) ps) [
  | none ↦ false
  | some p ↦ can_fill p req.quantity
]

abbrev pub is_ok : {A : Type 0} → Result A → Bool
is_ok (ok a) = true
is_ok (err e) = false

module _ {Db Peer Rng : Type 0} (env : Environment Db Peer Rng) (c : Contract env) where
  -- No query or statement fails that the contract lets succeed, and a transaction commits.
  pub record IsReliable : Type 0 where
    pub first_by_sid :
        (sid : String) (db : Db)
        → env.gorm.first_by_sid sid db ≡ or_not_found (find? (has_sid sid) (c.products db))
    pub updates_product :
        (p : ProductModel) (db : Db) → (db' : Db) × (env.gorm.updates_product p db ≡ (ok tt, db'))
    pub create_order :
        (o : OrderModel) (db : Db)
        → find? (order_has_sid o.sid) (c.orders db) ≡ none
        → (x : OrderModel) × (db' : Db) × (env.gorm.create_order o db ≡ (ok x, db'))
    pub transaction :
        (body : Action (World Db Peer Rng) OrderModel) (w w' : World Db Peer Rng) (o : OrderModel)
        → body w ≡ (ok o, w')
        → env.transaction OrderModel body w ≡ (ok o, w')

  -- The transaction's argument succeeds for an order with a new identifier.
  place_body_lem :
      IsReliable
      → (product : ProductModel) (order : OrderModel) (w : World Db Peer Rng)
      → find? (order_has_sid order.sid) (c.orders w.db) ≡ none
      → (o : OrderModel) × (w' : World Db Peer Rng) × (place_body env product order w ≡ (ok o, w'))
  unfolding place_body
  place_body_lem rel product order w free =
      let (db1, e) = rel.updates_product product w.db in go db1 e (c.updates_product product w.db)
    where
      go :
          (db1 : Db)
          → env.gorm.updates_product product w.db ≡ (ok tt, db1)
          → Writes
              (λ _ db'. ProductChanged c.products c.orders w.db product.id (merge product) db')
              w.db
              (env.gorm.updates_product product w.db)
          → (o : OrderModel) × (w' : World Db Peer Rng) × (place_body env product order w
              ≡ (ok o, w'))
      go db1 e (Writes.failed m f) = cc
      go db1 e (wrote _ db2 f k) =
          let (o, db3, g) = rel.create_order order db2 (rw k.orders free) in
          (o, record w { db = db3 }, ground arith)

  -- Where no statement of the database fails and no fault is injected, a call with a new order's
  -- identifier returns an order if the product is there, is not marked as out of stock and holds
  -- the quantity, and an error if not.
  pub place_new_order-can_place :
      IsReliable
      → (req : PlaceOrderRequest) (w w1 : World Db Peer Rng)
      → maybe_fail env "inventory.PlaceNewOrder" w ≡ (ok tt, w1)
      → find? (order_has_sid req.order_sid) (c.orders w.db) ≡ none
      → is_ok (place_new_order env req w).0 ≡ can_place req (c.products w.db)
  unfolding place_new_order can_place new_order find_product or_zero
  place_new_order-can_place rel req w w1 passes free =
      start (maybe_fail-MayFail env "inventory.PlaceNewOrder" w)
    where
      at_row :
          Unchanged w w1
          → (row : Option ProductModel) → find? (has_sid req.product_sid) (c.products w1.db) ≡ row
          → is_ok (place_new_order env req w).0 ≡ can_place req (c.products w1.db)
      at_row u none n = let e = rel.first_by_sid req.product_sid w1.db in ground arith
      at_row u (some p) n =
          let e = rel.first_by_sid req.product_sid w1.db in
          let key =
            find?-All (λ p. 0 < p.id) (has_sid req.product_sid) p (c.products w1.db)
              (c.product_ids w1.db) n in
          let (o, w2, f) =
            place_body_lem rel (taken p req.quantity) (new_order req p) w1 (rw u.db free) in
          let g =
            rel.transaction (place_body env (taken p req.quantity) (new_order req p)) w1 w2 o f in
          elim (Bool-cases (is_short p req.quantity)) [
            | inl short ↦ let no_fill = can_fill_of_short p req.quantity false short in ground arith
            | inr enough ↦ let fills = can_fill_of_short p req.quantity true enough in ground arith
          ]

      start :
          MayFail env w (maybe_fail env "inventory.PlaceNewOrder" w)
          → is_ok (place_new_order env req w).0 ≡ can_place req (c.products w.db)
      start (injected e w' f u) = cc
      start (passed w' f u) =
          let same : w' ≡ w1 = ap (λ x. x.1) (sym f ∙ passes) in
          let v = subst (Unchanged w) same u in
          at_row v (find? (has_sid req.product_sid) (c.products w1.db)) refl
          ∙ ap (λ db. can_place req (c.products db)) v.db
