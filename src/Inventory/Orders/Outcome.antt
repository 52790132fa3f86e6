-- ===== src/Inventory/Orders/Outcome.antt =====
-- How `PlaceNewOrder` of inventory-service/orders_controller.go ends.
use micro_market.Inventory.Orders.Commit.{Placed, Commits, undone, recorded, transaction-Commits}
use micro_market.Inventory.Rows.{find?-has_id}
use micro_market.Inventory.Orders.Effects.{
  can_fill, IsOrderOf, Sells, can_fill_of_short, change-after_sale, new_order-IsOrderOf,
  order_resource-ShowsOrder,
}
use micro_market.Inventory.Products.{find_product}
use micro_market.Inventory.Steps.{
  Unchanged, Unchanged-refl, Unchanged-trans, MayFail, passed, maybe_fail-MayFail, Finds, found,
  absent, find_product-Finds, find?-All,
}
use micro_market.Base.{
  find?, if◌then◌else◌, Bool-cases, ◌<◌, String, ◌≡◌, sym, subst, ◌∙◌, inl, inr, true, false, none,
  some, arith,
}
use micro_market.Common.AppError.{Error, other, new_app_error}
use micro_market.Common.Action.{Result, ok, err, Action, pure, raise, ◌>>=◌}
use micro_market.Inventory.Model.{ProductModel, OrderModel, OrderResource, order_resource}
use micro_market.Inventory.Environment.{World, Environment, maybe_fail}
use micro_market.Inventory.Contract.{has_sid, Contract}
use micro_market.Inventory.Orders.{
  PlaceOrderRequest, out_of_stock_error, is_short, taken, new_order, place_body, place_new_order,
}

module _ {Db Peer Rng : Type 0} (env : Environment Db Peer Rng) (c : Contract env) where
  -- How a call on the world `w` ends. Errors of gorm are told by their texts alone.
  pub data PlaceEnds (req : PlaceOrderRequest) (w : World Db Peer Rng)
      (end : Result OrderResource × World Db Peer Rng) : Type 0 where
    injected :
        (e : Error) (w' : World Db Peer Rng)
        → end ≡ (err e, w')
        → Unchanged w w'
        → PlaceEnds req w end
    broken :
        (m : String) (w' : World Db Peer Rng)
        → end ≡ (err (other m), w')
        → Unchanged w w'
        → PlaceEnds req w end
    unknown_product :
        (w' : World Db Peer Rng)
        → find? (has_sid req.product_sid) (c.products w.db) ≡ none
        → end ≡ (err (new_app_error 404 "product not found"), w')
        → Unchanged w w'
        → PlaceEnds req w end
    short :
        (product : ProductModel) (w' : World Db Peer Rng)
        → find? (has_sid req.product_sid) (c.products w.db) ≡ some product
        → is_short product req.quantity ≡ true
        → can_fill product req.quantity ≡ false
        → end ≡ (err (new_app_error 400 "product out of stock"), w')
        → Unchanged w w'
        → PlaceEnds req w end
    placed :
        (product : ProductModel) (order : OrderModel) (w' : World Db Peer Rng)
        → find? (has_sid req.product_sid) (c.products w.db) ≡ some product
        → is_short product req.quantity ≡ false
        → end ≡ (ok (order_resource order), w')
        → w'.checkout ≡ w.checkout
        → Placed env c w.db (taken product req.quantity) (new_order req product) order w'.db
        → Sells req product order
            (order_resource order)
            (c.products w.db)
            (c.products w'.db)
            (c.orders w.db)
            (c.orders w'.db)
        → PlaceEnds req w end

  -- What the transaction does to the rows is the sale that is described.
  Placed-Sells :
      (req : PlaceOrderRequest) (p : ProductModel) (o : OrderModel) (db db' : Db)
      → find? (has_sid req.product_sid) (c.products db) ≡ some p
      → is_short p req.quantity ≡ false
      → Placed env c db (taken p req.quantity) (new_order req p) o db'
      → Sells req p o
          (order_resource o)
          (c.products db)
          (c.products db')
          (c.orders db)
          (c.orders db')
  unfolding new_order
  Placed-Sells req p o db db' f s k = record {
    at = k.at;
    filled = can_fill_of_short p req.quantity true s;
    stock_taken =
        k.products
        ∙ change-after_sale p req.quantity k.at (c.products db) (c.unique_ids db)
            (find?-has_id _ p (c.products db) (c.unique_ids db) f);
    order_is = subst (IsOrderOf req p) (sym k.row) (new_order-IsOrderOf req p k.row_id k.row_at);
    new_sid = k.sid_new;
    order_added = k.orders;
    answer = order_resource-ShowsOrder o;
  }

  -- What follows the injected fault, on the world that it leaves.
  abbrev after_fault : PlaceOrderRequest → Action (World Db Peer Rng) OrderResource
  after_fault req = do
    product ← find_product env (env.gorm.first_by_sid req.product_sid)
    if is_short product req.quantity then raise out_of_stock_error else (do
      order ←
          env.transaction OrderModel
            (place_body env (taken product req.quantity) (new_order req product))
      pure (order_resource order))

  after_fault-PlaceEnds :
      (req : PlaceOrderRequest) (w : World Db Peer Rng) → PlaceEnds req w (after_fault req w)
  after_fault-PlaceEnds req w = go (
      find_product-Finds env (env.gorm.first_by_sid req.product_sid)
        (find? (has_sid req.product_sid) (c.products w.db)) w
        (λ p.
          find?-All (λ p. 0 < p.id) (has_sid req.product_sid) p (c.products w.db)
            (c.product_ids w.db))
        (c.first_by_sid req.product_sid w.db))
    where
      commit :
          (p : ProductModel)
          → find? (has_sid req.product_sid) (c.products w.db) ≡ some p
          → find_product env (env.gorm.first_by_sid req.product_sid) w ≡ (ok p, w)
          → is_short p req.quantity ≡ false
          → Commits env c (taken p req.quantity) (new_order req p) w (
              env.transaction OrderModel
                (place_body env (taken p req.quantity) (new_order req p))
                w)
          → PlaceEnds req w (after_fault req w)
      commit p f e s (undone m w' g u) = broken m w' (ground arith) u
      commit p f e s (recorded o w' g same q) =
          placed p o w' f s (ground arith) same q (Placed-Sells req p o w.db w'.db f s q)

      go :
          Finds env
            (find? (has_sid req.product_sid) (c.products w.db))
            w
            (find_product env (env.gorm.first_by_sid req.product_sid) w)
          → PlaceEnds req w (after_fault req w)
      go (absent f e) = unknown_product w f (ground arith) (Unchanged-refl w)
      go (Finds.broken m e) = broken m w (ground arith) (Unchanged-refl w)
      go (found p f e) = elim (Bool-cases (is_short p req.quantity)) [
        | inl yes' ↦
            short p w f yes' (can_fill_of_short p req.quantity false yes') (ground arith)
              (Unchanged-refl w)
        | inr no' ↦
            commit p f e no' (transaction-Commits env c (taken p req.quantity) (new_order req p) w)
      ]

  PlaceEnds-after :
      (req : PlaceOrderRequest) (w w1 : World Db Peer Rng)
      (end : Result OrderResource × World Db Peer Rng)
      → Unchanged w w1
      → PlaceEnds req w1 end
      → PlaceEnds req w end
  PlaceEnds-after req w w1 end u (injected e w' f v) = injected e w' f (Unchanged-trans u v)
  PlaceEnds-after req w w1 end u (broken m w' f v) = broken m w' f (Unchanged-trans u v)
  PlaceEnds-after req w w1 end u (unknown_product w' n f v) =
      unknown_product w' (rw u.db at n) f (Unchanged-trans u v)
  PlaceEnds-after req w w1 end u (short p w' n s a f v) =
      short p w' (rw u.db at n) s a f (Unchanged-trans u v)
  PlaceEnds-after req w w1 end u (placed p o w' n s f same q k) =
      placed p o w' (rw u.db at n) s f (same ∙ u.checkout) (rw u.db at q) (rw u.db at k)

  pub place_new_order-PlaceEnds :
      (req : PlaceOrderRequest) (w : World Db Peer Rng)
      → PlaceEnds req w (place_new_order env req w)
  unfolding place_new_order
  place_new_order-PlaceEnds req w = go (maybe_fail-MayFail env "inventory.PlaceNewOrder" w)
    where
      go :
          MayFail env w (maybe_fail env "inventory.PlaceNewOrder" w)
          → PlaceEnds req w (place_new_order env req w)
      go (MayFail.injected e w' f u) = injected e w' (ground arith) u
      go (passed w1 f u) =
          PlaceEnds-after req w w1 _ u
            (subst (PlaceEnds req w1) (ground arith) (after_fault-PlaceEnds req w1))
