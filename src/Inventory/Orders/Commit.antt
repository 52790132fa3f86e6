-- ===== src/Inventory/Orders/Commit.antt =====
-- The transaction of `PlaceNewOrder` of inventory-service/orders_controller.go: the product's
-- stock, then the order's row.
use micro_market.Inventory.Steps.{Unchanged, Unchanged-refl}
use micro_market.Base.{find?, ℕ, String, ◌≡◌, refl, ap, ◌∙◌, none, [], ◌∷◌, ◌++◌, arith}
use micro_market.Common.AppError.{other}
use micro_market.Common.Action.{
  Result, ok, err, TransactionEnds, not_begun, rolled_back, committed, commit_failed,
}
use micro_market.Common.Query.{failed, Writes, wrote}
use micro_market.Inventory.Model.{ProductModel, OrderModel}
use micro_market.Inventory.Environment.{World, rollback, Environment}
use micro_market.Inventory.Contract.{
  order_has_sid, merge, change, stored_order, OrderCreated, ProductChanged, Contract,
}
use micro_market.Inventory.Orders.{place_body}

module _ {Db Peer Rng : Type 0} (env : Environment Db Peer Rng) (c : Contract env) where
  -- The effect of the transaction on the rows: the stock is written and the order added.
  pub record Placed (db : Db) (product : ProductModel) (order order' : OrderModel) (db' : Db)
      : Type 0 where
    pub at : ℕ
    pub row_id : ℕ
    pub row_at : ℕ
    pub row : order' ≡ stored_order row_id row_at order
    pub sid_new : find? (order_has_sid order.sid) (c.orders db) ≡ none
    pub products : c.products db' ≡ change product.id (merge product at) (c.products db)
    pub orders : c.orders db' ≡ c.orders db ++ order' ∷ []

  -- The ways in which the transaction's argument ends.
  data BodyEnds (product : ProductModel) (order : OrderModel) (w : World Db Peer Rng)
      (end : Result OrderModel × World Db Peer Rng) : Type 0 where
    gave_up :
        (m : String) (db' : Db)
        → end ≡ (err (other m), record w { db = db' })
        → BodyEnds product order w end
    done :
        (order' : OrderModel) (db' : Db)
        → end ≡ (ok order', record w { db = db' })
        → Placed w.db product order order' db'
        → BodyEnds product order w end

  place_body-BodyEnds :
      (product : ProductModel) (order : OrderModel) (w : World Db Peer Rng)
      → BodyEnds product order w (place_body env product order w)
  unfolding place_body
  place_body-BodyEnds product order w = first (c.updates_product product w.db)
    where
      second :
          (db1 : Db)
          → env.gorm.updates_product product w.db ≡ (ok tt, db1)
          → ProductChanged c.products c.orders w.db product.id (merge product) db1
          → Writes
              (OrderCreated c.products c.orders db1 order)
              db1
              (env.gorm.create_order order db1)
          → BodyEnds product order w (place_body env product order w)
      second db1 e u (failed m f) = gave_up m db1 (ground arith)
      second db1 e u (wrote o db2 f k) = done o db2 (ground arith) (record {
        at = u.at;
        row_id = k.id;
        row_at = k.at;
        row = k.row;
        sid_new = rw (u.orders) at k.sid_new;
        products = k.products ∙ u.products;
        orders = k.orders ∙ ap (λ l. l ++ o ∷ []) u.orders;
      })

      first :
          Writes
            (λ _ db'. ProductChanged c.products c.orders w.db product.id (merge product) db')
            w.db
            (env.gorm.updates_product product w.db)
          → BodyEnds product order w (place_body env product order w)
      first (failed m e) = gave_up m w.db (ground arith)
      first (wrote _ db1 e u) = second db1 e u (c.create_order order db1)

  -- The transaction as a whole: on a failure the database is the one before.
  pub data Commits (product : ProductModel) (order : OrderModel) (w : World Db Peer Rng)
      (end : Result OrderModel × World Db Peer Rng) : Type 0 where
    undone :
        (m : String) (w' : World Db Peer Rng)
        → end ≡ (err (other m), w')
        → Unchanged w w'
        → Commits product order w end
    recorded :
        (order' : OrderModel) (w' : World Db Peer Rng)
        → end ≡ (ok order', w')
        → w'.checkout ≡ w.checkout
        → Placed w.db product order order' w'.db
        → Commits product order w end

  pub transaction-Commits :
      (product : ProductModel) (order : OrderModel) (w : World Db Peer Rng)
      → Commits product order w (env.transaction OrderModel (place_body env product order) w)
  transaction-Commits product order w =
      go (place_body-BodyEnds product order w)
        (c.transaction OrderModel (place_body env product order) w)
    where
      go :
          BodyEnds product order w (place_body env product order w)
          → TransactionEnds rollback
              (place_body env product order)
              w
              (env.transaction OrderModel (place_body env product order) w)
          → Commits product order w (env.transaction OrderModel (place_body env product order) w)
      go b (not_begun m e) = undone m w e (Unchanged-refl w)
      go (gave_up m db' f) (rolled_back e w' g h) = undone m w (ground arith) (Unchanged-refl w)
      go (done o db' f p) (rolled_back e w' g h) = cc
      go (gave_up m db' f) (committed a w' g h) = cc
      go (done o db' f p) (committed a w' g h) =
          recorded o (record w { db = db' }) (ground arith) refl p
      go (gave_up m db' f) (commit_failed a m' w' g h) = cc
      go (done o db' f p) (commit_failed a m' w' g h) =
          undone m' w (ground arith) (Unchanged-refl w)
