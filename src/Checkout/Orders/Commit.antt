-- ===== src/Checkout/Orders/Commit.antt =====
-- The transaction of `PlaceNewOrder` of checkout-service/orders_controller.go: the order's row,
-- then its registration with the inventory service, which no rollback reaches.
use micro_market.Base.{if◌then◌else◌, String, ◌≡◌, refl, arith, str_eq}
use micro_market.Common.AppError.{Error, other}
use micro_market.Common.Action.{
  Result, ok, err, TransactionEnds, not_begun, rolled_back, committed, commit_failed,
}
use micro_market.Common.Query.{failed, Writes, wrote}
use micro_market.Common.Wire.{Success, InventoryClient}
use micro_market.Checkout.Model.{ProductModel, OrderModel, before_create}
use micro_market.Checkout.Environment.{World, rollback, Environment, create}
use micro_market.Checkout.Contract.{OrderCreated, Contract}
use micro_market.Checkout.Orders.{
  PlaceOrderRequest, new_order, register_request, translate, place_body,
}

module _ {Db Peer Redis Rng : Type 0} (env : Environment Db Peer Redis Rng) (c : Contract env) where
  module _ (client : InventoryClient Peer) (req : PlaceOrderRequest) (product : ProductModel)
      (w : World Db Peer Redis Rng) where
    -- The inventory service has not been called, or once to register an order of the request.
    pub data Registers (peer : Peer) : Type 0 where
      uncalled : peer ≡ w.inventory → Registers peer
      called :
          (order : OrderModel)
          → peer ≡ (client.register_order (register_request req product order) w.inventory).1
          → Registers peer

    -- How the transaction ends.
    pub data Commits (end : Result OrderModel × World Db Peer Redis Rng) : Type 0 where
      undone :
          (e : Error) (w' : World Db Peer Redis Rng)
          → end ≡ (err e, w')
          → w'.db ≡ w.db
          → w'.redis ≡ w.redis
          → Registers w'.inventory
          → Commits end
      recorded :
          (order : OrderModel) (ulid : String) (s : Success) (w' : World Db Peer Redis Rng)
          → end ≡ (ok order, w')
          → OrderCreated c.products c.orders w.db
              (before_create ulid (new_order req product))
              order
              w'.db
          → client.register_order (register_request req product order) w.inventory
            ≡ (ok s, w'.inventory)
          → w'.redis ≡ w.redis
          → Commits end

    -- How its argument ends.
    data BodyEnds (end : Result OrderModel × World Db Peer Redis Rng) : Type 0 where
      stopped :
          (e : Error) (w' : World Db Peer Redis Rng)
          → end ≡ (err e, w')
          → w'.redis ≡ w.redis
          → Registers w'.inventory
          → BodyEnds end
      done :
          (order : OrderModel) (ulid : String) (s : Success) (w' : World Db Peer Redis Rng)
          → end ≡ (ok order, w')
          → OrderCreated c.products c.orders w.db
              (before_create ulid (new_order req product))
              order
              w'.db
          → client.register_order (register_request req product order) w.inventory
            ≡ (ok s, w'.inventory)
          → w'.redis ≡ w.redis
          → BodyEnds end

    place_body-BodyEnds : BodyEnds (place_body env client req product w)
    unfolding place_body create
    place_body-BodyEnds = go (c.create_order (before_create ulid row) w.db)
      where
        row : OrderModel
        row = new_order req product

        ulid : String
        ulid = (env.make_ulid w.rng).0

        next : Rng
        next = if str_eq row.sid "" then (env.make_ulid w.rng).1 else w.rng

        answer :
            (o : OrderModel) (db' : Db)
            → env.gorm.create_order (before_create ulid row) w.db ≡ (ok o, db')
            → OrderCreated c.products c.orders w.db (before_create ulid row) o db'
            → (r : Result Success) (peer : Peer)
            → client.register_order (register_request req product o) w.inventory ≡ (r, peer)
            → BodyEnds (place_body env client req product w)
        answer o db' e k (ok s) peer t =
            done o ulid s (record w { db = db'; rng = next; inventory = peer }) (ground arith) k t
              refl
        answer o db' e k (err x) peer t =
            stopped (translate env.from_error x)
              (record w { db = db'; rng = next; inventory = peer }) (ground arith) refl
              (called o (rw t))

        go :
            Writes
              (OrderCreated c.products c.orders w.db (before_create ulid row))
              w.db
              (env.gorm.create_order (before_create ulid row) w.db)
            → BodyEnds (place_body env client req product w)
        go (failed m e) =
            stopped (other m) (record w { rng = next }) (ground arith) refl (uncalled refl)
        go (wrote o db' e k) =
            answer o db' e k (client.register_order (register_request req product o) w.inventory).0
              (client.register_order (register_request req product o) w.inventory).1 refl

    pub transaction-Commits :
        Commits (env.transaction OrderModel (place_body env client req product) w)
    transaction-Commits =
        go place_body-BodyEnds (c.transaction OrderModel (place_body env client req product) w)
      where
        go :
            BodyEnds (place_body env client req product w)
            → TransactionEnds rollback
                (place_body env client req product)
                w
                (env.transaction OrderModel (place_body env client req product) w)
            → Commits (env.transaction OrderModel (place_body env client req product) w)
        go b (not_begun m e) = undone (other m) w e refl refl (uncalled refl)
        go (stopped x w' f same t) (rolled_back e w'' g h) =
            undone x (rollback w w') (ground arith) refl same t
        go (stopped x w' f same t) (committed a w'' g h) = cc
        go (stopped x w' f same t) (commit_failed a m w'' g h) = cc
        go (done o u s w' f k t same) (rolled_back e w'' g h) = cc
        go (done o u s w' f k t same) (committed a w'' g h) =
            recorded o u s w' (ground arith) k t same
        go (done o u s w' f k t same) (commit_failed a m w'' g h) =
            undone (other m) (rollback w w') (ground arith) refl same (called o (rw t))
