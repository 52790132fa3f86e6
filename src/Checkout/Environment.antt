-- ===== src/Checkout/Environment.antt =====
-- What checkout-service/ calls and does not implement: gorm over SQLite, Redis, the generators,
-- and the client of the inventory service (checkout-service/db.go, redis_db.go,
-- inventory_client.go).
use micro_market.Base.{if◌then◌else◌, ℕ, String, Option, none, some, List, ◌∷◌, str_eq}
use micro_market.Base.Int.{ℤ}
use micro_market.Common.AppError.{Status, Error, is_record_not_found}
use micro_market.Common.Action.{Result, ok, err, Action}
use micro_market.Common.Wire.{InventoryClient}
use micro_market.Common.Chaos.{ChaosStates, Random, maybe_error}
use micro_market.Checkout.Model.{ProductModel, UserModel, OrderModel, before_create}

-- The queries of the service, as gorm runs them on a state of the database. A query fills the
-- row that it is given unless it returns an error.
pub record Gorm (Db : Type 0) : Type 0 where
  -- `Order("created_at DESC").Find(&products)` and `Order("created_at ASC").Find(&users)`
  pub find_products : Db → Result (List ProductModel)
  pub find_users : Db → Result (List UserModel)
  -- `Joins("User").Joins("Product").Order("order_models.created_at DESC").Find(&orders)`
  pub find_orders : Db → Result (List OrderModel)
  -- `Where("id = ?", id).First(&user)`, and of a product by each of its two keys
  pub first_user : ℕ → Db → Result UserModel
  pub first_product : ℕ → Db → Result ProductModel
  pub first_product_by_sid : String → Db → Result ProductModel
  -- `Create(&product)`, `Save(&product)` and `Delete(&product)`
  pub create_product : ProductModel → Action Db ProductModel
  pub save_product : ProductModel → Action Db (Unit {0})
  pub delete_product : ProductModel → Action Db (Unit {0})
  -- `tx.Create(&order)`, after the hook `BeforeCreate`
  pub create_order : OrderModel → Action Db OrderModel

-- What `PlaceNewOrder` publishes, as a map that is encoded as JSON.
pub record InvoiceRequest : Type 0 where
  pub order_sid : String
  pub user_id : ℕ
  pub product_sid : String
  pub quantity : ℤ
  pub product_price : ℤ
  pub currency : String
  pub total : ℤ
  pub user_name : String
  pub user_email : String
  pub product_name : String

-- The state that the service's functions change. `inventory` is the service at the other end of
-- the client, `redis` the Redis server, and `log` the errors logged.
pub record World (Db Peer Redis Rng : Type 0) : Type 0 where
  pub db : Db
  pub inventory : Peer
  pub redis : Redis
  pub chaos : ChaosStates
  pub rng : Rng
  pub log : List (String × Error)

module _ {Db Peer Redis Rng : Type 0} where
  -- The database of the first, all else of the second.
  abbrev pub rollback : World Db Peer Redis Rng → World Db Peer Redis Rng → World Db Peer Redis Rng
  rollback w w' = record w' { db = w.db }

  -- A query, a statement that writes, and a call of the client.
  abbrev pub query : {A : Type 0} → (Db → Result A) → Action (World Db Peer Redis Rng) A
  query q w = (q w.db, w)

  abbrev pub exec : {A : Type 0} → Action Db A → Action (World Db Peer Redis Rng) A
  exec m w = let (r, db') = m w.db in (r, record w { db = db' })

  abbrev pub call : {A : Type 0} → Action Peer A → Action (World Db Peer Redis Rng) A
  call m w = let (r, peer) = m w.inventory in (r, record w { inventory = peer })

pub record Environment (Db Peer Redis Rng : Type 0) : Type 1 where
  pub gorm : Gorm Db
  pub random : Random Rng
  -- `ulid.Make().String()`
  pub make_ulid : Rng → String × Rng
  -- `inventoryClient`, nil until `InitInventoryClient` has set it
  pub client : Option (InventoryClient Peer)
  -- `status.FromError(err)`, for an `err` that is not nil
  pub from_error : Error → Option Status
  -- `redisClient.Publish(ctx, channel, message).Err()`
  pub publish : String → InvoiceRequest → Redis → Option Error × Redis
  -- `RedisChannel`
  pub redis_channel : String
  -- `dbInstance.Transaction`; what its argument leaves in variables is the value of type `A`
  pub transaction :
      (A : Type 0) → Action (World Db Peer Redis Rng) A → Action (World Db Peer Redis Rng) A

module _ {Db Peer Redis Rng : Type 0} (env : Environment Db Peer Redis Rng) where
  -- `common.MaybeError(key)`, which the functions return at once if it is not nil.
  unfoldable pub maybe_fail : String → Action (World Db Peer Redis Rng) (Unit {0})
  maybe_fail key w =
      let (e, chaos', rng') = maybe_error env.random key (w.chaos, w.rng) in
      let w' : World Db Peer Redis Rng = record w { chaos = chaos'; rng = rng' } in
      elim e [ none ↦ (ok tt, w') | some e' ↦ (err e', w') ]

  -- `tx.Create(&order)`: gorm calls the hook first. The generator is read only by the hook of an
  -- order without an identifier.
  unfoldable pub create : OrderModel → Action (World Db Peer Redis Rng) OrderModel
  unfolding before_create
  create o w =
      let (ulid, rng') = env.make_ulid w.rng in
      let w' : World Db Peer Redis Rng = record w {
        rng = if str_eq o.sid "" then rng' else w.rng;
      } in
      exec (env.gorm.create_order (before_create ulid o)) w'

  -- `GetInventoryClient()`
  unfoldable pub get_inventory_client : Option (InventoryClient Peer)
  get_inventory_client = elim env.client [ none ↦ none | some c ↦ some c ]

  -- Publishes, and logs an error of it.
  unfoldable pub publish_invoice : InvoiceRequest → Action (World Db Peer Redis Rng) (Unit {0})
  publish_invoice invoice w =
      let (e, redis') = env.publish env.redis_channel invoice w.redis in
      let w' : World Db Peer Redis Rng = record w { redis = redis' } in
      elim e [
        | none ↦ (ok tt, w')
        | some e' ↦ (
          ok tt,
          record w' { log = ("failed to publish invoice creation request to Redis", e') ∷ w'.log },
        )
      ]

-- `First(&row)` into a zero row: an absent row leaves it as it was, and any other error is
-- returned. So the callers test its `ID == 0`.
unfoldable pub or_zero : {Row : Type 0} → Row → Result Row → Result Row
or_zero zero_row (ok p) = ok p
or_zero zero_row (err e) = if is_record_not_found e then ok zero_row else err e
