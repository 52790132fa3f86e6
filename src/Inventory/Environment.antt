-- ===== src/Inventory/Environment.antt =====
-- What inventory-service/ calls and does not implement: gorm over SQLite, the generator of
-- identifiers and random numbers, and the client of the checkout service
-- (inventory-service/db.go, checkout_client.go). Telemetry and the deadlines of a context carry
-- nothing back but errors, which every call of gorm and of the client may return.
use micro_market.Base.{if◌then◌else◌, ℕ, String, Option, none, some, List, str_eq}
use micro_market.Common.AppError.{is_record_not_found}
use micro_market.Common.Action.{Result, ok, err, Action}
use micro_market.Common.Wire.{CheckoutClient}
use micro_market.Common.Chaos.{ChaosStates, Random, maybe_error}
use micro_market.Inventory.Model.{ProductModel, zero_product, before_create, OrderModel}

-- The queries of the service, as gorm runs them on a state of the database. A query fills the
-- row that it is given unless it returns an error.
pub record Gorm (Db : Type 0) : Type 0 where
  -- `Model(ProductModel{}).Order("created_at DESC").Find(&products)`
  pub find_products : Db → Result (List ProductModel)
  -- `Where("id = ?", id).First(&product)`, also with `Select("id, sid")`
  pub first_by_id : ℕ → Db → Result ProductModel
  pub select_by_id : ℕ → Db → Result ProductModel
  -- `Where("sid = ?", sid).First(&product)`
  pub first_by_sid : String → Db → Result ProductModel
  -- `tx.Create(&product)`, after the hook `BeforeCreate`
  pub create_product : ProductModel → Action Db ProductModel
  -- `tx.Updates(&product)` and `tx.Save(&product)`
  pub updates_product : ProductModel → Action Db (Unit {0})
  pub save_product : ProductModel → Action Db (Unit {0})
  -- `tx.Model(ProductModel{}).Where("id = ?", id).Delete(&ProductModel{})`
  pub delete_product : ℕ → Action Db (Unit {0})
  -- `tx.Create(&order)`
  pub create_order : OrderModel → Action Db OrderModel
  -- `Joins("Product").Order("order_models.created_at DESC").Find(&orders)`
  pub find_orders : Db → Result (List OrderModel)

-- The state that the service's functions change. `checkout` is the service at the other end of
-- the client.
pub record World (Db Peer Rng : Type 0) : Type 0 where
  pub db : Db
  pub checkout : Peer
  pub chaos : ChaosStates
  pub rng : Rng

-- The database of the first, all else of the second.
abbrev pub rollback :
    {Db Peer Rng : Type 0} → World Db Peer Rng → World Db Peer Rng → World Db Peer Rng
rollback w w' = record w' { db = w.db }

pub record Environment (Db Peer Rng : Type 0) : Type 1 where
  pub gorm : Gorm Db
  pub random : Random Rng
  -- `ulid.Make().String()`
  pub make_ulid : Rng → String × Rng
  -- `checkoutClient`, nil until `InitCheckoutClient` has set it
  pub client : Option (CheckoutClient Peer)
  -- `dbInstance.Transaction`; what its argument leaves in variables is the value of type `A`
  pub transaction : (A : Type 0) → Action (World Db Peer Rng) A → Action (World Db Peer Rng) A

module _ {Db Peer Rng : Type 0} where
  -- A query, and a statement that writes.
  abbrev pub query : {A : Type 0} → (Db → Result A) → Action (World Db Peer Rng) A
  query q w = (q w.db, w)

  abbrev pub exec : {A : Type 0} → Action Db A → Action (World Db Peer Rng) A
  exec m w = let (r, db') = m w.db in (r, record w { db = db' })

  -- A call of the client.
  abbrev pub call : {A : Type 0} → Action Peer A → Action (World Db Peer Rng) A
  call m w = let (r, peer) = m w.checkout in (r, record w { checkout = peer })

  module _ (env : Environment Db Peer Rng) where
    -- `common.MaybeError(key)`, which the functions return at once if it is not nil.
    unfoldable pub maybe_fail : String → Action (World Db Peer Rng) (Unit {0})
    maybe_fail key w =
        let (e, chaos', rng') = maybe_error env.random key (w.chaos, w.rng) in
        let w' : World Db Peer Rng = record w { chaos = chaos'; rng = rng' } in
        elim e [ none ↦ (ok tt, w') | some e' ↦ (err e', w') ]

    -- `tx.Create(&product)`: gorm calls the hook first. The generator is read only by the hook
    -- of a product without an identifier.
    unfoldable pub create : ProductModel → Action (World Db Peer Rng) ProductModel
    unfolding before_create
    create p w =
        let (ulid, rng') = env.make_ulid w.rng in
        let w' : World Db Peer Rng = record w { rng = if str_eq p.sid "" then rng' else w.rng } in
        exec (env.gorm.create_product (before_create ulid p)) w'

    -- `GetCheckoutClient()`
    unfoldable pub get_checkout_client : Option (CheckoutClient Peer)
    get_checkout_client = elim env.client [ none ↦ none | some c ↦ some c ]

-- `First(&product)` into a zero row: an absent row leaves it as it was, and any other error is
-- returned. So the callers test `product.ID == 0`.
unfoldable pub or_zero : Result ProductModel → Result ProductModel
or_zero (ok p) = ok p
or_zero (err e) = if is_record_not_found e then ok zero_product else err e
