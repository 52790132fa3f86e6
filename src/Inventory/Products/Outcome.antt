-- ===== src/Inventory/Products/Outcome.antt =====
-- How the functions of inventory-service/products_controller.go that write end: what they do to
-- the product's row, and that the checkout service has accepted the same change.
use micro_market.Common.AppError.{Error}
use micro_market.Inventory.Steps.{
  Unchanged, Unchanged-refl, MayFail, injected, passed, maybe_fail-MayFail,
}
use micro_market.Common.Query.{Writes}
use micro_market.Base.{if◌then◌else◌, String, ◌≡◌, refl, ◌∙◌, some, arith, str_eq}
use micro_market.Common.Action.{Result, ok, err, Action}
use micro_market.Common.Wire.{Success, CheckoutClient}
use micro_market.Inventory.Model.{ProductModel, before_create, ProductResource, product_resource}
use micro_market.Inventory.Environment.{World, Environment, exec, maybe_fail, create}
use micro_market.Inventory.Contract.{ProductCreated, Contract}
use micro_market.Inventory.Products.Effects.{Creates, ProductCreated-Creates}
use micro_market.Inventory.Products.{
  ProductRequest, new_product, add_request, update_request, create_body, create_product,
}
use micro_market.Inventory.Sync.{
  Told, untold, told, Local, SyncEnds, undone, synced, transaction-SyncEnds,
}

-- What the three functions ask the checkout service to do.
module _ {Peer : Type 0} where
  abbrev pub tell_new : ProductModel → CheckoutClient Peer → Action Peer Success
  tell_new p client = client.add_new_product (add_request p)

  abbrev pub tell_saved : ProductModel → Unit {0} → CheckoutClient Peer → Action Peer Success
  tell_saved p _ client = client.update_product (update_request p)

  abbrev pub tell_deleted : String → Unit {0} → CheckoutClient Peer → Action Peer Success
  tell_deleted sid _ client = client.delete_product (record { sid = sid })

-- A failed call: the database is as it was, and the checkout service has seen one request of
-- some row at most.
pub record Refused {Db Peer Rng A : Type 0} (env : Environment Db Peer Rng)
    (tell : A → CheckoutClient Peer → Action Peer Success) (w w' : World Db Peer Rng) : Type 0 where
  pub db : w'.db ≡ w.db
  pub checkout : Told env tell w w'.checkout

pub Unchanged-Refused :
    {Db Peer Rng A : Type 0} {env : Environment Db Peer Rng}
    {tell : A → CheckoutClient Peer → Action Peer Success} {w w' : World Db Peer Rng}
    → Unchanged w w'
    → Refused env tell w w'
Unchanged-Refused u = record { db = u.db; checkout = untold u.checkout }

pub Told-after :
    {Db Peer Rng A : Type 0} {env : Environment Db Peer Rng}
    {tell : A → CheckoutClient Peer → Action Peer Success} {w w1 : World Db Peer Rng} {peer : Peer}
    → Unchanged w w1
    → Told env tell w1 peer
    → Told env tell w peer
Told-after u (untold e) = untold (e ∙ u.checkout)
Told-after u (told a client k e) = told a client k (rw u.checkout at e)

module _ {Db Peer Rng : Type 0} (env : Environment Db Peer Rng) (c : Contract env) where
  create-Local :
      (p : ProductModel) (w : World Db Peer Rng)
      → Local env tell_new
          (λ p' db'.
            (ulid : String) × ProductCreated c.products c.orders w.db (before_create ulid p) p' db')
          w
          (create env p w)
  unfolding create
  create-Local p w = go (c.create_product (before_create (env.make_ulid w.rng).0 p) w.db)
    where
      go :
          Writes
            (ProductCreated c.products c.orders w.db (before_create (env.make_ulid w.rng).0 p))
            w.db
            (env.gorm.create_product (before_create (env.make_ulid w.rng).0 p) w.db)
          → Local env tell_new
              (λ p' db'.
                (ulid : String) × ProductCreated c.products c.orders w.db
                  (before_create ulid p)
                  p'
                  db')
              w
              (create env p w)
      go (Writes.failed m e) =
          Local.failed m
            (record w { rng = if str_eq p.sid "" then (env.make_ulid w.rng).1 else w.rng })
            (ground arith) (record { db = refl; checkout = refl })
      go (Writes.wrote p' db' e k) =
          Local.wrote p'
            (record w {
              db = db';
              rng = if str_eq p.sid "" then (env.make_ulid w.rng).1 else w.rng;
            })
            (ground arith) refl ((env.make_ulid w.rng).0, k)

  -- A statement that leaves the rest of the world.
  pub exec-Local :
      (tell : Unit {0} → CheckoutClient Peer → Action Peer Success) (m : Action Db (Unit {0}))
      (Effect : Unit {0} → Db → Type 0) (w : World Db Peer Rng)
      → Writes Effect w.db (m w.db)
      → Local env tell Effect w (exec m w)
  exec-Local tell m Effect w (Writes.failed s e) =
      Local.failed s w (ground arith) (Unchanged-refl w)
  exec-Local tell m Effect w (Writes.wrote a db' e k) =
      Local.wrote a (record w { db = db' }) (ground arith) refl k

  -- How `CreateProduct` ends.
  pub data CreateEnds (req : ProductRequest) (w : World Db Peer Rng)
      (end : Result ProductResource × World Db Peer Rng) : Type 0 where
    refused :
        (e : Error) (w' : World Db Peer Rng)
        → end ≡ (err e, w')
        → Refused env tell_new w w'
        → CreateEnds req w end
    created :
        (p : ProductModel) (ulid : String) (client : CheckoutClient Peer) (s : Success)
        (w' : World Db Peer Rng)
        → env.client ≡ some client
        → client.add_new_product (add_request p) w.checkout ≡ (ok s, w'.checkout)
        → end ≡ (ok (product_resource p), w')
        → ProductCreated c.products c.orders w.db (before_create ulid (new_product req)) p w'.db
        → Creates req client p
            (product_resource p)
            w.checkout
            w'.checkout
            (c.products w.db)
            (c.products w'.db)
            (c.orders w.db)
            (c.orders w'.db)
        → CreateEnds req w end

  -- A call of `CreateProduct` that fails leaves the database as it was, and one that returns has
  -- added one row, with the request's name, price, currency and quantity, not marked as out of
  -- stock, under a new key and a new identifier. The checkout service has accepted a message with
  -- this identifier, the name, the currency and the price as an `int32`, and the answer shows the
  -- row.
  pub create_product-CreateEnds :
      (req : ProductRequest) (w : World Db Peer Rng) → CreateEnds req w (create_product env req w)
  unfolding create_product create_body
  create_product-CreateEnds req w = start (maybe_fail-MayFail env "inventory.CreateProduct" w)
    where
      finish :
          (w1 : World Db Peer Rng)
          → maybe_fail env "inventory.CreateProduct" w ≡ (ok tt, w1)
          → Unchanged w w1
          → SyncEnds env tell_new
              (λ p' db'.
                (ulid : String) × ProductCreated c.products c.orders w1.db
                  (before_create ulid (new_product req))
                  p'
                  db')
              w1
              (env.transaction ProductModel (create_body env (new_product req)) w1)
          → CreateEnds req w (create_product env req w)
      finish w1 f u (undone e w' g same t) =
          refused e w' (ground arith) (record { db = same ∙ u.db; checkout = Told-after u t })
      finish w1 f u (synced p client s w' k t g (ulid, r)) =
          let t' = rw u.checkout at t in
          let r' = rw u.db at r in
          created p ulid client s w' k t' (ground arith) r' (
            ProductCreated-Creates c.products c.orders req client s w.checkout w'.checkout w.db
              w'.db p ulid t' r')

      start :
          MayFail env w (maybe_fail env "inventory.CreateProduct" w)
          → CreateEnds req w (create_product env req w)
      start (injected e w' f u) = refused e w' (ground arith) (Unchanged-Refused u)
      start (passed w1 f u) = finish w1 f u (
          transaction-SyncEnds env tell_new _ w1 c (create env (new_product req))
            (create-Local (new_product req) w1))
