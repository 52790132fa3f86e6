-- ===== src/Inventory/Seed/Adding.antt =====
-- The inner transaction of `RunSeed` of inventory-service/seed.go: the rows, and the calls of the
-- checkout service about them.
use micro_market.Base.{
  length, ℕ, zero, suc, String, ◌≡◌, refl, sym, ap, subst, ◌∙◌, ◌⊎◌, some, List, [], ◌∷◌, ◌++◌,
  arith,
}
use micro_market.Common.AppError.{Status, Error, other}
use micro_market.Common.Action.{
  Result, ok, err, Action, TransactionEnds, not_begun, rolled_back, committed, commit_failed,
}
use micro_market.Common.Query.{Writes, wrote}
use micro_market.Common.Wire.{AddNewProductRequest, Success, CheckoutClient}
use micro_market.Inventory.Model.{ProductModel}
use micro_market.Inventory.Environment.{World, rollback, Environment}
use micro_market.Inventory.Contract.{Contract}
use micro_market.Inventory.Products.{add_request}
use micro_market.Inventory.Seed.{Seeder, seed_product, seed_products, add_all, add_body}

module _ {Db Peer Rng : Type 0} (env : Environment Db Peer Rng) (c : Contract env)
    (seeder : Seeder Db Peer Rng) where
  -- The rows that `Create` of several products adds.
  pub record ProductsCreated (ps : List ProductModel) (db : Db) (rows : List ProductModel)
      (db' : Db) : Type 0 where
    pub size : length rows ≡ length ps
    pub products : c.products db' ≡ c.products db ++ rows
    pub orders : c.orders db' ≡ c.orders db

  -- What is relied on of the calls of the seed. An error of the gRPC client that the
  -- service has carries a status.
  pub record SeedContract : Type 1 where
    pub count_products :
        (db : Db)
        → (seeder.count_products db ≡ ok (length (c.products db)))
          ⊎ ((m : String) × (seeder.count_products db ≡ err (other m)))
    pub create_products :
        (ps : List ProductModel) (db : Db)
        → Writes (ProductsCreated ps db) db (seeder.create_products ps db)
    pub savepoint :
        (A : Type 0) (body : Action (World Db Peer Rng) A) (w : World Db Peer Rng)
        → TransactionEnds rollback body w (seeder.savepoint A body w)
    pub has_status :
        (client : CheckoutClient Peer) (req : AddNewProductRequest) (peer peer' : Peer) (e : Error)
        → env.client ≡ some client
        → client.add_new_product req peer ≡ (err e, peer')
        → (s : Status) × (seeder.from_error e ≡ some s)

  -- The checkout service has answered the addition of each of the rows, in their order.
  pub data Added (client : CheckoutClient Peer) : List ProductModel → Peer → Peer → Type 0 where
    all : {peer : Peer} → Added client [] peer peer
    one :
        {p : ProductModel} {ps : List ProductModel} {peer peer' peer'' : Peer} (s : Success)
        → client.add_new_product (add_request p) peer ≡ (ok s, peer')
        → Added client ps peer' peer''
        → Added client (p ∷ ps) peer peer''

  -- The calls that all went through.
  add_all-Added :
      SeedContract
      → (client : CheckoutClient Peer) → env.client ≡ some client
      → (rows : List ProductModel) (w w' : World Db Peer Rng)
      → add_all env seeder client rows w ≡ (ok tt, w')
      → (w'.db ≡ w.db) × Added client rows w.checkout w'.checkout
  unfolding add_all
  add_all-Added k client held [] w w' e =
      let same : w ≡ w' = ap (λ x. x.1) e in
      (
        ap (λ x. x.db) (sym same),
        subst (λ (x : World Db Peer Rng). Added client [] w.checkout x.checkout) same all,
      )
  add_all-Added k client held (p ∷ ps) w w' e =
      go (add_all-Added k client held ps) (client.add_new_product (add_request p) w.checkout).0
        (client.add_new_product (add_request p) w.checkout).1 refl
    where
      go :
          ((v v' : World Db Peer Rng)
            → add_all env seeder client ps v ≡ (ok tt, v')
            → (v'.db ≡ v.db) × Added client ps v.checkout v'.checkout)
          → (r : Result Success) (peer : Peer)
          → client.add_new_product (add_request p) w.checkout ≡ (r, peer)
          → (w'.db ≡ w.db) × Added client (p ∷ ps) w.checkout w'.checkout
      go rest (ok s) peer f =
          let (d, a) = rest (record w { checkout = peer }) w' (ground arith) in (d, one s f a)
      go rest (err x) peer f =
          let (st, g) = k.has_status client (add_request p) w.checkout peer x held f in
          absurd (ground arith)

  pub length-seed_products : (n : ℕ) (r : Rng) → length (seed_products env seeder n r).0 ≡ n
  unfolding seed_products
  length-seed_products zero r = refl
  length-seed_products (suc n) r = ap suc (length-seed_products n (seed_product env seeder r).1)

  -- How the inner transaction ends.
  pub data AddEnds (client : CheckoutClient Peer) (ps : List ProductModel) (w : World Db Peer Rng)
      (end : Result (Unit {0}) × World Db Peer Rng) : Type 0 where
    undone :
        (e : Error) (w' : World Db Peer Rng)
        → end ≡ (err e, w')
        → w'.db ≡ w.db
        → AddEnds client ps w end
    added :
        (rows : List ProductModel) (w' : World Db Peer Rng)
        → end ≡ (ok tt, w')
        → length rows ≡ length ps
        → c.products w'.db ≡ c.products w.db ++ rows
        → c.orders w'.db ≡ c.orders w.db
        → Added client rows w.checkout w'.checkout
        → AddEnds client ps w end

  -- Where the argument returns, the rows are there and were all accepted.
  add_body-added :
      SeedContract
      → (client : CheckoutClient Peer) → env.client ≡ some client
      → (ps : List ProductModel) (w w' : World Db Peer Rng)
        (end : Result (Unit {0}) × World Db Peer Rng)
      → add_body env seeder client ps w ≡ (ok tt, w')
      → end ≡ (ok tt, w')
      → AddEnds client ps w end
  unfolding add_body
  add_body-added k client held ps w w' end e f = go (k.create_products ps w.db)
    where
      go :
          Writes (ProductsCreated ps w.db) w.db (seeder.create_products ps w.db)
          → AddEnds client ps w end
      go (Writes.failed m g) = absurd (ground arith)
      go (wrote rows db1 g r) =
          let (d, a) = add_all-Added k client held rows (record w { db = db1 }) w' (ground arith) in
          added rows w' f r.size (ap c.products d ∙ r.products) (ap c.orders d ∙ r.orders) a

  pub savepoint-AddEnds :
      SeedContract
      → (client : CheckoutClient Peer) → env.client ≡ some client
      → (ps : List ProductModel) (w : World Db Peer Rng)
      → AddEnds client ps w (seeder.savepoint (Unit {0}) (add_body env seeder client ps) w)
  savepoint-AddEnds k client held ps w =
      go (k.savepoint (Unit {0}) (add_body env seeder client ps) w)
    where
      go :
          TransactionEnds rollback
            (add_body env seeder client ps)
            w
            (seeder.savepoint (Unit {0}) (add_body env seeder client ps) w)
          → AddEnds client ps w (seeder.savepoint (Unit {0}) (add_body env seeder client ps) w)
      go (not_begun m e) = undone (other m) w e refl
      go (rolled_back e w' f g) = undone e (rollback w w') g refl
      go (committed u w' f g) = add_body-added k client held ps w w' _ f g
      go (commit_failed a m w' f g) = undone (other m) (rollback w w') g refl
