-- ===== src/Inventory/Seed.antt =====
-- inventory-service/seed.go: the products of the first start.
pub mod Adding
pub mod Outcome
use micro_market.Base.{
  leb, if◌then◌else◌, ℕ, zero, suc, ◌+◌, String, Bool, not, Option, none, some, List, [], ◌∷◌,
}
use micro_market.Base.Int.{pos}
use micro_market.Common.AppError.{Status, Error, other}
use micro_market.Common.Action.{Result, ok, err, Action, pure, raise, ◌>>=◌, ◌>>◌}
use micro_market.Common.Http.{ptr}
use micro_market.Common.Wire.{CheckoutClient}
use micro_market.Inventory.Model.{ProductModel, zero_product}
use micro_market.Inventory.Environment.{World, Environment, query, exec, call, get_checkout_client}
use micro_market.Inventory.Products.{add_request}

-- What `RunSeed` calls besides the rest of the service: `tx.Model(ProductModel{}).Count`,
-- `tx.Create` of several rows, `tx.Transaction` within a transaction, `faker.FirstName`,
-- `rand.Float32() < 0.2`, and `status.FromError`.
pub record Seeder (Db Peer Rng : Type 0) : Type 1 where
  pub count_products : Db → Result ℕ
  pub create_products : List ProductModel → Action Db (List ProductModel)
  pub savepoint : (A : Type 0) → Action (World Db Peer Rng) A → Action (World Db Peer Rng) A
  pub first_name : Rng → String × Rng
  pub fifth : Rng → Bool × Rng
  pub from_error : Error → Option Status

module _ {Db Peer Rng : Type 0} (env : Environment Db Peer Rng) (seeder : Seeder Db Peer Rng) where
  -- One product of the seed; the calls are made in the order of the fields.
  unfoldable pub seed_product : Rng → ProductModel × Rng
  unfolding ptr
  seed_product r =
      let (sid, r1) = env.make_ulid r in
      let (name, r2) = seeder.first_name r1 in
      let (price, r3) = env.random.intn 100 r2 in
      let (quantity, r4) = env.random.intn 10 r3 in
      let (gone, r5) = seeder.fifth r4 in
      (
        record zero_product {
          sid = sid;
          name = name;
          price = pos (10 + price);
          currency = "USD";
          available_quantity = ptr (pos quantity);
          out_of_stock = ptr gone;
        },
        r5,
      )

  unfoldable pub seed_products : ℕ → Rng → List ProductModel × Rng
  seed_products zero r = ([], r)
  seed_products (suc n) r =
      let (p, r1) = seed_product r in let (ps, r2) = seed_products n r1 in (p ∷ ps, r2)

  -- The calls of the checkout service. An error that carries a status ends them, and any other is
  -- only logged.
  unfoldable pub add_all :
      CheckoutClient Peer → List ProductModel → Action (World Db Peer Rng) (Unit {0})
  add_all client [] w = (ok tt, w)
  add_all client (p ∷ ps) w =
      let (r, w') = call (client.add_new_product (add_request p)) w in
      elim r [
        | ok s ↦ add_all client ps w'
        | err e ↦ elim (seeder.from_error e) [ some st ↦ (err e, w') | none ↦ add_all client ps w' ]
      ]

  -- The inner transaction's argument, and the outer's.
  unfoldable pub add_body :
      CheckoutClient Peer → List ProductModel → Action (World Db Peer Rng) (Unit {0})
  add_body client products = do rows ← exec (seeder.create_products products); add_all client rows

  unfoldable pub seed_body : CheckoutClient Peer → Action (World Db Peer Rng) (Unit {0})
  unfolding seed_products
  seed_body client = do
    n ← query seeder.count_products
    if leb n 0
        then (λ w.
            let (products, rng') = seed_products 10 w.rng in
            let w' : World Db Peer Rng = record w { rng = rng' } in
            seeder.savepoint (Unit {0}) (add_body client products) w')
        else pure tt

  unfoldable pub run_seed : Action (World Db Peer Rng) (Unit {0})
  run_seed = elim (get_checkout_client env) [
    | none ↦ raise (other "checkout client not initialized")
    | some client ↦ env.transaction (Unit {0}) (seed_body client)
  ]
