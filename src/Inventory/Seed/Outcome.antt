-- ===== src/Inventory/Seed/Outcome.antt =====
-- How `RunSeed` of inventory-service/seed.go ends.
use micro_market.Base.{
  length, leb, Bool-cases, ◌<◌, String, ◌≡◌, refl, sym, ap, subst, ◌∙◌, ◌⊎◌, inl, inr, Option, none,
  some, List, [], ◌∷◌, ◌++◌, arith,
}
use micro_market.Common.AppError.{Error, other}
use micro_market.Common.Action.{
  Result, ok, err, TransactionEnds, not_begun, rolled_back, committed, commit_failed,
}
use micro_market.Common.Wire.{CheckoutClient}
use micro_market.Inventory.Model.{ProductModel}
use micro_market.Inventory.Environment.{World, rollback, Environment, get_checkout_client}
use micro_market.Inventory.Contract.{Contract}
use micro_market.Inventory.Seed.{Seeder, seed_products, add_body, seed_body, run_seed}
use micro_market.Inventory.Seed.Adding.{
  SeedContract, Added, length-seed_products, AddEnds, undone, added, savepoint-AddEnds,
}

module _ {Db Peer Rng : Type 0} (env : Environment Db Peer Rng) (c : Contract env)
    (seeder : Seeder Db Peer Rng) where
  pub data SeedEnds (w : World Db Peer Rng) (end : Result (Unit {0}) × World Db Peer Rng)
      : Type 0 where
    failed :
        (e : Error) (w' : World Db Peer Rng) → end ≡ (err e, w') → w'.db ≡ w.db → SeedEnds w end
    kept :
        (w' : World Db Peer Rng)
        → end ≡ (ok tt, w')
        → 0 < length (c.products w.db)
        → w'.db ≡ w.db
        → w'.checkout ≡ w.checkout
        → SeedEnds w end
    seeded :
        (client : CheckoutClient Peer) (rows : List ProductModel) (w' : World Db Peer Rng)
        → end ≡ (ok tt, w')
        → env.client ≡ some client
        → c.products w.db ≡ []
        → c.products w'.db ≡ rows
        → length rows ≡ 10
        → c.orders w'.db ≡ c.orders w.db
        → Added env c seeder client rows w.checkout w'.checkout
        → SeedEnds w end

  -- What the outer transaction's argument has done where it returns.
  data BodyEnds (client : CheckoutClient Peer) (w w' : World Db Peer Rng) : Type 0 where
    skipped : 0 < length (c.products w.db) → w' ≡ w → BodyEnds client w w'
    filled :
        (rows : List ProductModel)
        → length (c.products w.db) ≡ 0
        → length rows ≡ 10
        → c.products w'.db ≡ c.products w.db ++ rows
        → c.orders w'.db ≡ c.orders w.db
        → Added env c seeder client rows w.checkout w'.checkout
        → BodyEnds client w w'

  seed_body-BodyEnds :
      SeedContract env c seeder
      → (client : CheckoutClient Peer) → env.client ≡ some client
      → (w w' : World Db Peer Rng) → seed_body env seeder client w ≡ (ok tt, w')
      → BodyEnds client w w'
  unfolding seed_body
  seed_body-BodyEnds k client held w w' e = counted (k.count_products w.db)
    where
      drawn : List ProductModel × Rng
      drawn = seed_products env seeder 10 w.rng

      filled_from :
          length (c.products w.db) ≡ 0
          → AddEnds env c seeder client drawn.0
              (record w { rng = drawn.1 })
              (seeder.savepoint
                (Unit {0})
                (add_body env seeder client drawn.0)
                (record w { rng = drawn.1 }))
          → seed_body env seeder client w
            ≡ seeder.savepoint
                (Unit {0})
                (add_body env seeder client drawn.0)
                (record w { rng = drawn.1 })
          → BodyEnds client w w'
      filled_from z (undone x v f same) g = absurd (ground arith)
      filled_from z (added rows v f size p o a) g =
          let same : v ≡ w' = ap (λ x. x.1) (sym f ∙ sym g ∙ e) in
          filled rows z (size ∙ length-seed_products env c seeder 10 w.rng)
            (subst (λ (x : World Db Peer Rng). c.products x.db ≡ c.products w.db ++ rows) same p)
            (subst (λ (x : World Db Peer Rng). c.orders x.db ≡ c.orders w.db) same o)
            (subst (λ (x : World Db Peer Rng). Added env c seeder client rows w.checkout x.checkout)
              same a)

      counted :
          (seeder.count_products w.db ≡ ok (length (c.products w.db)))
            ⊎ ((m : String) × (seeder.count_products w.db ≡ err (other m)))
          → BodyEnds client w w'
      counted (inr (m, f)) = absurd (ground arith)
      counted (inl f) = elim (Bool-cases (leb (length (c.products w.db)) 0)) [
        | inl none_there ↦
            filled_from (ground arith)
              (savepoint-AddEnds env c seeder k client held drawn.0 (record w { rng = drawn.1 }))
              (ground arith)
        | inr some_there ↦ skipped (ground arith) (ground arith)
      ]

  empty : (ps : List ProductModel) → length ps ≡ 0 → ps ≡ []
  empty [] e = refl
  empty (p ∷ ps) e = absurd (omega (arith, e))

  -- Where the client's errors carry a status, `RunSeed` fails and leaves the database as it was; or
  -- finds products and changes nothing, also at the other service; or finds none and leaves
  -- exactly ten, each of which the checkout service has accepted.
  pub run_seed-SeedEnds :
      SeedContract env c seeder → (w : World Db Peer Rng) → SeedEnds w (run_seed env seeder w)
  unfolding run_seed get_checkout_client
  run_seed-SeedEnds k w = at_client env.client refl
    where
      ended :
          (client : CheckoutClient Peer) (w' : World Db Peer Rng)
          → env.client ≡ some client
          → run_seed env seeder w ≡ (ok tt, w')
          → BodyEnds client w w'
          → SeedEnds w (run_seed env seeder w)
      ended client w' s f (skipped n same) =
          kept w' f n (ap (λ x. x.db) same) (ap (λ x. x.checkout) same)
      ended client w' s f (filled rows z n p o a) =
          let none_there = empty (c.products w.db) z in
          seeded client rows w' f s none_there (p ∙ ap (λ l. l ++ rows) none_there) n o a

      at_end :
          (client : CheckoutClient Peer)
          → env.client ≡ some client
          → run_seed env seeder w ≡ env.transaction (Unit {0}) (seed_body env seeder client) w
          → TransactionEnds rollback
              (seed_body env seeder client)
              w
              (env.transaction (Unit {0}) (seed_body env seeder client) w)
          → SeedEnds w (run_seed env seeder w)
      at_end client s g (not_begun m e) = failed (other m) w (g ∙ e) refl
      at_end client s g (rolled_back e w' f h) = failed e (rollback w w') (g ∙ h) refl
      at_end client s g (committed u w' f h) =
          ended client w' s (g ∙ h) (seed_body-BodyEnds k client s w w' f)
      at_end client s g (commit_failed a m w' f h) = failed (other m) (rollback w w') (g ∙ h) refl

      at_client :
          (o : Option (CheckoutClient Peer)) → env.client ≡ o → SeedEnds w (run_seed env seeder w)
      at_client none s = failed (other "checkout client not initialized") w (ground arith) refl
      at_client (some client) s =
          at_end client s (ground arith) (c.transaction (Unit {0}) (seed_body env seeder client) w)
