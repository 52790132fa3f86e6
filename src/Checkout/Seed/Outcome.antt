-- ===== src/Checkout/Seed/Outcome.antt =====
-- How `RunSeed` of checkout-service/seed.go ends.
use micro_market.Base.{
  length, leb, Bool-cases, ℕ, zero, suc, ◌<◌, String, ◌≡◌, refl, sym, ap, ◌∙◌, ◌⊎◌, inl, inr, true,
  List, [], ◌∷◌, ◌++◌, arith,
}
use micro_market.Common.AppError.{Error, other}
use micro_market.Common.Action.{
  Result, ok, err, TransactionEnds, not_begun, rolled_back, committed, commit_failed,
}
use micro_market.Common.Query.{Writes, wrote}
use micro_market.Checkout.Model.{UserModel}
use micro_market.Checkout.Environment.{World, rollback, Environment}
use micro_market.Checkout.Contract.{Contract}
use micro_market.Checkout.Seed.{Seeder, seed_users, seed_body, run_seed}

module _ {Db Peer Redis Rng : Type 0} (env : Environment Db Peer Redis Rng) (c : Contract env)
    (seeder : Seeder Db Rng) where
  -- The rows that `Create` of several users adds.
  pub record UsersCreated (us : List UserModel) (db : Db) (rows : List UserModel) (db' : Db)
      : Type 0 where
    pub size : length rows ≡ length us
    pub users : c.users db' ≡ c.users db ++ rows
    pub products : c.products db' ≡ c.products db
    pub orders : c.orders db' ≡ c.orders db

  pub record SeedContract : Type 0 where
    pub count_users :
        (db : Db)
        → (seeder.count_users db ≡ ok (length (c.users db)))
          ⊎ ((m : String) × (seeder.count_users db ≡ err (other m)))
    pub create_users :
        (us : List UserModel) (db : Db) → Writes (UsersCreated us db) db (seeder.create_users us db)

  pub data UserSeedEnds (w : World Db Peer Redis Rng)
      (end : Result (Unit {0}) × World Db Peer Redis Rng) : Type 0 where
    failed :
        (e : Error) (w' : World Db Peer Redis Rng)
        → end ≡ (err e, w')
        → w'.db ≡ w.db
        → UserSeedEnds w end
    kept :
        (w' : World Db Peer Redis Rng)
        → end ≡ (ok tt, w')
        → 0 < length (c.users w.db)
        → w' ≡ w
        → UserSeedEnds w end
    seeded :
        (w' : World Db Peer Redis Rng)
        → end ≡ (ok tt, w')
        → c.users w.db ≡ []
        → length (c.users w'.db) ≡ 20
        → c.products w'.db ≡ c.products w.db
        → c.orders w'.db ≡ c.orders w.db
        → UserSeedEnds w end

  length-seed_users : (n : ℕ) (r : Rng) → length (seed_users env seeder n r).0 ≡ n
  unfolding seed_users
  length-seed_users zero r = refl
  length-seed_users (suc n) r =
      ap suc (length-seed_users n (seeder.email (seeder.first_name r).1).1)

  empty : (us : List UserModel) → length us ≡ 0 → us ≡ []
  empty [] e = refl
  empty (u ∷ us) e = absurd (omega (arith, e))

  -- What the transaction's argument has done where it returns.
  seed_body-UserSeedEnds :
      SeedContract
      → (w w' : World Db Peer Redis Rng) (end : Result (Unit {0}) × World Db Peer Redis Rng)
      → seed_body env seeder w ≡ (ok tt, w')
      → end ≡ (ok tt, w')
      → UserSeedEnds w end
  unfolding seed_body
  seed_body-UserSeedEnds k w w' end e f = counted (k.count_users w.db)
    where
      drawn : List UserModel × Rng
      drawn = seed_users env seeder 20 w.rng

      created :
          length (c.users w.db) ≡ 0
          → leb (length (c.users w.db)) 0 ≡ true
          → seeder.count_users w.db ≡ ok (length (c.users w.db))
          → Writes (UsersCreated drawn.0 w.db) w.db (seeder.create_users drawn.0 w.db)
          → UserSeedEnds w end
      created z t n (Writes.failed m g) = absurd (ground arith)
      created z t n (wrote rows db1 g r) =
          let none_there = empty (c.users w.db) z in
          let same : db1 ≡ w'.db = ground arith in
          let users = r.users ∙ ap (λ l. l ++ rows) none_there in
          seeded w' f none_there
            (ap (λ (d : Db). length (c.users d)) (sym same)
              ∙ ap length users
              ∙ r.size
              ∙ length-seed_users 20 w.rng)
            (ap c.products (sym same) ∙ r.products) (ap c.orders (sym same) ∙ r.orders)

      counted :
          (seeder.count_users w.db ≡ ok (length (c.users w.db)))
            ⊎ ((m : String) × (seeder.count_users w.db ≡ err (other m)))
          → UserSeedEnds w end
      counted (inr (m, g)) = absurd (ground arith)
      counted (inl n) = elim (Bool-cases (leb (length (c.users w.db)) 0)) [
        | inl t ↦ created (ground arith) t n (k.create_users drawn.0 w.db)
        | inr t ↦ kept w' f (ground arith) (ground arith)
      ]

  -- `RunSeed` fails and leaves the database as it was; or finds users and changes nothing; or finds
  -- none and leaves exactly twenty.
  pub run_seed-UserSeedEnds :
      SeedContract → (w : World Db Peer Redis Rng) → UserSeedEnds w (run_seed env seeder w)
  unfolding run_seed
  run_seed-UserSeedEnds k w = go (c.transaction (Unit {0}) (seed_body env seeder) w)
    where
      go :
          TransactionEnds rollback (seed_body env seeder) w (run_seed env seeder w)
          → UserSeedEnds w (run_seed env seeder w)
      go (not_begun m e) = failed (other m) w e refl
      go (rolled_back e w' f g) = failed e (rollback w w') g refl
      go (committed u w' f g) = seed_body-UserSeedEnds k w w' _ f g
      go (commit_failed a m w' f g) = failed (other m) (rollback w w') g refl
