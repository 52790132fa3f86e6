-- ===== src/Checkout/Seed.antt =====
-- checkout-service/seed.go: the users of the first start.
pub mod Outcome
use micro_market.Base.{leb, if◌then◌else◌, ℕ, zero, suc, String, List, [], ◌∷◌}
use micro_market.Common.Action.{Result, ok, err, Action, pure, ◌>>=◌, ◌>>◌}
use micro_market.Checkout.Model.{UserModel, zero_user}
use micro_market.Checkout.Environment.{World, query, exec, Environment}

-- What `RunSeed` calls: `tx.Model(UserModel{}).Count`, `tx.Create` of several rows,
-- `faker.FirstName` and `faker.Email`.
pub record Seeder (Db Rng : Type 0) : Type 0 where
  pub count_users : Db → Result ℕ
  pub create_users : List UserModel → Action Db (List UserModel)
  pub first_name : Rng → String × Rng
  pub email : Rng → String × Rng

module _ {Db Peer Redis Rng : Type 0} (env : Environment Db Peer Redis Rng)
    (seeder : Seeder Db Rng) where
  unfoldable pub seed_users : ℕ → Rng → List UserModel × Rng
  seed_users zero r = ([], r)
  seed_users (suc n) r =
      let (name, r1) = seeder.first_name r in
      let (email, r2) = seeder.email r1 in
      let (us, r3) = seed_users n r2 in (record zero_user { name = name; email = email } ∷ us, r3)

  unfoldable pub seed_body : Action (World Db Peer Redis Rng) (Unit {0})
  unfolding seed_users
  seed_body = do
    n ← query seeder.count_users
    if leb n 0
        then (λ w.
            let (users, rng') = seed_users 20 w.rng in
            let w' : World Db Peer Redis Rng = record w { rng = rng' } in
            let (r, w'') = exec (seeder.create_users users) w' in
            elim r [ ok rows ↦ (ok tt, w'') | err e ↦ (err e, w'') ])
        else pure tt

  unfoldable pub run_seed : Action (World Db Peer Redis Rng) (Unit {0})
  run_seed = env.transaction (Unit {0}) seed_body
