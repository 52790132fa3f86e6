-- ===== src/Checkout/Steps.antt =====
-- The steps that the functions of the checkout service share.
use micro_market.Base.{
  find?, All, ℕ, ◌<◌, String, ◌≡◌, refl, Bool, Option, none, some, List, [], ◌∷◌, arith,
}
use micro_market.Common.AppError.{Error, other, new_app_error}
use micro_market.Common.Action.{Result, ok, err}
use micro_market.Common.Query.{Answers, answered, failed}
use micro_market.Common.Chaos.{ChaosStates, maybe_error}
use micro_market.Checkout.Model.{ProductModel, UserModel}
use micro_market.Checkout.Environment.{World, Environment, maybe_fail, or_zero}
use micro_market.Checkout.Contract.{user_has_id, has_id, Contract}
use micro_market.Checkout.Orders.{find_user, find_product}
use micro_market.Common.StatusCode
use micro_market.Base.Text.{concat, decimal}

-- The database, the other service and Redis are as they were.
pub record Unchanged {Db Peer Redis Rng : Type 0} (w w' : World Db Peer Redis Rng) : Type 0 where
  pub db : w'.db ≡ w.db
  pub inventory : w'.inventory ≡ w.inventory
  pub redis : w'.redis ≡ w.redis

pub Unchanged-refl : {Db Peer Redis Rng : Type 0} (w : World Db Peer Redis Rng) → Unchanged w w
Unchanged-refl w = record { db = refl; inventory = refl; redis = refl }

pub find?-All {ℓ} :
    {A : Type 0} (P : A → Type ℓ) (test : A → Bool) (p : A) (ps : List A)
    → All P ps
    → find? test ps ≡ some p
    → P p
find?-All P test p [] h e = cc
find?-All P test p (x ∷ xs) h e = ground (arith, find?-All P test p xs h.1)

abbrev pub no_user : ℕ → Error
no_user id =
    new_app_error StatusCode.bad_request (concat ("user: " ∷ decimal id ∷ " not found" ∷ []))

abbrev pub no_product : ℕ → Error
no_product id =
    new_app_error StatusCode.bad_request (concat ("product: " ∷ decimal id ∷ " not found" ∷ []))

-- A row that is there, none, or a failure of the query; the world is as it was.
pub data Finds {Row W : Type 0} (missing : Error) (expected : Option Row) (w : W)
    (end : Result Row × W) : Type 0 where
  found : (p : Row) → expected ≡ some p → end ≡ (ok p, w) → Finds missing expected w end
  absent : expected ≡ none → end ≡ (err missing, w) → Finds missing expected w end
  broken : (m : String) → end ≡ (err (other m), w) → Finds missing expected w end

module _ {Db Peer Redis Rng : Type 0} (env : Environment Db Peer Redis Rng) where
  -- An injected fault, or none; the generator and the counters alone change.
  pub data MayFail (w : World Db Peer Redis Rng) (end : Result (Unit {0}) × World Db Peer Redis Rng)
      : Type 0 where
    injected :
        (e : Error) (w' : World Db Peer Redis Rng)
        → end ≡ (err e, w')
        → Unchanged w w'
        → MayFail w end
    passed : (w' : World Db Peer Redis Rng) → end ≡ (ok tt, w') → Unchanged w w' → MayFail w end

  pub maybe_fail-MayFail :
      (key : String) (w : World Db Peer Redis Rng) → MayFail w (maybe_fail env key w)
  unfolding maybe_fail
  maybe_fail-MayFail key w =
      let r = maybe_error env.random key (w.chaos, w.rng) in go r.0 r.1 r.2 refl
    where
      go :
          (e : Option Error) (c : ChaosStates) (r : Rng)
          → maybe_error env.random key (w.chaos, w.rng) ≡ (e, c, r)
          → MayFail w (maybe_fail env key w)
      go none c r h =
          passed (record w { chaos = c; rng = r }) (ground arith)
            (record { db = refl; inventory = refl; redis = refl })
      go (some e) c r h =
          injected e (record w { chaos = c; rng = r }) (ground arith)
            (record { db = refl; inventory = refl; redis = refl })

  module _ (c : Contract env) where
    pub find_user-Finds :
        (id : ℕ) (w : World Db Peer Redis Rng)
        → Finds (no_user id) (find? (user_has_id id) (c.users w.db)) w (find_user env id w)
    unfolding find_user or_zero
    find_user-Finds id w = go (find? (user_has_id id) (c.users w.db)) refl (c.first_user id w.db)
      where
        go :
            (o : Option UserModel)
            → find? (user_has_id id) (c.users w.db) ≡ o
            → Answers (find? (user_has_id id) (c.users w.db)) (env.gorm.first_user id w.db)
            → Finds (no_user id) (find? (user_has_id id) (c.users w.db)) w (find_user env id w)
        go o f (failed m e) = broken m (ground arith)
        go none f (answered e) = absent f (ground arith)
        go (some u) f (answered e) = found u f (
            ground (
              arith,
              find?-All (λ u. 0 < u.id) (user_has_id id) u (c.users w.db) (c.user_ids w.db) f,
            ))

    pub find_product-Finds :
        (id : ℕ) (w : World Db Peer Redis Rng)
        → Finds (no_product id) (find? (has_id id) (c.products w.db)) w (find_product env id w)
    unfolding find_product or_zero
    find_product-Finds id w =
        go (find? (has_id id) (c.products w.db)) refl (c.first_product id w.db)
      where
        go :
            (o : Option ProductModel)
            → find? (has_id id) (c.products w.db) ≡ o
            → Answers (find? (has_id id) (c.products w.db)) (env.gorm.first_product id w.db)
            → Finds (no_product id) (find? (has_id id) (c.products w.db)) w (find_product env id w)
        go o f (failed m e) = broken m (ground arith)
        go none f (answered e) = absent f (ground arith)
        go (some u) f (answered e) = found u f (
            ground (
              arith,
              find?-All (λ u. 0 < u.id) (has_id id) u (c.products w.db) (c.product_ids w.db) f,
            ))
