-- ===== src/Inventory/Steps.antt =====
-- The steps that the functions of the inventory service share: the injected fault, and a query
-- for one product with the test of its key.
use micro_market.Base.{
  find?, All, ◌<◌, String, ◌≡◌, refl, ◌∙◌, Bool, true, Option, none, some, List, [], ◌∷◌, arith,
}
use micro_market.Common.AppError.{Error, other}
use micro_market.Common.Action.{Result, ok, err}
use micro_market.Common.Query.{Answers, answered, failed}
use micro_market.Common.Chaos.{ChaosStates, maybe_error}
use micro_market.Inventory.Model.{ProductModel}
use micro_market.Inventory.Environment.{World, Environment, maybe_fail, or_zero}
use micro_market.Inventory.Products.{no_product, find_product}

-- The database and the other service are as they were.
pub record Unchanged {Db Peer Rng : Type 0} (w w' : World Db Peer Rng) : Type 0 where
  pub db : w'.db ≡ w.db
  pub checkout : w'.checkout ≡ w.checkout

pub Unchanged-refl : {Db Peer Rng : Type 0} (w : World Db Peer Rng) → Unchanged w w
Unchanged-refl w = record { db = refl; checkout = refl }

pub Unchanged-trans :
    {Db Peer Rng : Type 0} {w w' w'' : World Db Peer Rng}
    → Unchanged w w'
    → Unchanged w' w''
    → Unchanged w w''
Unchanged-trans u v = record { db = v.db ∙ u.db; checkout = v.checkout ∙ u.checkout }

module _ {Db Peer Rng : Type 0} (env : Environment Db Peer Rng) where
  -- An injected fault, or none; the generator and the counters alone change.
  pub data MayFail (w : World Db Peer Rng) (end : Result (Unit {0}) × World Db Peer Rng)
      : Type 0 where
    injected :
        (e : Error) (w' : World Db Peer Rng) → end ≡ (err e, w') → Unchanged w w' → MayFail w end
    passed : (w' : World Db Peer Rng) → end ≡ (ok tt, w') → Unchanged w w' → MayFail w end

  pub maybe_fail-MayFail : (key : String) (w : World Db Peer Rng) → MayFail w (maybe_fail env key w)
  unfolding maybe_fail
  maybe_fail-MayFail key w =
      let (e, chaos', rng') = maybe_error env.random key (w.chaos, w.rng) in go e chaos' rng' refl
    where
      go :
          (e : Option Error) (c : ChaosStates) (r : Rng)
          → maybe_error env.random key (w.chaos, w.rng) ≡ (e, c, r)
          → MayFail w (maybe_fail env key w)
      go none c r h =
          passed (record w { chaos = c; rng = r }) (ground arith)
            (record { db = refl; checkout = refl })
      go (some e) c r h =
          injected e (record w { chaos = c; rng = r }) (ground arith)
            (record { db = refl; checkout = refl })

  -- A row that is there, none, or a failure of the query; the world is as it was.
  pub data Finds (expected : Option ProductModel) (w : World Db Peer Rng)
      (end : Result ProductModel × World Db Peer Rng) : Type 0 where
    found : (p : ProductModel) → expected ≡ some p → end ≡ (ok p, w) → Finds expected w end
    absent : expected ≡ none → end ≡ (err no_product, w) → Finds expected w end
    broken : (m : String) → end ≡ (err (other m), w) → Finds expected w end

  pub find_product-Finds :
      (q : Db → Result ProductModel) (expected : Option ProductModel) (w : World Db Peer Rng)
      → ((p : ProductModel) → expected ≡ some p → 0 < p.id)
      → Answers expected (q w.db)
      → Finds expected w (find_product env q w)
  unfolding find_product or_zero
  find_product-Finds q none w pos_id (answered e) = absent refl (ground arith)
  find_product-Finds q (some p) w pos_id (answered e) = found p refl (ground (arith, pos_id p refl))
  find_product-Finds q expected w pos_id (failed m e) = broken m (ground arith)

-- A row that is found has a key, and passes the test.
pub find?-All {ℓ} :
    (P : ProductModel → Type ℓ) (test : ProductModel → Bool) (p : ProductModel)
    (ps : List ProductModel)
    → All P ps
    → find? test ps ≡ some p
    → P p
find?-All P test p [] h e = cc
find?-All P test p (x ∷ xs) h e = ground (arith, find?-All P test p xs h.1)

pub find?-holds :
    (test : ProductModel → Bool) (p : ProductModel) (ps : List ProductModel)
    → find? test ps ≡ some p
    → test p ≡ true
find?-holds test p [] e = cc
find?-holds test p (x ∷ xs) e = ground (arith, find?-holds test p xs)
