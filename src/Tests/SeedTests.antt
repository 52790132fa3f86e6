-- ===== src/Tests/SeedTests.antt =====
-- The theorems on the seeds at concrete inputs: databases in memory that take several rows at
-- once.
use micro_market.Common.AppError.{Error}
use micro_market.Common.Wire.{Success, AddNewProductRequest, CheckoutClient}
use micro_market.Base.{
  true, length, ℕ, suc, ◌+◌, ◌≡◌, refl, ap, ◌∙◌, inl, false, Option, none, some, List, [], ◌∷◌,
  ◌++◌, arith,
}
use micro_market.Common.Action.{Result, err, ok}
use micro_market.Common.Query.{wrote}
use micro_market.Inventory.Model as StoresModel
use micro_market.Inventory.Environment as StoresEnvironment
use micro_market.Inventory.Seed as Stores
use micro_market.Inventory.Seed.Adding
use micro_market.Inventory.Seed.Outcome as StoresOutcome
use micro_market.Checkout.Model as ShopsModel
use micro_market.Checkout.Environment as ShopsEnvironment
use micro_market.Checkout.Seed as Shops
use micro_market.Checkout.Seed.Outcome as ShopsOutcome
use micro_market.Tests.Table.{view}
use micro_market.Tests.InventoryDb as StoresDb
use micro_market.Tests.InventoryTests as StoresTests
use micro_market.Tests.CheckoutDb as ShopsDb
use micro_market.Tests.CheckoutTests as ShopsTests

abbrev somes : {A : Type 0} → List A → List (Option A)
somes [] = []
somes (x ∷ xs) = some x ∷ somes xs

module _ {Row : Type 0} (key : Row → ℕ) (put : ℕ → Row → Row)
    (key-put : (n : ℕ) (r : Row) → key (put n r) ≡ n) where
  -- The rows that are added, with the keys that they get.
  abbrev new_rows : ℕ → List Row → List Row
  new_rows n [] = []
  new_rows n (r ∷ rs) = put (suc n) r ∷ new_rows (suc n) rs

  length-new_rows : (n : ℕ) (rs : List Row) → length (new_rows n rs) ≡ length rs
  length-new_rows n [] = refl
  length-new_rows n (r ∷ rs) = ap suc (length-new_rows (suc n) rs)

  view-somes : (n : ℕ) (rs : List Row) → view key put key-put n (somes rs) ≡ new_rows n rs
  view-somes n [] = refl
  view-somes n (r ∷ rs) = ap (λ l. put (suc n) r ∷ l) (view-somes (suc n) rs)

  view-append_all :
      (n : ℕ) (table : List (Option Row)) (rs : List Row)
      → view key put key-put n (table ++ somes rs)
        ≡ view key put key-put n table ++ new_rows (n + length table) rs
  view-append_all n [] rs = view-somes n rs ∙ ap (λ k. new_rows k rs) (omega arith)
  view-append_all n (none ∷ table) rs =
      view-append_all (suc n) table rs
      ∙ ap (λ k. view key put key-put (suc n) table ++ new_rows k rs) (omega arith)
  view-append_all n (some r ∷ table) rs =
      ap (λ l. put (suc n) r ∷ l)
        (view-append_all (suc n) table rs
          ∙ ap (λ k. view key put key-put (suc n) table ++ new_rows k rs) (omega arith))

abbrev pub stores_seeder : Stores.Seeder StoresDb.Db ℕ ℕ
stores_seeder = record {
  count_products = λ db. ok (length (StoresDb.products db));
  create_products = λ ps db. (
    ok (
        new_rows (λ (p : StoresModel.ProductModel). p.id) StoresDb.put (λ n p. refl)
          (length db.rows) ps),
    record db { rows = db.rows ++ somes ps },
  );
  savepoint = λ A body w. StoresDb.run_transaction A body w;
  first_name = λ r. ("Ann", suc r);
  fifth = λ r. (false, suc r);
  from_error = ShopsDb.from_error;
}

-- The client of the tests accepts everything.
accepts :
    (client : CheckoutClient ℕ) (req : AddNewProductRequest) (peer peer' : ℕ) (e : Error)
    → some StoresTests.counting ≡ some client
    → client.add_new_product req peer ≡ (err e, peer')
    → ⊥
accepts client req peer peer' e held k =
    go (client.add_new_product req peer)
      (ap (λ (o : CheckoutClient ℕ). o.add_new_product req peer) (same client held)) k
  where
    same : (c : CheckoutClient ℕ) → some StoresTests.counting ≡ some c → StoresTests.counting ≡ c
    same c h = cc

    go :
        (r : Result Success × ℕ)
        → (ok (record { success = true }), suc peer) ≡ r
        → r ≡ (err e, peer')
        → ⊥
    go r a b = cc

stores-SeedContract :
    Adding.SeedContract StoresTests.env
      (StoresDb.contract (some StoresTests.counting))
      stores_seeder
stores-SeedContract = record {
  count_products = λ db. inl refl;
  create_products = λ ps db. wrote _ _ refl (record {
    size =
        length-new_rows (λ (p : StoresModel.ProductModel). p.id) StoresDb.put (λ n p. refl)
          (length db.rows) ps;
    products =
        view-append_all (λ (p : StoresModel.ProductModel). p.id) StoresDb.put (λ n p. refl) 0
          db.rows ps
        ∙ ap
            (λ k.
              StoresDb.products db
              ++ new_rows (λ (p : StoresModel.ProductModel). p.id) StoresDb.put (λ n p. refl) k ps)
            (omega arith);
    orders = refl;
  });
  savepoint = StoresDb.run_transaction-TransactionEnds;
  has_status = λ client req peer peer' e held k. absurd (accepts client req peer peer' e held k);
}

abbrev pub stores_empty : StoresEnvironment.World StoresDb.Db ℕ ℕ
stores_empty = record StoresTests.world { db = record { rows = []; sales = [] } }

run_seed-SeedEnds_example :
    StoresOutcome.SeedEnds StoresTests.env
      (StoresDb.contract (some StoresTests.counting))
      stores_seeder
      stores_empty
      (Stores.run_seed StoresTests.env stores_seeder stores_empty)
run_seed-SeedEnds_example =
    StoresOutcome.run_seed-SeedEnds StoresTests.env (StoresDb.contract (some StoresTests.counting))
      stores_seeder stores-SeedContract stores_empty

abbrev pub shops_seeder : Shops.Seeder ShopsDb.Db ℕ
shops_seeder = record {
  count_users = λ db. ok (length (ShopsDb.users db));
  create_users = λ us db. (
    ok (
        new_rows (λ (u : ShopsModel.UserModel). u.id) ShopsDb.put_user (λ n u. refl)
          (length db.people) us),
    record db { people = db.people ++ somes us },
  );
  first_name = λ r. ("Ann", suc r);
  email = λ r. ("ann@market", suc r);
}

shops-SeedContract :
    ShopsOutcome.SeedContract ShopsTests.env
      (ShopsDb.contract (some ShopsTests.counting))
      shops_seeder
shops-SeedContract = record {
  count_users = λ db. inl refl;
  create_users = λ us db. wrote _ _ refl (record {
    size =
        length-new_rows (λ (u : ShopsModel.UserModel). u.id) ShopsDb.put_user (λ n u. refl)
          (length db.people) us;
    users =
        view-append_all (λ (u : ShopsModel.UserModel). u.id) ShopsDb.put_user (λ n u. refl) 0
          db.people us
        ∙ ap
            (λ k.
              ShopsDb.users db
              ++ new_rows (λ (u : ShopsModel.UserModel). u.id) ShopsDb.put_user (λ n u. refl) k us)
            (omega arith);
    products = refl;
    orders = refl;
  });
}

abbrev pub shops_empty : ShopsEnvironment.World ShopsDb.Db ℕ ℕ ℕ
shops_empty = record ShopsTests.world { db = record { rows = []; people = []; sales = [] } }

run_seed-UserSeedEnds_example :
    ShopsOutcome.UserSeedEnds ShopsTests.env
      (ShopsDb.contract (some ShopsTests.counting))
      shops_seeder
      shops_empty
      (Shops.run_seed ShopsTests.env shops_seeder shops_empty)
run_seed-UserSeedEnds_example =
    ShopsOutcome.run_seed-UserSeedEnds ShopsTests.env (ShopsDb.contract (some ShopsTests.counting))
      shops_seeder shops-SeedContract shops_empty
