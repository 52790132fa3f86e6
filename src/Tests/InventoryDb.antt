-- ===== src/Tests/InventoryDb.antt =====
-- A database of the inventory service in memory, which keeps its contract, and an environment.
use micro_market.Base.{
  length, find?, ◌==◌, if◌then◌else◌, ℕ, suc, ◌%◌, ◌≡◌, refl, sym, ap, ◌∙◌, Bool, true, false,
  Option, none, some, List, [], ◌∷◌, ◌++◌, arith,
}
use micro_market.Common.AppError.{other}
use micro_market.Common.Action.{Result, ok, err, Action, TransactionEnds, rolled_back, committed}
use micro_market.Common.Query.{or_not_found, answered, failed, Writes, wrote}
use micro_market.Common.Wire.{CheckoutClient}
use micro_market.Common.Chaos.{Random}
use micro_market.Inventory.Model.{ProductModel, OrderModel}
use micro_market.Inventory.Environment.{Gorm, World, rollback, Environment}
use micro_market.Inventory.Contract.{
  has_id, has_sid, order_has_sid, merge, stored_product, stored_order, ProductCreated, OrderCreated,
  saved, select_keys, map_option, Contract,
}
use micro_market.Tests.Table.{
  view, view-pos, view-UniqueKeys, view-behind, view-append, alter, view-alter, view-delete,
}

pub record Db : Type 0 where
  pub rows : List (Option ProductModel)
  pub sales : List OrderModel

abbrev pub put : ℕ → ProductModel → ProductModel
put n p = record p { id = n }

abbrev pub products : Db → List ProductModel
products db = view (λ (p : ProductModel). p.id) put (λ n p. refl) 0 db.rows

abbrev pub orders : Db → List OrderModel
orders db = db.sales

-- The unique index: a row whose identifier is there is refused.
abbrev pub absent : {A : Type 0} → Option A → Bool
absent none = true
absent (some _) = false

unfoldable pub insert_product : ProductModel → Action Db ProductModel
insert_product p db =
    let id = suc (length db.rows) in
    let row = stored_product id 9 p in
    if absent (find? (has_sid p.sid) (products db))
    then (ok row, record db { rows = db.rows ++ some row ∷ [] })
    else (err (other "UNIQUE constraint failed"), db)

unfoldable pub insert_order : OrderModel → Action Db OrderModel
insert_order o db =
    let row = stored_order (suc (length db.sales)) 9 o in
    if absent (find? (order_has_sid o.sid) db.sales)
    then (ok row, record db { sales = db.sales ++ row ∷ [] })
    else (err (other "UNIQUE constraint failed"), db)

abbrev alter_row : ℕ → (ProductModel → Option ProductModel) → Action Db (Unit {0})
alter_row id f db = (
  ok tt,
  record db { rows = alter (λ (p : ProductModel). p.id) put (λ n p. refl) 0 id f db.rows },
)

abbrev pub gorm : Gorm Db
gorm = record {
  find_products = λ db. ok (products db);
  first_by_id = λ id db. or_not_found (find? (has_id id) (products db));
  select_by_id = λ id db. or_not_found (map_option select_keys (find? (has_id id) (products db)));
  first_by_sid = λ sid db. or_not_found (find? (has_sid sid) (products db));
  create_product = insert_product;
  updates_product = λ p. alter_row p.id (λ r. some (merge p 8 r));
  save_product = λ p. alter_row p.id (λ r. some (saved p 8 r));
  delete_product = λ id. alter_row id (λ _. none);
  create_order = insert_order;
  find_orders = λ db. ok db.sales;
}

pub insert_product-Writes :
    (p : ProductModel) (db : Db)
    → Writes (ProductCreated products orders db p) db (insert_product p db)
unfolding insert_product
insert_product-Writes p db = go (find? (has_sid p.sid) (products db)) refl
  where
    go :
        (o : Option ProductModel)
        → find? (has_sid p.sid) (products db) ≡ o
        → Writes (ProductCreated products orders db p) db (insert_product p db)
    go (some q) e = failed "UNIQUE constraint failed" (ground arith)
    go none e =
        wrote (stored_product (suc (length db.rows)) 9 p)
          (record db { rows = db.rows ++ some (stored_product (suc (length db.rows)) 9 p) ∷ [] })
          (ground arith)
          (record {
            id = suc (length db.rows);
            at = 9;
            id_pos = omega arith;
            row = refl;
            id_new =
                view-behind (λ (p : ProductModel). p.id) put (λ n p. refl) 0 (suc (length db.rows))
                  db.rows (omega arith);
            sid_new = e;
            products =
                view-append (λ (p : ProductModel). p.id) put (λ n p. refl) 0 db.rows
                  (stored_product (suc (length db.rows)) 9 p)
                ∙ ap
                    (λ k.
                      products db ++ put (suc k) (stored_product (suc (length db.rows)) 9 p) ∷ [])
                    (omega arith);
            orders = refl;
          })

pub insert_order-Writes :
    (o : OrderModel) (db : Db) → Writes (OrderCreated products orders db o) db (insert_order o db)
unfolding insert_order
insert_order-Writes o db = go (find? (order_has_sid o.sid) db.sales) refl
  where
    go :
        (x : Option OrderModel)
        → find? (order_has_sid o.sid) db.sales ≡ x
        → Writes (OrderCreated products orders db o) db (insert_order o db)
    go (some q) e = failed "UNIQUE constraint failed" (ground arith)
    go none e =
        wrote (stored_order (suc (length db.sales)) 9 o)
          (record db { sales = db.sales ++ stored_order (suc (length db.sales)) 9 o ∷ [] })
          (ground arith)
          (record {
            id = suc (length db.sales);
            at = 9;
            id_pos = omega arith;
            row = refl;
            sid_new = e;
            products = refl;
            orders = refl;
          })

-- The generator counts. It says `true` at an even number, and `Perm` counts down.
abbrev is_even : ℕ → Bool
is_even n = n % 2 == 0

abbrev pub random : Random ℕ
random = record {
  intn = λ n r. (r % n, suc r);
  perm = λ n r. (
    19 ∷ 18 ∷ 17 ∷ 16 ∷ 15 ∷ 14 ∷ 13 ∷ 12 ∷ 11 ∷ 10 ∷ 9 ∷ 8 ∷ 7 ∷ 6 ∷ 5 ∷ 4 ∷ 3 ∷ 2 ∷ 1 ∷ 0 ∷ [],
    suc r,
  );
  coin = λ r. (is_even r, suc r);
}

module _ {Peer : Type 0} where
  -- A transaction that begins and commits.
  abbrev pub run_transaction :
      (A : Type 0) → Action (World Db Peer ℕ) A → Action (World Db Peer ℕ) A
  run_transaction A body w =
      let (r, w') = body w in elim r [ ok a ↦ (ok a, w') | err e ↦ (err e, rollback w w') ]

  pub run_transaction-TransactionEnds :
      (A : Type 0) (body : Action (World Db Peer ℕ) A) (w : World Db Peer ℕ)
      → TransactionEnds rollback body w (run_transaction A body w)
  run_transaction-TransactionEnds A body w = go (body w).0 (body w).1 refl
    where
      go :
          (r : Result A) (w' : World Db Peer ℕ)
          → body w ≡ (r, w')
          → TransactionEnds rollback body w (run_transaction A body w)
      go (ok a) w' e = committed a w' e (ground arith)
      go (err x) w' e = rolled_back x w' e (ground arith)

  abbrev pub environment : Option (CheckoutClient Peer) → Environment Db Peer ℕ
  environment client = record {
    gorm = gorm;
    random = random;
    make_ulid = λ r. ("01J", suc r);
    client = client;
    transaction = run_transaction;
  }

  abbrev pub contract : (client : Option (CheckoutClient Peer)) → Contract (environment client)
  contract client = record {
    products = products;
    orders = orders;
    product_ids = λ db. view-pos (λ (p : ProductModel). p.id) put (λ n p. refl) 0 db.rows;
    unique_ids = λ db. view-UniqueKeys (λ (p : ProductModel). p.id) put (λ n p. refl) 0 db.rows;
    first_by_id = λ id db. answered refl;
    select_by_id = λ id db. answered refl;
    first_by_sid = λ sid db. answered refl;
    create_product = insert_product-Writes;
    updates_product = λ p db. wrote tt _ refl (record {
      at = 8;
      products =
          view-alter (λ (p : ProductModel). p.id) put (λ n p. refl) 0 p.id (merge p 8) db.rows
            (λ r e. ap (λ k. put k (merge p 8 r)) (sym e));
      orders = refl;
    });
    save_product = λ p old db found. wrote tt _ refl (record {
      at = 8;
      products =
          view-alter (λ (p : ProductModel). p.id) put (λ n p. refl) 0 p.id (saved p 8) db.rows
            (λ r e. refl);
      orders = refl;
    });
    delete_product = λ id db. wrote tt _ refl (record {
      products = view-delete (λ (p : ProductModel). p.id) put (λ n p. refl) 0 id db.rows;
      orders = refl;
    });
    create_order = insert_order-Writes;
    transaction = run_transaction-TransactionEnds;
  }
