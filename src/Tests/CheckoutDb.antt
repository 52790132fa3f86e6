-- ===== src/Tests/CheckoutDb.antt =====
-- A database of the checkout service in memory, which keeps its contract, and an environment.
use micro_market.Base.{
  length, find?, if◌then◌else◌, ℕ, suc, ◌≡◌, refl, ap, ◌∙◌, Option, none, some, List, [], ◌∷◌, ◌++◌,
  arith,
}
use micro_market.Common.AppError.{Status, Error, app, record_not_found, rpc, other}
use micro_market.Common.Action.{Result, ok, err, Action, TransactionEnds, rolled_back, committed}
use micro_market.Common.Query.{or_not_found, Answers, Writes, wrote}
use micro_market.Common.Wire.{InventoryClient}
use micro_market.Checkout.Model.{ProductModel, UserModel, OrderModel}
use micro_market.Checkout.Environment.{Gorm, World, rollback, Environment}
use micro_market.Checkout.Contract.{
  user_has_id, has_id, has_sid, order_has_sid, stored_product, stored_order, saved, ProductCreated,
  OrderCreated, Contract,
}
use micro_market.Tests.Table.{
  view, view-pos, view-UniqueKeys, view-behind, view-append, alter, view-alter, view-delete,
}
use micro_market.Tests.InventoryDb.{absent, random}

pub record Db : Type 0 where
  pub rows : List (Option ProductModel)
  pub people : List (Option UserModel)
  pub sales : List OrderModel

abbrev pub put : ℕ → ProductModel → ProductModel
put n p = record p { id = n }

abbrev pub put_user : ℕ → UserModel → UserModel
put_user n u = record u { id = n }

abbrev pub products : Db → List ProductModel
products db = view (λ (p : ProductModel). p.id) put (λ n p. refl) 0 db.rows

abbrev pub users : Db → List UserModel
users db = view (λ (u : UserModel). u.id) put_user (λ n u. refl) 0 db.people

abbrev pub orders : Db → List OrderModel
orders db = db.sales

unfoldable pub insert_product : ProductModel → Action Db ProductModel
insert_product p db =
    let id = suc (length db.rows) in
    let row = stored_product id 9 p in
    if absent (find? (has_sid p.sid) (products db))
    then (ok row, record db { rows = db.rows ++ some row ∷ [] })
    else (err (other "UNIQUE constraint failed"), db)

unfoldable pub insert_order : OrderModel → Action Db OrderModel
insert_order o db =
    let row = stored_order (suc (length db.sales)) 9 o in
    if absent (find? (order_has_sid o.sid) db.sales)
    then (ok row, record db { sales = db.sales ++ row ∷ [] })
    else (err (other "UNIQUE constraint failed"), db)

abbrev alter_row : ℕ → (ProductModel → Option ProductModel) → Action Db (Unit {0})
alter_row id f db = (
  ok tt,
  record db { rows = alter (λ (p : ProductModel). p.id) put (λ n p. refl) 0 id f db.rows },
)

abbrev pub gorm : Gorm Db
gorm = record {
  find_products = λ db. ok (products db);
  find_users = λ db. ok (users db);
  find_orders = λ db. ok db.sales;
  first_user = λ id db. or_not_found (find? (user_has_id id) (users db));
  first_product = λ id db. or_not_found (find? (has_id id) (products db));
  first_product_by_sid = λ sid db. or_not_found (find? (has_sid sid) (products db));
  create_product = insert_product;
  save_product = λ p. alter_row p.id (λ r. some (saved p 8 r));
  delete_product = λ p. alter_row p.id (λ _. none);
  create_order = insert_order;
}

pub insert_product-Writes :
    (p : ProductModel) (db : Db)
    → Writes (ProductCreated products orders db p) db (insert_product p db)
unfolding insert_product
insert_product-Writes p db = go (find? (has_sid p.sid) (products db)) refl
  where
    go :
        (o : Option ProductModel)
        → find? (has_sid p.sid) (products db) ≡ o
        → Writes (ProductCreated products orders db p) db (insert_product p db)
    go (some q) e = Writes.failed "UNIQUE constraint failed" (ground arith)
    go none e =
        wrote (stored_product (suc (length db.rows)) 9 p)
          (record db { rows = db.rows ++ some (stored_product (suc (length db.rows)) 9 p) ∷ [] })
          (ground arith)
          (record {
            id = suc (length db.rows);
            at = 9;
            id_pos = omega arith;
            row = refl;
            id_new =
                view-behind (λ (p : ProductModel). p.id) put (λ n p. refl) 0 (suc (length db.rows))
                  db.rows (omega arith);
            sid_new = e;
            products =
                view-append (λ (p : ProductModel). p.id) put (λ n p. refl) 0 db.rows
                  (stored_product (suc (length db.rows)) 9 p)
                ∙ ap
                    (λ k.
                      products db ++ put (suc k) (stored_product (suc (length db.rows)) 9 p) ∷ [])
                    (omega arith);
            orders = refl;
          })

pub insert_order-Writes :
    (o : OrderModel) (db : Db) → Writes (OrderCreated products orders db o) db (insert_order o db)
unfolding insert_order
insert_order-Writes o db = go (find? (order_has_sid o.sid) db.sales) refl
  where
    go :
        (x : Option OrderModel)
        → find? (order_has_sid o.sid) db.sales ≡ x
        → Writes (OrderCreated products orders db o) db (insert_order o db)
    go (some q) e = Writes.failed "UNIQUE constraint failed" (ground arith)
    go none e =
        wrote (stored_order (suc (length db.sales)) 9 o)
          (record db { sales = db.sales ++ stored_order (suc (length db.sales)) 9 o ∷ [] })
          (ground arith)
          (record {
            id = suc (length db.sales);
            at = 9;
            id_pos = omega arith;
            row = refl;
            sid_new = e;
            products = refl;
            orders = refl;
          })

abbrev pub from_error : Error → Option Status
from_error (app a) = none
from_error record_not_found = none
from_error (rpc s) = some s
from_error (other m) = none

module _ {Peer : Type 0} where
  -- A transaction that begins and commits.
  abbrev pub run_transaction :
      (A : Type 0) → Action (World Db Peer ℕ ℕ) A → Action (World Db Peer ℕ ℕ) A
  run_transaction A body w =
      let (r, w') = body w in elim r [ ok a ↦ (ok a, w') | err e ↦ (err e, rollback w w') ]

  pub run_transaction-TransactionEnds :
      (A : Type 0) (body : Action (World Db Peer ℕ ℕ) A) (w : World Db Peer ℕ ℕ)
      → TransactionEnds rollback body w (run_transaction A body w)
  run_transaction-TransactionEnds A body w = go (body w).0 (body w).1 refl
    where
      go :
          (r : Result A) (w' : World Db Peer ℕ ℕ)
          → body w ≡ (r, w')
          → TransactionEnds rollback body w (run_transaction A body w)
      go (ok a) w' e = committed a w' e (ground arith)
      go (err x) w' e = rolled_back x w' e (ground arith)

  -- The Redis server counts what is published.
  abbrev pub environment : Option (InventoryClient Peer) → Environment Db Peer ℕ ℕ
  environment client = record {
    gorm = gorm;
    random = random;
    make_ulid = λ r. ("01K", suc r);
    client = client;
    from_error = from_error;
    publish = λ channel invoice n. (none, suc n);
    redis_channel = "invoices";
    transaction = run_transaction;
  }

  abbrev pub contract : (client : Option (InventoryClient Peer)) → Contract (environment client)
  contract client = record {
    users = users;
    products = products;
    orders = orders;
    user_ids = λ db. view-pos (λ (u : UserModel). u.id) put_user (λ n u. refl) 0 db.people;
    product_ids = λ db. view-pos (λ (p : ProductModel). p.id) put (λ n p. refl) 0 db.rows;
    unique_ids = λ db. view-UniqueKeys (λ (p : ProductModel). p.id) put (λ n p. refl) 0 db.rows;
    first_user = λ id db. Answers.answered refl;
    first_product = λ id db. Answers.answered refl;
    first_product_by_sid = λ sid db. Answers.answered refl;
    create_product = insert_product-Writes;
    save_product = λ p old db found. wrote tt _ refl (record {
      at = 8;
      products =
          view-alter (λ (p : ProductModel). p.id) put (λ n p. refl) 0 p.id (saved p 8) db.rows
            (λ r e. refl);
      orders = refl;
    });
    delete_product = λ p db. wrote tt _ refl (record {
      products = view-delete (λ (p : ProductModel). p.id) put (λ n p. refl) 0 p.id db.rows;
      orders = refl;
    });
    create_order = insert_order-Writes;
    transaction = run_transaction-TransactionEnds;
    from_error = λ s. refl;
  }
