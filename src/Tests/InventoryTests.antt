-- ===== src/Tests/InventoryTests.antt =====
-- The theorems on the inventory service at concrete inputs.
use micro_market.Common.Http.{ptr}
use micro_market.Base.{◌++◌, length, ℕ, suc, ◌≡◌, refl, true, false, none, some, [], ◌∷◌}
use micro_market.Base.Int.{pos, ◌-ℤ◌, ◌*ℤ◌, int32, int64}
use micro_market.Common.Action.{ok}
use micro_market.Common.Wire.{CheckoutClient}
use micro_market.Common.Chaos.{maybe_error}
use micro_market.Inventory.Model.{
  ProductModel, zero_product, before_create, get_available_quantity, is_out_of_stock,
  product_resource, order_resource,
}
use micro_market.Inventory.Environment.{
  World, Environment, maybe_fail, create, get_checkout_client, or_zero,
}
use micro_market.Inventory.Products.{
  new_product, updated_product, add_request, update_request, find_product, with_client,
  write_and_tell, create_body, save_body, delete_body, create_product, update_product,
  delete_product,
}
use micro_market.Inventory.Orders.{
  PlaceOrderRequest, is_short, taken, new_order, place_body, place_new_order,
}
use micro_market.Inventory.Orders.Outcome
use micro_market.Inventory.Orders.Stock
use micro_market.Inventory.Orders.Race
use micro_market.Inventory.Orders.Service
use micro_market.Inventory.Products.Outcome as Creating
use micro_market.Inventory.Products.Updating
use micro_market.Inventory.Products.Deleting
use micro_market.Inventory.Grpc
use micro_market.Inventory.Grpc.Answers
use micro_market.Inventory.Contract.{stored_order}
use micro_market.Base.Int.{int_laws, ◌+ℤ◌}
use micro_market.Base.{arith}
use micro_market.Inventory.Products.{ProductRequest}
use micro_market.Tests.InventoryDb.{
  Db, products, insert_product, insert_order, environment, contract,
}

-- A checkout service that counts the calls and accepts them.
abbrev pub counting : CheckoutClient ℕ
counting = record {
  add_new_product = λ _ n. (ok (record { success = true }), suc n);
  update_product = λ _ n. (ok (record { success = true }), suc n);
  delete_product = λ _ n. (ok (record { success = true }), suc n);
}

abbrev pub env : Environment Db ℕ ℕ
env = environment (some counting)

abbrev pub chair : ProductModel
chair = record zero_product {
  sid = "C";
  name = "chair";
  price = pos 40;
  currency = "USD";
  available_quantity = some (pos 5);
  out_of_stock = some false;
}

-- The first product was deleted; the chair has the key 2.
abbrev pub world : World Db ℕ ℕ
world = record {
  db = record { rows = none ∷ some chair ∷ []; sales = [] };
  checkout = 0;
  chaos = [];
  rng = 3;
}

abbrev two_chairs : PlaceOrderRequest
two_chairs = record { order_sid = "O1"; user_id = 7; product_sid = "C"; quantity = pos 2 }

-- What the tests below compute with.
unfoldable pub runs : Unit {0}
unfolding place_new_order find_product maybe_fail or_zero is_short taken new_order place_body
    order_resource get_available_quantity is_out_of_stock ptr insert_product insert_order
    maybe_error int64 ◌-ℤ◌ ◌*ℤ◌ create_product create_body write_and_tell with_client
    get_checkout_client create new_product before_create add_request product_resource int32
    update_product save_body updated_product update_request delete_product delete_body
runs = tt

placed_test :
    (place_new_order env two_chairs world).0
    ≡ ok (record {
      internal_id = 1;
      sid = "O1";
      user_id = 7;
      user_name = "";
      user_email = "";
      product_id = 2;
      product_name = "";
      quantity = pos 2;
      total = pos 80;
      created_at = 9;
    })
unfolding runs
placed_test = refl

-- The row of the chair, as the database shows it.
abbrev stored_chair : ProductModel
stored_chair = record chair { id = 2 }

chair-IsStocked : Stock.IsStocked stored_chair
unfolding runs
chair-IsStocked = record { nonneg = omega int_laws; fits = omega arith }

world-AllStocked : Stock.AllStocked env (contract (some counting)) world
world-AllStocked = (chair-IsStocked, tt)

abbrev three_chairs : PlaceOrderRequest
three_chairs = record { order_sid = "O2"; user_id = 8; product_sid = "C"; quantity = pos 3 }

-- The second call empties the stock, and the third is refused.
place_all-Conserves_example : Stock.Conserves env (contract (some counting)) world (
    Stock.place_all env
      (contract (some counting))
      (two_chairs ∷ three_chairs ∷ two_chairs ∷ [])
      world)
place_all-Conserves_example =
    Stock.place_all-Conserves env (contract (some counting))
      (two_chairs ∷ three_chairs ∷ two_chairs ∷ []) world world-AllStocked
      (omega int_laws, (omega int_laws, (omega int_laws, tt)))

-- Both orders go through, and three chairs have left the stock where five were sold.
commit-commit_example :
    (Stock.stock 2 (
        products
          (Race.commit env
            (contract (some counting))
            three_chairs
            stored_chair
            (Race.commit env (contract (some counting)) two_chairs stored_chair world).1).1.db)
      ≡ pos 5 -ℤ pos 3)
    × (Stock.sold 2
          (Race.commit env
            (contract (some counting))
            three_chairs
            stored_chair
            (Race.commit env (contract (some counting)) two_chairs stored_chair world).1).1.db.sales
        ≡ Stock.sold 2 world.db.sales +ℤ pos 2 +ℤ pos 3)
unfolding runs
commit-commit_example =
    Race.commit-commit env (contract (some counting)) two_chairs three_chairs stored_chair
      (stored_order 1 9 (new_order two_chairs stored_chair))
      (stored_order 2 9 (new_order three_chairs stored_chair)) world
      (Race.commit env (contract (some counting)) two_chairs stored_chair world).1
      (Race.commit env (contract (some counting)) three_chairs stored_chair
        (Race.commit env (contract (some counting)) two_chairs stored_chair world).1).1
      refl chair-IsStocked (omega int_laws) refl refl refl

abbrev pub table : ProductRequest
table = record { name = "table"; price = pos 90; currency = "USD"; available_quantity = pos 1 }

create_product-CreateEnds_example :
    Creating.CreateEnds env (contract (some counting)) table world (create_product env table world)
create_product-CreateEnds_example =
    Creating.create_product-CreateEnds env (contract (some counting)) table world

env-IsReliable : Service.IsReliable env (contract (some counting))
unfolding runs
env-IsReliable = record {
  first_by_sid = λ sid db. refl;
  updates_product = λ p db. (_, refl);
  create_order = λ o db free. (
    stored_order (suc (length db.sales)) 9 o,
    record db { sales = db.sales ++ stored_order (suc (length db.sales)) 9 o ∷ [] },
    ground arith,
  );
  transaction = λ body w w' o e. ground arith;
}

-- The world once the injected faults are drawn.
abbrev drawn : World Db ℕ ℕ
drawn = (maybe_fail env "inventory.PlaceNewOrder" world).1

place_new_order-can_place_example :
    Service.is_ok (place_new_order env two_chairs world).0
    ≡ Service.can_place two_chairs (products world.db)
unfolding runs
place_new_order-can_place_example =
    Service.place_new_order-can_place env (contract (some counting)) env-IsReliable two_chairs world
      drawn refl refl
