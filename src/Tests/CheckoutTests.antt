-- ===== src/Tests/CheckoutTests.antt =====
-- The theorems on the checkout service at concrete inputs.
use micro_market.Base.{find?, ℕ, suc, ◌≡◌, refl, true, false, none, some, [], ◌∷◌}
use micro_market.Base.Int.{pos, ◌*ℤ◌, int32, int64}
use micro_market.Common.StatusCode
use micro_market.Common.AppError.{Error, new_app_error}
use micro_market.Common.Action.{ok}
use micro_market.Common.Http.{ptr}
use micro_market.Common.Grpc.{handle_grpc_error}
use micro_market.Common.Wire.{Product, UpdateProductRequest, InventoryClient}
use micro_market.Common.Chaos.{maybe_error}
use micro_market.Checkout.Model.{
  ProductModel, zero_product, zero_user, before_create, order_resource,
}
use micro_market.Checkout.Environment.{
  World, Environment, maybe_fail, create, get_inventory_client, publish_invoice, or_zero,
}
use micro_market.Checkout.Products.Effects.{Adds, Saves}
use micro_market.Checkout.Products.{add_new_product, update_product, delete_product}
use micro_market.Checkout.Orders.{
  PlaceOrderRequest, new_order, reserve_request, register_request, invoice, translate, find_user,
  find_product, require_client, check_reservation, place_body, place_new_order,
}
use micro_market.Checkout.Orders.Outcome
use micro_market.Checkout.Orders.Errors
use micro_market.Checkout.Products.Outcome as Changes
use micro_market.Checkout.Contract.{has_sid, ProductDeleted}
use micro_market.Checkout.Products.Effects.{Adds, Saves}
use micro_market.Tests.CheckoutDb.{
  Db, insert_product, insert_order, from_error, environment, contract,
}

-- An inventory service that counts the calls and has everything.
abbrev pub counting : InventoryClient ℕ
counting = record {
  reserve_product = λ _ n. (
    ok (record { available_quantity = pos 9; out_of_stock = false; is_available = true }),
    suc n,
  );
  register_order = λ _ n. (ok (record { success = true }), suc n);
}

abbrev pub env : Environment Db ℕ ℕ ℕ
env = environment (some counting)

abbrev pub chair : ProductModel
chair = record zero_product {
  sid = "C";
  name = "chair";
  price = pos 40;
  currency = "USD";
  out_of_stock = some false;
}

abbrev pub world : World Db ℕ ℕ ℕ
world = record {
  db = record {
    rows = none ∷ some chair ∷ [];
    people = some (record zero_user { name = "Ann"; email = "ann@market" }) ∷ [];
    sales = [];
  };
  inventory = 0;
  redis = 0;
  chaos = [];
  rng = 3;
  log = [];
}

abbrev pub two_chairs : PlaceOrderRequest
two_chairs = record { user_id = 1; product_id = 2; quantity = pos 2 }

-- What the test below computes with.
unfoldable pub runs : Unit {0}
unfolding place_new_order find_user find_product maybe_fail or_zero require_client
    get_inventory_client check_reservation new_order place_body create before_create publish_invoice
    invoice order_resource reserve_request register_request ptr insert_product insert_order
    maybe_error int64 int32 ◌*ℤ◌
runs = tt

-- The order is there, both calls were made, and its invoice is published.
placed_test :
    let end = place_new_order env two_chairs world in
    (end.0
      ≡ ok (record {
        internal_id = 1;
        sid = "01K";
        user_id = 1;
        user_name = "";
        user_email = "";
        product_id = 2;
        product_name = "";
        price_per_item = pos 40;
        quantity = pos 2;
        total = pos 80;
        created_at = 9;
      }))
    × (end.1.inventory ≡ 2)
    × (end.1.redis ≡ 1)
unfolding runs
placed_test = (refl, refl, refl)

abbrev table : Product
table = record { sid = "T"; name = "table"; price = pos 90; currency = "USD"; out_of_stock = false }

add_new_product-ChangeEnds_example :
    Changes.ChangeEnds env
      (contract (some counting))
      (λ db'.
        Adds table
          ((contract (some counting)).products world.db)
          ((contract (some counting)).products db')
          ((contract (some counting)).orders world.db)
          ((contract (some counting)).orders db'))
      world
      (add_new_product env (record { product = table }) world)
add_new_product-ChangeEnds_example =
    Changes.add_new_product-ChangeEnds env (contract (some counting)) (record { product = table })
      world

abbrev new_price : UpdateProductRequest
new_price = record {
  sid = "C";
  name = "chair";
  price = pos 45;
  currency = "USD";
  available_quantity = pos 5;
  out_of_stock = false;
}

update_product-ChangeEnds_example :
    Changes.ChangeEnds env
      (contract (some counting))
      (λ db'.
        Saves new_price
          ((contract (some counting)).products world.db)
          ((contract (some counting)).products db')
          ((contract (some counting)).orders world.db)
          ((contract (some counting)).orders db'))
      world
      (update_product env new_price world)
update_product-ChangeEnds_example =
    Changes.update_product-ChangeEnds env (contract (some counting)) new_price world

delete_product-ChangeEnds_example :
    Changes.ChangeEnds env
      (contract (some counting))
      (λ db'.
        (p : ProductModel) × (find? (has_sid "C") ((contract (some counting)).products world.db)
          ≡ some p)
        × ProductDeleted
            (contract (some counting)).products
            (contract (some counting)).orders
            world.db
            p
            db')
      world
      (delete_product env (record { sid = "C" }) world)
delete_product-ChangeEnds_example =
    Changes.delete_product-ChangeEnds env (contract (some counting)) (record { sid = "C" }) world

-- An order of a product that is out of stock, as the inventory service refuses it.
abbrev refusal : Error
refusal = new_app_error StatusCode.bad_request "product out of stock"

translate-handle_grpc_error_example :
    translate from_error (handle_grpc_error (λ e. "error") refusal)
    ≡ handle_grpc_error (λ e. "error") refusal
translate-handle_grpc_error_example =
    Errors.translate-handle_grpc_error from_error (λ e. "error") refusal (λ s. refl)
