-- ===== src/Tests/LoadGeneratorTests.antt =====
-- The theorems on the load generator at concrete inputs.
use micro_market.Base.{length, All, ℕ, suc, ◌^◌, ◌<◌, ◌≡◌, refl, true, false, none, [], ◌∷◌, arith}
use micro_market.Base.Int.{pos, ◌≤ℤ◌}
use micro_market.Base.Strconv.{
  codes, parse_digits, parse_uint, leading_digits, scan_uint, trim_left, trim_right, trim_space,
  split,
}
use micro_market.Base.Strconv.Parts.{join}
use micro_market.Common.Action.{ok}
use micro_market.LoadGenerator.{
  Product, World, Environment, do_json, fetch_products, create_product_once, place_order,
  seed_products, ensure_products,
}
use micro_market.LoadGenerator.Settings.{Config, user_ids, parse_parts, parse_user_ids}
use micro_market.LoadGenerator.Settings.UserIds
use micro_market.LoadGenerator.Pool
use micro_market.LoadGenerator.Pool.Ending
use micro_market.LoadGenerator.Seeding
use micro_market.LoadGenerator.Orders
use micro_market.Tests.InventoryDb.{random}
use native.Mathlib.Nat.{mod-lt}

abbrev lamp : Product
lamp = record {
  id = 4;
  sid = "L";
  name = "lamp";
  price = pos 30;
  currency = "USD";
  available_quantity = pos 7;
  out_of_stock = false;
}

-- Services that count the requests. There are no products at first, and each product that is
-- created is the lamp.
abbrev env : Environment ℕ ℕ
env = record {
  new_request = λ method url body. none;
  send =
      λ method url body n. (ok (record { status_code = 200; status = "200 OK"; body = "" }), suc n);
  decode_product = λ body. ok lamp;
  decode_products = λ body. ok [];
  random = random;
  new_source = λ r. (r, suc r);
  product_name = λ n. "lamp";
}

abbrev cfg : Config
cfg = record {
  checkout_url = "http://localhost:8888";
  inventory_url = "http://localhost:9999";
  duration = pos 30000000000;
  interval = pos 500000000;
  concurrency = pos 2;
  seed_products = pos 2;
  user_ids = 3 ∷ 5 ∷ [];
}

abbrev before : World ℕ ℕ
before = record { services = 0; rng = 3 }

-- One request for the products there, and two that create one each.
ensure_products-enough_example : pos 2 ≤ℤ pos 2
unfolding ensure_products fetch_products seed_products create_product_once do_json
ensure_products-enough_example =
    Seeding.ensure_products-enough env cfg (lamp ∷ lamp ∷ []) before
      (record { services = 3; rng = 7 }) refl

place_order-Sent_example :
    Orders.Sent env
      (λ n r h. mod-lt r h)
      cfg
      (lamp ∷ [])
      0
      (place_order env cfg (lamp ∷ []) before).1.services
place_order-Sent_example = Orders.place_order-Sent env (λ n r h. mod-lt r h) cfg (lamp ∷ []) before

parse_user_ids-join_example :
    parse_user_ids (join (UserIds.texts (7 ∷ 0 ∷ 18446744073709551615 ∷ [])))
    ≡ user_ids (7 ∷ 0 ∷ 18446744073709551615 ∷ [])
parse_user_ids-join_example =
    UserIds.parse_user_ids-join 7 (0 ∷ 18446744073709551615 ∷ [])
      (omega arith, (omega arith, (omega arith, tt)))

-- Spaces and empty parts are skipped, and what follows the digits of a part is not read.
user_ids_test : parse_user_ids (codes " 3, ,12abc") ≡ user_ids (3 ∷ 12 ∷ [])
unfolding parse_user_ids parse_parts codes trim_space trim_left trim_right split scan_uint
    leading_digits parse_uint parse_digits
user_ids_test = refl

parse_user_ids-bound_example :
    (0 < length {A = ℕ} (3 ∷ 12 ∷ [])) × All (λ n. n < 2 ^ 64) (3 ∷ 12 ∷ [])
parse_user_ids-bound_example =
    UserIds.parse_user_ids-bound (codes " 3, ,12abc") (3 ∷ 12 ∷ []) user_ids_test

-- A tick, and the end of the context while its operation is under way.
abbrev stopping : Pool.Pool
stopping = record { sem = 1; wg = 1; started = 1; stopping = true; returned = false }

abbrev under_way : Pool.Pool
under_way = record { sem = 1; wg = 1; started = 1; stopping = false; returned = false }

stopping-Reach : Pool.Reach 2 stopping
unfolding Pool.next
stopping-Reach =
    Pool.step {p = under_way} Pool.stop (Pool.step {p = Pool.idle} Pool.tick Pool.start refl) refl

Reach-IsBounded_example : Pool.IsBounded 2 stopping
Reach-IsBounded_example = Pool.Reach-IsBounded stopping-Reach

Reach-Ends_example : Ending.Ends 2 2 stopping
Reach-Ends_example = Ending.Reach-Ends stopping-Reach refl
