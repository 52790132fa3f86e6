-- ===== src/Tests/RoutesTests.antt =====
-- The theorems on the routes of the two services at concrete requests.
use micro_market.Base.{
  leb, if◌then◌else◌, ℕ, ◌≤◌, ◌≡◌, refl, Bool, ◌&&◌, none, some, [], ◌∷◌, arith, str_eq,
}
use micro_market.Base.Int.{pos, ◌≤ℤ◌, leb_ℤ}
use micro_market.Base.Text.{concat, decimal}
use micro_market.Common.AppError.{other}
use micro_market.Common.Action.{ok, err}
use micro_market.Common.Http.{Response, new_response, server, Request, Handler}
use micro_market.Common.Http.Middlewares.{
  no_meters, StatusResponseWriter, status_writer, Served, middlewares, behind,
}
use micro_market.Common.Http.Served.{IsServed, passed_on}
use micro_market.Inventory.Routes as Stores
use micro_market.Inventory.Routes.Served as StoresServed
use micro_market.Inventory.Routes.Paths
use micro_market.Inventory.Environment as StoresEnvironment
use micro_market.Checkout.Routes as Shops
use micro_market.Checkout.Routes.Served as ShopsServed
use micro_market.Checkout.Routes.Guarded as ShopsGuarded
use micro_market.Checkout.Environment as ShopsEnvironment
use micro_market.Checkout.Orders as ShopsOrders
use micro_market.Tests.InventoryDb as StoresDb
use micro_market.Tests.InventoryTests as StoresTests
use micro_market.Tests.CheckoutDb as ShopsDb
use micro_market.Tests.CheckoutTests as ShopsTests

-- The tracing middleware that does nothing but call the next handler.
abbrev untraced : {A : Type 0} → A → A
untraced h = h

-- A body is "table", or it is not decoded.
abbrev stores_web : Stores.Web
stores_web = record {
  decode =
      λ body. if str_eq body "table" then ok StoresTests.table else err (other "invalid character");
  validate = λ req. if str_eq req.name "" then some (other "name is required") else none;
  text = λ e. "error";
  quote = λ s. concat ("\"" ∷ s ∷ "\"" ∷ []);
  timestamp = "2025-11-26T15:04:05Z";
}

abbrev stores_before : Served (StoresEnvironment.World StoresDb.Db ℕ ℕ)
stores_before = record { meters = no_meters; state = StoresTests.world; clock = 0 }

abbrev put_table : Request
put_table = record { id = "2"; body = "table" }

abbrev stores_handler :
    Handler
      (StatusResponseWriter (Response Stores.Content))
      (StoresEnvironment.World StoresDb.Db ℕ ℕ)
stores_handler =
    Stores.handle (status_writer server) StoresTests.env stores_web Stores.update_product_route
      put_table

handle-IsAnswered_example :
    IsServed "PUT /api/v1/products/2" 1500000
      (stores_handler passed_on StoresTests.world).1
      stores_before
      (middlewares server untraced "PUT /api/v1/products/2"
        (behind 1500000 stores_handler)
        new_response
        stores_before).1
      (middlewares server untraced "PUT /api/v1/products/2"
        (behind 1500000 stores_handler)
        new_response
        stores_before).0
handle-IsAnswered_example =
    StoresServed.handle-IsAnswered StoresTests.env stores_web untraced (λ h w s. refl)
      Stores.update_product_route put_table "PUT /api/v1/products/2" 1500000 stores_before

abbrev min_1 : ShopsOrders.PlaceOrderRequest → Bool
min_1 req = leb 1 req.user_id && leb 1 req.product_id && leb_ℤ (pos 1) req.quantity

abbrev shops_web : Shops.Web
shops_web = record {
  decode = λ body.
      if str_eq body "two chairs" then ok ShopsTests.two_chairs else err (other "unexpected EOF");
  validate = λ req. if min_1 req then none else some (other "quantity must be 1 or greater");
  text = λ e. "error";
  timestamp = "2025-11-26T15:04:05Z";
}

abbrev shops_before : Served (ShopsEnvironment.World ShopsDb.Db ℕ ℕ ℕ)
shops_before = record { meters = no_meters; state = ShopsTests.world; clock = 0 }

abbrev post_order : Request
post_order = record { id = ""; body = "two chairs" }

abbrev shops_handler :
    Handler
      (StatusResponseWriter (Response Shops.Content))
      (ShopsEnvironment.World ShopsDb.Db ℕ ℕ ℕ)
shops_handler =
    Shops.handle (status_writer server) ShopsTests.env shops_web Shops.place_order post_order

handle-IsServed_example :
    IsServed "POST /api/v1/orders" 2500000
      (shops_handler passed_on ShopsTests.world).1
      shops_before
      (middlewares server untraced "POST /api/v1/orders"
        (behind 2500000 shops_handler)
        new_response
        shops_before).1
      (middlewares server untraced "POST /api/v1/orders"
        (behind 2500000 shops_handler)
        new_response
        shops_before).0
handle-IsServed_example =
    ShopsServed.handle-IsServed ShopsTests.env shops_web untraced (λ h w s. refl) Shops.place_order
      post_order "POST /api/v1/orders" 2500000 shops_before

checks :
    (req : ShopsOrders.PlaceOrderRequest)
    → shops_web.validate req ≡ none
    → (1 ≤ req.user_id) × (1 ≤ req.product_id) × (pos 1 ≤ℤ req.quantity)
checks req e = (ground arith, ground arith, ground arith)

handle_place_order-OrderAnswer_example :
    ShopsGuarded.OrderAnswer ShopsTests.env
      (ShopsDb.contract (some ShopsTests.counting))
      shops_web
      checks
      post_order
      ShopsTests.world
      (Shops.handle_place_order server ShopsTests.env shops_web post_order new_response
        ShopsTests.world)
handle_place_order-OrderAnswer_example =
    ShopsGuarded.handle_place_order-OrderAnswer ShopsTests.env
      (ShopsDb.contract (some ShopsTests.counting)) shops_web checks post_order ShopsTests.world

path_id-decimal_example :
    Stores.path_id stores_web (record { id = decimal 18446744073709551615; body = "" })
    ≡ ok 18446744073709551615
path_id-decimal_example = Paths.path_id-decimal stores_web 18446744073709551615 "" (omega arith)
