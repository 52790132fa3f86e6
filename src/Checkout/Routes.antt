-- ===== src/Checkout/Routes.antt =====
-- checkout-service/api_routes.go: the routes and their handlers.
pub mod Served
pub mod Guarded
use micro_market.Base.{String, Option, none, some, List, [], ◌∷◌}
use micro_market.Common.StatusCode
use micro_market.Common.AppError.{Error}
use micro_market.Common.Action.{Result, ok, err}
use micro_market.Common.Http.{
  success, ResponseWriter, write_header, Request, Handler, send_json_error, respond,
}
use micro_market.Checkout.Model.{ProductResource, UserResource, OrderResource}
use micro_market.Checkout.Environment.{World, Environment}
use micro_market.Checkout.Products.{get_all_products, get_all_users}
use micro_market.Checkout.Orders.{PlaceOrderRequest, get_all_orders, place_new_order}

-- The values that the handlers encode.
pub data Content : Type 0 where
  message : String → Content
  users : List UserResource → Content
  products : List ProductResource → Content
  orders : List OrderResource → Content
  order : OrderResource → Content

-- What the handlers call besides the service: the decoder of a request's body, the validator,
-- `err.Error()`, and the formatted time.
pub record Web : Type 0 where
  pub decode : String → Result PlaceOrderRequest
  pub validate : PlaceOrderRequest → Option Error
  pub text : Error → String
  pub timestamp : String

-- The handlers below /api/v1.
pub data Route : Type 0 where
  get_users get_products get_orders place_order : Route

-- `RegisterAppRoutes`: the method and the path of each handler below /api/v1.
abbrev pub register_app_routes : List (String × String × Route)
register_app_routes =
    ("GET", "/api/v1/users", get_users)
    ∷ ("GET", "/api/v1/products", get_products)
    ∷ ("GET", "/api/v1/orders", get_orders)
    ∷ ("POST", "/api/v1/orders", place_order)
    ∷ []

module _ {W : Type 0} (o : ResponseWriter Content W) where
  -- It stands outside the middlewares.
  unfoldable pub handle_health : W → W
  handle_health w =
      o.encode (success (message "OK"))
        (o.write_header 200 (o.set_content_type "application/json" w))

  module _ {Db Peer Redis Rng : Type 0} (env : Environment Db Peer Redis Rng) (web : Web) where
    unfoldable pub handle_get_users : Handler W (World Db Peer Redis Rng)
    handle_get_users w s =
        let (r, s') = get_all_users env s in (respond o web.text web.timestamp users r w, s')

    unfoldable pub handle_get_orders : Handler W (World Db Peer Redis Rng)
    handle_get_orders w s =
        let (r, s') = get_all_orders env s in (respond o web.text web.timestamp orders r w, s')

    unfoldable pub handle_get_products : Handler W (World Db Peer Redis Rng)
    handle_get_products w s =
        let (r, s') = get_all_products env s in (respond o web.text web.timestamp products r w, s')

    unfoldable pub handle_place_order : Request → Handler W (World Db Peer Redis Rng)
    handle_place_order r w s = elim (web.decode r.body) [
      | err e ↦ (send_json_error o web.text web.timestamp StatusCode.bad_request e w, s)
      | ok req ↦ elim (web.validate req) [
        | some e ↦ (send_json_error o web.text web.timestamp StatusCode.unprocessable_entity e w, s)
        | none ↦
            let (r, s') = place_new_order env req s in
            (respond o web.text web.timestamp order r w, s')
      ]
    ]

    -- The handler of a route.
    unfoldable pub handle : Route → Request → Handler W (World Db Peer Redis Rng)
    unfolding handle_get_users handle_get_orders handle_get_products handle_place_order
    handle get_users r = handle_get_users
    handle get_products r = handle_get_products
    handle get_orders r = handle_get_orders
    handle place_order r = handle_place_order r
