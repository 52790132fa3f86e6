-- ===== src/Inventory/Routes.antt =====
-- inventory-service/api_routes.go: the routes and their handlers.
pub mod Served
pub mod Paths
use micro_market.Base.{ℕ, String, Option, none, some, List, [], ◌∷◌}
use micro_market.Base.Strconv.{codes, number, parse_uint}
use micro_market.Common.StatusCode
use micro_market.Common.AppError.{Error}
use micro_market.Common.Action.{Result, ok, err}
use micro_market.Common.Http.{
  success, ResponseWriter, write_header, Request, Handler, send_json_error, respond, num_error,
}
use micro_market.Inventory.Model.{ProductResource, OrderResource}
use micro_market.Inventory.Environment.{World, Environment}
use micro_market.Inventory.Products.{
  ProductRequest, get_all_products, get_product, create_product, update_product, delete_product,
}
use micro_market.Inventory.Orders.{get_all_orders}

-- The values that the handlers encode.
pub data Content : Type 0 where
  message : String → Content
  orders : List OrderResource → Content
  products : List ProductResource → Content
  product : ProductResource → Content

-- What the handlers call besides the service: the decoder of a request's body, the validator,
-- `err.Error()`, `strconv.Quote` and the formatted time.
pub record Web : Type 0 where
  pub decode : String → Result ProductRequest
  pub validate : ProductRequest → Option Error
  pub text : Error → String
  pub quote : String → String
  pub timestamp : String

-- The handlers below /api/v1.
pub data Route : Type 0 where
  get_orders get_products create_product_route : Route
  get_product_route update_product_route delete_product_route : Route

-- `RegisterAppRoutes`: the method and the path of each handler below /api/v1.
abbrev pub register_app_routes : List (String × String × Route)
register_app_routes =
    ("GET", "/api/v1/orders", get_orders)
    ∷ ("GET", "/api/v1/products", get_products)
    ∷ ("POST", "/api/v1/products", create_product_route)
    ∷ ("GET", "/api/v1/products/{id}", get_product_route)
    ∷ ("PUT", "/api/v1/products/{id}", update_product_route)
    ∷ ("DELETE", "/api/v1/products/{id}", delete_product_route)
    ∷ []

-- The key in a path: `strconv.ParseUint(vars["id"], 10, 64)`.
unfoldable pub path_id : Web → Request → Result ℕ
unfolding num_error
path_id web r = elim (parse_uint (codes r.id)) [
  | number id ↦ ok id
  | p ↦ err (num_error web.quote r.id p)
]

module _ {W : Type 0} (o : ResponseWriter Content W) where
  -- It stands outside the middlewares.
  unfoldable pub handle_health : W → W
  handle_health w =
      o.encode (success (message "OK"))
        (o.write_header 200 (o.set_content_type "application/json" w))

  module _ {Db Peer Rng : Type 0} (env : Environment Db Peer Rng) (web : Web) where
    -- The key of the path, or the answer 400.
    abbrev pub with_id :
        Request → (ℕ → Handler W (World Db Peer Rng)) → Handler W (World Db Peer Rng)
    with_id r next w s = elim (path_id web r) [
      | err e ↦ (send_json_error o web.text web.timestamp StatusCode.bad_request e w, s)
      | ok id ↦ next id w s
    ]

    -- The request in the body, or the answer 400 or 422.
    abbrev pub with_request :
        Request → (ProductRequest → Handler W (World Db Peer Rng)) → Handler W (World Db Peer Rng)
    with_request r next w s = elim (web.decode r.body) [
      | err e ↦ (send_json_error o web.text web.timestamp StatusCode.bad_request e w, s)
      | ok req ↦ elim (web.validate req) [
        | some e ↦ (send_json_error o web.text web.timestamp StatusCode.unprocessable_entity e w, s)
        | none ↦ next req w s
      ]
    ]

    unfoldable pub handle_get_orders : Handler W (World Db Peer Rng)
    handle_get_orders w s =
        let (r, s') = get_all_orders env s in (respond o web.text web.timestamp orders r w, s')

    unfoldable pub handle_get_products : Handler W (World Db Peer Rng)
    handle_get_products w s =
        let (r, s') = get_all_products env s in (respond o web.text web.timestamp products r w, s')

    unfoldable pub handle_get_product : Request → Handler W (World Db Peer Rng)
    handle_get_product r = with_id r λ id w s.
        let (p, s') = get_product env id s in (respond o web.text web.timestamp product p w, s')

    unfoldable pub handle_create_product : Request → Handler W (World Db Peer Rng)
    handle_create_product r = with_request r λ req w s.
        let (p, s') = create_product env req s in (respond o web.text web.timestamp product p w, s')

    unfoldable pub handle_update_product : Request → Handler W (World Db Peer Rng)
    handle_update_product r = with_id r λ id. with_request r λ req w s.
        let (p, s') = update_product env id req s in
        (respond o web.text web.timestamp product p w, s')

    unfoldable pub handle_delete_product : Request → Handler W (World Db Peer Rng)
    handle_delete_product r = with_id r λ id w s.
        let (d, s') = delete_product env id s in
        (respond o web.text web.timestamp (λ _. message "Product deleted successfully") d w, s')

    -- The handler of a route.
    unfoldable pub handle : Route → Request → Handler W (World Db Peer Rng)
    unfolding handle_get_orders handle_get_products handle_get_product handle_create_product
        handle_update_product handle_delete_product
    handle get_orders r = handle_get_orders
    handle get_products r = handle_get_products
    handle create_product_route r = handle_create_product r
    handle get_product_route r = handle_get_product r
    handle update_product_route r = handle_update_product r
    handle delete_product_route r = handle_delete_product r
