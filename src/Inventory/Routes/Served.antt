-- ===== src/Inventory/Routes/Served.antt =====
-- Every request to a route of inventory-service/api_routes.go is answered.
use micro_market.Base.{ℕ, String, ◌≡◌, refl, subst, Option, none, some, arith}
use micro_market.Common.StatusCode
use micro_market.Common.AppError.{Error}
use micro_market.Common.Action.{Result, ok, err}
use micro_market.Common.Http.{Response, new_response, server, Request, Handler}
use micro_market.Common.Http.Middlewares.{
  StatusResponseWriter, status_writer, Served, middlewares, behind,
}
use micro_market.Common.Http.Answered.{
  IsFresh, IsAnswer, send_json_error-IsAnswer, respond-IsAnswer,
}
use micro_market.Common.Http.Served.{IsServed, passed_on, middlewares-IsServed}
use micro_market.Inventory.Environment.{World, Environment}
use micro_market.Inventory.Orders.{get_all_orders}
use micro_market.Inventory.Products.{
  ProductRequest, get_all_products, get_product, create_product, update_product, delete_product,
}
use micro_market.Inventory.Routes.{
  Content, message, orders, products, product, Web, Route, get_orders, get_products,
  create_product_route, get_product_route, update_product_route, delete_product_route, path_id,
  with_id, with_request, handle,
}

module _ {Db Peer Rng : Type 0} (env : Environment Db Peer Rng) (web : Web) where
  abbrev Answers : Handler (StatusResponseWriter (Response Content)) (World Db Peer Rng) → Type 0
  Answers h =
      (w : StatusResponseWriter (Response Content)) (s : World Db Peer Rng)
      → IsFresh w
      → IsAnswer w (h w s).0

  with_id-Answers :
      (r : Request)
      (next : ℕ → Handler (StatusResponseWriter (Response Content)) (World Db Peer Rng))
      → ((id : ℕ) → Answers (next id))
      → Answers (with_id (status_writer server) env web r next)
  with_id-Answers r next a w s f = go (path_id web r) refl
    where
      go :
          (p : Result ℕ)
          → path_id web r ≡ p
          → IsAnswer w (with_id (status_writer server) env web r next w s).0
      go (err e) k =
          subst (IsAnswer w) (ground arith)
            (send_json_error-IsAnswer web.text web.timestamp StatusCode.bad_request e w f)
      go (ok id) k = subst (IsAnswer w) (ground arith) (a id w s f)

  with_request-Answers :
      (r : Request)
      (next : ProductRequest
        → Handler (StatusResponseWriter (Response Content)) (World Db Peer Rng))
      → ((req : ProductRequest) → Answers (next req))
      → Answers (with_request (status_writer server) env web r next)
  with_request-Answers r next a w s f = decoded (web.decode r.body) refl
    where
      validated :
          (req : ProductRequest)
          → web.decode r.body ≡ ok req
          → (o : Option Error) → web.validate req ≡ o
          → IsAnswer w (with_request (status_writer server) env web r next w s).0
      validated req d (some e) v =
          subst (IsAnswer w) (ground arith)
            (send_json_error-IsAnswer web.text web.timestamp StatusCode.unprocessable_entity e w f)
      validated req d none v = subst (IsAnswer w) (ground arith) (a req w s f)

      decoded :
          (d : Result ProductRequest)
          → web.decode r.body ≡ d
          → IsAnswer w (with_request (status_writer server) env web r next w s).0
      decoded (err e) d =
          subst (IsAnswer w) (ground arith)
            (send_json_error-IsAnswer web.text web.timestamp StatusCode.bad_request e w f)
      decoded (ok req) d = validated req d (web.validate req) refl

  -- Each handler writes one answer.
  pub handle-IsAnswer :
      (route : Route) (r : Request) → Answers (handle (status_writer server) env web route r)
  unfolding handle
  handle-IsAnswer get_orders r =
      λ w s f. respond-IsAnswer web.text web.timestamp orders (get_all_orders env s).0 w f
  handle-IsAnswer get_products r =
      λ w s f. respond-IsAnswer web.text web.timestamp products (get_all_products env s).0 w f
  handle-IsAnswer create_product_route r =
      with_request-Answers r _ λ req w s f.
        respond-IsAnswer web.text web.timestamp product (create_product env req s).0 w f
  handle-IsAnswer get_product_route r =
      with_id-Answers r _
        λ id w s f. respond-IsAnswer web.text web.timestamp product (get_product env id s).0 w f
  handle-IsAnswer update_product_route r = with_id-Answers r _ λ id.
      with_request-Answers r _ λ req w s f.
        respond-IsAnswer web.text web.timestamp product (update_product env id req s).0 w f
  handle-IsAnswer delete_product_route r = with_id-Answers r _ λ id w s f.
      respond-IsAnswer web.text web.timestamp (λ _. message "Product deleted successfully")
        (delete_product env id s).0 w f

  module _
      (otel : Handler (StatusResponseWriter (Response Content)) (Served (World Db Peer Rng))
        → Handler (StatusResponseWriter (Response Content)) (Served (World Db Peer Rng)))
      (calls : (h : Handler (StatusResponseWriter (Response Content)) (Served (World Db Peer Rng)))
          (w : StatusResponseWriter (Response Content)) (s : Served (World Db Peer Rng))
        → otel h w s ≡ h w s) where
    -- Where the tracing middleware calls the next handler, every request to a route below /api/v1
    -- of the inventory service is answered once, in JSON: with an error that names the status
    -- sent, or with a value and status 200. The meters record that status and as many requests in
    -- flight as before, and the service's state is what the handler made of it.
    pub handle-IsAnswered :
        (route : Route) (r : Request) (line : String) (took : ℕ) (s : Served (World Db Peer Rng))
        → IsServed line took
            (handle (status_writer server) env web route r passed_on s.state).1
            s
            (middlewares server otel line
              (behind took (handle (status_writer server) env web route r))
              new_response
              s).1
            (middlewares server otel line
              (behind took (handle (status_writer server) env web route r))
              new_response
              s).0
    handle-IsAnswered route r =
        middlewares-IsServed otel calls (handle (status_writer server) env web route r)
          (handle-IsAnswer route r)
