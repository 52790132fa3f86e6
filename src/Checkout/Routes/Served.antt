-- ===== src/Checkout/Routes/Served.antt =====
-- Every request to a route of checkout-service/api_routes.go is answered.
use micro_market.Base.{arith, subst, ℕ, String, ◌≡◌, refl, Option, none, some}
use micro_market.Common.StatusCode
use micro_market.Common.AppError.{Error}
use micro_market.Common.Action.{Result, ok, err}
use micro_market.Common.Http.{Response, new_response, server, Request, Handler}
use micro_market.Common.Http.Middlewares.{
  StatusResponseWriter, status_writer, Served, middlewares, behind,
}
use micro_market.Common.Http.Answered.{
  IsFresh, IsAnswer, send_json_error-IsAnswer, respond-IsAnswer,
}
use micro_market.Common.Http.Served.{IsServed, passed_on, middlewares-IsServed}
use micro_market.Checkout.Environment.{World, Environment}
use micro_market.Checkout.Orders.{PlaceOrderRequest, get_all_orders, place_new_order}
use micro_market.Checkout.Products.{get_all_products, get_all_users}
use micro_market.Checkout.Routes.{
  Content, users, products, orders, order, Web, Route, get_users, get_products, get_orders,
  place_order, handle,
}

module _ {Db Peer Redis Rng : Type 0} (env : Environment Db Peer Redis Rng) (web : Web) where
  -- Each handler writes one answer.
  pub handle-IsAnswer :
      (route : Route) (r : Request) (w : StatusResponseWriter (Response Content))
      (s : World Db Peer Redis Rng)
      → IsFresh w
      → IsAnswer w (handle (status_writer server) env web route r w s).0
  unfolding handle
  handle-IsAnswer get_users r w s f =
      respond-IsAnswer web.text web.timestamp users (get_all_users env s).0 w f
  handle-IsAnswer get_products r w s f =
      respond-IsAnswer web.text web.timestamp products (get_all_products env s).0 w f
  handle-IsAnswer get_orders r w s f =
      respond-IsAnswer web.text web.timestamp orders (get_all_orders env s).0 w f
  handle-IsAnswer place_order r w s f = decoded (web.decode r.body) refl
    where
      validated :
          (req : PlaceOrderRequest)
          → web.decode r.body ≡ ok req
          → (o : Option Error) → web.validate req ≡ o
          → IsAnswer w (handle (status_writer server) env web place_order r w s).0
      validated req d (some e) v =
          subst (IsAnswer w) (ground arith)
            (send_json_error-IsAnswer web.text web.timestamp StatusCode.unprocessable_entity e w f)
      validated req d none v =
          subst (IsAnswer w) (ground arith)
            (respond-IsAnswer web.text web.timestamp order (place_new_order env req s).0 w f)

      decoded :
          (d : Result PlaceOrderRequest)
          → web.decode r.body ≡ d
          → IsAnswer w (handle (status_writer server) env web place_order r w s).0
      decoded (err e) d =
          subst (IsAnswer w) (ground arith)
            (send_json_error-IsAnswer web.text web.timestamp StatusCode.bad_request e w f)
      decoded (ok req) d = validated req d (web.validate req) refl

  module _
      (otel : Handler (StatusResponseWriter (Response Content)) (Served (World Db Peer Redis Rng))
        → Handler (StatusResponseWriter (Response Content)) (Served (World Db Peer Redis Rng)))
      (calls : (h : Handler
            (StatusResponseWriter (Response Content))
            (Served (World Db Peer Redis Rng)))
          (w : StatusResponseWriter (Response Content)) (s : Served (World Db Peer Redis Rng))
        → otel h w s ≡ h w s) where
    -- Where the tracing middleware calls the next handler, every request to a route below /api/v1
    -- of the checkout service is answered once, in JSON: with an error that names the status
    -- sent, or with a value and status 200. The meters record that status and as many requests in
    -- flight as before, and the service's state is what the handler made of it.
    pub handle-IsServed :
        (route : Route) (r : Request) (line : String) (took : ℕ)
        (s : Served (World Db Peer Redis Rng))
        → IsServed line took
            (handle (status_writer server) env web route r passed_on s.state).1
            s
            (middlewares server otel line
              (behind took (handle (status_writer server) env web route r))
              new_response
              s).1
            (middlewares server otel line
              (behind took (handle (status_writer server) env web route r))
              new_response
              s).0
    handle-IsServed route r =
        middlewares-IsServed otel calls (handle (status_writer server) env web route r)
          (handle-IsAnswer route r)
