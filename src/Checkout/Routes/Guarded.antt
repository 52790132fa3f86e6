-- ===== src/Checkout/Routes/Guarded.antt =====
-- What a client of `POST /api/v1/orders` of checkout-service/api_routes.go can rely on.
use micro_market.Base.{
  sym, subst, ℕ, ◌≤◌, String, ◌≡◌, refl, ap, Option, none, some, [], ◌∷◌, ◌++◌, arith,
}
use micro_market.Base.Int.{pos, ◌≤ℤ◌}
use micro_market.Common.StatusCode
use micro_market.Common.AppError.{AppError, Error, as_app_error}
use micro_market.Common.Action.{Result, ok, err}
use micro_market.Common.Http.{
  failure, success, Response, new_response, server, Request, send_json_error, respond,
}
use micro_market.Checkout.Model.{OrderModel, before_create, order_resource}
use micro_market.Checkout.Environment.{World, Environment}
use micro_market.Checkout.Contract.{Contract}
use micro_market.Checkout.Orders.{PlaceOrderRequest, new_order, place_new_order}
use micro_market.Checkout.Orders.Outcome.{place_new_order-OrderEnds, PlaceEnds, refused, placed}
use micro_market.Checkout.Routes.{Content, order, Web, handle_place_order}

module _ {Db Peer Redis Rng : Type 0} (env : Environment Db Peer Redis Rng) (c : Contract env)
    (web : Web)
    (checks : (req : PlaceOrderRequest)
      → web.validate req ≡ none
      → (1 ≤ req.user_id) × (1 ≤ req.product_id) × (pos 1 ≤ℤ req.quantity)) where
  -- How the handler ends: with an error and the orders as they were, or with the order added that
  -- the answer shows, of a request that passed the validator.
  pub data OrderAnswer (r : Request) (s : World Db Peer Redis Rng)
      (end : Response Content × World Db Peer Redis Rng) : Type 0 where
    turned_down :
        (e ts : String) (code : ℕ)
        → end.0.body ≡ failure e ts code ∷ []
        → c.orders end.1.db ≡ c.orders s.db
        → end.1.redis ≡ s.redis
        → OrderAnswer r s end
    accepted :
        (req : PlaceOrderRequest) (row : OrderModel)
        → web.decode r.body ≡ ok req
        → end.0.status ≡ some 200
        → end.0.body ≡ success (order (order_resource row)) ∷ []
        → c.orders end.1.db ≡ c.orders s.db ++ row ∷ []
        → pos 1 ≤ℤ row.quantity
        → OrderAnswer r s end

  sent_error :
      (r : Request) (s s' : World Db Peer Redis Rng) (status : ℕ) (e : Error)
      → c.orders s'.db ≡ c.orders s.db
      → s'.redis ≡ s.redis
      → OrderAnswer r s (send_json_error server web.text web.timestamp status e new_response, s')
  unfolding send_json_error
  sent_error r s s' status e same quiet = go (as_app_error e) refl
    where
      go :
          (o : Option AppError)
          → as_app_error e ≡ o
          → OrderAnswer r s
              (send_json_error server web.text web.timestamp status e new_response, s')
      go none k = turned_down (web.text e) web.timestamp status (ground arith) same quiet
      go (some a) k = turned_down a.message web.timestamp a.code (ground arith) same quiet

  -- Where the validator checks the tags `min=1`, a request to place an order that is not answered
  -- by an error has added one order, of a quantity of one or more, and the answer shows it; any
  -- other leaves the orders as they were and publishes nothing.
  pub handle_place_order-OrderAnswer :
      (r : Request) (s : World Db Peer Redis Rng)
      → OrderAnswer r s (handle_place_order server env web r new_response s)
  unfolding handle_place_order respond new_order before_create
  handle_place_order-OrderAnswer r s = decoded (web.decode r.body) refl
    where
      placed_order :
          (req : PlaceOrderRequest)
          → web.decode r.body ≡ ok req
          → web.validate req ≡ none
          → PlaceEnds env c req s (place_new_order env req s)
          → OrderAnswer r s (handle_place_order server env web r new_response s)
      placed_order req d v (refused e s' f same quiet a) =
          subst (OrderAnswer r s) (ground arith)
            (sent_error r s s' StatusCode.internal_server_error e (ap c.orders same) quiet)
      placed_order req d v
            (placed user product client resp row ulid peer x s' fu fp fc er free t k rd f) =
          subst (OrderAnswer r s)
            {x = ((server).encode (success (order (order_resource row))) new_response, s')}
            (ground arith)
            (accepted req row d refl refl k.orders (
              subst (λ q. pos 1 ≤ℤ q) (sym (ap (λ (o : OrderModel). o.quantity) k.row))
                (checks req v).2))

      validated :
          (req : PlaceOrderRequest)
          → web.decode r.body ≡ ok req
          → (o : Option Error) → web.validate req ≡ o
          → OrderAnswer r s (handle_place_order server env web r new_response s)
      validated req d (some e) v =
          subst (OrderAnswer r s) (ground arith)
            (sent_error r s s StatusCode.unprocessable_entity e refl refl)
      validated req d none v = placed_order req d v (place_new_order-OrderEnds env c req s)

      decoded :
          (d : Result PlaceOrderRequest)
          → web.decode r.body ≡ d
          → OrderAnswer r s (handle_place_order server env web r new_response s)
      decoded (err e) d =
          subst (OrderAnswer r s) (ground arith)
            (sent_error r s s StatusCode.bad_request e refl refl)
      decoded (ok req) d = validated req d (web.validate req) refl
