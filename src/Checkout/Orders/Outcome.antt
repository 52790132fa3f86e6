-- ===== src/Checkout/Orders/Outcome.antt =====
-- How `PlaceNewOrder` of checkout-service/orders_controller.go ends.
use micro_market.Base.{
  ap, find?, Bool-cases, String, ◌≡◌, refl, subst, ◌∙◌, inl, inr, true, false, Option, none, some,
  [], ◌∷◌, arith,
}
use micro_market.Common.AppError.{Error, other, new_app_error}
use micro_market.Common.Action.{Result, ok, err, Action, pure, ◌>>=◌, ◌>>◌}
use micro_market.Common.Wire.{Success, ReserveProductResponse, InventoryClient}
use micro_market.Checkout.Model.{
  ProductModel, UserModel, OrderModel, before_create, OrderResource, order_resource,
}
use micro_market.Checkout.Environment.{
  InvoiceRequest, World, call, Environment, maybe_fail, get_inventory_client, publish_invoice,
}
use micro_market.Checkout.Contract.{user_has_id, has_id, OrderCreated, Contract}
use micro_market.Checkout.Orders.{
  PlaceOrderRequest, new_order, reserve_request, register_request, invoice, translate, no_client,
  translated, find_user, find_product, require_client, check_reservation, place_body,
  place_new_order,
}
use micro_market.Checkout.Steps.{
  Unchanged, no_user, no_product, Finds, found, absent, broken, MayFail, injected, passed,
  maybe_fail-MayFail, find_user-Finds, find_product-Finds,
}
use micro_market.Checkout.Orders.Commit.{
  uncalled, called, Commits, undone, recorded, transaction-Commits,
}
use micro_market.Common.StatusCode
use micro_market.Base.Text.{concat, decimal_ℤ}

module _ {Db Peer Redis Rng : Type 0} (env : Environment Db Peer Redis Rng) (c : Contract env) where
  -- What the inventory service has been asked: nothing, the availability, or also to register an
  -- order of the request.
  pub data Asked (req : PlaceOrderRequest) (before after : Peer) : Type 0 where
    unasked : after ≡ before → Asked req before after
    reserved :
        (client : InventoryClient Peer) (product : ProductModel)
        → env.client ≡ some client
        → after ≡ (client.reserve_product (reserve_request req product) before).1
        → Asked req before after
    registered :
        (client : InventoryClient Peer) (product : ProductModel) (order : OrderModel)
        → env.client ≡ some client
        → after
          ≡ (client.register_order
              (register_request req product order)
              (client.reserve_product (reserve_request req product) before).1).1
        → Asked req before after

  pub data PlaceEnds (req : PlaceOrderRequest) (w : World Db Peer Redis Rng)
      (end : Result OrderResource × World Db Peer Redis Rng) : Type 0 where
    refused :
        (e : Error) (w' : World Db Peer Redis Rng)
        → end ≡ (err e, w')
        → w'.db ≡ w.db
        → w'.redis ≡ w.redis
        → Asked req w.inventory w'.inventory
        → PlaceEnds req w end
    placed :
        (user : UserModel) (product : ProductModel) (client : InventoryClient Peer)
        (resp : ReserveProductResponse) (order : OrderModel) (ulid : String) (peer : Peer)
        (s : Success) (w' : World Db Peer Redis Rng)
        → find? (user_has_id req.user_id) (c.users w.db) ≡ some user
        → find? (has_id req.product_id) (c.products w.db) ≡ some product
        → env.client ≡ some client
        → client.reserve_product (reserve_request req product) w.inventory ≡ (ok resp, peer)
        → (resp.out_of_stock ≡ false) × (resp.is_available ≡ true)
        → client.register_order (register_request req product order) peer ≡ (ok s, w'.inventory)
        → OrderCreated c.products c.orders w.db
            (before_create ulid (new_order req product))
            order
            w'.db
        → w'.redis ≡ (env.publish env.redis_channel (invoice user product order) w.redis).1
        → end ≡ (ok (order_resource order), w')
        → PlaceEnds req w end

  -- Publishing changes Redis and the log alone, and returns no error.
  publish_lem :
      (i : InvoiceRequest) (w : World Db Peer Redis Rng)
      → (w' : World Db Peer Redis Rng) × (publish_invoice env i w ≡ (ok tt, w'))
        × (w'.db ≡ w.db)
        × (w'.inventory ≡ w.inventory)
        × (w'.redis ≡ (env.publish env.redis_channel i w.redis).1)
  unfolding publish_invoice
  publish_lem i w =
      go (env.publish env.redis_channel i w.redis).0 (env.publish env.redis_channel i w.redis).1
        refl
    where
      go :
          (o : Option Error) (r : Redis)
          → env.publish env.redis_channel i w.redis ≡ (o, r)
          → (w' : World Db Peer Redis Rng) × (publish_invoice env i w ≡ (ok tt, w'))
            × (w'.db ≡ w.db)
            × (w'.inventory ≡ w.inventory)
            × (w'.redis ≡ (env.publish env.redis_channel i w.redis).1)
      go none r e = (record w { redis = r }, ground arith, refl, refl, rw e)
      go (some x) r e = (
        record w {
          redis = r;
          log = ("failed to publish invoice creation request to Redis", x) ∷ w.log;
        },
        ground arith,
        refl,
        refl,
        rw e,
      )

  -- The rest of the call, from the reservation on.
  abbrev from_reserve :
      PlaceOrderRequest
      → UserModel
      → ProductModel
      → InventoryClient Peer
      → Action (World Db Peer Redis Rng) OrderResource
  from_reserve req user product client = do
    resp ← translated env.from_error (call (client.reserve_product (reserve_request req product)))
    check_reservation env req product resp
    order ← env.transaction OrderModel (place_body env client req product)
    publish_invoice env (invoice user product order)
    pure (order_resource order)

  module _ (req : PlaceOrderRequest) (w : World Db Peer Redis Rng) (user : UserModel)
      (product : ProductModel) (client : InventoryClient Peer)
      (fu : find? (user_has_id req.user_id) (c.users w.db) ≡ some user)
      (fp : find? (has_id req.product_id) (c.products w.db) ≡ some product)
      (fc : env.client ≡ some client) where
    after_transaction :
        (resp : ReserveProductResponse) (peer : Peer)
        → client.reserve_product (reserve_request req product) w.inventory ≡ (ok resp, peer)
        → resp.out_of_stock ≡ false
        → resp.is_available ≡ true
        → Commits env c client req product
            (record w { inventory = peer })
            (env.transaction OrderModel
              (place_body env client req product)
              (record w { inventory = peer }))
        → PlaceEnds req w (from_reserve req user product client w)
    unfolding check_reservation
    after_transaction resp peer e no_stock free (undone x w' f same quiet (uncalled g)) =
        refused x w' (ground arith) same quiet (reserved client product fc (rw e g))
    after_transaction resp peer e no_stock free (undone x w' f same quiet (called o g)) =
        refused x w' (ground arith) same quiet (registered client product o fc (rw e g))
    after_transaction resp peer e no_stock free (recorded o ulid s w' f k t quiet) =
        let (w'', p, d, i, r) = publish_lem (invoice user product o) w' in
        placed user product client resp o ulid peer s w'' fu fp fc e (no_stock, free) (rw i t)
          (rw d k)
          (r ∙ ap (λ x. (env.publish env.redis_channel (invoice user product o) x).1) quiet)
          (ground arith)

    from_reserve-PlaceEnds : PlaceEnds req w (from_reserve req user product client w)
    unfolding check_reservation
    from_reserve-PlaceEnds =
        go (client.reserve_product (reserve_request req product) w.inventory).0
          (client.reserve_product (reserve_request req product) w.inventory).1 refl
      where
        go :
            (r : Result ReserveProductResponse) (peer : Peer)
            → client.reserve_product (reserve_request req product) w.inventory ≡ (r, peer)
            → PlaceEnds req w (from_reserve req user product client w)
        go (err x) peer e =
            refused (translate env.from_error x) (record w { inventory = peer }) (ground arith) refl
              refl (reserved client product fc (rw e))
        go (ok resp) peer e = elim (Bool-cases resp.out_of_stock) [
          | inl gone ↦
              refused
                (new_app_error StatusCode.bad_request
                  (concat ("product: " ∷ product.sid ∷ " is out of stock" ∷ [])))
                (record w { inventory = peer }) (ground arith) refl refl
                (reserved client product fc (rw e))
          | inr here ↦ elim (Bool-cases resp.is_available) [
            | inl free ↦
                after_transaction resp peer e here free
                  (transaction-Commits env c client req product (record w { inventory = peer }))
            | inr short ↦
                refused
                  (new_app_error StatusCode.bad_request (
                    concat (
                      "product: "
                      ∷ product.sid
                      ∷ " is not available in the quantity of "
                      ∷ decimal_ℤ req.quantity
                      ∷ [])))
                  (record w { inventory = peer }) (ground arith) refl refl
                  (reserved client product fc (rw e))
          ]
        ]

  PlaceEnds-after :
      (req : PlaceOrderRequest) (w w1 : World Db Peer Redis Rng)
      (end : Result OrderResource × World Db Peer Redis Rng)
      → Unchanged w w1
      → PlaceEnds req w1 end
      → PlaceEnds req w end
  PlaceEnds-after req w w1 end u (refused e w' f same quiet a) =
      refused e w' f (same ∙ u.db) (quiet ∙ u.redis) (rw u.inventory at a)
  PlaceEnds-after req w w1 end u
        (placed user product client resp order ulid peer s w' fu fp fc e ok' t k r f) =
      placed user product client resp order ulid peer s w' (rw u.db at fu) (rw u.db at fp) fc
        (rw u.inventory at e) ok' t (rw u.db at k) (rw u.redis at r) f

  pub place_new_order-OrderEnds :
      (req : PlaceOrderRequest) (w : World Db Peer Redis Rng)
      → PlaceEnds req w (place_new_order env req w)
  unfolding place_new_order require_client get_inventory_client
  place_new_order-OrderEnds req w = start (maybe_fail-MayFail env "checkout.PlaceNewOrder" w)
    where
      with_product :
          (w1 : World Db Peer Redis Rng) (user : UserModel) (product : ProductModel)
          → maybe_fail env "checkout.PlaceNewOrder" w ≡ (ok tt, w1)
          → Unchanged w w1
          → find? (user_has_id req.user_id) (c.users w1.db) ≡ some user
          → find_user env req.user_id w1 ≡ (ok user, w1)
          → find? (has_id req.product_id) (c.products w1.db) ≡ some product
          → find_product env req.product_id w1 ≡ (ok product, w1)
          → (o : Option (InventoryClient Peer)) → env.client ≡ o
          → PlaceEnds req w (place_new_order env req w)
      with_product w1 user product f u fu eu fp ep none k =
          refused no_client w1 (ground arith) u.db u.redis (unasked u.inventory)
      with_product w1 user product f u fu eu fp ep (some client) k = PlaceEnds-after req w w1 _ u (
          subst (PlaceEnds req w1) (ground arith)
            (from_reserve-PlaceEnds req w1 user product client fu fp k))

      with_user :
          (w1 : World Db Peer Redis Rng) (user : UserModel)
          → maybe_fail env "checkout.PlaceNewOrder" w ≡ (ok tt, w1)
          → Unchanged w w1
          → find? (user_has_id req.user_id) (c.users w1.db) ≡ some user
          → find_user env req.user_id w1 ≡ (ok user, w1)
          → Finds
              (no_product req.product_id)
              (find? (has_id req.product_id) (c.products w1.db))
              w1
              (find_product env req.product_id w1)
          → PlaceEnds req w (place_new_order env req w)
      with_user w1 user f u fu eu (found product fp ep) =
          with_product w1 user product f u fu eu fp ep env.client refl
      with_user w1 user f u fu eu (absent fp ep) =
          refused (no_product req.product_id) w1 (ground arith) u.db u.redis (unasked u.inventory)
      with_user w1 user f u fu eu (broken m ep) =
          refused (other m) w1 (ground arith) u.db u.redis (unasked u.inventory)

      look_up :
          (w1 : World Db Peer Redis Rng)
          → maybe_fail env "checkout.PlaceNewOrder" w ≡ (ok tt, w1)
          → Unchanged w w1
          → Finds
              (no_user req.user_id)
              (find? (user_has_id req.user_id) (c.users w1.db))
              w1
              (find_user env req.user_id w1)
          → PlaceEnds req w (place_new_order env req w)
      look_up w1 f u (found user fu eu) =
          with_user w1 user f u fu eu (find_product-Finds env c req.product_id w1)
      look_up w1 f u (absent fu eu) =
          refused (no_user req.user_id) w1 (ground arith) u.db u.redis (unasked u.inventory)
      look_up w1 f u (broken m eu) =
          refused (other m) w1 (ground arith) u.db u.redis (unasked u.inventory)

      start :
          MayFail env w (maybe_fail env "checkout.PlaceNewOrder" w)
          → PlaceEnds req w (place_new_order env req w)
      start (injected e w' f u) = refused e w' (ground arith) u.db u.redis (unasked u.inventory)
      start (passed w1 f u) = look_up w1 f u (find_user-Finds env c req.user_id w1)
