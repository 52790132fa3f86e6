-- ===== src/Inventory/Grpc/Answers.antt =====
-- What the methods of inventory-service/grpc_server.go answer.
use micro_market.Base.{find?, ◌<◌, String, ◌≡◌, refl, sym, ap, subst, ◌∙◌, false, none, some, arith}
use micro_market.Base.Int.{leb_ℤ, int32}
use micro_market.Common.AppError.{unknown, not_found, Status, Error, rpc, other}
use micro_market.Common.Action.{Result, ok, err}
use micro_market.Common.Grpc.{answer}
use micro_market.Common.Wire.{
  Success, ReserveProductRequest, ReserveProductResponse, RegisterOrderRequest,
}
use micro_market.Inventory.Model.{
  ProductModel, get_available_quantity, is_out_of_stock, OrderModel, OrderResource, order_resource,
}
use micro_market.Inventory.Environment.{World, Environment}
use micro_market.Inventory.Contract.{has_sid, Contract}
use micro_market.Inventory.Products.{find_product, check_product_availability}
use micro_market.Inventory.Orders.{PlaceOrderRequest, is_short, taken, new_order, place_new_order}
use micro_market.Inventory.Orders.Effects.{Sells}
use micro_market.Inventory.Orders.Commit.{Placed}
use micro_market.Inventory.Orders.Outcome.{placed, PlaceEnds, short, place_new_order-PlaceEnds}
use micro_market.Inventory.Steps.{found, Finds, absent, find_product-Finds, find?-All}
use micro_market.Inventory.Grpc.{reserve_response, placed_request, reserve_product, register_order}

module _ {Db Peer Rng : Type 0} (env : Environment Db Peer Rng) (c : Contract env)
    (text : Error → String) where
  -- The answer of `ReserveProduct`; the world is as it was.
  pub data ReserveEnds (req : ReserveProductRequest) (w : World Db Peer Rng)
      (end : Result ReserveProductResponse × World Db Peer Rng) : Type 0 where
    known :
        (p : ProductModel)
        → find? (has_sid req.sid) (c.products w.db) ≡ some p
        → end ≡ (
          ok (record {
            available_quantity = int32 (get_available_quantity p);
            out_of_stock = is_out_of_stock p;
            is_available = leb_ℤ req.quantity (get_available_quantity p);
          }),
          w,
        )
        → ReserveEnds req w end
    unknown_product :
        find? (has_sid req.sid) (c.products w.db) ≡ none
        → end ≡ (err (rpc (record { code = not_found; message = "product not found" })), w)
        → ReserveEnds req w end
    broken : (s : Status) → end ≡ (err (rpc s), w) → ReserveEnds req w end

  pub reserve_product-ReserveEnds :
      (req : ReserveProductRequest) (w : World Db Peer Rng)
      → ReserveEnds req w (reserve_product env text req w)
  unfolding reserve_product check_product_availability reserve_response answer
  reserve_product-ReserveEnds req w = go (
      find_product-Finds env (env.gorm.first_by_sid req.sid)
        (find? (has_sid req.sid) (c.products w.db)) w
        (λ p. find?-All (λ p. 0 < p.id) (has_sid req.sid) p (c.products w.db) (c.product_ids w.db))
        (c.first_by_sid req.sid w.db))
    where
      go :
          Finds env
            (find? (has_sid req.sid) (c.products w.db))
            w
            (find_product env (env.gorm.first_by_sid req.sid) w)
          → ReserveEnds req w (reserve_product env text req w)
      go (found p f e) = known p f (ground arith)
      go (absent f e) = ReserveEnds.unknown_product f (ground arith)
      go (Finds.broken m e) =
          ReserveEnds.broken (record { code = unknown; message = text (other m) }) (ground arith)

  -- An order that `RegisterOrder` accepts has been placed.
  pub register_order-placed :
      (req : RegisterOrderRequest) (w w' : World Db Peer Rng) (s : Success)
      → register_order env text req w ≡ (ok s, w')
      → (r : OrderResource) × (place_new_order env (placed_request req) w ≡ (ok r, w'))
  unfolding register_order answer
  register_order-placed req w w' s e = go (place_new_order env (placed_request req) w) refl
    where
      go :
          (end : Result OrderResource × World Db Peer Rng)
          → place_new_order env (placed_request req) w ≡ end
          → (r : OrderResource) × (place_new_order env (placed_request req) w ≡ (ok r, w'))
      go (ok r, w'') f = (r, ground arith)
      go (err x, w'') f = absurd (ground arith)

  -- What an order that is placed has done.
  pub record Sale (req : PlaceOrderRequest) (w w' : World Db Peer Rng) : Type 0 where
    pub product : ProductModel
    pub order : OrderModel
    pub found : find? (has_sid req.product_sid) (c.products w.db) ≡ some product
    pub enough : is_short product req.quantity ≡ false
    pub placed : Placed env c w.db (taken product req.quantity) (new_order req product) order w'.db
    pub sells :
        Sells req product order
          (order_resource order)
          (c.products w.db)
          (c.products w'.db)
          (c.orders w.db)
          (c.orders w'.db)

  pub place_new_order-Sale :
      (req : PlaceOrderRequest) (w w' : World Db Peer Rng) (r : OrderResource)
      → place_new_order env req w ≡ (ok r, w')
      → Sale req w w'
  place_new_order-Sale req w w' r e = go (place_new_order-PlaceEnds env c req w)
    where
      go : PlaceEnds env c req w (place_new_order env req w) → Sale req w w'
      go (PlaceEnds.injected x v f u) = cc
      go (PlaceEnds.broken m v f u) = cc
      go (PlaceEnds.unknown_product v n f u) = cc
      go (short p v n s _ f u) = cc
      go (placed p o v n s f same k q) =
          let same_world : v ≡ w' = ap (λ x. x.1) (sym f ∙ e) in
          record {
            product = p;
            order = o;
            found = n;
            enough = s;
            placed =
                subst
                  (λ (x : World Db Peer Rng).
                    Placed env c w.db (taken p req.quantity) (new_order req p) o x.db)
                  same_world k;
            sells =
                subst
                  (λ (x : World Db Peer Rng).
                    Sells req p o (order_resource o) (c.products w.db) (c.products x.db)
                      (c.orders w.db) (c.orders x.db))
                  same_world q;
          }
