-- ===== src/Inventory/Orders/Race.antt =====
-- Two calls of `PlaceNewOrder` at once: the stock is read before the transaction that writes it.
use micro_market.Inventory.Orders.Effects.{taken-id}
use micro_market.Inventory.Rows.{find?-change}
use micro_market.Base.{
  find?, ◌==◌, if◌then◌else◌, ℕ, ◌≡◌, refl, sym, ap, subst, ◌∙◌, false, some, List, arith,
}
use micro_market.Base.Int.{ℤ, pos, ◌+ℤ◌, ◌-ℤ◌, ◌≤ℤ◌}
use micro_market.Common.Action.{ok, Action, ok-injective}
use micro_market.Inventory.Model.{ProductModel, get_available_quantity, OrderModel}
use micro_market.Inventory.Environment.{World, Environment}
use micro_market.Inventory.Contract.{has_id, merge, change, Contract}
use micro_market.Inventory.Orders.{PlaceOrderRequest, is_short, taken, new_order, place_body}
use micro_market.Inventory.Orders.Commit.{Placed, Commits, undone, recorded, transaction-Commits}
use micro_market.Inventory.Orders.Stock.{
  stock, sold, sold-append, IsStocked, in_stock, left_in_stock, merged_quantity,
}

-- The change of a row that is there shows what it writes, whatever the row held.
overwritten :
    (p old : ProductModel) (q : ℤ) (t : ℕ) (ps : List ProductModel)
    → find? (has_id p.id) ps ≡ some old
    → find? (has_id p.id) (change p.id (merge (taken p q) t) ps) ≡ some (merge (taken p q) t old)
overwritten p old q t ps f =
    ground (arith, find?-change p.id p.id (merge (taken p q) t) ps (λ _. refl))

-- An order counts its quantity towards its product.
counted :
    (req : PlaceOrderRequest) (p : ProductModel)
    → (if (new_order req p).product_id == p.id then (new_order req p).quantity else pos 0)
      ≡ req.quantity
unfolding new_order
counted req p = ground arith

module _ {Db Peer Rng : Type 0} (env : Environment Db Peer Rng) (c : Contract env) where
  -- The transaction that a call runs once it has read the row `product`.
  abbrev pub commit : PlaceOrderRequest → ProductModel → Action (World Db Peer Rng) OrderModel
  commit req product =
      env.transaction OrderModel
        (place_body env (taken product req.quantity) (new_order req product))

  -- A transaction that returns has written the stock that its call computed, and added its order.
  commit_effect :
      (req : PlaceOrderRequest) (product : ProductModel) (o : OrderModel) (w w' : World Db Peer Rng)
      → commit req product w ≡ (ok o, w')
      → Placed env c w.db (taken product req.quantity) (new_order req product) o w'.db
  commit_effect req product o w w' e =
      go (transaction-Commits env c (taken product req.quantity) (new_order req product) w)
    where
      go :
          Commits env c
            (taken product req.quantity)
            (new_order req product)
            w
            (commit req product w)
          → Placed env c w.db (taken product req.quantity) (new_order req product) o w'.db
      go (undone m v f u) = cc
      go (recorded o' v f same k) =
          let same_world : v ≡ w' = ap (λ x. x.1) (sym f ∙ e) in
          let same_order : o' ≡ o = ok-injective (ap (λ x. x.0) (sym f ∙ e)) in
          subst
            (λ (x : OrderModel).
              Placed env c w.db (taken product req.quantity) (new_order req product) x w'.db)
            same_order
            (subst
              (λ (x : World Db Peer Rng).
                Placed env c w.db (taken product req.quantity) (new_order req product) o' x.db)
              same_world k)

  -- Where two calls have both read the row of one product before either wrote, and each quantity
  -- is in stock, both transactions may go through. Then both orders are there, and the second
  -- alone has been taken off the stock.
  pub commit-commit :
      (a b : PlaceOrderRequest) (p : ProductModel) (oa ob : OrderModel)
      (w w1 w2 : World Db Peer Rng)
      → find? (has_id p.id) (c.products w.db) ≡ some p
      → IsStocked p
      → pos 0 ≤ℤ b.quantity
      → is_short p b.quantity ≡ false
      → commit a p w ≡ (ok oa, w1)
      → commit b p w1 ≡ (ok ob, w2)
      → (stock p.id (c.products w2.db) ≡ get_available_quantity p -ℤ b.quantity)
        × (sold p.id (c.orders w2.db) ≡ sold p.id (c.orders w.db) +ℤ a.quantity +ℤ b.quantity)
  commit-commit a b p oa ob w w1 w2 f s h k ea eb =
      let first = commit_effect a p oa w w1 ea in
      let second = commit_effect b p ob w1 w2 eb in
      let found1 = rw (taken-id p a.quantity) at first.products in
      let found2 = rw (taken-id p b.quantity) at second.products in
      let at1 = overwritten p p a.quantity first.at (c.products w.db) f in
      let at2 =
        overwritten p (merge (taken p a.quantity) first.at p) b.quantity second.at
          (c.products w1.db) (rw found1 at1) in
      (
        rw (found2, at2)
            (merged_quantity p b.quantity second.at (merge (taken p a.quantity) first.at p)
              ∙ left_in_stock p b.quantity s h (in_stock p b.quantity k)),
        rw (second.orders, sold-append, first.orders, sold-append, first.row, second.row)
            (rw (counted a p, counted b p)),
      )
