-- ===== src/Inventory/Orders/Stock.antt =====
-- The stock under `PlaceNewOrder`: what a product holds and what has been sold of it.
use micro_market.Inventory.Orders.Effects.{taken-id}
use micro_market.Common.Action.{Result}
use micro_market.Inventory.Steps.{Unchanged, find?-All}
use micro_market.Inventory.Rows.{find?-has_id, find?-change, All-change}
use micro_market.Inventory.Orders.Commit.{Placed}
use micro_market.Inventory.Orders.Outcome.{
  PlaceEnds, unknown_product, short, placed, place_new_order-PlaceEnds,
}
use micro_market.Base.{
  find?, All, ◌==◌, if◌then◌else◌, ℕ, ◌^◌, ◌<◌, ◌≡◌, refl, sym, ap, subst, ◌∙◌, false, Option, none,
  some, List, [], ◌∷◌, ◌++◌, arith,
}
use micro_market.Base.Int.{
  ℤ, pos, pos_part, ◌+ℤ◌, ◌-ℤ◌, ◌≤ℤ◌, int64, -ℤ_nonneg, int_laws, int64_of_IsInt64,
}
use micro_market.Inventory.Environment.{World, Environment}
use micro_market.Inventory.Model.{ProductModel, get_available_quantity, OrderModel, OrderResource}
use micro_market.Inventory.Contract.{has_id, has_sid, merge, change, stored_order, Contract}
use micro_market.Inventory.Orders.{PlaceOrderRequest, is_short, taken, new_order, place_new_order}

-- What is left of the product with a key, and the quantity that the orders of it sum up to.
abbrev held : Option ProductModel → ℤ
held none = pos 0
held (some p) = get_available_quantity p

abbrev pub stock : ℕ → List ProductModel → ℤ
stock id ps = held (find? (has_id id) ps)

abbrev pub sold : ℕ → List OrderModel → ℤ
sold id [] = pos 0
sold id (o ∷ os) = (if o.product_id == id then o.quantity else pos 0) +ℤ sold id os

pub sold-append :
    (id : ℕ) (os : List OrderModel) (o : OrderModel)
    → sold id (os ++ o ∷ []) ≡ sold id os +ℤ (if o.product_id == id then o.quantity else pos 0)
sold-append id [] o = omega int_laws
sold-append id (x ∷ os) o = rw (sold-append id os o) (omega int_laws)

-- A quantity on hand is not negative and fits an `int`.
pub record IsStocked (p : ProductModel) : Type 0 where
  pub nonneg : pos 0 ≤ℤ get_available_quantity p
  pub fits : pos_part (get_available_quantity p) < 2 ^ 63

pub in_stock : (p : ProductModel) (q : ℤ) → is_short p q ≡ false → q ≤ℤ get_available_quantity p
unfolding is_short
in_stock p q k = ground arith

taken_quantity :
    (p : ProductModel) (q : ℤ)
    → get_available_quantity (taken p q) ≡ int64 (get_available_quantity p -ℤ q)
unfolding taken
taken_quantity p q = ground arith

-- Within the stock, nothing wraps.
pub left_in_stock :
    (p : ProductModel) (q : ℤ)
    → IsStocked p
    → pos 0 ≤ℤ q
    → q ≤ℤ get_available_quantity p
    → get_available_quantity (taken p q) ≡ get_available_quantity p -ℤ q
left_in_stock p q s h k =
    taken_quantity p q
    ∙ int64_of_IsInt64 _ (record {
      above = omega (int_laws, -ℤ_nonneg (get_available_quantity p) q k);
      below = omega (int_laws, -ℤ_nonneg (get_available_quantity p) q k);
    })

-- The order's row says what was taken, and from which product.
pub order_row :
    (req : PlaceOrderRequest) (p : ProductModel) (id t : ℕ)
    → ((stored_order id t (new_order req p)).product_id ≡ p.id)
      × ((stored_order id t (new_order req p)).quantity ≡ req.quantity)
unfolding new_order
order_row req p id t = (refl, refl)

pub merged_quantity :
    (p : ProductModel) (q : ℤ) (t : ℕ) (old : ProductModel)
    → get_available_quantity (merge (taken p q) t old) ≡ get_available_quantity (taken p q)
unfolding taken
merged_quantity p q t old = ground arith

-- The stock of every key, after the change of one product's row.
changed_stock :
    (id : ℕ) (p : ProductModel) (q : ℤ) (t : ℕ) (ps : List ProductModel)
    → find? (has_id p.id) ps ≡ some p
    → stock id (change p.id (merge (taken p q) t) ps)
      ≡ (if id == p.id then get_available_quantity (taken p q) else stock id ps)
changed_stock id p q t ps f =
    ground
      (arith, find?-change p.id id (merge (taken p q) t) ps (λ _. refl), merged_quantity p q t p)

-- What leaves the stock is sold.
rearrange : (a q s : ℤ) → a -ℤ q +ℤ (s +ℤ q) ≡ a +ℤ s
rearrange a q s = omega int_laws

add_nothing : (a s : ℤ) → a +ℤ (s +ℤ pos 0) ≡ a +ℤ s
add_nothing a s = omega int_laws

balance :
    (id k : ℕ) (a b q s : ℤ)
    → (id ≡ k → b ≡ a)
    → (if id == k then a -ℤ q else b) +ℤ (s +ℤ (if k == id then q else pos 0)) ≡ b +ℤ s
balance id k a b q s h = ground (arith, rearrange a q s, add_nothing b s, h)

merge-IsStocked :
    (p : ProductModel) (q : ℤ) (t : ℕ) (old : ProductModel)
    → IsStocked p
    → pos 0 ≤ℤ q
    → q ≤ℤ get_available_quantity p
    → IsStocked (merge (taken p q) t old)
merge-IsStocked p q t old s h k =
    let e = merged_quantity p q t old ∙ left_in_stock p q s h k in
    record {
      nonneg = rw e (omega (int_laws, -ℤ_nonneg (get_available_quantity p) q k));
      fits = rw e (omega (int_laws, -ℤ_nonneg (get_available_quantity p) q k));
    }

module _ {Db Peer Rng : Type 0} (env : Environment Db Peer Rng) (c : Contract env) where
  abbrev pub AllStocked : World Db Peer Rng → Type 0
  AllStocked w = All IsStocked (c.products w.db)

  -- The quantity of a product on hand, with all that was ever ordered of it.
  abbrev pub supply : ℕ → World Db Peer Rng → ℤ
  supply id w = stock id (c.products w.db) +ℤ sold id (c.orders w.db)

  -- What one call keeps.
  pub record Conserves (w w' : World Db Peer Rng) : Type 0 where
    pub stocked : AllStocked w'
    pub supply : (id : ℕ) → supply id w' ≡ supply id w

  Placed-rows :
      (req : PlaceOrderRequest) (w w' : World Db Peer Rng) (p : ProductModel) (o : OrderModel)
      (k : Placed env c w.db (taken p req.quantity) (new_order req p) o w'.db)
      → c.products w'.db ≡ change p.id (merge (taken p req.quantity) k.at) (c.products w.db)
  Placed-rows req w w' p o k = rw (taken-id p req.quantity) at k.products

  -- The product's own row is the one that the change meets.
  Placed-AllStocked :
      (req : PlaceOrderRequest) (w w' : World Db Peer Rng) (p : ProductModel) (o : OrderModel)
      → AllStocked w
      → pos 0 ≤ℤ req.quantity
      → find? (has_sid req.product_sid) (c.products w.db) ≡ some p
      → is_short p req.quantity ≡ false
      → Placed env c w.db (taken p req.quantity) (new_order req p) o w'.db
      → AllStocked w'
  Placed-AllStocked req w w' p o a h f s k =
      subst (All IsStocked) (sym (Placed-rows req w w' p o k)) (
        All-change IsStocked p.id (merge (taken p req.quantity) k.at) (c.products w.db)
          (c.unique_ids w.db)
          (λ old _.
            merge-IsStocked p req.quantity k.at old (find?-All IsStocked _ p (c.products w.db) a f)
              h (in_stock p req.quantity s))
          a)

  Placed-supply :
      (req : PlaceOrderRequest) (w w' : World Db Peer Rng) (p : ProductModel) (o : OrderModel)
      → AllStocked w
      → pos 0 ≤ℤ req.quantity
      → find? (has_sid req.product_sid) (c.products w.db) ≡ some p
      → is_short p req.quantity ≡ false
      → Placed env c w.db (taken p req.quantity) (new_order req p) o w'.db
      → (id : ℕ) → supply id w' ≡ supply id w
  Placed-supply req w w' p o a h f s k id =
      let row = order_row req p k.row_id k.row_at in
      let left =
        left_in_stock p req.quantity (find?-All IsStocked _ p (c.products w.db) a f) h
          (in_stock p req.quantity s) in
      let here = find?-has_id _ p (c.products w.db) (c.unique_ids w.db) f in
      rw
        (
          Placed-rows req w w' p o k,
          k.orders,
          sold-append,
          k.row,
          row.0,
          row.1,
          changed_stock id p req.quantity k.at (c.products w.db) here,
          left,
        )
        (balance id p.id _ _ req.quantity _ (λ e. rw e (rw here)))

  Conserves-Unchanged : {w w' : World Db Peer Rng} → Unchanged w w' → AllStocked w → Conserves w w'
  Conserves-Unchanged u a = record {
    stocked = rw u.db a;
    supply = λ id. ap (λ db. stock id (c.products db) +ℤ sold id (c.orders db)) u.db;
  }

  PlaceEnds-Conserves :
      (req : PlaceOrderRequest) (w : World Db Peer Rng)
      (end : Result OrderResource × World Db Peer Rng)
      → AllStocked w
      → pos 0 ≤ℤ req.quantity
      → PlaceEnds env c req w end
      → Conserves w end.1
  PlaceEnds-Conserves req w end a h (PlaceEnds.injected e w' f u) = rw f (Conserves-Unchanged u a)
  PlaceEnds-Conserves req w end a h (PlaceEnds.broken m w' f u) = rw f (Conserves-Unchanged u a)
  PlaceEnds-Conserves req w end a h (unknown_product w' n f u) = rw f (Conserves-Unchanged u a)
  PlaceEnds-Conserves req w end a h (short p w' n s _ f u) = rw f (Conserves-Unchanged u a)
  PlaceEnds-Conserves req w end a h (placed p o w' n s f _ k _) = rw f (record {
    stocked = Placed-AllStocked req w w' p o a h n s k;
    supply = Placed-supply req w w' p o a h n s k;
  })

  -- For a quantity that is not negative, any call of `PlaceNewOrder`, however it ends, leaves no
  -- stock negative, and for every product the stock and the quantities ordered of it have the
  -- same sum as before: an order takes exactly its quantity, and a refused one takes nothing.
  pub place_new_order-Conserves :
      (req : PlaceOrderRequest) (w : World Db Peer Rng)
      → AllStocked w
      → pos 0 ≤ℤ req.quantity
      → Conserves w (place_new_order env req w).1
  place_new_order-Conserves req w a h =
      PlaceEnds-Conserves req w _ a h (place_new_order-PlaceEnds env c req w)

  -- Any number of calls in a row, whatever each of them answers.
  pub place_all : List PlaceOrderRequest → World Db Peer Rng → World Db Peer Rng
  place_all [] w = w
  place_all (req ∷ reqs) w = place_all reqs (place_new_order env req w).1

  abbrev pub Nonneg : PlaceOrderRequest → Type 0
  Nonneg req = pos 0 ≤ℤ req.quantity

  -- Where no stock is negative and each fits an `int`, the same holds after any number of calls
  -- with quantities that are not negative, and for every product the stock and the quantities
  -- ordered of it have the sum that they had at first.
  pub place_all-Conserves :
      (reqs : List PlaceOrderRequest) (w : World Db Peer Rng)
      → AllStocked w
      → All Nonneg reqs
      → Conserves w (place_all reqs w)
  unfolding place_all
  place_all-Conserves [] w a h = record { stocked = a; supply = λ id. refl }
  place_all-Conserves (req ∷ reqs) w a h =
      let one = place_new_order-Conserves req w a h.0 in
      let more = place_all-Conserves reqs (place_new_order env req w).1 one.stocked h.1 in
      record { stocked = more.stocked; supply = λ id. more.supply id ∙ one.supply id }
