-- ===== src/Inventory/Orders/Effects.antt =====
-- What `PlaceNewOrder` of inventory-service/orders_controller.go is to do, field by field: the
-- descriptions that the theorems on it are stated with, and that the code's own steps meet them.
use micro_market.Base.{
  find?, ◌==◌, if◌then◌else◌, Bool-cases, ℕ, zero, suc, String, ◌≡◌, refl, ap, subst, ◌∙◌, inl, inr,
  Bool, true, false, not, ◌&&◌, Option, none, some, List, [], ◌∷◌, ◌++◌, arith, str_eq,
}
use micro_market.Base.Int.{ℤ, pos, negsuc, ◌-ℤ◌, ◌*ℤ◌, leb_ℤ, int64}
use micro_market.Inventory.Model.{
  ProductModel, get_available_quantity, OrderModel, OrderResource, order_resource,
}
use micro_market.Inventory.Contract.{
  has_id, order_has_sid, non_zero_text, non_zero_int, non_nil, merge, change, stored_order,
  UniqueIds,
}
use micro_market.Inventory.Orders.{PlaceOrderRequest, is_short, taken, new_order}

-- What the columns of a product say; a null is 0, and no mark.
abbrev pub quantity_of : Option ℤ → ℤ
quantity_of none = pos 0
quantity_of (some q) = q

abbrev pub is_marked : Option Bool → Bool
is_marked none = false
is_marked (some b) = b

-- The product is not marked as out of stock, and holds the quantity.
abbrev pub can_fill : ProductModel → ℤ → Bool
can_fill p q = not (is_marked p.out_of_stock) && leb_ℤ q (quantity_of p.available_quantity)

-- The product's row once the quantity is taken off it. It is marked where nothing is left.
abbrev pub after_sale : ProductModel → ℤ → ℕ → ProductModel
after_sale p q t =
    let left = int64 (quantity_of p.available_quantity -ℤ q) in
    record p {
      available_quantity = some left;
      out_of_stock = if leb_ℤ left (pos 0) then some true else p.out_of_stock;
      updated_at = t;
    }

-- The order's row: who ordered how much of the product, at the price of the moment.
pub record IsOrderOf (req : PlaceOrderRequest) (p : ProductModel) (o : OrderModel) : Type 0 where
  pub sid_is : o.sid ≡ req.order_sid
  pub user_is : o.user_id ≡ req.user_id
  pub product_is : o.product_id ≡ p.id
  pub price_is : o.price_per_item ≡ p.price
  pub quantity_is : o.quantity ≡ req.quantity
  pub total_is : o.total ≡ int64 (req.quantity *ℤ p.price)

-- The answer shows the order's row.
pub record ShowsOrder (o : OrderModel) (r : OrderResource) : Type 0 where
  pub id_shown : r.internal_id ≡ o.id
  pub sid_shown : r.sid ≡ o.sid
  pub user_shown : r.user_id ≡ o.user_id
  pub product_shown : r.product_id ≡ o.product_id
  pub quantity_shown : r.quantity ≡ o.quantity
  pub total_shown : r.total ≡ o.total
  pub time_shown : r.created_at ≡ o.created_at

-- The effect of an order on the two tables.
pub record Sells (req : PlaceOrderRequest) (p : ProductModel) (o : OrderModel) (r : OrderResource)
    (ps ps' : List ProductModel) (os os' : List OrderModel) : Type 0 where
  pub at : ℕ
  pub filled : can_fill p req.quantity ≡ true
  pub stock_taken : ps' ≡ change p.id (λ _. after_sale p req.quantity at) ps
  pub order_is : IsOrderOf req p o
  pub new_sid : find? (order_has_sid req.order_sid) os ≡ none
  pub order_added : os' ≡ os ++ o ∷ []
  pub answer : ShowsOrder o r

-- The code's test is the one described.
pub is_short-can_fill : (p : ProductModel) (q : ℤ) → is_short p q ≡ not (can_fill p q)
unfolding is_short
is_short-can_fill p q = go p.out_of_stock p.available_quantity refl refl
  where
    go :
        (m : Option Bool) (a : Option ℤ)
        → p.out_of_stock ≡ m
        → p.available_quantity ≡ a
        → is_short p q ≡ not (can_fill p q)
    go none none e f = ground arith
    go none (some a) e f = ground arith
    go (some b) none e f = ground arith
    go (some b) (some a) e f = ground arith

pub can_fill_of_short :
    (p : ProductModel) (q : ℤ) (b : Bool) → is_short p q ≡ not b → can_fill p q ≡ b
can_fill_of_short p q b e = let k = is_short-can_fill p q in ground arith

pub taken-id : (p : ProductModel) (q : ℤ) → (taken p q).id ≡ p.id
unfolding taken
taken-id p q = ground arith

-- A column that is written over itself stays, zero or not.
same_text : (s : String) → non_zero_text s s ≡ s
same_text s = elim (Bool-cases (str_eq s "")) [ inl e ↦ ground arith | inr e ↦ ground arith ]

same_int : (z : ℤ) → non_zero_int z z ≡ z
same_int (pos zero) = refl
same_int (pos (suc n)) = refl
same_int (negsuc n) = refl

same_mark : (m : Option Bool) → non_nil m m ≡ m
same_mark none = refl
same_mark (some b) = refl

merge_self :
    (p : ProductModel) (left : ℤ) (mark : Option Bool) (t : ℕ)
    → merge (record p { available_quantity = some left; out_of_stock = mark }) t p ≡ record p {
      available_quantity = some left;
      out_of_stock = non_nil mark p.out_of_stock;
      updated_at = t;
    }
merge_self p left mark t =
    rw (same_text p.sid, same_text p.name, same_text p.currency, same_int p.price) refl

quantity_lem : (p : ProductModel) → get_available_quantity p ≡ quantity_of p.available_quantity
unfolding get_available_quantity
quantity_lem p = by_column p.available_quantity refl
  where
    by_column :
        (a : Option ℤ)
        → p.available_quantity ≡ a
        → get_available_quantity p ≡ quantity_of p.available_quantity
    by_column none e = rw e refl
    by_column (some a) e = rw e refl

-- So is the row that is written over the product's own.
merge-taken : (p : ProductModel) (q : ℤ) (t : ℕ) → merge (taken p q) t p ≡ after_sale p q t
unfolding taken get_available_quantity
merge-taken p q t =
    let left = int64 (quantity_of p.available_quantity -ℤ q) in
    elim (Bool-cases (leb_ℤ left (pos 0))) [
      | inl nothing ↦ rw (quantity_lem p, nothing) (merge_self p left (some true) t)
      | inr more ↦ rw (quantity_lem p, more) (unmarked left)
    ]
  where
    unmarked :
        (left : ℤ)
        → merge (record p { available_quantity = some left }) t p
          ≡ record p { available_quantity = some left; updated_at = t }
    unmarked left =
        merge_self p left p.out_of_stock t
        ∙ ap
            (λ (m : Option Bool). record p {
              available_quantity = some left;
              out_of_stock = m;
              updated_at = t;
            })
            (same_mark p.out_of_stock)

change_absent :
    (id : ℕ) (f : ProductModel → ProductModel) (ps : List ProductModel)
    → find? (has_id id) ps ≡ none
    → change id f ps ≡ ps
change_absent id f [] h = refl
change_absent id f (y ∷ ys) h = ground (arith, change_absent id f ys)

-- A change by a key is a change of the row that is found.
change_found :
    (f : ProductModel → ProductModel) (x p : ProductModel) (ps : List ProductModel)
    → UniqueIds ps
    → find? (has_id p.id) ps ≡ some p
    → f p ≡ x
    → change p.id f ps ≡ change p.id (λ _. x) ps
change_found f x p [] u e k = cc
change_found f x p (y ∷ ys) u e k = elim (Bool-cases (y.id == p.id)) [
  | inl here ↦
      let same : y ≡ p = ground arith in
      let key : y.id ≡ p.id = ap (λ (z : ProductModel). z.id) same in
      let rest = subst (λ i. find? (has_id i) ys ≡ none) key u.0 in
      let fy : f y ≡ x = ap f same ∙ k in
      rw (here, change_absent p.id f ys rest, change_absent p.id (λ _. x) ys rest, fy) refl
  | inr there ↦
      let found : find? (has_id p.id) ys ≡ some p = ground arith in
      rw there (ap (λ l. y ∷ l) (change_found f x p ys u.1 found k))
]

-- The rows after the stock is written.
pub change-after_sale :
    (p : ProductModel) (q : ℤ) (t : ℕ) (ps : List ProductModel)
    → UniqueIds ps
    → find? (has_id p.id) ps ≡ some p
    → change (taken p q).id (merge (taken p q) t) ps ≡ change p.id (λ _. after_sale p q t) ps
change-after_sale p q t ps u e =
    rw (taken-id p q)
      (change_found (merge (taken p q) t) (after_sale p q t) p ps u e (merge-taken p q t))

pub new_order-IsOrderOf :
    (req : PlaceOrderRequest) (p : ProductModel) (id t : ℕ)
    → IsOrderOf req p (stored_order id t (new_order req p))
unfolding new_order
new_order-IsOrderOf req p id t = record {
  sid_is = refl;
  user_is = refl;
  product_is = refl;
  price_is = refl;
  quantity_is = refl;
  total_is = refl;
}

pub order_resource-ShowsOrder : (o : OrderModel) → ShowsOrder o (order_resource o)
unfolding order_resource
order_resource-ShowsOrder o = record {
  id_shown = refl;
  sid_shown = refl;
  user_shown = refl;
  product_shown = refl;
  quantity_shown = refl;
  total_shown = refl;
  time_shown = refl;
}
