-- ===== src/Inventory/Model.antt =====
-- inventory-service/product_model.go and order_model.go: the rows of the two tables and what the
-- API shows of them. A time is a number of nanoseconds, a nil pointer is `none`.
use micro_market.Base.{if◌then◌else◌, ℕ, String, Bool, false, Option, none, some, str_eq}
use micro_market.Base.Int.{ℤ, pos}

pub record ProductModel : Type 0 where
  pub id : ℕ
  pub sid : String
  pub name : String
  pub price : ℤ
  pub currency : String
  pub available_quantity : Option ℤ
  pub out_of_stock : Option Bool
  pub created_at : ℕ
  pub updated_at : ℕ
  pub deleted_at : Option ℕ

-- `ProductModel{}`
abbrev pub zero_product : ProductModel
zero_product = record {
  id = 0;
  sid = "";
  name = "";
  price = pos 0;
  currency = "";
  available_quantity = none;
  out_of_stock = none;
  created_at = 0;
  updated_at = 0;
  deleted_at = none;
}

-- `BeforeCreate`, at the identifier that `ulid.Make().String()` would give.
unfoldable pub before_create : String → ProductModel → ProductModel
before_create ulid p = if str_eq p.sid "" then record p { sid = ulid } else p

unfoldable pub get_available_quantity : ProductModel → ℤ
get_available_quantity p = elim p.available_quantity [ none ↦ pos 0 | some q ↦ q ]

unfoldable pub is_out_of_stock : ProductModel → Bool
is_out_of_stock p = elim p.out_of_stock [ none ↦ false | some b ↦ b ]

pub record ProductResource : Type 0 where
  pub internal_id : ℕ
  pub sid : String
  pub name : String
  pub price : ℤ
  pub currency : String
  pub available_quantity : ℤ
  pub out_of_stock : Bool
  pub created_at : ℕ

unfoldable pub product_resource : ProductModel → ProductResource
unfolding get_available_quantity is_out_of_stock
product_resource p = record {
  internal_id = p.id;
  sid = p.sid;
  name = p.name;
  price = p.price;
  currency = p.currency;
  available_quantity = get_available_quantity p;
  out_of_stock = is_out_of_stock p;
  created_at = p.created_at;
}

-- `product` is the joined row, where a query joins it.
pub record OrderModel : Type 0 where
  pub id : ℕ
  pub sid : String
  pub user_id : ℕ
  pub product_id : ℕ
  pub product : Option ProductModel
  pub price_per_item : ℤ
  pub quantity : ℤ
  pub total : ℤ
  pub created_at : ℕ
  pub updated_at : ℕ

pub record OrderResource : Type 0 where
  pub internal_id : ℕ
  pub sid : String
  pub user_id : ℕ
  pub user_name : String
  pub user_email : String
  pub product_id : ℕ
  pub product_name : String
  pub quantity : ℤ
  pub total : ℤ
  pub created_at : ℕ

unfoldable pub order_resource : OrderModel → OrderResource
order_resource o = record {
  internal_id = o.id;
  sid = o.sid;
  user_id = o.user_id;
  user_name = "";
  user_email = "";
  product_id = o.product_id;
  product_name = elim o.product [ none ↦ "" | some p ↦ p.name ];
  quantity = o.quantity;
  total = o.total;
  created_at = o.created_at;
}
