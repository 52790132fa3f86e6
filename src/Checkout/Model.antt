-- ===== src/Checkout/Model.antt =====
-- checkout-service/product_model.go, order_model.go and user_model.go.
use micro_market.Base.{if◌then◌else◌, ℕ, String, Bool, false, Option, none, some, str_eq}
use micro_market.Base.Int.{ℤ, pos}

pub record ProductModel : Type 0 where
  pub id : ℕ
  pub sid : String
  pub name : String
  pub price : ℤ
  pub currency : String
  pub out_of_stock : Option Bool
  pub created_at : ℕ
  pub updated_at : ℕ
  pub deleted_at : Option ℕ

-- `ProductModel{}`
abbrev pub zero_product : ProductModel
zero_product = record {
  id = 0;
  sid = "";
  name = "";
  price = pos 0;
  currency = "";
  out_of_stock = none;
  created_at = 0;
  updated_at = 0;
  deleted_at = none;
}

unfoldable pub is_out_of_stock : ProductModel → Bool
is_out_of_stock p = elim p.out_of_stock [ none ↦ false | some b ↦ b ]

pub record ProductResource : Type 0 where
  pub internal_id : ℕ
  pub sid : String
  pub name : String
  pub price : ℤ
  pub currency : String
  pub created_at : ℕ

unfoldable pub product_resource : ProductModel → ProductResource
product_resource p = record {
  internal_id = p.id;
  sid = p.sid;
  name = p.name;
  price = p.price;
  currency = p.currency;
  created_at = p.created_at;
}

pub record UserModel : Type 0 where
  pub id : ℕ
  pub name : String
  pub email : String
  pub created_at : ℕ
  pub updated_at : ℕ

-- `UserModel{}`
abbrev pub zero_user : UserModel
zero_user = record { id = 0; name = ""; email = ""; created_at = 0; updated_at = 0 }

pub record UserResource : Type 0 where
  pub id : ℕ
  pub name : String
  pub email : String
  pub created_at : ℕ

unfoldable pub user_resource : UserModel → UserResource
user_resource u = record { id = u.id; name = u.name; email = u.email; created_at = u.created_at }

-- `user` and `product` are the joined rows, where a query joins them.
pub record OrderModel : Type 0 where
  pub id : ℕ
  pub sid : String
  pub user_id : ℕ
  pub user : Option UserModel
  pub product_id : ℕ
  pub product : Option ProductModel
  pub quantity : ℤ
  pub price_per_item : ℤ
  pub total : ℤ
  pub created_at : ℕ
  pub updated_at : ℕ

-- `BeforeCreate`, at the identifier that `ulid.Make().String()` would give.
unfoldable pub before_create : String → OrderModel → OrderModel
before_create ulid o = if str_eq o.sid "" then record o { sid = ulid } else o

pub record OrderResource : Type 0 where
  pub internal_id : ℕ
  pub sid : String
  pub user_id : ℕ
  pub user_name : String
  pub user_email : String
  pub product_id : ℕ
  pub product_name : String
  pub price_per_item : ℤ
  pub quantity : ℤ
  pub total : ℤ
  pub created_at : ℕ

unfoldable pub order_resource : OrderModel → OrderResource
order_resource o = record {
  internal_id = o.id;
  sid = o.sid;
  user_id = o.user_id;
  user_name = elim o.user [ none ↦ "" | some u ↦ u.name ];
  user_email = elim o.user [ none ↦ "" | some u ↦ u.email ];
  product_id = o.product_id;
  product_name = elim o.product [ none ↦ "" | some p ↦ p.name ];
  price_per_item = o.price_per_item;
  quantity = o.quantity;
  total = o.total;
  created_at = o.created_at;
}
