-- ===== src/Inventory/Contract.antt =====
-- What the inventory service relies on of gorm and SQLite, in terms of the rows that a state of
-- the database shows: the products that are not deleted, and the orders.
use micro_market.Base.{
  UniqueKeys, change_where, find?, keep, All, ◌==◌, if◌then◌else◌, ℕ, zero, ◌<◌, String, ◌≡◌, Bool,
  not, Option, none, some, List, [], ◌∷◌, ◌++◌, str_eq,
}
use micro_market.Base.Int.{ℤ, pos}
use micro_market.Common.Action.{Action, TransactionEnds}
use micro_market.Common.Query.{Answers, Writes}
use micro_market.Inventory.Model.{ProductModel, zero_product, OrderModel}
use micro_market.Inventory.Environment.{World, rollback, Environment}

abbrev pub has_id : ℕ → ProductModel → Bool
has_id id p = p.id == id

abbrev pub has_sid : String → ProductModel → Bool
has_sid sid p = str_eq p.sid sid

abbrev pub order_has_sid : String → OrderModel → Bool
order_has_sid sid o = str_eq o.sid sid

-- `Updates` writes the fields that are not zero, and the time of the update.
abbrev pub non_zero_text : String → String → String
non_zero_text new old = if str_eq new "" then old else new

abbrev pub non_zero_int : ℤ → ℤ → ℤ
non_zero_int (pos zero) old = old
non_zero_int new old = new

abbrev pub non_nil : {A : Type 0} → Option A → Option A → Option A
non_nil none old = old
non_nil (some a) old = some a

abbrev pub merge : ProductModel → ℕ → ProductModel → ProductModel
merge new t old = record old {
  sid = non_zero_text new.sid old.sid;
  name = non_zero_text new.name old.name;
  price = non_zero_int new.price old.price;
  currency = non_zero_text new.currency old.currency;
  available_quantity = non_nil new.available_quantity old.available_quantity;
  out_of_stock = non_nil new.out_of_stock old.out_of_stock;
  updated_at = t;
}

-- The rows with one changed by its key.
abbrev pub change : ℕ → (ProductModel → ProductModel) → List ProductModel → List ProductModel
change id = change_where (has_id id)

-- The rows after `Create`: the key and the times are filled in.
abbrev pub stored_product : ℕ → ℕ → ProductModel → ProductModel
stored_product id t p = record p { id = id; created_at = t; updated_at = t }

abbrev pub stored_order : ℕ → ℕ → OrderModel → OrderModel
stored_order id t o = record o { id = id; created_at = t; updated_at = t }

module _ {Db : Type 0} (rows : Db → List ProductModel) (sold : Db → List OrderModel) where
  -- `Create(&product)`: the key is new and not zero, and the unique index holds.
  pub record ProductCreated (db : Db) (p p' : ProductModel) (db' : Db) : Type 0 where
    pub id : ℕ
    pub at : ℕ
    pub id_pos : 0 < id
    pub row : p' ≡ stored_product id at p
    pub id_new : find? (has_id id) (rows db) ≡ none
    pub sid_new : find? (has_sid p.sid) (rows db) ≡ none
    pub products : rows db' ≡ rows db ++ p' ∷ []
    pub orders : sold db' ≡ sold db

  pub record OrderCreated (db : Db) (o o' : OrderModel) (db' : Db) : Type 0 where
    pub id : ℕ
    pub at : ℕ
    pub id_pos : 0 < id
    pub row : o' ≡ stored_order id at o
    pub sid_new : find? (order_has_sid o.sid) (sold db) ≡ none
    pub products : rows db' ≡ rows db
    pub orders : sold db' ≡ sold db ++ o' ∷ []

  -- `Updates(&product)`, `Save(&product)` and `Delete` of a row by its key. `Save` writes every
  -- field of a row that is there.
  pub record ProductChanged (db : Db) (id : ℕ) (f : ℕ → ProductModel → ProductModel) (db' : Db)
      : Type 0 where
    pub at : ℕ
    pub products : rows db' ≡ change id (f at) (rows db)
    pub orders : sold db' ≡ sold db

  pub record ProductDeleted (db : Db) (id : ℕ) (db' : Db) : Type 0 where
    pub products : rows db' ≡ keep (λ p. not (p.id == id)) (rows db)
    pub orders : sold db' ≡ sold db

-- No two rows have the same key.
abbrev pub UniqueIds : List ProductModel → Type 0
UniqueIds = UniqueKeys (λ p. p.id)

abbrev pub saved : ProductModel → ℕ → ProductModel → ProductModel
saved p t old = record p { updated_at = t }

-- `Select("id, sid")` reads two columns.
abbrev pub select_keys : ProductModel → ProductModel
select_keys p = record zero_product { id = p.id; sid = p.sid }

abbrev pub map_option : {A B : Type 0} → (A → B) → Option A → Option B
map_option f none = none
map_option f (some a) = some (f a)

pub record Contract {Db Peer Rng : Type 0} (env : Environment Db Peer Rng) : Type 1 where
  pub products : Db → List ProductModel
  pub orders : Db → List OrderModel
  -- The key is never zero, and is unique.
  pub product_ids : (db : Db) → All (λ p. 0 < p.id) (products db)
  pub unique_ids : (db : Db) → UniqueIds (products db)
  pub first_by_id :
      (id : ℕ) (db : Db) → Answers (find? (has_id id) (products db)) (env.gorm.first_by_id id db)
  pub select_by_id :
      (id : ℕ) (db : Db)
      → Answers
          (map_option select_keys (find? (has_id id) (products db)))
          (env.gorm.select_by_id id db)
  pub first_by_sid :
      (sid : String) (db : Db)
      → Answers (find? (has_sid sid) (products db)) (env.gorm.first_by_sid sid db)
  pub create_product :
      (p : ProductModel) (db : Db)
      → Writes (ProductCreated products orders db p) db (env.gorm.create_product p db)
  pub updates_product :
      (p : ProductModel) (db : Db)
      → Writes
          (λ _ db'. ProductChanged products orders db p.id (merge p) db')
          db
          (env.gorm.updates_product p db)
  pub save_product :
      (p old : ProductModel) (db : Db)
      → find? (has_id p.id) (products db) ≡ some old
      → Writes
          (λ _ db'. ProductChanged products orders db p.id (saved p) db')
          db
          (env.gorm.save_product p db)
  pub delete_product :
      (id : ℕ) (db : Db)
      → Writes
          (λ _ db'. ProductDeleted products orders db id db')
          db
          (env.gorm.delete_product id db)
  pub create_order :
      (o : OrderModel) (db : Db)
      → Writes (OrderCreated products orders db o) db (env.gorm.create_order o db)
  pub transaction :
      (A : Type 0) (body : Action (World Db Peer Rng) A) (w : World Db Peer Rng)
      → TransactionEnds rollback body w (env.transaction A body w)
