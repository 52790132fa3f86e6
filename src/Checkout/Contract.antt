-- ===== src/Checkout/Contract.antt =====
-- What the checkout service relies on of gorm and SQLite, in terms of the rows that a state of
-- the database shows, and of grpc's status package.
use micro_market.Base.{
  UniqueKeys, change_where, find?, keep, All, ◌==◌, ℕ, ◌<◌, String, ◌≡◌, Bool, not, none, some,
  List, [], ◌∷◌, ◌++◌, str_eq,
}
use micro_market.Common.AppError.{Status, rpc}
use micro_market.Common.Action.{Action, TransactionEnds}
use micro_market.Common.Query.{Answers, Writes}
use micro_market.Checkout.Model.{ProductModel, UserModel, OrderModel}
use micro_market.Checkout.Environment.{World, rollback, Environment}

abbrev pub user_has_id : ℕ → UserModel → Bool
user_has_id id u = u.id == id

abbrev pub has_id : ℕ → ProductModel → Bool
has_id id p = p.id == id

abbrev pub has_sid : String → ProductModel → Bool
has_sid sid p = str_eq p.sid sid

abbrev pub order_has_sid : String → OrderModel → Bool
order_has_sid sid o = str_eq o.sid sid

-- The rows with one changed by its key.
abbrev pub change : ℕ → (ProductModel → ProductModel) → List ProductModel → List ProductModel
change id = change_where (has_id id)

-- The rows after `Create`: the key and the times are filled in.
abbrev pub stored_product : ℕ → ℕ → ProductModel → ProductModel
stored_product id t p = record p { id = id; created_at = t; updated_at = t }

abbrev pub stored_order : ℕ → ℕ → OrderModel → OrderModel
stored_order id t o = record o { id = id; created_at = t; updated_at = t }

-- No two rows have the same key.
abbrev pub UniqueIds : List ProductModel → Type 0
UniqueIds = UniqueKeys (λ p. p.id)

-- `Save` writes every field of a row that is there, and the time.
abbrev pub saved : ProductModel → ℕ → ProductModel → ProductModel
saved p t old = record p { updated_at = t }

module _ {Db : Type 0} (rows : Db → List ProductModel) (sold : Db → List OrderModel) where
  -- `Create(&product)`: the key is new and not zero, and the unique index holds.
  pub record ProductCreated (db : Db) (p p' : ProductModel) (db' : Db) : Type 0 where
    pub id : ℕ
    pub at : ℕ
    pub id_pos : 0 < id
    pub row : p' ≡ stored_product id at p
    pub id_new : find? (has_id id) (rows db) ≡ none
    pub sid_new : find? (has_sid p.sid) (rows db) ≡ none
    pub products : rows db' ≡ rows db ++ p' ∷ []
    pub orders : sold db' ≡ sold db

  pub record OrderCreated (db : Db) (o o' : OrderModel) (db' : Db) : Type 0 where
    pub id : ℕ
    pub at : ℕ
    pub id_pos : 0 < id
    pub row : o' ≡ stored_order id at o
    pub sid_new : find? (order_has_sid o.sid) (sold db) ≡ none
    pub products : rows db' ≡ rows db
    pub orders : sold db' ≡ sold db ++ o' ∷ []

  pub record ProductSaved (db : Db) (p : ProductModel) (db' : Db) : Type 0 where
    pub at : ℕ
    pub products : rows db' ≡ change p.id (saved p at) (rows db)
    pub orders : sold db' ≡ sold db

  pub record ProductDeleted (db : Db) (p : ProductModel) (db' : Db) : Type 0 where
    pub products : rows db' ≡ keep (λ x. not (x.id == p.id)) (rows db)
    pub orders : sold db' ≡ sold db

pub record Contract {Db Peer Redis Rng : Type 0} (env : Environment Db Peer Redis Rng)
    : Type 1 where
  pub users : Db → List UserModel
  pub products : Db → List ProductModel
  pub orders : Db → List OrderModel
  -- The keys are never zero.
  pub user_ids : (db : Db) → All (λ u. 0 < u.id) (users db)
  pub product_ids : (db : Db) → All (λ p. 0 < p.id) (products db)
  pub unique_ids : (db : Db) → UniqueIds (products db)
  pub first_user :
      (id : ℕ) (db : Db) → Answers (find? (user_has_id id) (users db)) (env.gorm.first_user id db)
  pub first_product :
      (id : ℕ) (db : Db) → Answers (find? (has_id id) (products db)) (env.gorm.first_product id db)
  pub first_product_by_sid :
      (sid : String) (db : Db)
      → Answers (find? (has_sid sid) (products db)) (env.gorm.first_product_by_sid sid db)
  pub create_product :
      (p : ProductModel) (db : Db)
      → Writes (ProductCreated products orders db p) db (env.gorm.create_product p db)
  pub save_product :
      (p old : ProductModel) (db : Db)
      → find? (has_id p.id) (products db) ≡ some old
      → Writes (λ _ db'. ProductSaved products orders db p db') db (env.gorm.save_product p db)
  pub delete_product :
      (p : ProductModel) (db : Db)
      → Writes (λ _ db'. ProductDeleted products orders db p db') db (env.gorm.delete_product p db)
  pub create_order :
      (o : OrderModel) (db : Db)
      → Writes (OrderCreated products orders db o) db (env.gorm.create_order o db)
  pub transaction :
      (A : Type 0) (body : Action (World Db Peer Redis Rng) A) (w : World Db Peer Redis Rng)
      → TransactionEnds rollback body w (env.transaction A body w)
  -- An error that carries a status gives it back.
  pub from_error : (s : Status) → env.from_error (rpc s) ≡ some s
