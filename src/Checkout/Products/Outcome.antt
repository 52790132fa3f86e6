-- ===== src/Checkout/Products/Outcome.antt =====
-- How the functions of checkout-service/products_controller.go that the inventory service calls
-- end: each changes one product's row, or nothing.
use micro_market.Common.StatusCode
use micro_market.Base.{
  find?, ◌<◌, String, ◌≡◌, refl, Bool, Option, none, some, List, [], ◌∷◌, arith,
}
use micro_market.Common.AppError.{Error, record_not_found, other, new_app_error}
use micro_market.Common.Action.{Result, ok, err}
use micro_market.Common.Query.{Answers, answered, failed, Writes, wrote}
use micro_market.Common.Wire.{AddNewProductRequest, UpdateProductRequest, DeleteProductRequest}
use micro_market.Checkout.Model.{ProductModel}
use micro_market.Checkout.Environment.{World, Environment, maybe_fail, or_zero}
use micro_market.Checkout.Contract.{
  has_id, has_sid, UniqueIds, ProductCreated, ProductSaved, ProductDeleted, Contract,
}
use micro_market.Checkout.Products.Effects.{Adds, Saves, ProductCreated-Adds, ProductSaved-Saves}
use micro_market.Checkout.Products.{
  concat, new_product, updated_product, add_new_product, find_product, update_product,
  delete_product,
}
use micro_market.Checkout.Steps.{
  Unchanged, find?-All, MayFail, injected, passed, maybe_fail-MayFail,
}

abbrev no_sid : String → Error
no_sid sid = new_app_error StatusCode.not_found (concat ("product: " ∷ sid ∷ " not found" ∷ []))

-- The row that is saved has the key of the row that was read.
saved_row :
    (req : UpdateProductRequest) (p : ProductModel) (test : ProductModel → Bool)
    (ps : List ProductModel)
    → UniqueIds ps
    → find? test ps ≡ some p
    → find? (has_id (updated_product req p).id) ps ≡ some p
unfolding updated_product
saved_row req p test [] u e = cc
saved_row req p test (x ∷ xs) u e = ground (arith, saved_row req p test xs u.1)

module _ {Db Peer Redis Rng : Type 0} (env : Environment Db Peer Redis Rng) (c : Contract env) where
  -- A call of one of the functions, that fails and leaves all as it was, or has the effect.
  pub data ChangeEnds (Effect : Db → Type 0) (w : World Db Peer Redis Rng)
      (end : Result (Unit {0}) × World Db Peer Redis Rng) : Type 0 where
    refused :
        (e : Error) (w' : World Db Peer Redis Rng)
        → end ≡ (err e, w')
        → Unchanged w w'
        → ChangeEnds Effect w end
    changed :
        (w' : World Db Peer Redis Rng)
        → end ≡ (ok tt, w')
        → w'.inventory ≡ w.inventory
        → w'.redis ≡ w.redis
        → Effect w'.db
        → ChangeEnds Effect w end

  -- A call of `AddNewProduct` fails and leaves everything as it was, or adds one row with the
  -- identifier, name, price, currency and mark that were sent, under a new key. No row had the
  -- identifier, and the orders stay.
  pub add_new_product-ChangeEnds :
      (req : AddNewProductRequest) (w : World Db Peer Redis Rng)
      → ChangeEnds
          (λ db'.
            Adds req.product (c.products w.db) (c.products db') (c.orders w.db) (c.orders db'))
          w
          (add_new_product env req w)
  unfolding add_new_product
  add_new_product-ChangeEnds req w = start (maybe_fail-MayFail env "checkout.AddNewProduct" w)
    where
      create :
          (w1 : World Db Peer Redis Rng)
          → maybe_fail env "checkout.AddNewProduct" w ≡ (ok tt, w1)
          → Unchanged w w1
          → Writes
              (ProductCreated c.products c.orders w1.db (new_product req.product))
              w1.db
              (env.gorm.create_product (new_product req.product) w1.db)
          → ChangeEnds
              (λ db'.
                Adds req.product (c.products w.db) (c.products db') (c.orders w.db) (c.orders db'))
              w
              (add_new_product env req w)
      create w1 f u (failed m e) = refused (other m) w1 (ground arith) u
      create w1 f u (wrote p db' e k) =
          changed (record w1 { db = db' }) (ground arith) u.inventory u.redis
            (ProductCreated-Adds c.products c.orders req.product p w.db db' (rw u.db at k))

      start :
          MayFail env w (maybe_fail env "checkout.AddNewProduct" w)
          → ChangeEnds
              (λ db'.
                Adds req.product (c.products w.db) (c.products db') (c.orders w.db) (c.orders db'))
              w
              (add_new_product env req w)
      start (injected e w' f u) = refused e w' (ground arith) u
      start (passed w1 f u) = create w1 f u (c.create_product (new_product req.product) w1.db)

  -- A call of `DeleteProduct` fails and leaves everything as it was, or takes the row of the
  -- identifier out; without such a row it fails.
  pub delete_product-ChangeEnds :
      (req : DeleteProductRequest) (w : World Db Peer Redis Rng)
      → ChangeEnds
          (λ db'.
            (p : ProductModel) × (find? (has_sid req.sid) (c.products w.db) ≡ some p)
            × ProductDeleted c.products c.orders w.db p db')
          w
          (delete_product env req w)
  unfolding delete_product
  delete_product-ChangeEnds req w = start (maybe_fail-MayFail env "checkout.DeleteProduct" w)
    where
      End : Type 0
      End =
          ChangeEnds
            (λ db'.
              (p : ProductModel) × (find? (has_sid req.sid) (c.products w.db) ≡ some p)
              × ProductDeleted c.products c.orders w.db p db')
            w (delete_product env req w)

      delete :
          (w1 : World Db Peer Redis Rng) (p : ProductModel)
          → maybe_fail env "checkout.DeleteProduct" w ≡ (ok tt, w1)
          → Unchanged w w1
          → find? (has_sid req.sid) (c.products w1.db) ≡ some p
          → env.gorm.first_product_by_sid req.sid w1.db ≡ ok p
          → Writes
              (λ _ db'. ProductDeleted c.products c.orders w1.db p db')
              w1.db
              (env.gorm.delete_product p w1.db)
          → End
      delete w1 p f u n e (failed m g) = refused (other m) w1 (ground arith) u
      delete w1 p f u n e (wrote _ db' g k) =
          changed (record w1 { db = db' }) (ground arith) u.inventory u.redis
            (p, rw u.db at n, rw u.db at k)

      look_up :
          (w1 : World Db Peer Redis Rng)
          → maybe_fail env "checkout.DeleteProduct" w ≡ (ok tt, w1)
          → Unchanged w w1
          → (o : Option ProductModel) → find? (has_sid req.sid) (c.products w1.db) ≡ o
          → Answers
              (find? (has_sid req.sid) (c.products w1.db))
              (env.gorm.first_product_by_sid req.sid w1.db)
          → End
      look_up w1 f u o n (Answers.failed m e) = refused (other m) w1 (ground arith) u
      look_up w1 f u none n (answered e) = refused record_not_found w1 (ground arith) u
      look_up w1 f u (some p) n (answered e) =
          delete w1 p f u n (ground arith) (c.delete_product p w1.db)

      start : MayFail env w (maybe_fail env "checkout.DeleteProduct" w) → End
      start (injected e w' f u) = refused e w' (ground arith) u
      start (passed w1 f u) =
          look_up w1 f u (find? (has_sid req.sid) (c.products w1.db)) refl
            (c.first_product_by_sid req.sid w1.db)

  -- A call of `UpdateProduct` fails and leaves everything as it was, or writes the request's
  -- name, price, currency and mark to the row of the identifier and to no other; the row's other
  -- fields but its time of update, and the orders, stay.
  pub update_product-ChangeEnds :
      (req : UpdateProductRequest) (w : World Db Peer Redis Rng)
      → ChangeEnds
          (λ db'. Saves req (c.products w.db) (c.products db') (c.orders w.db) (c.orders db'))
          w
          (update_product env req w)
  unfolding update_product find_product or_zero
  update_product-ChangeEnds req w = start (maybe_fail-MayFail env "checkout.UpdateProduct" w)
    where
      End : Type 0
      End =
          ChangeEnds
            (λ db'. Saves req (c.products w.db) (c.products db') (c.orders w.db) (c.orders db')) w
            (update_product env req w)

      save :
          (w1 : World Db Peer Redis Rng) (p : ProductModel)
          → maybe_fail env "checkout.UpdateProduct" w ≡ (ok tt, w1)
          → Unchanged w w1
          → find? (has_sid req.sid) (c.products w1.db) ≡ some p
          → 0 < p.id
          → env.gorm.first_product_by_sid req.sid w1.db ≡ ok p
          → Writes
              (λ _ db'. ProductSaved c.products c.orders w1.db (updated_product req p) db')
              w1.db
              (env.gorm.save_product (updated_product req p) w1.db)
          → End
      save w1 p f u n k e (failed m g) = refused (other m) w1 (ground arith) u
      save w1 p f u n k e (wrote _ db' g h) =
          changed (record w1 { db = db' }) (ground arith) u.inventory u.redis
            (ProductSaved-Saves c.products c.orders req p w.db db' (rw u.db at n) (rw u.db at h))

      look_up :
          (w1 : World Db Peer Redis Rng)
          → maybe_fail env "checkout.UpdateProduct" w ≡ (ok tt, w1)
          → Unchanged w w1
          → (o : Option ProductModel) → find? (has_sid req.sid) (c.products w1.db) ≡ o
          → Answers
              (find? (has_sid req.sid) (c.products w1.db))
              (env.gorm.first_product_by_sid req.sid w1.db)
          → End
      look_up w1 f u o n (Answers.failed m e) = refused (other m) w1 (ground arith) u
      look_up w1 f u none n (answered e) = refused (no_sid req.sid) w1 (ground arith) u
      look_up w1 f u (some p) n (answered e) =
          save w1 p f u n
            (find?-All (λ p. 0 < p.id) (has_sid req.sid) p (c.products w1.db) (c.product_ids w1.db)
              n)
            (ground arith)
            (c.save_product (updated_product req p) p w1.db
              (saved_row req p (has_sid req.sid) (c.products w1.db) (c.unique_ids w1.db) n))

      start : MayFail env w (maybe_fail env "checkout.UpdateProduct" w) → End
      start (injected e w' f u) = refused e w' (ground arith) u
      start (passed w1 f u) =
          look_up w1 f u (find? (has_sid req.sid) (c.products w1.db)) refl
            (c.first_product_by_sid req.sid w1.db)
