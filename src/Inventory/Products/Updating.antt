-- ===== src/Inventory/Products/Updating.antt =====
-- How `UpdateProduct` of inventory-service/products_controller.go ends.
use micro_market.Base.{find?, ℕ, ◌<◌, ◌≡◌, subst, ◌∙◌, none, some, List, arith}
use micro_market.Common.AppError.{Error, other, new_app_error}
use micro_market.Common.Action.{Result, ok, err}
use micro_market.Common.Query.{Writes}
use micro_market.Common.Wire.{Success, CheckoutClient}
use micro_market.Inventory.Model.{ProductModel, zero_product, ProductResource, product_resource}
use micro_market.Inventory.Environment.{World, Environment, exec, maybe_fail}
use micro_market.Inventory.Contract.{has_id, ProductChanged, saved, Contract}
use micro_market.Inventory.Products.Effects.{Updates, ProductChanged-Updates}
use micro_market.Inventory.Products.{
  ProductRequest, updated_product, update_request, find_product, save_body, update_product,
}
use micro_market.Inventory.Products.Outcome.{
  tell_saved, Refused, Unchanged-Refused, Told-after, exec-Local,
}
use micro_market.Inventory.Steps.{
  Unchanged, MayFail, injected, passed, maybe_fail-MayFail, Finds, found, absent, broken,
  find_product-Finds, find?-All, find?-holds,
}
use micro_market.Inventory.Sync.{Local, SyncEnds, undone, synced, transaction-SyncEnds}

module _ {Db Peer Rng : Type 0} (env : Environment Db Peer Rng) (c : Contract env) where
  -- How `UpdateProduct` ends.
  pub data UpdateEnds (id : ℕ) (req : ProductRequest) (w : World Db Peer Rng)
      (end : Result ProductResource × World Db Peer Rng) : Type 0 where
    refused :
        (e : Error) (product : ProductModel) (w' : World Db Peer Rng)
        → end ≡ (err e, w')
        → Refused env (tell_saved product) w w'
        → UpdateEnds id req w end
    unknown_product :
        (w' : World Db Peer Rng)
        → find? (has_id id) (c.products w.db) ≡ none
        → end ≡ (err (new_app_error 404 "product not found"), w')
        → Unchanged w w'
        → UpdateEnds id req w end
    updated :
        (old : ProductModel) (client : CheckoutClient Peer) (s : Success) (w' : World Db Peer Rng)
        → find? (has_id id) (c.products w.db) ≡ some old
        → env.client ≡ some client
        → client.update_product (update_request (updated_product req old)) w.checkout
          ≡ (ok s, w'.checkout)
        → end ≡ (ok (product_resource (updated_product req old)), w')
        → ProductChanged c.products c.orders w.db id (saved (updated_product req old)) w'.db
        → Updates id req client old
            (product_resource (updated_product req old))
            w.checkout
            w'.checkout
            (c.products w.db)
            (c.products w'.db)
            (c.orders w.db)
            (c.orders w'.db)
        → UpdateEnds id req w end

  -- The key of the row that is saved is the key that was asked for.
  same_key :
      (id : ℕ) (req : ProductRequest) (old : ProductModel) (ps : List ProductModel)
      → find? (has_id id) ps ≡ some old
      → (updated_product req old).id ≡ id
  unfolding updated_product
  same_key id req old ps f = ground (arith, find?-holds (has_id id) old ps f)

  save_exec :
      (id : ℕ) (req : ProductRequest) (old : ProductModel) (w : World Db Peer Rng)
      → find? (has_id id) (c.products w.db) ≡ some old
      → Local env
          (tell_saved (updated_product req old))
          (λ _ db'.
            ProductChanged c.products c.orders w.db id (saved (updated_product req old)) db')
          w
          (exec (env.gorm.save_product (updated_product req old)) w)
  save_exec id req old w f =
      let key = same_key id req old (c.products w.db) f in
      exec-Local env c (tell_saved (updated_product req old))
        (env.gorm.save_product (updated_product req old)) _ w
        (subst
          (λ k.
            Writes
              (λ _ db'.
                ProductChanged c.products c.orders w.db k (saved (updated_product req old)) db')
              w.db (env.gorm.save_product (updated_product req old) w.db))
          key (c.save_product (updated_product req old) old w.db (rw key f)))

  pub update_product-UpdateEnds :
      (id : ℕ) (req : ProductRequest) (w : World Db Peer Rng)
      → UpdateEnds id req w (update_product env id req w)
  unfolding update_product save_body
  update_product-UpdateEnds id req w = start (maybe_fail-MayFail env "inventory.UpdateProduct" w)
    where
      finish :
          (w1 : World Db Peer Rng) (old : ProductModel)
          → maybe_fail env "inventory.UpdateProduct" w ≡ (ok tt, w1)
          → Unchanged w w1
          → find? (has_id id) (c.products w1.db) ≡ some old
          → find_product env (env.gorm.first_by_id id) w1 ≡ (ok old, w1)
          → SyncEnds env
              (tell_saved (updated_product req old))
              (λ _ db'.
                ProductChanged c.products c.orders w1.db id (saved (updated_product req old)) db')
              w1
              (env.transaction (Unit {0}) (save_body env (updated_product req old)) w1)
          → UpdateEnds id req w (update_product env id req w)
      finish w1 old f u n g (undone e w' h same t) =
          refused e (updated_product req old) w' (ground arith)
            (record { db = same ∙ u.db; checkout = Told-after u t })
      finish w1 old f u n g (synced _ client s w' k t h r) =
          let t' = rw u.checkout at t in
          let r' = rw u.db at r in
          updated old client s w' (rw u.db at n) k t' (ground arith) r' (
            ProductChanged-Updates c.products c.orders req client s w.checkout w'.checkout w.db
              w'.db id old t' r')

      found_row :
          (w1 : World Db Peer Rng)
          → maybe_fail env "inventory.UpdateProduct" w ≡ (ok tt, w1)
          → Unchanged w w1
          → Finds env
              (find? (has_id id) (c.products w1.db))
              w1
              (find_product env (env.gorm.first_by_id id) w1)
          → UpdateEnds id req w (update_product env id req w)
      found_row w1 f u (absent n g) = unknown_product w1 (rw u.db at n) (ground arith) u
      found_row w1 f u (broken m g) =
          refused (other m) zero_product w1 (ground arith) (Unchanged-Refused u)
      found_row w1 f u (found old n g) = finish w1 old f u n g (
          transaction-SyncEnds env (tell_saved (updated_product req old)) _ w1 c
            (exec (env.gorm.save_product (updated_product req old))) (save_exec id req old w1 n))

      start :
          MayFail env w (maybe_fail env "inventory.UpdateProduct" w)
          → UpdateEnds id req w (update_product env id req w)
      start (injected e w' f u) = refused e zero_product w' (ground arith) (Unchanged-Refused u)
      start (passed w1 f u) = found_row w1 f u (
          find_product-Finds env (env.gorm.first_by_id id) (find? (has_id id) (c.products w1.db)) w1
            (λ p. find?-All (λ p. 0 < p.id) (has_id id) p (c.products w1.db) (c.product_ids w1.db))
            (c.first_by_id id w1.db))
