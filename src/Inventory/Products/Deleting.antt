-- ===== src/Inventory/Products/Deleting.antt =====
-- How `DeleteProduct` of inventory-service/products_controller.go ends.
use micro_market.Base.{find?, ℕ, ◌<◌, String, ◌≡◌, refl, ◌∙◌, Option, none, some, arith}
use micro_market.Common.AppError.{Error, other}
use micro_market.Common.Action.{Result, ok, err}
use micro_market.Common.Wire.{Success, CheckoutClient}
use micro_market.Inventory.Model.{ProductModel}
use micro_market.Inventory.Environment.{World, Environment, exec, maybe_fail}
use micro_market.Inventory.Contract.{has_id, ProductDeleted, select_keys, map_option, Contract}
use micro_market.Inventory.Products.{no_product, find_product, delete_body, delete_product}
use micro_market.Inventory.Products.Outcome.{
  tell_deleted, Refused, Unchanged-Refused, Told-after, exec-Local,
}
use micro_market.Inventory.Steps.{
  Unchanged, MayFail, injected, passed, maybe_fail-MayFail, Finds, found, absent, broken,
  find_product-Finds, find?-All,
}
use micro_market.Inventory.Sync.{SyncEnds, undone, synced, transaction-SyncEnds}

module _ {Db Peer Rng : Type 0} (env : Environment Db Peer Rng) (c : Contract env) where
  -- How `DeleteProduct` ends.
  pub data DeleteEnds (id : ℕ) (w : World Db Peer Rng) (end : Result (Unit {0}) × World Db Peer Rng)
      : Type 0 where
    refused :
        (e : Error) (sid : String) (w' : World Db Peer Rng)
        → end ≡ (err e, w')
        → Refused env (tell_deleted sid) w w'
        → DeleteEnds id w end
    unknown_product :
        (w' : World Db Peer Rng)
        → find? (has_id id) (c.products w.db) ≡ none
        → end ≡ (err no_product, w')
        → Unchanged w w'
        → DeleteEnds id w end
    deleted :
        (p : ProductModel) (client : CheckoutClient Peer) (s : Success) (w' : World Db Peer Rng)
        → find? (has_id id) (c.products w.db) ≡ some p
        → env.client ≡ some client
        → client.delete_product (record { sid = p.sid }) w.checkout ≡ (ok s, w'.checkout)
        → end ≡ (ok tt, w')
        → ProductDeleted c.products c.orders w.db id w'.db
        → DeleteEnds id w end

  selected :
      (q : ProductModel) (o : Option ProductModel)
      → map_option select_keys o ≡ some q
      → (p : ProductModel) × (o ≡ some p) × (q.sid ≡ p.sid) × (q.id ≡ p.id)
  selected q none e = cc
  selected q (some p) e = (p, refl, ground arith, ground arith)

  not_selected : (o : Option ProductModel) → map_option select_keys o ≡ none → o ≡ none
  not_selected none e = refl
  not_selected (some p) e = cc

  selected_pos :
      (id : ℕ) (db : Db) (q : ProductModel)
      → map_option select_keys (find? (has_id id) (c.products db)) ≡ some q
      → 0 < q.id
  selected_pos id db q e =
      let (p, f, _, k) = selected q (find? (has_id id) (c.products db)) e in
      rw k (find?-All (λ p. 0 < p.id) (has_id id) p (c.products db) (c.product_ids db) f)

  pub delete_product-DeleteEnds :
      (id : ℕ) (w : World Db Peer Rng) → DeleteEnds id w (delete_product env id w)
  unfolding delete_product delete_body
  delete_product-DeleteEnds id w = start (maybe_fail-MayFail env "inventory.DeleteProduct" w)
    where
      finish :
          (w1 : World Db Peer Rng) (q p : ProductModel)
          → maybe_fail env "inventory.DeleteProduct" w ≡ (ok tt, w1)
          → Unchanged w w1
          → find? (has_id id) (c.products w1.db) ≡ some p
          → q.sid ≡ p.sid
          → find_product env (env.gorm.select_by_id id) w1 ≡ (ok q, w1)
          → SyncEnds env
              (tell_deleted q.sid)
              (λ _ db'. ProductDeleted c.products c.orders w1.db id db')
              w1
              (env.transaction (Unit {0}) (delete_body env id q.sid) w1)
          → DeleteEnds id w (delete_product env id w)
      finish w1 q p f u n k g (undone e w' h same t) =
          refused e q.sid w' (ground arith) (record { db = same ∙ u.db; checkout = Told-after u t })
      finish w1 q p f u n k g (synced _ client s w' j t h r) =
          deleted p client s w' (rw u.db at n) j (rw (← u.checkout, ← k) t) (ground arith)
            (rw u.db at r)

      found_row :
          (w1 : World Db Peer Rng)
          → maybe_fail env "inventory.DeleteProduct" w ≡ (ok tt, w1)
          → Unchanged w w1
          → Finds env
              (map_option select_keys (find? (has_id id) (c.products w1.db)))
              w1
              (find_product env (env.gorm.select_by_id id) w1)
          → DeleteEnds id w (delete_product env id w)
      found_row w1 f u (absent n g) =
          unknown_product w1 (rw u.db at (not_selected _ n)) (ground arith) u
      found_row w1 f u (broken m g) = refused (other m) "" w1 (ground arith) (Unchanged-Refused u)
      found_row w1 f u (found q n g) =
          let (p, j, k, _) = selected q (find? (has_id id) (c.products w1.db)) n in
          finish w1 q p f u j k g (
            transaction-SyncEnds env (tell_deleted q.sid) _ w1 c (exec (env.gorm.delete_product id))
              (exec-Local env c (tell_deleted q.sid) (env.gorm.delete_product id) _ w1
                (c.delete_product id w1.db)))

      start :
          MayFail env w (maybe_fail env "inventory.DeleteProduct" w)
          → DeleteEnds id w (delete_product env id w)
      start (injected e w' f u) = refused e "" w' (ground arith) (Unchanged-Refused u)
      start (passed w1 f u) = found_row w1 f u (
          find_product-Finds env (env.gorm.select_by_id id)
            (map_option select_keys (find? (has_id id) (c.products w1.db))) w1
            (selected_pos id w1.db) (c.select_by_id id w1.db))
