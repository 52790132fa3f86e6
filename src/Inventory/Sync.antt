-- ===== src/Inventory/Sync.antt =====
-- The transactions of inventory-service/products_controller.go: a statement on the database, then
-- a call of the checkout service, which no rollback reaches.
use micro_market.Base.{String, ◌≡◌, refl, sym, ap, Option, none, some, arith}
use micro_market.Common.AppError.{Error, other}
use micro_market.Common.Action.{
  Result, ok, err, Action, TransactionEnds, not_begun, rolled_back, committed, commit_failed,
}
use micro_market.Common.Wire.{Success, CheckoutClient}
use micro_market.Inventory.Environment.{World, rollback, Environment, get_checkout_client}
use micro_market.Inventory.Contract.{Contract}
use micro_market.Inventory.Products.{no_client, with_client, write_and_tell}
use micro_market.Inventory.Steps.{Unchanged}

module _ {Db Peer Rng A : Type 0} (env : Environment Db Peer Rng)
    (tell : A → CheckoutClient Peer → Action Peer Success) (w : World Db Peer Rng) where
  -- What has become of the checkout service: nothing, or one call about some row.
  pub data Told (peer : Peer) : Type 0 where
    untold : peer ≡ w.checkout → Told peer
    told :
        (a : A) (client : CheckoutClient Peer)
        → env.client ≡ some client
        → peer ≡ (tell a client w.checkout).1
        → Told peer

module _ {Db Peer Rng A : Type 0} (env : Environment Db Peer Rng)
    (tell : A → CheckoutClient Peer → Action Peer Success) (Effect : A → Db → Type 0)
    (w : World Db Peer Rng) where
  -- How the statement ends.
  pub data Local (end : Result A × World Db Peer Rng) : Type 0 where
    failed :
        (m : String) (w' : World Db Peer Rng)
        → end ≡ (err (other m), w')
        → Unchanged w w'
        → Local end
    wrote :
        (a : A) (w' : World Db Peer Rng)
        → end ≡ (ok a, w')
        → w'.checkout ≡ w.checkout
        → Effect a w'.db
        → Local end

  -- How the transaction ends.
  pub data SyncEnds (end : Result A × World Db Peer Rng) : Type 0 where
    undone :
        (e : Error) (w' : World Db Peer Rng)
        → end ≡ (err e, w')
        → w'.db ≡ w.db
        → Told env tell w w'.checkout
        → SyncEnds end
    synced :
        (a : A) (client : CheckoutClient Peer) (s : Success) (w' : World Db Peer Rng)
        → env.client ≡ some client
        → tell a client w.checkout ≡ (ok s, w'.checkout)
        → end ≡ (ok a, w')
        → Effect a w'.db
        → SyncEnds end

  -- How the transaction's argument ends.
  data BodyEnds (end : Result A × World Db Peer Rng) : Type 0 where
    stopped :
        (e : Error) (w' : World Db Peer Rng)
        → end ≡ (err e, w')
        → Told env tell w w'.checkout
        → BodyEnds end
    done :
        (a : A) (client : CheckoutClient Peer) (s : Success) (w' : World Db Peer Rng)
        → env.client ≡ some client
        → tell a client w.checkout ≡ (ok s, w'.checkout)
        → end ≡ (ok a, w')
        → Effect a w'.db
        → BodyEnds end

  body-BodyEnds :
      (write : Action (World Db Peer Rng) A)
      → Local (write w)
      → BodyEnds (write_and_tell env write tell w)
  unfolding write_and_tell with_client get_checkout_client
  body-BodyEnds write (failed m w' e u) = stopped (other m) w' (ground arith) (untold u.checkout)
  body-BodyEnds write (wrote a w1 e same effect) = at_client env.client refl
    where
      at_answer :
          (client : CheckoutClient Peer)
          → env.client ≡ some client
          → (r : Result Success) (peer : Peer) → tell a client w1.checkout ≡ (r, peer)
          → BodyEnds (write_and_tell env write tell w)
      at_answer client k (ok s) peer t =
          done a client s (record w1 { checkout = peer }) k (rw same at t) (ground arith) effect
      at_answer client k (err x) peer t =
          stopped x (record w1 { checkout = peer }) (ground arith)
            (told a client k (rw (rw same at t)))

      at_client :
          (o : Option (CheckoutClient Peer))
          → env.client ≡ o
          → BodyEnds (write_and_tell env write tell w)
      at_client none k = stopped no_client w1 (ground arith) (untold same)
      at_client (some client) k =
          at_answer client k (tell a client w1.checkout).0 (tell a client w1.checkout).1 refl

  pub transaction-SyncEnds :
      (c : Contract env) (write : Action (World Db Peer Rng) A)
      → Local (write w)
      → SyncEnds (env.transaction A (write_and_tell env write tell) w)
  transaction-SyncEnds c write l =
      go (body-BodyEnds write l) (c.transaction A (write_and_tell env write tell) w)
    where
      go :
          BodyEnds (write_and_tell env write tell w)
          → TransactionEnds rollback
              (write_and_tell env write tell)
              w
              (env.transaction A (write_and_tell env write tell) w)
          → SyncEnds (env.transaction A (write_and_tell env write tell) w)
      go b (not_begun m e) = undone (other m) w e refl (untold refl)
      go (stopped x w' f t) (rolled_back e w'' g h) = undone x (rollback w w') (ground arith) refl t
      go (stopped x w' f t) (committed a w'' g h) = cc
      go (stopped x w' f t) (commit_failed a m w'' g h) = cc
      go (done a client s w' k t f effect) (rolled_back e w'' g h) = cc
      go (done a client s w' k t f effect) (committed a' w'' g h) =
          synced a client s w' k t (ground arith) effect
      go (done a client s w' k t f effect) (commit_failed a' m w'' g h) =
          undone (other m) (rollback w w') (ground arith) refl
            (told a client k (ap (λ x. x.1) (sym t)))
