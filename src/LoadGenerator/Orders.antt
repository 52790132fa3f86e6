-- ===== src/LoadGenerator/Orders.antt =====
-- The orders that cmd/load-generator/main.go places.
use micro_market.Base.{
  sym, subst, ◌∙◌, ◌+◌, length, ℕ, zero, suc, ◌≤◌, ◌<◌, String, ◌≡◌, refl, ◌⊎◌, inl, inr, Option,
  none, some, List, [], ◌∷◌, arith,
}
use micro_market.Base.Text.{concat}
use micro_market.Common.AppError.{Error}
use micro_market.Common.Action.{Result}
use micro_market.LoadGenerator.{
  ignored, Product, Body, order_body, World, Environment, at, do_json, place_order,
}
use micro_market.LoadGenerator.Settings.{Config}

-- Something in the list has the property.
abbrev pub Some : {A : Type 0} → (A → Type 0) → List A → Type 0
Some P [] = ⊥
Some P (x ∷ xs) = P x ⊎ Some P xs

at-Some :
    {A : Type 0} (P : A → Type 0) (a : A) (xs : List A) (i : ℕ)
    → i < length xs
    → P (at a xs i)
    → Some P xs
at-Some P a [] i h p = absurd (omega arith)
at-Some P a (x ∷ xs) zero h p = inl p
at-Some P a (x ∷ xs) (suc i) h p = inr (at-Some P a xs i (omega arith) p)

module _ {Peer Rng : Type 0} (env : Environment Peer Rng)
    (random_lt : (n : ℕ) (r : Rng) → 0 < n → (env.random.intn n r).0 < n) where
  -- The services after one request that was sent, or none.
  pub data Sent (cfg : Config) (products : List Product) (before after : Peer) : Type 0 where
    nothing : after ≡ before → Sent cfg products before after
    one_order :
        (user_id product_id quantity : ℕ)
        → Some (λ u. u ≡ user_id) cfg.user_ids
        → Some (λ (p : Product). p.id ≡ product_id) products
        → 1 ≤ quantity
        → quantity ≤ 3
        → after
          ≡ (env.send "POST"
              (concat (cfg.checkout_url ∷ "/api/v1/orders" ∷ []))
              (some (order_body user_id product_id quantity))
              before).1
        → Sent cfg products before after

  do_json-sent :
      {A : Type 0} (method url : String) (body : Option Body) (decode : String → Result A)
      (w : World Peer Rng)
      → ((do_json env method url body decode w).1.services ≡ w.services)
        ⊎ ((do_json env method url body decode w).1.services
            ≡ (env.send method url body w.services).1)
  unfolding do_json
  do_json-sent method url body decode w = go (env.new_request method url body) refl
    where
      go :
          (o : Option Error)
          → env.new_request method url body ≡ o
          → ((do_json env method url body decode w).1.services ≡ w.services)
            ⊎ ((do_json env method url body decode w).1.services
                ≡ (env.send method url body w.services).1)
      go (some e) k = inl (ground arith)
      go none k = inr (ground arith)

  -- `placeOrder` sends nothing, or one request to place an order of one to three of one of the
  -- products, by one of the users.
  pub place_order-Sent :
      (cfg : Config) (products : List Product) (w : World Peer Rng)
      → Sent cfg products w.services (place_order env cfg products w).1.services
  unfolding place_order
  place_order-Sent cfg [] w = nothing (ground arith)
  place_order-Sent cfg (p ∷ ps) w = go cfg.user_ids refl
    where
      go :
          (us : List ℕ)
          → cfg.user_ids ≡ us
          → Sent cfg (p ∷ ps) w.services (place_order env cfg (p ∷ ps) w).1.services
      go [] e = nothing (ground arith)
      go (u ∷ us) e =
          let i = env.random.intn (length (p ∷ ps)) w.rng in
          let q = env.random.intn 3 i.1 in
          let j = env.random.intn (length (u ∷ us)) q.1 in
          let url = concat (cfg.checkout_url ∷ "/api/v1/orders" ∷ []) in
          let body : Option Body =
            some (order_body (at u (u ∷ us) j.0) (at p (p ∷ ps) i.0).id (1 + q.0)) in
          let v : World Peer Rng = record w { rng = j.1 } in
          let same : (place_order env cfg (p ∷ ps) w).1.services
              ≡ (do_json env "POST" url body ignored v).1.services =
            ground arith in
          let small = random_lt 3 i.1 (omega arith) in
          elim (do_json-sent "POST" url body ignored v) [
            | inl s ↦ nothing (same ∙ s)
            | inr s ↦
                one_order (at u (u ∷ us) j.0) (at p (p ∷ ps) i.0).id (1 + q.0)
                  (subst (Some (λ x. x ≡ at u (u ∷ us) j.0)) (sym e) (
                    at-Some (λ x. x ≡ at u (u ∷ us) j.0) u (u ∷ us) j.0
                      (random_lt (length (u ∷ us)) q.1 (omega arith)) refl))
                  (at-Some (λ (x : Product). x.id ≡ (at p (p ∷ ps) i.0).id) p (p ∷ ps) i.0
                    (random_lt (length (p ∷ ps)) w.rng (omega arith)) refl)
                  (omega arith) (omega (arith, small)) (same ∙ s)
          ]
