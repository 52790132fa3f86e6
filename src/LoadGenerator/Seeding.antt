-- ===== src/LoadGenerator/Seeding.antt =====
-- `ensureProducts` of cmd/load-generator/main.go ends with the products that were asked for.
use micro_market.Base.{
  length, ℕ, zero, suc, ◌+◌, ◌-◌, ◌≡◌, refl, sym, ap, ◌∙◌, List, [], ◌∷◌, ◌++◌, arith,
}
use micro_market.Base.Int.{pos, pos_part, ◌≤ℤ◌}
use micro_market.Common.Action.{Result, ok, err, ok-injective}
use micro_market.LoadGenerator.{
  Product, World, Environment, fetch_products, create_product_once, seed_products, ensure_products,
}
use micro_market.LoadGenerator.Settings.{Config}

length-snoc : {A : Type 0} (xs : List A) (x : A) → length (xs ++ x ∷ []) ≡ length xs + 1
length-snoc [] x = refl
length-snoc (y ∷ ys) x = omega (arith, length-snoc ys x)

module _ {Peer Rng : Type 0} (env : Environment Peer Rng) where
  -- The rounds that are left add one product each.
  length-seed_products :
      (cfg : Config) (missing : ℕ) (before after : List Product) (w w' : World Peer Rng)
      → seed_products env cfg missing before w ≡ (ok after, w')
      → length after ≡ length before + missing
  unfolding seed_products
  length-seed_products cfg zero before after w w' e =
      let same : before ≡ after = ok-injective (ap (λ x. x.0) e) in
      ap length (sym same) ∙ omega arith
  length-seed_products cfg (suc missing) before after w w' e =
      go (length-seed_products cfg missing) (create_product_once env cfg w).0
        (create_product_once env cfg w).1 refl
    where
      go :
          ((before' after' : List Product) (v v' : World Peer Rng)
            → seed_products env cfg missing before' v ≡ (ok after', v')
            → length after' ≡ length before' + missing)
          → (r : Result Product) (v : World Peer Rng) → create_product_once env cfg w ≡ (r, v)
          → length after ≡ length before + suc missing
      go rest (err x) v f = absurd (ground arith)
      go rest (ok p) v f =
          omega (arith, rest (before ++ p ∷ []) after v w' (ground arith), length-snoc before p)

  -- Where `ensureProducts` returns products there are as many as were asked for, or more where the
  -- inventory service had more.
  pub ensure_products-enough :
      (cfg : Config) (after : List Product) (w w' : World Peer Rng)
      → ensure_products env cfg w ≡ (ok after, w')
      → cfg.seed_products ≤ℤ pos (length after)
  unfolding ensure_products
  ensure_products-enough cfg after w w' e =
      go (fetch_products env cfg.inventory_url w).0 (fetch_products env cfg.inventory_url w).1 refl
    where
      go :
          (r : Result (List Product)) (v : World Peer Rng)
          → fetch_products env cfg.inventory_url w ≡ (r, v)
          → cfg.seed_products ≤ℤ pos (length after)
      go (err x) v f = absurd (ground arith)
      go (ok before) v f =
          let n = pos_part cfg.seed_products - length before in
          omega (arith, length-seed_products cfg n before after v w' (ground arith))
