-- ===== src/LoadGenerator.antt =====
-- cmd/load-generator/main.go: a program that sends the two services requests at random. Settings
-- reads its settings, Pool is the loop that starts the requests, and this file has the requests.
pub mod Settings
pub mod Pool
pub mod Seeding
pub mod Orders
use micro_market.Base.{
  length, leb, ◌==◌, if◌then◌else◌, ℕ, zero, suc, ◌+◌, ◌-◌, String, Bool, not, ◌||◌, Option, none,
  some, List, [], ◌∷◌, ◌++◌,
}
use micro_market.Base.Int.{ℤ, pos, pos_part, ◌+ℤ◌, int64}
use micro_market.Base.Text.{concat, decimal}
use micro_market.Common.AppError.{Error, other}
use micro_market.Common.Action.{Result, ok, err, Action, pure, raise, ◌>>=◌, ◌>>◌}
use micro_market.Common.Chaos.{Random}
use micro_market.LoadGenerator.Settings.{Config}

-- A product, as the inventory service shows it.
pub record Product : Type 0 where
  pub id : ℕ
  pub sid : String
  pub name : String
  pub price : ℤ
  pub currency : String
  pub available_quantity : ℤ
  pub out_of_stock : Bool

-- What is sent as JSON.
pub data Body : Type 0 where
  product_body : (name : String) (price : ℤ) (currency : String) (available_quantity : ℤ) → Body
  order_body : (user_id product_id : ℕ) (quantity : ℕ) → Body

pub record HttpResponse : Type 0 where
  pub status_code : ℕ
  pub status : String
  pub body : String

-- The services, and the generator of the operation.
pub record World (Peer Rng : Type 0) : Type 0 where
  pub services : Peer
  pub rng : Rng

-- `http.NewRequestWithContext` and `client.Do`, the decoders of the two answers that are read,
-- math/rand, and `gofakeit.ProductName`.
pub record Environment (Peer Rng : Type 0) : Type 0 where
  pub new_request : String → String → Option Body → Option Error
  pub send : String → String → Option Body → Action Peer HttpResponse
  pub decode_product : String → Result Product
  pub decode_products : String → Result (List Product)
  pub random : Random Rng
  -- `rand.New(rand.NewSource(rng.Int63()))`, and what is left of `rng`
  pub new_source : Rng → Rng × Rng
  pub product_name : Peer → String

-- `s[i]`, for an index in range.
abbrev pub at {ℓ} : {A : Type ℓ} → A → List A → ℕ → A
at a [] i = a
at a (x ∷ xs) zero = x
at a (x ∷ xs) (suc i) = at a xs i

abbrev pub ignored : String → Result (Unit {0})
ignored body = ok tt

module _ {Peer Rng : Type 0} (env : Environment Peer Rng) where
  -- `rng.Intn(n)`
  abbrev pub intn : ℕ → Action (World Peer Rng) ℕ
  intn n w = let (k, rng') = env.random.intn n w.rng in (ok k, record w { rng = rng' })

  -- `client.Do(req)`
  abbrev pub exchange : String → String → Option Body → Action (World Peer Rng) HttpResponse
  exchange method url body w =
      let (r, s) = env.send method url body w.services in (r, record w { services = s })

  -- `doJSON`. `decode` is `json.NewDecoder(resp.Body).Decode(out)`, and `ignored` for a nil `out`.
  unfoldable pub do_json :
      {A : Type 0} → String → String → Option Body → (String → Result A) → Action (World Peer Rng) A
  do_json method url body decode = elim (env.new_request method url body) [
    | some e ↦ raise e
    | none ↦ do
      resp ← exchange method url body
      if leb 300 resp.status_code
          then raise (other (concat (method ∷ " " ∷ url ∷ ": " ∷ resp.status ∷ [])))
          else elim (decode resp.body) [ ok a ↦ pure a | err e ↦ raise e ]
  ]

  unfoldable pub fetch_products : String → Action (World Peer Rng) (List Product)
  fetch_products base_url =
      do_json "GET" (concat (base_url ∷ "/api/v1/products" ∷ [])) none env.decode_products

  unfoldable pub create_product_once : Config → Action (World Peer Rng) Product
  create_product_once cfg w =
      (do
        price ← intn 100
        quantity ← intn 20
        do_json "POST" (concat (cfg.inventory_url ∷ "/api/v1/products" ∷ []))
            (some (
              product_body (env.product_name w.services) (pos (10 + price)) "USD"
                (pos (5 + quantity))))
            env.decode_product)
        w

  unfoldable pub get_products : Config → Action (World Peer Rng) (Unit {0})
  get_products cfg =
      do_json "GET" (concat (cfg.inventory_url ∷ "/api/v1/products" ∷ [])) none ignored

  unfoldable pub get_orders : Config → Action (World Peer Rng) (Unit {0})
  get_orders cfg = do_json "GET" (concat (cfg.checkout_url ∷ "/api/v1/orders" ∷ [])) none ignored

  unfoldable pub create_product_op : Config → Action (World Peer Rng) (Unit {0})
  create_product_op cfg = create_product_once cfg >>= λ p. pure tt

  -- The address of a product.
  abbrev pub product_url : Config → Product → String
  product_url cfg p = concat (cfg.inventory_url ∷ "/api/v1/products/" ∷ decimal p.id ∷ [])

  unfoldable pub update_product : Config → List Product → Action (World Peer Rng) (Unit {0})
  update_product cfg [] = pure tt
  update_product cfg (first ∷ rest) = do
    i ← intn (length (first ∷ rest))
    let p = at first (first ∷ rest) i
    λ w.
        do_json "PUT" (product_url cfg p)
          (some (
            product_body (env.product_name w.services) (int64 (p.price +ℤ pos 1)) p.currency
              (int64 (p.available_quantity +ℤ pos 1))))
          ignored w

  -- One time in five.
  unfoldable pub delete_product : Config → List Product → Action (World Peer Rng) (Unit {0})
  delete_product cfg [] = pure tt
  delete_product cfg (first ∷ rest) = do
    k ← intn 5
    if not (k == 0) then pure tt else (do
      i ← intn (length (first ∷ rest))
      do_json "DELETE" (product_url cfg (at first (first ∷ rest) i)) none ignored)

  -- The order of the one of the products and of the users that were drawn.
  abbrev pub order_of : List Product → List ℕ → ℕ → ℕ → ℕ → Option Body
  order_of [] us i q j = none
  order_of (p ∷ ps) [] i q j = none
  order_of (p ∷ ps) (u ∷ us) i q j =
      some (order_body (at u (u ∷ us) j) (at p (p ∷ ps) i).id (1 + q))

  unfoldable pub place_order : Config → List Product → Action (World Peer Rng) (Unit {0})
  place_order cfg products =
      if length products == 0 || length cfg.user_ids == 0 then pure tt else (do
        i ← intn (length products)
        q ← intn 3
        j ← intn (length cfg.user_ids)
        do_json "POST" (concat (cfg.checkout_url ∷ "/api/v1/orders" ∷ []))
            (order_of products cfg.user_ids i q j) ignored)

  -- `ops`, by its index.
  unfoldable pub ops : ℕ → Config → List Product → Action (World Peer Rng) (Unit {0})
  ops zero cfg products = get_products cfg
  ops (suc zero) cfg products = get_orders cfg
  ops (suc (suc zero)) cfg products = create_product_op cfg
  ops (suc (suc (suc zero))) cfg products = update_product cfg products
  ops (suc (suc (suc (suc zero)))) cfg products = delete_product cfg products
  ops _ cfg products = place_order cfg products

  -- The body of a goroutine of the loop: the operation is drawn from the program's generator and
  -- draws from one of its own. Its error is only logged.
  unfoldable pub run_op : Config → List Product → World Peer Rng → World Peer Rng
  unfolding ops
  run_op cfg products w =
      let (i, rng') = env.random.intn 6 w.rng in
      let (op_rng, rng'') = env.new_source rng' in
      let w' : World Peer Rng = record w { rng = op_rng } in
      let (r, end) = ops i cfg products w' in record end { rng = rng'' }

  -- The rounds of the loop in `ensureProducts` that are left, one for each product that is
  -- missing.
  unfoldable pub seed_products : Config → ℕ → List Product → Action (World Peer Rng) (List Product)
  seed_products cfg zero products = pure products
  seed_products cfg (suc missing) products = do
    p ← create_product_once cfg
    seed_products cfg missing (products ++ p ∷ [])

  unfoldable pub ensure_products : Config → Action (World Peer Rng) (List Product)
  ensure_products cfg = do
    products ← fetch_products cfg.inventory_url
    seed_products cfg (pos_part cfg.seed_products - length products) products
