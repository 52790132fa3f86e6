-- ===== src/Inventory/Rows.antt =====
-- Rows of the product table: looking one up by its key, and changing one.
use micro_market.Base.{
  find?, All, ◌==◌, if◌then◌else◌, Bool-cases, ℕ, ◌≡◌, inl, inr, Bool, some, List, [], ◌∷◌, arith,
}
use micro_market.Inventory.Model.{ProductModel}
use micro_market.Inventory.Contract.{has_id, change, UniqueIds, map_option}

-- A row that is found by any test is the one with its key.
pub find?-has_id :
    (test : ProductModel → Bool) (p : ProductModel) (ps : List ProductModel)
    → UniqueIds ps
    → find? test ps ≡ some p
    → find? (has_id p.id) ps ≡ some p
find?-has_id test p [] u e = cc
find?-has_id test p (x ∷ xs) u e = ground (arith, find?-has_id test p xs u.1)

-- What the changed table shows at each key.
pub find?-change :
    (id j : ℕ) (f : ProductModel → ProductModel) (ps : List ProductModel)
    → ((p : ProductModel) → (f p).id ≡ p.id)
    → find? (has_id j) (change id f ps)
      ≡ (if j == id then map_option f (find? (has_id j) ps) else find? (has_id j) ps)
find?-change id j f [] h = ground arith
find?-change id j f (x ∷ xs) h = ground (arith, find?-change id j f xs h, h x)

-- A property that the change keeps at its row holds of every row.
pub All-change {ℓ} :
    (P : ProductModel → Type ℓ) (id : ℕ) (f : ProductModel → ProductModel) (ps : List ProductModel)
    → UniqueIds ps
    → ((p : ProductModel) → find? (has_id id) ps ≡ some p → P (f p))
    → All P ps
    → All P (change id f ps)
All-change P id f [] u h a = tt
All-change P id f (x ∷ xs) u h a = elim (Bool-cases (x.id == id)) [
  | inl e ↦ (
    rw e (h x (ground arith)),
    All-change P id f xs u.1 (λ p k. absurd (ground (arith, k, u.0))) a.1,
  )
  | inr e ↦ (rw e a.0, All-change P id f xs u.1 (λ p k. h p (ground arith)) a.1)
]
