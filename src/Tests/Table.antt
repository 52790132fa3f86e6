-- ===== src/Tests/Table.antt =====
-- A table in memory. A row's key is its place, counted from one; a deleted row leaves a gap.
use micro_market.Base.{
  length, find?, keep, All, change_where, UniqueKeys, ◌==◌, if◌then◌else◌, ℕ, suc, ◌+◌, ◌≤◌, ◌<◌,
  ◌≡◌, refl, ap, ◌∙◌, not, Option, none, some, List, [], ◌∷◌, ◌++◌, arith,
}

module _ {Row : Type 0} (key : Row → ℕ) (put : ℕ → Row → Row)
    (key-put : (n : ℕ) (r : Row) → key (put n r) ≡ n) where
  -- The rows that are there, behind the first `n` places.
  abbrev pub view : ℕ → List (Option Row) → List Row
  view n [] = []
  view n (none ∷ rs) = view (suc n) rs
  view n (some r ∷ rs) = put (suc n) r ∷ view (suc n) rs

  pub view-pos : (n : ℕ) (rs : List (Option Row)) → All (λ r. 0 < key r) (view n rs)
  view-pos n [] = tt
  view-pos n (none ∷ rs) = view-pos (suc n) rs
  view-pos n (some r ∷ rs) = (omega (arith, key-put (suc n) r), view-pos (suc n) rs)

  -- A place before the first is nobody's key.
  pub view-before :
      (n k : ℕ) (rs : List (Option Row)) → k ≤ n → find? (λ r. key r == k) (view n rs) ≡ none
  view-before n k [] h = refl
  view-before n k (none ∷ rs) h = view-before (suc n) k rs (omega arith)
  view-before n k (some r ∷ rs) h = ground (arith, key-put (suc n) r, view-before (suc n) k rs)

  pub view-UniqueKeys : (n : ℕ) (rs : List (Option Row)) → UniqueKeys key (view n rs)
  view-UniqueKeys n [] = tt
  view-UniqueKeys n (none ∷ rs) = view-UniqueKeys (suc n) rs
  view-UniqueKeys n (some r ∷ rs) = (
    rw (key-put (suc n) r) (view-before (suc n) (suc n) rs (omega arith)),
    view-UniqueKeys (suc n) rs,
  )

  -- Neither is a place behind the last.
  pub view-behind :
      (n k : ℕ) (rs : List (Option Row))
      → n + length rs < k
      → find? (λ r. key r == k) (view n rs) ≡ none
  view-behind n k [] h = refl
  view-behind n k (none ∷ rs) h = view-behind (suc n) k rs (omega arith)
  view-behind n k (some r ∷ rs) h = ground (arith, key-put (suc n) r, view-behind (suc n) k rs)

  pub view-append :
      (n : ℕ) (rs : List (Option Row)) (r : Row)
      → view n (rs ++ some r ∷ []) ≡ view n rs ++ put (suc (n + length rs)) r ∷ []
  view-append n [] r = ap (λ k. put (suc k) r ∷ []) (omega arith)
  view-append n (none ∷ rs) r =
      view-append (suc n) rs r ∙ ap (λ k. view (suc n) rs ++ put (suc k) r ∷ []) (omega arith)
  view-append n (some x ∷ rs) r =
      ap (λ l. put (suc n) x ∷ l)
        (view-append (suc n) rs r ∙ ap (λ k. view (suc n) rs ++ put (suc k) r ∷ []) (omega arith))

  -- The table with the row at one place replaced, or taken out.
  abbrev pub alter : ℕ → ℕ → (Row → Option Row) → List (Option Row) → List (Option Row)
  alter n k f [] = []
  alter n k f (none ∷ rs) = none ∷ alter (suc n) k f rs
  alter n k f (some r ∷ rs) =
      (if suc n == k then f (put (suc n) r) else some r) ∷ alter (suc n) k f rs

  pub view-alter :
      (n k : ℕ) (f : Row → Row) (rs : List (Option Row))
      → ((r : Row) → key r ≡ k → put k (f r) ≡ f r)
      → view n (alter n k (λ r. some (f r)) rs) ≡ change_where (λ r. key r == k) f (view n rs)
  view-alter n k f [] h = refl
  view-alter n k f (none ∷ rs) h = view-alter (suc n) k f rs h
  view-alter n k f (some r ∷ rs) h =
      ground (arith, view-alter (suc n) k f rs h, key-put (suc n) r, h (put (suc n) r))

  pub view-delete :
      (n k : ℕ) (rs : List (Option Row))
      → view n (alter n k (λ _. none) rs) ≡ keep (λ r. not (key r == k)) (view n rs)
  view-delete n k [] = refl
  view-delete n k (none ∷ rs) = view-delete (suc n) k rs
  view-delete n k (some r ∷ rs) = ground (arith, view-delete (suc n) k rs, key-put (suc n) r)
