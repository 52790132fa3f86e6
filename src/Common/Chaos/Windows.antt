-- ===== src/Common/Chaos/Windows.antt =====
-- How often `MaybeError` of common/chaos.go injects a fault: in a window of twenty requests.
use micro_market.Base.{
  ◌==◌, ◌||◌, leb, true, inr, Bool, inl, Bool-cases, eq_refl, Option, length, All, if◌then◌else◌, ℕ,
  zero, suc, ◌+◌, ◌≤◌, ◌<◌, String, ◌≡◌, refl, ap, ◌∙◌, false, none, some, List, [], ◌∷◌, map,
  arith,
}
use micro_market.Common.Chaos.{
  build_fail_set, injected_error, Error, ChaosState, ChaosStates, Random, lookup, insert, mem, take,
  open_window, maybe_error,
}

-- No number twice.
abbrev pub Distinct : List ℕ → Type 0
Distinct [] = Unit {0}
Distinct (x ∷ xs) = (mem x xs ≡ false) × Distinct xs

-- How many of the `n` numbers behind `k` are in the list.
abbrev hits : ℕ → ℕ → List ℕ → ℕ
hits zero k s = 0
hits (suc n) k s = (if mem (k + 1) s then 1 else 0) + hits n (k + 1) s

hits-[] : (n k : ℕ) → hits n k [] ≡ 0
hits-[] zero k = refl
hits-[] (suc n) k = ground (arith, hits-[] n (k + 1))

-- A number that is not behind `k`, or is behind the last, is no hit.
hits_before : (n k x : ℕ) (s : List ℕ) → x ≤ k → hits n k (x ∷ s) ≡ hits n k s
hits_before zero k x s h = refl
hits_before (suc n) k x s h = ground (arith, hits_before n (k + 1) x s)

hits-∷ :
    (n k x : ℕ) (s : List ℕ)
    → mem x s ≡ false
    → k < x
    → x ≤ k + n
    → hits n k (x ∷ s) ≡ suc (hits n k s)
hits-∷ zero k x s e h l = absurd (omega arith)
hits-∷ (suc n) k x s e h l = ground (arith, hits_before n (k + 1) x s, hits-∷ n (k + 1) x s e)

-- A list of different numbers, all of them of the `n` behind `k`, is hit at each.
hits-length :
    (n k : ℕ) (s : List ℕ) → Distinct s → All (λ x. (k < x) × (x ≤ k + n)) s → hits n k s ≡ length s
hits-length n k [] d a = hits-[] n k
hits-length n k (x ∷ xs) d a = hits-∷ n k x xs d.0 a.0.0 a.0.1 ∙ ap suc (hits-length n k xs d.1 a.1)

-- The first of the positions, each one more.
abbrev shifted : List ℕ → List ℕ
shifted xs = map (λ pos. pos + 1) xs

mem-shifted : (x : ℕ) (xs : List ℕ) → mem (x + 1) (shifted xs) ≡ mem x xs
mem-shifted x [] = refl
mem-shifted x (y ∷ ys) = ground (arith, mem-shifted x ys)

mem-take : (n x : ℕ) (xs : List ℕ) → mem x xs ≡ false → mem x (take n xs) ≡ false
mem-take zero x xs e = refl
mem-take (suc n) x [] e = refl
mem-take (suc n) x (y ∷ ys) e = ground (arith, mem-take n x ys)

shifted-take-Distinct : (n : ℕ) (xs : List ℕ) → Distinct xs → Distinct (shifted (take n xs))
shifted-take-Distinct zero xs d = tt
shifted-take-Distinct (suc n) [] d = tt
shifted-take-Distinct (suc n) (x ∷ xs) d =
    (mem-shifted x (take n xs) ∙ mem-take n x xs d.0, shifted-take-Distinct n xs d.1)

shifted-take-All :
    (n m : ℕ) (xs : List ℕ)
    → All (λ x. x < m) xs
    → All (λ x. (0 < x) × (x ≤ 0 + m)) (shifted (take n xs))
shifted-take-All zero m xs a = tt
shifted-take-All (suc n) m [] a = tt
shifted-take-All (suc n) m (x ∷ xs) a =
    ((omega (arith, a.0), omega (arith, a.0)), shifted-take-All n m xs a.1)

length-shifted-take : (n : ℕ) (xs : List ℕ) → n ≤ length xs → length (shifted (take n xs)) ≡ n
length-shifted-take zero xs h = refl
length-shifted-take (suc n) [] h = absurd (omega arith)
length-shifted-take (suc n) (x ∷ xs) h = ap suc (length-shifted-take n xs (omega arith))

lookup-insert : (k : String) (s : ChaosState) (m : ChaosStates) → lookup k (insert k s m) ≡ s
lookup-insert k s [] = ground (arith, eq_refl k)
lookup-insert k s ((j, t) ∷ m) = ground (arith, eq_refl k, lookup-insert k s m)

module _ {Rng : Type 0} (random : Random Rng) where
  -- What math/rand documents of `Intn`, and of `Perm` for the length of a window.
  pub record IsRandom : Type 0 where
    pub intn : (n : ℕ) (r : Rng) → 0 < n → (random.intn n r).0 < n
    pub perm_length : (r : Rng) → length (random.perm 20 r).0 ≡ 20
    pub perm_lt : (r : Rng) → All (λ x. x < 20) (random.perm 20 r).0
    pub perm_Distinct : (r : Rng) → Distinct (random.perm 20 r).0

  -- The faults among `n` calls in a row.
  pub faults : String → ℕ → ChaosStates × Rng → ℕ
  faults key zero s = 0
  faults key (suc n) s =
      let (e, m, r) = maybe_error random key s in
      let more = faults key n (m, r) in elim e [ none ↦ more | some _ ↦ suc more ]

  -- The state of a window of twenty, that `k` requests have used and that fails at `s`.
  abbrev window : ℕ → List ℕ → ChaosState
  window k s = record { requests = k; fail_at = s; window_end = 20 }

  abbrev is_some : Option Error → Bool
  is_some none = false
  is_some (some e) = true

  -- A call in a window fails where the window does, and uses one request of it.
  call_lem :
      (key : String) (m : ChaosStates) (r r1 : Rng) (k : ℕ) (s : List ℕ)
      → open_window random (lookup key m) r ≡ (window k s, r1)
      → (e : Option Error) × (r' : Rng) × (maybe_error random key (m, r)
          ≡ (e, insert key (window (k + 1) s) m, r'))
        × (is_some e ≡ mem (k + 1) s)
  unfolding maybe_error
  call_lem key m r r1 k s h =
      let (e, r2) = injected_error random r1 in
      elim (Bool-cases (mem (k + 1) s)) [
        | inl hit ↦ (
          some (injected_error random r1).0,
          (injected_error random r1).1,
          ground arith,
          ground arith,
        )
        | inr miss ↦ (none, r1, ground arith, ground arith)
      ]

  stays_open :
      (s : List ℕ) (k : ℕ) (r : Rng) → k < 20 → open_window random (window k s) r ≡ (window k s, r)
  unfolding open_window
  stays_open s k r h = ground arith

  -- A call, and the calls behind it, whose faults are known.
  faults_step :
      (key : String) (n k : ℕ) (s : List ℕ) (m : ChaosStates) (r r1 : Rng)
      → open_window random (lookup key m) r ≡ (window k s, r1)
      → ((m' : ChaosStates) (r' : Rng)
          → lookup key m' ≡ window (k + 1) s
          → faults key n (m', r') ≡ hits n (k + 1) s)
      → faults key (suc n) (m, r) ≡ hits (suc n) k s
  unfolding faults
  faults_step key n k s m r r1 h rest = let (x, r', f, g) = call_lem key m r r1 k s h in go x r' f g
    where
      go :
          (x : Option Error) (r' : Rng)
          → maybe_error random key (m, r) ≡ (x, insert key (window (k + 1) s) m, r')
          → is_some x ≡ mem (k + 1) s
          → faults key (suc n) (m, r) ≡ hits (suc n) k s
      go none r' f g =
          let more =
            rest (insert key (window (k + 1) s) m) r' (lookup-insert key (window (k + 1) s) m) in
          ground arith
      go (some e) r' f g =
          let more =
            rest (insert key (window (k + 1) s) m) r' (lookup-insert key (window (k + 1) s) m) in
          ground arith

  -- The calls that are left in a window.
  faults-hits :
      (key : String) (n k : ℕ) (s : List ℕ) (m : ChaosStates) (r : Rng)
      → lookup key m ≡ window k s
      → k + n ≤ 20
      → faults key n (m, r) ≡ hits n k s
  unfolding faults
  faults-hits key zero k s m r e h = refl
  faults-hits key (suc n) k s m r e h =
      faults_step key n k s m r r (rw e (stays_open s k r (omega arith)))
        (λ m' r' e'. faults-hits key n (k + 1) s m' r' e' (omega arith))

  -- The set of a new window: two to five of its twenty places.
  pub record IsFailSet (s : List ℕ) : Type 0 where
    pub distinct : Distinct s
    pub places : All (λ x. (0 < x) × (x ≤ 0 + 20)) s
    pub low : 2 ≤ length s
    pub high : length s ≤ 5

  build_fail_set-IsFailSet : IsRandom → (r : Rng) → IsFailSet (build_fail_set random r).0
  unfolding build_fail_set
  build_fail_set-IsFailSet rand r =
      let n = (random.intn 4 r).0 in
      let r1 = (random.intn 4 r).1 in
      let small = rand.intn 4 r (omega arith) in
      let size =
        length-shifted-take (2 + n) (random.perm 20 r1).0
          (rw (rand.perm_length r1) (omega (arith, small))) in
      record {
        distinct = shifted-take-Distinct (2 + n) (random.perm 20 r1).0 (rand.perm_Distinct r1);
        places = shifted-take-All (2 + n) 20 (random.perm 20 r1).0 (rand.perm_lt r1);
        low = omega (arith, size);
        high = omega (arith, size, small);
      }

  opens :
      (s : ChaosState) (r : Rng)
      → (s.window_end == 0 || leb s.window_end s.requests) ≡ true
      → open_window random s r ≡ (window 0 (build_fail_set random r).0, (build_fail_set random r).1)
  unfolding open_window
  opens s r h = ground arith

  -- Over a generator that keeps what math/rand documents, two to five of the twenty calls that
  -- begin with a new window return an injected fault.
  pub faults-open_window :
      IsRandom
      → (key : String) (m : ChaosStates) (r : Rng)
      → ((lookup key m).window_end == 0 || leb (lookup key m).window_end (lookup key m).requests)
        ≡ true
      → (2 ≤ faults key 20 (m, r)) × (faults key 20 (m, r) ≤ 5)
  faults-open_window rand key m r h =
      let s = (build_fail_set random r).0 in
      let set = build_fail_set-IsFailSet rand r in
      let total =
        faults_step key 19 0 s m r (build_fail_set random r).1 (opens (lookup key m) r h)
          (λ m' r' e. faults-hits key 19 1 s m' r' e (omega arith))
        ∙ hits-length 20 0 s set.distinct set.places in
      (omega (arith, total, set.low), omega (arith, total, set.high))
