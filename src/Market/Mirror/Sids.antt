-- ===== src/Market/Mirror/Sids.antt =====
-- The identifiers of the rows of a table, when a row is added, changed or taken out by its key.
use micro_market.Base.{
  find?, keep, change_where, UniqueKeys, ◌==◌, if◌then◌else◌, Bool-cases, ℕ, String, ◌≡◌, refl, sym,
  ap, subst, ◌∙◌, inl, inr, Bool, true, false, not, ◌||◌, none, some, List, [], ◌∷◌, ◌++◌, map,
  arith, str_eq, eq_iff, eq_refl,
}

abbrev pub is_in : String → List String → Bool
is_in s [] = false
is_in s (t ∷ ts) = str_eq t s || is_in s ts

abbrev pub Distinct : List String → Type 0
Distinct [] = Unit
Distinct (s ∷ ss) = (is_in s ss ≡ false) × Distinct ss

abbrev pub remove : String → List String → List String
remove s [] = []
remove s (t ∷ ts) = let rest = remove s ts in if str_eq t s then rest else t ∷ rest

remove_absent : (s : String) (ss : List String) → is_in s ss ≡ false → remove s ss ≡ ss
remove_absent s [] h = refl
remove_absent s (t ∷ ts) h = ground (arith, remove_absent s ts)

is_in-remove :
    (r s : String) (ss : List String) → is_in r ss ≡ false → is_in r (remove s ss) ≡ false
is_in-remove r s [] h = refl
is_in-remove r s (t ∷ ts) h = ground (arith, is_in-remove r s ts)

pub remove-Distinct : (s : String) (ss : List String) → Distinct ss → Distinct (remove s ss)
remove-Distinct s [] d = tt
remove-Distinct s (t ∷ ts) d = elim (Bool-cases (str_eq t s)) [
  | inl e ↦ subst Distinct (ground arith) (remove-Distinct s ts d.1)
  | inr e ↦
      subst Distinct {x = t ∷ remove s ts} (ground arith)
        (is_in-remove t s ts d.0, remove-Distinct s ts d.1)
]

str_eq_sym : (s t : String) → str_eq s t ≡ false → str_eq t s ≡ false
str_eq_sym s t h = elim (Bool-cases (str_eq t s)) [
  | inl e ↦
      let k : str_eq s t ≡ true =
        subst (λ x. str_eq s x ≡ true) (sym ((eq_iff t s).0 e)) (eq_refl s) in
      absurd (cc)
  | inr e ↦ e
]

is_in-append :
    (r s : String) (ss : List String)
    → is_in r ss ≡ false
    → str_eq s r ≡ false
    → is_in r (ss ++ s ∷ []) ≡ false
is_in-append r s [] h k = ground arith
is_in-append r s (t ∷ ts) h k = ground (arith, is_in-append r s ts)

pub append-Distinct :
    (s : String) (ss : List String) → Distinct ss → is_in s ss ≡ false → Distinct (ss ++ s ∷ [])
append-Distinct s [] d h = (refl, tt)
append-Distinct s (t ∷ ts) d h = (
  is_in-append t s ts d.0 (str_eq_sym t s (ground arith)),
  append-Distinct s ts d.1 (ground arith),
)

module _ {Row : Type 0} (key : Row → ℕ) (sid : Row → String) where
  -- No row has an identifier that is not found.
  pub is_in-sids :
      (s : String) (rows : List Row)
      → find? (λ r. str_eq (sid r) s) rows ≡ none
      → is_in s (map sid rows) ≡ false
  is_in-sids s [] h = refl
  is_in-sids s (r ∷ rs) h = ground (arith, is_in-sids s rs)

  -- A row that is found passes the test, and no test that no row passes.
  pub find?-passes :
      (p : Row → Bool) (x : Row) (rows : List Row) → find? p rows ≡ some x → p x ≡ true
  find?-passes p x [] f = cc
  find?-passes p x (r ∷ rs) f = elim (Bool-cases (p r)) [
    | inl e ↦ let same : r ≡ x = ground arith in ap p (sym same) ∙ e
    | inr e ↦ find?-passes p x rs (ground arith)
  ]

  find?-none :
      (p q : Row → Bool) (x : Row) (rows : List Row)
      → find? p rows ≡ some x
      → find? q rows ≡ none
      → q x ≡ false
  find?-none p q x [] f n = cc
  find?-none p q x (r ∷ rs) f n = elim (Bool-cases (p r)) [
    | inl e ↦ let same : r ≡ x = ground arith in ap q (sym same) ∙ ground arith
    | inr e ↦ find?-none p q x rs (ground arith) (ground arith)
  ]

  find?-sid :
      (p : Row → Bool) (s : String) (x : Row) (rows : List Row)
      → find? p rows ≡ some x
      → is_in s (map sid rows) ≡ false
      → str_eq (sid x) s ≡ false
  find?-sid p s x [] f n = cc
  find?-sid p s x (r ∷ rs) f n = elim (Bool-cases (p r)) [
    | inl e ↦
        let same : r ≡ x = ground arith in
        ap (λ (y : Row). str_eq (sid y) s) (sym same) ∙ ground arith
    | inr e ↦ find?-sid p s x rs (ground arith) (ground arith)
  ]

  -- A row is found by its key as well.
  pub find?-key :
      (p : Row → Bool) (x : Row) (rows : List Row)
      → UniqueKeys key rows
      → find? p rows ≡ some x
      → find? (λ r. key r == key x) rows ≡ some x
  find?-key p x [] u f = cc
  find?-key p x (r ∷ rs) u f = elim (Bool-cases (p r)) [
    | inl e ↦ let same : r ≡ x = ground arith in let k : key r ≡ key x = ap key same in ground arith
    | inr e ↦
        let k = find?-none p (λ y. key y == key r) x rs (ground arith) u.0 in
        ground (arith, find?-key p x rs u.1)
  ]

  keep-none :
      (k : ℕ) (rows : List Row)
      → find? (λ r. key r == k) rows ≡ none
      → keep (λ r. not (key r == k)) rows ≡ rows
  keep-none k [] h = refl
  keep-none k (r ∷ rs) h = ground (arith, keep-none k rs)

  change-none :
      (k : ℕ) (f : Row → Row) (rows : List Row)
      → find? (λ r. key r == k) rows ≡ none
      → change_where (λ r. key r == k) f rows ≡ rows
  change-none k f [] h = refl
  change-none k f (r ∷ rs) h = ground (arith, change-none k f rs)

  -- Taking a row out by its key takes out its identifier.
  pub sids-keep :
      (k : ℕ) (x : Row) (rows : List Row)
      → UniqueKeys key rows
      → Distinct (map sid rows)
      → find? (λ r. key r == k) rows ≡ some x
      → map sid (keep (λ r. not (key r == k)) rows) ≡ remove (sid x) (map sid rows)
  sids-keep k x [] u d f = cc
  sids-keep k x (r ∷ rs) u d f = elim (Bool-cases (key r == k)) [
    | inl e ↦
        let same : r ≡ x = ground arith in
        let k' : key r ≡ k = ground arith in
        let n = keep-none k rs (subst (λ j. find? (λ y. key y == j) rs ≡ none) k' u.0) in
        let m = remove_absent (sid r) (map sid rs) d.0 in
        let z = eq_refl (sid r) in let s : sid r ≡ sid x = ap sid same in ground arith
    | inr e ↦
        let a =
          str_eq_sym (sid x) (sid r)
            (find?-sid (λ y. key y == k) (sid r) x rs (ground arith) d.0) in
        ground (arith, sids-keep k x rs u.1 d.1)
  ]

  -- Changing a row by its key keeps the identifiers where it keeps the row's.
  pub sids-change :
      (k : ℕ) (f : Row → Row) (x : Row) (rows : List Row)
      → UniqueKeys key rows
      → find? (λ r. key r == k) rows ≡ some x
      → sid (f x) ≡ sid x
      → map sid (change_where (λ r. key r == k) f rows) ≡ map sid rows
  sids-change k f x [] u g s = cc
  sids-change k f x (r ∷ rs) u g s = elim (Bool-cases (key r == k)) [
    | inl e ↦
        let same : r ≡ x = ground arith in
        let k' : key r ≡ k = ground arith in
        let n = change-none k f rs (subst (λ j. find? (λ y. key y == j) rs ≡ none) k' u.0) in
        let s' : sid (f r) ≡ sid r = subst (λ (y : Row). sid (f y) ≡ sid y) (sym same) s in
        ground arith
    | inr e ↦ ground (arith, sids-change k f x rs u.1)
  ]
