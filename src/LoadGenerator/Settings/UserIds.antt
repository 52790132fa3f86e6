-- ===== src/LoadGenerator/Settings/UserIds.antt =====
-- `parseUserIDs` of cmd/load-generator/main.go reads what it is meant to read.
use micro_market.Base.{
  append-nil, append_assoc, length, All, ℕ, ◌^◌, ◌<◌, ◌≡◌, refl, sym, ap, subst, ◌∙◌, false, List,
  [], ◌∷◌, ◌++◌, map, arith,
}
use micro_market.Base.Text.{decimal}
use micro_market.Base.Strconv.{
  syntax_error, range_error, Parsed, split, codes, number, scan_uint, is_space, trim_left,
  trim_right, trim_space,
}
use micro_market.Base.Strconv.Decimal.{decimal-cons, IsDigits, decimal-IsDigits}
use micro_market.Base.Strconv.Parts.{
  digit-not-space, join, split-join, trim_space-digits, scan_uint-decimal,
}
use micro_market.Base.Strconv.Bounds.{scan_uint-bound}
use micro_market.LoadGenerator.Settings.{user_ids, parse_parts, parse_user_ids}

-- The keys as texts.
abbrev pub texts : List ℕ → List (List ℕ)
texts ids = map (λ n. codes (decimal n)) ids

texts-IsDigits : (ids : List ℕ) → All IsDigits (texts ids)
texts-IsDigits [] = tt
texts-IsDigits (i ∷ is) = (decimal-IsDigits i, texts-IsDigits is)

-- A part that is a key adds it.
parse_part :
    (n : ℕ) (parts : List (List ℕ)) (ids : List ℕ)
    → n < 2 ^ 64
    → parse_parts (codes (decimal n) ∷ parts) ids ≡ parse_parts parts (ids ++ n ∷ [])
unfolding parse_parts
parse_part n parts ids h =
    let (c, cs, e) = decimal-cons n in
    let t = trim_space-digits (codes (decimal n)) (decimal-IsDigits n) in
    let s = scan_uint-decimal n h in
    let t' : trim_space (codes (decimal n)) ≡ c ∷ cs = t ∙ e in
    let s' : scan_uint (c ∷ cs) ≡ number n = ap scan_uint (sym e) ∙ s in ground arith

parse_parts-texts :
    (ids before : List ℕ)
    → All (λ n. n < 2 ^ 64) ids
    → parse_parts (texts ids) before ≡ parse_parts [] (before ++ ids)
parse_parts-texts [] before h = ap (parse_parts []) (sym (append-nil before))
parse_parts-texts (i ∷ is) before h =
    parse_part i (texts is) before h.0
    ∙ parse_parts-texts is (before ++ i ∷ []) h.1
    ∙ ap (parse_parts []) (append_assoc before (i ∷ []) is)

join-cons :
    (c : ℕ) (cs : List ℕ) (ss : List (List ℕ)) → (rest : List ℕ) × (join ((c ∷ cs) ∷ ss) ≡ c ∷ rest)
unfolding join
join-cons c cs [] = (cs, refl)
join-cons c cs (t ∷ ts) = (cs ++ 44 ∷ join (t ∷ ts), refl)

-- A text that is not only spaces.
trim_space-cons :
    (c : ℕ) (cs : List ℕ) → is_space c ≡ false → (rest : List ℕ) × (trim_space (c ∷ cs) ≡ c ∷ rest)
unfolding trim_space trim_left trim_right
trim_space-cons c cs h = go (trim_right cs) refl
  where
    go : (r : List ℕ) → trim_right cs ≡ r → (rest : List ℕ) × (trim_space (c ∷ cs) ≡ c ∷ rest)
    go [] e = ([], ground arith)
    go (x ∷ xs) e = (x ∷ xs, ground arith)

parsed : (i : ℕ) (is : List ℕ) → parse_parts [] (i ∷ is) ≡ user_ids (i ∷ is)
unfolding parse_parts
parsed i is = refl

-- The keys of one user or more, each below 2 ^ 64, printed in decimal with commas between them
-- are read as those keys, in that order.
pub parse_user_ids-join :
    (i : ℕ) (is : List ℕ)
    → All (λ n. n < 2 ^ 64) (i ∷ is)
    → parse_user_ids (join (texts (i ∷ is))) ≡ user_ids (i ∷ is)
unfolding parse_user_ids
parse_user_ids-join i is h =
    let (c, cs, e) = decimal-cons i in
    let d : IsDigits (c ∷ cs) = subst IsDigits e (decimal-IsDigits i) in
    let (rest, f) = join-cons c cs (texts is) in
    let f' : join (texts (i ∷ is)) ≡ c ∷ rest = ap (λ s. join (s ∷ texts is)) e ∙ f in
    let (rest', g) = trim_space-cons c rest (digit-not-space c d.0) in
    let g' : trim_space (join (texts (i ∷ is))) ≡ c ∷ rest' = ap trim_space f' ∙ g in
    let k =
      ap (λ p. parse_parts p [])
        (split-join (codes (decimal i)) (texts is) (texts-IsDigits (i ∷ is)))
      ∙ parse_parts-texts (i ∷ is) [] h in
    ground (arith, parsed i is)

All-snoc :
    (is : List ℕ) (m : ℕ)
    → All (λ n. n < 2 ^ 64) is
    → m < 2 ^ 64
    → All (λ n. n < 2 ^ 64) (is ++ m ∷ [])
All-snoc [] m a h = (h, tt)
All-snoc (i ∷ is) m a h = (a.0, All-snoc is m a.1 h)

parse_parts-bound :
    (parts : List (List ℕ)) (before ids : List ℕ)
    → All (λ n. n < 2 ^ 64) before
    → parse_parts parts before ≡ user_ids ids
    → (0 < length ids) × All (λ n. n < 2 ^ 64) ids
unfolding parse_parts
parse_parts-bound [] [] ids a e = cc
parse_parts-bound [] (b ∷ bs) ids a e =
    let same : b ∷ bs ≡ ids = cc in
    subst (λ l. (0 < length l) × All (λ n. n < 2 ^ 64) l) same (omega arith, a)
parse_parts-bound (part ∷ parts) before ids a e =
    at_part (parse_parts-bound parts before ids a)
      (λ m h. parse_parts-bound parts (before ++ m ∷ []) ids (All-snoc before m a h))
      (trim_space part) refl
  where
    at_part :
        (parse_parts parts before ≡ user_ids ids → (0 < length ids) × All (λ n. n < 2 ^ 64) ids)
        → ((m : ℕ)
            → m < 2 ^ 64
            → parse_parts parts (before ++ m ∷ []) ≡ user_ids ids
            → (0 < length ids) × All (λ n. n < 2 ^ 64) ids)
        → (s : List ℕ) → trim_space part ≡ s
        → (0 < length ids) × All (λ n. n < 2 ^ 64) ids
    at_part skip more [] k = skip (ground arith)
    at_part skip more (c ∷ cs) k = at_number (scan_uint (c ∷ cs)) refl
      where
        at_number :
            (p : Parsed) → scan_uint (c ∷ cs) ≡ p → (0 < length ids) × All (λ n. n < 2 ^ 64) ids
        at_number (number m) q = more m (scan_uint-bound m (c ∷ cs) q) (ground arith)
        at_number syntax_error q = absurd (ground arith)
        at_number range_error q = absurd (ground arith)

-- Where `parseUserIDs` returns keys there is one at least, and each is below 2 ^ 64.
pub parse_user_ids-bound :
    (v ids : List ℕ)
    → parse_user_ids v ≡ user_ids ids
    → (0 < length ids) × All (λ n. n < 2 ^ 64) ids
unfolding parse_user_ids
parse_user_ids-bound v ids e = go (trim_space v) refl
  where
    go : (s : List ℕ) → trim_space v ≡ s → (0 < length ids) × All (λ n. n < 2 ^ 64) ids
    go [] k = cc
    go (c ∷ cs) k = parse_parts-bound (split 44 v) [] ids tt (ground arith)
