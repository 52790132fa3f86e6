-- ===== src/LoadGenerator/Settings.antt =====
-- The settings of cmd/load-generator/main.go: flags with defaults from the environment. A text is
-- the list of its characters' numbers.
pub mod UserIds
use micro_market.Base.{
  ltb, leb, ◌==◌, if◌then◌else◌, ℕ, ◌^◌, String, ◌⊎◌, inl, inr, ◌||◌, Option, none, some, List, [],
  ◌∷◌, ◌++◌,
}
use micro_market.Base.Int.{ℤ, pos, ◌-ℤ◌, ltb_ℤ}
use micro_market.Base.Strconv.{number, scan_uint, trim_space, split}

pub record Config : Type 0 where
  pub checkout_url : String
  pub inventory_url : String
  pub duration : ℤ
  pub interval : ℤ
  pub concurrency : ℤ
  pub seed_products : ℤ
  pub user_ids : List ℕ

-- `fmt.Sscanf(s, "%d", &n)` for an `int`: a sign, then digits.
unfoldable pub scan_int : List ℕ → Option ℤ
unfolding scan_uint
scan_int [] = none
scan_int (c ∷ cs) =
    let negative = c == 45 in
    let p = scan_uint (if negative || c == 43 then cs else c ∷ cs) in
    elim p [
      | number n ↦
          if negative
          then (if leb n (2 ^ 63) then some (pos 0 -ℤ pos n) else none)
          else (if ltb n (2 ^ 63) then some (pos n) else none)
      | _ ↦ none
    ]

-- `envOr` and `envOrInt`, over `os.Getenv`.
unfoldable pub env_or : (String → List ℕ) → String → List ℕ → List ℕ
env_or getenv key def = elim (trim_space (getenv key)) [ [] ↦ def | c ∷ cs ↦ c ∷ cs ]

unfoldable pub env_or_int : (String → List ℕ) → String → ℤ → ℤ
unfolding scan_int
env_or_int getenv key def = elim (trim_space (getenv key)) [
  | [] ↦ def
  | c ∷ cs ↦ elim (scan_int (c ∷ cs)) [ none ↦ def | some n ↦ n ]
]

-- What `parseUserIDs` returns: the keys, or the error that there is none, or a part that is none.
pub data UserIdsResult : Type 0 where
  user_ids : List ℕ → UserIdsResult
  required : UserIdsResult
  invalid : List ℕ → UserIdsResult

-- The loop over the parts, with the keys found so far.
unfoldable pub parse_parts : List (List ℕ) → List ℕ → UserIdsResult
unfolding scan_uint trim_space
parse_parts [] [] = required
parse_parts [] (i ∷ is) = user_ids (i ∷ is)
parse_parts (part ∷ parts) ids = elim (trim_space part) [
  | [] ↦ parse_parts parts ids
  | c ∷ cs ↦ elim (scan_uint (c ∷ cs)) [
    | number id ↦ parse_parts parts (ids ++ id ∷ [])
    | _ ↦ invalid (c ∷ cs)
  ]
]

unfoldable pub parse_user_ids : List ℕ → UserIdsResult
parse_user_ids v = elim (trim_space v) [ [] ↦ required | c ∷ cs ↦ parse_parts (split 44 v) [] ]

-- `if cfg.Concurrency < 1 { cfg.Concurrency = 1 }`, and the keys of the users: the settings that
-- `main` runs with, unless it fails.
unfoldable pub settle : Config → List ℕ → Config ⊎ UserIdsResult
settle flags users =
    let concurrency = if ltb_ℤ flags.concurrency (pos 1) then pos 1 else flags.concurrency in
    elim (parse_user_ids users) [
      | user_ids ids ↦ inl (record flags { concurrency = concurrency; user_ids = ids })
      | e ↦ inr e
    ]
