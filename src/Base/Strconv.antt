-- ===== src/Base/Strconv.antt =====
-- Texts as lists of their characters' numbers, and what the code takes from strconv, strings and
-- fmt to read numbers and lists of them.
pub mod Decimal
pub mod Parts
pub mod Bounds
use Prim.Native.Nat.{ℕ, zero, suc, ◌+◌, ◌-◌, ◌*◌, ◌^◌}
use Prim.Native.Char.{code}
use Prim.Native.String
use Prim.Native.String.{String}
use mathlib.Core.Path.{◌≡◌, refl}
use mathlib.Core.Bool.{Bool, true, false, ◌&&◌, ◌||◌}
use mathlib.Core.List.{List, [], ◌∷◌, ◌++◌}
use micro_market.Base.Tests.{ltb, leb, ◌==◌, if◌then◌else◌}

unfoldable pub codes : String → List ℕ
codes String.[] = []
codes (String.◌∷◌ c s) = code c ∷ codes s

abbrev pub is_digit : ℕ → Bool
is_digit c = leb 48 c && leb c 57

-- A number, or why there is none.
pub data Parsed : Type 0 where
  number : ℕ → Parsed
  syntax_error : Parsed
  range_error : Parsed

-- The digits behind those that made `n`: the first that is none, or that leads past 64 bits, ends
-- it.
unfoldable pub parse_digits : ℕ → List ℕ → Parsed
parse_digits n [] = number n
parse_digits n (c ∷ cs) =
    let n' = n * 10 + (c - 48) in
    let rest = parse_digits n' cs in
    if is_digit c then (if ltb n' (2 ^ 64) then rest else range_error) else syntax_error

-- `strconv.ParseUint(s, 10, 64)`
unfoldable pub parse_uint : List ℕ → Parsed
parse_uint [] = syntax_error
parse_uint (c ∷ cs) = parse_digits 0 (c ∷ cs)

-- The digits at the front.
unfoldable pub leading_digits : List ℕ → List ℕ
leading_digits [] = []
leading_digits (c ∷ cs) = let rest = leading_digits cs in if is_digit c then c ∷ rest else []

-- `fmt.Sscanf(s, "%d", &id)` for a `uint`, where `s` does not begin with a space: the digits at
-- the front count, and what follows them is left unread.
unfoldable pub scan_uint : List ℕ → Parsed
unfolding leading_digits parse_uint
scan_uint s = parse_uint (leading_digits s)

-- `unicode.IsSpace`
abbrev pub is_space : ℕ → Bool
is_space c =
    leb 9 c && leb c 13
    || c == 32
    || c == 0x85
    || c == 0xA0
    || c == 0x1680
    || leb 0x2000 c && leb c 0x200A
    || c == 0x2028
    || c == 0x2029
    || c == 0x202F
    || c == 0x205F
    || c == 0x3000

unfoldable pub trim_left : List ℕ → List ℕ
trim_left [] = []
trim_left (c ∷ cs) = let rest = trim_left cs in if is_space c then rest else c ∷ cs

-- The text without the spaces behind it.
unfoldable pub trim_right : List ℕ → List ℕ
trim_right [] = []
trim_right (c ∷ cs) =
    let rest = trim_right cs in
    elim rest [ [] ↦ if is_space c then [] else c ∷ [] | x ∷ xs ↦ c ∷ x ∷ xs ]

-- `strings.TrimSpace`
unfoldable pub trim_space : List ℕ → List ℕ
unfolding trim_left trim_right
trim_space s = trim_right (trim_left s)

-- A character before the first part.
abbrev pub onto_first : ℕ → List (List ℕ) → List (List ℕ)
onto_first c [] = (c ∷ []) ∷ []
onto_first c (p ∷ ps) = (c ∷ p) ∷ ps

-- `strings.Split(s, sep)`, for a separator of one character: never empty.
unfoldable pub split : ℕ → List ℕ → List (List ℕ)
split sep [] = [] ∷ []
split sep (c ∷ cs) = let rest = split sep cs in if c == sep then [] ∷ rest else onto_first c rest

reads : parse_uint (codes "18446744073709551615") ≡ number 18446744073709551615
unfolding parse_uint parse_digits codes
reads = refl

overflows : parse_uint (codes "18446744073709551616") ≡ range_error
unfolding parse_uint parse_digits codes
overflows = refl

scans : scan_uint (trim_space (codes " 12abc ")) ≡ number 12
unfolding scan_uint parse_digits codes trim_space
scans = refl

splits : split 44 (codes "1,,2") ≡ codes "1" ∷ [] ∷ codes "2" ∷ []
unfolding split codes
splits = refl
