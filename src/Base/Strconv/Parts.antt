-- ===== src/Base/Strconv/Parts.antt =====
-- Numbers with commas between them are split at the commas and read back.
use Prim.Native.Nat.{ℕ, ◌<◌, ◌^◌}
use mathlib.Core.Path.{◌≡◌, refl, ap, ◌∙◌}
use mathlib.Core.Bool.{true, false}
use mathlib.Core.List.{List, [], ◌∷◌, ◌++◌}
use native.Mathlib.Omega.{arith}
use micro_market.Base.Lists.{All}
use micro_market.Base.Text.{decimal}
use micro_market.Base.Strconv.{
  codes, is_digit, number, parse_uint, leading_digits, scan_uint, is_space, trim_left, trim_right,
  trim_space, split,
}
use micro_market.Base.Strconv.Decimal.{parse_uint-decimal, IsDigits, decimal-IsDigits}

-- The parts with commas between them.
unfoldable pub join : List (List ℕ) → List ℕ
join [] = []
join (s ∷ []) = s
join (s ∷ t ∷ rest) = s ++ 44 ∷ join (t ∷ rest)

split-digits : (s rest : List ℕ) → IsDigits s → split 44 (s ++ 44 ∷ rest) ≡ s ∷ split 44 rest
unfolding split
split-digits [] rest h = refl
split-digits (c ∷ cs) rest h = ground (arith, split-digits cs rest h.1)

split-digits_all : (s : List ℕ) → IsDigits s → split 44 s ≡ s ∷ []
unfolding split
split-digits_all [] h = refl
split-digits_all (c ∷ cs) h = ground (arith, split-digits_all cs h.1)

-- Parts of digits are split where they were joined.
pub split-join :
    (s : List ℕ) (ss : List (List ℕ)) → All IsDigits (s ∷ ss) → split 44 (join (s ∷ ss)) ≡ s ∷ ss
unfolding join
split-join s [] h = split-digits_all s h.0
split-join s (t ∷ ss) h = split-digits s (join (t ∷ ss)) h.0 ∙ ap (λ l. s ∷ l) (split-join t ss h.1)

leading_digits-all : (s : List ℕ) → IsDigits s → leading_digits s ≡ s
unfolding leading_digits
leading_digits-all [] h = refl
leading_digits-all (c ∷ cs) h = ground (arith, leading_digits-all cs h.1)

pub digit-not-space : (c : ℕ) → is_digit c ≡ true → is_space c ≡ false
digit-not-space c h = ground arith

trim_right-digits : (s : List ℕ) → IsDigits s → trim_right s ≡ s
unfolding trim_right
trim_right-digits [] h = refl
trim_right-digits (c ∷ cs) h = ground (arith, trim_right-digits cs h.1, digit-not-space c h.0)

pub trim_space-digits : (s : List ℕ) → IsDigits s → trim_space s ≡ s
unfolding trim_space trim_left
trim_space-digits [] h = refl
trim_space-digits (c ∷ cs) h = rw (digit-not-space c h.0) (trim_right-digits (c ∷ cs) h)

pub scan_uint-decimal : (n : ℕ) → n < 2 ^ 64 → scan_uint (codes (decimal n)) ≡ number n
unfolding scan_uint
scan_uint-decimal n h =
    ap parse_uint (leading_digits-all (codes (decimal n)) (decimal-IsDigits n))
    ∙ parse_uint-decimal n h
