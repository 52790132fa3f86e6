-- ===== src/Base/Strconv/Decimal.antt =====
-- A number that is printed in decimal is read back.
use micro_market.Base.{ltb→lt, true, All, inr, inl, ltb, Bool-cases}
use text.Mathlib.TextLemmas.{nil-append, cons-append}
use Prim.Native.String
use Prim.Native.Char.{code}
use Prim.Native.String.{String}
use mathlib.Core.Path.{sym, ◌∙◌, ◌≡◌, refl, ap}
use mathlib.Core.List.{append-nil, append_assoc, List, [], ◌∷◌, ◌++◌}
use native.Mathlib.Omega.{arith}
use Prim.Native.Nat.{◌%◌, ◌/◌, ℕ, zero, suc, ◌+◌, ◌*◌, ◌^◌, ◌<◌}
use micro_market.Base.Text.{decimal, digit, digits}
use micro_market.Base.Strconv.{number, is_digit, parse_uint, codes, parse_digits}

pub codes-append : (s t : String) → codes (String.◌++◌ s t) ≡ codes s ++ codes t
unfolding codes
codes-append String.[] t = ap codes (nil-append t)
codes-append (String.◌∷◌ c s) t =
    ap codes (cons-append c s t) ∙ ap (λ l. code c ∷ l) (codes-append s t)

codes-digit : (n : ℕ) → n < 10 → codes (digit n) ≡ (n + 48) ∷ []
unfolding codes
codes-digit zero h = refl
codes-digit (suc zero) h = refl
codes-digit (suc (suc zero)) h = refl
codes-digit (suc (suc (suc zero))) h = refl
codes-digit (suc (suc (suc (suc zero)))) h = refl
codes-digit (suc (suc (suc (suc (suc zero))))) h = refl
codes-digit (suc (suc (suc (suc (suc (suc zero)))))) h = refl
codes-digit (suc (suc (suc (suc (suc (suc (suc zero))))))) h = refl
codes-digit (suc (suc (suc (suc (suc (suc (suc (suc zero)))))))) h = refl
codes-digit (suc (suc (suc (suc (suc (suc (suc (suc (suc zero))))))))) h = refl
codes-digit (suc (suc (suc (suc (suc (suc (suc (suc (suc (suc n)))))))))) h = absurd (omega arith)

-- The numbers that fit so many digits.
abbrev bound : ℕ → ℕ
bound zero = 1
bound (suc fuel) = 10 * bound fuel

parse_digit :
    (n m : ℕ) (rest : List ℕ)
    → m < 10
    → n * 10 + m < 2 ^ 64
    → parse_digits n ((m + 48) ∷ rest) ≡ parse_digits (n * 10 + m) rest
unfolding parse_digits
parse_digit n m rest h k = ground arith

parse_digits-digits :
    (fuel n : ℕ) (rest : List ℕ)
    → n < bound fuel
    → n < 2 ^ 64
    → parse_digits 0 (codes (digits fuel n) ++ rest) ≡ parse_digits n rest
unfolding digits codes
parse_digits-digits zero n rest h k = ap (λ m. parse_digits m rest) (omega arith)
parse_digits-digits (suc fuel) n rest h k = elim (Bool-cases (ltb n 10)) [
  | inl small ↦ rw small (
      rw (codes-digit n (ground arith)) (
        parse_digit 0 n rest (ground arith) (omega arith)
        ∙ ap (λ m. parse_digits m rest) (omega arith)))
  | inr large ↦ rw large (
      rw (codes-append (digits fuel (n / 10)) (digit (n % 10))) (
        rw (codes-digit (n % 10) (omega arith)) (
          rw (append_assoc (codes (digits fuel (n / 10))) ((n % 10 + 48) ∷ []) rest) (
            parse_digits-digits fuel (n / 10) ((n % 10 + 48) ∷ rest) (omega arith) (omega arith)
            ∙ parse_digit (n / 10) (n % 10) rest (omega arith) (omega arith)
            ∙ ap (λ m. parse_digits m rest) (omega arith)))))
]

-- The digits of a number, with anything behind them that is no digit, are read as that number.
pub parse_digits-decimal :
    (n : ℕ) (rest : List ℕ)
    → n < 2 ^ 64
    → parse_digits 0 (codes (decimal n) ++ rest) ≡ parse_digits n rest
unfolding decimal
parse_digits-decimal n rest h = parse_digits-digits 20 n rest (omega arith) h

-- A number's digits end with its last.
digits-snoc :
    (fuel n : ℕ) → (xs : List ℕ) × (codes (digits (suc fuel) n) ≡ xs ++ (n % 10 + 48) ∷ [])
unfolding digits
digits-snoc fuel n = elim (Bool-cases (ltb n 10)) [
  | inl small ↦ (
    [],
    rw small
        (codes-digit n (ground arith) ∙ ap (λ m. (m + 48) ∷ []) (omega (arith, ltb→lt n 10 small))),
  )
  | inr large ↦ (
    codes (digits fuel (n / 10)),
    rw large (
        codes-append (digits fuel (n / 10)) (digit (n % 10))
        ∙ ap (λ l. codes (digits fuel (n / 10)) ++ l) (codes-digit (n % 10) (omega arith))),
  )
]

parse_uint-snoc : (xs : List ℕ) (c : ℕ) → parse_uint (xs ++ c ∷ []) ≡ parse_digits 0 (xs ++ c ∷ [])
unfolding parse_uint
parse_uint-snoc [] c = refl
parse_uint-snoc (x ∷ xs) c = refl

-- Every 64-bit number that is printed in decimal is read back by `ParseUint`.
pub parse_uint-decimal : (n : ℕ) → n < 2 ^ 64 → parse_uint (codes (decimal n)) ≡ number n
unfolding decimal parse_digits
parse_uint-decimal n h =
    let (xs, e) = digits-snoc 19 n in
    ap parse_uint e
    ∙ parse_uint-snoc xs (n % 10 + 48)
    ∙ ap (parse_digits 0) (sym e ∙ sym (append-nil (codes (digits 20 n))))
    ∙ parse_digits-decimal n [] h

-- It has one digit at least.
pub decimal-cons : (n : ℕ) → (c : ℕ) × (cs : List ℕ) × (codes (decimal n) ≡ c ∷ cs)
unfolding decimal
decimal-cons n = let (xs, e) = digits-snoc 19 n in go xs e
  where
    go :
        (xs : List ℕ)
        → codes (digits 20 n) ≡ xs ++ (n % 10 + 48) ∷ []
        → (c : ℕ) × (cs : List ℕ) × (codes (digits 20 n) ≡ c ∷ cs)
    go [] e = (n % 10 + 48, [], e)
    go (x ∷ xs) e = (x, xs ++ (n % 10 + 48) ∷ [], e)

abbrev pub IsDigits : List ℕ → Type 0
IsDigits = All (λ c. is_digit c ≡ true)

All-append : (xs ys : List ℕ) → IsDigits xs → IsDigits ys → IsDigits (xs ++ ys)
All-append [] ys hx hy = hy
All-append (x ∷ xs) ys hx hy = (hx.0, All-append xs ys hx.1 hy)

digit-IsDigits : (n : ℕ) → n < 10 → IsDigits (codes (digit n))
digit-IsDigits n h = rw (codes-digit n h) (ground arith, tt)

digits-IsDigits : (fuel n : ℕ) → IsDigits (codes (digits fuel n))
unfolding digits codes
digits-IsDigits zero n = tt
digits-IsDigits (suc fuel) n = elim (Bool-cases (ltb n 10)) [
  | inl small ↦ rw small (digit-IsDigits n (ltb→lt n 10 small))
  | inr large ↦ rw large (
      rw (codes-append (digits fuel (n / 10)) (digit (n % 10))) (
        All-append (codes (digits fuel (n / 10))) (codes (digit (n % 10)))
          (digits-IsDigits fuel (n / 10)) (digit-IsDigits (n % 10) (omega arith))))
]

pub decimal-IsDigits : (n : ℕ) → IsDigits (codes (decimal n))
unfolding decimal
decimal-IsDigits n = digits-IsDigits 20 n
