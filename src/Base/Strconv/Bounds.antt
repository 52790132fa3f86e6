-- ===== src/Base/Strconv/Bounds.antt =====
-- What Base/Strconv reads is a number below 2 ^ 64.
use Prim.Native.Nat.{ℕ, ◌+◌, ◌-◌, ◌*◌, ◌<◌, ◌^◌}
use mathlib.Core.Path.{◌≡◌}
use mathlib.Core.List.{List, [], ◌∷◌}
use native.Mathlib.Omega.{arith}
use micro_market.Base.Strconv.{number, parse_digits, parse_uint, leading_digits, scan_uint}

-- A number that is read is below 2 ^ 64.
parse_digits-bound : (n m : ℕ) (s : List ℕ) → n < 2 ^ 64 → parse_digits n s ≡ number m → m < 2 ^ 64
unfolding parse_digits
parse_digits-bound n m [] h e = ground arith
parse_digits-bound n m (c ∷ cs) h e = ground (arith, parse_digits-bound (n * 10 + (c - 48)) m cs)

pub scan_uint-bound : (m : ℕ) (s : List ℕ) → scan_uint s ≡ number m → m < 2 ^ 64
unfolding scan_uint parse_uint
scan_uint-bound m s e = go (leading_digits s) e
  where
    go : (d : List ℕ) → parse_uint d ≡ number m → m < 2 ^ 64
    go [] e = cc
    go (c ∷ cs) e = parse_digits-bound 0 m (c ∷ cs) (omega arith) e
