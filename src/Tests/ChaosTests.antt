-- ===== src/Tests/ChaosTests.antt =====
-- The theorems on the injected faults at concrete inputs.
use micro_market.Base.{◌≤◌, ◌≡◌, refl, true, [], ◌∷◌, arith}
use micro_market.Common.AppError.{AppError, app, new_app_error}
use micro_market.Common.Chaos.{ChaosStates, mem, maybe_error}
use micro_market.Common.Chaos.Windows.{IsRandom, faults, faults-open_window}
use micro_market.Common.Chaos.Statuses.{injectable, maybe_error-injectable}
use micro_market.Tests.InventoryDb.{random}
use native.Mathlib.Nat.{mod-lt}

random-IsRandom : IsRandom random
random-IsRandom = record {
  intn = λ n r h. mod-lt r h;
  perm_length = λ r. refl;
  perm_lt = λ r. ground arith;
  perm_Distinct = λ r. ground arith;
}

faults-open_window_example :
    (2 ≤ faults random "key" 20 ([], 3)) × (faults random "key" 20 ([], 3) ≤ 5)
faults-open_window_example = faults-open_window random random-IsRandom "key" [] 3 refl

-- A window whose first request fails.
abbrev failing : ChaosStates
failing = ("key", record { requests = 0; fail_at = 1 ∷ []; window_end = 20 }) ∷ []

maybe_error-injectable_example :
    (a : AppError) × ((new_app_error 422 "chaos test: injected client error") ≡ app a)
    × (mem a.code injectable ≡ true)
unfolding maybe_error
maybe_error-injectable_example =
    maybe_error-injectable random random-IsRandom "key" failing 4
      (new_app_error 422 "chaos test: injected client error") refl
