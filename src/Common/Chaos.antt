-- ===== src/Common/Chaos.antt =====
-- common/chaos.go: faults injected into the services' functions. A window of twenty requests
-- fails at two to five places chosen at random. The generator of math/rand is a parameter, and
-- each call holds the state's lock throughout, so a call is one step.
pub mod Windows
pub mod Statuses
use micro_market.Common.StatusCode
use micro_market.Base.{
  ℕ, zero, suc, ◌+◌, ◌-◌, ◌==◌, leb, ◌||◌, Bool, false, String, Option, none, some, List, [], ◌∷◌,
  map, str_eq, if◌then◌else◌, length,
}
use micro_market.Common.AppError.{Error, new_app_error}

-- `failAt` is the set of the positions at which the window fails.
pub record ChaosState : Type 0 where
  pub requests : ℕ
  pub fail_at : List ℕ
  pub window_end : ℕ

-- `chaosStates`, a map from the function's key.
abbrev pub ChaosStates : Type 0
ChaosStates = List (String × ChaosState)

-- math/rand: `Intn(n)`, `Perm(n)` and `Float64() < 0.5`, over a generator that changes.
pub record Random (Rng : Type 0) : Type 0 where
  pub intn : ℕ → Rng → ℕ × Rng
  pub perm : ℕ → Rng → List ℕ × Rng
  pub coin : Rng → Bool × Rng

-- `LoadOrStore(key, &chaosState{})`
abbrev pub lookup : String → ChaosStates → ChaosState
lookup k [] = record { requests = 0; fail_at = []; window_end = 0 }
lookup k ((j, s) ∷ m) = if str_eq j k then s else lookup k m

abbrev pub insert : String → ChaosState → ChaosStates → ChaosStates
insert k s [] = (k, s) ∷ []
insert k s ((j, t) ∷ m) = if str_eq j k then (k, s) ∷ m else (j, t) ∷ insert k s m

abbrev pub mem : ℕ → List ℕ → Bool
mem n [] = false
mem n (x ∷ xs) = n == x || mem n xs

-- `s[i]`, for an index in range.
abbrev pub index : List ℕ → ℕ → ℕ
index [] i = 0
index (x ∷ xs) zero = x
index (x ∷ xs) (suc i) = index xs i

-- `s[:n]`
abbrev pub take : ℕ → List ℕ → List ℕ
take zero xs = []
take (suc n) [] = []
take (suc n) (x ∷ xs) = x ∷ take n xs

abbrev pub status_400 : List ℕ
status_400 = StatusCode.bad_request ∷ StatusCode.unprocessable_entity ∷ StatusCode.not_found ∷ []

abbrev pub status_500 : List ℕ
status_500 =
    StatusCode.internal_server_error ∷ StatusCode.bad_gateway ∷ StatusCode.service_unavailable
    ∷ StatusCode.gateway_timeout ∷ []

module _ {Rng : Type 0} (random : Random Rng) where
  unfoldable pub build_fail_set : Rng → List ℕ × Rng
  build_fail_set r =
      let (n, r1) = random.intn 4 r in
      let (positions, r2) = random.perm 20 r1 in (map (λ pos. pos + 1) (take (2 + n) positions), r2)

  -- A new window, where none is open or the last one is over.
  unfoldable pub open_window : ChaosState → Rng → ChaosState × Rng
  unfolding build_fail_set
  open_window s r =
      if s.window_end == 0 || leb s.window_end s.requests
      then (let (fail_at, r') = build_fail_set r in
          (record { requests = 0; fail_at = fail_at; window_end = 20 }, r'))
      else (s, r)

  unfoldable pub injected_error : Rng → Error × Rng
  injected_error r =
      let (client, r1) = random.coin r in
      let (i, r2) = random.intn (length status_400 - 1) r1 in
      let (j, r3) = random.intn (length status_500 - 1) r1 in
      if client
      then (new_app_error (index status_400 i) "chaos test: injected client error", r2)
      else (new_app_error (index status_500 j) "chaos test: injected server error", r3)

  -- `MaybeError(key)`: nil or the injected error.
  unfoldable pub maybe_error : String → ChaosStates × Rng → Option Error × ChaosStates × Rng
  unfolding open_window injected_error
  maybe_error key (states, r) =
      let (s, r1) = open_window (lookup key states) r in
      let t : ChaosState = record s { requests = s.requests + 1 } in
      let states' = insert key t states in
      let (e, r2) = injected_error r1 in
      if mem t.requests t.fail_at then (some e, states', r2) else (none, states', r1)
