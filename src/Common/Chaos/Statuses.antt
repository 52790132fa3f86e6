-- ===== src/Common/Chaos/Statuses.antt =====
-- Which statuses `MaybeError` of common/chaos.go injects.
use micro_market.Common.StatusCode
use micro_market.Base.{
  zero, Bool-cases, ℕ, suc, ◌<◌, String, ◌≡◌, refl, inl, inr, true, some, List, [], ◌∷◌, arith,
}
use micro_market.Common.AppError.{AppError, Error, app}
use micro_market.Common.Chaos.{
  ChaosStates, Random, lookup, mem, index, status_400, status_500, open_window, injected_error,
  maybe_error,
}
use micro_market.Common.Chaos.Windows.{IsRandom}

-- The statuses of the two lists, without the last of each.
abbrev pub injectable : List ℕ
injectable =
    StatusCode.bad_request ∷ StatusCode.unprocessable_entity ∷ StatusCode.internal_server_error
    ∷ StatusCode.bad_gateway ∷ StatusCode.service_unavailable ∷ []

client_status : (i : ℕ) → i < 2 → mem (index status_400 i) injectable ≡ true
client_status zero h = refl
client_status (suc zero) h = refl
client_status (suc (suc i)) h = absurd (omega arith)

server_status : (i : ℕ) → i < 3 → mem (index status_500 i) injectable ≡ true
server_status zero h = refl
server_status (suc zero) h = refl
server_status (suc (suc zero)) h = refl
server_status (suc (suc (suc i))) h = absurd (omega arith)

module _ {Rng : Type 0} (random : Random Rng) where
  injected_error_lem :
      IsRandom random
      → (r : Rng)
      → (a : AppError) × ((injected_error random r).0 ≡ app a) × (mem a.code injectable ≡ true)
  unfolding injected_error
  injected_error_lem rand r =
      let r1 = (random.coin r).1 in
      let client = client_status (random.intn 2 r1).0 (rand.intn 2 r1 (omega arith)) in
      let server = server_status (random.intn 3 r1).0 (rand.intn 3 r1 (omega arith)) in
      elim (Bool-cases (random.coin r).0) [
        | inl yes' ↦ (
          record {
            code = index status_400 (random.intn 2 r1).0;
            message = "chaos test: injected client error";
          },
          ground arith,
          client,
        )
        | inr no' ↦ (
          record {
            code = index status_500 (random.intn 3 r1).0;
            message = "chaos test: injected server error";
          },
          ground arith,
          server,
        )
      ]

  -- Over a generator that keeps what math/rand documents, a fault that is injected has one
  -- of the statuses 400, 422, 500, 502 and 503. The last status of each list, 404 and 504, is
  -- never chosen.
  pub maybe_error-injectable :
      IsRandom random
      → (key : String) (m : ChaosStates) (r : Rng) (e : Error)
      → (maybe_error random key (m, r)).0 ≡ some e
      → (a : AppError) × (e ≡ app a) × (mem a.code injectable ≡ true)
  unfolding maybe_error
  maybe_error-injectable rand key m r e h =
      let (a, f, g) = injected_error_lem rand (open_window random (lookup key m) r).1 in
      (a, ground arith, g)
