-- ===== src/LoadGenerator/Pool.antt =====
-- The loop of `main` of cmd/load-generator/main.go and the goroutines that it starts, as steps.
pub mod Ending
use micro_market.Base.{
  ltb, ◌==◌, if◌then◌else◌, ℕ, ◌+◌, ◌-◌, ◌≤◌, ◌≡◌, Bool, true, false, ◌&&◌, Option, none, some,
  arith,
}

-- `sem` is the number of tokens in the channel, `wg` the wait group's counter, `started` the
-- operations so far. `stopping` says that the loop has taken the branch of `ctx.Done()`, and waits;
-- `returned` that `main` has returned.
pub record Pool : Type 0 where
  pub sem : ℕ
  pub wg : ℕ
  pub started : ℕ
  pub stopping : Bool
  pub returned : Bool

abbrev pub idle : Pool
idle = record { sem = 0; wg = 0; started = 0; stopping = false; returned = false }

-- What may happen next: a tick of the ticker, a goroutine's deferred `<-sem` and then its
-- `wg.Done()`, the branch of `ctx.Done()`, and the return once `wg.Wait()` does.
pub data Event : Type 0 where
  tick release done stop return : Event

-- The state after an event, where it can happen. At a tick the send to `sem` goes through if the
-- channel, of capacity `concurrency`, is not full, and nothing is done if it is.
unfoldable pub next : ℕ → Event → Pool → Option Pool
next concurrency tick p =
    if p.stopping
    then none
    else if ltb p.sem concurrency
    then some (record p { sem = p.sem + 1; wg = p.wg + 1; started = p.started + 1 })
    else some p
next concurrency release p = if ltb 0 p.sem then some (record p { sem = p.sem - 1 }) else none
next concurrency done p = if ltb p.sem p.wg then some (record p { wg = p.wg - 1 }) else none
next concurrency stop p = some (record p { stopping = true })
next concurrency return p =
    if p.stopping && p.wg == 0 then some (record p { returned = true }) else none

-- The states that the loop and its goroutines can come to.
pub data Reach (concurrency : ℕ) : Pool → Type 0 where
  start : Reach concurrency idle
  step :
      {p q : Pool} (e : Event)
      → Reach concurrency p
      → next concurrency e p ≡ some q
      → Reach concurrency q

-- No more operations hold a token than may, each that does is waited for, and when `main` has
-- returned none is left.
pub record IsBounded (concurrency : ℕ) (p : Pool) : Type 0 where
  pub tokens : p.sem ≤ concurrency
  pub waited : p.sem ≤ p.wg
  pub total : p.wg ≤ p.started
  pub empty : p.returned ≡ true → (p.wg ≡ 0) × (p.stopping ≡ true)

next-IsBounded :
    (concurrency : ℕ) (e : Event) (p q : Pool)
    → IsBounded concurrency p
    → next concurrency e p ≡ some q
    → IsBounded concurrency q
unfolding next
next-IsBounded concurrency tick p q b k = ground (arith, b.tokens, b.waited, b.total, b.empty)
next-IsBounded concurrency release p q b k = ground (arith, b.tokens, b.waited, b.total, b.empty)
next-IsBounded concurrency done p q b k = ground (arith, b.tokens, b.waited, b.total, b.empty)
next-IsBounded concurrency stop p q b k = ground (arith, b.tokens, b.waited, b.total, b.empty)
next-IsBounded concurrency return p q b k = ground (arith, b.tokens, b.waited, b.total, b.empty)

-- In every state of the loop no more than `concurrency` operations hold a token, each that does
-- is waited for, and once `main` has returned no operation is under way.
pub Reach-IsBounded : {concurrency : ℕ} {p : Pool} → Reach concurrency p → IsBounded concurrency p
Reach-IsBounded start = record {
  tokens = omega arith;
  waited = omega arith;
  total = omega arith;
  empty = λ e. cc;
}
Reach-IsBounded (step e r k) = next-IsBounded _ e _ _ (Reach-IsBounded r) k
