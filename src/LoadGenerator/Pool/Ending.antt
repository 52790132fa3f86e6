-- ===== src/LoadGenerator/Pool/Ending.antt =====
-- `main` of cmd/load-generator/main.go ends once its context is done.
use micro_market.Base.{
  ltb, Bool-cases, ℕ, zero, suc, ◌+◌, ◌-◌, ◌≤◌, ◌≡◌, refl, ◌∙◌, inl, inr, Bool, true, false, some,
  arith,
}
use micro_market.LoadGenerator.Pool.{
  Pool, Event, tick, release, done, stop, return, next, Reach, Reach-IsBounded,
}

-- The events of the goroutines that are under way.
abbrev pub is_ending : Event → Bool
is_ending release = true
is_ending done = true
is_ending _ = false

-- `main` can return, or a goroutine can go on; and whichever does, the same holds of fewer events
-- after it.
pub data Ends (concurrency : ℕ) : ℕ → Pool → Type 0 where
  over :
      {n : ℕ} {p q : Pool}
      → next concurrency return p ≡ some q
      → q.returned ≡ true
      → Ends concurrency n p
  under_way :
      {n : ℕ} {p r : Pool} (e : Event)
      → is_ending e ≡ true
      → next concurrency e p ≡ some r
      → ((e : Event) (q : Pool)
          → is_ending e ≡ true
          → next concurrency e p ≡ some q
          → Ends concurrency n q)
      → Ends concurrency (suc n) p

-- Each event of a goroutine leaves fewer, and the rest as it was.
record IsLess (p q : Pool) : Type 0 where
  pub fewer : q.sem + q.wg + 1 ≡ p.sem + p.wg
  pub waited : q.sem ≤ q.wg
  pub stops : q.stopping ≡ p.stopping

next-IsLess :
    (concurrency : ℕ) (e : Event) (p q : Pool)
    → p.sem ≤ p.wg
    → is_ending e ≡ true
    → next concurrency e p ≡ some q
    → IsLess p q
unfolding next
next-IsLess concurrency release p q w i k = record {
  fewer = ground arith;
  waited = ground arith;
  stops = ground arith;
}
next-IsLess concurrency done p q w i k = record {
  fewer = ground arith;
  waited = ground arith;
  stops = ground arith;
}
next-IsLess concurrency tick p q w i k = cc
next-IsLess concurrency stop p q w i k = cc
next-IsLess concurrency return p q w i k = cc

ends :
    (concurrency n : ℕ) (p : Pool)
    → p.sem + p.wg ≡ n
    → p.sem ≤ p.wg
    → p.stopping ≡ true
    → Ends concurrency n p
unfolding next
ends concurrency zero p e w s = over {q = record p { returned = true }} (ground arith) refl
ends concurrency (suc n) p e w s =
    let after : (e' : Event) (q : Pool)
        → is_ending e' ≡ true
        → next concurrency e' p ≡ some q
        → Ends concurrency n q =
      λ e' q i k.
        let l = next-IsLess concurrency e' p q w i k in
        ends concurrency n q (omega (arith, l.fewer)) l.waited (l.stops ∙ s) in
    elim (Bool-cases (ltb p.sem p.wg)) [
      | inl more ↦ under_way {r = record p { wg = p.wg - 1 }} done refl (ground arith) after
      | inr full ↦ under_way {r = record p { sem = p.sem - 1 }} release refl (ground arith) after
    ]

-- From every state of the loop in which it has stopped, whatever the order in which the goroutines
-- go on, `main` returns after at most as many events as there are tokens held and goroutines
-- waited for.
pub Reach-Ends :
    {concurrency : ℕ} {p : Pool}
    → Reach concurrency p
    → p.stopping ≡ true
    → Ends concurrency (p.sem + p.wg) p
Reach-Ends {concurrency = concurrency} {p = p} r s =
    ends concurrency (p.sem + p.wg) p refl (Reach-IsBounded r).waited s
