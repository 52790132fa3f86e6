-- ===== src/Common/Action.antt =====
-- Functions of the services: they change a state and return a value or an `error`. What was
-- changed before an error stays changed.
use micro_market.Base.{◌≡◌}
use micro_market.Common.AppError.{Error, other}
use micro_market.Base.{String}

pub data Result (A : Type 0) : Type 0 where
  ok : A → Result A
  err : Error → Result A

abbrev pub Action : Type 0 → Type 0 → Type 0
Action S A = S → Result A × S

module _ {S A : Type 0} where
  abbrev pub pure : A → Action S A
  pure a s = (ok a, s)

  abbrev pub raise : Error → Action S A
  raise e s = (err e, s)

infixl 5 ◌>>=◌ ◌>>◌
abbrev pub ◌>>=◌ : {S A B : Type 0} → Action S A → (A → Action S B) → Action S B
◌>>=◌ m f s = let (r, s') = m s in elim r [ ok a ↦ f a s' | err e ↦ (err e, s') ]

abbrev pub ◌>>◌ : {S A B : Type 0} → Action S A → Action S B → Action S B
m >> k = m >>= λ _. k

-- What gorm documents of `Transaction`: it runs its argument between BEGIN and COMMIT, and takes
-- back the changes of the database if the argument or the commit fails. What the argument did
-- to anything but the database stays. `rollback s s'` is `s'` with the database of `s`.
module _ {S A : Type 0} (rollback : S → S → S) (body : Action S A) (s : S)
    (end : Result A × S) where
  pub data TransactionEnds : Type 0 where
    not_begun : (m : String) → end ≡ (err (other m), s) → TransactionEnds
    rolled_back :
        (e : Error) (s' : S) → body s ≡ (err e, s') → end ≡ (err e, rollback s s') → TransactionEnds
    committed : (a : A) (s' : S) → body s ≡ (ok a, s') → end ≡ (ok a, s') → TransactionEnds
    commit_failed :
        (a : A) (m : String) (s' : S)
        → body s ≡ (ok a, s')
        → end ≡ (err (other m), rollback s s')
        → TransactionEnds

pub ok-injective : {A : Type 0} {a b : A} → ok a ≡ ok b → a ≡ b
ok-injective e = cc
