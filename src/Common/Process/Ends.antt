-- ===== src/Common/Process/Ends.antt =====
-- How a `main` ends that opens resources one after the other and defers to close each.
use micro_market.Base.{
  append_assoc, ◌≡◌, refl, sym, ap, subst, ◌∙◌, ◌⊎◌, inl, inr, Bool, true, Option, none, some, List,
  [], ◌∷◌, ◌++◌, arith,
}
use micro_market.Common.AppError.{Error}
use micro_market.Common.Action.{Result, ok, err, Action, ◌>>◌}
use micro_market.Common.Process.{
  Resource, database, grpc_server, http_server, Process, Exit, serving, panicked, exited, Closed,
  returned, Call, is_database, any, check, set, or_panic, or_exit, deferred, close, close_pool,
}

-- What a panic leaves where `below` is still to be closed: what was opened is closed in the
-- opposite order, but for one resource that may have failed while it was opened.
abbrev pub Left : List Resource → List Resource → List Resource → Type 0
Left below opened closed =
    (opened ≡ closed ++ below) ⊎ ((r : Resource) × (opened ≡ r ∷ closed ++ below))

-- `full` is opened when it serves, and `L` says what an exit leaves.
pub data Ends {S : Type 0} (full below : List Resource) (L : List Resource → List Resource → Type 0)
    (end : Exit × Process S) : Type 0 where
  serves :
      (p : Process S)
      → end ≡ (serving, p)
      → p.opened ≡ full
      → p.closed ≡ []
      → p.servers ≡ grpc_server ∷ http_server ∷ []
      → Ends full below L end
  panics :
      (e : Error) (p : Process S)
      → end ≡ (panicked e, p)
      → Left below p.opened p.closed
      → p.servers ≡ []
      → Ends full below L end
  leaves :
      (e : Error) (p : Process S)
      → end ≡ (exited e, p)
      → L p.opened p.closed
      → p.servers ≡ []
      → Ends full below L end

-- The lists of a process.
pub record IsAt {S : Type 0} (p : Process S) (opened : List Resource) : Type 0 where
  pub opened_is : p.opened ≡ opened
  pub closed_is : p.closed ≡ []
  pub no_server : p.servers ≡ []

-- What opening `r` leads to: it is open, or there is an error and it may be.
abbrev pub Opens : {S : Type 0} → Resource → List Resource → Process S → Result (Unit {0}) → Type 0
Opens r below q (ok u) = IsAt q (r ∷ below)
Opens r below q (err e) = IsAt q below ⊎ IsAt q (r ∷ below)

any-append :
    (is : Resource → Bool) (r : Resource) (xs ys : List Resource)
    → is r ≡ true
    → any is (xs ++ r ∷ ys) ≡ true
any-append is r [] ys h = ground arith
any-append is r (x ∷ xs) ys h = ground (arith, any-append is r xs ys)

-- What is left is open where it is to be closed.
Left-any :
    (is : Resource → Bool) (r : Resource) (below opened closed : List Resource)
    → is r ≡ true
    → Left (r ∷ below) opened closed
    → any is opened ≡ true
Left-any is r below opened closed h (inl e) = ap (any is) e ∙ any-append is r closed below h
Left-any is r below opened closed h (inr (x, e)) =
    ap (any is) e ∙ any-append is r (x ∷ closed) below h

Left-close :
    (r : Resource) (below opened closed : List Resource)
    → Left (r ∷ below) opened closed
    → Left below opened (closed ++ r ∷ [])
Left-close r below opened closed (inl e) = inl (e ∙ sym (append_assoc closed (r ∷ []) below))
Left-close r below opened closed (inr (x, e)) =
    inr (x, e ∙ ap (λ l. x ∷ l) (sym (append_assoc closed (r ∷ []) below)))

module _ {S : Type 0} where
  -- A deferred call that closes `r` and returns.
  abbrev pub Closes : Resource → Process S → Closed × Process S → Type 0
  Closes r q end =
      (x : Option Error) × (end.0 ≡ returned x)
      × (end.1.opened ≡ q.opened)
      × (end.1.closed ≡ q.closed ++ r ∷ [])
      × (end.1.servers ≡ q.servers)

  -- What an action that opens something ends with.
  abbrev pub Opening : Resource → List Resource → Result (Unit {0}) × Process S → Type 0
  Opening r below end = Opens r below end.1 end.0

  -- A call before the resource is opened, and the last one after it.
  pub check_then :
      (r : Resource) (below : List Resource) (f : Call S) (k : Action (Process S) (Unit {0}))
      (p : Process S)
      → IsAt p below
      → ((q : Process S) → IsAt q below → Opening r below (k q))
      → Opening r below ((check f >> k) p)
  check_then r below f k p a next = go (f p.system).0 refl
    where
      at : Process S
      at = record p { system = (f p.system).1 }

      same : IsAt at below
      same = record { opened_is = a.opened_is; closed_is = a.closed_is; no_server = a.no_server }

      go : (o : Option Error) → (f p.system).0 ≡ o → Opening r below ((check f >> k) p)
      go none e = subst (Opening r below) (ground arith) (next at same)
      go (some x) e = subst (Opening r below) {x = (err x, at)} (ground arith) (inl same)

  pub check_last :
      (r : Resource) (below : List Resource) (f : Call S) (p : Process S)
      → IsAt p (r ∷ below)
      → Opening r below (check f p)
  check_last r below f p a = go (f p.system).0 refl
    where
      at : Process S
      at = record p { system = (f p.system).1 }

      same : IsAt at (r ∷ below)
      same = record { opened_is = a.opened_is; closed_is = a.closed_is; no_server = a.no_server }

      go : (o : Option Error) → (f p.system).0 ≡ o → Opening r below (check f p)
      go none e = subst (Opening r below) {x = (ok tt, at)} (ground arith) same
      go (some x) e = subst (Opening r below) {x = (err x, at)} (ground arith) (inr same)

  -- A call after it that is not the last.
  pub check_after :
      (r : Resource) (below : List Resource) (f : Call S) (k : Action (Process S) (Unit {0}))
      (p : Process S)
      → IsAt p (r ∷ below)
      → ((q : Process S) → IsAt q (r ∷ below) → Opening r below (k q))
      → Opening r below ((check f >> k) p)
  check_after r below f k p a next = go (f p.system).0 refl
    where
      at : Process S
      at = record p { system = (f p.system).1 }

      same : IsAt at (r ∷ below)
      same = record { opened_is = a.opened_is; closed_is = a.closed_is; no_server = a.no_server }

      go : (o : Option Error) → (f p.system).0 ≡ o → Opening r below ((check f >> k) p)
      go none e = subst (Opening r below) (ground arith) (next at same)
      go (some x) e = subst (Opening r below) {x = (err x, at)} (ground arith) (inr same)

  -- The process with a resource opened.
  pub set-IsAt :
      (r : Resource) (below : List Resource) (p : Process S)
      → IsAt p below
      → IsAt (set r p).1 (r ∷ below)
  set-IsAt r below p a = record {
    opened_is = ap (λ l. r ∷ l) a.opened_is;
    closed_is = a.closed_is;
    no_server = a.no_server;
  }

  module _ (full : List Resource) (L : List Resource → List Resource → Type 0) where
    pub deferred-Ends :
        (r : Resource) (below : List Resource) (close : Process S → Closed × Process S)
        (next : Process S → Exit × Process S) (p : Process S)
        → ((q : Process S) → Left (r ∷ below) q.opened q.closed → Closes r q (close q))
        → Ends full (r ∷ below) L (next p)
        → Ends full below L (deferred close next p)
    deferred-Ends r below close next p h (serves q e o c s) = serves q (ground arith) o c s
    deferred-Ends r below close next p h (leaves x q e l s) = leaves x q (ground arith) l s
    deferred-Ends r below close next p h (panics x q e l s) =
        let (u, k, o, c, v) = h q l in
        panics x (close q).1 (ground arith)
          (subst (λ a. Left below a (close q).1.closed) (sym o)
            (subst (λ a. Left below q.opened a) (sym c) (Left-close r below q.opened q.closed l)))
          (v ∙ s)

    pub or_panic-Ends :
        (r : Resource) (below : List Resource) (m : Action (Process S) (Unit {0}))
        (next : Process S → Exit × Process S) (p : Process S)
        → Opens r below (m p).1 (m p).0
        → ((q : Process S) → IsAt q (r ∷ below) → Ends full below L (next q))
        → Ends full below L (or_panic m next p)
    or_panic-Ends r below m next p o k = go (m p).0 (m p).1 refl o
      where
        go :
            (x : Result (Unit {0})) (q : Process S)
            → m p ≡ (x, q)
            → Opens r below q x
            → Ends full below L (or_panic m next p)
        go (ok u) q e a = subst (Ends full below L) (ground arith) (k q a)
        go (err x) q e (inl a) =
            panics x q (ground arith) (inl (a.opened_is ∙ ap (λ l. l ++ below) (sym a.closed_is)))
              a.no_server
        go (err x) q e (inr a) =
            panics x q (ground arith)
              (inr (r, a.opened_is ∙ ap (λ l. r ∷ l ++ below) (sym a.closed_is))) a.no_server

    -- An exit where the opening fails.
    pub or_exit-Ends :
        (r : Resource) (below : List Resource) (m : Action (Process S) (Unit {0}))
        (next : Process S → Exit × Process S) (p : Process S)
        → ((q : Process S) → IsAt q below ⊎ IsAt q (r ∷ below) → L q.opened q.closed)
        → Opening r below (m p)
        → ((q : Process S) → IsAt q (r ∷ below) → Ends full below L (next q))
        → Ends full below L (or_exit m next p)
    or_exit-Ends r below m next p l o k = go (m p).0 (m p).1 refl o
      where
        go :
            (x : Result (Unit {0})) (q : Process S)
            → m p ≡ (x, q)
            → Opens r below q x
            → Ends full below L (or_exit m next p)
        go (ok u) q e a = subst (Ends full below L) (ground arith) (k q a)
        go (err x) q e (inl a) = leaves x q (ground arith) (l q (inl a)) a.no_server
        go (err x) q e (inr a) = leaves x q (ground arith) (l q (inr a)) a.no_server

  -- `Close` of an open resource.
  pub close_lem :
      (r : Resource) (is : Resource → Bool) (unset : Error) (f : Call S) (below : List Resource)
      → is r ≡ true
      → (q : Process S) → Left (r ∷ below) q.opened q.closed
      → Closes r q (close r is unset f q)
  close_lem r is unset f below h q l =
      let a = Left-any is r below q.opened q.closed h l in
      ((f q.system).0, ground arith, ground arith, ground arith, ground arith)

  pub close_pool_lem :
      (sql_db close_database : Call S)
      → ((s : S) → (sql_db s).0 ≡ none)
      → (below : List Resource) (q : Process S) → Left (database ∷ below) q.opened q.closed
      → Closes database q (close_pool sql_db close_database q)
  close_pool_lem sql_db close_database pooled below q l =
      let a = Left-any is_database database below q.opened q.closed refl l in
      let b = pooled q.system in
      (
        (close_database (sql_db q.system).1).0,
        ground arith,
        ground arith,
        ground arith,
        ground arith,
      )
