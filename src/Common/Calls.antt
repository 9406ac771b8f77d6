-- ===== src/Common/Calls.antt =====
-- A reconciliation as a sequence of calls on a state: it goes on with a value, or it returns early
-- with a problem or with none, as the Go code does; a search may panic or use up its fuel.
use kubedns.Prelude.{Text, Option, none, some}
use kubedns.Common.Cluster.{Problem, temporary}

-- The error of a call: `errors.IsNotFound`, or another one.
pub data CallError : Type 0 where
  missing other : Text → CallError

-- client.IgnoreNotFound
unfoldable pub ignore_not_found : Option CallError → Option CallError
ignore_not_found none = none
ignore_not_found (some (missing m)) = none
ignore_not_found (some (other m)) = some (other m)

-- reconcile.TemporaryProblem; there is no problem without an error.
unfoldable pub temporary_problem : Option CallError → Option Problem
temporary_problem none = none
temporary_problem (some (missing m)) = some (temporary m)
temporary_problem (some (other m)) = some (temporary m)

pub data Ended {ℓ} (A : Type ℓ) : Type ℓ where
  value : A → Ended A
  returns : Option Problem → Ended A
  panicked unfinished : Ended A

abbrev pub Action : Type 0 → Type 0 → Type 0
Action S A = S → Ended A × S

infixl 5 ◌>>=◌ ◌>>◌
abbrev pub ◌>>=◌ : {S A B : Type 0} → Action S A → (A → Action S B) → Action S B
◌>>=◌ m f s =
    let (r, s') = m s in
    elim r [
      | value a ↦ f a s'
      | returns p ↦ (returns p, s')
      | panicked ↦ (panicked, s')
      | unfinished ↦ (unfinished, s')
    ]

abbrev pub ◌>>◌ : {S A B : Type 0} → Action S A → Action S B → Action S B
m >> k = m >>= λ _. k

module _ {S : Type 0} where
  abbrev pub pure : {A : Type 0} → A → Action S A
  pure a s = (value a, s)

  -- return p
  abbrev pub return : {A : Type 0} → Option Problem → Action S A
  return p s = (returns p, s)

  abbrev pub gets : {A : Type 0} → (S → A) → Action S A
  gets f s = (value (f s), s)

  abbrev pub modify : (S → S) → Action S Unit
  modify f s = (value tt, f s)

  -- if p != nil { return p }
  abbrev pub return_problem : Option Problem → Action S Unit
  return_problem none s = (value tt, s)
  return_problem (some p) s = (returns (some p), s)

  -- A call of a method: what it returns is a value for the caller.
  abbrev pub caught : Action S Unit → Action S (Option Problem)
  caught m s =
      let (r, s') = m s in
      elim r [
        | value u ↦ (value none, s')
        | returns p ↦ (value p, s')
        | panicked ↦ (panicked, s')
        | unfinished ↦ (unfinished, s')
      ]

  -- What holds after an action: of its value, and of what it returns early, where `none` stands
  -- for a panic or for fuel that was used up.
  abbrev pub Holds :
      {A : Type 0}
      → (A → S → Type 0)
      → (Option (Option Problem) → S → Type 0)
      → Ended A × S
      → Type 0
  Holds Q R (value a, s) = Q a s
  Holds Q R (returns p, s) = R (some p) s
  Holds Q R (panicked, s) = R none s
  Holds Q R (unfinished, s) = R none s

  >>=-Holds_of :
      {A B : Type 0} (Q : A → S → Type 0) (Q' : B → S → Type 0)
      (R : Option (Option Problem) → S → Type 0) (f : A → Action S B) (e : Ended A × S)
      → Holds Q R e
      → ((a : A) (s : S) → Q a s → Holds Q' R (f a s))
      → Holds Q' R (((λ _. e) >>= f) e.1)
  >>=-Holds_of Q Q' R f (value a, s) h next = next a s h
  >>=-Holds_of Q Q' R f (returns p, s) h next = h
  >>=-Holds_of Q Q' R f (panicked, s) h next = h
  >>=-Holds_of Q Q' R f (unfinished, s) h next = h

  -- One action after another.
  pub >>=-Holds :
      {A B : Type 0} (Q : A → S → Type 0) (Q' : B → S → Type 0)
      (R : Option (Option Problem) → S → Type 0) (m : Action S A) (f : A → Action S B) (s : S)
      → Holds Q R (m s)
      → ((a : A) (t : S) → Q a t → Holds Q' R (f a t))
      → Holds Q' R ((m >>= f) s)
  >>=-Holds Q Q' R m f s h next = >>=-Holds_of Q Q' R f (m s) h next

  pub Holds-weaken :
      {A : Type 0} (Q Q' : A → S → Type 0) (R R' : Option (Option Problem) → S → Type 0)
      (e : Ended A × S)
      → ((a : A) (s : S) → Q a s → Q' a s)
      → ((p : Option (Option Problem)) (s : S) → R p s → R' p s)
      → Holds Q R e
      → Holds Q' R' e
  Holds-weaken Q Q' R R' (value a, s) q r h = q a s h
  Holds-weaken Q Q' R R' (returns p, s) q r h = r (some p) s h
  Holds-weaken Q Q' R R' (panicked, s) q r h = r none s h
  Holds-weaken Q Q' R R' (unfinished, s) q r h = r none s h

  pub Holds-both :
      {A : Type 0} (Q Q' : A → S → Type 0) (R R' : Option (Option Problem) → S → Type 0)
      (e : Ended A × S)
      → Holds Q R e
      → Holds Q' R' e
      → Holds (λ a s. Q a s × Q' a s) (λ p s. R p s × R' p s) e
  Holds-both Q Q' R R' (value a, s) h k = (h, k)
  Holds-both Q Q' R R' (returns p, s) h k = (h, k)
  Holds-both Q Q' R R' (panicked, s) h k = (h, k)
  Holds-both Q Q' R R' (unfinished, s) h k = (h, k)

  caught-Holds_of :
      (R : Option (Option Problem) → S → Type 0) (e : Ended (Unit {0}) × S)
      → Holds (λ u t. ⊥) R e
      → Holds (λ p t. R (some p) t) R (caught (λ _. e) e.1)
  caught-Holds_of R (value u, s) h = absurd h
  caught-Holds_of R (returns p, s) h = h
  caught-Holds_of R (panicked, s) h = h
  caught-Holds_of R (unfinished, s) h = h

  -- The caller of a method that returns gets what it returned.
  pub caught-Holds :
      (R : Option (Option Problem) → S → Type 0) (m : Action S Unit) (s : S)
      → Holds (λ u t. ⊥) R (m s)
      → Holds (λ p t. R (some p) t) R (caught m s)
  caught-Holds R m s h = caught-Holds_of R (m s) h
