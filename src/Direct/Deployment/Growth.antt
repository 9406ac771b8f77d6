-- ===== src/Direct/Deployment/Growth.antt =====
-- Actions that only add calls and leave the metadata of the object alone.
use kubedns.Prelude.{
  if◌then◌else◌, Any, ◌≡◌, refl, ap, ◌∙◌, inr, Bool, true, false, Option, none, some, List, [], ◌∷◌,
  ◌++◌,
}
use kubedns.Api.{HostedZone, ObjectMeta}
use kubedns.Common.Calls.{
  return_problem, caught, returns, value, panicked, unfinished, Ended, ◌>>=◌, Action, Holds,
  >>=-Holds, Holds-weaken, pure, return,
}
use kubedns.Common.Cluster.{Problem}
use kubedns.Direct.Deployment.{State, Event, called, noted}

abbrev pub meta_of : Option HostedZone → Option ObjectMeta
meta_of none = none
meta_of (some z) = some z.meta

abbrev pub Extends : State → State → Type 0
Extends s t =
    (meta_of t.object ≡ meta_of s.object) × ((es : List Event) × (t.events ≡ es ++ s.events))

append_assoc : (fs es ds : List Event) → fs ++ (es ++ ds) ≡ (fs ++ es) ++ ds
append_assoc [] es ds = refl
append_assoc (f ∷ fs) es ds = ap (λ l. f ∷ l) (append_assoc fs es ds)

pub Extends-trans : (s t u : State) → Extends s t → Extends t u → Extends s u
Extends-trans s t u (m, (es, e)) (n, (fs, f)) =
    (n ∙ m, (fs ++ es, f ∙ (ap (λ l. fs ++ l) e ∙ append_assoc fs es s.events)))

pub Extends-refl : (s : State) → Extends s s
Extends-refl s = (refl, ([], refl))

Any-append : (T : Event → Type 0) (es ds : List Event) → Any T ds → Any T (es ++ ds)
Any-append T [] ds h = h
Any-append T (e ∷ es) ds h = inr (Any-append T es ds h)

pub Any-Extends : (T : Event → Type 0) (s t : State) → Extends s t → Any T s.events → Any T t.events
Any-Extends T s t (m, (es, e)) h = rw e (Any-append T es s.events h)

-- Whatever way the action ends.
pub record Appends (A : Type 0) (m : Action State A) : Type 0 where
  pub holds : (s : State) → Holds (λ a t. Extends s t) (λ e t. Extends s t) (m s)

pub >>=-Appends :
    {A B : Type 0} {m : Action State A} {f : A → Action State B}
    → Appends A m
    → ((a : A) → Appends B (f a))
    → Appends B (m >>= f)
>>=-Appends {m = m} {f = f} h k = record {
  holds = λ s.
      >>=-Holds (λ a t. Extends s t) (λ b t. Extends s t) (λ e t. Extends s t) m f s (h.holds s)
        (λ a t x.
          Holds-weaken (λ b u. Extends t u) (λ b u. Extends s u) (λ e u. Extends t u)
            (λ e u. Extends s u) (f a t) (λ b u y. Extends-trans s t u x y)
            (λ e u y. Extends-trans s t u x y) ((k a).holds t));
}

pub called-Appends :
    {A : Type 0} (answer : List Event → A) (event : A → Event) → Appends A (called answer event)
called-Appends answer event = record { holds = λ s. (refl, (event (answer s.events) ∷ [], refl)) }

pub noted-Appends : {e : Event} → Appends Unit (noted e)
noted-Appends {e = e} = record { holds = λ s. (refl, (e ∷ [], refl)) }

pub pure-Appends : {A : Type 0} {a : A} → Appends A (pure a)
pure-Appends = record { holds = λ s. Extends-refl s }

pub return-Appends : {p : Option Problem} → Appends Unit (return p)
return-Appends = record { holds = λ s. Extends-refl s }

pub if-Appends :
    {A : Type 0} (b : Bool) {m n : Action State A}
    → Appends A m
    → Appends A n
    → Appends A (if b then m else n)
if-Appends true h k = h
if-Appends false h k = k

-- The action does not return early.
pub record Continues (A : Type 0) (m : Action State A) : Type 0 where
  pub holds : (s : State) → Holds (λ a t. Extends s t) (λ e t. ⊥) (m s)

pub >>=-Continues :
    {A B : Type 0} {m : Action State A} {f : A → Action State B}
    → Continues A m
    → ((a : A) → Continues B (f a))
    → Continues B (m >>= f)
>>=-Continues {m = m} {f = f} h k = record {
  holds = λ s.
      >>=-Holds (λ a t. Extends s t) (λ b t. Extends s t) (λ e t. ⊥) m f s (h.holds s)
        (λ a t x.
          Holds-weaken (λ b u. Extends t u) (λ b u. Extends s u) (λ e u. ⊥) (λ e u. ⊥) (f a t)
            (λ b u y. Extends-trans s t u x y) (λ e u y. y) ((k a).holds t));
}

pub called-Continues :
    {A : Type 0} (answer : List Event → A) (event : A → Event) → Continues A (called answer event)
called-Continues answer event = record { holds = λ s. (refl, (event (answer s.events) ∷ [], refl)) }

pub noted-Continues : {e : Event} → Continues Unit (noted e)
noted-Continues {e = e} = record { holds = λ s. (refl, (e ∷ [], refl)) }

pub pure-Continues : {A : Type 0} {a : A} → Continues A (pure a)
pure-Continues = record { holds = λ s. Extends-refl s }

pub Continues-Appends : {A : Type 0} {m : Action State A} → Continues A m → Appends A m
Continues-Appends {m = m} h = record {
  holds = λ s.
      Holds-weaken (λ a t. Extends s t) (λ a t. Extends s t) (λ e t. ⊥) (λ e t. Extends s t) (m s)
        (λ a t x. x) (λ e t x. absurd x) (h.holds s);
}

pub early-Appends : {A : Type 0} {p : Option Problem} → Appends A (return p)
early-Appends = record { holds = λ s. Extends-refl s }

pub return_problem-Appends : (p : Option Problem) → Appends Unit (return_problem p)
return_problem-Appends none = record { holds = λ s. Extends-refl s }
return_problem-Appends (some q) = record { holds = λ s. Extends-refl s }

caught-Extends :
    (s : State) (e : Ended (Unit {0}) × State)
    → Holds (λ a t. Extends s t) (λ e t. Extends s t) e
    → Holds (λ (p : Option Problem) t. Extends s t) (λ e t. Extends s t) (caught (λ _. e) e.1)
caught-Extends s (value u, t) h = h
caught-Extends s (returns p, t) h = h
caught-Extends s (panicked, t) h = h
caught-Extends s (unfinished, t) h = h

pub caught-Appends : {m : Action State Unit} → Appends Unit m → Appends (Option Problem) (caught m)
caught-Appends {m = m} h = record { holds = λ s. caught-Extends s (m s) (h.holds s) }
