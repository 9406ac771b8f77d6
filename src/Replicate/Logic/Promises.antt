-- ===== src/Replicate/Logic/Promises.antt =====
-- What the replication promises, whatever the clusters, the mapping and the owner handler answer.
use kubedns.Prelude.{
  Bool-cases, nat_eq, ◌==◌, All, Any, text_beq_iff, text_eq, ◌≡◌, refl, sym, ◌∙◌, subst, ◌≢◌, ◌⊎◌,
  inl, inr, Bool, true, false, not, Option, none, some, List, [], ◌∷◌, arith,
}
use kubedns.Replicate.Options.{replicated_annotation}
use kubedns.Replicate.Objects.{
  Event, created, Documented, ResponsibilityHandler, State, has_finalizer, CallError,
}
use kubedns.Api.{ObjectKey}
use kubedns.Common.Calls.{◌>>=◌, Ended, value, panicked, unfinished, returns}
use kubedns.Replicate.Events.{IsQuiet, IsGone, IsFine, IsGuarded, IsAllowed}
use kubedns.Replicate.Logic.{reconcile_original, reconcile, reconcile_deleting}
use kubedns.Replicate.Objects.{Clusters}
use kubedns.Replicate.Actions.{Replicator, map_key, return_if}
use kubedns.Replicate.Logic.Guarding.{IsRunning, IsKept, Stops, IsGood}
use kubedns.Replicate.Logic.Releasing.{reconcile_deleting-Stops}
use kubedns.Replicate.Logic.Reconciling.{reconcile-Stops}

module _ {P St H : Type 0} (r : Replicator P St H) where
  Stops-IsGood : (had : Bool) (e : Ended (Unit {0}) × State P H) → Stops r had e → IsGood r had e.1
  Stops-IsGood had (value u, s) h = absurd h
  Stops-IsGood had (returns none, s) h = h.0
  Stops-IsGood had (returns (some p), s) h = h
  Stops-IsGood had (panicked, s) h = h
  Stops-IsGood had (unfinished, s) h = h

  Stops-IsFine :
      (had : Bool) (e : Ended (Unit {0}) × State P H)
      → Stops r had e
      → e.0 ≡ returns none
      → All IsFine e.1.events
  Stops-IsFine had (value u, s) h q = absurd h
  Stops-IsFine had (returns none, s) h q = h.1
  Stops-IsFine had (returns (some p), s) h q = absurd (cc q)
  Stops-IsFine had (panicked, s) h q = absurd (cc q)
  Stops-IsFine had (unfinished, s) h q = absurd (cc q)

  -- A request of which nothing was called so far.
  abbrev pub fresh : P → H → State P H
  fresh p h = record { object = p; handler = h; events = [] }

  abbrev pub held : P → Bool
  held p = has_finalizer r.objects p r.finalizer

  fresh-IsRunning : (p : P) (h : H) → IsRunning r (held p) (fresh p h)
  fresh-IsRunning p h = elim (Bool-cases (held p)) [
    | inl yes_held ↦ ((tt, inl yes_held), tt)
    | inr free ↦ ((tt, inr (inl free)), tt)
  ]

  IsKept-held :
      (had : Bool) (s : State P H)
      → had ≡ true
      → IsKept r had s
      → (held s.object ≡ true) ⊎ Any (IsGone (map_key r)) s.events
  IsKept-held had s e (inl k) = inl k
  IsKept-held had s e (inr (inl k)) = absurd (cc (e, k))
  IsKept-held had s e (inr (inr k)) = inr k

  created-marked :
      (had : Bool) (p : P) (a : Option CallError) (es : List (Event P))
      → Any (λ e. e ≡ created p a) es
      → IsGuarded r.objects r.finalizer r.clusters.source_id had es
      → r.objects.get_annotation p replicated_annotation ≡ r.clusters.source_id
  created-marked had p a [] h g = absurd h
  created-marked had p a (e ∷ es) (inl same) (k, g) =
      (subst (λ x. IsAllowed r.objects r.finalizer r.clusters.source_id had x es) same k).1
  created-marked had p a (e ∷ es) (inr h) (k, g) = created-marked had p a es h g

  ignored_of :
      (b : Bool) (s : State P H)
      → b ≡ true
      → (return_if r b >>= λ u. reconcile_original r) s ≡ (returns none, s)
  ignored_of true s e = refl
  ignored_of false s e = absurd (cc)

  marked-ignored :
      (p : P) (h : H)
      → r.objects.get_annotation p replicated_annotation ≢ []
      → reconcile r (fresh p h) ≡ (returns none, fresh p h)
  unfolding reconcile
  marked-ignored p h n =
      ignored_of (not (r.objects.get_annotation p replicated_annotation == [])) (fresh p h)
        (ground (arith, text_beq_iff (r.objects.get_annotation p replicated_annotation) []))

module _ {P St H : Type 0} (r : Replicator P St H) (d : Documented P St r.objects)
    (quiet : (h : ResponsibilityHandler P H)
      → r.resp ≡ some h
      → IsQuiet P St H r.objects r.finalizer h)
    (owner : (es : List (Event P)) (p q n : P)
      → r.clusters.set_owner es p q ≡ inr n
      → r.objects.get_annotation n replicated_annotation
        ≡ r.objects.get_annotation q replicated_annotation)
    (p : P) (h : H) where
  run-Stops : Stops r (held r p) (reconcile r (fresh r p h))
  run-Stops = reconcile-Stops r d quiet owner (held r p) (fresh r p h) (fresh-IsRunning r p h) refl

  deletion-Stops : Stops r (held r p) (reconcile_deleting r (fresh r p h))
  deletion-Stops = reconcile_deleting-Stops r quiet (held r p) (fresh r p h) (fresh-IsRunning r p h)

  -- With a quiet handler and an owner handler that leaves the annotation alone: in a reconciliation
  -- that has called nothing yet, a replica is created or updated only for an object that has the
  -- finalizer or was patched before to have it, and the replica is annotated with the identity of
  -- the source cluster.
  pub reconcile-IsGuarded :
      IsGuarded r.objects r.finalizer r.clusters.source_id
        (held r p)
        (reconcile r (fresh r p h)).1.events
  reconcile-IsGuarded = (Stops-IsGood r (held r p) _ run-Stops).0

  -- With the same handlers: an object that has the finalizer loses it, in a reconciliation or in
  -- the reconciliation of its deletion, only when the target cluster answered that there is no
  -- object of the key that `MapKey` gives the replica.
  pub reconcile_keeps_finalizer :
      held r p ≡ true
      → ((held r (reconcile r (fresh r p h)).1.object ≡ true)
          ⊎ Any (IsGone (map_key r)) (reconcile r (fresh r p h)).1.events)
        × ((held r (reconcile_deleting r (fresh r p h)).1.object ≡ true)
            ⊎ Any (IsGone (map_key r)) (reconcile_deleting r (fresh r p h)).1.events)
  reconcile_keeps_finalizer e = (
    IsKept-held r (held r p) (reconcile r (fresh r p h)).1 e
        (Stops-IsGood r (held r p) _ run-Stops).1,
    IsKept-held r (held r p) (reconcile_deleting r (fresh r p h)).1 e
        (Stops-IsGood r (held r p) _ deletion-Stops).1,
  )

  -- With the same handlers: a reconciliation, or one of a deletion, ends without a problem only when
  -- every call before was answered without an error; an object that is missing counts as none, and
  -- the answer to the update of a replica does not count.
  pub reconcile_no_problem :
      ((reconcile r (fresh r p h)).0 ≡ returns none
        → All IsFine (reconcile r (fresh r p h)).1.events)
      × ((reconcile_deleting r (fresh r p h)).0 ≡ returns none
          → All IsFine (reconcile_deleting r (fresh r p h)).1.events)
  reconcile_no_problem =
      (Stops-IsFine r (held r p) _ run-Stops, Stops-IsFine r (held r p) _ deletion-Stops)

  -- With the same handlers and a source cluster whose identity is not empty: a replica that a
  -- reconciliation creates is ignored by the reconciliation of the replica itself, with any other
  -- clusters and any other key: nothing is called, and no problem is returned.
  pub created-ignored :
      (c : Clusters P) (k : ObjectKey) (q : P) (a : Option CallError) (h' : H)
      → r.clusters.source_id ≢ []
      → Any (λ e. e ≡ created q a) (reconcile r (fresh r p h)).1.events
      → reconcile (record r { clusters = c; key = k }) (fresh r q h') ≡ (returns none, fresh r q h')
  created-ignored c k q a h' n e =
      marked-ignored (record r { clusters = c; key = k }) q h'
        (λ no_mark. n (sym (created-marked r (held r p) q a _ e reconcile-IsGuarded) ∙ no_mark))
