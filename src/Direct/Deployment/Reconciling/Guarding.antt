-- ===== src/Direct/Deployment/Reconciling/Guarding.antt =====
-- Nothing is deployed for a zone before it has the finalizer.
use kubedns.Prelude.{
  nat_eq, if-cases, is_empty, Any, Text, text_eq, ◌≡◌, ◌⊎◌, inl, inr, Bool, true, false, not,
  Option, none, some, List, [], ◌∷◌, ◌++◌,
}
use kubedns.Api.{HostedZone}
use kubedns.Common.Calls.{Ended, Action, value, returns, panicked, unfinished, Holds, Holds-weaken}
use kubedns.Common.Cluster.{contains}
use kubedns.Common.Responsibility.{Responsibility}
use kubedns.Direct.ZoneValidation.{validate}
use kubedns.Direct.Deployment.{State, Event, patched, applied, created_secret, created_namespace}
use kubedns.Direct.Deployment.Growth.{Extends}
use kubedns.Direct.Deployment.Manifests.{Deployer}
use kubedns.Direct.Deployment.Applying.{handle_external_resources}
use kubedns.Direct.Deployment.Applying.Ending.{handle_external_resources-Appends}
use kubedns.Direct.Deployment.Reconciling.{
  Reconciler, accept, after_acceptance, of_validation, handle_object,
}

-- A call that creates or changes an object, except for the patch of the zone.
abbrev pub is_writing : Event → Bool
is_writing (applied side doc a) = true
is_writing (created_secret k a) = true
is_writing (created_namespace n a) = true
is_writing e = false

module _ (finalizer : Text) where
  -- The zone was patched to have the finalizer.
  abbrev pub IsTaking : Event → Type 0
  IsTaking (patched z none) = contains z.meta.finalizers finalizer ≡ true
  IsTaking e = ⊥

  abbrev pub IsTaken : Bool → List Event → Type 0
  IsTaken had es = (had ≡ true) ⊎ Any IsTaking es

  -- Every writing call comes after the zone had, or was given, the finalizer.
  abbrev pub IsGuarded : Bool → List Event → Type 0
  IsGuarded had [] = Unit
  IsGuarded had (e ∷ es) = ((is_writing e ≡ true) → IsTaken had es) × IsGuarded had es

  pub IsGuarded-held : (had : Bool) (es : List Event) → had ≡ true → IsGuarded had es
  IsGuarded-held had [] h = tt
  IsGuarded-held had (e ∷ es) h = ((λ w. inl h), IsGuarded-held had es h)

  IsTaken-append : (had : Bool) (es ds : List Event) → IsTaken had ds → IsTaken had (es ++ ds)
  IsTaken-append had [] ds h = h
  IsTaken-append had (e ∷ es) ds (inl h) = inl h
  IsTaken-append had (e ∷ es) ds (inr h) = elim (IsTaken-append had es ds (inr h)) [
    | inl held ↦ inl held
    | inr taken ↦ inr (inr taken)
  ]

  IsGuarded-append :
      (had : Bool) (es ds : List Event)
      → IsTaken had ds
      → IsGuarded had ds
      → IsGuarded had (es ++ ds)
  IsGuarded-append had [] ds t g = g
  IsGuarded-append had (e ∷ es) ds t g =
      ((λ w. IsTaken-append had es ds t), IsGuarded-append had es ds t g)

  IsGuarded-Extends :
      (had : Bool) (s t : State)
      → Extends s t
      → IsTaken had s.events
      → IsGuarded had s.events
      → IsGuarded had t.events
  IsGuarded-Extends had s t (m, (es, e)) h g = rw e (IsGuarded-append had es s.events h g)

  abbrev pub Keeps : {A : Type 0} → Bool → Ended A × State → Type 0
  Keeps had = Holds (λ a t. IsGuarded had t.events) (λ e t. IsGuarded had t.events)

  pub Keeps-held : {A : Type 0} (had : Bool) (e : Ended A × State) → had ≡ true → Keeps had e
  Keeps-held had (value a, s) h = IsGuarded-held had s.events h
  Keeps-held had (returns p, s) h = IsGuarded-held had s.events h
  Keeps-held had (panicked, s) h = IsGuarded-held had s.events h
  Keeps-held had (unfinished, s) h = IsGuarded-held had s.events h

  pub IsGuarded-Keeps :
      {A : Type 0} (had : Bool) (e : Ended A × State) → Keeps had e → IsGuarded had e.1.events
  IsGuarded-Keeps had (value a, s) h = h
  IsGuarded-Keeps had (returns p, s) h = h
  IsGuarded-Keeps had (panicked, s) h = h
  IsGuarded-Keeps had (unfinished, s) h = h

module _ (r : Reconciler)
    (add_lem : (z : HostedZone) (f : Text)
      → (contains (r.deployer.add_finalizer z f).0.meta.finalizers f ≡ true)
        × ((r.deployer.add_finalizer z f).1 ≡ not (contains z.meta.finalizers f)))
    (remove_lem : (z : HostedZone) (f : Text)
      → (r.deployer.remove_finalizer z f).0.spec.parent_ref ≡ z.spec.parent_ref)
    (had : Bool) where
  abbrev d : Deployer
  d = r.deployer

  abbrev Guards : {A : Type 0} → Ended A × State → Type 0
  Guards = Keeps d.finalizer had

  -- A nested zone, or one that has the finalizer by now.
  abbrev MayGoOn : HostedZone → State → Type 0
  MayGoOn z s = (is_empty z.spec.parent_ref ≡ false) ⊎ IsTaken d.finalizer had s.events

  handle_external-Guards :
      (s : State)
      → IsTaken d.finalizer had s.events
      → IsGuarded d.finalizer had s.events
      → Guards (handle_external_resources d s)
  handle_external-Guards s t g =
      Holds-weaken (λ u w. Extends s w) (λ u w. IsGuarded d.finalizer had w.events)
        (λ e w. Extends s w) (λ e w. IsGuarded d.finalizer had w.events)
        (handle_external_resources d s) (λ u w x. IsGuarded-Extends d.finalizer had s w x t g)
        (λ e w x. IsGuarded-Extends d.finalizer had s w x t g)
        ((handle_external_resources-Appends d).holds s)

  after_acceptance-Guards :
      (root : Responsibility) (z : HostedZone) (s : State)
      → MayGoOn z s
      → IsGuarded d.finalizer had s.events
      → Guards (after_acceptance r root z s)
  unfolding after_acceptance
  after_acceptance-Guards root z s (inl nested) g = rw nested g
  after_acceptance-Guards root z s (inr t) g =
      if-cases _ _ (λ (m : Action State (Unit {0})). Guards (m s))
        (not (is_empty z.spec.parent_ref)) g
        (handle_external-Guards (record s { object = some z }) t g)

  of_validation-Guards :
      (root : Responsibility) (z : HostedZone) (v : Text × Option Text) (s : State)
      → MayGoOn z s
      → IsGuarded d.finalizer had s.events
      → Guards (of_validation r root z v s)
  unfolding of_validation accept
  of_validation-Guards root z (reason, some m) s h g = g
  of_validation-Guards root z (reason, none) s h g =
      after_acceptance-Guards root (accept r reason z) s h g

  pub handle_object-Guards :
      (root : Responsibility) (z : HostedZone) (s : State)
      → MayGoOn z s
      → IsGuarded d.finalizer had s.events
      → Guards (handle_object r root z s)
  unfolding handle_object
  handle_object-Guards root z s h g = of_validation-Guards root z (validate d.external root z) s h g
