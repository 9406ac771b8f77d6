-- ===== src/Direct/Deployment/Reconciling/Taking.antt =====
-- The reconciliation of a zone as a whole, whatever the clusters answer.
use kubedns.Prelude.{
  Bool-cases, nat_eq, if-cases, is_empty, Text, text_eq, ◌≡◌, refl, sym, ap, ◌∙◌, ◌⊎◌, inl, inr,
  Bool, true, false, not, Option, none, some, List, [], ◌∷◌,
}
use kubedns.Api.{HostedZone, ObjectMeta}
use kubedns.Common.Calls.{Ended, Action, CallError, Holds, >>=-Holds}
use kubedns.Common.Cluster.{Problem, contains}
use kubedns.Common.Responsibility
use kubedns.Common.Responsibility.{
  Responsibility, RootInfo, info, config_problem, temporary_problem, get_root_info,
}
use kubedns.Direct.ZoneRequest.{
  Responsible, report_problem, of_root, is_responsible, changed_responsibility,
}
use kubedns.Zonemodel.Outcome.{Outcome, ok, err}
use kubedns.Direct.Deployment.{State, Event, patched}
use kubedns.Direct.Deployment.Removing.{patch_if, return_error}
use kubedns.Direct.Deployment.Manifests.{Deployer}
use kubedns.Direct.Deployment.Reconciling.{
  Reconciler, handle_object, adjust_finalizer, patch_and_handle, take_zone, take_or_delete,
  of_responsible, of_object, of_outcome, has_plain_fields, reconcile,
}
use kubedns.Direct.Deployment.Reconciling.Guarding.{
  IsTaken, IsGuarded, Keeps, IsGuarded-held, IsGuarded-Keeps, handle_object-Guards,
}

module _ (r : Reconciler)
    (add_lem : (z : HostedZone) (f : Text)
      → (contains (r.deployer.add_finalizer z f).0.meta.finalizers f ≡ true)
        × ((r.deployer.add_finalizer z f).1 ≡ not (contains z.meta.finalizers f)))
    (remove_lem : (z : HostedZone) (f : Text)
      → (r.deployer.remove_finalizer z f).0.spec.parent_ref ≡ z.spec.parent_ref) where
  abbrev d : Deployer
  d = r.deployer

  abbrev held : HostedZone → Bool
  held z = contains z.meta.finalizers d.finalizer

  abbrev Guarded : List Event → Type 0
  Guarded = IsGuarded d.finalizer false

  abbrev Guards : {A : Type 0} → Ended A × State → Type 0
  Guards = Keeps d.finalizer false

  -- After the patch, if it was made.
  abbrev IsPatched : Bool → HostedZone → Unit {0} → State → Type 0
  IsPatched changed z u t =
      Guarded t.events × ((changed ≡ true) → held z ≡ true → IsTaken d.finalizer false t.events)

  return_error-IsPatched :
      (a : Option CallError) (z : HostedZone) (s : State)
      → Guarded s.events
      → Holds
          (IsPatched true z)
          (λ e t. Guarded t.events)
          (return_error d a (record s { events = patched z a ∷ s.events }))
  unfolding return_error
  return_error-IsPatched none z s g = (((λ w. absurd (cc w)), g), (λ c h. inr (inl h)))
  return_error-IsPatched (some a) z s g = ((λ w. absurd (cc w)), g)

  patch_if-IsPatched :
      (changed : Bool) (z : HostedZone) (s : State)
      → Guarded s.events
      → Holds (IsPatched changed z) (λ e t. Guarded t.events) (patch_if d changed z s)
  unfolding patch_if
  patch_if-IsPatched false z s g = (g, (λ c. absurd (cc c)))
  patch_if-IsPatched true z s g = return_error-IsPatched (d.clusters.patch s.events z) z s g

  patch_and_handle-Guards :
      (root : Responsibility) (z : HostedZone) (changed : Bool) (s : State)
      → (is_empty z.spec.parent_ref ≡ false) ⊎ ((changed ≡ true) × (held z ≡ true))
      → Guarded s.events
      → Guards (patch_and_handle r root (z, changed) s)
  unfolding patch_and_handle
  patch_and_handle-Guards root z changed s h g =
      let s' : State = record s { object = some z } in
      >>=-Holds (IsPatched changed z) (λ u t. Guarded t.events) (λ e t. Guarded t.events)
        (patch_if d changed z) (λ u. handle_object r root z) s' (patch_if-IsPatched changed z s' g)
        (λ u t k.
          handle_object-Guards r add_lem remove_lem false root z t
            (elim h [ inl nested ↦ inl nested | inr (c, x) ↦ inr (k.1 c x) ]) k.0)

  adjust_finalizer-Guards :
      (top : Bool) (root : Responsibility) (z : HostedZone) (s : State)
      → is_empty z.spec.parent_ref ≡ top
      → held z ≡ false
      → Guarded s.events
      → Guards (patch_and_handle r root (adjust_finalizer r top z) s)
  unfolding adjust_finalizer
  adjust_finalizer-Guards true root z s e free g =
      let (z', changed) = d.add_finalizer z d.finalizer in
      let law = add_lem z d.finalizer in
      patch_and_handle-Guards root z' changed s (inr (law.1 ∙ ap not free, law.0)) g
  adjust_finalizer-Guards false root z s e free g =
      let (z', changed) = d.remove_finalizer z d.finalizer in
      patch_and_handle-Guards root z' changed s (inl (ap is_empty (remove_lem z d.finalizer) ∙ e)) g

  -- A zone without the finalizer gets it before it is handled, or is nested.
  take_zone-Guards :
      (root : Responsibility) (z : HostedZone) (s : State)
      → held z ≡ false
      → Guarded s.events
      → Guards (take_zone r root z s)
  unfolding take_zone
  take_zone-Guards root z s free g =
      adjust_finalizer-Guards (is_empty z.spec.parent_ref) root z s refl free g

  held_of_changed :
      (z : HostedZone) → changed_responsibility d.finalizer (some z) ≡ true → held z ≡ true
  unfolding changed_responsibility
  held_of_changed z e = elim (Bool-cases (held z)) [
    | inl yes_held ↦ yes_held
    | inr free ↦ absurd (cc (rw free at e))
  ]

  take_or_delete-Guards :
      (changed : Bool) (root : Responsibility) (z : HostedZone) (s : State)
      → (changed ≡ true → held z ≡ true)
      → held z ≡ false
      → Guarded s.events
      → Guards (take_or_delete r changed root z s)
  unfolding take_or_delete
  take_or_delete-Guards true root z s h free g = absurd (cc (h refl, free))
  take_or_delete-Guards false root z s h free g = take_zone-Guards root z s free g

  of_responsible-Guards :
      (b : Bool) (p : Option Problem) (root : Option Responsibility) (z : HostedZone) (s : State)
      → held z ≡ false
      → Guarded s.events
      → Guards (of_responsible r b p root z s)
  unfolding of_responsible
  of_responsible-Guards b (some p) root z s free g = g
  of_responsible-Guards false none root z s free g = g
  of_responsible-Guards true none none z s free g = g
  of_responsible-Guards true none (some root) z s free g =
      take_or_delete-Guards (changed_responsibility d.finalizer (some z)) root z s
        (held_of_changed z) free g

  -- The search for the root leaves the metadata of the zone alone.
  abbrev KeepsMeta : HostedZone → Outcome Responsible → Type 0
  KeepsMeta z o =
      (out : Responsible) (z' : HostedZone) → o ≡ ok out → out.object ≡ some z' → z'.meta ≡ z.meta

  of_root-KeepsMeta :
      (z : HostedZone) (i : RootInfo)
      → KeepsMeta z (of_root d.external r.requeues d.finalizer r.class r.runtime z i)
  unfolding of_root
  of_root-KeepsMeta z (info i) out z' e f =
      let same : some z ≡ out.object = cc e in
      let eq : z ≡ z' = cc (same, f) in ap (λ w. w.meta) (sym eq)
  of_root-KeepsMeta z (config_problem p) out z' e f = elim (Bool-cases (r.requeues p)) [
    | inl again ↦
        let same : some z ≡ out.object = cc (rw again at e) in
        let eq : z ≡ z' = cc (same, f) in ap (λ w. w.meta) (sym eq)
    | inr final ↦
        let same : some (report_problem d.external z p) ≡ out.object = cc (rw final at e) in
        let eq : report_problem d.external z p ≡ z' = cc (same, f) in ap (λ w. w.meta) (sym eq)
  ]
  of_root-KeepsMeta z (temporary_problem p) out z' e f =
      let same : some z ≡ out.object = cc e in
      let eq : z ≡ z' = cc (same, f) in ap (λ w. w.meta) (sym eq)
  of_root-KeepsMeta z Responsibility.panicked out z' e f = cc
  of_root-KeepsMeta z Responsibility.unfinished out z' e f = cc

  of_object-Guards :
      (out : Responsible) (o : Option HostedZone) (z : HostedZone) (s : State)
      → ((z' : HostedZone) → o ≡ some z' → z'.meta ≡ z.meta)
      → held z ≡ false
      → Guarded s.events
      → Guards (of_object r out o s)
  unfolding of_object
  of_object-Guards out none z s h free g = g
  of_object-Guards out (some z') z s h free g =
      of_responsible-Guards out.responsible out.problem out.root z' (record s { object = some z' })
        (ap (λ (m : ObjectMeta). contains m.finalizers d.finalizer) (h z' refl) ∙ free) g

  of_outcome-Guards :
      (o : Outcome Responsible) (z : HostedZone) (s : State)
      → KeepsMeta z o
      → held z ≡ false
      → Guarded s.events
      → Guards (of_outcome r o s)
  unfolding of_outcome
  of_outcome-Guards (ok out) z s h free g =
      of_object-Guards out out.object z s (λ z' e. h out z' refl e) free g
  of_outcome-Guards (err m) z s h free g = g
  of_outcome-Guards Outcome.panicked z s h free g = g
  of_outcome-Guards Outcome.unfinished z s h free g = g

  reconcile-Guards :
      (z : HostedZone) (s : State) → held z ≡ false → Guarded s.events → Guards (reconcile r z s)
  unfolding reconcile is_responsible
  reconcile-Guards z s free g =
      if-cases _ _ (λ (m : Action State (Unit {0})). Guards (m s)) (not (has_plain_fields r z)) g
        (of_outcome-Guards _ z s
          (of_root-KeepsMeta z ((get_root_info r.fuel d.external r.get_zone z none).0)) free g)

  -- When AddFinalizer adds the finalizer and says truly whether it was missing, and RemoveFinalizer
  -- leaves the specification alone: in a reconciliation of a zone in the direct mode, every call
  -- that creates or applies an object, in either cluster, comes after the zone had the finalizer or
  -- was patched to have it, whatever the clusters answer.
  pub reconcile_guards :
      (z : HostedZone)
      → IsGuarded d.finalizer
          (held z)
          (reconcile r z (record { object = some z; events = [] })).1.events
  reconcile_guards z =
      let s : State = record { object = some z; events = [] } in
      elim (Bool-cases (held z)) [
        | inl has ↦ IsGuarded-held d.finalizer (held z) _ has
        | inr free ↦
            rw free
              (IsGuarded-Keeps d.finalizer false (reconcile r z s) (reconcile-Guards z s free tt))
      ]
