-- ===== src/Direct/Deployment/Reconciling/Registering.antt =====
-- What the controller registers for a root zone, and whether it gives the zone up later.
use kubedns.Prelude.{
  nat_eq, Text, text_eq, ◌≡◌, refl, sym, ◌∙◌, subst, ◌≢◌, ◌↔◌, ◌⊎◌, inl, inr, true, Option, none,
  some, [],
}
use kubedns.Api.{HostedZone, Observed}
use kubedns.Common.Cluster.{contains, string_or}
use kubedns.Direct.Fields.{set_pointer_field}
use kubedns.Direct.ZoneRequest.{changed_responsibility}
use kubedns.Direct.ZoneRequest.Deciding.{MustGo, changed_responsibility_iff}
use kubedns.Direct.Deployment.Reconciling.{Reconciler, accept}

-- The zone does not ask for the runtime and the class of the controller.
abbrev pub AsksForOther : Reconciler → HostedZone → Type 0
AsksForOther r z =
    (string_or r.runtime [] ≢ string_or z.spec.runtime [])
    ⊎ (string_or r.class [] ≢ string_or z.spec.class [])

module _ (r : Reconciler) (reason : Text) (z : HostedZone) where
  accept-registers :
      z.spec.parent_ref ≡ []
      → z.status.observed ≡ none
      → (accept r reason z).status.observed
        ≡ some (record { runtime = string_or r.runtime []; class = string_or r.class [] })
  unfolding accept set_pointer_field
  accept-registers root new = rw (new, root) refl

  -- The controller gives an object up exactly when it vanished, or when it is a zone with the
  -- finalizer that is nested or whose registered runtime or class differs from the specified one. So
  -- a root zone for which nothing was registered is given up after it was accepted exactly when it
  -- has the finalizer and asks for another runtime or another class than the controller has.
  pub changed_responsibility-accept :
      (finalizer : Text) (o : Option HostedZone)
      → z.spec.parent_ref ≡ []
      → z.status.observed ≡ none
      → ((changed_responsibility finalizer o ≡ true) ↔ MustGo finalizer o)
        × ((changed_responsibility finalizer (some (accept r reason z)) ≡ true)
            ↔ ((contains z.meta.finalizers finalizer ≡ true) × AsksForOther r z))
  unfolding accept
  changed_responsibility-accept finalizer o root new =
      let kept = changed_responsibility_iff finalizer (some (accept r reason z)) in
      let is = accept-registers root new in
      (
        changed_responsibility_iff finalizer o,
        (
          (λ h.
              let (held, why) = kept.0 h in
              (
                held,
                elim why [
                  | inl nested ↦ absurd (nested root)
                  | inr (b, same, k) ↦
                      let at_b : b ≡ _ = cc (sym same ∙ is) in
                      subst
                        (λ (w : Observed).
                          (w.runtime ≢ string_or z.spec.runtime [])
                          ⊎ (w.class ≢ string_or z.spec.class []))
                        at_b k
                ],
              )),
          (λ h. kept.1 (h.0, inr (_, is, h.1))),
        ),
      )
