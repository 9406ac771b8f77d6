-- ===== src/Direct/ZoneRequest/Deciding.antt =====
-- Which zones a controller with a class handles.
use kubedns.Prelude.{
  nat_eq, text_beq_iff, is_empty_iff, Text, text_eq, ◌≡◌, refl, subst, ◌≢◌, ◌↔◌, ◌⊎◌, inl, inr,
  true, Option, none, some, [], arith,
}
use kubedns.External.{External}
use kubedns.Api.{HostedZone, Observed}
use kubedns.Common.Cluster.{contains, string_or}
use kubedns.Common.Responsibility.{Responsibility, RootInfo, info}
use kubedns.Direct.ZoneRequest.{observed_differs, changed_responsibility}

-- The root of the zone was found, and the zone has the finalizer, or the root has the class and
-- the runtime of the controller registered.
abbrev pub IsTaken : Text → Text → Option Text → HostedZone → RootInfo → Type 0
IsTaken finalizer c runtime z i =
    (r : Responsibility) × (i ≡ info r)
    × ((contains z.meta.finalizers finalizer ≡ true)
        ⊎ ((b : Observed) × (r.root.status.observed ≡ some b)
            × (b.class ≡ c)
            × (b.runtime ≡ string_or runtime [])))

-- What the controller gives up: an object that vanished, and a zone with its finalizer that is
-- nested now, or for which another runtime or another class is registered than specified.
abbrev pub MustGo : Text → Option HostedZone → Type 0
MustGo finalizer none = Unit
MustGo finalizer (some z) =
    (contains z.meta.finalizers finalizer ≡ true)
    × ((z.spec.parent_ref ≢ [])
        ⊎ ((b : Observed) × (z.status.observed ≡ some b)
            × ((b.runtime ≢ string_or z.spec.runtime []) ⊎ (b.class ≢ string_or z.spec.class []))))

observed_differs_iff :
    (o : Option Observed) (z : HostedZone)
    → (observed_differs o z ≡ true) ↔ (
        (b : Observed) × (o ≡ some b)
        × ((b.runtime ≢ string_or z.spec.runtime []) ⊎ (b.class ≢ string_or z.spec.class [])))
observed_differs_iff none z = ((λ h. absurd (cc h)), (λ h. absurd (cc h.1)))
observed_differs_iff (some b) z = (
  (λ h. (
    b,
    refl,
    ground (
      arith,
      text_beq_iff b.runtime (string_or z.spec.runtime []),
      text_beq_iff b.class (string_or z.spec.class []),
    ),
  )),
  (λ h.
      let (o, same, k) = h in
      let is_o : o ≡ b = cc same in
      let here : (b.runtime ≢ string_or z.spec.runtime []) ⊎ (b.class ≢ string_or z.spec.class []) =
        subst
          (λ (w : Observed).
            (w.runtime ≢ string_or z.spec.runtime []) ⊎ (w.class ≢ string_or z.spec.class []))
          is_o k in
      ground (
        arith,
        text_beq_iff b.runtime (string_or z.spec.runtime []),
        text_beq_iff b.class (string_or z.spec.class []),
      )),
)

by_tests :
    (finalizer : Text) (z : HostedZone)
    → (changed_responsibility finalizer (some z) ≡ true) ↔ (
        (contains z.meta.finalizers finalizer ≡ true)
        × ((z.spec.parent_ref ≢ []) ⊎ (observed_differs z.status.observed z ≡ true)))
unfolding changed_responsibility
by_tests finalizer z = ground (arith, is_empty_iff z.spec.parent_ref)

-- The controller gives an object up exactly when it vanished, or when it is a zone with the
-- finalizer that is nested or whose registered runtime or class differs from the specified one.
pub changed_responsibility_iff :
    (finalizer : Text) (o : Option HostedZone)
    → (changed_responsibility finalizer o ≡ true) ↔ MustGo finalizer o
unfolding changed_responsibility
changed_responsibility_iff finalizer none = ground arith
changed_responsibility_iff finalizer (some z) =
    let differs = observed_differs_iff z.status.observed z in
    let (there, back) = by_tests finalizer z in
    (
      (λ h.
          let (held, k) = there h in (held, elim k [ inl n ↦ inl n | inr o ↦ inr (differs.0 o) ])),
      (λ h. back (h.0, elim (h.1) [ inl n ↦ inl n | inr o ↦ inr (differs.1 o) ])),
    )
