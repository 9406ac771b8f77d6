-- ===== src/Direct/Deployment/Applying/Deploying.antt =====
-- What is applied by the loops over the manifests of a server.
use kubedns.Prelude.{
  All, Any, Text, text, ◌≡◌, refl, sym, subst, inl, Bool, Option, none, some, List, [], ◌∷◌,
}
use kubedns.Common.Calls.{◌>>=◌, ◌>>◌, Action, Ended, Holds, >>=-Holds, Holds-weaken, pure}
use kubedns.Api.{HostedZone}
use kubedns.Common.Cluster.{Problem}
use kubedns.Direct.Deployment.{
  State, Side, dataplane, runtime, Event, Decoded, Applied, applied_to, apply_error, applied,
}
use kubedns.Direct.Deployment.Growth.{Extends, Extends-refl, Extends-trans, Any-Extends}
use kubedns.Direct.Deployment.Manifests.{Deployer, Manifests}
use kubedns.Direct.Deployment.Reporting.{change, change_of}
use kubedns.Direct.Deployment.Applying.{
  of_applied, apply_data, of_dataplane_applied, apply_dataplane, with_update_failed,
  apply_dns_runtime,
}

-- A manifest was applied.
abbrev pub IsApplied : Side → Text → Event → Type 0
IsApplied side doc (applied at m (applied_to o)) = (at ≡ side) × (m ≡ doc)
IsApplied side doc e = ⊥

abbrev pub AllApplied : Side → List Event → Manifests → Type 0
AllApplied side es ms = All (λ m. Any (IsApplied side m.1) es) ms

pub AllApplied-Extends :
    (side : Side) (s t : State) (ms : Manifests)
    → Extends s t
    → AllApplied side s.events ms
    → AllApplied side t.events ms
AllApplied-Extends side s t [] x h = tt
AllApplied-Extends side s t (m ∷ ms) x (h, k) =
    (Any-Extends (IsApplied side m.1) s t x h, AllApplied-Extends side s t ms x k)

-- An action that does not end early without a problem.
abbrev pub Failing : Option (Option Problem) → State → Type 0
Failing p t = ¬ (p ≡ some none)

abbrev pub Applies : {A : Type 0} → Side → Manifests → State → Ended A × State → Type 0
Applies side ms s = Holds (λ a t. Extends s t × AllApplied side t.events ms) Failing

-- The rest of a loop, after a manifest.
next-Applies :
    {A : Type 0} (side : Side) (n doc : Text) (o : Decoded) (ms : Manifests) (s t : State)
    (r : Ended A × State)
    → Extends (record s { events = applied side doc (applied_to o) ∷ s.events }) t
    → Applies side ms t r
    → Applies side ((n, doc) ∷ ms) s r
next-Applies {A = A} side n doc o ms s t r x h =
    let s' = record s { events = applied side doc (applied_to o) ∷ s.events } in
    Holds-weaken (λ (a : A) u. Extends t u × AllApplied side u.events ms)
      (λ a u. Extends s u × AllApplied side u.events ((n, doc) ∷ ms)) Failing Failing r
      (λ a u k.
        let y = Extends-trans s' t u x k.0 in
        (
          Extends-trans s s' u (refl, (applied side doc (applied_to o) ∷ [], refl)) y,
          (Any-Extends (IsApplied side doc) s' u y (inl (refl, refl)), k.1),
        ))
      (λ p u k. k) h

module _ (d : Deployer) where
  of_dataplane-Applies :
      (m n doc : Text) (ms : Manifests) (a : Applied) (s : State)
      → ((t : State) → Applies dataplane ms t (apply_dataplane d m ms t))
      → Applies dataplane ((n, doc) ∷ ms) s (
          (of_dataplane_applied d m a >> apply_dataplane d m ms)
            (record s { events = applied dataplane doc a ∷ s.events }))
  unfolding of_dataplane_applied
  of_dataplane-Applies m n doc ms (applied_to o) s rest =
      let s' : State = record s { events = applied dataplane doc (applied_to o) ∷ s.events } in
      next-Applies dataplane n doc o ms s s' _ (Extends-refl s') (rest s')
  of_dataplane-Applies m n doc ms (apply_error i e) s rest = λ q. cc q

  pub apply_dataplane-Applies :
      (m : Text) (ms : Manifests) (s : State) → Applies dataplane ms s (apply_dataplane d m ms s)
  unfolding apply_dataplane
  apply_dataplane-Applies m [] s = (Extends-refl s, tt)
  apply_dataplane-Applies m ((n, doc) ∷ ms) s =
      of_dataplane-Applies m n doc ms (d.clusters.apply s.events dataplane doc) s
        (apply_dataplane-Applies m ms)

  change_of-Failing :
      (f : HostedZone → HostedZone) (o : Option HostedZone) (s : State)
      → Holds (λ u t. Unit) Failing (change_of d f o s)
  change_of-Failing f none s = λ q. cc q
  change_of-Failing f (some z) s = tt

  pub change-Failing :
      (f : HostedZone → HostedZone) (s : State) → Holds (λ u t. Unit) Failing (change d f s)
  change-Failing f s = change_of-Failing f s.object s

  -- What comes after an error of a manifest of the runtime.
  pub applied_error-Failing :
      {A : Type 0} (f : Applied → Action State A) (i : Bool) (m : Text) (s : State)
      → ((t : State) → Holds (λ a u. ⊥) Failing (f (apply_error i m) t))
      → Holds (λ a u. ⊥) Failing ((of_applied d (apply_error i m) >>= f) s)
  unfolding of_applied
  applied_error-Failing {A = A} f i m s h =
      >>=-Holds (λ b t. b ≡ apply_error i m) (λ a u. ⊥) Failing (of_applied d (apply_error i m)) f s
        (>>=-Holds (λ u t. Unit) (λ b t. b ≡ apply_error i m) Failing
          (change d (with_update_failed d m)) (λ u. pure (apply_error i m)) s
          (change-Failing (with_update_failed d m) s) (λ u t k. refl))
        (λ b t e. subst (λ c. Holds (λ (a : A) u. ⊥) Failing (f c t)) (sym e) (h t))

  failed-Applies :
      {A : Type 0} (side : Side) (ms : Manifests) (s : State) (r : Ended A × State)
      → Holds (λ a u. ⊥) Failing r
      → Applies side ms s r
  failed-Applies {A = A} side ms s r h =
      Holds-weaken (λ (a : A) u. ⊥) (λ a u. Extends s u × AllApplied side u.events ms) Failing
        Failing r (λ a u k. absurd k) (λ p u k. k) h

  -- The steps of the loop for a manifest of a DNS mode.
  abbrev dns_steps : Manifests → Applied → Action State Unit
  dns_steps ms b =
      of_dataplane_applied d (text "error deploying nameserver dns runtime: ") b
      >> apply_dns_runtime d ms

  dns_steps-Applies :
      (n doc : Text) (ms : Manifests) (a : Applied) (s : State)
      → ((t : State) → Applies runtime ms t (apply_dns_runtime d ms t))
      → Applies runtime ((n, doc) ∷ ms) s (
          (of_applied d a >>= dns_steps ms)
            (record s { events = applied runtime doc a ∷ s.events }))
  unfolding of_applied of_dataplane_applied
  dns_steps-Applies n doc ms (applied_to o) s rest =
      let s' : State = record s { events = applied runtime doc (applied_to o) ∷ s.events } in
      next-Applies runtime n doc o ms s s' _ (Extends-refl s') (rest s')
  dns_steps-Applies n doc ms (apply_error i m) s rest =
      failed-Applies runtime ((n, doc) ∷ ms) s _
        (applied_error-Failing (dns_steps ms) i m _ (λ t q. cc q))

  pub apply_dns_runtime-Applies :
      (ms : Manifests) (s : State) → Applies runtime ms s (apply_dns_runtime d ms s)
  unfolding apply_dns_runtime apply_data
  apply_dns_runtime-Applies [] s = (Extends-refl s, tt)
  apply_dns_runtime-Applies ((n, doc) ∷ ms) s =
      dns_steps-Applies n doc ms (d.clusters.apply s.events runtime doc) s
        (apply_dns_runtime-Applies ms)
