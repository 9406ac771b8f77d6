-- ===== src/Direct/Deployment/Applying/Running.antt =====
-- The loop over the manifests of a server for the runtime: what it applies, and which deployment and
-- which service it finds.
use kubedns.Prelude.{
  ap, ◌∙◌, ◌⊎◌, inr, if◌then◌else◌, All, Any, Text, text, ◌≡◌, refl, sym, subst, inl, Bool-cases,
  Bool, true, false, none, some, List, [], ◌∷◌, ◌++◌,
}
use kubedns.Common.Calls.{◌>>=◌, Action, Holds, >>=-Holds, Holds-weaken, pure, return}
use kubedns.Common.Cluster.{Fetched, found, not_found, get_error, temporary}
use kubedns.Direct.Readiness.{Service}
use kubedns.Direct.Deployment.{
  State, runtime, Event, Decoded, Applied, applied_to, apply_error, called, applied, got_service,
}
use kubedns.Direct.Deployment.Growth.{Extends, Extends-refl, Extends-trans, Any-Extends}
use kubedns.Direct.Deployment.Manifests.{Deployer, Manifests}
use kubedns.Direct.Deployment.Removing.{delete_manifest}
use kubedns.Direct.Deployment.Removing.Deleting.{delete_manifest-Deletes}
use kubedns.Direct.Deployment.Reporting.{Deployed}
use kubedns.Direct.Deployment.Applying.{
  check_not_modifiable_error, of_applied, apply_data, of_service_read, note_service,
  note_deployment, of_runtime_applied, apply_runtime,
}
use kubedns.Direct.Deployment.Applying.Deploying.{
  Failing, IsApplied, AllApplied, applied_error-Failing,
}
use kubedns.Api.{ObjectKey}

-- The manifests were applied, and the cluster answered with these objects.
abbrev pub AppliedAs : List Event → Manifests → List Decoded → Type 0
AppliedAs es [] [] = Unit
AppliedAs es (m ∷ ms) (o ∷ os) =
    Any (λ e. e ≡ applied runtime m.1 (applied_to o)) es × AppliedAs es ms os
AppliedAs es ms os = ⊥

-- The key is that of one of the objects that is a deployment, or the first key if none is.
abbrev pub IsNamed : List Decoded → ObjectKey → ObjectKey → Type 0
IsNamed os first k =
    Any (λ (o : Decoded). (o.is_deployment ≡ true) × (o.key ≡ k)) os
    ⊎ (All (λ (o : Decoded). o.is_deployment ≡ false) os × (k ≡ first))

-- One of the objects is a service, and it was read under its key.
abbrev pub IsServedBy : List Decoded → List Event → Service → Type 0
IsServedBy os es v =
    Any (λ (o : Decoded). (o.is_service ≡ true) × Any (λ e. e ≡ got_service o.key (found v)) es) os

-- What the loop has done that found `r'` from `r`.
pub record Runs (ms : Manifests) (r : Deployed) (s : State) (r' : Deployed) (t : State)
    : Type 0 where
  pub extends : Extends s t
  pub objects : List Decoded
  pub applied_as : AppliedAs t.events ms objects
  pub named : IsNamed objects r.deployment_name r'.deployment_name
  pub served :
      (v : Service) → r'.service ≡ some v → IsServedBy objects t.events v ⊎ (r.service ≡ some v)

Any-imp : (T U : Event → Type 0) (es : List Event) → ((e : Event) → T e → U e) → Any T es → Any U es
Any-imp T U [] f h = h
Any-imp T U (e ∷ es) f (inl h) = inl (f e h)
Any-imp T U (e ∷ es) f (inr h) = inr (Any-imp T U es f h)

pub AppliedAs-AllApplied :
    (es : List Event) (ms : Manifests) (os : List Decoded)
    → AppliedAs es ms os
    → AllApplied runtime es ms
AppliedAs-AllApplied es [] os h = tt
AppliedAs-AllApplied es (m ∷ ms) [] h = absurd h
AppliedAs-AllApplied es (m ∷ ms) (o ∷ os) (h, k) = (
  Any-imp (λ e. e ≡ applied runtime m.1 (applied_to o)) (IsApplied runtime m.1) es
      (λ e same. subst (IsApplied runtime m.1) (sym same) (refl, refl)) h,
  AppliedAs-AllApplied es ms os k,
)

pub AppliedAs-Extends :
    (s t : State) (ms : Manifests) (os : List Decoded)
    → Extends s t
    → AppliedAs s.events ms os
    → AppliedAs t.events ms os
AppliedAs-Extends s t [] [] x h = tt
AppliedAs-Extends s t [] (o ∷ os) x h = h
AppliedAs-Extends s t (m ∷ ms) [] x h = h
AppliedAs-Extends s t (m ∷ ms) (o ∷ os) x (h, k) = (
  Any-Extends (λ e. e ≡ applied runtime m.1 (applied_to o)) s t x h,
  AppliedAs-Extends s t ms os x k,
)

pub IsServedBy-Extends :
    (s t : State) (os : List Decoded) (v : Service)
    → Extends s t
    → IsServedBy os s.events v
    → IsServedBy os t.events v
IsServedBy-Extends s t [] v x h = h
IsServedBy-Extends s t (o ∷ os) v x (inl (is, h)) =
    inl (is, Any-Extends (λ e. e ≡ got_service o.key (found v)) s t x h)
IsServedBy-Extends s t (o ∷ os) v x (inr h) = inr (IsServedBy-Extends s t os v x h)

-- What is noted of an applied object: the service that was read under its key.
abbrev Notes : Decoded → Deployed → State → Deployed → State → Type 0
Notes o r s r' t =
    Extends s t
    × (r'.deployment_name ≡ r.deployment_name)
    × ((v : Service)
        → r'.service ≡ some v
        → ((o.is_service ≡ true) × Any (λ e. e ≡ got_service o.key (found v)) t.events)
          ⊎ (r.service ≡ some v))

module _ (d : Deployer) where
  of_service_read-Notes :
      (r : Deployed) (f : Fetched Service) (o : Decoded) (s : State)
      → o.is_service ≡ true
      → Holds
          (Notes o r s)
          Failing
          (of_service_read d r f (record s { events = got_service o.key f ∷ s.events }))
  unfolding of_service_read
  of_service_read-Notes r (found v) o s e = (
    (refl, (got_service o.key (found v) ∷ [], refl)),
    refl,
    λ w same. inl (e, inl (ap (λ u. got_service o.key (found u)) (cc same))),
  )
  of_service_read-Notes r not_found o s e =
      ((refl, (got_service o.key not_found ∷ [], refl)), refl, λ w same. inr same)
  of_service_read-Notes r (get_error m) o s e = λ q. cc q

  read_if-Notes :
      (b : Bool) (o : Decoded) (r : Deployed) (s : State)
      → o.is_service ≡ b
      → Holds (Notes o r s) Failing (
          (if b
              then called (λ log. d.clusters.get_service log o.key) (got_service o.key)
                >>= of_service_read d r
              else pure r)
            s)
  read_if-Notes true o r s e = of_service_read-Notes r (d.clusters.get_service s.events o.key) o s e
  read_if-Notes false o r s e = (Extends-refl s, refl, λ w same. inr same)

  note_service-Notes :
      (o : Decoded) (r : Deployed) (s : State) → Holds (Notes o r s) Failing (note_service d o r s)
  unfolding note_service
  note_service-Notes o r s = read_if-Notes o.is_service o r s refl

  if_delete-Failing :
      (b : Bool) (doc : Text) (s : State)
      → Holds (λ p t. Unit) Failing ((if b then delete_manifest d runtime doc else pure none) s)
  if_delete-Failing false doc s = tt
  if_delete-Failing true doc s =
      Holds-weaken _ (λ p t. Unit) (λ p t. ⊥) Failing (delete_manifest d runtime doc s)
        (λ p t h. tt) (λ p t h. absurd h) (delete_manifest-Deletes d runtime doc s)

  runtime_error-Failing :
      (doc : Text) (r : Deployed) (i : Bool) (m : Text) (t : State)
      → Holds (λ r' u. ⊥) Failing (of_runtime_applied d doc r (apply_error i m) t)
  unfolding of_runtime_applied
  runtime_error-Failing doc r i m t =
      >>=-Holds (λ p u. Unit) (λ r' u. ⊥) Failing
        (if check_not_modifiable_error i m then delete_manifest d runtime doc else pure none)
        (λ p. return (some (temporary (text "error deploying runtime: " ++ m)))) t
        (if_delete-Failing (check_not_modifiable_error i m) doc t) (λ p u h q. cc q)

  IsNamed-cons :
      (o : Decoded) (os : List Decoded) (r r1 : Deployed) (k : ObjectKey)
      → r1.deployment_name ≡ (note_deployment d o r).deployment_name
      → IsNamed os r1.deployment_name k
      → IsNamed (o ∷ os) r.deployment_name k
  IsNamed-cons o os r r1 k e (inl h) = inl (inr h)
  IsNamed-cons o os r r1 k e (inr (free, same)) = elim (Bool-cases o.is_deployment) [
    | inl is ↦ inl (inl (is, sym (same ∙ e ∙ rw is refl)))
    | inr not_it ↦ inr ((not_it, free), same ∙ e ∙ rw not_it refl)
  ]

  next-Runs :
      (n doc : Text) (ms : Manifests) (o : Decoded) (r r1 r' : Deployed) (s t u : State)
      → Notes o
          (note_deployment d o r)
          (record s { events = applied runtime doc (applied_to o) ∷ s.events })
          r1
          t
      → Runs ms r1 t r' u
      → Runs ((n, doc) ∷ ms) r s r' u
  next-Runs n doc ms o r r1 r' s t u (x, name, note) run =
      let s' : State = record s { events = applied runtime doc (applied_to o) ∷ s.events } in
      let y = Extends-trans s' t u x run.extends in
      record {
        extends = Extends-trans s s' u (refl, (applied runtime doc (applied_to o) ∷ [], refl)) y;
        objects = o ∷ run.objects;
        applied_as = (
          Any-Extends (λ e. e ≡ applied runtime doc (applied_to o)) s' u y (inl refl),
          run.applied_as,
        );
        named = IsNamed-cons o run.objects r r1 r'.deployment_name name run.named;
        served = λ v same. elim (run.served v same) [
          | inl later ↦ inl (inr later)
          | inr now ↦ elim (note v now) [
            | inl (is, read) ↦
                inl (
                  inl (is, Any-Extends (λ e. e ≡ got_service o.key (found v)) t u run.extends read))
            | inr before ↦ inr (served_before o r v before)
          ]
        ];
      }
    where
      served_before :
          (o : Decoded) (r : Deployed) (v : Service)
          → (note_deployment d o r).service ≡ some v
          → r.service ≡ some v
      served_before o r v e = elim (Bool-cases o.is_deployment) [
        | inl is ↦ rw is at e
        | inr not_it ↦ rw not_it at e
      ]

  -- The steps of the loop for a manifest.
  abbrev runtime_steps : Text → Deployed → Manifests → Applied → Action State Deployed
  runtime_steps doc r ms b = of_runtime_applied d doc r b >>= λ r'. apply_runtime d ms r'

  runtime_steps-Runs :
      (n doc : Text) (ms : Manifests) (r : Deployed) (a : Applied) (s : State)
      → ((r' : Deployed) (t : State) → Holds (Runs ms r' t) Failing (apply_runtime d ms r' t))
      → Holds (Runs ((n, doc) ∷ ms) r s) Failing (
          (of_applied d a >>= runtime_steps doc r ms)
            (record s { events = applied runtime doc a ∷ s.events }))
  unfolding of_applied of_runtime_applied
  runtime_steps-Runs n doc ms r (applied_to o) s rest =
      let s' : State = record s { events = applied runtime doc (applied_to o) ∷ s.events } in
      >>=-Holds (Notes o (note_deployment d o r) s') (Runs ((n, doc) ∷ ms) r s) Failing
        (note_service d o (note_deployment d o r)) (λ r'. apply_runtime d ms r') s'
        (note_service-Notes o (note_deployment d o r) s')
        (λ r1 t x.
          Holds-weaken (Runs ms r1 t) (Runs ((n, doc) ∷ ms) r s) Failing Failing
            (apply_runtime d ms r1 t) (λ r' u run. next-Runs n doc ms o r r1 r' s t u x run)
            (λ p u k. k) (rest r1 t))
  runtime_steps-Runs n doc ms r (apply_error i m) s rest =
      Holds-weaken (λ r' u. ⊥) (Runs ((n, doc) ∷ ms) r s) Failing Failing _ (λ r' u k. absurd k)
        (λ p u k. k)
        (applied_error-Failing d (runtime_steps doc r ms) i m _ (λ t.
          >>=-Holds (λ r' u. ⊥) (λ r' u. ⊥) Failing (of_runtime_applied d doc r (apply_error i m))
            (λ r'. apply_runtime d ms r') t (runtime_error-Failing doc r i m t)
            (λ r' u h. absurd h)))

  pub apply_runtime-Runs :
      (ms : Manifests) (r : Deployed) (s : State)
      → Holds (Runs ms r s) Failing (apply_runtime d ms r s)
  unfolding apply_runtime apply_data
  apply_runtime-Runs [] r s = record {
    extends = Extends-refl s;
    objects = [];
    applied_as = tt;
    named = inr (tt, refl);
    served = λ v same. inr same;
  }
  apply_runtime-Runs ((n, doc) ∷ ms) r s =
      runtime_steps-Runs n doc ms r (d.clusters.apply s.events runtime doc) s
        (apply_runtime-Runs ms)
