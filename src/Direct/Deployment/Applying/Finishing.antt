-- ===== src/Direct/Deployment/Applying/Finishing.antt =====
-- What has happened when the report on a server ends without a problem.
use kubedns.Prelude.{Any, text, ◌≡◌, refl, ◌≢◌, ◌⊎◌, inl, inr, Option, none, some, [], ◌∷◌}
use kubedns.Common.Calls.{
  ◌>>=◌, ◌>>◌, Action, Ended, value, Holds, >>=-Holds, Holds-weaken, Holds-both, return,
}
use kubedns.Common.Cluster.{Fetched, found, not_found, get_error, Problem, temporary, requeue}
use kubedns.Direct.Conditions.{summary}
use kubedns.Api.{ObjectKey}
use kubedns.Direct.Readiness.{Service, Deployment}
use kubedns.Direct.DnsModes.{get_cnames}
use kubedns.Direct.Deployment.{State, dataplane, runtime, Event, got_deployment}
use kubedns.Direct.Deployment.Growth.{Extends, Extends-trans, Any-Extends}
use kubedns.Direct.Deployment.Manifests.{Deployer, Manifests}
use kubedns.Direct.Deployment.Reporting.{
  change, Deployed, report_deployment, report_service, report_all, with_cnames,
}
use kubedns.Direct.Deployment.Applying.{apply_dns, apply_dataplane, apply_dns_runtime}
use kubedns.Direct.Deployment.Applying.Deploying.{
  Failing, AllApplied, AllApplied-Extends, apply_dataplane-Applies, apply_dns_runtime-Applies,
  change-Failing,
}
use kubedns.Direct.Deployment.Applying.Ending.{report_rest, report_rest-Appends}

-- The deployment of that key was found.
abbrev pub IsRead : ObjectKey → Event → Type 0
IsRead key (got_deployment k (found dep)) = k ≡ key
IsRead key e = ⊥

-- What holds when an action ends early without a problem.
abbrev pub Ending : (State → Type 0) → Option (Option Problem) → State → Type 0
Ending X p t = p ≡ some none → X t

pub Ending-weaken :
    (X Y : State → Type 0) (r : Ended (Unit {0}) × State)
    → ((t : State) → X t → Y t)
    → Holds (λ u t. ⊥) (Ending X) r
    → Holds (λ u t. ⊥) (Ending Y) r
Ending-weaken X Y r f h =
    Holds-weaken (λ u t. ⊥) (λ u t. ⊥) (Ending X) (Ending Y) r (λ u t k. k) (λ p t k e. f t (k e)) h

-- An action that does not end early without a problem, and then another one.
pub then-Ending :
    {A : Type 0} (Q : A → State → Type 0) (X : State → Type 0) (m : Action State A)
    (f : A → Action State Unit) (s : State)
    → Holds Q Failing (m s)
    → ((a : A) (t : State) → Q a t → Holds (λ u t. ⊥) (Ending X) (f a t))
    → Holds (λ u t. ⊥) (Ending X) ((m >>= f) s)
then-Ending Q X m f s h next =
    >>=-Holds Q (λ u t. ⊥) (Ending X) m f s
      (Holds-weaken Q Q Failing (Ending X) (m s) (λ a t k. k) (λ p t k e. absurd (k e)) h) next

module _ (d : Deployer)
    (aggregate_lem : (p q : Option Problem)
      → d.aggregate p q ≡ none
      → (p ≡ none) × (q ≡ none)) where
  report_service-Failing :
      (o : Option Service) (sum : Option Problem) (s : State)
      → Holds (λ sum' t. sum' ≡ none → (sum ≡ none) × (o ≢ none)) Failing (report_service d o sum s)
  unfolding report_service
  report_service-Failing none sum s =
      >>=-Holds (λ u t. Unit) (λ sum' t. sum' ≡ none → (sum ≡ none) × (none ≢ none)) Failing
        (change d _)
        (λ u t. (value (d.aggregate sum (some (requeue (text "service not found")))), t)) s
        (change-Failing d _ s) (λ u t h e. absurd (cc (aggregate_lem sum _ e).1))
  report_service-Failing (some v) sum s =
      let r = get_cnames d.external d.dns_calls d.dns_handler d.key v in
      >>=-Holds (λ u t. Unit) (λ sum' t. sum' ≡ none → (sum ≡ none) × (some v ≢ none)) Failing
        (change d (with_cnames d r)) (λ u t. (value (d.aggregate sum r.1), t)) s
        (change-Failing d (with_cnames d r) s) (λ u t h e. ((aggregate_lem sum r.1 e).0, λ g. cc g))

  report_deployment-Failing :
      (r : Deployed) (f : Fetched Deployment) (s : State)
      → Holds
          (λ sum t. sum ≡ none → IsRead r.deployment_name (got_deployment r.deployment_name f))
          Failing
          (report_deployment d f s)
  unfolding report_deployment
  report_deployment-Failing r (found dep) s =
      >>=-Holds (λ u t. Unit)
        (λ (sum : Option Problem) t. sum ≡ none → r.deployment_name ≡ r.deployment_name) Failing
        (change d _) (λ u t. (value none, t)) s (change-Failing d _ s) (λ u t h e. refl)
  report_deployment-Failing r not_found s =
      >>=-Holds (λ u t. Unit) (λ (sum : Option Problem) t. sum ≡ none → ⊥) Failing (change d _)
        (λ u t. (value (d.aggregate none (some (temporary (text "not found")))), t)) s
        (change-Failing d _ s) (λ u t h e. cc (aggregate_lem none _ e).1)
  report_deployment-Failing r (get_error m) s = λ e. cc (aggregate_lem none _ e).1

  report_rest-Ending :
      (r : Deployed) (f : Fetched Deployment) (s : State)
      → Holds
          (λ u t. ⊥)
          (Ending (λ t.
            (r.service ≢ none) × IsRead r.deployment_name (got_deployment r.deployment_name f)))
          (report_rest d r f s)
  report_rest-Ending r f s =
      let done = λ (t : State).
        (r.service ≢ none) × IsRead r.deployment_name (got_deployment r.deployment_name f) in
      let last = change d (λ z. record z { status = summary d.external z.status }) in
      then-Ending
        (λ sum t. sum ≡ none → IsRead r.deployment_name (got_deployment r.deployment_name f)) done
        (report_deployment d f)
        (λ sum. report_service d r.service sum >>= λ sum'. last >> return sum') s
        (report_deployment-Failing r f s)
        (λ sum t h.
          then-Ending (λ sum' t'. sum' ≡ none → (sum ≡ none) × (r.service ≢ none)) done
            (report_service d r.service sum) (λ sum'. last >> return sum') t
            (report_service-Failing r.service sum t)
            (λ sum' t' k.
              then-Ending (λ u v. Unit) done last (λ u. return sum') t'
                (change-Failing d (λ z. record z { status = summary d.external z.status }) t')
                (λ u v j e.
                  let none_left : sum' ≡ none = cc e in
                  let both = k none_left in (both.1, h both.0))))

  -- The deployment was found after the state `s`, and there is a service.
  abbrev pub Reported : Deployed → State → State → Type 0
  Reported r s t = Extends s t × (r.service ≢ none) × Any (IsRead r.deployment_name) t.events

  report_all-Ending :
      (r : Deployed) (s : State) → Holds (λ u t. ⊥) (Ending (Reported r s)) (report_all d r s)
  unfolding report_all
  report_all-Ending r s =
      let f = d.clusters.get_deployment s.events r.deployment_name in
      let read = got_deployment r.deployment_name f in
      let s' : State = record s { events = read ∷ s.events } in
      Holds-weaken (λ u t. ⊥ × Extends s' t) (λ u t. ⊥)
        (λ p t. Ending (λ v. (r.service ≢ none) × IsRead r.deployment_name read) p t × Extends s' t)
        (Ending (Reported r s)) (report_rest d r f s') (λ u t h. h.0)
        (λ p t h e. (
          Extends-trans s s' t (refl, (read ∷ [], refl)) h.1,
          (h.0 e).0,
          Any-Extends (IsRead r.deployment_name) s' t h.1 (inl (h.0 e).1),
        ))
        (Holds-both (λ u t. ⊥) (λ u t. Extends s' t)
          (Ending (λ v. (r.service ≢ none) × IsRead r.deployment_name read)) (λ p t. Extends s' t)
          (report_rest d r f s') (report_rest-Ending r f s') ((report_rest-Appends d r f).holds s'))

  -- The manifests `m` of the DNS mode were applied, and the state was reported.
  abbrev pub DnsApplied : Deployed → (Manifests × Manifests) ⊎ Problem → State → State → Type 0
  DnsApplied r m s t =
      (data_ms : Manifests) × (run_ms : Manifests) × (m ≡ inl (data_ms, run_ms))
      × AllApplied dataplane t.events data_ms
      × AllApplied runtime t.events run_ms
      × Reported r s t

  pub apply_dns-Ending :
      (r : Deployed) (m : (Manifests × Manifests) ⊎ Problem) (s : State)
      → Holds (λ u t. ⊥) (Ending (DnsApplied r m s)) (apply_dns d r m s)
  unfolding apply_dns
  apply_dns-Ending r (inr prob) s = λ e. absurd (cc e)
  apply_dns-Ending r (inl (data_ms, run_ms)) s =
      let done = DnsApplied r (inl (data_ms, run_ms)) s in
      let m = text "error deploying nameserver dns dataplane: " in
      then-Ending (λ u t. Extends s t × AllApplied dataplane t.events data_ms) done
        (apply_dataplane d m data_ms) (λ u. apply_dns_runtime d run_ms >> report_all d r) s
        (apply_dataplane-Applies d m data_ms s)
        (λ u t h.
          then-Ending (λ v w. Extends t w × AllApplied runtime w.events run_ms) done
            (apply_dns_runtime d run_ms) (λ v. report_all d r) t
            (apply_dns_runtime-Applies d run_ms t)
            (λ v w k.
              Ending-weaken (Reported r w) done (report_all d r w)
                (λ x j.
                  let later = Extends-trans t w x k.0 j.0 in
                  (
                    data_ms,
                    run_ms,
                    refl,
                    AllApplied-Extends dataplane t x data_ms later h.1,
                    AllApplied-Extends runtime w x run_ms j.0 k.1,
                    (Extends-trans s t x h.0 later, j.1, j.2),
                  ))
                (report_all-Ending r w)))
