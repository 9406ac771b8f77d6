-- ===== src/Direct/Deployment/Applying/Succeeding.antt =====
-- What has happened when `HandleExternalResources` ends without a problem.
use kubedns.Prelude.{
  Any, Text, text, ◌≡◌, refl, ◌≢◌, ◌⊎◌, inl, inr, false, Option, none, some, List, [],
}
use kubedns.Common.Calls.{
  ◌>>=◌, ◌>>◌, Ended, value, panicked, returns, unfinished, Holds, return, caught, return_problem,
}
use kubedns.Common.Cluster.{Problem}
use kubedns.Direct.Readiness.{Service}
use kubedns.Direct.DnsModes.{DnsHandler, by_load_balancer, by_gardener, by_kubedns}
use kubedns.Direct.Deployment.{State, dataplane, runtime, Event, Decoded}
use kubedns.Direct.Deployment.Modes.{Values, values, prepare}
use kubedns.Direct.Deployment.Growth.{Extends, Extends-trans}
use kubedns.Direct.Deployment.Modes.Describing.{AreOfZone, values-AreOfZone}
use kubedns.Api.{ObjectKey}
use kubedns.Direct.Deployment.Applying.Running.{
  Runs, AppliedAs, IsNamed, IsServedBy, AppliedAs-Extends, AppliedAs-AllApplied, IsServedBy-Extends,
  apply_runtime-Runs,
}
use kubedns.Direct.Deployment.Manifests.{Deployer, Manifests, dns_manifests}
use kubedns.Direct.Deployment.Reporting.{Deployed, nothing_deployed}
use kubedns.Direct.Deployment.Applying.{
  without_service, with_service, apply_server, with_url, handle_external_resources, apply_dataplane,
  apply_runtime,
}
use kubedns.Direct.Deployment.Applying.Deploying.{
  Failing, AllApplied, AllApplied-Extends, apply_dataplane-Applies,
}
use kubedns.Direct.Deployment.Applying.Finishing.{
  IsRead, Ending, Ending-weaken, then-Ending, DnsApplied, apply_dns-Ending,
}

-- The key that is looked up when no manifest is a deployment.
abbrev pub no_key : ObjectKey
no_key = record { namespace = []; name = [] }

module _ (d : Deployer) where
  -- The manifests that the DNS mode makes for the service were applied, and the deployment of the
  -- key was found.
  abbrev pub DnsServed : Option Values → Service → ObjectKey → List Event → Type 0
  DnsServed v svc k es =
      (data_ms : Manifests) × (run_ms : Manifests) × (dns_manifests d svc v ≡ inl (data_ms, run_ms))
      × AllApplied dataplane es data_ms
      × AllApplied runtime es run_ms
      × Any (IsRead k) es

  -- The manifests of the runtime were applied; the service that was read is one of the objects
  -- that came of them, and so is the deployment that was found, if any of them is a deployment;
  -- and the DNS mode is served.
  abbrev pub IsServed : Option Values → Manifests → List Event → Type 0
  IsServed v run_ms es =
      (os : List Decoded) × (svc : Service) × (k : ObjectKey) × AppliedAs es run_ms os
      × IsServedBy os es svc
      × IsNamed os no_key k
      × DnsServed v svc k es

  -- The manifests that are rendered for the values and the error `a` of an access: those of the
  -- dataplane were applied; and unless there is an error, the others as well.
  abbrev pub IsDeployedFor : Option Values × Option Text → List Event → Type 0
  IsDeployedFor a es =
      (data_ms : Manifests) × (run_ms : Manifests) × (d.render d.manifests a.0
        ≡ inr (data_ms, run_ms))
      × AllApplied dataplane es data_ms
      × ((a.1 ≢ none) ⊎ (AllApplied runtime es run_ms × IsServed a.0 run_ms es))

  -- What `Values` gives at some time: the values, which are those of the zone, and the error of the
  -- access.
  abbrev pub IsValues : Option Values × Option Text → Type 0
  IsValues a =
      AreOfZone d.clusters d.mode_options d.mode d.key a.0
      × ((s : State) × (t : State) × (values d.clusters d.mode_options d.mode d.key false s
            ≡ (value a, t)))

module _ (d : Deployer)
    (aggregate_lem : (p q : Option Problem)
      → d.aggregate p q ≡ none
      → (p ≡ none) × (q ≡ none)) where
  abbrev Served : Deployed → Option Values → State → State → Type 0
  Served r v s t =
      Extends s t
      × ((svc : Service) × (r.service ≡ some svc) × DnsServed d v svc r.deployment_name t.events)

  without_service-Ending :
      (r : Deployed) (v : Option Values) (h : DnsHandler) (s : State)
      → r.service ≡ none
      → Holds (λ u t. ⊥) (Ending (Served r v s)) (without_service d r h s)
  unfolding without_service
  without_service-Ending r v by_load_balancer s e =
      Ending-weaken (DnsApplied d aggregate_lem r (inl ([], [])) s) (Served r v s) _
        (λ t h. let (a, b, same, x, y, rep) = h in absurd (rep.1 e))
        (apply_dns-Ending d aggregate_lem r (inl ([], [])) s)
  without_service-Ending r v (by_gardener domain class) s e =
      Ending-weaken (DnsApplied d aggregate_lem r (inl ([], [])) s) (Served r v s) _
        (λ t h. let (a, b, same, x, y, rep) = h in absurd (rep.1 e))
        (apply_dns-Ending d aggregate_lem r (inl ([], [])) s)
  without_service-Ending r v (by_kubedns domain class namespace) s e = λ q. absurd (cc q)

  with_service-Ending :
      (r : Deployed) (v : Option Values) (o : Option Service) (s : State)
      → r.service ≡ o
      → Holds (λ u t. ⊥) (Ending (Served r v s)) (with_service d r v o s)
  unfolding with_service
  with_service-Ending r v (some svc) s e =
      Ending-weaken (DnsApplied d aggregate_lem r (dns_manifests d svc v) s) (Served r v s) _
        (λ t h. let (a, b, same, x, y, rep) = h in (rep.0, (svc, e, (a, b, same, x, y, rep.2))))
        (apply_dns-Ending d aggregate_lem r (dns_manifests d svc v) s)
  with_service-Ending r v none s e = without_service-Ending r v d.dns_handler s e

  apply_server-Ending :
      (v : Option Values) (repeat : Option Text) (ms : Text ⊎ (Manifests × Manifests)) (s : State)
      → d.render d.manifests v ≡ ms
      → Holds
          (λ u t. ⊥)
          (Ending (λ t. IsDeployedFor d (v, repeat) t.events))
          (apply_server d v repeat ms s)
  unfolding apply_server
  apply_server-Ending v repeat (inl m) s e = λ q. absurd (cc q)
  apply_server-Ending v (some m) (inr (data_ms, run_ms)) s e =
      then-Ending (λ u t. Extends s t × AllApplied dataplane t.events data_ms)
        (λ t. IsDeployedFor d (v, some m) t.events)
        (apply_dataplane d (text "error deploying dataplane: ") data_ms) (λ u. return none) s
        (apply_dataplane-Applies d (text "error deploying dataplane: ") data_ms s)
        (λ u t h q. (data_ms, run_ms, e, h.1, inl (λ g. cc g)))
  apply_server-Ending v none (inr (data_ms, run_ms)) s e =
      let done = λ (t : State). IsDeployedFor d (v, none) t.events in
      then-Ending (λ u t. Extends s t × AllApplied dataplane t.events data_ms) done
        (apply_dataplane d (text "error deploying dataplane: ") data_ms)
        (λ u. apply_runtime d run_ms nothing_deployed >>= λ r. with_service d r v r.service) s
        (apply_dataplane-Applies d (text "error deploying dataplane: ") data_ms s)
        (λ u t h.
          then-Ending (λ r w. Runs run_ms nothing_deployed t r w) done
            (apply_runtime d run_ms nothing_deployed) (λ r. with_service d r v r.service) t
            (apply_runtime-Runs d run_ms nothing_deployed t)
            (λ r w k.
              Ending-weaken (Served r v w) done (with_service d r v r.service w)
                (λ x (more, (svc, is, dns)).
                  let those = AppliedAs-Extends w x run_ms k.objects more k.applied_as in
                  (
                    data_ms,
                    run_ms,
                    e,
                    AllApplied-Extends dataplane t x data_ms (Extends-trans t w x k.extends more)
                        h.1,
                    inr (
                      AppliedAs-AllApplied x.events run_ms k.objects those,
                      (
                        k.objects,
                        svc,
                        r.deployment_name,
                        those,
                        elim (k.served svc is) [
                          | inl there ↦ IsServedBy-Extends w x k.objects svc more there
                          | inr before ↦ absurd (cc before)
                        ],
                        k.named,
                        dns,
                      ),
                    ),
                  ))
                (with_service-Ending r v r.service w refl)))

  -- The manifests of the server were applied for values of that kind.
  abbrev pub IsDeployedIn : State → Type 0
  IsDeployedIn t = (a : Option Values × Option Text) × IsValues d a × IsDeployedFor d a t.events

  values_result :
      (e : Ended (Option Values × Option Text) × State) (s : State)
      → Holds (λ a t. AreOfZone d.clusters d.mode_options d.mode d.key a.0) (λ p t. ⊥) e
      → Holds
          (λ a t. AreOfZone d.clusters d.mode_options d.mode d.key a.0 × (e ≡ (value a, t)))
          Failing
          e
  values_result (value a, t) s h = (h, refl)
  values_result (returns p, t) s h = absurd h
  values_result (panicked, t) s h = absurd h
  values_result (unfinished, t) s h = absurd h

  caught-Failing :
      (e : Ended (Unit {0}) × State) → Holds (λ p t. Unit) Failing (caught (λ _. e) e.1)
  caught-Failing (value u, t) = tt
  caught-Failing (returns p, t) = tt
  caught-Failing (panicked, t) = λ e. cc e
  caught-Failing (unfinished, t) = λ e. cc e

  return_problem-Failing :
      (p : Option Problem) (s : State) → Holds (λ u t. Unit) Failing (return_problem p s)
  return_problem-Failing none s = tt
  return_problem-Failing (some q) s = λ e. cc e

  with_url-Ending :
      (url : Text ⊎ Text) (s : State) → Holds (λ u t. ⊥) (Ending IsDeployedIn) (with_url d url s)
  unfolding with_url
  with_url-Ending (inl m) s = λ e. absurd (cc e)
  with_url-Ending (inr url) s =
      let read = values d.clusters d.mode_options d.mode d.key false in
      let of_zone = AreOfZone d.clusters d.mode_options d.mode d.key in
      then-Ending (λ a t. of_zone a.0 × (read s ≡ (value a, t))) IsDeployedIn read
        (λ r. apply_server d r.0 r.1 (d.render d.manifests r.0)) s
        (values_result (read s) s (values-AreOfZone d.clusters d.mode_options d.mode d.key false s))
        (λ a t e.
          Ending-weaken (λ w. IsDeployedFor d a w.events) IsDeployedIn _
            (λ w h. (a, (e.0, (s, t, e.1)), h))
            (apply_server-Ending a.0 a.1 (d.render d.manifests a.0) t refl))

  handle-Ending :
      (s : State) → Holds (λ u t. ⊥) (Ending IsDeployedIn) (handle_external_resources d s)
  unfolding handle_external_resources
  handle-Ending s =
      let made = prepare d.clusters d.mode_options d.mode d.key in
      then-Ending (λ p t. Unit) IsDeployedIn (caught made)
        (λ p. return_problem p >> with_url d d.clusters.api_server_url) s (caught-Failing (made s))
        (λ p t h.
          then-Ending (λ u w. Unit) IsDeployedIn (return_problem p)
            (λ u. with_url d d.clusters.api_server_url) t (return_problem-Failing p t)
            (λ u w k. with_url-Ending d.clusters.api_server_url w))

  Ending-result :
      (X : State → Type 0) (r : Ended (Unit {0}) × State)
      → Holds (λ u t. ⊥) (Ending X) r
      → r.0 ≡ returns none
      → X r.1
  Ending-result X (value u, t) h e = absurd h
  Ending-result X (returns none, t) h e = h refl
  Ending-result X (returns (some p), t) h e = absurd (cc e)
  Ending-result X (panicked, t) h e = absurd (cc e)
  Ending-result X (unfinished, t) h e = absurd (cc e)

  -- When AggregateProblem is nil only for two problems that are nil: `HandleExternalResources`
  -- ends without a problem only when every manifest that is rendered for the dataplane was
  -- applied there, and either `Values` gave an error, that the access of the server is not there
  -- yet or could not be read, or all of this: every manifest for the runtime was applied; a service
  -- that came of one of them was read; the manifests that the DNS mode makes for this service were
  -- applied; and the deployment that came of one of them was found, or that of the empty key when
  -- none is a deployment. The values that are rendered have the name, the namespace, the server and
  -- the place of the zone, and the clusters may answer whatever they like.
  pub handle_external_resources_deploys :
      (s : State)
      → let (e, t) = handle_external_resources d s in
        e ≡ returns none
        → (a : Option Values × Option Text) × IsValues d a × IsDeployedFor d a t.events
  handle_external_resources_deploys s =
      Ending-result IsDeployedIn (handle_external_resources d s) (handle-Ending s)
