-- ===== src/Direct/Deployment/Applying/Ending.antt =====
-- `HandleExternalResources` as a whole only adds calls, and changes the status of the object.
use kubedns.Prelude.{
  if-cases, is_empty, Text, text, ◌≡◌, refl, ◌⊎◌, inl, inr, false, Option, none, some, List, [],
}
use kubedns.Api.{HostedZone}
use kubedns.Common.Calls.{◌>>=◌, ◌>>◌, Action, panicked, return}
use kubedns.Common.Cluster.{Fetched, found, not_found, get_error, Problem, temporary, requeue}
use kubedns.Direct.Conditions.{summary}
use kubedns.Direct.Readiness.{Service, Deployment}
use kubedns.Direct.DnsModes.{DnsHandler, by_load_balancer, by_gardener, by_kubedns, get_cnames}
use kubedns.Direct.Deployment.{State, got_deployment}
use kubedns.Direct.Deployment.Modes.{Values}
use kubedns.Direct.Deployment.Modes.Calling.{values-Continues, prepare-Appends}
use kubedns.Direct.Deployment.Manifests.{Deployer, Manifests, dns_manifests}
use kubedns.Direct.Deployment.Reporting.{
  Deployed, report_deployment, report_service, report_all, with_cnames, change,
}
use kubedns.Direct.Deployment.Applying.{
  apply_dns, without_service, with_service, apply_server, with_url, handle_external_resources,
  nothing_deployed,
}
use kubedns.Direct.Deployment.Applying.Calling.{
  change-Appends, apply_dataplane-Appends, apply_dns_runtime-Appends, apply_runtime-Appends,
}
use kubedns.Direct.Deployment.Growth.{
  Extends-refl, Appends, >>=-Appends, called-Appends, pure-Appends, return-Appends,
  return_problem-Appends, caught-Appends, Continues-Appends,
}

module _ (d : Deployer) where
  report_deployment-Appends :
      (f : Fetched Deployment) → Appends (Option Problem) (report_deployment d f)
  unfolding report_deployment
  report_deployment-Appends (found dep) =
      >>=-Appends (change-Appends d _ (λ z. refl)) (λ u. pure-Appends {a = none})
  report_deployment-Appends not_found =
      >>=-Appends (change-Appends d _ (λ z. refl))
        (λ u. pure-Appends {a = d.aggregate none (some (temporary (text "not found")))})
  report_deployment-Appends (get_error m) = pure-Appends

  meta-with_cnames :
      (r : List Text × Option Problem) (z : HostedZone) → (with_cnames d r z).meta ≡ z.meta
  unfolding with_cnames
  meta-with_cnames (cnames, some p) z = refl
  meta-with_cnames (cnames, none) z =
      if-cases _ _ (λ (w : HostedZone). w.meta ≡ z.meta) (is_empty cnames) refl refl

  report_service-Appends :
      (o : Option Service) (sum : Option Problem)
      → Appends (Option Problem) (report_service d o sum)
  unfolding report_service
  report_service-Appends none sum =
      >>=-Appends (change-Appends d _ (λ z. refl))
        (λ u. pure-Appends {a = d.aggregate sum (some (requeue (text "service not found")))})
  report_service-Appends (some s) sum =
      let r = get_cnames d.external d.dns_calls d.dns_handler d.key s in
      >>=-Appends (change-Appends d (with_cnames d r) (meta-with_cnames r))
        (λ u. pure-Appends {a = d.aggregate sum r.1})

  -- What `report_all` does with the answer about the deployment.
  abbrev pub report_rest : Deployed → Fetched Deployment → Action State Unit
  report_rest r f = do
    sum ← report_deployment d f
    sum' ← report_service d r.service sum
    change d (λ z. record z { status = summary d.external z.status })
    return sum'

  pub report_rest-Appends : (r : Deployed) (f : Fetched Deployment) → Appends Unit (report_rest r f)
  report_rest-Appends r f = >>=-Appends (report_deployment-Appends f) (λ sum.
      >>=-Appends (report_service-Appends r.service sum) (λ sum'.
        >>=-Appends
          (change-Appends d (λ z. record z { status = summary d.external z.status }) (λ z. refl))
          (λ u. return-Appends {p = sum'})))

  report_all-Appends : (r : Deployed) → Appends Unit (report_all d r)
  unfolding report_all
  report_all-Appends r =
      >>=-Appends
        (called-Appends (λ log. d.clusters.get_deployment log r.deployment_name)
          (got_deployment r.deployment_name))
        (report_rest-Appends r)

  apply_dns-Appends :
      (r : Deployed) (m : (Manifests × Manifests) ⊎ Problem) → Appends Unit (apply_dns d r m)
  unfolding apply_dns
  apply_dns-Appends r (inr prob) = return-Appends
  apply_dns-Appends r (inl (dns_data, dns_run)) =
      >>=-Appends
        (apply_dataplane-Appends d (text "error deploying nameserver dns dataplane: ") dns_data)
        (λ u. >>=-Appends (apply_dns_runtime-Appends d dns_run) (λ v. report_all-Appends r))

  panic-Appends : Appends Unit (λ s. (panicked, s))
  panic-Appends = record { holds = λ s. Extends-refl s }

  no_service-Appends : (r : Deployed) (h : DnsHandler) → Appends Unit (without_service d r h)
  unfolding without_service
  no_service-Appends r by_load_balancer = apply_dns-Appends r (inl ([], []))
  no_service-Appends r (by_gardener domain class) = apply_dns-Appends r (inl ([], []))
  no_service-Appends r (by_kubedns domain class namespace) = panic-Appends

  with_service-Appends :
      (r : Deployed) (v : Option Values) (o : Option Service) → Appends Unit (with_service d r v o)
  unfolding with_service
  with_service-Appends r v (some s) = apply_dns-Appends r (dns_manifests d s v)
  with_service-Appends r v none = no_service-Appends r d.dns_handler

  apply_server-Appends :
      (v : Option Values) (repeat : Option Text) (m : Text ⊎ (Manifests × Manifests))
      → Appends Unit (apply_server d v repeat m)
  unfolding apply_server
  apply_server-Appends v repeat (inl m) = return-Appends
  apply_server-Appends v (some m) (inr (data_ms, run_ms)) =
      >>=-Appends (apply_dataplane-Appends d (text "error deploying dataplane: ") data_ms)
        (λ u. return-Appends {p = none})
  apply_server-Appends v none (inr (data_ms, run_ms)) =
      >>=-Appends (apply_dataplane-Appends d (text "error deploying dataplane: ") data_ms) (λ u.
        >>=-Appends (apply_runtime-Appends d run_ms nothing_deployed)
          (λ r. with_service-Appends r v r.service))

  with_url-Appends : (url : Text ⊎ Text) → Appends Unit (with_url d url)
  unfolding with_url
  with_url-Appends (inl m) = return-Appends
  with_url-Appends (inr url) =
      >>=-Appends
        (Continues-Appends (values-Continues d.clusters d.mode_options d.mode d.key false))
        (λ r. apply_server-Appends r.0 r.1 (d.render d.manifests r.0))

  pub handle_external_resources-Appends : Appends Unit (handle_external_resources d)
  unfolding handle_external_resources
  handle_external_resources-Appends =
      >>=-Appends (caught-Appends (prepare-Appends d.clusters d.mode_options d.mode d.key)) (λ p.
        >>=-Appends (return_problem-Appends p) (λ u. with_url-Appends d.clusters.api_server_url))
