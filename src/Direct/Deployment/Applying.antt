-- ===== src/Direct/Deployment/Applying.antt =====
-- request.go, `HandleExternalResources` and `ApplyData`: how the server of a root zone is deployed,
-- and how its state is reported. Kubernetes events and the texts of log messages are left out.
pub mod Calling
pub mod Ending
pub mod Deploying
pub mod Running
pub mod Finishing
pub mod Succeeding
use kubedns.Prelude.{
  nat_beq, if◌then◌else◌, is_empty, Text, text, ◌⊎◌, inl, inr, Bool, true, false, ◌&&◌, ◌||◌,
  Option, none, some, [], ◌∷◌, ◌++◌,
}
use kubedns.Api.{HostedZone, status_false}
use kubedns.Api.Conditions.{runtime_condition_type, reason_update_failed}
use kubedns.Common.Calls.{◌>>=◌, ◌>>◌, Action, panicked, pure, return, return_problem, caught}
use kubedns.Common.Cluster.{Fetched, found, not_found, get_error, Problem, failed, temporary}
use kubedns.Direct.Readiness.{Service}
use kubedns.Direct.DnsModes.{DnsHandler, by_load_balancer, by_gardener, by_kubedns}
use kubedns.Direct.Deployment.{
  State, dataplane, runtime, Decoded, Applied, applied_to, apply_error, called, applied,
  got_service,
}
use kubedns.Direct.Deployment.Modes.{Values, values, prepare}
use kubedns.Direct.Deployment.Manifests.{Deployer, Manifests, dns_manifests}
use kubedns.Direct.Deployment.Removing.{delete_manifest}
use kubedns.Direct.Deployment.Reporting.{change, report_all, Deployed, nothing_deployed}

abbrev is_prefix : Text → Text → Bool
is_prefix [] t = true
is_prefix (c ∷ s) [] = false
is_prefix (c ∷ s) (e ∷ t) = nat_beq c e && is_prefix s t

-- strings.Contains(t, s)
unfoldable pub has_substring : Text → Text → Bool
has_substring [] s = is_empty s
has_substring (c ∷ t) s = let later = has_substring t s in is_prefix s (c ∷ t) || later

-- `checkNotModifiableError`
unfoldable pub check_not_modifiable_error : Bool → Text → Bool
unfolding has_substring
check_not_modifiable_error is_invalid m =
    is_invalid && has_substring m (text "may not change once set")

module _ (d : Deployer) where
  -- `ApplyData` sets its condition without a generation.
  abbrev pub with_update_failed : Text → HostedZone → HostedZone
  with_update_failed m z = record z {
    status = record z.status {
      conditions = d.external.set_status_condition z.status.conditions (record {
        kind = runtime_condition_type;
        status = status_false;
        observed_generation = 0;
        reason = reason_update_failed;
        message = m;
      });
    };
  }

  unfoldable pub of_applied : Applied → Action State Applied
  of_applied (applied_to o) = pure (applied_to o)
  of_applied (apply_error i m) = do change d (with_update_failed m); pure (apply_error i m)

  unfoldable pub apply_data : Text → Action State Applied
  unfolding of_applied
  apply_data doc = do
    a ← called (λ log. d.clusters.apply log runtime doc) (applied runtime doc)
    of_applied a

  -- A manifest of the dataplane, with the message for an error.
  unfoldable pub of_dataplane_applied : Text → Applied → Action State Unit
  of_dataplane_applied m (applied_to o) = pure tt
  of_dataplane_applied m (apply_error i e) = return (some (temporary (m ++ e)))

  unfoldable pub apply_dataplane : Text → Manifests → Action State Unit
  unfolding of_dataplane_applied
  apply_dataplane m [] = pure tt
  apply_dataplane m ((n, doc) ∷ ms) = do
    a ← called (λ log. d.clusters.apply log dataplane doc) (applied dataplane doc)
    of_dataplane_applied m a
    apply_dataplane m ms

  -- The manifests of a DNS mode for the runtime.
  unfoldable pub apply_dns_runtime : Manifests → Action State Unit
  unfolding apply_data of_dataplane_applied
  apply_dns_runtime [] = pure tt
  apply_dns_runtime ((n, doc) ∷ ms) = do
    a ← apply_data doc
    of_dataplane_applied (text "error deploying nameserver dns runtime: ") a
    apply_dns_runtime ms

  unfoldable pub of_service_read : Deployed → Fetched Service → Action State Deployed
  of_service_read r (found s) = pure (record r { service = some s })
  of_service_read r not_found = pure r
  of_service_read r (get_error m) = return (some (temporary m))

  abbrev pub note_deployment : Decoded → Deployed → Deployed
  note_deployment o r = if o.is_deployment then record r { deployment_name = o.key } else r

  unfoldable pub note_service : Decoded → Deployed → Action State Deployed
  unfolding of_service_read
  note_service o r =
      if o.is_service
      then called (λ log. d.clusters.get_service log o.key) (got_service o.key)
        >>= of_service_read r
      else pure r

  -- A manifest that may not be changed is deleted, for the next time.
  unfoldable pub of_runtime_applied : Text → Deployed → Applied → Action State Deployed
  unfolding note_service delete_manifest check_not_modifiable_error
  of_runtime_applied doc r (applied_to o) = note_service o (note_deployment o r)
  of_runtime_applied doc r (apply_error i m) = do
    if check_not_modifiable_error i m then delete_manifest d runtime doc else pure none
    return (some (temporary (text "error deploying runtime: " ++ m)))

  unfoldable pub apply_runtime : Manifests → Deployed → Action State Deployed
  unfolding apply_data of_runtime_applied
  apply_runtime [] r = pure r
  apply_runtime ((n, doc) ∷ ms) r = do
    a ← apply_data doc
    r' ← of_runtime_applied doc r a
    apply_runtime ms r'

  unfoldable pub apply_dns : Deployed → (Manifests × Manifests) ⊎ Problem → Action State Unit
  unfolding apply_dataplane apply_dns_runtime report_all
  apply_dns r (inr prob) = return (some prob)
  apply_dns r (inl (dns_data, dns_run)) = do
    apply_dataplane (text "error deploying nameserver dns dataplane: ") dns_data
    apply_dns_runtime dns_run
    report_all d r

  -- dnsKubedns reads the service, which may be nil.
  unfoldable pub without_service : Deployed → DnsHandler → Action State Unit
  unfolding apply_dns
  without_service r by_load_balancer = apply_dns r (inl ([], []))
  without_service r (by_gardener domain class) = apply_dns r (inl ([], []))
  without_service r (by_kubedns domain class namespace) = λ s. (panicked, s)

  unfoldable pub with_service : Deployed → Option Values → Option Service → Action State Unit
  unfolding apply_dns dns_manifests without_service
  with_service r v (some s) = apply_dns r (dns_manifests d s v)
  with_service r v none = without_service r d.dns_handler

  -- While the access is pending, only the dataplane is deployed.
  unfoldable pub apply_server :
      Option Values → Option Text → Text ⊎ (Manifests × Manifests) → Action State Unit
  unfolding apply_dataplane apply_runtime with_service
  apply_server v repeat (inl m) = return (some (failed (text "error rendering manifests: " ++ m)))
  apply_server v (some m) (inr (data_ms, run_ms)) = do
    apply_dataplane (text "error deploying dataplane: ") data_ms
    return none
  apply_server v none (inr (data_ms, run_ms)) = do
    apply_dataplane (text "error deploying dataplane: ") data_ms
    r ← apply_runtime run_ms nothing_deployed
    with_service r v r.service

  unfoldable pub with_url : Text ⊎ Text → Action State Unit
  unfolding values apply_server
  with_url (inl m) = return (some (failed (text "cannot determine api server URL: " ++ m)))
  with_url (inr url) = do
    r ← values d.clusters d.mode_options d.mode d.key false
    apply_server r.0 r.1 (d.render d.manifests r.0)

  -- `HandleExternalResources`
  unfoldable pub handle_external_resources : Action State Unit
  unfolding prepare with_url
  handle_external_resources = do
    p ← caught (prepare d.clusters d.mode_options d.mode d.key)
    return_problem p
    with_url d.clusters.api_server_url
