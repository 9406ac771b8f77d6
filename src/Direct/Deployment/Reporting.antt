-- ===== src/Direct/Deployment/Reporting.antt =====
-- request.go, the end of `HandleExternalResources`: how the state of a deployed server is reported.
-- Of the texts of messages only the fixed part and that of the cause are kept.
use kubedns.Prelude.{
  if◌then◌else◌, is_empty, Text, text, Bool, true, false, Option, none, some, List, [],
}
use kubedns.Api.{HostedZone, ObjectKey, ConditionStatus, status_true, status_false}
use kubedns.Api.Conditions.{
  runtime_condition_type, nameserver_condition_type, reason_runtime_available,
  reason_runtime_unavailable, reason_runtime_deploying, reason_nameserver_available,
  reason_nameserver_pending,
}
use kubedns.External.{External}
use kubedns.Common.Calls.{◌>>=◌, ◌>>◌, Action, value, panicked, pure, return, gets}
use kubedns.Common.Cluster.{Fetched, found, not_found, get_error, Problem, temporary, requeue}
use kubedns.Common.Validate.{problem_message}
use kubedns.Direct.Conditions.{set_condition, summary}
use kubedns.Direct.Readiness.{Service, Deployment, is_deployment_ready}
use kubedns.Direct.DnsModes.{get_cnames}
use kubedns.Direct.Deployment.{State, called, got_deployment}
use kubedns.Direct.Deployment.Manifests.{Deployer}

-- `ConditionStatus`
abbrev pub condition_status : Bool → ConditionStatus
condition_status true = status_true
condition_status false = status_false

-- What the loop over the manifests of the runtime finds out.
pub record Deployed : Type 0 where
  pub deployment_name : ObjectKey
  pub service : Option Service

abbrev pub nothing_deployed : Deployed
nothing_deployed = record { deployment_name = record { namespace = []; name = [] }; service = none }

module _ (d : Deployer) where
  abbrev x : External
  x = d.external

  -- A change of the object, which must not be nil.
  abbrev pub change_of : (HostedZone → HostedZone) → Option HostedZone → Action State Unit
  change_of f none = λ s. (panicked, s)
  change_of f (some z) = λ s. (value tt, record s { object = some (f z) })

  abbrev pub change : (HostedZone → HostedZone) → Action State Unit
  change f = gets (λ s. s.object) >>= change_of f

  abbrev pub with_condition : Text → Text → Text → ConditionStatus → HostedZone → HostedZone
  with_condition kind reason m status z = record z {
    status = record z.status {
      conditions = set_condition x z z.status.conditions (record {
        kind = kind;
        status = status;
        observed_generation = 0;
        reason = reason;
        message = m;
      });
    };
  }

  -- The state of the deployment as reason and message.
  unfoldable pub runtime_reason : Bool → Option Problem → Text × Text
  unfolding problem_message
  runtime_reason true none = (reason_runtime_available, text "Deployment serving requests")
  runtime_reason false none = (reason_runtime_unavailable, text "Deployment serving requests")
  runtime_reason true (some p) = (reason_runtime_deploying, problem_message p)
  runtime_reason false (some p) = (reason_runtime_unavailable, problem_message p)

  unfoldable pub report_deployment : Fetched Deployment → Action State (Option Problem)
  unfolding runtime_reason is_deployment_ready set_condition
  report_deployment (found dep) =
      let (ok, prob) = is_deployment_ready dep in
      let (reason, m) = runtime_reason ok prob in
      change (with_condition runtime_condition_type reason m (condition_status ok)) >>= λ u.
      pure none
  report_deployment not_found =
      change (
        with_condition runtime_condition_type reason_runtime_unavailable (text "not found")
          status_false)
      >>= λ u. pure (d.aggregate none (some (temporary (text "not found"))))
  report_deployment (get_error m) = pure (d.aggregate none (some (temporary m)))

  -- The names of the name servers are taken over when there are any.
  unfoldable pub with_cnames : List Text × Option Problem → HostedZone → HostedZone
  unfolding set_condition problem_message
  with_cnames (cnames, some p) z =
      with_condition nameserver_condition_type reason_nameserver_pending (problem_message p)
        status_false z
  with_cnames (cnames, none) z =
      if is_empty cnames
      then with_condition nameserver_condition_type reason_nameserver_pending
          (text "nameserver access still pending") status_false z
      else with_condition nameserver_condition_type reason_nameserver_available
          (text "nameserver access ready") status_true
          (record z { status = record z.status { name_servers = cnames } })

  unfoldable pub report_service : Option Service → Option Problem → Action State (Option Problem)
  unfolding with_cnames get_cnames set_condition
  report_service none sum = do
    change (
        with_condition nameserver_condition_type reason_runtime_unavailable
          (text "no Service for DNS server found") status_false)
    pure (d.aggregate sum (some (requeue (text "service not found"))))
  report_service (some s) sum = do
    let r = get_cnames x d.dns_calls d.dns_handler d.key s
    change (with_cnames r)
    pure (d.aggregate sum r.1)

  -- The end: the states of the deployment and of the service, and the summary.
  unfoldable pub report_all : Deployed → Action State Unit
  unfolding report_deployment report_service summary
  report_all r = do
    f ←
        called (λ log. d.clusters.get_deployment log r.deployment_name)
          (got_deployment r.deployment_name)
    sum ← report_deployment f
    sum' ← report_service r.service sum
    change (λ z. record z { status = summary x z.status })
    return sum'
