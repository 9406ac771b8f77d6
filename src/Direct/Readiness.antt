-- ===== src/Direct/Readiness.antt =====
-- internal/controller/direct/hostedzone/request.go, from line 571: what the state of a deployment
-- and of a load balancer says. Of k8s.io/api only the fields that are read are kept.
use kubedns.Prelude.{
  ltb, if◌then◌else◌, is_empty, Text, text, ℕ, Bool, true, false, not, Option, none, some, List, [],
  ◌∷◌, ◌++◌,
}
use kubedns.Api.{ConditionStatus, status_true, status_false, status_unknown}
use kubedns.Common.Cluster.{Problem, watch_backed}
use kubedns.External.{External, ParsedIp, no_ip, ipv4, ipv6}

-- appsv1.DeploymentConditionType
pub data DeploymentConditionType : Type 0 where
  progressing available other_type : DeploymentConditionType

-- appsv1.DeploymentCondition
pub record DeploymentCondition : Type 0 where
  pub kind : DeploymentConditionType
  pub status : ConditionStatus
  pub message : Text

-- appsv1.Deployment; the number of replicas is never negative.
pub record Deployment : Type 0 where
  pub conditions : List DeploymentCondition
  pub ready_replicas : ℕ

abbrev is_false : ConditionStatus → Bool
is_false status_true = false
is_false status_false = true
is_false status_unknown = false

-- One condition: the problem so far, and whether the condition Available was met.
unfoldable pub check_condition : DeploymentCondition → Option Problem × Bool → Option Problem × Bool
check_condition c (prob, avail) = elim c.kind [
  | progressing ↦
      if is_false c.status
      then (some (watch_backed (text "no progress: " ++ c.message)), avail)
      else if not avail
      then (some (watch_backed (text "progressing: " ++ c.message)), avail)
      else (prob, avail)
  | available ↦
      if is_false c.status
      then (
        elim prob [
          | none ↦ some (watch_backed (text "unavailable: " ++ c.message))
          | some p ↦ some p
        ],
        true,
      )
      else (none, true)
  | other_type ↦ (prob, avail)
]

-- The loop of `isDeploymentReady`.
unfoldable pub check_conditions :
    List DeploymentCondition → Option Problem × Bool → Option Problem × Bool
unfolding check_condition
check_conditions [] r = r
check_conditions (c ∷ cs) r = check_conditions cs (check_condition c r)

abbrev pub or_not_ready : Option Problem × Bool → Option Problem
or_not_ready (none, false) = some (watch_backed (text "deployment not yet ready"))
or_not_ready (none, true) = none
or_not_ready (some p, avail) = some p

-- `isDeploymentReady`
unfoldable pub is_deployment_ready : Deployment → Bool × Option Problem
unfolding check_conditions
is_deployment_ready d =
    (ltb 0 d.ready_replicas, or_not_ready (check_conditions d.conditions (none, false)))

-- corev1.LoadBalancerIngress
pub record Ingress : Type 0 where
  pub ip : Text
  pub hostname : Text

-- corev1.Service; `is_load_balancer` says that its type is LoadBalancer.
pub record Service : Type 0 where
  pub is_load_balancer : Bool
  pub ingress : List Ingress

-- The address that net.ParseIP rejects is nil, and just this one is kept.
abbrev pub add_ip : External → Text → List ParsedIp → List ParsedIp
add_ip x s ips =
    if is_empty s
    then ips
    else elim (x.parse_ip s) [ no_ip ↦ ips ++ no_ip ∷ [] | ipv4 ↦ ips | ipv6 ↦ ips ]

abbrev pub add_hostname : Text → List Text → List Text
add_hostname s cnames = if is_empty s then cnames else cnames ++ s ∷ []

-- The loop of `isLoadBalancerReady`.
unfoldable pub collect_ingress :
    External → List Ingress → List ParsedIp → List Text → List ParsedIp × List Text
collect_ingress x [] ips cnames = (ips, cnames)
collect_ingress x (i ∷ is) ips cnames =
    collect_ingress x is (add_ip x i.ip ips) (add_hostname i.hostname cnames)

-- `isLoadBalancerReady`; a nil pointer for the service is a panic, see the callers.
unfoldable pub is_load_balancer_ready : External → Service → List ParsedIp × List Text
unfolding collect_ingress
is_load_balancer_ready x s =
    if not s.is_load_balancer then ([], []) else collect_ingress x s.ingress [] []
