-- ===== src/Direct/Deployment/Manifests.antt =====
-- dns-kubedns.go and dns.go: the manifests of the DNS modes; and what a deployment is made of.
use kubedns.Prelude.{
  if◌then◌else◌, is_empty, Text, text, ◌⊎◌, inl, inr, Bool, true, false, ◌&&◌, Option, none, some,
  List, [], ◌∷◌, ◌++◌, map,
}
use kubedns.Api.{HostedZone, ObjectKey}
use kubedns.External.{External, ParsedIp}
use kubedns.Common.Cluster.{Problem, failed, watch_backed}
use kubedns.Direct.Readiness.{Service, is_load_balancer_ready}
use kubedns.Direct.DnsModes.{
  DnsHandler, DnsCalls, by_load_balancer, by_gardener, by_kubedns, domain_cnames, entry_name,
}
use kubedns.Direct.Deployment.{Clusters, Decoded}
use kubedns.Direct.Deployment.Modes.{Mode, ModeOptions, Values}

-- Manifests by name.
abbrev pub Manifests : Type 0
Manifests = List (Text × Text)

-- A reconciler with what it calls: the key of the request, the templates with the function that
-- renders them for the two clusters, the decoder of manifests, AggregateProblem, and the finalizer.
pub record Deployer : Type 0 where
  pub external : External
  pub clusters : Clusters
  pub mode : Mode
  pub mode_options : ModeOptions
  pub dns_handler : DnsHandler
  pub dns_calls : DnsCalls
  pub key : ObjectKey
  pub manifests : Manifests
  pub kubedns_manifests : Text ⊎ Manifests
  pub render : Manifests → Option Values → Text ⊎ (Manifests × Manifests)
  pub decode : Text → Text ⊎ Decoded
  pub aggregate : Option Problem → Option Problem → Option Problem
  pub finalizer : Text
  pub add_finalizer : HostedZone → Text → HostedZone × Bool
  pub remove_finalizer : HostedZone → Text → HostedZone × Bool

-- The addresses of a load balancer as texts: only the nil address is ever kept.
abbrev ip_string : ParsedIp → Text
ip_string ip = text "<nil>"

abbrev first : List Text → Option Text
first [] = none
first (s ∷ ss) = some s

abbrev non_empty : Text → Option Text
non_empty s = if is_empty s then none else some s

module _ (d : Deployer) where
  abbrev dns_values : Text → Text → Text → List ParsedIp → List Text → Values → Values
  dns_values domain class namespace ips cnames v = record v {
    dns = some (record {
      name = entry_name d.key;
      namespace = namespace;
      dnsnames = domain_cnames d.key domain;
      class = non_empty class;
      ips = map ip_string ips;
      cname = first cnames;
    });
  }

  abbrev or_failed : Text ⊎ (Manifests × Manifests) → (Manifests × Manifests) ⊎ Problem
  or_failed (inl m) = inr (failed (text "cannot get dns manifests: " ++ m))
  or_failed (inr ms) = inl ms

  abbrev add_dns : Text → Text → Text → List ParsedIp → List Text → Option Values → Option Values
  add_dns domain class namespace ips cnames none = none
  add_dns domain class namespace ips cnames (some v) =
      some (dns_values domain class namespace ips cnames v)

  -- The manifests of the mode are missing: that only matters for a deployment.
  abbrev render_dns : Bool → Text ⊎ Manifests → Option Values → (Manifests × Manifests) ⊎ Problem
  render_dns true (inl m) v = or_failed (d.render [] v)
  render_dns false (inl m) v = inr (failed (text "cannot get dns manifests: " ++ m))
  render_dns deleting (inr ms) v = or_failed (d.render ms v)

  -- `Manifests` of the DNS modes for a deletion, where no service is read.
  unfoldable pub dns_manifests_deleting : Option Values → (Manifests × Manifests) ⊎ Problem
  unfolding domain_cnames entry_name
  dns_manifests_deleting v = elim d.dns_handler [
    | by_load_balancer ↦ inl ([], [])
    | by_gardener domain class ↦ inl ([], [])
    | by_kubedns domain class namespace ↦
        render_dns true d.kubedns_manifests (add_dns domain class namespace [] [] v)
  ]

  -- `Manifests` of the DNS modes for a deployment.
  unfoldable pub dns_manifests : Service → Option Values → (Manifests × Manifests) ⊎ Problem
  unfolding is_load_balancer_ready domain_cnames entry_name
  dns_manifests s v = elim d.dns_handler [
    | by_load_balancer ↦ inl ([], [])
    | by_gardener domain class ↦ inl ([], [])
    | by_kubedns domain class namespace ↦
        let (ips, cnames) = is_load_balancer_ready d.external s in
        let rendered =
          render_dns false d.kubedns_manifests (add_dns domain class namespace ips cnames v) in
        if is_empty cnames && is_empty ips
        then inr (watch_backed (text "load balancer not yet available"))
        else rendered
  ]
