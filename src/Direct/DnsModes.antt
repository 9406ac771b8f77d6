-- ===== src/Direct/DnsModes.antt =====
-- internal/controller/direct/hostedzone/dns-*.go: the three ways to get DNS names for the name
-- servers of a deployed zone. Reading an entry and resolving a name are parameters; logging is left
-- out.
use kubedns.Prelude.{
  if◌then◌else◌, nat_eq, ◌==◌, is_empty, Text, text, text_eq, ◌⊎◌, inl, inr, Bool, not, ◌&&◌, ◌||◌,
  Option, none, some, List, [], ◌∷◌, ◌++◌,
}
use kubedns.Api.{CoreDnsEntry, ObjectKey}
use kubedns.Api.Conditions.{state_ready}
use kubedns.Common.Cluster.{
  Fetched, found, not_found, get_error, Problem, requeue, watch_backed, temporary,
}
use kubedns.External.{External}
use kubedns.Direct.Readiness.{Service, is_load_balancer_ready}

-- The options that the modes read.
pub record DnsOptions : Type 0 where
  pub dns_class : Text
  pub dns_domain : Text
  pub dns_namespace : Text

-- dnsLoadbalancer, dnsGardener and dnsKubedns
pub data DnsHandler : Type 0 where
  by_load_balancer : DnsHandler
  by_gardener : Text → Text → DnsHandler
  by_kubedns : Text → Text → Text → DnsHandler

-- `NewDNSByKubedns`: the message of an error, or the handler with domain, class and namespace.
unfoldable pub new_dns_by_kubedns : DnsOptions → Text ⊎ DnsHandler
new_dns_by_kubedns o =
    if is_empty o.dns_domain
    then inl (text "DNS domain required")
    else if is_empty o.dns_class
    then inl (text "DNS class required")
    else if is_empty o.dns_namespace
    then inl (text "DNS namespace required")
    else inr (by_kubedns o.dns_domain o.dns_class o.dns_namespace)

-- `NewDNSByGardener`: the handler with domain and class.
unfoldable pub new_dns_by_gardener : DnsOptions → Text ⊎ DnsHandler
new_dns_by_gardener o =
    let class = if is_empty o.dns_class then text "garden" else o.dns_class in
    if is_empty o.dns_domain
    then inl (text "DNS domain required")
    else inr (by_gardener o.dns_domain class)

-- `NewDNSByLoadBalancer`
unfoldable pub new_dns_by_load_balancer : DnsOptions → Text ⊎ DnsHandler
new_dns_by_load_balancer o = inr by_load_balancer

-- `getCNames` of gardener and of kubedns: one name, by key and domain.
unfoldable pub domain_cnames : ObjectKey → Text → List Text
domain_cnames key domain = (key.name ++ (text "." ++ (key.namespace ++ (text "." ++ domain)))) ∷ []

-- `getEntryName`
unfoldable pub entry_name : ObjectKey → Text
entry_name key = key.namespace ++ (text "-" ++ key.name)

-- What the handlers call: the dataplane cluster and net.LookupHost.
pub record DnsCalls : Type 0 where
  pub get_entry : ObjectKey → Fetched CoreDnsEntry
  -- `isResolvable`
  pub is_resolvable : Text → Bool

-- The loop over the names: one that resolves is enough.
unfoldable pub if_resolvable : DnsCalls → List Text → List Text → List Text × Option Problem
if_resolvable c cnames [] = ([], some (requeue (text "cnames not reachable, so far")))
if_resolvable c cnames (n ∷ ns) =
    let later = if_resolvable c cnames ns in if c.is_resolvable n then (cnames, none) else later

abbrev not_yet_available : List Text × Option Problem
not_yet_available = ([], some (watch_backed (text "load balancer not yet available")))

-- The entry of the name server must be ready.
abbrev pub of_entry :
    DnsCalls → ObjectKey → Text → Fetched CoreDnsEntry → List Text × Option Problem
of_entry c key domain not_found = ([], some (temporary (text "not found")))
of_entry c key domain (get_error m) = ([], some (temporary m))
of_entry c key domain (found e) =
    let cnames = domain_cnames key domain in
    let checked = if_resolvable c cnames cnames in
    if not (e.status.state == state_ready) && not (e.status.state == text "Ok")
    then (
      [],
      some (temporary (text "dns entry for nameserver not yet ready: " ++ e.status.message)),
    )
    else checked

-- `GetCNames` of the three modes, for the key of the zone and the service of its server.
unfoldable pub get_cnames :
    External → DnsCalls → DnsHandler → ObjectKey → Service → List Text × Option Problem
unfolding is_load_balancer_ready if_resolvable domain_cnames entry_name
get_cnames x c by_load_balancer key s =
    let (ips, cnames) = is_load_balancer_ready x s in
    if not (is_empty cnames)
    then (cnames, none)
    else if not (is_empty ips)
    then ([], some (watch_backed (text "no cnames available for load balancer")))
    else not_yet_available
get_cnames x c (by_gardener domain class) key s =
    let (ips, cnames) = is_load_balancer_ready x s in
    let own = domain_cnames key domain in
    let checked = if_resolvable c own own in
    if is_empty cnames && is_empty ips then not_yet_available else checked
get_cnames x c (by_kubedns domain class namespace) key s =
    let (ips, cnames) = is_load_balancer_ready x s in
    let k : ObjectKey = record { namespace = text "dns-system"; name = entry_name key } in
    let checked = of_entry c key domain (c.get_entry k) in
    if is_empty cnames && is_empty ips then not_yet_available else checked

-- strings.Join(names, ",")
unfoldable pub join_commas : List Text → Text
join_commas [] = []
join_commas (s ∷ []) = s
join_commas (s ∷ t ∷ ss) = s ++ (text "," ++ join_commas (t ∷ ss))

-- `Modify`: the annotations that a mode adds to an object of a kind and a group.
unfoldable pub modify : DnsHandler → ObjectKey → Text → Text → List (Text × Text)
unfolding domain_cnames join_commas
modify by_load_balancer key kind group = []
modify (by_kubedns domain class namespace) key kind group = []
modify (by_gardener domain class) key kind group =
    if not (kind == text "Service") || not (is_empty group)
    then []
    else (text "dns.gardener.cloud/dnsnames", join_commas (domain_cnames key domain))
      ∷ (text "dns.gardener.cloud/class", class)
      ∷ (text "dns.gardener.cloud/ttl", text "60")
      ∷ []
