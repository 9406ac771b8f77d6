-- ===== src/Server/Indexer.antt =====
-- internal/controller/server/servercomp: the two indexers of indexer.go and `IndexKey` of
-- component.go. Their log messages are left out.
pub mod Keys
use kubedns.Prelude.{
  if◌then◌else◌, ◌==◌, nat_eq, Text, text_eq, Bool, true, false, ◌&&◌, Option, none, some, List, [],
  ◌∷◌, ◌++◌, map,
}
use kubedns.Api.{
  CoreDnsEntry, Condition, status_true, status_false, status_unknown, ConditionStatus,
}
use kubedns.Api.Conditions.{server_condition_type}
use kubedns.Zonemodel.Keys.{ZoneKey}
use kubedns.Zonemodel.Names.{rdn}
use kubedns.External.{External}

unfoldable pub index_key : ZoneKey → Text → Text
index_key zk rdn = zk.namespace ++ (b'/' ∷ zk.name ++ (b'/' ∷ rdn))

abbrev pub is_false : ConditionStatus → Bool
is_false status_true = false
is_false status_false = true
is_false status_unknown = false

-- c == nil || c.Status == metav1.ConditionFalse
abbrev pub not_served : Option Condition → Bool
not_served none = true
not_served (some c) = is_false c.status

-- The keys of one entry: none without a zone, none in slave mode before the server accepted it.
abbrev pub keys_of : External → Bool → CoreDnsEntry → List Text → List Text
keys_of x slave e items =
    if e.spec.zone_ref == []
    then []
    else if slave && not_served (x.find_status_condition e.status.conditions server_condition_type)
    then []
    else map (λ item. e.meta.namespace ++ (b'/' ∷ e.spec.zone_ref ++ (b'/' ∷ item))) items

-- The function that `indexerFactoryNames` returns.
unfoldable pub index_names : External → Bool → CoreDnsEntry → List Text
unfolding rdn
index_names x slave e = keys_of x slave e (map rdn e.spec.dns_names)

-- The function that `indexerFactoryIPs` returns.
unfoldable pub index_ips : External → Bool → CoreDnsEntry → List Text
index_ips x slave e = keys_of x slave e (e.spec.a ++ e.spec.aaaa)
