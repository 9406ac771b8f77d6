-- ===== src/Common/Indexer.antt =====
-- internal/controller/common/indexer.go: under which keys zones and entries are found from what they
-- refer to. An empty reference gives no key.
use kubedns.Prelude.{if◌then◌else◌, is_empty, Text, List, [], ◌∷◌}
use kubedns.Api.{HostedZone, CoreDnsEntry}

-- `ParentIndexer`
unfoldable pub parent_indexer : HostedZone → List Text
parent_indexer o = if is_empty o.spec.parent_ref then [] else o.spec.parent_ref ∷ []

-- `ZoneIndexer`
unfoldable pub zone_indexer : CoreDnsEntry → List Text
zone_indexer e = if is_empty e.spec.zone_ref then [] else e.spec.zone_ref ∷ []
