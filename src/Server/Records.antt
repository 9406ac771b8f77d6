-- ===== src/Server/Records.antt =====
-- internal/controller/server/servercomp: `prepareInfo` of comp_names.go and `CopyR` of component.go.
-- `get` reads a zone in the cluster of the given source; its error is a message.
pub mod Collecting
use kubedns.Prelude.{
  if◌then◌else◌, get_elem?, is_empty, Text, pos, ℕ, Option, none, some, List, [], ◌∷◌, ◌++◌,
}
use kubedns.Api.{CoreDnsEntry, HostedZone, ObjectKey, ServiceSpec}
use kubedns.Zonemodel.Model.{Zone}
use kubedns.Zonemodel.Resolve.{Info}
use kubedns.Zonemodel.Outcome.{Outcome, ok, or_panic, ◌>>=◌}
use kubedns.Server.Wire
use kubedns.Server.Wire.{Records}

unfoldable pub copy_r : List Text → List Text → List Text
copy_r list tgt = if is_empty list then tgt else tgt ++ list

abbrev zero_zone : Wire.Zone
zero_zone = record {
  serial_id = 0;
  name_servers = [];
  names = [];
  email = [];
  minimum_ttl = pos 0;
  expire = pos 0;
  refresh = pos 0;
  retry = pos 0;
}

abbrev pub no_records : Records
no_records = record { ttl = pos 0; a = []; aaaa = []; txt = []; srv = []; cname = []; ns = [] }

abbrev pub add_srv : Option ServiceSpec → List ServiceSpec → List ServiceSpec
add_srv none list = list
add_srv (some s) list = list ++ s ∷ []

-- One round of the loop over the entries.
unfoldable pub add_entry : CoreDnsEntry → Records → Records
unfolding copy_r
add_entry e r = record {
  ttl = e.spec.ttl;
  a = copy_r e.spec.a r.a;
  aaaa = copy_r e.spec.aaaa r.aaaa;
  txt = copy_r e.spec.txt r.txt;
  srv = add_srv e.spec.srv r.srv;
  cname = if is_empty r.cname then e.spec.cname else r.cname;
  ns = copy_r e.spec.ns r.ns;
}

unfoldable pub collect : List CoreDnsEntry → Records → Records
unfolding add_entry
collect [] r = r
collect (e ∷ es) r = collect es (add_entry e r)

unfoldable pub describe_zone : Zone → HostedZone → Wire.Zone
describe_zone z zone = record {
  serial_id = z.serial_id;
  name_servers = zone.status.name_servers;
  names = [];
  email = zone.spec.email;
  minimum_ttl = zone.spec.minimum_ttl;
  expire = zone.spec.expire;
  refresh = zone.spec.refresh;
  retry = zone.spec.retry;
}

unfoldable pub zone_part :
    (Text → ObjectKey → Outcome HostedZone) → List Zone → Option ℕ → Outcome Wire.Zone
unfolding describe_zone
zone_part get heap none = ok zero_zone
zone_part get heap (some p) = do
  z ← or_panic (get_elem? heap p)
  zone ← get z.source (record { namespace = z.key.namespace; name = z.key.name })
  ok (describe_zone z zone)

unfoldable pub prepare_info :
    (Text → ObjectKey → Outcome HostedZone) → List Zone → Info → Outcome Wire.Info
unfolding zone_part collect
prepare_info get heap i = do
  z ← zone_part get heap i.zone
  ok (record {
    zone = record z { names = i.zone_names };
    names = i.entry_names;
    records = collect i.entries no_records;
  })
