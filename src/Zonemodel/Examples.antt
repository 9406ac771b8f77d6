-- ===== src/Zonemodel/Examples.antt =====
-- The scenarios of model_test.go, run on the model with the sample implementation of the external
-- operations.
use kubedns.Prelude.{
  if◌then◌else◌, nat_eq, ◌==◌, lookup, put, remove, Text, text, text_eq, has_suffix_dot, pos, ℕ,
  ◌≡◌, refl, false, ◌&&◌, Option, none, some, List, [], ◌∷◌,
}
use kubedns.Api.{HostedZone, CoreDnsEntry}
use kubedns.External.Sample.{sample, sample_fqdn, sample_sub_domain, sample_split}
use kubedns.Zonemodel.Names.{join, rdn}
use kubedns.Zonemodel.Keys.{ZoneKey}
use kubedns.Zonemodel.Model.{Model, new, add_zone}
use kubedns.Zonemodel.Resolve.{Index, entries, resolve_fqdn, resolve_ip}
use kubedns.Zonemodel.Outcome.{ok, panicked}

abbrev pub zone_object : Text → List Text → Text → HostedZone
zone_object name domains parent = record {
  meta = record {
    name = name;
    namespace = text "default";
    resource_version = text "17";
    generation = 1;
    deleting = false;
    finalizers = [];
    annotations = [];
  };
  spec = record {
    class = none;
    runtime = none;
    domain_names = domains;
    email = [];
    refresh = pos 1;
    retry = pos 1;
    expire = pos 1;
    minimum_ttl = pos 10;
    parent_ref = parent;
  };
  status = record { conditions = []; state = []; message = []; name_servers = []; observed = none };
}

abbrev pub entry_object : Text → List Text → Text → List Text → List Text → CoreDnsEntry
entry_object name dns_names zone a ns = record {
  meta = record {
    name = name;
    namespace = text "default";
    resource_version = [];
    generation = 1;
    deleting = false;
    finalizers = [];
    annotations = [];
  };
  spec = record {
    zone_ref = zone;
    dns_names = dns_names;
    ttl = pos 0;
    a = a;
    aaaa = [];
    txt = [];
    srv = none;
    cname = [];
    ns = ns;
  };
  status = record {
    conditions = [];
    state = [];
    message = [];
    root_zone = [];
    effective_domain_names = [];
  };
}

abbrev pub zone_a : HostedZone
zone_a = zone_object (text "a") (text "mandelsoft.de" ∷ text "mandelsoft.org" ∷ []) []

abbrev pub zone_aa : HostedZone
zone_aa = zone_object (text "aa") (text "demo" ∷ text "test" ∷ []) (text "a")

abbrev pub entry_aa_demo : CoreDnsEntry
entry_aa_demo =
    entry_object (text "aa-demo") (text "demo" ∷ []) (text "aa") (text "9.9.9.9" ∷ []) []

abbrev pub key_of : Text → ZoneKey
key_of name = record { cluster_name = text "cluster"; namespace = text "default"; name = name }

abbrev pub index_aa : Index
index_aa = record {
  lookup_relative_domain_name = λ s k rel.
      entries (if k.name == text "aa" && rel == text "demo" then entry_aa_demo ∷ [] else []);
  lookup_ip = λ s k ip.
      entries (if k.name == text "aa" && ip == text "9.9.9.9" then entry_aa_demo ∷ [] else []);
}

abbrev pub after : Option (Model × ℕ) → Model
after none = new
after (some (m, p)) = m

abbrev pub two_zones : Model
two_zones = after (
    add_zone 9 sample (after (add_zone 9 sample new (text "cluster") (key_of (text "a")) zone_a))
      (text "cluster") (key_of (text "aa")) zone_aa)

use_forwarded :
    resolve_fqdn 9 sample index_aa two_zones.heap 0 (text "demo.test.mandelsoft.de")
    ≡ ok (
        some (record {
          zone = some 1;
          zone_names = text "test.mandelsoft.de." ∷ [];
          entries = entry_aa_demo ∷ [];
          entry_names = text "demo.test.mandelsoft.de." ∷ [];
        }))
unfolding new add_zone resolve_fqdn lookup put remove sample_fqdn sample_sub_domain sample_split
    has_suffix_dot join rdn
use_forwarded = refl

forwarded_entry_access :
    resolve_ip 9 sample index_aa two_zones.heap 0 (text "9.9.9.9")
    ≡ ok (
        record {
          zone = some 1;
          zone_names =
              text "demo.mandelsoft.de."
              ∷ text "demo.mandelsoft.org."
              ∷ text "test.mandelsoft.de."
              ∷ text "test.mandelsoft.org."
              ∷ [];
          entries = entry_aa_demo ∷ [];
          entry_names =
              text "demo.demo.mandelsoft.de."
              ∷ text "demo.demo.mandelsoft.org."
              ∷ text "demo.test.mandelsoft.de."
              ∷ text "demo.test.mandelsoft.org."
              ∷ [];
        }
        ∷ [])
unfolding new add_zone resolve_ip lookup put remove sample_fqdn sample_sub_domain sample_split
    has_suffix_dot rdn
forwarded_entry_access = refl

-- The nested zone made a root zone stays among the children of its old parent, under the key of
-- line 127 of model.go, and its name is absolute now: the slice of line 211 is out of range.
abbrev zone_aa_promoted : HostedZone
zone_aa_promoted = zone_object (text "aa") (text "demo" ∷ []) []

abbrev promoted : Model
promoted =
    after (add_zone 9 sample two_zones (text "cluster") (key_of (text "aa")) zone_aa_promoted)

promoted_panics :
    resolve_fqdn 9 sample index_aa promoted.heap 0 (text "demo.mandelsoft.de") ≡ panicked
unfolding new add_zone resolve_fqdn lookup put remove sample_fqdn sample_sub_domain sample_split
    has_suffix_dot join rdn
promoted_panics = refl

-- A second nested zone takes the place of the first one among the children of their parent.
abbrev zone_ab : HostedZone
zone_ab = zone_object (text "ab") (text "other" ∷ []) (text "a")

abbrev siblings : Model
siblings = after (add_zone 9 sample two_zones (text "cluster") (key_of (text "ab")) zone_ab)

sibling_lost :
    resolve_fqdn 9 sample index_aa siblings.heap 0 (text "demo.test.mandelsoft.de")
    ≡ ok (
        some (record {
          zone = some 0;
          zone_names = text "mandelsoft.de." ∷ [];
          entries = [];
          entry_names = text "demo.test.mandelsoft.de." ∷ [];
        }))
unfolding new add_zone resolve_fqdn lookup put remove sample_fqdn sample_sub_domain sample_split
    has_suffix_dot join rdn
sibling_lost = refl
