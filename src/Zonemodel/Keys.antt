-- ===== src/Zonemodel/Keys.antt =====
-- internal/controller/server/zonemodel/model.go: `ZoneKey` and the functions that build one.
use kubedns.Prelude.{
  Eq, ◌==◌, nat_eq, Text, text_beq_iff, text_eq, ◌≡◌, ◌↔◌, Bool, true, ◌&&◌, arith,
}
use kubedns.Api.{ObjectMeta}

pub record ZoneKey : Type 0 where
  pub cluster_name : Text
  pub namespace : Text
  pub name : Text

unfoldable pub new_zone_key : Text → Text → Text → ZoneKey
new_zone_key cluster_name namespace name = record {
  cluster_name = cluster_name;
  namespace = namespace;
  name = name;
}

unfoldable pub zone_key_from_object : Text → ObjectMeta → ZoneKey
zone_key_from_object c obj = record { cluster_name = c; namespace = obj.namespace; name = obj.name }

unfoldable pub zone_ref_key_from_object : Text → ObjectMeta → Text → ZoneKey
zone_ref_key_from_object c obj ref = record {
  cluster_name = c;
  namespace = obj.namespace;
  name = ref;
}

-- `ZoneKey.For`
unfoldable pub for_name : ZoneKey → Text → ZoneKey
for_name k name = record k { name = name }

abbrev pub key_beq : ZoneKey → ZoneKey → Bool
key_beq k j = k.cluster_name == j.cluster_name && k.namespace == j.namespace && k.name == j.name

pub key_beq_iff : (k j : ZoneKey) → (key_beq k j ≡ true) ↔ (k ≡ j)
key_beq_iff k j = ground (
  arith,
  text_beq_iff k.cluster_name j.cluster_name,
  text_beq_iff k.namespace j.namespace,
  text_beq_iff k.name j.name,
)

instance abbrev pub key_eq : Eq ZoneKey
key_eq = record { test = key_beq; test_iff = key_beq_iff }
