-- ===== src/Zonemodel/Model.antt =====
-- internal/controller/server/zonemodel/model.go: `Model`, `Zone` and the methods that change them.
-- Zones are shared by pointers, so the model holds them on a heap: a pointer is a position in
-- `heap`, a new zone goes to its end, and what no pointer reaches any more stays there. A Go map is
-- an association list whose order is the order in which a loop meets its entries. The lock makes
-- each method one step; it is not modelled. `none` says that a loop used up its fuel.
pub mod Heap
pub mod Ranks
pub mod Placement
pub mod Soundness
pub mod Describing
pub mod Termination
pub mod Registry
pub mod Propagation
use kubedns.Prelude.{
  ltb, leb, if◌then◌else◌, ◌==◌, nat_eq, length, get_elem?, set, lookup, put, remove, Text, text_eq,
  ℕ, zero, suc, ◌+◌, ◌-◌, ◌*◌, ◌%◌, ◌^◌, Bool, not, ◌&&◌, Option, none, some, List, [], ◌∷◌, ◌++◌,
  map,
}
use kubedns.External.{External}
use kubedns.Api.{HostedZone}
use kubedns.Zonemodel.Names.{rdn}
use kubedns.Zonemodel.Keys.{ZoneKey, for_name, key_eq}

-- `source` is the name of the `Source`.
pub record Zone : Type 0 where
  pub serial_id : ℕ
  pub key : ZoneKey
  pub source : Text
  pub parent : Option ℕ
  pub parent_name : Text
  pub children : List (Text × ℕ)
  pub names : List Text

pub record Model : Type 0 where
  pub heap : List Zone
  pub zones : List (ZoneKey × ℕ)

unfoldable pub new : Model
new = record { heap = []; zones = [] }

unfoldable pub new_zone : Text → ZoneKey → Zone
new_zone s key = record {
  serial_id = 0;
  key = key;
  source = s;
  parent = none;
  parent_name = [];
  children = [];
  names = [];
}

-- An assignment through the pointer `p`.
unfoldable pub update : ℕ → (Zone → Zone) → List Zone → List Zone
update p f heap = elim (get_elem? heap p) [ none ↦ heap | some z ↦ set heap p (f z) ]

unfoldable pub get_zone : Model → ZoneKey → Option ℕ
get_zone m key = lookup key m.zones

unfoldable pub remove_zone : Model → ZoneKey → Model
remove_zone m zk = record m { zones = remove zk m.zones }

-- Does the zone `z`, known as `k`, name `key` as its parent?
unfoldable pub wants_parent : ZoneKey → ZoneKey → Zone → Bool
unfolding for_name
wants_parent key k z = not (z.parent_name == []) && key == for_name k z.parent_name

-- One round of the loop over `m.zones`: a zone that waits for `key` becomes a child of the zone
-- at `old`.
unfoldable pub adopt_one : ZoneKey → ℕ → ZoneKey → ℕ → List Zone → List Zone
unfolding wants_parent update
adopt_one key old k p heap = elim (get_elem? heap p) [
  | none ↦ heap
  | some z ↦
      if wants_parent key k z
      then update old (λ o. record o { children = put k.name p o.children })
          (update p (λ c. record c { parent = some old }) heap)
      else heap
]

unfoldable pub adopt : ZoneKey → ℕ → List (ZoneKey × ℕ) → List Zone → List Zone
unfolding adopt_one
adopt key old [] heap = heap
adopt key old ((k, p) ∷ rest) heap = adopt key old rest (adopt_one key old k p heap)

-- The first part of `AddZone`: the pointer of the zone for `key`, which is made and given its
-- waiting children if the model has none.
unfoldable pub enter : Model → Text → ZoneKey → Model × ℕ
unfolding adopt new_zone get_zone
enter m s key = elim (get_zone m key) [
  | some old ↦ (m, old)
  | none ↦ (
    record {
      heap =
          adopt key (length m.heap) (put key (length m.heap) m.zones)
            (m.heap ++ new_zone s key ∷ []);
      zones = put key (length m.heap) m.zones;
    },
    length m.heap,
  )
]

-- strconv.ParseUint(s, 10, 64)
unfoldable pub parse_digits : ℕ → Text → Option ℕ
parse_digits acc [] = some acc
parse_digits acc (c ∷ s) =
    let rest = parse_digits (acc * 10 + (c - b'0')) s in
    if leb b'0' c && leb c b'9' then rest else none

unfoldable pub parse_uint : Text → Option ℕ
unfolding parse_digits
parse_uint [] = none
parse_uint (c ∷ s) = elim (parse_digits 0 (c ∷ s)) [
  | none ↦ none
  | some n ↦ if ltb n (2 ^ 64) then some n else none
]

-- uint32(id), where `id` is the resource version or a fixed number
unfoldable pub resource_serial : Text → ℕ
unfolding parse_uint
resource_serial version = elim (parse_uint version) [ none ↦ 653432456 | some id ↦ id ] % 2 ^ 32

-- if old.parent != nil: a zone with another parent is taken from the children of the old one.
unfoldable pub detach : ℕ → HostedZone → List Zone → List Zone
unfolding update
detach old zone heap = elim (get_elem? heap old) [
  | none ↦ heap
  | some o ↦ elim o.parent [
    | none ↦ heap
    | some q ↦ elim (get_elem? heap q) [
      | none ↦ heap
      | some z ↦
          if z.key.name == zone.spec.parent_ref
          then heap
          else update q (λ u. record u { children = remove zone.meta.name u.children }) heap
    ]
  ]
]

-- The key of the zone that the resource names as its parent.
unfoldable pub parent_key : External → Text → HostedZone → ZoneKey
parent_key x s zone =
    let k = x.ref_object_key_for zone.meta zone.spec.parent_ref in
    record { cluster_name = s; namespace = k.namespace; name = k.name }

unfoldable pub find_parent : External → Text → HostedZone → List (ZoneKey × ℕ) → Option ℕ
unfolding parent_key
find_parent x s zone zones =
    if zone.spec.parent_ref == [] then none else lookup (parent_key x s zone) zones

-- parent.children[pkey.Name] = old
unfoldable pub attach : External → Text → HostedZone → ℕ → Option ℕ → List Zone → List Zone
unfolding update parent_key
attach x s zone old none heap = heap
attach x s zone old (some q) heap =
    update q (λ u. record u { children = put (parent_key x s zone).name old u.children }) heap

unfoldable pub zone_names : External → HostedZone → List Text
zone_names x zone =
    if zone.spec.parent_ref == []
    then map x.fqdn zone.spec.domain_names
    else map rdn zone.spec.domain_names

-- for parent != nil { parent.serialId = old.serialId; parent = parent.parent }
unfoldable pub propagate : ℕ → ℕ → Option ℕ → List Zone → Option (List Zone)
propagate fuel serial none heap = some heap
propagate zero serial (some p) heap = none
propagate (suc fuel) serial (some p) heap = elim (get_elem? heap p) [
  | none ↦ none
  | some z ↦ propagate fuel serial z.parent (set heap p (record z { serial_id = serial }))
]

-- The rest of `AddZone` before its last loop, on the state and the zone's pointer that `enter` gave;
-- with the pointer of the zone and of its parent.
unfoldable pub place_entered : External → Text → HostedZone → Model × ℕ → Model × ℕ × Option ℕ
unfolding resource_serial detach find_parent attach zone_names update
place_entered x s zone (m1, old) =
    let serial = resource_serial zone.meta.resource_version in
    let heap1 = update old (λ o. record o { serial_id = serial }) m1.heap in
    let heap2 = detach old zone heap1 in
    let parent = find_parent x s zone m1.zones in
    let heap3 = attach x s zone old parent heap2 in
    let heap4 =
      update old
        (λ o. record o {
          parent = parent;
          parent_name = zone.spec.parent_ref;
          names = zone_names x zone;
        })
        heap3 in
    (record { heap = heap4; zones = m1.zones }, old, parent)

-- `AddZone` before its last loop.
unfoldable pub place_zone : External → Model → Text → ZoneKey → HostedZone → Model × ℕ × Option ℕ
unfolding enter place_entered
place_zone x m s key zone = place_entered x s zone (enter m s key)

-- `AddZone` returns the new state and the pointer of the zone.
unfoldable pub add_zone : ℕ → External → Model → Text → ZoneKey → HostedZone → Option (Model × ℕ)
unfolding place_zone propagate resource_serial
add_zone fuel x m s key zone =
    let (m1, old, parent) = place_zone x m s key zone in
    elim (propagate fuel (resource_serial zone.meta.resource_version) parent m1.heap) [
      | none ↦ none
      | some heap ↦ some (record m1 { heap = heap }, old)
    ]
