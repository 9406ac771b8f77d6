-- ===== src/Zonemodel/Witnesses.antt =====
-- The theorems on the zone model at the zones and entries of the examples.
use kubedns.Prelude.{
  if◌then◌else◌, nat_eq, ◌==◌, length, get_elem?, All, Any, lookup, put, remove, Text, text,
  text_eq, has_suffix_dot, ℕ, ◌<◌, ◌≡◌, refl, ◌↔◌, ◌⊎◌, inl, inr, none, some, [], ◌∷◌, reverse,
  arith,
}
use mathlib.Core.Option
use kubedns.External.Sample.{sample, sample-Documented, sample_fqdn}
use kubedns.Zonemodel.Names.{rdn, join}
use kubedns.Zonemodel.Names.Laws.{Stripped, rdn-Stripped, rdn-join, dotted}
use kubedns.Zonemodel.Model.{
  Zone, Model, new, add_zone, get_zone, attach, parent_key, find_parent, place_zone,
}
use kubedns.Zonemodel.Model.Soundness.{IsSound, StaysNested, new-IsSound, add_zone-IsSound}
use kubedns.Zonemodel.Model.Propagation.{ChainEnds}
use kubedns.Zonemodel.Model.Termination.{add_zone_returns, add_zone_cycle}
use kubedns.Zonemodel.Model.Registry.{get_zone-add_zone, attach_twice}
use kubedns.Zonemodel.Outcome.{ok, ◌>>=◌}
use kubedns.Zonemodel.Resolve.{
  Forwarded, answer, matches, resolve_fqdn, resolve_ip_from, expand, walk_labels,
}
use kubedns.Zonemodel.Resolve.Matching.{Covers, Shorter, matches-longest}
use kubedns.Zonemodel.Resolve.Forwarding.{IsResponsible, Descent}
use kubedns.Zonemodel.Resolve.Walking.{walk_names, walk_labels-eq-walk_names}
use kubedns.Zonemodel.Resolve.Answers.{resolve_fqdn_lem}
use kubedns.Zonemodel.Resolve.Addresses.{products, expand-eq-products}
use kubedns.Zonemodel.Resolve.Gathering.{Depth, Resolves}
use kubedns.Zonemodel.Resolve.Reverse.{resolve_ip_from-Resolves}
use kubedns.Zonemodel.Model.Ranks.{IsOrdered-IsNested}
use kubedns.Zonemodel.Histories.{Reach, start, next, added, Reach-IsSound, reachable_resolve}
use kubedns.Zonemodel.Examples.{zone_object, zone_a, zone_aa, key_of, index_aa, after, two_zones}
use kubedns.Api.{HostedZone}

abbrev cluster : Text
cluster = text "cluster"

abbrev one_zone : Model
one_zone = after (add_zone 9 sample new cluster (key_of (text "a")) zone_a)

first_added : add_zone 9 sample new cluster (key_of (text "a")) zone_a ≡ some (one_zone, 0)
unfolding add_zone new lookup put remove sample_fqdn has_suffix_dot
first_added = refl

second_added : add_zone 9 sample one_zone cluster (key_of (text "aa")) zone_aa ≡ some (two_zones, 1)
unfolding add_zone new lookup put remove sample_fqdn has_suffix_dot rdn
second_added = refl

first_stays : StaysNested new (key_of (text "a")) zone_a
unfolding get_zone new lookup
first_stays = λ p e. cc e

second_stays : StaysNested one_zone (key_of (text "aa")) zone_aa
second_stays = λ p e top. cc top

pub both_reached : Reach sample two_zones
both_reached =
    next (next start (added 9 cluster (key_of (text "a")) zone_a 0 first_stays first_added))
      (added 9 cluster (key_of (text "aa")) zone_aa 1 second_stays second_added)

root_there : get_zone two_zones (key_of (text "a")) ≡ some 0
unfolding add_zone new lookup put remove sample_fqdn has_suffix_dot get_zone rdn
root_there = refl

abbrev query : Text
query = text "demo.test.mandelsoft.de"

query_fits : length (sample_fqdn query) < 30
unfolding sample_fqdn has_suffix_dot
query_fits = omega arith

reachable_resolve_example :
    ((z : Zone) × (get_elem? two_zones.heap 0 ≡ some z)
      × (matches sample z (sample.fqdn query) ≡ [])
      × (resolve_fqdn 30 sample index_aa two_zones.heap 0 query ≡ ok none))
    ⊎ ((z : Zone) × (f : Forwarded) × (get_elem? two_zones.heap 0 ≡ some z)
        × IsResponsible sample two_zones.heap f
        × Descent sample two_zones.heap
            (matches sample z (sample.fqdn query))
            (sample.fqdn query)
            0
            []
            f
        × (resolve_fqdn 30 sample index_aa two_zones.heap 0 query ≡ (
            walk_names sample index_aa f.zone
              (reverse (sample.split_domain_name f.relative))
              f.current
              []
              []
            >>= λ w. ok (some (answer f w)))))
reachable_resolve_example =
    reachable_resolve sample sample-Documented index_aa two_zones (key_of (text "a")) 0 30 query
      both_reached root_there query_fits

abbrev root_zone : Zone
root_zone = elim (get_elem? two_zones.heap 0) [
  | some z ↦ z
  | none ↦ record {
    serial_id = 0;
    key = key_of [];
    source = [];
    parent = none;
    parent_name = [];
    children = [];
    names = [];
  }
]

root_located : get_elem? two_zones.heap 0 ≡ some root_zone
unfolding add_zone new lookup put remove sample_fqdn has_suffix_dot rdn
root_located = refl

resolve_fqdn_lem_example :
    ((matches sample root_zone (sample.fqdn query) ≡ [])
      × (resolve_fqdn 30 sample index_aa two_zones.heap 0 query ≡ ok none))
    ⊎ ((f : Forwarded) × IsResponsible sample two_zones.heap f
        × Descent sample two_zones.heap
            (matches sample root_zone (sample.fqdn query))
            (sample.fqdn query)
            0
            []
            f
        × (resolve_fqdn 30 sample index_aa two_zones.heap 0 query ≡ (
            walk_names sample index_aa f.zone
              (reverse (sample.split_domain_name f.relative))
              f.current
              []
              []
            >>= λ w. ok (some (answer f w)))))
resolve_fqdn_lem_example =
    resolve_fqdn_lem sample sample-Documented index_aa 30 two_zones.heap 0 root_zone query
      (IsOrdered-IsNested two_zones.heap ((Reach-IsSound both_reached).ordered)) root_located
      query_fits

add_zone-IsSound_example : IsSound one_zone
add_zone-IsSound_example =
    add_zone-IsSound 9 sample new one_zone cluster (key_of (text "a")) zone_a 0 new-IsSound
      first_stays first_added

add_zone_returns_example :
    ChainEnds 9
      (place_zone sample one_zone cluster (key_of (text "aa")) zone_aa).0.heap
      (place_zone sample one_zone cluster (key_of (text "aa")) zone_aa).2
    ↔ ((m' : Model) × (p : ℕ) × (add_zone 9 sample one_zone cluster (key_of (text "aa")) zone_aa
          ≡ some (m', p)))
add_zone_returns_example = add_zone_returns 9 sample one_zone cluster (key_of (text "aa")) zone_aa

walk_labels-eq-walk_names_example :
    walk_labels sample index_aa root_zone (text "de" ∷ []) (text "org.") [] []
    ≡ walk_names sample index_aa root_zone (text "de" ∷ []) (text "org.") [] []
unfolding has_suffix_dot
walk_labels-eq-walk_names_example =
    walk_labels-eq-walk_names sample sample-Documented index_aa root_zone (text "de" ∷ [])
      (text "org.") [] [] (λ e. cc e) refl (inr ((λ e. cc e), refl))

matches-longest_example :
    ((matches sample root_zone query ≡ [])
      ⊎ Any (Covers sample query (matches sample root_zone query)) root_zone.names)
    × All (Shorter sample query (matches sample root_zone query)) root_zone.names
matches-longest_example = matches-longest sample root_zone query

nested-Depth : Depth two_zones.heap 2 0
unfolding add_zone new lookup put remove sample_fqdn has_suffix_dot rdn
nested-Depth = (_, refl, ((_, refl, tt), tt))

resolve_ip_from-Resolves_example :
    Resolves sample index_aa two_zones.heap
      (text "9.9.9.9")
      0
      ([] ∷ [])
      (resolve_ip_from 5 sample index_aa two_zones.heap (text "9.9.9.9") ([] ∷ []) 0)
resolve_ip_from-Resolves_example =
    resolve_ip_from-Resolves sample index_aa two_zones.heap (text "9.9.9.9") 2 5 ([] ∷ []) 0
      nested-Depth (omega arith)

get_zone-add_zone_example : get_zone two_zones (key_of (text "aa")) ≡ some 1
get_zone-add_zone_example =
    get_zone-add_zone 9 sample one_zone two_zones cluster (key_of (text "aa")) (key_of (text "aa"))
      zone_aa 1 second_added

abbrev zone_loop : Zone
zone_loop = record root_zone { parent = some 1 }

abbrev zone_a_below_aa : HostedZone
zone_a_below_aa = zone_object (text "a") (text "mandelsoft.de" ∷ []) (text "aa")

abbrev nested_zone : Zone
nested_zone = elim (get_elem? two_zones.heap 1) [ some z ↦ z | none ↦ root_zone ]

add_zone_cycle_example :
    add_zone 9 sample two_zones cluster (key_of (text "a")) zone_a_below_aa ≡ none
unfolding add_zone new lookup put remove sample_fqdn has_suffix_dot rdn find_parent
add_zone_cycle_example =
    add_zone_cycle 9 sample two_zones cluster (key_of (text "a")) zone_a_below_aa 0 1 root_zone
      nested_zone root_there root_located refl refl refl

abbrev zone_bb : HostedZone
zone_bb = zone_object (text "bb") (text "sub" ∷ []) (text "a")

attach_twice_example :
    (w : Zone) × (get_elem?
        (attach sample cluster zone_bb 2
          (some 0)
          (attach sample cluster zone_aa 1 (some 0) one_zone.heap))
        0
      ≡ some w)
    × ((j : Text)
        → lookup j w.children
          ≡ (if (parent_key sample cluster zone_bb).name == j then some 2 else lookup j []))
unfolding add_zone new lookup put remove sample_fqdn has_suffix_dot parent_key
attach_twice_example = attach_twice sample cluster zone_aa zone_bb 1 2 0 one_zone.heap _ refl refl

expand-eq-products_example :
    expand sample (text "demo" ∷ text "test" ∷ []) (text "de." ∷ text "org." ∷ []) []
    ≡ products sample (text "demo" ∷ text "test" ∷ []) (text "de." ∷ text "org." ∷ [])
expand-eq-products_example =
    expand-eq-products sample (text "demo" ∷ text "test" ∷ []) (text "de." ∷ text "org." ∷ []) []

rdn-Stripped_example : Stripped (text "demo..") (rdn (text "demo.."))
rdn-Stripped_example = rdn-Stripped (text "demo..")

rdn-join_example :
    Option.map rdn (join sample (text "www" ∷ text "demo" ∷ []))
    ≡ some (dotted (text "www") (text "demo"))
unfolding has_suffix_dot
rdn-join_example =
    rdn-join sample sample-Documented (text "www") (text "demo") (inl (λ e. cc e)) (inl refl) refl
