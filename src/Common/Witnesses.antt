-- ===== src/Common/Witnesses.antt =====
-- The theorems on validation and responsibility at the resources of the examples.
use kubedns.Prelude.{
  if◌then◌else◌, Bool-cases, nat_eq, ◌==◌, Any, Text, text, text_beq_iff, text_eq, ◌<◌, ◌≡◌, refl,
  sym, ap, ◌∙◌, ◌↔◌, inl, inr, true, Option, none, some, List, [], ◌∷◌, arith,
}
use kubedns.External.Sample.{sample}
use kubedns.Api.{HostedZone, ObjectKey}
use kubedns.Common.Cluster.{Fetched, found, not_found}
use kubedns.Common.Responsibility.{Responsibility, check, get_root_info_for_entry}
use kubedns.Common.Responsibility.Checking.{check-accepts}
use kubedns.Common.Responsibility.Roots.{unseen, IsRootInfo, get_root_info_for_entry-IsRootInfo}
use kubedns.External.Sample.{sample-Documented}
use kubedns.Common.Responsibility.{get_root_info}
use kubedns.Common.Responsibility.Chains.{IsRootOf, get_root_info-IsRootOf}
use kubedns.Common.Validate.{validate_entry_data, validate_zone}
use kubedns.Common.Validate.Entries.{IsValidEntry, validate_entry_data-none}
use kubedns.Common.Validate.Zones.{IsValidZone, validate_zone-none}
use kubedns.Zonemodel.Examples.{zone_a, zone_aa, entry_aa_demo}

-- A cluster with the two zones of the examples.
abbrev pub two_zone_cluster : ObjectKey → Fetched HostedZone
two_zone_cluster k =
    if k.name == text "a"
    then found zone_a
    else if k.name == text "aa"
    then found zone_aa
    else not_found

abbrev pub aa_key : ObjectKey
aa_key = record { namespace = text "default"; name = text "aa" }

abbrev both_names : List Text
both_names = text "a" ∷ text "aa" ∷ []

both_found :
    (name : Text) (z : HostedZone)
    → two_zone_cluster (record { namespace = text "default"; name = name }) ≡ found z
    → Any (λ u. u ≡ name) both_names
both_found name z e = elim (Bool-cases (name == text "a")) [
  | inl a ↦ inl (sym ((text_beq_iff name (text "a")).0 a))
  | inr b ↦ elim (Bool-cases (name == text "aa")) [
    | inl aa ↦ inr (inl (sym ((text_beq_iff name (text "aa")).0 aa)))
    | inr c ↦ let f : not_found ≡ found z = rw (b, c) at e in cc f
  ]
]

few_names : unseen both_names [] < 5
unfolding unseen
few_names = omega arith

get_root_info_for_entry-IsRootInfo_example :
    IsRootInfo two_zone_cluster aa_key (get_root_info_for_entry 5 two_zone_cluster aa_key)
get_root_info_for_entry-IsRootInfo_example =
    get_root_info_for_entry-IsRootInfo two_zone_cluster aa_key both_names 5 both_found (λ e. cc e)
      few_names

abbrev pub root_of_a : Responsibility
root_of_a = record { root = zone_a; parent = none; runtime = none; class = none }

abbrev gold : Option Text
gold = some (text "gold")

check-accepts_example :
    (check root_of_a gold none ≡ true) ↔ ((root_of_a.class ≡ none) × (gold ≡ none))
check-accepts_example = check-accepts root_of_a gold none

validate_entry_data-none_example :
    (validate_entry_data sample entry_aa_demo ≡ none) ↔ IsValidEntry sample entry_aa_demo.spec
validate_entry_data-none_example = validate_entry_data-none sample entry_aa_demo

validate_zone-none_example :
    ((validate_zone sample zone_a).1 ≡ none) ↔ IsValidZone sample zone_a.spec
validate_zone-none_example = validate_zone-none sample zone_a

named_as_read :
    (k : ObjectKey) (z : HostedZone) → two_zone_cluster k ≡ found z → z.meta.name ≡ k.name
named_as_read k z e = elim (Bool-cases (k.name == text "a")) [
  | inl a ↦
      let f : found zone_a ≡ found z = rw a at e in
      let same : zone_a ≡ z = cc f in
      ap (λ w. w.meta.name) (sym same) ∙ sym ((text_beq_iff k.name (text "a")).0 a)
  | inr b ↦ elim (Bool-cases (k.name == text "aa")) [
    | inl aa ↦
        let f : found zone_aa ≡ found z = rw (b, aa) at e in
        let same : zone_aa ≡ z = cc f in
        ap (λ w. w.meta.name) (sym same) ∙ sym ((text_beq_iff k.name (text "aa")).0 aa)
    | inr c ↦ let f : not_found ≡ found z = rw (b, c) at e in cc f
  ]
]

read_among :
    (k : ObjectKey) (z : HostedZone)
    → two_zone_cluster k ≡ found z
    → Any (λ u. u ≡ k.name) both_names
read_among k z e = both_found k.name z e

get_root_info-IsRootOf_example :
    IsRootOf sample two_zone_cluster zone_aa
      (some (text "www" ∷ []))
      (get_root_info 5 sample two_zone_cluster zone_aa (some (text "www" ∷ [])))
get_root_info-IsRootOf_example =
    get_root_info-IsRootOf sample sample-Documented two_zone_cluster named_as_read both_names
      read_among 5 zone_aa (some (text "www" ∷ [])) (inr (inl refl)) few_names
