-- ===== src/Server/ZoneRequest/Serving.antt =====
-- What a reconciliation does to the zone model.
use kubedns.Prelude.{
  if◌then◌else◌, Bool-cases, ◌==◌, nat_eq, Text, text_eq, ℕ, ◌≡◌, refl, sym, ◌∙◌, ◌↔◌, ◌⊎◌, inl,
  inr, Bool, true, false, Option, none, some, arith,
}
use kubedns.External.{External}
use kubedns.Api.{HostedZone, ObjectKey}
use kubedns.Common.Cluster.{Fetched, Problem}
use kubedns.Common.Responsibility.{
  Responsibility, RootInfo, info, config_problem, temporary_problem, panicked, unfinished, check,
  get_root_info,
}
use kubedns.Common.Responsibility.Checking.{check-accepts}
use kubedns.Common.Validate.{validate_zone}
use kubedns.Common.Validate.Zones.{IsValidZone, validate_zone-none}
use kubedns.Zonemodel.Keys.{ZoneKey, zone_key_from_object, key_eq, key_beq_iff}
use kubedns.Zonemodel.Model.{
  Model, add_zone, remove_zone, get_zone, place_zone, place_entered, attach, detach, parent_key,
  find_parent, zone_names,
}
use kubedns.Zonemodel.Model.Registry.{get_zone-add_zone}
use kubedns.Zonemodel.Model.Describing.{LeadsToIt, add_zone-LeadsToIt}
use kubedns.Zonemodel.Model.Termination.{get_zone-remove_zone}
use kubedns.Zonemodel.Model.Soundness.{IsSound, StaysNested, add_zone-IsSound, remove_zone-IsSound}
use kubedns.Zonemodel.Outcome.{ok}
use kubedns.Server.ZoneRequest.{
  Settings, Reconciled, served, after_validation, accept, with_root, reconcile, observe,
}

key_self : (k : ZoneKey) → (k == k) ≡ true
key_self k = (key_beq_iff k k).1 refl

removed_gone : (m : Model) (k : ZoneKey) → get_zone (remove_zone m k) k ≡ none
removed_gone m k = get_zone-remove_zone m k k ∙ ground (arith, key_self k)

added_there :
    (fuel : ℕ) (x : External) (m m' : Model) (s : Text) (k : ZoneKey) (z : HostedZone) (p : ℕ)
    → add_zone fuel x m s k z ≡ some (m', p)
    → get_zone m' k ≡ some p
added_there fuel x m m' s k z p e =
    get_zone-add_zone fuel x m m' s k k z p e ∙ ground (arith, key_self k)

-- The zone is not valid and was taken out, or it is valid and the model came from adding it.
abbrev Placed : ℕ → External → Settings → HostedZone → Model → ZoneKey → Model → Type 0
Placed fuel x s o m zk m' =
    ((m' ≡ remove_zone m zk) × ¬ IsValidZone x o.spec)
    ⊎ (IsValidZone x o.spec × ((p : ℕ) × (add_zone fuel x m s.source zk o ≡ some (m', p))))

served-Placed :
    (fuel : ℕ) (x : External) (s : Settings) (master : Bool) (o : HostedZone) (m : Model)
    (zk : ZoneKey) (r : Reconciled) (a : Option (Model × ℕ))
    → add_zone fuel x m s.source zk o ≡ a
    → served x master o a ≡ ok r
    → (p : ℕ) × (add_zone fuel x m s.source zk o ≡ some (r.model, p))
served-Placed fuel x s master o m zk r none e h = cc
served-Placed fuel x s master o m zk r (some (m', p)) e h =
    let same : m' ≡ r.model = cc h in (p, rw (← same) e)

after_validation-Placed :
    (fuel : ℕ) (x : External) (s : Settings) (master : Bool) (o : HostedZone) (m : Model)
    (r : Reconciled) (v : Text × Option Text)
    → (v.1 ≡ none) ↔ IsValidZone x o.spec
    → after_validation fuel x s master o m v ≡ ok r
    → Placed fuel x s o m (zone_key_from_object s.cluster_name o.meta) r.model
after_validation-Placed fuel x s master o m r (reason, some e) valid h =
    inl (cc h, λ is. cc (valid.1 is))
after_validation-Placed fuel x s master o m r (reason, none) valid h =
    inr (valid.0 refl, served-Placed fuel x s master o m _ r _ refl h)

accept-Placed :
    (fuel : ℕ) (x : External) (s : Settings) (master : Bool) (o : HostedZone) (m : Model)
    (r : Reconciled)
    → accept fuel x s master o m ≡ ok r
    → Placed fuel x s o m (zone_key_from_object s.cluster_name o.meta) r.model
unfolding accept
accept-Placed fuel x s master o m r e =
    after_validation-Placed fuel x s master o m r (validate_zone x o) (validate_zone-none x o) e

-- Only the metadata and the specification of a zone matter to the model.
add_zone-observe :
    (fuel : ℕ) (x : External) (m : Model) (s : Text) (k : ZoneKey) (class : Option Text)
    (o : HostedZone)
    → add_zone fuel x m s k (observe class o) ≡ add_zone fuel x m s k o
unfolding add_zone place_zone place_entered attach detach parent_key find_parent zone_names
add_zone-observe fuel x m s k class o = refl

observed-Placed :
    (fuel : ℕ) (x : External) (s : Settings) (master : Bool) (o : HostedZone) (m m' : Model)
    (zk : ZoneKey)
    → Placed fuel x s (if master then observe s.class o else o) m zk m'
    → Placed fuel x s o m zk m'
observed-Placed fuel x s false o m m' zk h = h
observed-Placed fuel x s true o m m' zk (inl gone) = inl gone
observed-Placed fuel x s true o m m' zk (inr (valid, (p, e))) =
    inr (valid, (p, sym (add_zone-observe fuel x m s.source zk s.class o) ∙ e))

accept_observed-Placed :
    (fuel : ℕ) (x : External) (s : Settings) (master : Bool) (o : HostedZone) (m : Model)
    (r : Reconciled)
    → accept fuel x s master (if master then observe s.class o else o) m ≡ ok r
    → Placed fuel x s o m (zone_key_from_object s.cluster_name o.meta) r.model
accept_observed-Placed fuel x s true o m r e =
    observed-Placed fuel x s true o m r.model _
      (accept-Placed fuel x s true (observe s.class o) m r e)
accept_observed-Placed fuel x s false o m r e = accept-Placed fuel x s false o m r e

-- Why a zone is not served: the search for the root found a mistake in the configuration, or the
-- zone is not for this server, or it is not valid.
abbrev pub IsRefused : External → Settings → HostedZone → RootInfo → Type 0
IsRefused x s o i =
    ((p : Problem) × (i ≡ config_problem p))
    ⊎ ((j : Responsibility) × (i ≡ info j)
        × ((check j s.class none ≡ false) ⊎ (¬ IsValidZone x o.spec)))

-- What a reconciliation does to the model, by what the search for the root found.
abbrev Outcomes : ℕ → External → Settings → HostedZone → Model → RootInfo → Reconciled → Type 0
Outcomes fuel x s o m i r =
    ((r.model ≡ m) × ((p : Problem) × (i ≡ temporary_problem p) × (r.problem ≡ some p)))
    ⊎ (((r.model ≡ remove_zone m (zone_key_from_object s.cluster_name o.meta)) × IsRefused x s o i)
        ⊎ ((j : Responsibility) × (i ≡ info j)
            × (check j s.class none ≡ true)
            × IsValidZone x o.spec
            × ((p : ℕ) × (add_zone fuel x m s.source (zone_key_from_object s.cluster_name o.meta) o
                  ≡ some (r.model, p)))))

checked-Outcomes :
    (fuel : ℕ) (x : External) (s : Settings) (o : HostedZone) (m : Model) (j : Responsibility)
    (r : Reconciled)
    → check j s.class none ≡ true
    → Placed fuel x s o m (zone_key_from_object s.cluster_name o.meta) r.model
    → Outcomes fuel x s o m (info j) r
checked-Outcomes fuel x s o m j r accepted (inl (gone, not_valid)) =
    inr (inl (gone, inr (j, refl, inr not_valid)))
checked-Outcomes fuel x s o m j r accepted (inr (valid, (p, e))) =
    inr (inr (j, refl, accepted, valid, (p, e)))

with_root-Outcomes :
    (fuel : ℕ) (x : External) (s : Settings) (master : Bool) (o : HostedZone) (m : Model)
    (i : RootInfo) (r : Reconciled)
    → with_root fuel x s master o m i ≡ ok r
    → Outcomes fuel x s o m i r
unfolding with_root
with_root-Outcomes fuel x s master o m (info j) r e = elim (Bool-cases (check j s.class none)) [
  | inl accepted ↦
      checked-Outcomes fuel x s o m j r accepted
        (accept_observed-Placed fuel x s master o m r (rw accepted at e))
  | inr refused ↦ let h = rw refused at e in inr (inl (cc h, inr (j, refl, inl refused)))
]
with_root-Outcomes fuel x s master o m (config_problem p) r e = inr (inl (cc e, inl (p, refl)))
with_root-Outcomes fuel x s master o m (temporary_problem p) r e = inl (cc e, (p, refl, cc e))
with_root-Outcomes fuel x s master o m panicked r e = cc
with_root-Outcomes fuel x s master o m unfinished r e = cc

-- On a model that satisfies the invariant, a reconciliation that returns has done one of three
-- things. The search for the root had a temporary problem: it is returned and the model is left
-- alone. Or the search found a mistake in the configuration, or `Check` refuses the root, or the zone
-- is not valid: the model has no zone for its key. Or the root is found and accepted and the zone is
-- valid: its key leads to a zone of the model with the names and the parent of the resource.
pub reconcile_serves :
    (fuel : ℕ) (x : External) (get : ObjectKey → Fetched HostedZone) (s : Settings) (master : Bool)
    (o : HostedZone) (m : Model) (r : Reconciled)
    → IsSound m
    → reconcile fuel x get s master o m ≡ ok r
    → ((r.model ≡ m)
        × ((p : Problem) × ((get_root_info fuel x get o none).0 ≡ temporary_problem p)
            × (r.problem ≡ some p)))
      ⊎ (((get_zone r.model (zone_key_from_object s.cluster_name o.meta) ≡ none)
            × IsRefused x s o ((get_root_info fuel x get o none).0))
          ⊎ ((j : Responsibility) × ((get_root_info fuel x get o none).0 ≡ info j)
              × (check j s.class none ≡ true)
              × IsValidZone x o.spec
              × ((p : ℕ) × (get_zone r.model (zone_key_from_object s.cluster_name o.meta) ≡ some p)
                  × LeadsToIt x o r.model.heap p)))
unfolding reconcile
reconcile_serves fuel x get s master o m r snd e =
    elim (with_root-Outcomes fuel x s master o m _ r e) [
      | inl same ↦ inl same
      | inr (inl (gone, why)) ↦ inr (inl (rw gone (removed_gone m _), why))
      | inr (inr (j, i, accepted, valid, (p, added))) ↦ inr (
          inr (
            j,
            i,
            accepted,
            valid,
            (
              p,
              added_there fuel x m r.model s.source _ o p added,
              add_zone-LeadsToIt x o fuel m r.model s.source _ p snd added,
            ),
          ))
    ]

-- A server with a class takes every zone that it reconciles out of the model, unless the search for
-- the root had a temporary problem.
pub reconcile-classed :
    (fuel : ℕ) (x : External) (get : ObjectKey → Fetched HostedZone) (s : Settings) (master : Bool)
    (o : HostedZone) (m : Model) (r : Reconciled) (c : Text)
    → s.class ≡ some c
    → reconcile fuel x get s master o m ≡ ok r
    → ((r.model ≡ m) × ((p : Problem) × (r.problem ≡ some p)))
      ⊎ (get_zone r.model (zone_key_from_object s.cluster_name o.meta) ≡ none)
unfolding reconcile
reconcile-classed fuel x get s master o m r c classed e =
    elim (with_root-Outcomes fuel x s master o m _ r e) [
      | inl (same, (p, why, problem)) ↦ inl (same, (p, problem))
      | inr (inl (gone, why)) ↦ inr (rw gone (removed_gone m _))
      | inr (inr (j, i, accepted, valid, there)) ↦
          let none_set = ((check-accepts j s.class none).0 accepted).1 in
          absurd (cc (none_set, classed))
    ]

-- A reconciliation keeps the invariant of the zone model, unless the resource makes a root zone of a
-- nested one.
pub reconcile-IsSound :
    (fuel : ℕ) (x : External) (get : ObjectKey → Fetched HostedZone) (s : Settings) (master : Bool)
    (o : HostedZone) (m : Model) (r : Reconciled)
    → IsSound m
    → StaysNested m (zone_key_from_object s.cluster_name o.meta) o
    → reconcile fuel x get s master o m ≡ ok r
    → IsSound r.model
unfolding reconcile
reconcile-IsSound fuel x get s master o m r sound stays e =
    elim (with_root-Outcomes fuel x s master o m _ r e) [
      | inl (same, problem) ↦ rw same sound
      | inr (inl (gone, why)) ↦ rw gone (remove_zone-IsSound m _ sound)
      | inr (inr (j, i, accepted, valid, (p, added))) ↦
          add_zone-IsSound fuel x m r.model s.source _ o p sound stays added
    ]
