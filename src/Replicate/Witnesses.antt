-- ===== src/Replicate/Witnesses.antt =====
-- The theorems on replication at the zones of the examples.
use kubedns.Prelude.{
  nat_eq, All, Any, lookup, put, text, text_eq, ◌≡◌, refl, subst, ◌↔◌, ◌⊎◌, inl, inr, true, none,
  some, List, [], ◌∷◌,
}
use kubedns.Replicate.Zones.{request_eq}
use kubedns.Common.Cluster.{contains}
use kubedns.Api.{HostedZone, HostedZoneStatus}
use kubedns.External.Sample.{sample}
use kubedns.Common.Witnesses.{two_zone_cluster, aa_key, root_of_a}
use kubedns.Common.Responsibility.{info, get_root_info}
use kubedns.Common.Calls.{returns, value}
use kubedns.Zonemodel.Examples.{zone_a}
use kubedns.Replicate.Options.{replicated_annotation}
use kubedns.Replicate.Objects.{State, ResponsibilityHandler, Event, created}
use kubedns.Replicate.Events.{IsQuiet, IsGuarded, IsFine, IsGone}
use kubedns.Replicate.Logic.{replica_of, reconcile, reconcile_deleting}
use kubedns.Replicate.Actions.{map_key, Replicator}
use kubedns.Replicate.Logic.Promises.{
  created-ignored, held, fresh, reconcile-IsGuarded, reconcile_keeps_finalizer,
  reconcile_no_problem,
}
use kubedns.Replicate.Zones.{Handler, Unresponsible, responsibility, is_responsible}
use kubedns.Replicate.Zones.Settling.{responsibility-IsQuiet, is_responsible_settles}
use kubedns.Replicate.Zones.{enqueue_all}
use kubedns.Replicate.Objects.{ignore_not_found}
use kubedns.Replicate.Sample.{
  without, sample_objects, sample_objects-Documented, sample_clusters, with_finalizers,
}

abbrev sample_handler : Handler
sample_handler = record {
  fuel = 5;
  external = sample;
  get = two_zone_cluster;
  parent_index = λ k. inr (aa_key ∷ []);
  entry_index = λ k. inl (text "no index");
  set_status_condition = λ z c. z;
  request = record {
    cluster_name = text "source";
    namespaced_name = record { namespace = text "default"; name = text "a" };
  };
  class = none;
  target_class = text "gold";
}

abbrev replicator : Replicator HostedZone HostedZoneStatus Unresponsible
replicator = record {
  objects = sample_objects;
  clusters = sample_clusters;
  resp = some (responsibility sample_handler);
  options = record {
    class = none;
    runtime = none;
    target_class = text "gold";
    target_namespace = [];
  };
  finalizer = text "replication.hostedzone";
  key = record { namespace = text "default"; name = text "a" };
}

sample-IsQuiet :
    (h : ResponsibilityHandler HostedZone Unresponsible)
    → replicator.resp ≡ some h
    → IsQuiet HostedZone HostedZoneStatus Unresponsible sample_objects replicator.finalizer h
sample-IsQuiet h e =
    let same : responsibility sample_handler ≡ h = cc e in
    subst (IsQuiet HostedZone HostedZoneStatus Unresponsible sample_objects replicator.finalizer)
      same
      (responsibility-IsQuiet sample_handler sample_objects replicator.finalizer (λ z. refl)
        (λ z c. refl) (λ z sp. refl))

sample_owner_keeps :
    (es : List (Event HostedZone)) (p q n : HostedZone)
    → replicator.clusters.set_owner es p q ≡ inr n
    → sample_objects.get_annotation n replicated_annotation
      ≡ sample_objects.get_annotation q replicated_annotation
sample_owner_keeps es p q n e = cc e

abbrev taken_zone : HostedZone
taken_zone = with_finalizers zone_a (text "replication.hostedzone" ∷ [])

reconcile-IsGuarded_example :
    IsGuarded sample_objects replicator.finalizer sample_clusters.source_id
      (held replicator zone_a)
      (reconcile replicator (fresh replicator zone_a [])).1.events
reconcile-IsGuarded_example =
    reconcile-IsGuarded replicator sample_objects-Documented sample-IsQuiet sample_owner_keeps
      zone_a []

taken_zone-held : held replicator taken_zone ≡ true
unfolding contains
taken_zone-held = refl

reconcile_keeps_finalizer_example :
    ((held replicator (reconcile replicator (fresh replicator taken_zone [])).1.object ≡ true)
      ⊎ Any
          (IsGone (map_key replicator))
          (reconcile replicator (fresh replicator taken_zone [])).1.events)
    × ((held replicator (reconcile_deleting replicator (fresh replicator taken_zone [])).1.object
          ≡ true)
        ⊎ Any
            (IsGone (map_key replicator))
            (reconcile_deleting replicator (fresh replicator taken_zone [])).1.events)
reconcile_keeps_finalizer_example =
    reconcile_keeps_finalizer replicator sample_objects-Documented sample-IsQuiet sample_owner_keeps
      taken_zone [] taken_zone-held

reconcile_no_problem_example :
    ((reconcile replicator (fresh replicator zone_a [])).0 ≡ returns none
      → All IsFine (reconcile replicator (fresh replicator zone_a [])).1.events)
    × ((reconcile_deleting replicator (fresh replicator zone_a [])).0 ≡ returns none
        → All IsFine (reconcile_deleting replicator (fresh replicator zone_a [])).1.events)
reconcile_no_problem_example =
    reconcile_no_problem replicator sample_objects-Documented sample-IsQuiet sample_owner_keeps
      zone_a []

a_is_root : get_root_info 5 sample two_zone_cluster zone_a none ≡ (info root_of_a, none)
unfolding get_root_info
a_is_root = refl

is_responsible_settles_example :
    let s : State HostedZone Unresponsible = fresh replicator zone_a [] in
    let (answer, t) = is_responsible sample_handler s in
    (answer ≡ value (true, none))
    × ((true ≡ true) ↔ ((root_of_a.class ≡ none) × (sample_handler.class ≡ none)))
    × (lookup sample_handler.request t.handler ≡ some true)
    × (is_responsible sample_handler t ≡ (value (true, none), t))
is_responsible_settles_example =
    is_responsible_settles sample_handler (fresh replicator zone_a []) root_of_a none a_is_root

abbrev the_replica : HostedZone
the_replica = replica_of replicator taken_zone

replica_created :
    Any
      (λ e. e ≡ created the_replica none)
      (reconcile replicator (fresh replicator zone_a [])).1.events
unfolding contains reconcile replica_of lookup put without is_responsible get_root_info enqueue_all
    ignore_not_found
replica_created = inl refl

created-ignored_example :
    reconcile
      (record replicator { clusters = sample_clusters; key = aa_key })
      (fresh replicator the_replica [])
    ≡ (returns none, fresh replicator the_replica [])
created-ignored_example =
    created-ignored replicator sample_objects-Documented sample-IsQuiet sample_owner_keeps zone_a []
      sample_clusters aa_key the_replica none [] (λ e. cc e) replica_created
