-- ===== src/Server/Witnesses.antt =====
-- The theorems on the server at the zones and entries of the examples.
use kubedns.Prelude.{
  if◌then◌else◌, nat_eq, ◌==◌, if-cases, length, All, Any, lookup, Text, text, text_eq,
  has_suffix_dot, ℕ, ◌<◌, ◌≡◌, refl, ◌↔◌, ◌⊎◌, true, false, Option, none, some, [], ◌∷◌, arith,
}
use kubedns.External.Sample.{contains_byte, sample}
use kubedns.Api.{Condition, ObjectKey, HostedZone}
use kubedns.Api.Conditions.{server_condition_type}
use kubedns.Common.Cluster.{Problem}
use kubedns.Common.Responsibility.{Responsibility, info, temporary_problem, check, get_root_info}
use kubedns.Common.Validate.Zones.{IsValidZone}
use kubedns.Common.Witnesses.{two_zone_cluster}
use kubedns.Zonemodel.Keys.{zone_key_from_object, new_zone_key}
use kubedns.Zonemodel.Model.{new, get_zone}
use kubedns.Zonemodel.Model.Soundness.{IsSound, StaysNested, new-IsSound}
use kubedns.Zonemodel.Model.Describing.{LeadsToIt}
use kubedns.Zonemodel.Outcome.{Outcome, ok, err}
use kubedns.Zonemodel.Names.{rdn}
use kubedns.Zonemodel.Resolve.{resolve_fqdn}
use kubedns.Zonemodel.Examples.{zone_a, zone_aa, entry_aa_demo, index_aa, two_zones, key_of}
use kubedns.Server.Handlers.{Context, handle_names, only_status, or_error, answer_name, path_zones}
use kubedns.Server.Handlers.Routing.{path_of, handle_names-path}
use kubedns.Server.Indexer.{index_key, index_names}
use kubedns.Server.Indexer.Keys.{IsIndexed, index_names-index_key}
use kubedns.Server.Records.{collect, no_records}
use kubedns.Server.Records.Collecting.{gathered, first_cname, collect-gathered}
use kubedns.External.Sample.{sample-Documented, sample_fqdn, contains_byte}
use kubedns.Zonemodel.Witnesses.{both_reached}
use kubedns.Api.{CoreDnsEntry}
use kubedns.Common.Cluster.{Fetched, found}
use kubedns.Zonemodel.Examples.{entry_object}
use kubedns.Server.Handlers.{split_slash, trim_prefix}
use kubedns.Server.Handlers.Responding.{Settles, Responds, handle_names-Responds}
use kubedns.Server.EntryRequest
use kubedns.Server.EntryRequest.Accepting.{Reconciles, entry_reconcile_accepts}
use kubedns.Server.Options.{is_master}
use kubedns.Server.Options.Mastering.{is_master_iff}
use kubedns.Server.ZoneRequest.{Settings, Reconciled, reconcile}
use kubedns.Server.ZoneRequest.Serving.{
  IsRefused, reconcile_serves, reconcile-classed, reconcile-IsSound,
}

abbrev settings : Option Text → Settings
settings class = record { cluster_name = text "cluster"; source = text "cluster"; class = class }

-- The zone without an e-mail address is taken out of the model.
abbrev result : Option Text → Outcome Reconciled
result class = reconcile 5 sample two_zone_cluster (settings class) true zone_a new

abbrev reconciled : Outcome Reconciled → Reconciled
reconciled (ok r) = r
reconciled (err e) = record { problem = none; object = zone_a; model = new }
reconciled Outcome.panicked = record { problem = none; object = zone_a; model = new }
reconciled Outcome.unfinished = record { problem = none; object = zone_a; model = new }

returned : result none ≡ ok (reconciled (result none))
unfolding reconcile
returned = refl

abbrev gold : Option Text
gold = some (text "gold")

returned_gold : result gold ≡ ok (reconciled (result gold))
unfolding reconcile
returned_gold = refl

reconcile_serves_example :
    (((reconciled (result none)).model ≡ new)
      × ((p : Problem) × ((get_root_info 5 sample two_zone_cluster zone_a none).0
            ≡ temporary_problem p)
          × ((reconciled (result none)).problem ≡ some p)))
    ⊎ (((get_zone
              (reconciled (result none)).model
              (zone_key_from_object (text "cluster") zone_a.meta)
            ≡ none)
          × IsRefused sample
              (settings none)
              zone_a
              ((get_root_info 5 sample two_zone_cluster zone_a none).0))
        ⊎ ((j : Responsibility) × ((get_root_info 5 sample two_zone_cluster zone_a none).0 ≡ info j)
            × (check j none none ≡ true)
            × IsValidZone sample zone_a.spec
            × ((p : ℕ) × (get_zone
                    (reconciled (result none)).model
                    (zone_key_from_object (text "cluster") zone_a.meta)
                  ≡ some p)
                × LeadsToIt sample zone_a (reconciled (result none)).model.heap p)))
reconcile_serves_example =
    reconcile_serves 5 sample two_zone_cluster (settings none) true zone_a new
      (reconciled (result none)) new-IsSound returned

reconcile-classed_example :
    (((reconciled (result gold)).model ≡ new)
      × ((p : Problem) × ((reconciled (result gold)).problem ≡ some p)))
    ⊎ (get_zone (reconciled (result gold)).model (zone_key_from_object (text "cluster") zone_a.meta)
        ≡ none)
reconcile-classed_example =
    reconcile-classed 5 sample two_zone_cluster (settings gold) true zone_a new
      (reconciled (result gold)) (text "gold") refl returned_gold

nothing_there : StaysNested new (zone_key_from_object (text "cluster") zone_a.meta) zone_a
unfolding get_zone new lookup
nothing_there = λ p e. cc e

reconcile-IsSound_example : IsSound (reconciled (result none)).model
reconcile-IsSound_example =
    reconcile-IsSound 5 sample two_zone_cluster (settings none) true zone_a new
      (reconciled (result none)) new-IsSound nothing_there returned

abbrev context : Context
context = record {
  fuel = 30;
  external = sample;
  index = index_aa;
  get = λ source k. if k.name == text "aa" then ok zone_aa else ok zone_a;
  model = two_zones;
}

handle_names-path_example :
    ((get_zone two_zones (new_zone_key (text "cluster") (text "default") (text "a")) ≡ none)
      × (handle_names context
            (path_of path_zones (text "cluster") (text "default") (text "a") (text "demo"))
          ≡ ok (only_status 404)))
    ⊎ ((p : ℕ) × (get_zone two_zones (new_zone_key (text "cluster") (text "default") (text "a"))
          ≡ some p)
        × (handle_names context
              (path_of path_zones (text "cluster") (text "default") (text "a") (text "demo"))
            ≡ or_error
                (resolve_fqdn 30 sample index_aa two_zones.heap p (text "demo"))
                (answer_name context)))
handle_names-path_example =
    handle_names-path context (text "cluster") (text "default") (text "a") (text "demo")
      (refl, (refl, (refl, (refl, (refl, (refl, (refl, tt)))))))
      (refl, (refl, (refl, (refl, (refl, (refl, (refl, tt))))))) (refl, tt)
      (refl, (refl, (refl, (refl, tt))))

index_names-index_key_example :
    Any
      (λ k. k ≡ index_key (key_of (text "aa")) (text "demo"))
      (index_names sample false entry_aa_demo)
    ↔ (IsIndexed sample false entry_aa_demo
        × Any (λ n. rdn n ≡ text "demo") entry_aa_demo.spec.dns_names)
index_names-index_key_example =
    index_names-index_key sample false entry_aa_demo (key_of (text "aa")) (text "demo") (λ e. cc e)
      refl refl

collect-gathered_example :
    ((collect (entry_aa_demo ∷ []) no_records).a ≡ gathered (λ e. e.spec.a) (entry_aa_demo ∷ []))
    × ((collect (entry_aa_demo ∷ []) no_records).aaaa
        ≡ gathered (λ e. e.spec.aaaa) (entry_aa_demo ∷ []))
    × ((collect (entry_aa_demo ∷ []) no_records).txt
        ≡ gathered (λ e. e.spec.txt) (entry_aa_demo ∷ []))
    × ((collect (entry_aa_demo ∷ []) no_records).ns
        ≡ gathered (λ e. e.spec.ns) (entry_aa_demo ∷ []))
    × ((collect (entry_aa_demo ∷ []) no_records).cname ≡ first_cname [] (entry_aa_demo ∷ []))
collect-gathered_example = collect-gathered (entry_aa_demo ∷ [])

is_master_iff_example :
    (is_master true [] ≡ true)
    ↔ ((true ≡ false) ⊎ All (λ (c : Condition). c.kind ≡ server_condition_type) [])
is_master_iff_example = is_master_iff true []

context_reads : (s : Text) (k : ObjectKey) → Settles (context.get s k)
context_reads s k = if-cases _ _ Settles (k.name == text "aa") tt tt

abbrev path_a_demo : Text
path_a_demo = path_of path_zones (text "cluster") (text "default") (text "a") (text "demo")

short_fields :
    All (λ q. length (sample.fqdn q) < 30) (split_slash [] (trim_prefix path_a_demo path_zones))
unfolding split_slash trim_prefix sample_fqdn has_suffix_dot
short_fields = (omega arith, (omega arith, (omega arith, (omega arith, tt))))

handle_names-Responds_example : Responds (handle_names context path_a_demo)
handle_names-Responds_example =
    handle_names-Responds context context_reads sample-Documented both_reached path_a_demo
      short_fields

abbrev served_zone : HostedZone
served_zone = record zone_a { status = record zone_a.status { state = text "Ready" } }

abbrev entry_a : CoreDnsEntry
entry_a = entry_object (text "www") (text "www" ∷ []) (text "a") (text "1.2.3.4" ∷ []) []

abbrev served_cluster : ObjectKey → Fetched HostedZone
served_cluster k = found served_zone

abbrev entry_of : Outcome (Option Problem × CoreDnsEntry) → CoreDnsEntry
entry_of (ok (p, o)) = o
entry_of (err e) = entry_a
entry_of Outcome.panicked = entry_a
entry_of Outcome.unfinished = entry_a

abbrev entry_result : Outcome (Option Problem × CoreDnsEntry)
entry_result = EntryRequest.reconcile 5 sample served_cluster none true entry_a

entry_returned : entry_result ≡ ok (none, entry_of entry_result)
unfolding EntryRequest.reconcile contains_byte
entry_returned = refl

entry_reconcile_accepts_example :
    (zone : HostedZone) × ((served_cluster (sample.ref_object_key_for entry_a.meta (text "a"))
        ≡ found zone)
      × Reconciles sample none zone entry_a
          (entry_of entry_result)
          (get_root_info 5 sample served_cluster zone (some (text "www" ∷ []))))
entry_reconcile_accepts_example =
    entry_reconcile_accepts 5 sample served_cluster none true entry_a (entry_of entry_result)
      entry_returned
