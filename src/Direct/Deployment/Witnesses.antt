-- ===== src/Direct/Deployment/Witnesses.antt =====
-- The theorems on the deployment of servers at a zone of the examples.
use kubedns.Prelude.{
  nat_eq, Text, text, text_eq, pos, ◌≡◌, refl, subst, ◌↔◌, ◌⊎◌, inr, true, false, Option, none,
  some, [], ◌∷◌, ◌++◌, map,
}
use kubedns.Api.{HostedZone, ObjectKey}
use kubedns.External.Sample.{sample, contains_byte}
use kubedns.Common.Witnesses.{two_zone_cluster}
use kubedns.Common.Calls.{returns}
use kubedns.Common.Cluster.{string_or, not_found, contains, found, Problem}
use kubedns.Zonemodel.Examples.{zone_a}
use kubedns.Replicate.Sample.{sample_objects, sample_objects-Documented, with_finalizers}
use kubedns.Direct.DnsModes.{by_load_balancer, get_cnames}
use kubedns.Direct.Deployment.{
  State, Event, patched, created_secret, created_namespace, applied, Clusters, applied_to, Decoded,
}
use kubedns.Direct.Deployment.Modes.{runtime_mode, Values}
use kubedns.Direct.Deployment.Applying.{handle_external_resources}
use kubedns.Direct.Deployment.Applying.Succeeding.{
  IsValues, IsDeployedFor, handle_external_resources_deploys,
}
use kubedns.Direct.Readiness.{is_load_balancer_ready, collect_ingress}
use kubedns.Direct.Deployment.Manifests.{Deployer}
use kubedns.Direct.Deployment.Growth.{meta_of}
use kubedns.Direct.Deployment.Removing.{delete}
use kubedns.Direct.Deployment.Removing.Deleting.{AllRemoved}
use kubedns.Direct.Deployment.Removing.Releasing.{delete_releases}
use kubedns.Direct.ZoneRequest.{changed_responsibility}
use kubedns.Direct.ZoneRequest.Deciding.{MustGo}
use kubedns.Direct.Deployment.Reconciling.{Reconciler, accept, reconcile}
use kubedns.Direct.Deployment.Reconciling.Registering.{AsksForOther, changed_responsibility-accept}
use kubedns.Direct.Deployment.Reconciling.Guarding.{IsGuarded}
use kubedns.Direct.Deployment.Reconciling.Taking.{reconcile_guards}

abbrev a_key : ObjectKey
a_key = record { namespace = text "default"; name = text "a" }

abbrev a_deployment : Decoded
a_deployment = record { key = a_key; is_deployment = true; is_service = false }

-- Nothing exists yet, and every call succeeds.
abbrev empty_clusters : Clusters
empty_clusters = record {
  patch = λ log z. none;
  get_secret = λ log k. not_found;
  create_secret = λ log k. none;
  delete_secret = λ log k. none;
  get_namespace = λ log n. not_found;
  create_namespace = λ log n. none;
  delete_namespace = λ log n. none;
  get_object = λ log side k. found false;
  delete_object = λ log side m. none;
  apply = λ log side m. applied_to a_deployment;
  get_deployment = λ log k. not_found;
  get_service = λ log k. not_found;
  users_for = λ log k. 0;
  id = text "dataplane";
  api_server_url = inr (text "https://api");
  generate_unique_name = λ prefix id namespace name n. prefix ++ name;
  max_namelen = 253;
  max_namespacelen = 63;
}

abbrev first_problem : Option Problem → Option Problem → Option Problem
first_problem none q = q
first_problem (some p) q = some p

abbrev deployer : Deployer
deployer = record {
  external = sample;
  clusters = empty_clusters;
  mode = runtime_mode;
  mode_options = record { runtime_namespace = []; platform = text "default" };
  dns_handler = by_load_balancer;
  dns_calls = record { get_entry = λ k. not_found; is_resolvable = λ n. true };
  key = a_key;
  manifests = (text "deployment", text "template") ∷ [];
  kubedns_manifests = inr [];
  render = λ ms v. inr ((text "account", text "account") ∷ [], ms);
  decode = λ m. inr a_deployment;
  aggregate = first_problem;
  finalizer = text "zones";
  add_finalizer = sample_objects.add_finalizer;
  remove_finalizer = sample_objects.remove_finalizer;
}

first_problem_lem : (p q : Option Problem) → first_problem p q ≡ none → (p ≡ none) × (q ≡ none)
first_problem_lem none q e = (refl, e)
first_problem_lem (some p) q e = absurd (cc e)

abbrev zone_in_use : HostedZone
zone_in_use = with_finalizers zone_a (text "zones" ∷ [])

zone_in_use-held :
    (z : HostedZone) → some zone_in_use ≡ some z → contains z.meta.finalizers (text "zones") ≡ true
unfolding contains
zone_in_use-held z e =
    let same : zone_in_use ≡ z = cc e in
    subst (λ (w : HostedZone). contains w.meta.finalizers (text "zones") ≡ true) same refl

delete_releases_example :
    let (e, t) = delete deployer (record { object = some zone_in_use; events = [] }) in
    (e ≡ returns none → AllRemoved deployer t.events)
    × ((meta_of t.object ≡ some zone_in_use.meta) ⊎ AllRemoved deployer t.events)
delete_releases_example =
    delete_releases deployer first_problem_lem (some zone_in_use) zone_in_use-held

-- The cluster of the zones has a token; the server is there and has a name.
abbrev server_object : Decoded
server_object = record { key = a_key; is_deployment = true; is_service = true }

abbrev serving : Deployer
serving = record deployer {
  clusters = record empty_clusters {
    get_secret =
        λ log k. found (record { token = some (text "t"); ca_crt = none; deleting = false });
    apply = λ log side m. applied_to server_object;
    get_deployment = λ log k. found (record { conditions = []; ready_replicas = 1 });
    get_service = λ log k. found (record {
      is_load_balancer = true;
      ingress = record { ip = []; hostname = text "lb" } ∷ [];
    });
  };
}

abbrev in_use : State
in_use = record { object = some zone_in_use; events = [] }

serving_ends : (handle_external_resources serving in_use).0 ≡ returns none
unfolding handle_external_resources get_cnames is_load_balancer_ready collect_ingress
serving_ends = refl

handle_external_resources_deploys_example :
    (a : Option Values × Option Text) × IsValues serving a
    × IsDeployedFor serving a (handle_external_resources serving in_use).1.events
handle_external_resources_deploys_example =
    handle_external_resources_deploys serving first_problem_lem in_use serving_ends

abbrev reconciler : Reconciler
reconciler = record {
  deployer = deployer;
  fuel = 5;
  get_zone = two_zone_cluster;
  requeues = λ p. false;
  class = none;
  runtime = none;
}

abbrev valid_zone : HostedZone
valid_zone = record zone_a {
  spec = record zone_a.spec {
    email = text "admin@a";
    refresh = pos 1;
    retry = pos 1;
    expire = pos 1;
    minimum_ttl = pos 1;
  };
}

reconcile_guards_example :
    IsGuarded
      (text "zones")
      (contains valid_zone.meta.finalizers (text "zones"))
      (reconcile reconciler valid_zone (record { object = some valid_zone; events = [] })).1.events
reconcile_guards_example =
    reconcile_guards reconciler sample_objects-Documented.add_finalizer_lem (λ z f. refl) valid_zone

changed_responsibility-accept_example :
    ((changed_responsibility (text "zones") (some zone_in_use) ≡ true)
      ↔ MustGo (text "zones") (some zone_in_use))
    × ((changed_responsibility (text "zones") (some (accept reconciler [] zone_in_use)) ≡ true) ↔ (
        (contains zone_in_use.meta.finalizers (text "zones") ≡ true)
        × AsksForOther reconciler zone_in_use))
changed_responsibility-accept_example =
    changed_responsibility-accept reconciler [] zone_in_use (text "zones") (some zone_in_use) refl
      refl

-- What the reconciliation of a fresh zone calls: the patch comes before all that is created.
abbrev name_of : Event → Text
name_of (patched z a) = text "patch"
name_of (created_secret k a) = text "create secret"
name_of (created_namespace n a) = text "create namespace"
name_of (applied side m a) = m
name_of e = []

fresh_calls :
    map name_of
      (reconcile reconciler valid_zone (record { object = some valid_zone; events = [] })).1.events
    ≡ text "account"
      ∷ text "create secret"
      ∷ []
      ∷ []
      ∷ text "create namespace"
      ∷ []
      ∷ text "patch"
      ∷ []
unfolding reconcile string_or contains contains_byte
fresh_calls = refl
