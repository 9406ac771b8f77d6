-- ===== src/Server/ZoneRequest.antt =====
-- internal/controller/server/hostedzone/request.go: how a zone resource reaches the zone model. The
-- triggers of ReconcileDeleting and ReconcileDeleted only enqueue other objects; they are left out.
pub mod Serving
use kubedns.Prelude.{
  if◌then◌else◌, ◌==◌, nat_eq, Text, text, text_eq, ℕ, Bool, true, false, not, ◌||◌, Option, none,
  some, [],
}
use kubedns.Api.{HostedZone, HostedZoneStatus, Condition, ObjectKey, status_true, status_false}
use kubedns.Api.Conditions.{
  server_condition_type, reason_server_active, reason_server_validation_failure,
}
use kubedns.Common.Cluster.{Fetched, Problem, string_or}
use kubedns.Common.Responsibility.{
  RootInfo, Responsibility, info, config_problem, temporary_problem, check, get_root_info,
}
use kubedns.Common.Responsibility
use kubedns.Common.Validate.{validate_zone, problem_message}
use kubedns.Zonemodel.Keys.{zone_key_from_object, new_zone_key}
use kubedns.Zonemodel.Model.{Model, add_zone, remove_zone}
use kubedns.Zonemodel.Outcome.{Outcome, ok, panicked, unfinished}
use kubedns.External.{External}

-- The names of the request's cluster and of the model's source, and the class that is served.
pub record Settings : Type 0 where
  pub cluster_name : Text
  pub source : Text
  pub class : Option Text

-- What a reconciliation returns and leaves behind.
pub record Reconciled : Type 0 where
  pub problem : Option Problem
  pub object : HostedZone
  pub model : Model

-- The condition of the slave mode.
abbrev pub server_condition : HostedZone → Option Text → Text → Condition
server_condition o none reason = record {
  kind = server_condition_type;
  status = status_true;
  observed_generation = o.meta.generation;
  reason = reason_server_active;
  message = text "hosted zone served";
}
server_condition o (some e) reason = record {
  kind = server_condition_type;
  status = status_false;
  observed_generation = o.meta.generation;
  reason = reason;
  message = e;
}

-- The master's state. The tests that only avoid to write equal values are left out.
abbrev pub master_status : Bool → Option Text → HostedZoneStatus → HostedZoneStatus
master_status force none s = record s { message = text "zone is served"; state = text "Ok" }
master_status force (some e) s =
    if force || not (s.state == text "Invalid")
    then record s { message = e; state = text "Invalid" }
    else s

-- `updateStatus`; it returns no problem.
unfoldable pub update_status :
    External → Bool → Bool → Option Text → Option Text → HostedZone → HostedZone
update_status x master force e reason o =
    if master
    then record o { status = master_status force e (record o.status { conditions = [] }) }
    else record o {
      status = record o.status {
        conditions =
            x.set_status_condition o.status.conditions
              (server_condition o e (string_or reason reason_server_validation_failure));
      };
    }

-- The observed class is given up by the master that had it.
abbrev pub lose_observed : Option Text → HostedZone → HostedZone
lose_observed class o = elim o.status.observed [
  | none ↦ o
  | some b ↦
      if b.class == string_or class []
      then record o { status = record o.status { observed = none } }
      else o
]

abbrev pub observe : Option Text → HostedZone → HostedZone
observe class o = record o {
  status = record o.status {
    observed = some (record { class = string_or class []; runtime = string_or o.spec.runtime [] });
  };
}

abbrev pub served : External → Bool → HostedZone → Option (Model × ℕ) → Outcome Reconciled
served x master o none = unfinished
served x master o (some (m, p)) =
    ok (record { problem = none; object = update_status x master true none none o; model = m })

-- By the reason and the error of the validation.
abbrev pub after_validation :
    ℕ → External → Settings → Bool → HostedZone → Model → Text × Option Text → Outcome Reconciled
after_validation fuel x s master o m (reason, some e) = ok (record {
  problem = none;
  object = update_status x master true (some e) (some reason) o;
  model = remove_zone m (zone_key_from_object s.cluster_name o.meta);
})
after_validation fuel x s master o m (reason, none) =
    served x master o (add_zone fuel x m s.source (zone_key_from_object s.cluster_name o.meta) o)

-- The part of `Reconcile` behind the check of the responsibility.
unfoldable pub accept : ℕ → External → Settings → Bool → HostedZone → Model → Outcome Reconciled
unfolding validate_zone update_status
accept fuel x s master o m = after_validation fuel x s master o m (validate_zone x o)

-- `Reconcile` once the root zone is known.
unfoldable pub with_root :
    ℕ → External → Settings → Bool → HostedZone → Model → RootInfo → Outcome Reconciled
unfolding accept check update_status problem_message
with_root fuel x s master o m (info r) =
    let zk = zone_key_from_object s.cluster_name o.meta in
    if not (check r s.class none)
    then ok (record {
      problem = none;
      object = if master then lose_observed s.class o else o;
      model = remove_zone m zk;
    })
    else accept fuel x s master (if master then observe s.class o else o) m
with_root fuel x s master o m (config_problem p) = ok (record {
  problem = none;
  object = update_status x master false (some (problem_message p)) none o;
  model = remove_zone m (zone_key_from_object s.cluster_name o.meta);
})
with_root fuel x s master o m (temporary_problem p) =
    ok (record { problem = some p; object = o; model = m })
with_root fuel x s master o m Responsibility.panicked = panicked
with_root fuel x s master o m Responsibility.unfinished = unfinished

unfoldable pub reconcile :
    ℕ
    → External
    → (ObjectKey → Fetched HostedZone)
    → Settings
    → Bool
    → HostedZone
    → Model
    → Outcome Reconciled
unfolding with_root get_root_info
reconcile fuel x get s master o m =
    with_root fuel x s master o m ((get_root_info fuel x get o none).0)

unfoldable pub reconcile_deleting : Settings → HostedZone → Model → Model
reconcile_deleting s o m = remove_zone m (zone_key_from_object s.cluster_name o.meta)

unfoldable pub reconcile_deleted : Settings → ObjectKey → Model → Model
reconcile_deleted s k m = remove_zone m (new_zone_key s.cluster_name k.namespace k.name)
