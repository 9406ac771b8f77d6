-- ===== src/Server/EntryRequest.antt =====
-- internal/controller/server/entry/request.go: the state that the server gives an entry.
pub mod Accepting
use kubedns.Prelude.{
  if◌then◌else◌, nat_eq, ◌==◌, is_empty, Text, text, text_eq, ℕ, Bool, true, false, not, ◌&&◌, ◌||◌,
  Option, none, some, List, [], ◌++◌,
}
use kubedns.Api.{
  HostedZone, CoreDnsEntry, CoreDnsStatus, Condition, ObjectKey, status_true, status_false,
}
use kubedns.Api.Conditions.{
  server_condition_type, reason_server_active, reason_server_validation_failure,
}
use kubedns.Common.Cluster.{Fetched, Problem, found, not_found, get_error, failed, temporary}
use kubedns.Common.Responsibility.{
  RootInfo, Responsibility, info, config_problem, temporary_problem, check, get_root_info,
}
use kubedns.Common.Responsibility
use kubedns.Common.Validate.{validate_entry_data, problem_message}
use kubedns.Zonemodel.Outcome.{Outcome, ok, panicked, unfinished}
use kubedns.External.{External}

abbrev pub server_condition : CoreDnsEntry → Option Text → Condition
server_condition o none = record {
  kind = server_condition_type;
  status = status_true;
  observed_generation = o.meta.generation;
  reason = reason_server_active;
  message = text "entry served";
}
server_condition o (some e) = record {
  kind = server_condition_type;
  status = status_false;
  observed_generation = o.meta.generation;
  reason = reason_server_validation_failure;
  message = e;
}

-- The master's state. The tests that only avoid to write equal values are left out.
abbrev pub master_status : Bool → Option Text → CoreDnsStatus → CoreDnsStatus
master_status force none s = record s { message = []; state = text "Ok" }
master_status force (some e) s =
    if force || not (s.state == text "Invalid")
    then record s { message = e; state = text "Invalid" }
    else s

abbrev pub failure : Option Text → Option Problem
failure none = none
failure (some e) = some (failed e)

-- `updateStatus`: the status that it leaves and the problem that it returns.
unfoldable pub update_status :
    External
    → Bool
    → Bool
    → Text
    → List Text
    → Option Text
    → CoreDnsEntry
    → Option Problem × CoreDnsEntry
update_status x master force zn names e o =
    let s = record o.status { root_zone = zn; effective_domain_names = names } in
    let cleared = if force && master then record s { conditions = [] } else s in
    (
      failure e,
      record o {
        status = if master then master_status force e cleared else record cleared {
          conditions = x.set_status_condition cleared.conditions (server_condition o e);
        };
      },
    )

abbrev pub is_served : Text → Bool
is_served state = state == text "Ready" || state == text "Ok"

-- The zone of another server: a root zone that this server had set is taken back.
abbrev pub lose_root : External → Text → CoreDnsEntry → CoreDnsEntry
lose_root x root o =
    if not (is_empty o.status.root_zone) && not (o.status.root_zone == root)
    then record o {
      status = record o.status {
        root_zone = [];
        conditions = x.remove_status_condition o.status.conditions server_condition_type;
        state = [];
        message = [];
      };
    }
    else o

-- By the error of the validation.
abbrev pub after_validation :
    External
    → Bool
    → HostedZone
    → Text
    → List Text
    → CoreDnsEntry
    → Option Text
    → Option Problem × CoreDnsEntry
after_validation x master zone root names o (some e) = update_status x master true [] [] (some e) o
after_validation x master zone root names o none =
    if is_served zone.status.state
    then update_status x master true root names none o
    else update_status x master true zone.meta.name names
        (some (text "zone failure: " ++ zone.status.message)) o

-- The part of `Reconcile` behind the check of the responsibility.
unfoldable pub accept :
    External → Bool → HostedZone → Text → List Text → CoreDnsEntry → Option Problem × CoreDnsEntry
unfolding validate_entry_data update_status
accept x master zone root names o =
    after_validation x master zone root names o (validate_entry_data x o)

abbrev pub names_or_nil : Option (List Text) → List Text
names_or_nil none = []
names_or_nil (some names) = names

-- `Reconcile` once the zone is read and its root is looked for.
unfoldable pub with_root :
    External
    → Option Text
    → Bool
    → HostedZone
    → CoreDnsEntry
    → RootInfo × Option (List Text)
    → Outcome (Option Problem × CoreDnsEntry)
unfolding accept check update_status problem_message
with_root x class master zone o (info r, names) =
    if not (check r class none)
    then ok (none, lose_root x r.root.meta.name o)
    else ok (accept x master zone r.root.meta.name (names_or_nil names) o)
with_root x class master zone o (config_problem p, names) =
    ok (update_status x master false [] [] (some (problem_message p)) o)
with_root x class master zone o (temporary_problem p, names) = ok (some p, o)
with_root x class master zone o (Responsibility.panicked, names) = panicked
with_root x class master zone o (Responsibility.unfinished, names) = unfinished

-- `Reconcile` once the read of the entry's zone has answered.
abbrev pub of_read :
    ℕ
    → External
    → (ObjectKey → Fetched HostedZone)
    → Option Text
    → Bool
    → CoreDnsEntry
    → Fetched HostedZone
    → Outcome (Option Problem × CoreDnsEntry)
of_read fuel x get class master o not_found =
    ok (update_status x master false [] [] (some (text "no root zone found")) o)
of_read fuel x get class master o (get_error e) = ok (some (temporary e), o)
of_read fuel x get class master o (found zone) =
    with_root x class master zone o (get_root_info fuel x get zone (some o.spec.dns_names))

unfoldable pub reconcile :
    ℕ
    → External
    → (ObjectKey → Fetched HostedZone)
    → Option Text
    → Bool
    → CoreDnsEntry
    → Outcome (Option Problem × CoreDnsEntry)
unfolding with_root get_root_info update_status
reconcile fuel x get class master o =
    if is_empty o.spec.zone_ref
    then ok (update_status x master false [] [] (some (text "no zone set")) o)
    else of_read fuel x get class master o (get (x.ref_object_key_for o.meta o.spec.zone_ref))
