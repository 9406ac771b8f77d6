-- ===== src/Direct/EntryRequest.antt =====
-- internal/controller/direct/entry/request.go: the state that the direct mode gives an entry. The
-- loop of `responsibleForEntry` has fuel.
pub mod Searching
use kubedns.Prelude.{
  if◌then◌else◌, ◌==◌, nat_eq, is_empty, Text, text, text_eq, ℕ, zero, suc, Bool, true, false, not,
  ◌||◌, Option, none, some, List, [], ◌∷◌, ◌++◌,
}
use kubedns.Api.{HostedZone, CoreDnsEntry, Condition, ObjectKey, status_true, status_false}
use kubedns.Api.Conditions.{
  validation_condition_type, reason_configuration_valid, reason_configuration_invalid,
  server_condition_type, state_ready,
}
use kubedns.Common.Cluster.{
  Fetched, Problem, found, not_found, get_error, failed, contains, string_or,
}
use kubedns.Common.Formats.{quoted, join_errors}
use kubedns.Common.Validate.{validate_entry_data}
use kubedns.Server.Indexer.{is_false}
use kubedns.Zonemodel.Outcome.{Outcome, ok, unfinished, or_panic, ◌>>=◌}
use kubedns.External.{External}

pub record Responsibility : Type 0 where
  pub zone : Option HostedZone
  pub root : Option HostedZone
  pub error : Text

-- What the search returns: the information, or a problem.
pub data Search : Type 0 where
  responsible : Responsibility → Search
  search_failed : Problem → Search
  search_unfinished : Search

abbrev pub first_zone : Option HostedZone → HostedZone → HostedZone
first_zone none z = z
first_zone (some p) z = p

-- One round of the loop, with the zone that was read and the rest of the rounds.
unfoldable pub search_step :
    Text
    → List Text
    → Text
    → Option HostedZone
    → (HostedZone → Search)
    → Fetched HostedZone
    → Search
unfolding contains
search_step name hist path first visit not_found =
    responsible (record {
      zone = first;
      root = none;
      error = text "zone " ++ quoted name ++ text " not found";
    })
search_step name hist path first visit (get_error e) = search_failed (failed e)
search_step name hist path first visit (found z) =
    if is_empty z.spec.parent_ref
    then responsible (record { zone = some (first_zone first z); root = some z; error = [] })
    else if contains hist z.spec.parent_ref
    then responsible (record {
      zone = some (first_zone first z);
      root = none;
      error = text "reference cycle " ++ path ++ b'/' ∷ z.spec.parent_ref;
    })
    else visit z

unfoldable pub search_loop :
    ℕ
    → External
    → (ObjectKey → Fetched HostedZone)
    → ObjectKey
    → List Text
    → Text
    → Option HostedZone
    → Search
unfolding search_step
search_loop zero x get n hist path first = search_unfinished
search_loop (suc fuel) x get n hist path first =
    let path' = path ++ b'/' ∷ n.name in
    let hist' = hist ++ n.name ∷ [] in
    search_step n.name hist' path' first
      (λ z.
        search_loop fuel x get (x.ref_object_key_for z.meta z.spec.parent_ref) hist' path'
          (some (first_zone first z)))
      (get n)

unfoldable pub responsible_for_entry :
    ℕ → External → (ObjectKey → Fetched HostedZone) → CoreDnsEntry → Search
unfolding search_loop
responsible_for_entry fuel x get e =
    search_loop fuel x get (x.ref_object_key_for e.meta e.spec.zone_ref) [] [] none

-- The zone, the root and the error that `Reconcile` works with.
pub record Found : Type 0 where
  pub zone : Option HostedZone
  pub root : Option HostedZone
  pub error : Option Text

abbrev pub found_of : Option Text → Responsibility → Found
found_of baseerr r =
    if is_empty r.error then record { zone = r.zone; root = r.root; error = baseerr } else record {
      zone = none;
      root = none;
      error = join_errors (some (text "zone error: " ++ r.error)) baseerr;
    }

-- The runtime or the class of the root is another one.
abbrev pub is_foreign : Option Text → Option Text → Option HostedZone → Bool
is_foreign runtime class none = false
is_foreign runtime class (some root) =
    not (string_or root.spec.runtime [] == string_or runtime [])
    || not (string_or root.spec.class [] == string_or class [])

-- The request's `SetStatusCondition` with the result of the validation.
abbrev pub validation_condition : CoreDnsEntry → Option Text → Condition
validation_condition o none = record {
  kind = validation_condition_type;
  status = status_true;
  observed_generation = o.meta.generation;
  reason = reason_configuration_valid;
  message = text "configuration valid";
}
validation_condition o (some e) = record {
  kind = validation_condition_type;
  status = status_false;
  observed_generation = o.meta.generation;
  reason = reason_configuration_invalid;
  message = e;
}

-- The state so far: the validation, and the condition of the server.
abbrev pub of_server_condition : Option Text → Option Condition → Text × Text
of_server_condition (some e) c = (text "Invalid", e)
of_server_condition none none = (state_ready, [])
of_server_condition none (some c) =
    if is_false c.status then (text "Problem", c.message) else (state_ready, [])

-- What the zone and the server add to the state Ready.
abbrev pub of_zone : HostedZone → HostedZone → CoreDnsEntry → Text × Text
of_zone zone root e =
    if not (zone.status.state == state_ready)
    then (zone.status.state, zone.status.message)
    else if not (e.status.root_zone == root.meta.name) || is_empty e.status.effective_domain_names
    then (text "Pending", text "waiting for server")
    else (state_ready, [])

-- A zone that is ready needs its root; without a zone or a root there is a nil pointer.
unfoldable pub of_found : Found → CoreDnsEntry → Outcome (Text × Text)
of_found f e = do
  zone ← or_panic f.zone
  root ← elim (zone.status.state == state_ready) [ false ↦ ok zone | true ↦ or_panic f.root ]
  ok (of_zone zone root e)

unfoldable pub summary : Found → CoreDnsEntry → Option Condition → Outcome (Text × Text)
unfolding of_found
summary f e c =
    let s = of_server_condition f.error c in if s.0 == state_ready then of_found f e else ok s

abbrev pub validated : External → CoreDnsEntry → Option Text → CoreDnsEntry
validated x o e = record o {
  status = record o.status {
    conditions = x.set_status_condition o.status.conditions (validation_condition o e);
  };
}

abbrev pub with_state : CoreDnsEntry → Text × Text → CoreDnsEntry
with_state o s = record o { status = record o.status { state = s.0; message = s.1 } }

unfoldable pub finish :
    External
    → Option Text
    → Option Text
    → CoreDnsEntry
    → Found
    → Outcome (Option Problem × CoreDnsEntry)
unfolding summary
finish x runtime class o f =
    let o' = validated x o f.error in
    if is_foreign runtime class f.root
    then ok (none, o)
    else (summary f o' (x.find_status_condition o'.status.conditions server_condition_type) >>= λ s.
        ok (none, with_state o' s))

abbrev pub of_search :
    External
    → Option Text
    → Option Text
    → CoreDnsEntry
    → Option Text
    → Search
    → Outcome (Option Problem × CoreDnsEntry)
of_search x runtime class o baseerr (responsible r) = finish x runtime class o (found_of baseerr r)
of_search x runtime class o baseerr (search_failed p) = ok (some p, o)
of_search x runtime class o baseerr search_unfinished = unfinished

unfoldable pub reconcile :
    ℕ
    → External
    → (ObjectKey → Fetched HostedZone)
    → Option Text
    → Option Text
    → CoreDnsEntry
    → Outcome (Option Problem × CoreDnsEntry)
unfolding finish responsible_for_entry validate_entry_data join_errors
reconcile fuel x get runtime class o =
    let baseerr = validate_entry_data x o in
    if is_empty o.spec.zone_ref
    then finish x runtime class o (record {
      zone = none;
      root = none;
      error = join_errors (some (text "zone reference required")) baseerr;
    })
    else of_search x runtime class o baseerr (responsible_for_entry fuel x get o)
