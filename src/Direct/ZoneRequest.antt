-- ===== src/Direct/ZoneRequest.antt =====
-- internal/controller/direct/hostedzone/request.go: which zones the controller handles, and when it
-- gives one up. The object may have vanished; the finalizer is a parameter, and so is `Requeue` of a
-- problem. Every problem of the search for a root has an error.
pub mod Deciding
use kubedns.Prelude.{
  if◌then◌else◌, ◌==◌, nat_eq, is_empty, Text, text_eq, ℕ, Bool, true, false, not, ◌&&◌, ◌||◌,
  Option, none, some, [],
}
use kubedns.Api.{HostedZone, Observed, status_false}
use kubedns.Api.Conditions.{validation_condition_type, reason_invalid_parent}
use kubedns.Api.{ObjectKey}
use kubedns.Common.Responsibility.{get_root_info}
use kubedns.Common.Cluster.{Fetched, Problem, string_or, contains}
use kubedns.Common.Responsibility
use kubedns.Common.Responsibility.{
  Responsibility, RootInfo, info, config_problem, temporary_problem, check,
}
use kubedns.Common.Validate.{problem_message}
use kubedns.Direct.Conditions.{set_condition}
use kubedns.Zonemodel.Outcome.{Outcome, ok, panicked, unfinished}
use kubedns.External.{External}

abbrev pub observed_differs : Option Observed → HostedZone → Bool
observed_differs none z = false
observed_differs (some b) z =
    not (b.runtime == string_or z.spec.runtime []) || not (b.class == string_or z.spec.class [])

-- `ChangedResponsibility`
unfoldable pub changed_responsibility : Text → Option HostedZone → Bool
unfolding contains
changed_responsibility finalizer none = true
changed_responsibility finalizer (some z) =
    if not (contains z.meta.finalizers finalizer)
    then false
    else if not (is_empty z.spec.parent_ref)
    then true
    else observed_differs z.status.observed z

-- The three results of `IsResponsibile`, and the object with the condition that it may have set.
pub record Responsible : Type 0 where
  pub responsible : Bool
  pub root : Option Responsibility
  pub problem : Option Problem
  pub object : Option HostedZone

abbrev pub observed_matches : Option Text → Option Text → Observed → Bool
observed_matches class runtime b =
    b.class == string_or class [] && b.runtime == string_or runtime []

-- The root was found: a zone with the finalizer stays, a registered root decides, and otherwise
-- the check does.
abbrev pub decide : Bool → Option Text → Option Text → Responsibility → Bool
decide force class runtime r = if force then true else elim r.root.status.observed [
  | none ↦ check r class runtime
  | some b ↦ observed_matches class runtime b
]

abbrev pub report_problem : External → HostedZone → Problem → HostedZone
report_problem x z p = record z {
  status = record z.status {
    conditions = set_condition x z z.status.conditions (record {
      kind = validation_condition_type;
      status = status_false;
      observed_generation = 0;
      reason = reason_invalid_parent;
      message = problem_message p;
    });
  };
}

unfoldable pub of_root :
    External
    → (Problem → Bool)
    → Text
    → Option Text
    → Option Text
    → HostedZone
    → RootInfo
    → Outcome Responsible
unfolding check contains set_condition problem_message
of_root x requeues finalizer class runtime z (info r) = ok (record {
  responsible = decide (contains z.meta.finalizers finalizer) class runtime r;
  root = some r;
  problem = none;
  object = some z;
})
of_root x requeues finalizer class runtime z (config_problem p) =
    if requeues p
    then ok (record { responsible = false; root = none; problem = some p; object = some z })
    else ok (record {
      responsible = false;
      root = none;
      problem = none;
      object = some (report_problem x z p);
    })
of_root x requeues finalizer class runtime z (temporary_problem p) =
    ok (record { responsible = false; root = none; problem = some p; object = some z })
of_root x requeues finalizer class runtime z Responsibility.panicked = panicked
of_root x requeues finalizer class runtime z Responsibility.unfinished = unfinished

-- `IsResponsibile`
unfoldable pub is_responsible :
    ℕ
    → External
    → (ObjectKey → Fetched HostedZone)
    → (Problem → Bool)
    → Text
    → Option Text
    → Option Text
    → Option HostedZone
    → Outcome Responsible
unfolding of_root get_root_info
is_responsible fuel x get requeues finalizer class runtime none =
    ok (record { responsible = true; root = none; problem = none; object = none })
is_responsible fuel x get requeues finalizer class runtime (some z) =
    of_root x requeues finalizer class runtime z ((get_root_info fuel x get z none).0)
