-- ===== src/Direct/Deployment/Reconciling.antt =====
-- request.go, `Reconcile` and `handleObject`: the reconciliation of a zone in the direct mode.
pub mod Guarding
pub mod Registering
pub mod Taking
use kubedns.Prelude.{
  if◌then◌else◌, nat_eq, ◌==◌, is_empty, Text, text, text_eq, ℕ, Bool, true, false, not, ◌&&◌,
  Option, none, some, [],
}
use kubedns.Api.{HostedZone, Observed, ObjectKey, Condition, status_true, status_false}
use kubedns.Api.Conditions.{validation_condition_type, reason_invalid_parent}
use kubedns.Common.Calls.{◌>>=◌, ◌>>◌, Action, value, pure, return, return_problem, gets}
use kubedns.Common.Calls
use kubedns.Common.Cluster.{Fetched, Problem, failed, string_or}
use kubedns.Common.Responsibility.{Responsibility}
use kubedns.Direct.Conditions.{set_condition, transfer_conditions}
use kubedns.Direct.Fields.{Pointer, is_ascii_alnum_string, set_pointer_field}
use kubedns.Direct.ZoneRequest.{Responsible, is_responsible, changed_responsibility}
use kubedns.Direct.ZoneValidation.{validate}
use kubedns.Zonemodel.Outcome.{Outcome, ok, err}
use kubedns.Zonemodel.Outcome
use kubedns.Direct.Deployment.{State}
use kubedns.Direct.Deployment.Manifests.{Deployer}
use kubedns.Direct.Deployment.Removing.{delete, patch_if, set_object}
use kubedns.Direct.Deployment.Applying.{handle_external_resources}

-- The reconciler with what it reads to find a root zone, and its options.
pub record Reconciler : Type 0 where
  pub deployer : Deployer
  pub fuel : ℕ
  pub get_zone : ObjectKey → Fetched HostedZone
  pub requeues : Problem → Bool
  pub class : Option Text
  pub runtime : Option Text

-- `Observed.Equals`
abbrev equals : Observed → Pointer Observed → Bool
equals b none = false
equals b (some (i, c)) = b.class == c.class && b.runtime == c.runtime

module _ (r : Reconciler) where
  abbrev d : Deployer
  d = r.deployer

  abbrev with_validation : Condition → HostedZone → HostedZone
  with_validation c z = record z {
    status = record z.status { conditions = set_condition d.external z z.status.conditions c };
  }

  -- What is observed: the old value is at address 0, a new one at address 1.
  abbrev pub old_observed : HostedZone → Pointer Observed
  old_observed z = elim z.status.observed [ none ↦ none | some b ↦ some (0, b) ]

  abbrev pub new_observed : HostedZone → Pointer Observed
  new_observed z = if not (is_empty z.spec.parent_ref) then none else elim z.status.observed [
    | some b ↦ some (0, b)
    | none ↦ some (1, record { runtime = string_or r.runtime []; class = string_or r.class [] })
  ]

  abbrev pointed : Pointer Observed → Option Observed
  pointed none = none
  pointed (some (i, b)) = some b

  -- The condition of a valid zone, and what is observed.
  unfoldable pub accept : Text → HostedZone → HostedZone
  unfolding set_condition set_pointer_field
  accept reason z =
      let z' =
        with_validation
          (record {
            kind = validation_condition_type;
            status = status_true;
            observed_generation = 0;
            reason = reason;
            message = text "The HostedZone specification passed all validation checks.";
          })
          z in
      record z' {
        status = record z'.status {
          observed = pointed (set_pointer_field equals (old_observed z) (new_observed z)).1;
        };
      }

  abbrev refuse : Text → Text → HostedZone → HostedZone
  refuse reason m z =
      if is_empty reason
      then z
      else with_validation
          (record {
            kind = validation_condition_type;
            status = status_false;
            observed_generation = 0;
            reason = reason;
            message = m;
          })
          z

  -- A nested zone takes over the conditions of its root; a root zone gets a server.
  unfoldable pub after_acceptance : Responsibility → HostedZone → Action State Unit
  unfolding transfer_conditions handle_external_resources
  after_acceptance root z =
      if not (is_empty z.spec.parent_ref)
      then set_object d (transfer_conditions d.external root.root.status.conditions z)
        >>= (λ u. return none)
      else set_object d z >>= λ u. handle_external_resources d

  unfoldable pub of_validation :
      Responsibility → HostedZone → Text × Option Text → Action State Unit
  unfolding set_condition accept after_acceptance
  of_validation root z (reason, some m) = do
    set_object d (refuse reason m z)
    return (some (failed m))
  of_validation root z (reason, none) = after_acceptance root (accept reason z)

  -- `handleObject`
  unfoldable pub handle_object : Responsibility → HostedZone → Action State Unit
  unfolding of_validation validate
  handle_object root z = of_validation root z (validate d.external root z)

  -- A root zone gets the finalizer, a nested zone gives it up.
  unfoldable pub adjust_finalizer : Bool → HostedZone → HostedZone × Bool
  adjust_finalizer true z = d.add_finalizer z d.finalizer
  adjust_finalizer false z = d.remove_finalizer z d.finalizer

  unfoldable pub patch_and_handle : Responsibility → HostedZone × Bool → Action State Unit
  unfolding patch_if handle_object
  patch_and_handle root (z, changed) = do set_object d z; patch_if d changed z; handle_object root z

  unfoldable pub take_zone : Responsibility → HostedZone → Action State Unit
  unfolding adjust_finalizer patch_and_handle
  take_zone root z = patch_and_handle root (adjust_finalizer (is_empty z.spec.parent_ref) z)

  unfoldable pub take_or_delete : Bool → Responsibility → HostedZone → Action State Unit
  unfolding take_zone delete
  take_or_delete true root z = delete d
  take_or_delete false root z = take_zone root z

  -- The three results of `IsResponsibile`; a responsible reconciler has the root.
  unfoldable pub of_responsible :
      Bool → Option Problem → Option Responsibility → HostedZone → Action State Unit
  unfolding take_or_delete changed_responsibility
  of_responsible responsible (some p) root z = return (some p)
  of_responsible false none root z = return none
  of_responsible true none none z = λ s. (Calls.panicked, s)
  of_responsible true none (some root) z =
      take_or_delete (changed_responsibility d.finalizer (some z)) root z

  unfoldable pub of_object : Responsible → Option HostedZone → Action State Unit
  unfolding of_responsible
  of_object out none = return none
  of_object out (some z) = do set_object d z; of_responsible out.responsible out.problem out.root z

  unfoldable pub of_outcome : Outcome Responsible → Action State Unit
  unfolding of_object
  of_outcome (ok out) = of_object out out.object
  of_outcome (err m) = λ s. (Calls.panicked, s)
  of_outcome Outcome.panicked = λ s. (Calls.panicked, s)
  of_outcome Outcome.unfinished = λ s. (Calls.unfinished, s)

  abbrev pub has_plain_fields : HostedZone → Bool
  has_plain_fields z =
      is_ascii_alnum_string (string_or z.spec.runtime [])
      && is_ascii_alnum_string (string_or z.spec.class [])

  -- `Reconcile`, for the object of the request.
  unfoldable pub reconcile : HostedZone → Action State Unit
  unfolding is_responsible is_ascii_alnum_string of_outcome set_condition
  reconcile z =
      if not (has_plain_fields z)
      then set_object d (
          with_validation
            (record {
              kind = validation_condition_type;
              status = status_false;
              observed_generation = z.meta.generation;
              reason = reason_invalid_parent;
              message = text "class and runtime must use ASCII alphanumeric characters, only.";
            })
            z)
        >>= (λ u. return none)
      else of_outcome (
          is_responsible r.fuel d.external r.get_zone r.requeues d.finalizer r.class r.runtime
            (some z))
