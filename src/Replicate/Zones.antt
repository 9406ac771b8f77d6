-- ===== src/Replicate/Zones.antt =====
-- internal/controller/replicate/hostedzone/logic.go: which zones are replicated. The handler keeps,
-- by request, what it has decided before; its lock makes a decision one step.

pub mod Settling
use kubedns.Prelude.{
  if◌then◌else◌, Eq, nat_eq, ◌==◌, is_empty, lookup, put, remove, Text, text, text_beq_iff, text_eq,
  ℕ, ◌≡◌, ◌↔◌, ◌⊎◌, inl, inr, Bool, true, false, not, ◌&&◌, Option, none, some, List, [], ◌∷◌,
  arith,
}
use kubedns.Api.{HostedZone, HostedZoneStatus, ObjectKey, Condition, status_false}
use kubedns.Api.Conditions.{validation_condition_type, reason_invalid_parent}
use kubedns.External.{External}
use kubedns.Common.Cluster.{Fetched, Problem}
use kubedns.Common.Calls.{
  ◌>>=◌, ◌>>◌, Action, Ended, value, pure, gets, modify, panicked, unfinished,
}
use kubedns.Common.Calls
use kubedns.Common.Responsibility
use kubedns.Common.Responsibility.{RootInfo, info, config_problem, temporary_problem, get_root_info}
use kubedns.Common.Validate.{problem_message}
use kubedns.Replicate.Objects.{State, Event, enqueued, ResponsibilityHandler}

-- mcreconcile.Request
pub record Request : Type 0 where
  pub cluster_name : Text
  pub namespaced_name : ObjectKey

abbrev request_beq : Request → Request → Bool
request_beq a b =
    a.cluster_name == b.cluster_name
    && (a.namespaced_name.namespace == b.namespaced_name.namespace
        && a.namespaced_name.name == b.namespaced_name.name)

pub request_beq_iff : (a b : Request) → (request_beq a b ≡ true) ↔ (a ≡ b)
request_beq_iff a b = ground (
  arith,
  text_beq_iff a.cluster_name b.cluster_name,
  text_beq_iff a.namespaced_name.namespace b.namespaced_name.namespace,
  text_beq_iff a.namespaced_name.name b.namespaced_name.name,
)

instance abbrev pub request_eq : Eq Request
request_eq = record { test = request_beq; test_iff = request_beq_iff }

-- The two pointers are those of different objects, so they are equal only if both are nil.
abbrev pub same_pointer : Option Text → Option Text → Bool
same_pointer none none = true
same_pointer none (some c) = false
same_pointer (some c) d = false

-- The handler with the request that it works on, and what it reads: the zones, and the keys that
-- the two indexes give for a zone, or the message of an error. Setting a condition is a method of
-- the request.
pub record Handler : Type 0 where
  pub fuel : ℕ
  pub external : External
  pub get : ObjectKey → Fetched HostedZone
  pub parent_index : ObjectKey → Text ⊎ List ObjectKey
  pub entry_index : ObjectKey → Text ⊎ List ObjectKey
  pub set_status_condition : HostedZone → Condition → HostedZone
  pub request : Request
  pub class : Option Text
  pub target_class : Text

abbrev pub Unresponsible : Type 0
Unresponsible = List (Request × Bool)

unfoldable pub enqueue_all : List ObjectKey → List (Event HostedZone) → List (Event HostedZone)
enqueue_all [] log = log
enqueue_all (k ∷ ks) log = enqueue_all ks (enqueued k ∷ log)

-- `TriggerChildren` and `TriggerEntries`; an error is dropped by their callers.
unfoldable pub trigger : Text ⊎ List ObjectKey → List (Event HostedZone) → List (Event HostedZone)
unfolding enqueue_all
trigger (inl m) log = log
trigger (inr ks) log = enqueue_all ks log

module _ (h : Handler) where
  unfoldable pub trigger_dependent : List (Event HostedZone) → List (Event HostedZone)
  unfolding trigger
  trigger_dependent log =
      let key = h.request.namespaced_name in
      trigger (h.entry_index key) (trigger (h.parent_index key) log)

  -- `Delete`
  unfoldable pub delete : Action (State HostedZone Unresponsible) Unit
  unfolding trigger_dependent remove
  delete s = (
    value tt,
    record s { handler = remove h.request s.handler; events = trigger_dependent s.events },
  )

  -- b, ok := m[key]; ok && b == resp
  abbrev pub is_known : Option Bool → Bool → Bool
  is_known none resp = false
  is_known (some true) resp = resp
  is_known (some false) resp = not resp

  -- `Handle`
  unfoldable pub handle : Bool → State HostedZone Unresponsible → State HostedZone Unresponsible
  unfolding trigger_dependent put lookup
  handle resp s =
      if is_known (lookup h.request s.handler) resp
      then s
      else record s { handler = put h.request resp s.handler; events = trigger_dependent s.events }

  -- The condition and the status of a zone without a root.
  unfoldable pub report : Problem → HostedZone → HostedZone
  unfolding problem_message
  report p z =
      let z' = h.set_status_condition z (record {
        kind = validation_condition_type;
        status = status_false;
        observed_generation = 0;
        reason = reason_invalid_parent;
        message = problem_message p;
      }) in
      record z' {
        status = record z'.status { message = problem_message p; state = text "Problem" };
      }

  unfoldable pub of_root :
      RootInfo → Action (State HostedZone Unresponsible) (Bool × Option Problem)
  unfolding report handle
  of_root (temporary_problem p) s = (value (true, some p), s)
  of_root (config_problem p) s =
      (value (true, none), handle true (record s { object = report p s.object }))
  of_root (info i) s =
      let resp = same_pointer i.class h.class in (value (resp, none), handle resp s)
  of_root Responsibility.panicked s = (panicked, s)
  of_root Responsibility.unfinished s = (unfinished, s)

  -- `IsResponsible`
  unfoldable pub is_responsible : Action (State HostedZone Unresponsible) (Bool × Option Problem)
  unfolding of_root get_root_info
  is_responsible s = of_root (get_root_info h.fuel h.external h.get s.object none).0 s

  -- `SetResponsibility`
  unfoldable pub set_responsibility : HostedZone → HostedZone
  set_responsibility z =
      if is_empty z.spec.parent_ref
      then record z {
        spec = record z.spec {
          class = if not (is_empty h.target_class) then some h.target_class else none;
        };
      }
      else z

  abbrev pub responsibility : ResponsibilityHandler HostedZone Unresponsible
  responsibility = record {
    delete = delete;
    is_responsible = is_responsible;
    set_responsibility = set_responsibility;
  }
