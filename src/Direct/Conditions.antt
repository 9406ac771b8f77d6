-- ===== src/Direct/Conditions.antt =====
-- internal/controller/direct/hostedzone/conditions.go: the conditions that a nested zone takes over
-- and the state that sums them up. The sets of condition types are tests.
pub mod Summaries
use kubedns.Prelude.{
  nat_beq, if◌then◌else◌, ◌==◌, nat_eq, Text, text, text_eq, Bool, true, false, not, ◌&&◌, ◌||◌,
  Option, none, some, List, [], ◌∷◌,
}
use kubedns.Api.{
  HostedZone, HostedZoneStatus, Condition, ConditionStatus, status_true, status_false,
  status_unknown,
}
use kubedns.Api.Conditions.{
  validation_condition_type, runtime_condition_type, nameserver_condition_type,
  server_condition_type, reason_runtime_deploying, state_ready,
}
use kubedns.External.{External}

-- _transferConditions
abbrev pub is_transferred : Text → Bool
is_transferred kind = kind == runtime_condition_type || kind == nameserver_condition_type

-- _myConditions
abbrev pub is_mine : Text → Bool
is_mine kind = kind == validation_condition_type || is_transferred kind

abbrev pub is_true : ConditionStatus → Bool
is_true status_true = true
is_true status_false = false
is_true status_unknown = false

abbrev pub is_found : Option Condition → Bool
is_found none = false
is_found (some c) = true

-- `SetStatusCondition` of the request: a generation of 0 is filled in.
unfoldable pub set_condition : External → HostedZone → List Condition → Condition → List Condition
set_condition x z cs c = x.set_status_condition cs (
    if nat_beq c.observed_generation 0
    then record c { observed_generation = z.meta.generation }
    else c)

-- The first loop of `transferConditions`.
unfoldable pub take_over : External → HostedZone → List Condition → List Condition → List Condition
unfolding set_condition
take_over x z [] cs = cs
take_over x z (c ∷ from) cs = take_over x z from (
    if is_transferred c.kind
    then set_condition x z cs (record c { observed_generation = 0 })
    else cs)

-- The second loop, over the conditions as they were before it.
unfoldable pub drop_missing :
    External → List Condition → List Condition → List Condition → List Condition
drop_missing x from [] cs = cs
drop_missing x from (c ∷ rest) cs = drop_missing x from rest (
    if is_mine c.kind && not (is_found (x.find_status_condition from c.kind))
    then x.remove_status_condition cs c.kind
    else cs)

-- What the checks of one condition lead to, from the last to the first.
abbrev pub of_server : Option Condition → Text → Text × Text
of_server none msg = (text "Failed", msg)
of_server (some c) msg =
    if is_true c.status then (state_ready, c.message) else (text "Failed", c.message)

abbrev pub of_nameserver : Option Condition → Text → Text × Text → Text × Text
of_nameserver none msg rest = (text "Failed", msg)
of_nameserver (some c) msg rest = if is_true c.status then rest else (text "Pending", c.message)

abbrev pub of_runtime : Option Condition → Text → Text × Text → Text × Text
of_runtime none msg rest = (text "Failed", msg)
of_runtime (some c) msg rest =
    if is_true c.status
    then rest
    else if c.reason == reason_runtime_deploying
    then (text "Pending", c.message)
    else (text "Failed", c.message)

abbrev pub of_validation : Option Condition → Text × Text → Text × Text
of_validation none rest = (text "Failed", text "status unknown")
of_validation (some c) rest = if is_true c.status then rest else (text "Failed", c.message)

abbrev pub message_or_empty : Option Condition → Text
message_or_empty none = []
message_or_empty (some c) = c.message

-- The state and the message of `summary`.
unfoldable pub summarize : External → List Condition → Text × Text
summarize x cs =
    let v = x.find_status_condition cs validation_condition_type in
    let r = x.find_status_condition cs runtime_condition_type in
    let n = x.find_status_condition cs nameserver_condition_type in
    let s = x.find_status_condition cs server_condition_type in
    of_validation v (
      of_runtime r (message_or_empty v)
        (of_nameserver n (message_or_empty r) (of_server s (message_or_empty n))))

unfoldable pub summary : External → HostedZoneStatus → HostedZoneStatus
unfolding summarize
summary x s =
    let (state, message) = summarize x s.conditions in record s { state = state; message = message }

unfoldable pub transfer_conditions : External → List Condition → HostedZone → HostedZone
unfolding take_over drop_missing summary
transfer_conditions x from z =
    let cs = take_over x z from z.status.conditions in
    record z { status = summary x (record z.status { conditions = drop_missing x from cs cs }) }
