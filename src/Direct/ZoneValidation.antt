-- ===== src/Direct/ZoneValidation.antt =====
-- internal/controller/direct/hostedzone/validation.go: `Validate`, the checks of a zone under its
-- parent.
use kubedns.Prelude.{if◌then◌else◌, Text, text, not, Option, none, some, ◌++◌}
use kubedns.Api.{HostedZone, Condition}
use kubedns.Api.Conditions.{
  validation_condition_type, reason_invalid_parent, reason_configuration_valid,
}
use kubedns.Common.Responsibility.{Responsibility}
use kubedns.Common.Validate.{validate_zone}
use kubedns.Direct.Conditions.{is_true}
use kubedns.External.{External}

abbrev of_parent_condition : HostedZone → Option Condition → Text × Option Text
of_parent_condition p none = (reason_configuration_valid, none)
of_parent_condition p (some c) =
    if not (is_true c.status)
    then (reason_invalid_parent, some (p.meta.name ++ text ": " ++ c.message))
    else (reason_configuration_valid, none)

abbrev of_parent : External → Option HostedZone → Text × Option Text
of_parent x none = (reason_configuration_valid, none)
of_parent x (some p) =
    of_parent_condition p (x.find_status_condition p.status.conditions validation_condition_type)

unfoldable pub validate : External → Responsibility → HostedZone → Text × Option Text
unfolding validate_zone
validate x root o =
    let (reason, e) = validate_zone x o in
    elim e [ some m ↦ (reason, some m) | none ↦ of_parent x root.parent ]
