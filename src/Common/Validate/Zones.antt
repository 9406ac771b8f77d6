-- ===== src/Common/Validate/Zones.antt =====
-- `ValidateZone` accepts exactly the zones that are put together as they should.
use kubedns.Prelude.{
  is_empty_iff, Text, is_zero, ◌≡◌, ◌≢◌, ◌↔◌, ◌⊎◌, false, Option, none, some, [], arith,
}
use kubedns.External.{External}
use kubedns.Api.{HostedZone, HostedZoneSpec}
use kubedns.Common.Validate.{validate_zone, is_some}

is_some-false : (o : Option Text) → (is_some o ≡ false) ↔ (o ≡ none)
is_some-false none = ground arith
is_some-false (some s) = ground arith

-- What a zone must have. Only a root zone has a runtime or a class.
abbrev pub IsValidZone : External → HostedZoneSpec → Type 0
IsValidZone x s =
    (s.domain_names ≢ [])
    × (s.email ≢ [])
    × (x.parse_address s.email ≡ none)
    × (is_zero s.expire ≡ false)
    × (is_zero s.refresh ≡ false)
    × (is_zero s.retry ≡ false)
    × (is_zero s.minimum_ttl ≡ false)
    × ((s.parent_ref ≡ []) ⊎ ((s.runtime ≡ none) × (s.class ≡ none)))

-- `ValidateZone` returns no error exactly for a zone with all that is required.
pub validate_zone-none :
    (x : External) (z : HostedZone) → ((validate_zone x z).1 ≡ none) ↔ IsValidZone x z.spec
unfolding validate_zone
validate_zone-none x z = ground (
  arith,
  is_empty_iff z.spec.domain_names,
  is_empty_iff z.spec.email,
  is_empty_iff z.spec.parent_ref,
  is_some-false z.spec.runtime,
  is_some-false z.spec.class,
)
