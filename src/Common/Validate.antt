-- ===== src/Common/Validate.antt =====
-- internal/controller/common/validate.go: what an entry and a zone must have. An error is its
-- message.
use kubedns.External.{ParsedIp, no_ip, ipv4, ipv6}
use kubedns.Common.Fqdn.{is_valid_fqdn}
use kubedns.Common.Cluster.{Problem, failed, temporary, requeue, watch_backed}
use kubedns.Common.Responsibility.{
  RootInfo, info, config_problem, temporary_problem, panicked, unfinished,
}
use kubedns.Api.Conditions.{
  reason_domain_name_missing, reason_email_missing, reason_email_invalid, reason_expire_missing,
  reason_ttl_missing, reason_invalid_nesting,
}
pub mod Entries
pub mod Zones
use kubedns.Prelude.{
  if◌then◌else◌, ◌==◌, nat_eq, is_empty, Text, text, text_eq, is_zero, is_le_zero, ℕ, suc, Bool,
  true, false, not, ◌&&◌, ◌||◌, Option, none, some, List, [], ◌∷◌, ◌++◌,
}
use kubedns.Common.Responsibility.{
  RootInfo, Responsibility, info, get_root_info_for_entry, config_problem, temporary_problem,
}
use kubedns.Api.{ServiceSpec, CoreDnsSpec, SrvRecord, ObjectKey, HostedZone, CoreDnsEntry}
use kubedns.Common.Formats.{join_errors, report, quoted, decimal}
use kubedns.External.{ParsedIp, External}
use kubedns.Common.Cluster.{Fetched, Problem, failed}

abbrev pub is_ipv4 : ParsedIp → Bool
is_ipv4 no_ip = false
is_ipv4 ipv4 = true
is_ipv4 ipv6 = false

abbrev pub is_ipv6 : ParsedIp → Bool
is_ipv6 no_ip = false
is_ipv6 ipv4 = false
is_ipv6 ipv6 = true

abbrev pub is_some : Option Text → Bool
is_some none = false
is_some (some s) = true

unfoldable pub check_a : External → List Text → Option Text → Option Text
unfolding report
check_a x [] e = e
check_a x (ip ∷ ips) e =
    check_a x ips
      (report e (not (is_ipv4 (x.parse_ip ip))) (text "invalid ipv4 address " ++ quoted ip))

unfoldable pub check_aaaa : External → List Text → Option Text → Option Text
unfolding report
check_aaaa x [] e = e
check_aaaa x (ip ∷ ips) e =
    check_aaaa x ips
      (report e (not (is_ipv6 (x.parse_ip ip))) (text "invalid ipv6 address " ++ quoted ip))

unfoldable pub check_ns : External → List Text → Option Text → Option Text
unfolding report
check_ns x [] e = e
check_ns x (ns ∷ rest) e =
    check_ns x rest (report e (not (is_valid_fqdn x ns)) (text "invalid NS record " ++ quoted ns))

-- One record of the service with its index: the four tests of the loop.
unfoldable pub check_srv_record : External → ℕ → SrvRecord → Option Text → Option Text
unfolding report
check_srv_record x i r e =
    let at = text " for SRV record " ++ decimal i in
    let e1 =
      report e (not (is_valid_fqdn x r.host)) (text "invalid host " ++ quoted r.host ++ at) in
    let e2 =
      report e1 (not (r.protocol == text "TCP") && not (r.protocol == text "UDP"))
        (text "invalid protocol " ++ quoted r.protocol ++ at) in
    let e3 = report e2 (is_le_zero r.port) (text "invalid port" ++ at) in
    report e3 (is_empty r.host) (text "host missing" ++ at)

unfoldable pub check_srv_records : External → ℕ → List SrvRecord → Option Text → Option Text
unfolding check_srv_record
check_srv_records x i [] e = e
check_srv_records x i (r ∷ rs) e = check_srv_records x (suc i) rs (check_srv_record x i r e)

unfoldable pub check_srv : External → Option ServiceSpec → Option Text → Option Text
unfolding check_srv_records report
check_srv x none e = e
check_srv x (some srv) e = check_srv_records x 0 srv.records (
    report e (not (is_empty srv.records) && is_empty srv.service)
      (text "service name required for SRV record"))

-- e.Spec.SRV == nil || len(e.Spec.SRV.Records) == 0
abbrev pub no_srv : Option ServiceSpec → Bool
no_srv none = true
no_srv (some srv) = is_empty srv.records

-- No record besides the name servers.
abbrev pub no_other : CoreDnsSpec → Bool
no_other s = is_empty s.a && is_empty s.aaaa && is_empty s.cname && is_empty s.txt && no_srv s.srv

unfoldable pub validate_entry_data : External → CoreDnsEntry → Option Text
unfolding check_a check_aaaa check_ns check_srv report is_valid_fqdn
validate_entry_data x e =
    let s = e.spec in
    let e1 = report none (is_empty s.dns_names) (text "no DNS names specified") in
    let e2 = check_ns x s.ns (check_aaaa x s.aaaa (check_a x s.a e1)) in
    let e3 =
      report e2 (not (is_empty s.cname) && not (is_valid_fqdn x s.cname))
        (text "invalid CNAME record " ++ quoted s.cname) in
    let e4 = report e3 (no_other s && is_empty s.ns) (text "no record defined") in
    let e5 =
      report e4 (not (is_empty s.ns) && not (no_other s))
        (text "NS records cannot be combined with other ones") in
    check_srv x s.srv e5

-- The three results of `ValidateEntry`. A search for the root that panics or does not end is
-- passed on.
pub data EntryValidation : Type 0 where
  validated : Option Responsibility → Option Text → EntryValidation
  problem : Option Text → Problem → EntryValidation
  search_panicked : EntryValidation
  search_unfinished : EntryValidation

unfoldable pub problem_message : Problem → Text
problem_message (failed m) = m
problem_message (temporary m) = m
problem_message (requeue m) = m
problem_message (watch_backed m) = m

abbrev entry_validation : Option Text → RootInfo → EntryValidation
entry_validation baseerr (info r) = validated (some r) baseerr
entry_validation baseerr (config_problem p) =
    validated none (join_errors (some (text "zone error: " ++ problem_message p)) baseerr)
entry_validation baseerr (temporary_problem p) = problem baseerr p
entry_validation baseerr panicked = search_panicked
entry_validation baseerr unfinished = search_unfinished

unfoldable pub validate_entry :
    ℕ → External → (ObjectKey → Fetched HostedZone) → CoreDnsEntry → EntryValidation
unfolding validate_entry_data get_root_info_for_entry join_errors
validate_entry fuel x get e =
    let baseerr = validate_entry_data x e in
    let of_root =
      entry_validation baseerr
        (get_root_info_for_entry fuel get (x.ref_object_key_for e.meta e.spec.zone_ref)) in
    if e.spec.zone_ref == []
    then validated none (join_errors (some (text "zone reference required")) baseerr)
    else of_root

-- The reason and the error.
unfoldable pub validate_zone : External → HostedZone → Text × Option Text
validate_zone x z =
    let s = z.spec in
    if is_empty s.domain_names
    then (reason_domain_name_missing, some (text "at least one domain name required"))
    else if is_empty s.email
    then (reason_email_missing, some (text "email address required"))
    else elim (x.parse_address s.email) [
      | some e ↦ (reason_email_invalid, some e)
      | none ↦
          if is_zero s.expire
          then (reason_expire_missing, some (text "expire required"))
          else if is_zero s.refresh || is_zero s.retry || is_zero s.minimum_ttl
          then (reason_ttl_missing, some (text "refresh, retry or minimumTTL required"))
          else if not (is_empty s.parent_ref) && is_some s.runtime
          then (reason_invalid_nesting, some (text "runtime set for nested zone"))
          else if not (is_empty s.parent_ref) && is_some s.class
          then (reason_invalid_nesting, some (text "class set for nested zone"))
          else ([], none)
    ]
