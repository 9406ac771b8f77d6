-- ===== src/Common/Validate/Entries.antt =====
-- `ValidateEntryData` accepts exactly the entries that are put together as they should.
use kubedns.Prelude.{
  ◌==◌, nat_eq, is_empty, All, is_empty_iff, Text, text, text_beq_iff, text_eq, is_le_zero, ℕ, suc,
  ◌≡◌, refl, ◌≢◌, ◌↔◌, ◌⊎◌, Bool, true, false, not, ◌&&◌, Option, none, some, List, [], ◌∷◌, ◌++◌,
  arith,
}
use kubedns.External.{External, ParsedIp, no_ip, ipv4, ipv6}
use kubedns.Api.{CoreDnsEntry, CoreDnsSpec, SrvRecord, ServiceSpec}
use kubedns.Common.Formats.{report, report-none, quoted, decimal}
use kubedns.Common.Fqdn.{is_valid_fqdn}
use kubedns.Common.Validate.{
  is_ipv4, is_ipv6, check_a, check_aaaa, check_ns, check_srv_record, check_srv_records, check_srv,
  no_other, validate_entry_data,
}

not-false : (b : Bool) → (not b ≡ false) ↔ (b ≡ true)
not-false true = ground arith
not-false false = ground arith

not_ipv4-false : (p : ParsedIp) → (not (is_ipv4 p) ≡ false) ↔ (p ≡ ipv4)
not_ipv4-false no_ip = ground arith
not_ipv4-false ipv4 = ground arith
not_ipv4-false ipv6 = ground arith

not_ipv6-false : (p : ParsedIp) → (not (is_ipv6 p) ≡ false) ↔ (p ≡ ipv6)
not_ipv6-false no_ip = ground arith
not_ipv6-false ipv4 = ground arith
not_ipv6-false ipv6 = ground arith

is_valid_fqdn-nil : (x : External) → is_valid_fqdn x [] ≡ false
unfolding is_valid_fqdn
is_valid_fqdn-nil x = refl

valid-ne-nil : (x : External) (s : Text) → is_valid_fqdn x s ≡ true → is_empty s ≡ false
valid-ne-nil x [] h = cc (rw (is_valid_fqdn-nil x) at h)
valid-ne-nil x (c ∷ s) h = refl

-- One more test of a loop: the error stays nil when the test passes and the rest does.
one-more {ℓ κ} :
    {r e' e : Option Text} {bad : Bool} {A : Type ℓ} {B : Type κ}
    → ((r ≡ none) ↔ ((e' ≡ none) × B))
    → ((e' ≡ none) ↔ ((e ≡ none) × (bad ≡ false)))
    → ((bad ≡ false) ↔ A)
    → (r ≡ none) ↔ ((e ≡ none) × (A × B))
one-more rest step here = (
  λ h. let (h1, h2) = rest.0 h in let (h3, h4) = step.0 h1 in (h3, (here.0 h4, h2)),
  λ h. rest.1 (step.1 (h.0, here.1 h.1.0), h.1.1),
)

-- A record of a service: a valid host, one of the two protocols, a port above zero.
abbrev pub IsValidRecord : External → SrvRecord → Type 0
IsValidRecord x r =
    (is_valid_fqdn x r.host ≡ true)
    × ((r.protocol ≡ text "TCP") ⊎ (r.protocol ≡ text "UDP"))
    × (is_le_zero r.port ≡ false)

abbrev pub IsValidService : External → Option ServiceSpec → Type 0
IsValidService x none = Unit
IsValidService x (some srv) =
    ((srv.records ≡ []) ⊎ (srv.service ≢ [])) × All (IsValidRecord x) srv.records

-- What an entry must have.
pub record IsValidEntry (x : External) (s : CoreDnsSpec) : Type 0 where
  pub named : s.dns_names ≢ []
  pub a : All (λ ip. x.parse_ip ip ≡ ipv4) s.a
  pub aaaa : All (λ ip. x.parse_ip ip ≡ ipv6) s.aaaa
  pub ns : All (λ n. is_valid_fqdn x n ≡ true) s.ns
  pub cname : (s.cname ≡ []) ⊎ (is_valid_fqdn x s.cname ≡ true)
  pub not_empty : (no_other s ≡ false) ⊎ (s.ns ≢ [])
  pub alone : (s.ns ≡ []) ⊎ (no_other s ≡ true)
  pub service : IsValidService x s.srv

module _ (x : External) where
  check_a-none :
      (ips : List Text) (e : Option Text)
      → (check_a x ips e ≡ none) ↔ ((e ≡ none) × All (λ ip. x.parse_ip ip ≡ ipv4) ips)
  unfolding check_a
  check_a-none [] e = ground arith
  check_a-none (ip ∷ ips) e =
      one-more (check_a-none ips _) (report-none e _ _) (not_ipv4-false (x.parse_ip ip))

  check_aaaa-none :
      (ips : List Text) (e : Option Text)
      → (check_aaaa x ips e ≡ none) ↔ ((e ≡ none) × All (λ ip. x.parse_ip ip ≡ ipv6) ips)
  unfolding check_aaaa
  check_aaaa-none [] e = ground arith
  check_aaaa-none (ip ∷ ips) e =
      one-more (check_aaaa-none ips _) (report-none e _ _) (not_ipv6-false (x.parse_ip ip))

  check_ns-none :
      (list : List Text) (e : Option Text)
      → (check_ns x list e ≡ none) ↔ ((e ≡ none) × All (λ n. is_valid_fqdn x n ≡ true) list)
  unfolding check_ns
  check_ns-none [] e = ground arith
  check_ns-none (n ∷ list) e =
      one-more (check_ns-none list _) (report-none e _ _) (not-false (is_valid_fqdn x n))

  check_srv_record-none :
      (i : ℕ) (r : SrvRecord) (e : Option Text)
      → (check_srv_record x i r e ≡ none) ↔ ((e ≡ none) × IsValidRecord x r)
  unfolding check_srv_record
  check_srv_record-none i r e =
      let bad_host = not (is_valid_fqdn x r.host) in
      let bad_protocol = not (r.protocol == text "TCP") && not (r.protocol == text "UDP") in
      let at = text " for SRV record " ++ decimal i in
      let e1 = report e bad_host (text "invalid host " ++ quoted r.host ++ at) in
      let e2 = report e1 bad_protocol (text "invalid protocol " ++ quoted r.protocol ++ at) in
      let e3 = report e2 (is_le_zero r.port) (text "invalid port" ++ at) in
      ground (
        arith,
        report-none e bad_host (text "invalid host " ++ quoted r.host ++ at),
        report-none e1 bad_protocol (text "invalid protocol " ++ quoted r.protocol ++ at),
        report-none e2 (is_le_zero r.port) (text "invalid port" ++ at),
        report-none e3 (is_empty r.host) (text "host missing" ++ at),
        text_beq_iff r.protocol (text "TCP"),
        text_beq_iff r.protocol (text "UDP"),
        valid-ne-nil x r.host,
      )

  check_srv_records-none :
      (i : ℕ) (rs : List SrvRecord) (e : Option Text)
      → (check_srv_records x i rs e ≡ none) ↔ ((e ≡ none) × All (IsValidRecord x) rs)
  unfolding check_srv_records
  check_srv_records-none i [] e = ground arith
  check_srv_records-none i (r ∷ rs) e =
      let rest = check_srv_records-none (suc i) rs (check_srv_record x i r e) in
      let step = check_srv_record-none i r e in
      (
        λ h. let (h1, h2) = rest.0 h in let (h3, h4) = step.0 h1 in (h3, (h4, h2)),
        λ h. rest.1 (step.1 (h.0, h.1.0), h.1.1),
      )

  check_srv-none :
      (srv : Option ServiceSpec) (e : Option Text)
      → (check_srv x srv e ≡ none) ↔ ((e ≡ none) × IsValidService x srv)
  unfolding check_srv
  check_srv-none none e = ground arith
  check_srv-none (some srv) e =
      let bad = not (is_empty srv.records) && is_empty srv.service in
      ground (
        arith,
        check_srv_records-none 0 srv.records
            (report e bad (text "service name required for SRV record")),
        report-none e bad (text "service name required for SRV record"),
        is_empty_iff srv.records,
        is_empty_iff srv.service,
      )

  -- `ValidateEntryData` returns no error exactly for an entry with a DNS name and a record, with
  -- name servers only on their own, and with valid addresses, names and service records.
  pub validate_entry_data-none :
      (e : CoreDnsEntry) → (validate_entry_data x e ≡ none) ↔ IsValidEntry x e.spec
  unfolding validate_entry_data
  validate_entry_data-none e =
      let s = e.spec in
      let e1 = report none (is_empty s.dns_names) (text "no DNS names specified") in
      let ea = check_a x s.a e1 in
      let eb = check_aaaa x s.aaaa ea in
      let e2 = check_ns x s.ns eb in
      let bad_cname = not (is_empty s.cname) && not (is_valid_fqdn x s.cname) in
      let e3 = report e2 bad_cname (text "invalid CNAME record " ++ quoted s.cname) in
      let e4 = report e3 (no_other s && is_empty s.ns) (text "no record defined") in
      let mixed = not (is_empty s.ns) && not (no_other s) in
      let e5 = report e4 mixed (text "NS records cannot be combined with other ones") in
      let names : (e1 ≡ none) ↔ (s.dns_names ≢ []) = ground (
        arith,
        report-none none (is_empty s.dns_names) (text "no DNS names specified"),
        is_empty_iff s.dns_names,
      ) in
      let cname : (e3 ≡ none)
          ↔ ((e2 ≡ none) × ((s.cname ≡ []) ⊎ (is_valid_fqdn x s.cname ≡ true))) =
        ground (
          arith,
          report-none e2 bad_cname (text "invalid CNAME record " ++ quoted s.cname),
          is_empty_iff s.cname,
        ) in
      let defined : (e4 ≡ none) ↔ ((e3 ≡ none) × ((no_other s ≡ false) ⊎ (s.ns ≢ []))) = ground (
        arith,
        report-none e3 (no_other s && is_empty s.ns) (text "no record defined"),
        is_empty_iff s.ns,
      ) in
      let alone : (e5 ≡ none) ↔ ((e4 ≡ none) × ((s.ns ≡ []) ⊎ (no_other s ≡ true))) = ground (
        arith,
        report-none e4 mixed (text "NS records cannot be combined with other ones"),
        is_empty_iff s.ns,
      ) in
      let a = check_a-none s.a e1 in
      let b = check_aaaa-none s.aaaa ea in
      let n = check_ns-none s.ns eb in
      let v = check_srv-none s.srv e5 in
      (
        λ h.
            let (h5, hv) = v.0 h in
            let (h4, halone) = alone.0 h5 in
            let (h3, hdef) = defined.0 h4 in
            let (h2, hc) = cname.0 h3 in
            let (hb, hn) = n.0 h2 in
            let (ha, hbb) = b.0 hb in
            let (h1, haa) = a.0 ha in
            record {
              named = names.0 h1;
              a = haa;
              aaaa = hbb;
              ns = hn;
              cname = hc;
              not_empty = hdef;
              alone = halone;
              service = hv;
            },
        λ i. v.1 (
          alone.1 (
            defined.1 (
              cname.1 (n.1 (b.1 (a.1 (names.1 i.named, i.a), i.aaaa), i.ns), i.cname),
              i.not_empty,
            ),
            i.alone,
          ),
          i.service,
        ),
      )
