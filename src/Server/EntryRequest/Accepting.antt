-- ===== src/Server/EntryRequest/Accepting.antt =====
-- When the server accepts an entry, and what it writes into its status.
use kubedns.Prelude.{
  Bool-cases, if-equals, is_empty, Text, text, ℕ, ◌≡◌, refl, sym, ap, ◌∙◌, ◌≢◌, ◌⊎◌, inl, inr, Bool,
  true, false, not, Option, none, some, List, [], arith,
}
use kubedns.External.{External}
use kubedns.Api.{HostedZone, CoreDnsEntry, ObjectKey}
use kubedns.Common.Cluster.{Fetched, found, not_found, get_error}
use kubedns.Common.Responsibility.{
  Responsibility, RootInfo, info, config_problem, temporary_problem, panicked, unfinished, check,
  get_root_info,
}
use kubedns.Common.Validate.Entries.{IsValidEntry, validate_entry_data-none}
use kubedns.Zonemodel.Outcome.{ok}
use kubedns.Common.Cluster.{failed, not_found, get_error}
use kubedns.Common.Validate.{problem_message}
use kubedns.Server.EntryRequest.{
  of_read, update_status, failure, is_served, after_validation, accept, with_root, names_or_nil,
  lose_root, reconcile,
}

failure-none : (e : Option Text) → failure e ≡ none → e ≡ none
failure-none none h = refl
failure-none (some m) h = cc h

-- An accepted entry has the root zone and the names that it was accepted with.
update_status-accepted :
    (x : External) (master : Bool) (zn : Text) (names : List Text) (o : CoreDnsEntry)
    → ((update_status x master true zn names none o).1.status.root_zone ≡ zn)
      × ((update_status x master true zn names none o).1.status.effective_domain_names ≡ names)
unfolding update_status
update_status-accepted x true zn names o = (refl, refl)
update_status-accepted x false zn names o = (refl, refl)

-- What it means that the entry was accepted under a root.
abbrev pub IsAccepted :
    External → HostedZone → Text → List Text → CoreDnsEntry → CoreDnsEntry → Type 0
IsAccepted x zone root names o o' =
    IsValidEntry x o.spec
    × ((is_served zone.status.state ≡ true)
        × ((o'.status.root_zone ≡ root) × (o'.status.effective_domain_names ≡ names)))

after_validation-IsAccepted :
    (x : External) (master : Bool) (zone : HostedZone) (root : Text) (names : List Text)
    (o o' : CoreDnsEntry) (v : Option Text)
    → (v ≡ none → IsValidEntry x o.spec)
    → after_validation x master zone root names o v ≡ (none, o')
    → IsAccepted x zone root names o o'
unfolding update_status
after_validation-IsAccepted x master zone root names o o' (some e) valid h = cc h
after_validation-IsAccepted x master zone root names o o' none valid h =
    elim (Bool-cases (is_served zone.status.state)) [
      | inl served ↦
          let same : update_status x master true root names none o ≡ (none, o') = rw served at h in
          let (zn, ns) = update_status-accepted x master root names o in
          let entry : (update_status x master true root names none o).1 ≡ o' = ap (λ r. r.1) same in
          (
            valid refl,
            (
              served,
              (
                sym (ap (λ e. e.status.root_zone) entry) ∙ zn,
                sym (ap (λ e. e.status.effective_domain_names) entry) ∙ ns,
              ),
            ),
          )
      | inr failing ↦ cc (rw failing at h)
    ]

-- What a reconciliation without a problem has found.
abbrev pub Reconciles :
    External
    → Option Text
    → HostedZone
    → CoreDnsEntry
    → CoreDnsEntry
    → RootInfo × Option (List Text)
    → Type 0
Reconciles x class zone o o' i =
    (r : Responsibility) × ((i.0 ≡ info r)
      × (((check r class none ≡ false) × (o' ≡ lose_root x r.root.meta.name o))
          ⊎ ((check r class none ≡ true)
              × IsAccepted x zone r.root.meta.name (names_or_nil i.1) o o')))

-- An update with an error returns a problem.
update_status-problem :
    (x : External) (master force : Bool) (zn : Text) (names : List Text) (e : Text)
    (o o' : CoreDnsEntry)
    → ok (update_status x master force zn names (some e) o) ≢ ok (none, o')
update_status-problem x master force zn names e o o' h =
    let returned : (update_status x master force zn names (some e) o) ≡ (none, o') = cc h in
    let reported : (update_status x master force zn names (some e) o).0 ≡ some (failed e) =
      unfold update_status in refl in
    let none_reported : some (failed e) ≡ none = sym reported ∙ ap (λ r. r.0) returned in
    cc none_reported

checked-Reconciles :
    (x : External) (class : Option Text) (master : Bool) (zone : HostedZone) (o o' : CoreDnsEntry)
    (r : Responsibility) (names : Option (List Text))
    → with_root x class master zone o (info r, names) ≡ ok (none, o')
    → Reconciles x class zone o o' (info r, names)
unfolding with_root accept
checked-Reconciles x class master zone o o' r names h =
    elim (if-equals _ _ _ (not (check r class none)) h) [
      | inl (other, same) ↦ (r, (refl, inl (ground (arith, other), cc same)))
      | inr (mine, same) ↦ (
        r,
        (
          refl,
          inr (
            ground (arith, mine),
            after_validation-IsAccepted x master zone r.root.meta.name (names_or_nil names) o o' _
                ((validate_entry_data-none x o).0) (cc same),
          ),
        ),
      )
    ]

with_root-Reconciles :
    (x : External) (class : Option Text) (master : Bool) (zone : HostedZone) (o o' : CoreDnsEntry)
    (i : RootInfo × Option (List Text))
    → with_root x class master zone o i ≡ ok (none, o')
    → Reconciles x class zone o o' i
unfolding with_root
with_root-Reconciles x class master zone o o' (info r, names) h =
    checked-Reconciles x class master zone o o' r names h
with_root-Reconciles x class master zone o o' (config_problem p, names) h =
    absurd (update_status-problem x master false [] [] (problem_message p) o o' h)
with_root-Reconciles x class master zone o o' (temporary_problem p, names) h = cc h
with_root-Reconciles x class master zone o o' (panicked, names) h = cc h
with_root-Reconciles x class master zone o o' (unfinished, names) h = cc h

of_read-Reconciles :
    (fuel : ℕ) (x : External) (get : ObjectKey → Fetched HostedZone) (class : Option Text)
    (master : Bool) (o o' : CoreDnsEntry) (f : Fetched HostedZone)
    → of_read fuel x get class master o f ≡ ok (none, o')
    → (zone : HostedZone) × ((f ≡ found zone)
        × Reconciles x class zone o o' (get_root_info fuel x get zone (some o.spec.dns_names)))
of_read-Reconciles fuel x get class master o o' not_found h =
    absurd (update_status-problem x master false [] [] (text "no root zone found") o o' h)
of_read-Reconciles fuel x get class master o o' (get_error e) h = cc h
of_read-Reconciles fuel x get class master o o' (found zone) h =
    (zone, (refl, with_root-Reconciles x class master zone o o' _ h))

-- A reconciliation of an entry that returns without a problem has read the entry's zone and found
-- its root. Either the server is not responsible, and at most takes back the root zone that it had
-- set; or the entry is valid, its zone is served, and the status has the root zone and the names
-- that are put together on the way to it.
pub entry_reconcile_accepts :
    (fuel : ℕ) (x : External) (get : ObjectKey → Fetched HostedZone) (class : Option Text)
    (master : Bool) (o o' : CoreDnsEntry)
    → reconcile fuel x get class master o ≡ ok (none, o')
    → (zone : HostedZone) × ((get (x.ref_object_key_for o.meta o.spec.zone_ref) ≡ found zone)
        × Reconciles x class zone o o' (get_root_info fuel x get zone (some o.spec.dns_names)))
unfolding reconcile
entry_reconcile_accepts fuel x get class master o o' h =
    elim (if-equals _ _ _ (is_empty o.spec.zone_ref) h) [
      | inl (unset, same) ↦
          absurd (update_status-problem x master false [] [] (text "no zone set") o o' same)
      | inr (given, same) ↦ of_read-Reconciles fuel x get class master o o' _ same
    ]
