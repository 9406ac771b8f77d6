-- ===== src/Direct/EntryRequest/Searching.antt =====
-- The search of an entry's zone and root, and the pointers that it may leave nil.
use kubedns.Prelude.{
  Bool-cases, Option-cases, ◌==◌, nat_eq, if-true, if-false, if-cases, is_empty, nil_of_is_empty,
  Text, text, text_eq, ℕ, zero, suc, ◌≡◌, refl, ◌≢◌, ◌⊎◌, inl, inr, Option, none, some, List, [],
  ◌∷◌, ◌++◌,
}
use kubedns.External.{External}
use kubedns.Api.{HostedZone, CoreDnsEntry, Condition, ObjectKey}
use kubedns.Api.Conditions.{state_ready}
use kubedns.Common.Cluster.{Fetched, contains}
use kubedns.Common.Formats.{join_errors, quoted}
use kubedns.Common.Validate.{validate_entry_data}
use kubedns.Zonemodel.Outcome.{err, Outcome, ok, panicked, unfinished, ◌>>=◌}
use kubedns.Common.Cluster.{found, not_found, get_error}
use kubedns.Direct.EntryRequest.{
  search_step, Responsibility, Search, responsible, search_failed, search_unfinished, first_zone,
  search_loop, responsible_for_entry, Found, found_of, is_foreign, of_server_condition, of_found,
  summary, validated, finish, of_search, reconcile,
}

-- Without an error there are a zone and a root.
abbrev IsComplete : Option HostedZone → Option HostedZone → Type 0
IsComplete zone root = ((z : HostedZone) × (zone ≡ some z)) × ((r : HostedZone) × (root ≡ some r))

abbrev Searched : Search → Type 0
Searched (responsible r) = (r.error ≢ []) ⊎ IsComplete r.zone r.root
Searched (search_failed p) = Unit
Searched search_unfinished = Unit

not_found-ne-nil : (n : Text) → (text "zone " ++ quoted n ++ text " not found") ≢ []
not_found-ne-nil n e = cc e

cycle-ne-nil : (p r : Text) → (text "reference cycle " ++ p ++ b'/' ∷ r) ≢ []
cycle-ne-nil p r e = cc e

search_step-Searched :
    (name : Text) (hist : List Text) (path : Text) (first : Option HostedZone)
    (visit : HostedZone → Search) (f : Fetched HostedZone)
    → ((z : HostedZone) → Searched (visit z))
    → Searched (search_step name hist path first visit f)
unfolding search_step
search_step-Searched name hist path first visit not_found h = inl (not_found-ne-nil name)
search_step-Searched name hist path first visit (get_error e) h = tt
search_step-Searched name hist path first visit (found z) h =
    if-cases _ _ Searched (is_empty z.spec.parent_ref) (inr ((_, refl), (z, refl))) (
      if-cases _ _ Searched (contains hist z.spec.parent_ref)
        (inl (cycle-ne-nil path z.spec.parent_ref)) (h z))

search_loop-Searched :
    (fuel : ℕ) (x : External) (get : ObjectKey → Fetched HostedZone) (n : ObjectKey)
    (hist : List Text) (path : Text) (first : Option HostedZone)
    → Searched (search_loop fuel x get n hist path first)
unfolding search_loop
search_loop-Searched zero x get n hist path first = tt
search_loop-Searched (suc fuel) x get n hist path first =
    let path' = path ++ b'/' ∷ n.name in
    let hist' = hist ++ n.name ∷ [] in
    search_step-Searched n.name hist' path' first _ (get n) (λ z.
      search_loop-Searched fuel x get (x.ref_object_key_for z.meta z.spec.parent_ref) hist' path'
        (some (first_zone first z)))

abbrev IsSafe : Found → Type 0
IsSafe f = (f.error ≢ none) ⊎ IsComplete f.zone f.root

join_errors-ne-none : (a : Text) (b : Option Text) → join_errors (some a) b ≢ none
unfolding join_errors
join_errors-ne-none a none e = cc e
join_errors-ne-none a (some b) e = cc e

found_of-IsSafe :
    (baseerr : Option Text) (r : Responsibility)
    → (r.error ≢ []) ⊎ IsComplete r.zone r.root
    → IsSafe (found_of baseerr r)
found_of-IsSafe baseerr r h = elim (Bool-cases (is_empty r.error)) [
  | inr bad ↦ if-false _ _ IsSafe (is_empty r.error) bad (inl (join_errors-ne-none _ baseerr))
  | inl good ↦ if-true _ _ IsSafe (is_empty r.error) good (elim h [
    | inl error ↦ absurd (error (nil_of_is_empty r.error good))
    | inr complete ↦ inr complete
  ])
]

of_found-ok :
    (f : Found) (e : CoreDnsEntry) (z r : HostedZone)
    → f.zone ≡ some z
    → f.root ≡ some r
    → of_found f e ≢ panicked
unfolding of_found
of_found-ok f e z r hz hr = elim (Bool-cases (z.status.state == state_ready)) [
  | inl ready ↦ rw (hz, ready, hr) (λ n. cc n)
  | inr other ↦ rw (hz, other) (λ n. cc n)
]

summary-ok :
    (f : Found) (e : CoreDnsEntry) (c : Option Condition) → IsSafe f → summary f e c ≢ panicked
unfolding summary
summary-ok f e c (inr ((z, hz), (r, hr))) =
    if-cases _ _ (λ s. s ≢ panicked) ((of_server_condition f.error c).0 == state_ready)
      (of_found-ok f e z r hz hr) (λ n. cc n)
summary-ok f e c (inl bad) = elim (Option-cases f.error) [
  | inl no_error ↦ absurd (bad no_error)
  | inr (m, error) ↦ rw error (λ n. cc n)
]

bind-ok :
    {A B : Type 0} (m : Outcome A) (f : A → B) → m ≢ panicked → (m >>= λ a. ok (f a)) ≢ panicked
bind-ok (ok a) f h = λ n. cc n
bind-ok (err e) f h = λ n. cc n
bind-ok panicked f h = absurd (h refl)
bind-ok unfinished f h = λ n. cc n

finish-ok :
    (x : External) (runtime class : Option Text) (o : CoreDnsEntry) (f : Found)
    → IsSafe f
    → finish x runtime class o f ≢ panicked
unfolding finish
finish-ok x runtime class o f safe =
    if-cases _ _ (λ s. s ≢ panicked) (is_foreign runtime class f.root) (λ n. cc n)
      (bind-ok _ _ (summary-ok f (validated x o f.error) _ safe))

of_search-ok :
    (x : External) (runtime class : Option Text) (o : CoreDnsEntry) (baseerr : Option Text)
    (s : Search)
    → Searched s
    → of_search x runtime class o baseerr s ≢ panicked
of_search-ok x runtime class o baseerr (responsible r) h =
    finish-ok x runtime class o (found_of baseerr r) (found_of-IsSafe baseerr r h)
of_search-ok x runtime class o baseerr (search_failed p) h = λ n. cc n
of_search-ok x runtime class o baseerr search_unfinished h = λ n. cc n

-- Whatever the entry and the cluster hold, the reconciliation of an entry in direct mode never runs
-- into a nil zone or a nil root.
pub reconcile_never_panics :
    (fuel : ℕ) (x : External) (get : ObjectKey → Fetched HostedZone) (runtime class : Option Text)
    (o : CoreDnsEntry)
    → reconcile fuel x get runtime class o ≢ panicked
unfolding reconcile responsible_for_entry
reconcile_never_panics fuel x get runtime class o =
    let baseerr = validate_entry_data x o in
    let unset : Found = record {
      zone = none;
      root = none;
      error = join_errors (some (text "zone reference required")) baseerr;
    } in
    let key = x.ref_object_key_for o.meta o.spec.zone_ref in
    if-cases (finish x runtime class o unset)
      (of_search x runtime class o baseerr (search_loop fuel x get key [] [] none))
      (λ s. s ≢ panicked) (is_empty o.spec.zone_ref)
      (finish-ok x runtime class o unset (inl (join_errors-ne-none _ baseerr)))
      (of_search-ok x runtime class o baseerr _ (search_loop-Searched fuel x get key [] [] none))
