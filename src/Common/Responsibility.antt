-- ===== src/Common/Responsibility.antt =====
-- internal/controller/common/responsibility.go: who is responsible for a zone or an entry. A loop
-- has fuel; `unfinished` says that it was used up. The logger is left out, and of a message only the
-- text is kept.
pub mod Checking
pub mod Roots
pub mod Chains
use kubedns.Prelude.{
  if◌then◌else◌, nat_eq, ◌==◌, Text, text, text_eq, ℕ, zero, suc, Bool, true, false, not, Option,
  none, some, List, [], ◌∷◌, ◌++◌,
}
use kubedns.External.{External}
use kubedns.Api.{HostedZone, ObjectKey}
use kubedns.Common.Formats.{quoted}
use kubedns.Common.Cluster.{
  Fetched, found, not_found, get_error, Problem, failed, temporary, contains,
}

pub record Responsibility : Type 0 where
  pub root : HostedZone
  pub parent : Option HostedZone
  pub runtime : Option Text
  pub class : Option Text

unfoldable pub check_runtime : Option Text → Option Text → Bool
check_runtime none runtime = true
check_runtime (some r) none = false
check_runtime (some r) (some s) = r == s

-- `Responsibility.Check`; its last line returns false also when all comparisons have succeeded.
unfoldable pub check_class : Responsibility → Option Text → Option Text → Option Text → Bool
unfolding check_runtime
check_class r none none runtime = true
check_class r none (some d) runtime = false
check_class r (some c) none runtime = false
check_class r (some c) (some d) runtime =
    if not (c == d) then false else if not (check_runtime r.runtime runtime) then false else false

unfoldable pub check : Responsibility → Option Text → Option Text → Bool
unfolding check_class
check r class runtime = check_class r r.class class runtime

-- The three results of a search for the root: the information, a problem of the configuration
-- (ok with a problem), or a temporary problem (not ok); a panic; or no result within the fuel.
pub data RootInfo : Type 0 where
  info : Responsibility → RootInfo
  config_problem : Problem → RootInfo
  temporary_problem : Problem → RootInfo
  panicked : RootInfo
  unfinished : RootInfo

abbrev pub first_of_two : Option HostedZone → HostedZone → Option HostedZone
first_of_two none z = some z
first_of_two (some p) z = some p

abbrev pub for_entry_result : Option HostedZone → Option HostedZone → RootInfo
for_entry_result parent none = panicked
for_entry_result parent (some root) =
    info (record {
      root = root;
      parent = parent;
      runtime = root.spec.runtime;
      class = root.spec.class;
    })

-- The loop of `GetRootInfoForEntry`.
unfoldable pub root_for_entry_loop :
    ℕ
    → (ObjectKey → Fetched HostedZone)
    → Text
    → Text
    → List Text
    → Text
    → Option HostedZone
    → Option HostedZone
    → RootInfo
unfolding contains
root_for_entry_loop zero get namespace zone hist path parent root = unfinished
root_for_entry_loop (suc fuel) get namespace zone hist path parent root =
    let path' = path ++ text "/" ++ zone in
    let visit = λ (z : HostedZone).
      root_for_entry_loop fuel get namespace z.spec.parent_ref (hist ++ zone ∷ []) path'
        (first_of_two parent z) (some z) in
    if zone == []
    then for_entry_result parent root
    else if contains hist zone
    then config_problem (failed (text "reference cyle " ++ path'))
    else elim (get (record { namespace = namespace; name = zone })) [
      | not_found ↦ config_problem (failed (text "parent " ++ zone ++ text " not found"))
      | get_error e ↦ temporary_problem (temporary e)
      | found z ↦
          if z.meta.deleting
          then config_problem (failed (text "parent " ++ zone ++ text " deleted"))
          else visit z
    ]

unfoldable pub get_root_info_for_entry : ℕ → (ObjectKey → Fetched HostedZone) → ObjectKey → RootInfo
unfolding root_for_entry_loop
get_root_info_for_entry fuel get n = root_for_entry_loop fuel get n.namespace n.name [] [] none none

-- The names of one zone before the suffixes of the next.
unfoldable pub add_suffixes : External → Text → List Text → List Text → List Text
add_suffixes x n [] result = result
add_suffixes x n (suf ∷ sufs) result =
    add_suffixes x n sufs (result ++ (x.fqdn n ++ x.fqdn suf) ∷ [])

unfoldable pub add_names : External → List Text → List Text → List Text → List Text
unfolding add_suffixes
add_names x [] domains result = result
add_names x (n ∷ ns) domains result = add_names x ns domains (add_suffixes x n domains result)

-- `AggregateNames`; the names are `none` for a nil pointer.
unfoldable pub aggregate_names : External → HostedZone → Option (List Text) → Option (List Text)
unfolding add_names
aggregate_names x z none = none
aggregate_names x z (some names) = some (add_names x names z.spec.domain_names [])

-- The loop of `GetRootInfo`, with the names that it has put together so far.
unfoldable pub root_info_loop :
    ℕ
    → External
    → (ObjectKey → Fetched HostedZone)
    → HostedZone
    → List Text
    → Text
    → Option HostedZone
    → Option (List Text)
    → RootInfo × Option (List Text)
unfolding contains aggregate_names
root_info_loop zero x get obj hist path parent names = (unfinished, names)
root_info_loop (suc fuel) x get obj hist path parent names =
    let names' = aggregate_names x obj names in
    let hist' = hist ++ obj.meta.name ∷ [] in
    let ref = obj.spec.parent_ref in
    let path' = path ++ text "/" ++ ref in
    let visit =
      λ (z : HostedZone). root_info_loop fuel x get z hist' path' (first_of_two parent z) names' in
    if ref == []
    then (
      info (record {
        root = obj;
        parent = parent;
        runtime = obj.spec.runtime;
        class = obj.spec.class;
      }),
      names',
    )
    else if contains hist' ref
    then (config_problem (failed (text "reference cyle " ++ path')), names')
    else elim (get (x.ref_object_key_for obj.meta ref)) [
      | not_found ↦
          (config_problem (failed (text "parent " ++ quoted path' ++ text " not found")), names')
      | get_error e ↦ (temporary_problem (temporary e), names')
      | found z ↦
          if z.meta.deleting
          then (config_problem (failed (text "parent " ++ ref ++ text " deleted")), names')
          else visit z
    ]

unfoldable pub get_root_info :
    ℕ
    → External
    → (ObjectKey → Fetched HostedZone)
    → HostedZone
    → Option (List Text)
    → RootInfo × Option (List Text)
unfolding root_info_loop
get_root_info fuel x get obj names = root_info_loop fuel x get obj [] [] none names
