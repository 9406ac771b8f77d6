-- ===== src/Zonemodel/Names.antt =====
-- internal/controller/server/zonemodel/util.go: relative and joined domain names.
-- `none` stands for the panic of an index out of range.
pub mod Laws
use kubedns.Prelude.{
  ℕ, zero, suc, ◌-◌, ◌≡◌, refl, Option, none, some, List, [], ◌∷◌, ◌++◌, Text, text, dot,
  has_suffix_dot, length, take, is_empty, if◌then◌else◌, ◌==◌, text_eq,
}
use kubedns.External.{External}

-- `for strings.HasSuffix(name, ".") { name = name[:len(name)-1] }`
unfoldable pub rdn_loop : ℕ → Text → Text
rdn_loop zero name = name
rdn_loop (suc fuel) name =
    let rest = rdn_loop fuel (take (length name - 1) name) in
    if has_suffix_dot name then rest else name

-- Each round takes a byte off, so the length is fuel enough.
unfoldable pub rdn : Text → Text
unfolding rdn_loop
rdn name = rdn_loop (length name) name

-- strings.Join(labels, ".")
unfoldable pub join_dots : List Text → Text
join_dots [] = []
join_dots (l ∷ []) = l
join_dots (l ∷ m ∷ ls) = l ++ dot ∷ join_dots (m ∷ ls)

-- The labels without the empty ones at the end.
unfoldable pub trim_labels : List Text → List Text
trim_labels [] = []
trim_labels (l ∷ ls) =
    let rest = trim_labels ls in
    if is_empty rest then (if is_empty l then [] else l ∷ []) else l ∷ rest

-- labels[:ll-1], labels[ll-1]; `none` on no labels
unfoldable pub split_last : List Text → Option (List Text × Text)
split_last [] = none
split_last (l ∷ []) = some ([], l)
split_last (l ∷ m ∷ ls) = elim (split_last (m ∷ ls)) [
  | none ↦ none
  | some (before, last) ↦ some (l ∷ before, last)
]

abbrev join_trimmed : External → List Text → Option (List Text × Text) → Option Text
join_trimmed x labels none = none
join_trimmed x labels (some (before, last)) =
    if last == text "."
    then some (join_dots before ++ text ".")
    else some (x.fqdn (join_dots labels))

unfoldable pub join : External → List Text → Option Text
unfolding trim_labels split_last join_dots
join x labels = let trimmed = trim_labels labels in join_trimmed x trimmed (split_last trimmed)
