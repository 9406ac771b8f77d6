-- ===== src/Common/Fqdn.antt =====
-- internal/controller/common/utils.go: `IsValidFQDN`. The regular expression is matched label by
-- label: its labels contain no dots.
use kubedns.Prelude.{
  ltb, leb, nat_beq, if◌then◌else◌, length, is_empty, Text, dot, ℕ, Bool, true, false, not, ◌&&◌,
  ◌||◌, List, [], ◌∷◌, ◌++◌,
}
use kubedns.External.{External}

abbrev between : ℕ → ℕ → ℕ → Bool
between lo hi c = leb lo c && leb c hi

-- [a-zA-Z]
abbrev pub is_alpha : ℕ → Bool
is_alpha c = between b'a' b'z' c || between b'A' b'Z' c

-- [a-zA-Z0-9]
abbrev pub is_alnum : ℕ → Bool
is_alnum c = is_alpha c || between b'0' b'9' c

-- [a-zA-Z0-9\-]*[a-zA-Z0-9]
unfoldable pub label_tail : Text → Bool
label_tail [] = false
label_tail (c ∷ []) = is_alnum c
label_tail (c ∷ d ∷ s) = (is_alnum c || nat_beq c b'-') && label_tail (d ∷ s)

-- [a-zA-Z0-9]([a-zA-Z0-9\-]{0,61}[a-zA-Z0-9])?
unfoldable pub is_label : Text → Bool
unfolding label_tail
is_label [] = false
is_label (c ∷ s) = is_alnum c && (is_empty s || (label_tail s && leb (length s) 62))

unfoldable pub all_alpha : Text → Bool
all_alpha [] = true
all_alpha (c ∷ s) = is_alpha c && all_alpha s

-- [a-zA-Z]{2,63}
unfoldable pub is_top_level : Text → Bool
unfolding all_alpha
is_top_level s = all_alpha s && leb 2 (length s) && leb (length s) 63

-- The parts between the dots.
unfoldable pub split_at_dots : Text → Text → List Text
split_at_dots part [] = part ∷ []
split_at_dots part (c ∷ s) =
    let here = part ∷ split_at_dots [] s in
    let later = split_at_dots (part ++ c ∷ []) s in if nat_beq c dot then here else later

-- The labels, the top level domain, and perhaps a final dot.
unfoldable pub match_labels : List Text → Bool
unfolding is_label is_top_level
match_labels [] = false
match_labels (l ∷ []) = false
match_labels (l ∷ t ∷ []) = is_label l && is_top_level t
match_labels (l ∷ t ∷ r ∷ ls) =
    is_label l && ((is_top_level t && is_empty r && is_empty ls) || match_labels (t ∷ r ∷ ls))

unfoldable pub fqdn_regex : Text → Bool
unfolding match_labels split_at_dots
fqdn_regex s = match_labels (split_at_dots [] s)

unfoldable pub is_valid_fqdn : External → Text → Bool
unfolding fqdn_regex
is_valid_fqdn x name =
    if ltb (length name) 1 || ltb 253 (length name)
    then false
    else if not (fqdn_regex name)
    then false
    else x.is_domain_name name
