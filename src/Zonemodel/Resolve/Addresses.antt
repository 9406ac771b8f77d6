-- ===== src/Zonemodel/Resolve/Addresses.antt =====
-- `ResolveIP` and `expand`: the names that an address is known by.
use kubedns.Prelude.{Text, ◌≡◌, sym, ap, ◌∙◌, List, [], ◌∷◌, ◌++◌, map}
use kubedns.External.{External}
use kubedns.Api.{CoreDnsEntry}
use kubedns.Zonemodel.Resolve.{expand_one, expand, expand_entries}
use mathlib.Core.List.{append-nil, append_assoc}

-- Every name before every suffix: the product, in the order of the loops.
abbrev pub products : External → List Text → List Text → List Text
products x [] fqdns = []
products x (n ∷ ns) fqdns = map (λ f. x.fqdn n ++ f) fqdns ++ products x ns fqdns

expand_one-eq :
    (x : External) (n : Text) (fqdns list : List Text)
    → expand_one x n fqdns list ≡ list ++ map (λ f. x.fqdn n ++ f) fqdns
unfolding expand_one
expand_one-eq x n [] list = sym (append-nil list)
expand_one-eq x n (f ∷ fs) list =
    expand_one-eq x n fs (list ++ (x.fqdn n ++ f) ∷ []) ∙ append_assoc list ((x.fqdn n ++ f) ∷ []) _

-- `expand` puts the product of the names and the suffixes behind the list that it is given.
pub expand-eq-products :
    (x : External) (names fqdns list : List Text)
    → expand x names fqdns list ≡ list ++ products x names fqdns
unfolding expand
expand-eq-products x [] fqdns list = sym (append-nil list)
expand-eq-products x (n ∷ ns) fqdns list =
    expand-eq-products x ns fqdns (expand_one x n fqdns list)
    ∙ ap (λ l. l ++ products x ns fqdns) (expand_one-eq x n fqdns list)
    ∙ append_assoc list _ _

-- The names that entries have in a zone with the given names.
abbrev pub known_by : External → List CoreDnsEntry → List Text → List Text
known_by x [] fqdns = []
known_by x (e ∷ es) fqdns = products x e.spec.dns_names fqdns ++ known_by x es fqdns

pub expand_entries-eq-known_by :
    (x : External) (es : List CoreDnsEntry) (fqdns names : List Text)
    → expand_entries x es fqdns names ≡ names ++ known_by x es fqdns
unfolding expand_entries
expand_entries-eq-known_by x [] fqdns names = sym (append-nil names)
expand_entries-eq-known_by x (e ∷ es) fqdns names =
    expand_entries-eq-known_by x es fqdns (expand x e.spec.dns_names fqdns names)
    ∙ ap (λ l. l ++ known_by x es fqdns) (expand-eq-products x e.spec.dns_names fqdns names)
    ∙ append_assoc names _ _
