-- ===== src/Zonemodel/Resolve/Walking.antt =====
-- The loop of `ResolveFQDN` over the labels: which names it looks up, and where it stops.
use kubedns.Prelude.{
  Text, has_suffix_dot, ◌≡◌, refl, sym, subst, ◌≢◌, ◌⊎◌, inl, inr, false, Option, none, some, List,
  [], ◌∷◌,
}
use kubedns.External.{External, Documented}
use kubedns.Api.{CoreDnsEntry}
use kubedns.Zonemodel.Names.Laws.{
  joined, dotted, joined-ne-nil, relative-dotted, dotted-ne-nil, join_two, rdn-joined,
}
use kubedns.Zonemodel.Model.{Zone}
use kubedns.Zonemodel.Outcome.{◌>>=◌, Outcome, ok, >>=-congr}
use kubedns.Zonemodel.Resolve.{
  Index, Walk, delegated, arrived, first_delegation, walk_labels, fetch,
}

-- The walk as it is meant: the names looked up are the relative names of one, two, … labels, from
-- the zone downwards; a lookup error and an NS record end it.
unfoldable pub walk_names :
    External → Index → Zone → List Text → Text → Text → List CoreDnsEntry → Outcome Walk
walk_names x index z [] cur rel list = ok (arrived list cur)
walk_names x index z (l ∷ ls) cur rel list = do
  found ← fetch (index.lookup_relative_domain_name z.source z.key (dotted l rel))
  elim (first_delegation found) [
    | some e ↦ ok (delegated e (joined x l cur))
    | none ↦ walk_names x index z ls (joined x l cur) (dotted l rel) found
  ]

-- The first label is not empty and does not end in a dot.
abbrev pub HeadIsLabel : List Text → Type 0
HeadIsLabel [] = Unit
HeadIsLabel (l ∷ ls) = (l ≢ []) × (has_suffix_dot l ≡ false)

-- Either there is a relative name already, or the next label gives one.
abbrev pub CanJoin : List Text → Text → Type 0
CanJoin labels rel = (rel ≢ []) ⊎ HeadIsLabel labels

CanJoin-ne : (l : Text) (ls : List Text) (rel : Text) → CanJoin (l ∷ ls) rel → (l ≢ []) ⊎ (rel ≢ [])
CanJoin-ne l ls rel (inl h) = inr h
CanJoin-ne l ls rel (inr h) = inl h.0

CanJoin-relative :
    (l : Text) (ls : List Text) (rel : Text)
    → CanJoin (l ∷ ls) rel
    → has_suffix_dot l ≡ false ⊎ (rel ≢ [])
CanJoin-relative l ls rel (inl h) = inr h
CanJoin-relative l ls rel (inr h) = inl h.1

module _ (x : External) (d : Documented x) (index : Index) (z : Zone) where
  same_choice :
      (o : Option CoreDnsEntry) (f : CoreDnsEntry → Outcome Walk) (a b : Outcome Walk)
      → a ≡ b
      → elim o [ some e ↦ f e | none ↦ a ] ≡ elim o [ some e ↦ f e | none ↦ b ]
  same_choice (some e) f a b h = refl
  same_choice none f a b h = h

  -- The rest of a round of the loop, once the names are joined.
  abbrev look_up : List Text → Text → Text → Outcome Walk
  look_up ls cur rel = do
    found ← fetch (index.lookup_relative_domain_name z.source z.key rel)
    elim (first_delegation found) [
      | some e ↦ ok (delegated e cur)
      | none ↦ walk_labels x index z ls cur rel found
    ]

  -- From a zone name and with labels as `SplitDomainName` gives them the loop never panics, and it
  -- looks up exactly the relative names of the specification.
  pub walk_labels-eq-walk_names :
      (labels : List Text) (cur rel : Text) (list : List CoreDnsEntry)
      → cur ≢ []
      → has_suffix_dot rel ≡ false
      → CanJoin labels rel
      → walk_labels x index z labels cur rel list ≡ walk_names x index z labels cur rel list
  unfolding walk_labels walk_names
  walk_labels-eq-walk_names [] cur rel list hc hr can = refl
  walk_labels-eq-walk_names (l ∷ ls) cur rel list hc hr can =
      let relative = CanJoin-relative l ls rel can in
      let rest = λ (found : List CoreDnsEntry).
        walk_labels-eq-walk_names ls (joined x l cur) (dotted l rel) found (joined-ne-nil x d l cur)
          (relative-dotted l rel relative hr)
          (inl (dotted-ne-nil l rel (CanJoin-ne l ls rel can))) in
      rw (join_two x l cur (inr hc), join_two x l rel (CanJoin-ne l ls rel can))
        (subst (λ r. look_up ls (joined x l cur) r ≡ walk_names x index z (l ∷ ls) cur rel list)
          (sym (rdn-joined x d l rel relative hr))
          (>>=-congr (fetch (index.lookup_relative_domain_name z.source z.key (dotted l rel))) _ _
            λ found.
              same_choice (first_delegation found) (λ e. ok (delegated e (joined x l cur))) _ _
                (rest found)))
