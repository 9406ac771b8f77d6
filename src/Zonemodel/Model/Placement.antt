-- ===== src/Zonemodel/Model/Placement.antt =====
-- `AddZone` and `RemoveZone` keep the order of root zones and nested zones.
use kubedns.Prelude.{
  nat_beq, nat_beq_iff, Bool-cases, ◌==◌, nat_eq, get_elem?, All, All-put, Text, text_beq_iff,
  text_eq, ℕ, ◌≡◌, refl, sym, ◌∙◌, subst, ◌≢◌, inl, inr, Option, none, some, List, [], ◌∷◌, map,
}
use kubedns.External.{External}
use kubedns.Api.{HostedZone}
use kubedns.Zonemodel.Names.{rdn}
use kubedns.Zonemodel.Names.Laws.{has_suffix_dot-rdn}
use kubedns.Zonemodel.Model.{Zone, update, attach, zone_names}
use kubedns.Zonemodel.Model.Heap.{get_elem?-update, All-update}
use kubedns.Zonemodel.Model.Ranks.{
  IsRanked, Children, NamesFit, IsOrdered, IsRankedOr, update-SameRanks, Children-imp,
  Children-update,
}
use kubedns.Zonemodel.Resolve.Forwarding.{IsRelative}

-- What `AddZone` writes into the zone in the end.
abbrev pub described : Option ℕ → Text → List Text → Zone → Zone
described parent name names o = record o { parent = parent; parent_name = name; names = names }

IsRanked-elsewhere :
    (old : ℕ) (f : Zone → Zone) (h : List Zone) (q : ℕ)
    → ¬ IsRanked h old
    → IsRanked h q
    → IsRanked (update old f h) q
IsRanked-elsewhere old f h q never (z, e, ne) = elim (Bool-cases (nat_beq old q)) [
  | inl same ↦
      let eq : q ≡ old = sym ((nat_beq_iff old q).0 same) in
      absurd (never (subst (IsRanked h) eq (z, e, ne)))
  | inr other ↦ (z, get_elem?-update old q f h ∙ rw other e, ne)
]

pub describe_root :
    (old : ℕ) (parent : Option ℕ) (name : Text) (names : List Text) (h : List Zone)
    → name ≡ []
    → ¬ IsRanked h old
    → IsOrdered h
    → IsOrdered (update old (described parent name names) h)
describe_root old parent name names h root never o = record {
  ranked =
      Children-imp (IsRanked h) (IsRanked (update old (described parent name names) h)) _
        (λ q. IsRanked-elsewhere old (described parent name names) h q never)
        (Children-update (IsRanked h) old (described parent name names) h (λ z kids. kids)
          o.ranked);
  fitting =
      All-update NamesFit old (described parent name names) h (λ z e fit ne. absurd (ne root))
        o.fitting;
}

IsRanked-or :
    (old : ℕ) (parent : Option ℕ) (name : Text) (names : List Text) (h : List Zone) (w : Zone)
    → get_elem? h old ≡ some w
    → name ≢ []
    → (q : ℕ) → IsRankedOr old h q
    → IsRanked (update old (described parent name names) h) q
IsRanked-or old parent name names h w e ne q r = elim (Bool-cases (nat_beq old q)) [
  | inl same ↦
      let eq : old ≡ q = (nat_beq_iff old q).0 same in
      (
        described parent name names w,
        get_elem?-update old q (described parent name names) h ∙ rw (same, ← eq, e),
        ne,
      )
  | inr other ↦ elim r [
    | inl (z, ez, nz) ↦
        (z, get_elem?-update old q (described parent name names) h ∙ rw other ez, nz)
    | inr eq ↦ cc ((nat_beq_iff old q).1 (sym eq))
  ]
]

pub describe_nested :
    (old : ℕ) (parent : Option ℕ) (name : Text) (names : List Text) (h : List Zone) (w : Zone)
    → get_elem? h old ≡ some w
    → name ≢ []
    → All IsRelative names
    → Children (IsRankedOr old h) h
    → All NamesFit h
    → IsOrdered (update old (described parent name names) h)
describe_nested old parent name names h w e ne relative kids fit = record {
  ranked =
      Children-imp (IsRankedOr old h) (IsRanked (update old (described parent name names) h)) _
        (IsRanked-or old parent name names h w e ne)
        (Children-update (IsRankedOr old h) old (described parent name names) h (λ z k. k) kids);
  fitting = All-update NamesFit old (described parent name names) h (λ z e f n. relative) fit;
}

pub attach-Children :
    (x : External) (s : Text) (zone : HostedZone) (old : ℕ) (parent : Option ℕ) (h : List Zone)
    → IsOrdered h
    → Children (IsRankedOr old (attach x s zone old parent h)) (attach x s zone old parent h)
unfolding attach
attach-Children x s zone old none h o = Children-imp (IsRanked h) _ h (λ q r. inl r) o.ranked
attach-Children x s zone old (some p) h o =
    Children-imp (IsRankedOr old h) _ _
      (λ q r. elim r [ inl k ↦ inl (update-SameRanks p _ h (λ c. refl) q k) | inr e ↦ inr e ])
      (Children-update (IsRankedOr old h) p _ h
        (λ z kids. All-put (λ c. IsRankedOr old h c.1) _ old z.children (λ j. inr refl) kids)
        (Children-imp (IsRanked h) (IsRankedOr old h) h (λ q r. inl r) o.ranked))

pub attach-NamesFit :
    (x : External) (s : Text) (zone : HostedZone) (old : ℕ) (parent : Option ℕ) (h : List Zone)
    → All NamesFit h
    → All NamesFit (attach x s zone old parent h)
unfolding attach
attach-NamesFit x s zone old none h fit = fit
attach-NamesFit x s zone old (some p) h fit = All-update NamesFit p _ h (λ z e f. f) fit

map-rdn-IsRelative : (names : List Text) → All IsRelative (map rdn names)
map-rdn-IsRelative [] = tt
map-rdn-IsRelative (n ∷ names) = (has_suffix_dot-rdn n, map-rdn-IsRelative names)

pub zone_names-IsRelative :
    (x : External) (zone : HostedZone)
    → zone.spec.parent_ref ≢ []
    → All IsRelative (zone_names x zone)
unfolding zone_names
zone_names-IsRelative x zone ne = elim (Bool-cases (zone.spec.parent_ref == [])) [
  | inl root ↦ absurd (ne ((text_beq_iff zone.spec.parent_ref []).0 root))
  | inr nested ↦ rw nested (map-rdn-IsRelative zone.spec.domain_names)
]
