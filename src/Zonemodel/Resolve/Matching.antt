-- ===== src/Zonemodel/Resolve/Matching.antt =====
-- `Zone.Matches` picks the longest of the zone's names that the query lies under.
use kubedns.Prelude.{
  ltb, if◌then◌else◌, Bool-cases, length, All, Any, Text, ◌≤◌, ◌≡◌, refl, sym, ◌⊎◌, inl, inr, true,
  ◌&&◌, List, [], ◌∷◌, arith,
}
use kubedns.External.{External}
use kubedns.Zonemodel.Model.{Zone}
use kubedns.Zonemodel.Resolve.{best_match, matches}

abbrev pub Covers : External → Text → Text → Text → Type 0
Covers x qname r n = (n ≡ r) × (x.is_sub_domain n qname ≡ true)

abbrev pub Shorter : External → Text → Text → Text → Type 0
Shorter x qname r n = x.is_sub_domain n qname ≡ true → length n ≤ length r

-- The result is one of the names, or the start value; no name that covers the query is longer.
record Best (x : External) (qname start : Text) (names : List Text) (r : Text) : Type 0 where
  from : (r ≡ start) ⊎ Any (Covers x qname r) names
  longer : length start ≤ length r
  longest : All (Shorter x qname r) names

-- One round of the loop.
Best-cons :
    (x : External) (qname start n : Text) (names : List Text) (r : Text)
    → Best x qname
        (if x.is_sub_domain n qname && ltb (length start) (length n) then n else start)
        names
        r
    → Best x qname start (n ∷ names) r
Best-cons x qname start n names r b = elim (Bool-cases (x.is_sub_domain n qname)) [
  | inl sub ↦ elim (Bool-cases (ltb (length start) (length n))) [
    | inl lt ↦
        let c : Best x qname n names r = rw (sub, lt) at b in
        record {
          from = elim c.from [ inl e ↦ inr (inl (sym e, sub)) | inr a ↦ inr (inr a) ];
          longer = ground (arith, c.longer);
          longest = (λ _. c.longer, c.longest);
        }
    | inr ge ↦
        let c : Best x qname start names r = rw (sub, ge) at b in
        record {
          from = elim c.from [ inl e ↦ inl e | inr a ↦ inr (inr a) ];
          longer = c.longer;
          longest = (λ _. ground (arith, c.longer), c.longest);
        }
  ]
  | inr out ↦
      let c : Best x qname start names r = rw out at b in
      record {
        from = elim c.from [ inl e ↦ inl e | inr a ↦ inr (inr a) ];
        longer = c.longer;
        longest = (λ sub. ground arith, c.longest);
      }
]

best_match-Best :
    (x : External) (qname start : Text) (names : List Text)
    → Best x qname start names (best_match x qname start names)
unfolding best_match
best_match-Best x qname start [] = record { from = inl refl; longer = omega arith; longest = tt }
best_match-Best x qname start (n ∷ names) = Best-cons x qname start n names _ (
    best_match-Best x qname
      (if x.is_sub_domain n qname && ltb (length start) (length n) then n else start) names)

-- `Matches` answers with the empty text, or with a name of the zone under which the query lies;
-- and no name of the zone under which the query lies is longer than the answer.
pub matches-longest :
    (x : External) (z : Zone) (qname : Text)
    → ((matches x z qname ≡ []) ⊎ Any (Covers x qname (matches x z qname)) z.names)
      × All (Shorter x qname (matches x z qname)) z.names
unfolding matches
matches-longest x z qname = let b = best_match-Best x qname [] z.names in (b.from, b.longest)
