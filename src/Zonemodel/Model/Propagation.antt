-- ===== src/Zonemodel/Model/Propagation.antt =====
-- The last loop of `AddZone`, which hands the serial number on to the ancestors: when it ends.
use kubedns.Prelude.{
  Option-cases, get_elem?, set, get_elem?-set, ℕ, zero, suc, ◌≡◌, refl, sym, ap, ◌∙◌, ◌↔◌, inl, inr,
  Option, none, some, List, arith,
}
use kubedns.Zonemodel.Model.{Zone, propagate}

abbrev pub parent_of : Option Zone → Option (Option ℕ)
parent_of none = none
parent_of (some z) = some z.parent

abbrev pub SameParents : List Zone → List Zone → Type 0
SameParents h k = (q : ℕ) → parent_of (get_elem? h q) ≡ parent_of (get_elem? k q)

-- The chain of parents from `o` ends after at most `n` zones.
abbrev pub ChainEnds : ℕ → List Zone → Option ℕ → Type 0
ChainEnds n heap none = Unit
ChainEnds zero heap (some p) = ⊥
ChainEnds (suc n) heap (some p) =
    (o : Option ℕ) × (parent_of (get_elem? heap p) ≡ some o) × ChainEnds n heap o

ChainEnds-SameParents :
    (n : ℕ) (h k : List Zone) (o : Option ℕ) → SameParents h k → ChainEnds n h o → ChainEnds n k o
ChainEnds-SameParents n h k none s c = tt
ChainEnds-SameParents zero h k (some p) s c = c
ChainEnds-SameParents (suc n) h k (some p) s (o, e, c) =
    (o, sym (s p) ∙ e, ChainEnds-SameParents n h k o s c)

set-SameParents :
    (h : List Zone) (p : ℕ) (z : Zone) (serial : ℕ)
    → get_elem? h p ≡ some z
    → SameParents h (set h p (record z { serial_id = serial }))
set-SameParents h p z serial e q =
    ground (arith, get_elem?-set h p q (record z { serial_id = serial }) z e)

propagate_step :
    (f serial p : ℕ) (h : List Zone) (z : Zone)
    → get_elem? h p ≡ some z
    → propagate (suc f) serial (some p) h
      ≡ propagate f serial z.parent (set h p (record z { serial_id = serial }))
unfolding propagate
propagate_step f serial p h z e = rw (e, propagate)

propagate_dangling :
    (f serial p : ℕ) (h : List Zone)
    → get_elem? h p ≡ none
    → propagate (suc f) serial (some p) h ≡ none
unfolding propagate
propagate_dangling f serial p h e = rw (e, propagate)

-- The loop ends within the fuel if and only if the chain of parents ends within it. So it ends on
-- every heap without a cycle of parents, and on a cycle no number of rounds is enough.
pub propagate_ends :
    (n serial : ℕ) (o : Option ℕ) (h : List Zone)
    → ChainEnds n h o ↔ ((k : List Zone) × (propagate n serial o h ≡ some k))
unfolding propagate
propagate_ends zero serial none h = ((λ c. (h, refl)), λ c. tt)
propagate_ends (suc n) serial none h = ((λ c. (h, refl)), λ c. tt)
propagate_ends zero serial (some p) h = ((λ c. absurd c), λ c. let (k, e) = c in cc e)
propagate_ends (suc n) serial (some p) h = elim (Option-cases (get_elem? h p)) [
  | inl e ↦ (
    (λ c. let (o, eo, rest) = c in cc (ap parent_of e)),
    λ c. let (k, ek) = c in cc (propagate_dangling n serial p h e),
  )
  | inr (z, e) ↦
      let k = set h p (record z { serial_id = serial }) in
      let same = set-SameParents h p z serial e in
      let (there, back) = propagate_ends n serial z.parent k in
      (
        (λ c.
            let (o, eo, rest) = c in
            let eo' : z.parent ≡ o = cc (ap parent_of e) in
            rw (propagate_step n serial p h z e)
              (there (ChainEnds-SameParents n h k z.parent same (rw eo' rest)))),
        λ c.
            let (l, el) = c in
            (
              z.parent,
              ap parent_of e,
              ChainEnds-SameParents n k h z.parent (λ q. sym (same q))
                  (back (l, rw (propagate_step n serial p h z e) at el)),
            ),
      )
]
