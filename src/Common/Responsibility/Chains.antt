-- ===== src/Common/Responsibility/Chains.antt =====
-- The search of a zone's root by `GetRootInfo`: it ends at the root of the chain of parents, with
-- the names that are put together on the way.
use kubedns.Prelude.{
  Bool-cases, nat_eq, ◌==◌, if-true, if-false, Any, Text, text_beq_iff, text_eq, ℕ, zero, suc, ◌<◌,
  ◌≡◌, refl, sym, ap, ◌∙◌, subst, inl, inr, false, Option, none, List, [], ◌∷◌, ◌++◌, arith,
}
use kubedns.External.{External, Documented}
use kubedns.Api.{HostedZone, ObjectKey}
use kubedns.Common.Cluster.{Fetched, found, contains, fetched-cases}
use kubedns.Common.Responsibility.{
  panicked, unfinished, config_problem, temporary_problem, info, RootInfo, info, config_problem,
  temporary_problem, panicked, unfinished, first_of_two, aggregate_names, root_info_loop,
  get_root_info,
}
use kubedns.Common.Responsibility.Roots.{unseen, unseen-lt}

-- From a zone and the names below it up to the root zone and its names.
pub data Ascent (x : External) (get : ObjectKey → Fetched HostedZone)
    : HostedZone → Option (List Text) → HostedZone → Option (List Text) → Type 0 where
  top :
      (z : HostedZone) (names : Option (List Text))
      → z.spec.parent_ref ≡ []
      → Ascent x get z names z (aggregate_names x z names)
  up :
      (z parent root : HostedZone) (names out : Option (List Text))
      → get (x.ref_object_key_for z.meta z.spec.parent_ref) ≡ found parent
      → parent.meta.deleting ≡ false
      → Ascent x get parent (aggregate_names x z names) root out
      → Ascent x get z names root out

-- What the search must give: with information, its root and the names are those of the ascent, and
-- its class and runtime are the root's.
abbrev pub IsRootOf :
    External
    → (ObjectKey → Fetched HostedZone)
    → HostedZone
    → Option (List Text)
    → RootInfo × Option (List Text)
    → Type 0
IsRootOf x get z names (info r, out) =
    Ascent x get z names r.root out
    × ((r.class ≡ r.root.spec.class) × (r.runtime ≡ r.root.spec.runtime))
IsRootOf x get z names (config_problem p, out) = Unit
IsRootOf x get z names (temporary_problem p, out) = Unit
IsRootOf x get z names (panicked, out) = ⊥
IsRootOf x get z names (unfinished, out) = ⊥

module _ (x : External) (d : Documented x) (get : ObjectKey → Fetched HostedZone)
    (named : (k : ObjectKey) (z : HostedZone) → get k ≡ found z → z.meta.name ≡ k.name)
    (names : List Text)
    (finite : (k : ObjectKey) (z : HostedZone)
      → get k ≡ found z
      → Any (λ u. u ≡ k.name) names) where
  IsRootOf-up :
      (z parent : HostedZone) (ns : Option (List Text)) (r : RootInfo × Option (List Text))
      → get (x.ref_object_key_for z.meta z.spec.parent_ref) ≡ found parent
      → parent.meta.deleting ≡ false
      → IsRootOf x get parent (aggregate_names x z ns) r
      → IsRootOf x get z ns r
  IsRootOf-up z parent ns (info r, out) e live (h, rest) =
      (up z parent r.root ns out e live h, rest)
  IsRootOf-up z parent ns (config_problem p, out) e live h = tt
  IsRootOf-up z parent ns (temporary_problem p, out) e live h = tt
  IsRootOf-up z parent ns (panicked, out) e live h = h
  IsRootOf-up z parent ns (unfinished, out) e live h = h

  ref_name :
      (z : HostedZone) → (x.ref_object_key_for z.meta z.spec.parent_ref).name ≡ z.spec.parent_ref
  ref_name z = ap (λ k. k.name) (d.ref_object_key_for_lem z.meta z.spec.parent_ref)

  parent_name :
      (z parent : HostedZone)
      → get (x.ref_object_key_for z.meta z.spec.parent_ref) ≡ found parent
      → parent.meta.name ≡ z.spec.parent_ref
  parent_name z parent e = named _ parent e ∙ ref_name z

  root_info_loop-IsRootOf :
      (fuel : ℕ) (z : HostedZone) (hist : List Text) (path : Text) (first : Option HostedZone)
      (ns : Option (List Text))
      → Any (λ u. u ≡ z.meta.name) names
      → contains hist z.meta.name ≡ false
      → unseen names hist < fuel
      → IsRootOf x get z ns (root_info_loop fuel x get z hist path first ns)
  unfolding root_info_loop
  root_info_loop-IsRootOf zero z hist path first ns known new lt = absurd (omega arith)
  root_info_loop-IsRootOf (suc fuel) z hist path first ns known new lt =
      elim (Bool-cases (z.spec.parent_ref == [])) [
        | inl root ↦
            if-true _ _ (IsRootOf x get z ns) (z.spec.parent_ref == []) root
              (top z ns ((text_beq_iff z.spec.parent_ref []).0 root), (refl, refl))
        | inr nested ↦
            if-false _ _ (IsRootOf x get z ns) (z.spec.parent_ref == []) nested
              (elim (Bool-cases (contains (hist ++ z.meta.name ∷ []) z.spec.parent_ref)) [
                | inl again ↦ if-true _ _ (IsRootOf x get z ns) _ again tt
                | inr fresh ↦
                    if-false _ _ (IsRootOf x get z ns) _ fresh
                      (elim (fetched-cases (get (x.ref_object_key_for z.meta z.spec.parent_ref))) [
                        | inl missing ↦ rw missing tt
                        | inr (inl (m, error)) ↦ rw error tt
                        | inr (inr (parent, e)) ↦ rw e (elim (Bool-cases parent.meta.deleting) [
                          | inl gone ↦
                              if-true _ _ (IsRootOf x get z ns) parent.meta.deleting gone tt
                          | inr live ↦
                              if-false _ _ (IsRootOf x get z ns) parent.meta.deleting live (
                                IsRootOf-up z parent ns _ e live (
                                  root_info_loop-IsRootOf fuel parent (hist ++ z.meta.name ∷ []) _
                                    (first_of_two first parent) (aggregate_names x z ns)
                                    (subst (λ n. Any (λ u. u ≡ n) names) (sym (named _ parent e))
                                      (finite _ parent e))
                                    (ap (contains (hist ++ z.meta.name ∷ []))
                                        (parent_name z parent e)
                                      ∙ fresh)
                                    (omega (arith, unseen-lt names hist z.meta.name known new))))
                        ])
                      ])
              ])
      ]

  -- When an object is found under its own name and the names of the zones are finitely many, among
  -- them that of the zone, and with more fuel than there are names, `GetRootInfo` ends without a
  -- panic; and information that it gives is about the root at the end of the ascent, with the names
  -- put together along it.
  pub get_root_info-IsRootOf :
      (fuel : ℕ) (z : HostedZone) (ns : Option (List Text))
      → Any (λ u. u ≡ z.meta.name) names
      → unseen names [] < fuel
      → IsRootOf x get z ns (get_root_info fuel x get z ns)
  unfolding get_root_info contains
  get_root_info-IsRootOf fuel z ns known lt =
      root_info_loop-IsRootOf fuel z [] [] none ns known refl lt
