-- ===== src/Common/Responsibility/Roots.antt =====
-- The search of an entry's root: it ends, and it ends at the root of the chain of parents.
use kubedns.Prelude.{
  if◌then◌else◌, Bool-cases, ◌==◌, nat_eq, if-true, if-false, Any, Text, text_beq_iff, text_eq, ℕ,
  zero, suc, ◌+◌, ◌≤◌, ◌<◌, ◌≡◌, refl, ap, ◌∙◌, subst, ◌≢◌, ◌⊎◌, inl, inr, false, ◌||◌, Option,
  none, some, List, [], ◌∷◌, ◌++◌, arith,
}
use kubedns.Api.{HostedZone, ObjectKey}
use kubedns.Common.Responsibility.{
  first_of_two, for_entry_result, RootInfo, root_for_entry_loop, get_root_info_for_entry, info,
  config_problem, temporary_problem,
}
use kubedns.Common.Responsibility.{
  RootInfo, info, config_problem, temporary_problem, panicked, unfinished,
}
use kubedns.Common.Cluster.{fetched-cases, Fetched, found, contains}

-- How many of the names are not in the history.
unfoldable pub unseen : List Text → List Text → ℕ
unfolding contains
unseen [] hist = 0
unseen (u ∷ us) hist = (if contains hist u then 0 else 1) + unseen us hist

contains-snoc :
    (hist : List Text) (z u : Text) → contains (hist ++ z ∷ []) u ≡ (contains hist u || z == u)
unfolding contains
contains-snoc [] z u = ground arith
contains-snoc (h ∷ hist) z u = ground (arith, contains-snoc hist z u)

unseen-le : (us hist : List Text) (z : Text) → unseen us (hist ++ z ∷ []) ≤ unseen us hist
unfolding unseen
unseen-le [] hist z = omega arith
unseen-le (u ∷ us) hist z = ground (arith, unseen-le us hist z, contains-snoc hist z u)

-- A new name of the list makes the rest smaller.
pub unseen-lt :
    (us hist : List Text) (z : Text)
    → Any (λ u. u ≡ z) us
    → contains hist z ≡ false
    → unseen us (hist ++ z ∷ []) < unseen us hist
unfolding unseen
unseen-lt [] hist z a h = absurd a
unseen-lt (u ∷ us) hist z (inl e) h =
    let same : contains hist u ≡ false = ap (contains hist) e ∙ h in
    ground (arith, unseen-le us hist z, contains-snoc hist z u, text_beq_iff z u, e)
unseen-lt (u ∷ us) hist z (inr a) h =
    ground (arith, unseen-lt us hist z a h, contains-snoc hist z u)

-- The chain of parents from a name to its root, over zones that are not being deleted.
pub data Chain (get : ObjectKey → Fetched HostedZone) (namespace : Text)
    : Text → HostedZone → Type 0 where
  ends :
      (name : Text) (z : HostedZone)
      → get (record { namespace = namespace; name = name }) ≡ found z
      → z.meta.deleting ≡ false
      → z.spec.parent_ref ≡ []
      → Chain get namespace name z
  climbs :
      (name : Text) (z root : HostedZone)
      → get (record { namespace = namespace; name = name }) ≡ found z
      → z.meta.deleting ≡ false
      → Chain get namespace z.spec.parent_ref root
      → Chain get namespace name root

module _ (get : ObjectKey → Fetched HostedZone) (namespace : Text) where
  abbrev at : Text → Fetched HostedZone
  at name = get (record { namespace = namespace; name = name })

  -- Where the search from `zone` must end, with the root that was passed last.
  abbrev Reaches : Text → Option HostedZone → HostedZone → Type 0
  Reaches zone root r = ((zone ≡ []) × (root ≡ some r)) ⊎ Chain get namespace zone r

  -- The first zone of the search, or the parent that was met before.
  abbrev FirstZone : Text → Option HostedZone → Option HostedZone → Type 0
  FirstZone zone parent p =
      ((zone ≡ []) × (p ≡ parent))
      ⊎ ((z : HostedZone) × (at zone ≡ found z) × (p ≡ first_of_two parent z))

  abbrev LoopResult : Text → Option HostedZone → Option HostedZone → RootInfo → Type 0
  LoopResult zone parent root (info r) =
      Reaches zone root r.root
      × FirstZone zone parent r.parent
      × (r.class ≡ r.root.spec.class)
      × (r.runtime ≡ r.root.spec.runtime)
  LoopResult zone parent root (config_problem p) = Unit
  LoopResult zone parent root (temporary_problem p) = Unit
  LoopResult zone parent root panicked = ⊥
  LoopResult zone parent root unfinished = ⊥

  Reaches-climb :
      (zone : Text) (root : Option HostedZone) (z r : HostedZone)
      → at zone ≡ found z
      → z.meta.deleting ≡ false
      → Reaches z.spec.parent_ref (some z) r
      → Chain get namespace zone r
  Reaches-climb zone root z r e live (inl (top, same)) =
      let eq : z ≡ r = cc same in subst (Chain get namespace zone) eq (ends zone z e live top)
  Reaches-climb zone root z r e live (inr c) = climbs zone z r e live c

  FirstZone-climb :
      (zone : Text) (parent : Option HostedZone) (z : HostedZone) (p : Option HostedZone)
      → at zone ≡ found z
      → FirstZone z.spec.parent_ref (first_of_two parent z) p
      → FirstZone zone parent p
  FirstZone-climb zone none z p e (inl (top, same)) = inr (z, e, same)
  FirstZone-climb zone (some q) z p e (inl (top, same)) = inr (z, e, same)
  FirstZone-climb zone none z p e (inr (y, ey, same)) = inr (z, e, same)
  FirstZone-climb zone (some q) z p e (inr (y, ey, same)) = inr (z, e, same)

  LoopResult-climb :
      (zone : Text) (parent root : Option HostedZone) (z : HostedZone) (r : RootInfo)
      → at zone ≡ found z
      → z.meta.deleting ≡ false
      → LoopResult z.spec.parent_ref (first_of_two parent z) (some z) r
      → LoopResult zone parent root r
  LoopResult-climb zone parent root z (info r) e live (reach, first, class, runtime) = (
    inr (Reaches-climb zone root z r.root e live reach),
    FirstZone-climb zone parent z r.parent e first,
    class,
    runtime,
  )
  LoopResult-climb zone parent root z (config_problem p) e live h = tt
  LoopResult-climb zone parent root z (temporary_problem p) e live h = tt
  LoopResult-climb zone parent root z panicked e live h = h
  LoopResult-climb zone parent root z unfinished e live h = h

  LoopResult-end :
      (zone : Text) (parent root : Option HostedZone)
      → zone ≡ []
      → (zone ≢ []) ⊎ (root ≢ none)
      → LoopResult zone parent root (for_entry_result parent root)
  LoopResult-end zone parent none e (inl h) = absurd (h e)
  LoopResult-end zone parent none e (inr h) = absurd (h refl)
  LoopResult-end zone parent (some r) e h = (inl (e, refl), inl (e, refl), refl, refl)

  module _ (names : List Text)
      (finite : (name : Text) (z : HostedZone)
        → at name ≡ found z
        → Any (λ u. u ≡ name) names) where
    root_for_entry_loop-LoopResult :
        (fuel : ℕ) (zone : Text) (hist : List Text) (path : Text) (parent root : Option HostedZone)
        → (zone ≢ []) ⊎ (root ≢ none)
        → unseen names hist < fuel
        → LoopResult zone parent root
            (root_for_entry_loop fuel get namespace zone hist path parent root)
    unfolding root_for_entry_loop
    root_for_entry_loop-LoopResult zero zone hist path parent root h lt = absurd (omega arith)
    root_for_entry_loop-LoopResult (suc fuel) zone hist path parent root h lt =
        elim (Bool-cases (zone == [])) [
          | inl top ↦ rw top (LoopResult-end zone parent root ((text_beq_iff zone []).0 top) h)
          | inr more ↦ elim (Bool-cases (contains hist zone)) [
            | inl again ↦ rw (more, again) tt
            | inr new ↦ elim (fetched-cases (at zone)) [
              | inl missing ↦ rw (more, new, missing) tt
              | inr (inl (m, error)) ↦ rw (more, new, error) tt
              | inr (inr (z, e)) ↦ elim (Bool-cases z.meta.deleting) [
                | inl gone ↦
                    rw (more, new, e)
                      (if-true _ _ (LoopResult zone parent root) z.meta.deleting gone tt)
                | inr live ↦
                    rw (more, new, e)
                      (if-false _ _ (LoopResult zone parent root) z.meta.deleting live (
                        LoopResult-climb zone parent root z _ e live (
                          root_for_entry_loop-LoopResult fuel z.spec.parent_ref (hist ++ zone ∷ [])
                            _ (first_of_two parent z) (some z) (inr (λ n. cc))
                            (omega (arith, unseen-lt names hist zone (finite zone z e) new)))))
              ]
            ]
          ]
        ]

-- What a search from the key must give: with information, its root is the end of the chain of
-- parents, its parent the zone of the key, and its class and runtime are the root's.
abbrev pub IsRootInfo : (ObjectKey → Fetched HostedZone) → ObjectKey → RootInfo → Type 0
IsRootInfo get n (info r) =
    Chain get n.namespace n.name r.root
    × ((z : HostedZone) × (get n ≡ found z) × (r.parent ≡ some z))
    × (r.class ≡ r.root.spec.class)
    × (r.runtime ≡ r.root.spec.runtime)
IsRootInfo get n (config_problem p) = Unit
IsRootInfo get n (temporary_problem p) = Unit
IsRootInfo get n panicked = ⊥
IsRootInfo get n unfinished = ⊥

LoopResult-IsRootInfo :
    (get : ObjectKey → Fetched HostedZone) (n : ObjectKey) (r : RootInfo)
    → n.name ≢ []
    → LoopResult get n.namespace n.name none none r
    → IsRootInfo get n r
LoopResult-IsRootInfo get n (info r) h (inl (e, same), first, class, runtime) = absurd (h e)
LoopResult-IsRootInfo get n (info r) h (inr chain, inl (e, same), class, runtime) = absurd (h e)
LoopResult-IsRootInfo get n (info r) h (inr chain, inr first, class, runtime) =
    (chain, first, class, runtime)
LoopResult-IsRootInfo get n (config_problem p) h l = tt
LoopResult-IsRootInfo get n (temporary_problem p) h l = tt
LoopResult-IsRootInfo get n panicked h l = l
LoopResult-IsRootInfo get n unfinished h l = l

-- When the zones of the namespace are among finitely many names, and with more fuel than there are
-- such names, the search from a name that is not empty ends, without a panic; and information that
-- it gives is about the root at the end of the chain of parents, also when parents form a cycle.
pub get_root_info_for_entry-IsRootInfo :
    (get : ObjectKey → Fetched HostedZone) (n : ObjectKey) (names : List Text) (fuel : ℕ)
    → ((name : Text) (z : HostedZone)
        → get (record { namespace = n.namespace; name = name }) ≡ found z
        → Any (λ u. u ≡ name) names)
    → n.name ≢ []
    → unseen names [] < fuel
    → IsRootInfo get n (get_root_info_for_entry fuel get n)
unfolding get_root_info_for_entry
get_root_info_for_entry-IsRootInfo get n names fuel finite h lt = LoopResult-IsRootInfo get n _ h (
    root_for_entry_loop-LoopResult get n.namespace names finite fuel n.name [] [] none none (inl h)
      lt)
