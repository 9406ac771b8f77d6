-- ===== src/Zonemodel/Model/Termination.antt =====
-- When `AddZone` returns at all, and what the registry says afterwards.
use kubedns.Prelude.{
  nat_beq, if◌then◌else◌, nat_beq_iff, Option-cases, ◌==◌, nat_eq, get_elem?, lookup-remove, Text,
  text_eq, ℕ, zero, suc, ◌≡◌, refl, sym, ap, ◌∙◌, subst, ◌↔◌, inl, inr, Option, none, some, List,
  arith,
}
use kubedns.External.{External}
use kubedns.Api.{HostedZone}
use kubedns.Zonemodel.Keys.{ZoneKey, key_eq}
use kubedns.Zonemodel.Model.{
  Zone, Model, update, propagate, place_zone, add_zone, resource_serial, detach, attach, enter,
  get_zone, find_parent, place_entered, zone_names, remove_zone,
}
use kubedns.Zonemodel.Model.Heap.{get_elem?-update, detach_cases}
use kubedns.Zonemodel.Model.Placement.{described}
use kubedns.Zonemodel.Model.Propagation.{SameParents, ChainEnds, propagate_ends, parent_of}

-- `AddZone` returns within the fuel if and only if the chain of parents, as it stands once the zone
-- is placed, ends within the fuel.
pub add_zone_returns :
    (fuel : ℕ) (x : External) (m : Model) (s : Text) (key : ZoneKey) (zone : HostedZone)
    → let placed = place_zone x m s key zone in
      ChainEnds fuel placed.0.heap placed.2
      ↔ ((m' : Model) × (p : ℕ) × (add_zone fuel x m s key zone ≡ some (m', p)))
unfolding add_zone
add_zone_returns fuel x m s key zone =
    let placed = place_zone x m s key zone in
    let serial = resource_serial zone.meta.resource_version in
    let (there, back) = propagate_ends fuel serial placed.2 placed.0.heap in
    (
      (λ c. let (k, e) = there c in (record placed.0 { heap = k }, placed.1, rw (e, add_zone))),
      λ (m', p, e). elim (Option-cases (propagate fuel serial placed.2 placed.0.heap)) [
        | inl out ↦ cc (rw (out, add_zone) at e)
        | inr (k, done) ↦ back (k, done)
      ],
    )

update-SameParents :
    (p : ℕ) (f : Zone → Zone) (h : List Zone)
    → ((z : Zone) → (f z).parent ≡ z.parent)
    → SameParents h (update p f h)
update-SameParents p f h keep q = elim (Option-cases (get_elem? h q)) [
  | inl e ↦ ground (arith, get_elem?-update p q f h, e)
  | inr (z, e) ↦ ground (arith, get_elem?-update p q f h, e, keep z)
]

SameParents-detach :
    (old : ℕ) (zone : HostedZone) (h : List Zone) → SameParents h (detach old zone h)
SameParents-detach old zone h =
    detach_cases (SameParents h) old zone h (λ q. refl) λ p. update-SameParents p _ h (λ z. refl)

SameParents-attach :
    (x : External) (s : Text) (zone : HostedZone) (old : ℕ) (parent : Option ℕ) (h : List Zone)
    → SameParents h (attach x s zone old parent h)
unfolding attach
SameParents-attach x s zone old none h = λ q. refl
SameParents-attach x s zone old (some p) h = update-SameParents p _ h (λ z. refl)

-- Two zones that are each other's parent.
cycle-not-ChainEnds :
    (n : ℕ) (h : List Zone) (p q : ℕ)
    → parent_of (get_elem? h p) ≡ some (some q)
    → parent_of (get_elem? h q) ≡ some (some p)
    → ¬ ChainEnds n h (some p)
cycle-not-ChainEnds zero h p q ep eq c = c
cycle-not-ChainEnds (suc n) h p q ep eq (o, e, c) =
    let next : o ≡ some q = cc in cycle-not-ChainEnds n h q p eq ep (subst (ChainEnds n h) next c)

-- The parents after the parent of the zone at `p` was written.
written-parent :
    (p q : ℕ) (f : Zone → Zone) (pa : Option ℕ) (h : List Zone) (o : Option ℕ)
    → ((z : Zone) → (f z).parent ≡ pa)
    → parent_of (get_elem? h p) ≡ some o
    → parent_of (get_elem? (update p f h) q)
      ≡ (if nat_beq p q then some pa else parent_of (get_elem? h q))
written-parent p q f pa h o writes e = elim (Option-cases (get_elem? h p)) [
  | inl gone ↦ cc (ap parent_of gone)
  | inr (z, here) ↦ ground (arith, get_elem?-update p q f h, nat_beq_iff p q, here, writes z)
]

enter_known :
    (m : Model) (s : Text) (key : ZoneKey) (p : ℕ)
    → get_zone m key ≡ some p
    → enter m s key ≡ (m, p)
unfolding enter
enter_known m s key p e = rw (e, enter)

-- The parents of the heap on which the last loop of `AddZone` runs, for the zone at `p`.
placed-parents :
    (x : External) (m : Model) (s : Text) (zone : HostedZone) (p c : ℕ) (z : Zone)
    → get_elem? m.heap p ≡ some z
    → find_parent x s zone m.zones ≡ some c
    → parent_of (get_elem? m.heap c) ≡ some (some p)
    → let placed = place_entered x s zone (m, p) in
      (parent_of (get_elem? placed.0.heap p) ≡ some (some c))
      × (parent_of (get_elem? placed.0.heap c) ≡ some (some p))
unfolding place_entered
placed-parents x m s zone p c z ez ec ep =
    let serial = resource_serial zone.meta.resource_version in
    let h1 = update p (λ o. record o { serial_id = serial }) m.heap in
    let h2 = detach p zone h1 in
    let h3 = attach x s zone p (find_parent x s zone m.zones) h2 in
    let same : SameParents m.heap h3 = λ q.
      update-SameParents p (λ o. record o { serial_id = serial }) m.heap (λ z. refl) q
      ∙ SameParents-detach p zone h1 q
      ∙ SameParents-attach x s zone p (find_parent x s zone m.zones) h2 q in
    let parent = find_parent x s zone m.zones in
    let there : parent_of (get_elem? h3 p) ≡ some z.parent = sym (same p) ∙ ap parent_of ez in
    let write = λ (q : ℕ).
      written-parent p q (described parent zone.spec.parent_ref (zone_names x zone)) parent h3
        z.parent (λ z. refl) there in
    (
      ground (arith, write p, ec, nat_beq_iff p p),
      ground (arith, write c, ec, ep, same c, nat_beq_iff p c),
    )

-- If the new parent of a zone is a zone whose own parent is the zone, `AddZone` never returns: no
-- number of rounds ends its last loop.
pub add_zone_cycle :
    (fuel : ℕ) (x : External) (m : Model) (s : Text) (key : ZoneKey) (zone : HostedZone) (p c : ℕ)
    (z w : Zone)
    → get_zone m key ≡ some p
    → get_elem? m.heap p ≡ some z
    → find_parent x s zone m.zones ≡ some c
    → get_elem? m.heap c ≡ some w
    → w.parent ≡ some p
    → add_zone fuel x m s key zone ≡ none
unfolding place_zone place_entered
add_zone_cycle fuel x m s key zone p c z w e ez ec ew ep =
    let (at_p, at_c) = placed-parents x m s zone p c z ez ec (ap parent_of ew ∙ ap some ep) in
    let placed = place_entered x s zone (m, p) in
    let known : place_zone x m s key zone ≡ placed =
      ap (place_entered x s zone) (enter_known m s key p e) in
    elim (Option-cases (add_zone fuel x m s key zone)) [
      | inl none_left ↦ none_left
      | inr ((m', q), returned) ↦
          let chain = (add_zone_returns fuel x m s key zone).1 (m', q, returned) in
          let chain' : ChainEnds fuel placed.0.heap (some c) =
            subst (ChainEnds fuel placed.0.heap) ec
              (subst (λ r. ChainEnds fuel r.0.heap r.2) known chain) in
          absurd (cycle-not-ChainEnds fuel placed.0.heap c p at_c at_p chain')
    ]

-- The registry after a removal: the key is gone and every other key is as before.
pub get_zone-remove_zone :
    (m : Model) (key other : ZoneKey)
    → get_zone (remove_zone m key) other ≡ (if key == other then none else get_zone m other)
unfolding get_zone remove_zone
get_zone-remove_zone m key other = lookup-remove key other m.zones
