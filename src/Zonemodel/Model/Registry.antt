-- ===== src/Zonemodel/Model/Registry.antt =====
-- What the model holds after `AddZone` has returned.
use kubedns.Prelude.{
  if◌then◌else◌, nat_beq_iff, Bool-cases, Option-cases, ◌==◌, nat_eq, length, get_elem?, lookup,
  put, lookup-put, Text, text_beq_iff, text_eq, ℕ, ◌≡◌, ap, ◌∙◌, subst, inl, inr, some, List, arith,
}
use kubedns.External.{External}
use kubedns.Api.{HostedZone}
use kubedns.Zonemodel.Keys.{ZoneKey, key_eq, key_beq_iff}
use kubedns.Zonemodel.Model.{
  Zone, Model, update, get_zone, enter, attach, propagate, place_entered, place_zone, add_zone,
  resource_serial, parent_key,
}
use kubedns.Zonemodel.Model.Heap.{get_elem?-update}

enter-registers :
    (m : Model) (s : Text) (key other : ZoneKey)
    → get_zone (enter m s key).0 other
      ≡ (if key == other then some (enter m s key).1 else get_zone m other)
unfolding enter get_zone
enter-registers m s key other = elim (Option-cases (lookup key m.zones)) [
  | inl e ↦ rw (e, enter) (lookup-put key other (length m.heap) m.zones)
  | inr (p, e) ↦
      rw (e, enter)
        (elim (Bool-cases (key == other)) [
          | inl same ↦
              rw same (subst (λ k. lookup k m.zones ≡ some p) ((key_beq_iff key other).0 same) e)
          | inr else_ ↦ rw else_
        ])
]

-- After `AddZone` the key leads to the zone that it returned, and every other key leads where it
-- led before.
pub get_zone-add_zone :
    (fuel : ℕ) (x : External) (m m' : Model) (s : Text) (key other : ZoneKey) (zone : HostedZone)
    (p : ℕ)
    → add_zone fuel x m s key zone ≡ some (m', p)
    → get_zone m' other ≡ (if key == other then some p else get_zone m other)
unfolding add_zone place_zone place_entered get_zone
get_zone-add_zone fuel x m m' s key other zone p e =
    let placed = place_zone x m s key zone in
    elim (Option-cases
      (propagate fuel (resource_serial zone.meta.resource_version) placed.2 placed.0.heap)) [
        | inl out ↦ cc (rw (out, add_zone) at e)
        | inr (k, done) ↦
            let same : some (record placed.0 { heap = k }, placed.1) ≡ some (m', p) =
              rw (done, add_zone) at e in
            let zones : placed.0.zones ≡ m'.zones = cc same in
            let pointer : placed.1 ≡ p = cc same in
            rw (← zones, ← pointer) (enter-registers m s key other)
      ]

-- When two resources that name the same parent are attached to the zone at `q`, only the second is
-- among its children, under the parent's own name; every other child is as before.
pub attach_twice :
    (x : External) (s : Text) (first second : HostedZone) (p1 p2 q : ℕ) (h : List Zone) (z : Zone)
    → get_elem? h q ≡ some z
    → parent_key x s first ≡ parent_key x s second
    → (w : Zone) × (get_elem? (attach x s second p2 (some q) (attach x s first p1 (some q) h)) q
        ≡ some w)
      × ((j : Text)
          → lookup j w.children
            ≡ (if (parent_key x s second).name == j then some p2 else lookup j z.children))
unfolding attach
attach_twice x s first second p1 p2 q h z e same =
    let k1 = (parent_key x s first).name in
    let k2 = (parent_key x s second).name in
    let names : k1 ≡ k2 = ap (λ k. k.name) same in
    let c1 = put k1 p1 z.children in
    (
      record z { children = put k2 p2 c1 },
      ground (
        arith,
        get_elem?-update q q (λ u. record u { children = put k1 p1 u.children }) h,
        get_elem?-update q q (λ u. record u { children = put k2 p2 u.children })
            (update q (λ u. record u { children = put k1 p1 u.children }) h),
        nat_beq_iff q q,
        e,
      ),
      λ j.
          lookup-put k2 j p2 c1
          ∙ ground
              (arith, lookup-put k1 j p1 z.children, text_beq_iff k1 j, text_beq_iff k2 j, names),
    )
