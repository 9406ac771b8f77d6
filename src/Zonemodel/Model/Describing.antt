-- ===== src/Zonemodel/Model/Describing.antt =====
-- What `AddZone` leaves in the zone of its key.
use kubedns.Prelude.{
  nat_beq, nat_beq_iff, Bool-cases, Option-cases, ◌==◌, nat_eq, length, get_elem?, get_elem?_of_lt,
  get_elem?-set, set, length-append, put, All-lookup, Text, text_beq_iff, text_eq, ℕ, zero, suc,
  ◌<◌, ◌≡◌, refl, sym, ◌∙◌, subst, ◌≢◌, inl, inr, true, Option, none, some, List, [], ◌∷◌, ◌++◌,
  map, arith,
}
use kubedns.External.{External}
use kubedns.Api.{HostedZone}
use kubedns.Zonemodel.Names.{rdn}
use kubedns.Zonemodel.Keys.{ZoneKey, key_eq}
use kubedns.Zonemodel.Model.{
  Zone, Model, update, new_zone, get_zone, enter, detach, attach, find_parent, zone_names,
  resource_serial, place_zone, place_entered, propagate, add_zone,
}
use kubedns.Zonemodel.Model.Heap.{
  get_elem?-update, length-update, length-adopt, length-detach, length-attach,
}
use kubedns.Zonemodel.Model.Soundness.{IsSound}
use kubedns.Zonemodel.Model.Placement.{described}

-- The zone carries what the resource says: the name of the parent, and the domain names, fully
-- qualified for a root zone and relative for a nested one.
pub record IsDescribed (x : External) (o : HostedZone) (z : Zone) : Type 0 where
  pub parent : z.parent_name ≡ o.spec.parent_ref
  pub root_names : o.spec.parent_ref ≡ [] → z.names ≡ map x.fqdn o.spec.domain_names
  pub nested_names : o.spec.parent_ref ≢ [] → z.names ≡ map rdn o.spec.domain_names

module _ (x : External) (o : HostedZone) where
  -- The pointer leads to such a zone.
  abbrev pub LeadsToIt : List Zone → ℕ → Type 0
  LeadsToIt h p = (z : Zone) × (get_elem? h p ≡ some z) × IsDescribed x o z

  described-IsDescribed :
      (parent : Option ℕ) (z : Zone)
      → IsDescribed x o (described parent o.spec.parent_ref (zone_names x o) z)
  unfolding zone_names
  described-IsDescribed parent z = record {
    parent = refl;
    root_names = λ e. rw ((text_beq_iff o.spec.parent_ref []).1 e) refl;
    nested_names = λ ne. elim (Bool-cases (o.spec.parent_ref == [])) [
      | inl root ↦ absurd (ne ((text_beq_iff o.spec.parent_ref []).0 root))
      | inr nested ↦ rw nested refl
    ];
  }

  set-LeadsToIt :
      (h : List Zone) (q p serial : ℕ) (w : Zone)
      → get_elem? h q ≡ some w
      → LeadsToIt h p
      → LeadsToIt (set h q (record w { serial_id = serial })) p
  set-LeadsToIt h q p serial w ew (z, e, is) =
      let there = get_elem?-set h q p (record w { serial_id = serial }) w ew in
      elim (Bool-cases (nat_beq q p)) [
        | inl same ↦
            let eq : q ≡ p = (nat_beq_iff q p).0 same in
            let zw : z ≡ w = cc (sym e ∙ subst (λ i. get_elem? h i ≡ some w) eq ew) in
            (
              record w { serial_id = serial },
              there ∙ rw same refl,
              subst (λ (v : Zone). IsDescribed x o (record v { serial_id = serial })) zw
                  (record {
                    parent = is.parent;
                    root_names = is.root_names;
                    nested_names = is.nested_names;
                  }),
            )
        | inr other ↦ (z, there ∙ rw other e, is)
      ]

  propagate-LeadsToIt :
      (fuel serial : ℕ) (parent : Option ℕ) (h k : List Zone) (p : ℕ)
      → LeadsToIt h p
      → propagate fuel serial parent h ≡ some k
      → LeadsToIt k p
  unfolding propagate
  propagate-LeadsToIt zero serial none h k p l e = subst (λ g. LeadsToIt g p) (cc e) l
  propagate-LeadsToIt zero serial (some q) h k p l e = absurd (cc e)
  propagate-LeadsToIt (suc f) serial none h k p l e = subst (λ g. LeadsToIt g p) (cc e) l
  propagate-LeadsToIt (suc f) serial (some q) h k p l e = elim (Option-cases (get_elem? h q)) [
    | inl gone ↦ cc (rw (gone, propagate) at e)
    | inr (w, here) ↦
        propagate-LeadsToIt f serial w.parent (set h q (record w { serial_id = serial })) k p
          (set-LeadsToIt h q p serial w here l) (rw (here, propagate) at e)
  ]

  update-LeadsToIt :
      (parent : Option ℕ) (h : List Zone) (p : ℕ)
      → p < length h
      → LeadsToIt (update p (described parent o.spec.parent_ref (zone_names x o)) h) p
  update-LeadsToIt parent h p lt =
      let (w, e) = get_elem?_of_lt h p lt in
      let f = described parent o.spec.parent_ref (zone_names x o) in
      let self : nat_beq p p ≡ true = (nat_beq_iff p p).1 refl in
      (f w, get_elem?-update p p f h ∙ rw (self, e) refl, described-IsDescribed parent w)

  -- The pointer that `AddZone` works on is valid.
  enter_valid :
      (m : Model) (s : Text) (key : ZoneKey)
      → IsSound m
      → (enter m s key).1 < length ((enter m s key).0).heap
  unfolding enter
  enter_valid m s key snd = elim (Option-cases (get_zone m key)) [
    | inr (p, e) ↦
        rw (e, enter)
          (All-lookup (λ q. q < length m.heap) key p m.zones snd.entered (unfold get_zone in e))
    | inl e ↦
        let fresh = length m.heap in
        let h = m.heap ++ new_zone s key ∷ [] in
        rw (e, enter)
          (omega (
            arith,
            length-adopt key fresh (put key fresh m.zones) h,
            length-append m.heap (new_zone s key ∷ []),
          ))
  ]

  place_zone-LeadsToIt :
      (m : Model) (s : Text) (key : ZoneKey)
      → IsSound m
      → LeadsToIt ((place_zone x m s key o).0).heap (place_zone x m s key o).1
  unfolding place_zone place_entered
  place_zone-LeadsToIt m s key snd =
      let valid = enter_valid m s key snd in
      let (m1, old) = enter m s key in
      let serial = resource_serial o.meta.resource_version in
      let h1 = update old (λ (z : Zone). record z { serial_id = serial }) m1.heap in
      let parent = find_parent x s o m1.zones in
      update-LeadsToIt parent (attach x s o old parent (detach old o h1)) old (
        omega (
          arith,
          valid,
          length-attach x s o old parent (detach old o h1),
          length-detach old o h1,
          length-update old (λ (z : Zone). record z { serial_id = serial }) m1.heap,
        ))

  -- After `AddZone` the pointer that it returns leads to a zone that carries what the resource says.
  pub add_zone-LeadsToIt :
      (fuel : ℕ) (m m' : Model) (s : Text) (key : ZoneKey) (p : ℕ)
      → IsSound m
      → add_zone fuel x m s key o ≡ some (m', p)
      → LeadsToIt m'.heap p
  unfolding add_zone
  add_zone-LeadsToIt fuel m m' s key p snd e =
      let placed = place_zone-LeadsToIt m s key snd in
      let (m1, old, parent) = place_zone x m s key o in
      let serial = resource_serial o.meta.resource_version in
      elim (Option-cases (propagate fuel serial parent m1.heap)) [
        | inl out ↦ cc (rw (out, add_zone) at e)
        | inr (k, done) ↦
            let same : some (record m1 { heap = k }, old) ≡ some (m', p) =
              rw (done, add_zone) at e in
            let heaps : k ≡ m'.heap = cc same in
            let pointer : old ≡ p = cc same in
            rw (← heaps, ← pointer)
              (propagate-LeadsToIt fuel serial parent m1.heap k old placed done)
      ]
