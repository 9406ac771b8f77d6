-- ===== src/Zonemodel/Model/Soundness.antt =====
-- The invariant of the zone model, and that `AddZone` and `RemoveZone` keep it.
use kubedns.Prelude.{
  Bool-cases, Option-cases, nat_eq, ◌==◌, length, get_elem?, set, All, length-append, length-set,
  get_elem?_of_lt, put, All-put, All-remove, All-lookup, Text, text_beq_iff, text_eq, ℕ, zero, suc,
  ◌<◌, ◌≡◌, refl, sym, ◌∙◌, subst, ◌≢◌, inl, inr, Option, none, some, List, [], ◌∷◌, ◌++◌, arith,
}
use kubedns.Api.{HostedZone}
use kubedns.Zonemodel.Keys.{ZoneKey, key_eq}
use kubedns.Zonemodel.Model.{
  Zone, Model, update, new_zone, get_zone, adopt, enter, detach, attach, External, place_zone,
  resource_serial, find_parent, zone_names, propagate, add_zone, remove_zone, new,
}
use kubedns.Zonemodel.Model.Heap.{
  length-update, length-adopt, length-detach, length-attach, All-imp,
}
use kubedns.Zonemodel.Model.Ranks.{
  append-IsOrdered, new_zone-not-IsRanked, IsRanked, IsOrdered, adopt-IsOrdered, SameRanks-adopt,
  update-IsOrdered, detach-IsOrdered, SameRanks-update, SameRanks-detach,
}
use kubedns.Zonemodel.Model.Placement.{
  described, describe_root, describe_nested, zone_names-IsRelative, attach-Children,
  attach-NamesFit,
}

-- The heap is ordered, and the entries of `zones` point into it.
pub record IsSound (m : Model) : Type 0 where
  pub ordered : IsOrdered m.heap
  pub entered : All (λ e. e.1 < length m.heap) m.zones

-- The resource does not make a root zone of a zone that the model holds as a nested one.
abbrev pub StaysNested : Model → ZoneKey → HostedZone → Type 0
StaysNested m key zone =
    (p : ℕ) → get_zone m key ≡ some p → zone.spec.parent_ref ≡ [] → ¬ IsRanked m.heap p

-- What holds once `AddZone` has the pointer of its zone.
record Entered (zone : HostedZone) (r : Model × ℕ) : Type 0 where
  sound : IsSound (r.0)
  valid : r.1 < length (r.0).heap
  stays : zone.spec.parent_ref ≡ [] → ¬ IsRanked (r.0).heap r.1

enter-Entered :
    (m : Model) (s : Text) (key : ZoneKey) (zone : HostedZone)
    → IsSound m
    → StaysNested m key zone
    → Entered zone (enter m s key)
unfolding enter
enter-Entered m s key zone snd stays = elim (Option-cases (get_zone m key)) [
  | inr (p, e) ↦
      rw (e, enter)
        (record {
          sound = snd;
          valid =
              All-lookup (λ q. q < length m.heap) key p m.zones snd.entered (unfold get_zone in e);
          stays = stays p e;
        })
  | inl e ↦
      let fresh = length m.heap in
      let zones = put key fresh m.zones in
      let h = m.heap ++ new_zone s key ∷ [] in
      let longer : length (adopt key fresh zones h) ≡ suc fresh =
        omega (arith, length-adopt key fresh zones h, length-append m.heap (new_zone s key ∷ [])) in
      rw (e, enter)
        (record {
          sound = record {
            ordered = adopt-IsOrdered key fresh zones h (append-IsOrdered m.heap s key snd.ordered);
            entered =
                All-put _ key fresh m.zones (λ j. omega (arith, longer))
                  (All-imp _ _ m.zones (λ c lt. omega (arith, longer)) snd.entered);
          };
          valid = omega (arith, longer);
          stays = λ root r.
              new_zone-not-IsRanked m.heap s key (SameRanks-adopt key fresh zones h fresh r);
        })
]

-- The rest of `AddZone` before its last loop.
place_rest-IsOrdered :
    (x : External) (s : Text) (zone : HostedZone) (zones : List (ZoneKey × ℕ)) (h : List Zone)
    (old : ℕ)
    → IsOrdered h
    → old < length h
    → (zone.spec.parent_ref ≡ [] → ¬ IsRanked h old)
    → IsOrdered (
        update old
          (described (find_parent x s zone zones) zone.spec.parent_ref (zone_names x zone))
          (attach x s zone old (find_parent x s zone zones) h))
place_rest-IsOrdered x s zone zones h old o lt stays =
    elim (Bool-cases (zone.spec.parent_ref == [])) [
      | inl is_root ↦
          let root = (text_beq_iff zone.spec.parent_ref []).0 is_root in
          let no_parent : find_parent x s zone zones ≡ none = unfold find_parent in rw is_root in
          rw no_parent (
            describe_root old none zone.spec.parent_ref (zone_names x zone)
              (attach x s zone old none h) root (unfold attach in stays root) (unfold attach in o))
      | inr is_nested ↦
          let ne : zone.spec.parent_ref ≢ [] =
            λ e. cc ((text_beq_iff zone.spec.parent_ref []).1 e) in
          let parent = find_parent x s zone zones in
          let (w, ew) =
            get_elem?_of_lt (attach x s zone old parent h) old
              (omega (arith, length-attach x s zone old parent h)) in
          describe_nested old parent zone.spec.parent_ref (zone_names x zone)
            (attach x s zone old parent h) w ew ne (zone_names-IsRelative x zone ne)
            (attach-Children x s zone old parent h o)
            (attach-NamesFit x s zone old parent h o.fitting)
    ]

place_zone-IsSound :
    (x : External) (m : Model) (s : Text) (key : ZoneKey) (zone : HostedZone)
    → IsSound m
    → StaysNested m key zone
    → IsSound ((place_zone x m s key zone).0)
unfolding place_zone
place_zone-IsSound x m s key zone snd stays =
    let e = enter-Entered m s key zone snd stays in
    let (m1, old) = enter m s key in
    let serial = resource_serial zone.meta.resource_version in
    let set_serial = λ (o : Zone). record o { serial_id = serial } in
    let h1 = update old set_serial m1.heap in
    let h2 = detach old zone h1 in
    let parent = find_parent x s zone m1.zones in
    let o1 =
      update-IsOrdered old set_serial m1.heap (λ z. refl) (λ z. refl) (λ z k. k) e.sound.ordered in
    let o2 = detach-IsOrdered old zone h1 o1 in
    let same : length h2 ≡ length m1.heap =
      length-detach old zone h1 ∙ length-update old set_serial m1.heap in
    let total : length (
          update old (described parent zone.spec.parent_ref (zone_names x zone))
            (attach x s zone old parent h2))
        ≡ length m1.heap =
      length-update old _ _ ∙ length-attach x s zone old parent h2 ∙ same in
    record {
      ordered =
          place_rest-IsOrdered x s zone m1.zones h2 old o2 (omega (arith, e.valid, same)) (λ root r.
            e.stays root (
              SameRanks-update old set_serial m1.heap (λ z. refl) old
                (SameRanks-detach old zone h1 old r)));
      entered = subst (λ n. All (λ c. c.1 < n) m1.zones) (sym total) e.sound.entered;
    }

propagate-IsOrdered :
    (fuel serial : ℕ) (o : Option ℕ) (h k : List Zone)
    → IsOrdered h
    → propagate fuel serial o h ≡ some k
    → IsOrdered k × (length k ≡ length h)
unfolding propagate update
propagate-IsOrdered zero serial none h k ord e =
    let same : h ≡ k = cc in (subst IsOrdered same ord, cc)
propagate-IsOrdered zero serial (some p) h k ord e = cc
propagate-IsOrdered (suc f) serial none h k ord e =
    let same : h ≡ k = cc in (subst IsOrdered same ord, cc)
propagate-IsOrdered (suc f) serial (some p) h k ord e = elim (Option-cases (get_elem? h p)) [
  | inl gone ↦ cc (rw (gone, propagate) at e)
  | inr (z, here) ↦
      let set_serial = λ (c : Zone). record c { serial_id = serial } in
      let written : update p set_serial h ≡ set h p (set_serial z) = rw (here, update) in
      let ord' : IsOrdered (set h p (set_serial z)) =
        subst IsOrdered written
          (update-IsOrdered p set_serial h (λ z. refl) (λ z. refl) (λ z kids. kids) ord) in
      let (done, len) =
        propagate-IsOrdered f serial z.parent (set h p (set_serial z)) k ord'
          (rw (here, propagate) at e) in
      (done, len ∙ length-set h p (set_serial z))
]

-- `AddZone` keeps the invariant, unless the resource makes a root zone of a nested one.
pub add_zone-IsSound :
    (fuel : ℕ) (x : External) (m m' : Model) (s : Text) (key : ZoneKey) (zone : HostedZone) (p : ℕ)
    → IsSound m
    → StaysNested m key zone
    → add_zone fuel x m s key zone ≡ some (m', p)
    → IsSound m'
unfolding add_zone
add_zone-IsSound fuel x m m' s key zone p snd stays e =
    let placed = place_zone-IsSound x m s key zone snd stays in
    let (m1, old, parent) = place_zone x m s key zone in
    elim (Option-cases
      (propagate fuel (resource_serial zone.meta.resource_version) parent m1.heap)) [
        | inl out ↦ cc (rw (out, add_zone) at e)
        | inr (h, done) ↦
            let (ord, len) =
              propagate-IsOrdered fuel (resource_serial zone.meta.resource_version) parent m1.heap h
                placed.ordered done in
            let same : record m1 { heap = h } ≡ m' = cc (rw (done, add_zone) at e) in
            subst IsSound same (record {
              ordered = ord;
              entered = subst (λ n. All (λ c. c.1 < n) m1.zones) (sym len) placed.entered;
            })
      ]

pub remove_zone-IsSound : (m : Model) (key : ZoneKey) → IsSound m → IsSound (remove_zone m key)
unfolding remove_zone
remove_zone-IsSound m key snd = record {
  ordered = snd.ordered;
  entered = All-remove _ key m.zones snd.entered;
}

pub new-IsSound : IsSound new
unfolding new
new-IsSound = record { ordered = record { ranked = tt; fitting = tt }; entered = tt }
