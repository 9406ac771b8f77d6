-- ===== src/Zonemodel/Histories.antt =====
-- The zone model over its whole life: any sequence of `AddZone` and `RemoveZone`.
use kubedns.Prelude.{
  nat_eq, length, get_elem?, get_elem?_of_lt, All-lookup, Text, text_eq, ℕ, ◌<◌, ◌≡◌, sym, subst,
  ◌⊎◌, inl, inr, none, some, [], reverse,
}
use kubedns.External.{External, Documented}
use kubedns.Api.{HostedZone}
use kubedns.Zonemodel.Keys.{ZoneKey, key_eq}
use kubedns.Zonemodel.Model.{Zone, Model, new, add_zone, remove_zone, get_zone}
use kubedns.Zonemodel.Model.Ranks.{IsOrdered-IsNested}
use kubedns.Zonemodel.Model.Soundness.{
  IsSound, StaysNested, new-IsSound, add_zone-IsSound, remove_zone-IsSound,
}
use kubedns.Zonemodel.Outcome.{ok, ◌>>=◌}
use kubedns.Zonemodel.Resolve.{Index, Forwarded, answer, matches, resolve_fqdn}
use kubedns.Zonemodel.Resolve.Forwarding.{IsResponsible, Descent}
use kubedns.Zonemodel.Resolve.Walking.{walk_names}
use kubedns.Zonemodel.Resolve.Answers.{resolve_fqdn_lem}

-- One call that returned. A resource never makes a root zone of a nested zone.
pub data Step (x : External) (m m' : Model) : Type 0 where
  added :
      (fuel : ℕ) (s : Text) (key : ZoneKey) (zone : HostedZone) (p : ℕ)
      → StaysNested m key zone
      → add_zone fuel x m s key zone ≡ some (m', p)
      → Step x m m'
  removed : (key : ZoneKey) → m' ≡ remove_zone m key → Step x m m'

pub data Reach (x : External) : Model → Type 0 where
  start : Reach x new
  next : {m m' : Model} → Reach x m → Step x m m' → Reach x m'

Step-IsSound : (x : External) (m m' : Model) → Step x m m' → IsSound m → IsSound m'
Step-IsSound x m m' (added fuel s key zone p stays e) snd =
    add_zone-IsSound fuel x m m' s key zone p snd stays e
Step-IsSound x m m' (removed key e) snd = subst IsSound (sym e) (remove_zone-IsSound m key snd)

-- Every state that such calls lead to satisfies the invariant.
pub Reach-IsSound : {x : External} {m : Model} → Reach x m → IsSound m
Reach-IsSound start = new-IsSound
Reach-IsSound (next r st) = Step-IsSound _ _ _ st (Reach-IsSound r)

-- In every state that calls of `AddZone` and `RemoveZone` lead to, none of which makes a root zone of
-- a nested one, a query at a registered zone ends without a panic, with more fuel than the query is
-- long. Either no name of the zone covers the query and there is no answer. Or the descent that is
-- meant, which takes the covering name off the query and hands the rest to the first child that
-- covers it, leads to a zone none of whose children covers the rest, and the answer is that of the
-- specified walk over the labels of this rest.
pub reachable_resolve :
    (x : External) (d : Documented x) (index : Index) (m : Model) (key : ZoneKey) (p fuel : ℕ)
    (name : Text)
    → Reach x m
    → get_zone m key ≡ some p
    → length (x.fqdn name) < fuel
    → ((z : Zone) × (get_elem? m.heap p ≡ some z)
        × (matches x z (x.fqdn name) ≡ [])
        × (resolve_fqdn fuel x index m.heap p name ≡ ok none))
      ⊎ ((z : Zone) × (f : Forwarded) × (get_elem? m.heap p ≡ some z)
          × IsResponsible x m.heap f
          × Descent x m.heap (matches x z (x.fqdn name)) (x.fqdn name) p [] f
          × (resolve_fqdn fuel x index m.heap p name ≡ (
              walk_names x index f.zone (reverse (x.split_domain_name f.relative)) f.current [] []
              >>= λ w. ok (some (answer f w)))))
unfolding get_zone
reachable_resolve x d index m key p fuel name r e lt =
    let snd = Reach-IsSound r in
    let (z, ez) =
      get_elem?_of_lt m.heap p (All-lookup (λ q. q < length m.heap) key p m.zones snd.entered e) in
    elim (resolve_fqdn_lem x d index fuel m.heap p z name (IsOrdered-IsNested m.heap snd.ordered) ez
      lt) [
        | inl (none_covers, eq) ↦ inl (z, ez, none_covers, eq)
        | inr (f, resp, walk, eq) ↦ inr (z, f, ez, resp, walk, eq)
      ]
