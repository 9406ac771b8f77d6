-- ===== src/Direct/Deployment/Removing/Deleting.antt =====
-- The loops over manifests: without a problem, each of them is deleted or was missing.
use kubedns.Prelude.{
  All, Any, Text, ◌≡◌, refl, ◌⊎◌, inl, inr, Bool, true, false, Option, none, some, List, [], ◌∷◌,
}
use kubedns.Common.Calls.{
  Ended, Holds, >>=-Holds, Holds-weaken, ignore_not_found, temporary_problem,
}
use kubedns.Common.Cluster.{Fetched, found, not_found, get_error, Problem}
use kubedns.Direct.Deployment.{
  State, Event, Side, dataplane, runtime, Decoded, deleted_object, got_object,
}
use kubedns.Direct.Deployment.Modes.{Values}
use kubedns.Direct.Deployment.Modes.Describing.{IsOfZone}
use kubedns.Direct.Deployment.Manifests.{Deployer, Manifests}
use kubedns.Direct.Deployment.Removing.{
  delete_found, delete_decoded, delete_manifest, delete_manifests, delete_if,
}
use kubedns.Direct.Deployment.Growth.{Extends, Extends-refl, Extends-trans, Any-Extends}

abbrev pub no_problem : Option Problem
no_problem = none

module _ (d : Deployer) where
  -- A call that shows that what a manifest is about is gone, or will be: the deletion was
  -- accepted or found nothing, or there was nothing to delete.
  abbrev pub IsRemoved : Side → Text → Event → Type 0
  IsRemoved side doc (deleted_object at m a) =
      (at ≡ side) × (m ≡ doc) × (temporary_problem (ignore_not_found a) ≡ none)
  IsRemoved side doc (got_object at k not_found) =
      (at ≡ side) × ((o : Decoded) × (d.decode doc ≡ inr o) × (k ≡ o.key))
  IsRemoved side doc e = ⊥

  abbrev pub Removed : Side → List Event → Text × Text → Type 0
  Removed side es m = Any (IsRemoved side m.1) es

  -- All manifests that are rendered for the values of the zone are removed.
  abbrev pub AllRemoved : List Event → Type 0
  AllRemoved es =
      (v : Values) × IsOfZone d.clusters d.mode_options d.mode d.key v
      × (data_ms : Manifests) × (run_ms : Manifests) × (d.render d.manifests (some v)
          ≡ inr (data_ms, run_ms))
      × All (Removed runtime es) run_ms
      × All (Removed dataplane es) data_ms

  abbrev pub Deletes : Side → Text → State → Ended (Option Problem) × State → Type 0
  Deletes side doc s =
      Holds (λ p t. Extends s t × (p ≡ none → Any (IsRemoved side doc) t.events)) (λ e t. ⊥)

  delete_found-Deletes :
      (side : Side) (doc : Text) (o : Decoded) (f : Fetched Bool) (s : State)
      → d.decode doc ≡ inr o
      → Deletes side doc s
          (delete_found d side doc f (record s { events = got_object side o.key f ∷ s.events }))
  unfolding delete_found
  delete_found-Deletes side doc o not_found s e =
      ((refl, (got_object side o.key not_found ∷ [], refl)), λ q. inl (refl, (o, e, refl)))
  delete_found-Deletes side doc o (get_error m) s e =
      ((refl, (got_object side o.key (get_error m) ∷ [], refl)), λ q. absurd (cc q))
  delete_found-Deletes side doc o (found true) s e =
      ((refl, (got_object side o.key (found true) ∷ [], refl)), λ q. absurd (cc q))
  delete_found-Deletes side doc o (found false) s e =
      let log = got_object side o.key (found false) ∷ s.events in
      (
        (
          refl,
          (
            deleted_object side doc (d.clusters.delete_object log side doc)
                ∷ got_object side o.key (found false)
                ∷ [],
            refl,
          ),
        ),
        λ q. inl (refl, refl, q),
      )

  delete_decoded-Deletes :
      (side : Side) (doc : Text) (r : Text ⊎ Decoded) (s : State)
      → d.decode doc ≡ r
      → Deletes side doc s (delete_decoded d side doc r s)
  unfolding delete_decoded
  delete_decoded-Deletes side doc (inl m) s e = (Extends-refl s, λ q. absurd (cc q))
  delete_decoded-Deletes side doc (inr o) s e =
      delete_found-Deletes side doc o (d.clusters.get_object s.events side o.key) s e

  pub delete_manifest-Deletes :
      (side : Side) (doc : Text) (s : State) → Deletes side doc s (delete_manifest d side doc s)
  unfolding delete_manifest
  delete_manifest-Deletes side doc s = delete_decoded-Deletes side doc (d.decode doc) s refl

  pub Removed-Extends :
      (side : Side) (s t : State) (ms : Manifests)
      → Extends s t
      → All (Removed side s.events) ms
      → All (Removed side t.events) ms
  Removed-Extends side s t [] x h = tt
  Removed-Extends side s t (m ∷ ms) x (h, k) =
      (Any-Extends (IsRemoved side m.1) s t x h, Removed-Extends side s t ms x k)

  module _
      (aggregate_lem : (p q : Option Problem)
        → d.aggregate p q ≡ none
        → (p ≡ none) × (q ≡ none)) where
    abbrev pub DeletesAll :
        Side → Manifests → Option Problem → State → Ended (Option Problem) × State → Type 0
    DeletesAll side ms prob s =
        Holds (λ p t. Extends s t × (p ≡ none → (prob ≡ none) × All (Removed side t.events) ms))
          (λ e t. ⊥)

    pub delete_manifests-DeletesAll :
        (side : Side) (ms : Manifests) (prob : Option Problem) (s : State)
        → DeletesAll side ms prob s (delete_manifests d side ms prob s)
    unfolding delete_manifests
    delete_manifests-DeletesAll side [] prob s = (Extends-refl s, λ q. (q, tt))
    delete_manifests-DeletesAll side ((n, doc) ∷ ms) prob s =
        >>=-Holds (λ p t. Extends s t × (p ≡ none → Any (IsRemoved side doc) t.events))
          (λ p t.
            Extends s t × (p ≡ none → (prob ≡ none) × All (Removed side t.events) ((n, doc) ∷ ms)))
          (λ e t. ⊥) (delete_manifest d side doc)
          (λ p. delete_manifests d side ms (d.aggregate prob p)) s
          (delete_manifest-Deletes side doc s)
          (λ p t h.
            Holds-weaken
              (λ q u.
                Extends t u
                × (q ≡ none → (d.aggregate prob p ≡ none) × All (Removed side u.events) ms))
              (λ q u.
                Extends s u
                × (q ≡ none → (prob ≡ none) × All (Removed side u.events) ((n, doc) ∷ ms)))
              (λ e u. ⊥) (λ e u. ⊥) (delete_manifests d side ms (d.aggregate prob p) t)
              (λ q u k. (
                Extends-trans s t u h.0 k.0,
                λ e.
                    let both = aggregate_lem prob p (k.1 e).0 in
                    (both.0, (Any-Extends (IsRemoved side doc) t u k.0 (h.1 both.1), (k.1 e).1)),
              ))
              (λ e u k. k) (delete_manifests-DeletesAll side ms (d.aggregate prob p) t))

    pub delete_if-Extends :
        (b : Bool) (side : Side) (ms : Manifests) (prob : Option Problem) (s : State)
        → Holds (λ p t. Extends s t) (λ e t. ⊥) (delete_if d b side ms prob s)
    unfolding delete_if
    delete_if-Extends false side ms prob s = Extends-refl s
    delete_if-Extends true side ms prob s =
        Holds-weaken
          (λ p t. Extends s t × (p ≡ none → (prob ≡ none) × All (Removed side t.events) ms))
          (λ p t. Extends s t) (λ e t. ⊥) (λ e t. ⊥) (delete_manifests d side ms prob s)
          (λ p t h. h.0) (λ e t h. h) (delete_manifests-DeletesAll side ms prob s)
