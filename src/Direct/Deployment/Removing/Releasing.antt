-- ===== src/Direct/Deployment/Removing/Releasing.antt =====
-- A zone is released only when everything that was deployed for it is deleted.
use kubedns.Prelude.{
  nat_eq, text_eq, ◌≡◌, refl, ap, ◌⊎◌, inl, inr, Bool, true, false, Option, none, some, [], ◌∷◌,
}
use kubedns.Api.{ObjectMeta, HostedZone}
use kubedns.Common.Calls.{
  gets, return_problem, ◌>>=◌, ◌>>=◌, Ended, value, returns, panicked, unfinished, Holds, >>=-Holds,
  Holds-weaken, caught, caught-Holds, return, return_problem, CallError, return,
}
use kubedns.Common.Cluster.{Problem, contains}
use kubedns.Direct.Deployment.{State, patched}
use kubedns.Direct.Deployment.Manifests.{Deployer}
use kubedns.Direct.Deployment.Removing.{
  delete_external_resources, return_error, patch_if, release, delete_then_release, delete_of,
  delete,
}
use kubedns.Direct.Deployment.Growth.{meta_of}
use kubedns.Direct.Deployment.Removing.Deleting.{AllRemoved}
use kubedns.Direct.Deployment.Removing.Cleaning.{
  Cleans, AllRemoved-Extends, delete_external_resources-Cleans,
}

module _ (d : Deployer)
    (aggregate_lem : (p q : Option Problem)
      → d.aggregate p q ≡ none
      → (p ≡ none) × (q ≡ none)) where
  -- Where the deletion of a zone ends, for an object of which the metadata were known.
  abbrev Ends : Option ObjectMeta → Option (Option Problem) → State → Type 0
  Ends m e t =
      (e ≡ some none → AllRemoved d t.events) × ((meta_of t.object ≡ m) ⊎ AllRemoved d t.events)

  return_error-AllRemoved :
      (a : Option CallError) (s : State)
      → AllRemoved d s.events
      → Holds (λ u t. AllRemoved d t.events) (λ e t. AllRemoved d t.events) (return_error d a s)
  unfolding return_error
  return_error-AllRemoved none s h = h
  return_error-AllRemoved (some a) s h = h

  patch_if-AllRemoved :
      (b : Bool) (z : HostedZone) (s : State)
      → AllRemoved d s.events
      → Holds (λ u t. AllRemoved d t.events) (λ e t. AllRemoved d t.events) (patch_if d b z s)
  unfolding patch_if
  patch_if-AllRemoved false z s h = h
  patch_if-AllRemoved true z s h =
      let a = d.clusters.patch s.events z in
      let t : State = record s { events = patched z a ∷ s.events } in
      return_error-AllRemoved a t
        (AllRemoved-Extends d aggregate_lem s t (refl, (patched z a ∷ [], refl)) h)

  release-Ends :
      (m : Option ObjectMeta) (o : Option HostedZone) (s : State)
      → AllRemoved d s.events
      → Holds (λ u t. ⊥) (Ends m) (release d o s)
  unfolding release
  release-Ends m none s h = ((λ e. h), inr h)
  release-Ends m (some z) s h =
      let (z', changed) = d.remove_finalizer z d.finalizer in
      let s' : State = record s { object = some z' } in
      >>=-Holds (λ u t. AllRemoved d t.events) (λ u t. ⊥) (Ends m) (patch_if d changed z')
        (λ u. return none) s'
        (Holds-weaken (λ u t. AllRemoved d t.events) (λ u t. AllRemoved d t.events)
          (λ e t. AllRemoved d t.events) (Ends m) (patch_if d changed z' s') (λ u t x. x)
          (λ e t x. ((λ q. x), inr x)) (patch_if-AllRemoved changed z' s' h))
        (λ u t x. ((λ q. x), inr x))

  after_deletion-Ends :
      (m : Option ObjectMeta) (p : Option Problem) (s : State)
      → meta_of s.object ≡ m
      → (p ≡ none → AllRemoved d s.events)
      → Holds (λ u t. ⊥) (Ends m) ((return_problem p >>= λ u. gets (λ w. w.object) >>= release d) s)
  after_deletion-Ends m none s e h = release-Ends m s.object s (h refl)
  after_deletion-Ends m (some q) s e h = ((λ g. absurd (cc g)), inl e)

  delete_then_release-Ends :
      (s : State) → Holds (λ u t. ⊥) (Ends (meta_of s.object)) (delete_then_release d s)
  unfolding delete_then_release
  delete_then_release-Ends s =
      >>=-Holds (λ p t. Cleans d aggregate_lem s (some p) t) (λ u t. ⊥) (Ends (meta_of s.object))
        (caught (delete_external_resources d))
        (λ p. return_problem p >>= λ u. gets (λ w. w.object) >>= release d) s
        (Holds-weaken (λ p t. Cleans d aggregate_lem s (some p) t)
          (λ p t. Cleans d aggregate_lem s (some p) t) (Cleans d aggregate_lem s)
          (Ends (meta_of s.object)) (caught (delete_external_resources d) s) (λ p t x. x)
          (λ e t x. (x.1, inl x.0.0))
          (caught-Holds (Cleans d aggregate_lem s) (delete_external_resources d) s
            (delete_external_resources-Cleans d aggregate_lem s)))
        (λ p t x. after_deletion-Ends (meta_of s.object) p t x.0.0 (λ e. x.1 (ap some e)))

  Ends-result :
      (m : Option ObjectMeta) (r : Ended (Unit {0}) × State)
      → Holds (λ u t. ⊥) (Ends m) r
      → (r.0 ≡ returns none → AllRemoved d r.1.events)
        × ((meta_of r.1.object ≡ m) ⊎ AllRemoved d r.1.events)
  Ends-result m (value u, s) h = absurd h
  Ends-result m (returns none, s) h = ((λ e. h.0 refl), h.1)
  Ends-result m (returns (some p), s) h = ((λ e. absurd (cc e)), h.1)
  Ends-result m (panicked, s) h = ((λ e. absurd (cc e)), h.1)
  Ends-result m (unfinished, s) h = ((λ e. absurd (cc e)), h.1)

  -- When AggregateProblem is nil only for two problems that are nil: the deletion of a zone that
  -- vanished, or that has the finalizer, ends without a problem only when every manifest that is
  -- rendered for values with the name, the namespace, the server and the place of the zone was
  -- deleted or found missing in its cluster; and until then the metadata of the object, its
  -- finalizers among them, are left alone, whatever the clusters answer.
  pub delete_releases :
      (o : Option HostedZone)
      → ((z : HostedZone) → o ≡ some z → contains z.meta.finalizers d.finalizer ≡ true)
      → let (e, t) = delete d (record { object = o; events = [] }) in
        (e ≡ returns none → AllRemoved d t.events)
        × ((meta_of t.object ≡ meta_of o) ⊎ AllRemoved d t.events)
  unfolding delete delete_of
  delete_releases none h =
      Ends-result none _ (delete_then_release-Ends (record { object = none; events = [] }))
  delete_releases (some z) h = rw (h z refl) (
      Ends-result (some z.meta) _
        (delete_then_release-Ends (record { object = some z; events = [] })))
