-- ===== src/Replicate/Logic/Releasing.antt =====
-- The removal of a replica: every call is allowed, and the object loses its finalizer only when
-- there is no replica.
use kubedns.Prelude.{
  Option-cases, All, Any, ◌≡◌, refl, inl, inr, Bool, true, false, Option, none, some, [],
}
use kubedns.Api.{ObjectKey}
use kubedns.Replicate.Objects.{
  ResponsibilityHandler, State, CallError, missing, other, temporary_problem, deleted, got,
  unmapped,
}
use kubedns.Common.Cluster.{not_found, found, get_error, Problem, Fetched}
use kubedns.Common.Calls.{returns, >>=-Holds, Holds, Holds-weaken}
use kubedns.Replicate.Events.{IsQuiet, IsGone, IsSilent, IsFine}
use kubedns.Replicate.Logic.{
  release, remove_original, end_deletion, delete_unless, delete_replica, of_target,
  reconcile_deleting,
}
use kubedns.Replicate.Actions.{Replicator, patch_if, map_key, handler_delete}
use kubedns.Replicate.Logic.Guarding.{
  IsRunning, Stops, logged, IsPatched, IsGood-call, IsEnd, patch_if-Goes, IsGood, IsGood-Silent,
  IsFine-Silent,
}

module _ {P St H : Type 0} (r : Replicator P St H)
    (quiet : (h : ResponsibilityHandler P H)
      → r.resp ≡ some h
      → IsQuiet P St H r.objects r.finalizer h)
    (had : Bool) where
  abbrev Silent : State P H → State P H → Type 0
  Silent = IsSilent r.objects r.finalizer

  unmapped-Stops :
      (a : Option Problem) (k : ObjectKey) (s : State P H)
      → IsRunning r had s
      → Stops r had (returns a, logged r had s (unmapped k a))
  unmapped-Stops none k s (g, f) = (IsGood-call r had s (unmapped k none) tt g, (tt, f))
  unmapped-Stops (some p) k s (g, f) = IsGood-call r had s (unmapped k (some p)) tt g

  remove_original-Stops : (s : State P H) → IsRunning r had s → Stops r had (remove_original r s)
  unfolding remove_original
  remove_original-Stops s h =
      unmapped-Stops (r.clusters.remove_original s.events (map_key r)) (map_key r) s h

  -- There is no replica.
  release-Stops :
      (s : State P H)
      → IsRunning r had s
      → Any (IsGone (map_key r)) s.events
      → Stops r had (release r s)
  unfolding release
  release-Stops s (g, f) gone =
      let (p, changed) = r.objects.remove_finalizer s.object r.finalizer in
      let s' : State P H = record s { object = p } in
      >>=-Holds (λ u t. IsRunning r had t × IsPatched r had changed p s' u t) (λ u t. ⊥)
        (IsEnd r had) (patch_if r changed p) (λ u. remove_original r) s'
        (patch_if-Goes r had changed p s' ((g.0, inr (inr gone)), f))
        (λ u t h. remove_original-Stops t h.0)

  -- The deferred call of the handler.
  handler_delete-Silent :
      (s : State P H)
      → Holds (λ u t. Silent s t) (λ e t. (e ≡ none) × Silent s t) (handler_delete r s)
  handler_delete-Silent s = elim (Option-cases r.resp) [
    | inl e ↦ rw e (refl, ([], refl))
    | inr (h, e) ↦ rw e ((quiet h e).delete_lem s)
  ]

  -- A deletion ends, with an answer of the target cluster.
  abbrev IsAnswered : Option CallError → State P H → Type 0
  IsAnswered a s = IsGood r had s × ((temporary_problem a ≡ none) → All IsFine s.events)

  returned-Stops :
      (a : Option CallError) (s : State P H)
      → IsAnswered a s
      → Stops r had (returns (temporary_problem a), s)
  unfolding temporary_problem
  returned-Stops none s (g, f) = (g, f refl)
  returned-Stops (some (missing m)) s (g, f) = g
  returned-Stops (some (other m)) s (g, f) = g

  end_deletion-Stops :
      (a : Option CallError) (s : State P H) → IsAnswered a s → Stops r had (end_deletion r a s)
  unfolding end_deletion
  end_deletion-Stops a s (g, f) =
      >>=-Holds (λ u t. IsAnswered a t) (λ u t. ⊥) (IsEnd r had) (handler_delete r)
        (λ u t. (returns (temporary_problem a), t)) s
        (Holds-weaken (λ u t. Silent s t) (λ u t. IsAnswered a t) (λ e t. (e ≡ none) × Silent s t)
          (IsEnd r had) (handler_delete r s)
          (λ u t h. (IsGood-Silent r had s t h g, λ e. IsFine-Silent r had s t h (f e)))
          (λ p t h. rw h.0 (IsGood-Silent r had s t h.1 g)) (handler_delete-Silent s))
        (λ u t h. returned-Stops a t h)

  deleted-IsAnswered :
      (a : Option CallError) (p : P) (s : State P H)
      → IsRunning r had s
      → IsAnswered a (logged r had s (deleted p a))
  unfolding temporary_problem
  deleted-IsAnswered none p s (g, f) = (IsGood-call r had s (deleted p none) tt g, λ e. (tt, f))
  deleted-IsAnswered (some (missing m)) p s (g, f) =
      (IsGood-call r had s (deleted p (some (missing m))) tt g, λ e. cc)
  deleted-IsAnswered (some (other m)) p s (g, f) =
      (IsGood-call r had s (deleted p (some (other m))) tt g, λ e. cc)

  delete_unless-Stops :
      (b : Bool) (p : P) (s : State P H) → IsRunning r had s → Stops r had (delete_unless r b p s)
  unfolding delete_unless
  delete_unless-Stops true p s (g, f) = end_deletion-Stops none s (g, λ e. f)
  delete_unless-Stops false p s h =
      let a = r.clusters.delete s.events p in
      end_deletion-Stops a (logged r had s (deleted p a)) (deleted-IsAnswered a p s h)

  delete_replica-Stops :
      (tgt : P) (s : State P H) → IsRunning r had s → Stops r had (delete_replica r tgt s)
  unfolding delete_replica
  delete_replica-Stops tgt s h =
      let (p, changed) = r.objects.remove_finalizer tgt r.finalizer in
      let later = delete_unless r (r.objects.meta p).deleting p in
      >>=-Holds (λ u t. IsRunning r had t × IsPatched r had changed p s u t) (λ u t. ⊥)
        (IsEnd r had) (patch_if r changed p) (λ u. later) s (patch_if-Goes r had changed p s h)
        (λ u t k. delete_unless-Stops (r.objects.meta p).deleting p t k.0)

  of_target-Stops :
      (a : Fetched P) (s : State P H)
      → IsRunning r had s
      → Stops r had (of_target r a (logged r had s (got (map_key r) a)))
  unfolding of_target
  of_target-Stops not_found s (g, f) =
      release-Stops (logged r had s (got (map_key r) not_found))
        (IsGood-call r had s (got (map_key r) not_found) tt g, (tt, f)) (inl refl)
  of_target-Stops (get_error m) s (g, f) = IsGood-call r had s (got (map_key r) (get_error m)) tt g
  of_target-Stops (found tgt) s (g, f) =
      delete_replica-Stops tgt (logged r had s (got (map_key r) (found tgt)))
        (IsGood-call r had s (got (map_key r) (found tgt)) tt g, (tt, f))

  pub reconcile_deleting-Stops :
      (s : State P H) → IsRunning r had s → Stops r had (reconcile_deleting r s)
  unfolding reconcile_deleting
  reconcile_deleting-Stops s h = of_target-Stops (r.clusters.get s.events (map_key r)) s h
