-- ===== src/Replicate/Logic.antt =====
-- internal/controller/replicate/common/generic/logic.go: how an object of the source cluster is
-- copied to the target cluster, and how the copy is removed.
pub mod Guarding
pub mod Releasing
pub mod Placing
pub mod Reconciling
pub mod Promises
use kubedns.Prelude.{
  if◌then◌else◌, nat_eq, ◌==◌, Text, text_eq, ◌⊎◌, inl, inr, Bool, true, false, not, Option, none,
  some, [],
}
use kubedns.Common.Calls.{◌>>=◌, ◌>>◌, Action, pure, gets, return, caught, return_problem}
use kubedns.Replicate.Objects.{
  temporary_problem, ResponsibilityHandler, State, ignore_not_found, CallError, called, unmapped,
  deleted, got, applied, created, mapped, owned,
}
use kubedns.Replicate.Options.{replicated_annotation}
use kubedns.Common.Cluster.{not_found, found, get_error, Fetched, temporary, Problem}
use kubedns.Replicate.Actions.{
  Replicator, set_object, map_key, set_responsibility, handler_delete, return_if, patch_if,
}

module _ {P St H : Type 0} (r : Replicator P St H) where
  -- The finalizer is added to the object of the request.
  unfoldable pub take_responsibility : Action (State P H) Unit
  unfolding patch_if
  take_responsibility = do
    obj ← gets (λ s. s.object)
    let (p, changed) = r.objects.add_finalizer obj r.finalizer
    set_object r p
    patch_if r changed p

  -- The mapping forgets the original.
  unfoldable pub remove_original : Action (State P H) Unit
  unfolding map_key
  remove_original = do
    prob ← called (λ log. r.clusters.remove_original log (map_key r)) (unmapped (map_key r))
    return prob

  -- The replica is gone: the finalizer is removed from the object of the request.
  unfoldable pub release : Action (State P H) Unit
  unfolding patch_if remove_original
  release = do
    obj ← gets (λ s. s.object)
    let (p, changed) = r.objects.remove_finalizer obj r.finalizer
    set_object r p
    patch_if r changed p
    remove_original

  -- The deferred call of the handler comes last.
  unfoldable pub end_deletion : Option CallError → Action (State P H) Unit
  unfolding temporary_problem
  end_deletion e = do handler_delete r; return (temporary_problem e)

  unfoldable pub delete_unless : Bool → P → Action (State P H) Unit
  unfolding end_deletion
  delete_unless true p = end_deletion none
  delete_unless false p = do e ← called (λ log. r.clusters.delete log p) (deleted p); end_deletion e

  -- The replica is there: its own finalizer is removed, by a patch on the source cluster, and it is
  -- deleted.
  unfoldable pub delete_replica : P → Action (State P H) Unit
  unfolding patch_if delete_unless
  delete_replica tgt = do
    let (p, changed) = r.objects.remove_finalizer tgt r.finalizer
    patch_if r changed p
    delete_unless (r.objects.meta p).deleting p

  unfoldable pub of_target : Fetched P → Action (State P H) Unit
  unfolding release delete_replica
  of_target not_found = release
  of_target (get_error m) = return (some (temporary m))
  of_target (found tgt) = delete_replica tgt

  -- `ReconcileDeleting`
  unfoldable pub reconcile_deleting : Action (State P H) Unit
  unfolding of_target map_key
  reconcile_deleting = do
    f ← called (λ log. r.clusters.get log (map_key r)) (got (map_key r))
    of_target f

  -- if p != nil { return p }; return prob
  abbrev pub then_return : Option Problem → Option Problem → Action (State P H) Unit
  then_return prob (some p) = return (some p)
  then_return prob none = return prob

  -- What the handler found: nothing is done for a problem of an object it is responsible for, and
  -- a foreign object loses its replica.
  unfoldable pub of_responsibility : Bool × Option Problem → Action (State P H) Unit
  unfolding reconcile_deleting
  of_responsibility (false, prob) = do p ← caught reconcile_deleting; then_return prob p
  of_responsibility (true, prob) = return_problem prob

  unfoldable pub ask : Option (ResponsibilityHandler P H) → Action (State P H) Unit
  unfolding of_responsibility
  ask none = pure tt
  ask (some h) = h.is_responsible >>= of_responsibility

  unfoldable pub check_responsibility : Action (State P H) Unit
  unfolding ask
  check_responsibility = ask r.resp

  -- The replica of an object, before its owner is set.
  unfoldable pub replica_of : P → P
  unfolding map_key
  replica_of obj =
      let o = r.objects in
      let placed = o.set_name (o.set_namespace obj (map_key r).namespace) (map_key r).name in
      let marked =
        o.set_annotation (o.cleanup_meta placed) replicated_annotation r.clusters.source_id in
      set_responsibility r (o.remove_finalizer marked r.finalizer).0

  -- The replica is updated, once its status is in the object. The error of the update is assigned
  -- to a variable of the inner block, which is not returned.
  unfoldable pub apply_with : P → P → Text ⊎ P → Action (State P H) Unit
  apply_with tgt new (inl m) = return none
  apply_with tgt new (inr obj) = do
    set_object r obj
    e ← called (λ log. r.clusters.apply log new tgt) (applied new tgt)
    return none

  -- The status of the replica is copied to the object.
  unfoldable pub copy_status : P → P → Text ⊎ St → Action (State P H) Unit
  unfolding apply_with
  copy_status tgt new (inl m) = return none
  copy_status tgt new (inr st) = do
    obj ← gets (λ s. s.object)
    apply_with tgt new (r.objects.set_status obj st)

  unfoldable pub update_replica : P → Fetched P → Action (State P H) Unit
  unfolding copy_status temporary_problem ignore_not_found
  update_replica new (get_error m) = return (some (temporary m))
  update_replica new not_found = do
    e ← called (λ log. r.clusters.create log new) (created new)
    return (temporary_problem (ignore_not_found e))
  update_replica new (found tgt) =
      if (r.objects.meta tgt).deleting
      then return none
      else copy_status tgt (r.objects.set_finalizers new (r.objects.meta tgt).finalizers)
          (r.objects.get_status tgt)

  abbrev pub of_owned : Text ⊎ P → Action (State P H) P
  of_owned (inl m) = return (some (temporary m))
  of_owned (inr p) = pure p

  unfoldable pub place : P → Action (State P H) Unit
  unfolding map_key update_replica
  place new = do
    f ← called (λ log. r.clusters.get log (map_key r)) (got (map_key r))
    update_replica new f

  unfoldable pub of_owner : Text ⊎ P → Action (State P H) Unit
  unfolding place
  of_owner (inl m) = return (some (temporary m))
  of_owner (inr p) = place p

  unfoldable pub own_and_place : P → Action (State P H) Unit
  unfolding of_owner
  own_and_place new = do
    obj ← gets (λ s. s.object)
    answer ← called (λ log. r.clusters.set_owner log obj new) (owned obj new)
    of_owner answer

  -- After the call of the mapping.
  unfoldable pub describe : Option Problem → Action (State P H) Unit
  unfolding replica_of own_and_place
  describe (some p) = return (some p)
  describe none = do obj ← gets (λ s. s.object); own_and_place (replica_of obj)

  -- The replica is described, and created or updated.
  unfoldable pub replicate : Action (State P H) Unit
  unfolding map_key describe
  replicate = do
    prob ← called (λ log. r.clusters.set_original log (map_key r)) (mapped (map_key r))
    describe prob

  -- `Reconcile`, for an object that is no replica.
  unfoldable pub reconcile_original : Action (State P H) Unit
  unfolding check_responsibility take_responsibility replicate
  reconcile_original = do check_responsibility; take_responsibility; replicate

  -- `Reconcile`
  unfoldable pub reconcile : Action (State P H) Unit
  unfolding reconcile_original
  reconcile = do
    obj ← gets (λ s. s.object)
    return_if r (not (r.objects.get_annotation obj replicated_annotation == []))
    reconcile_original
