-- ===== src/Replicate/Logic/Placing.antt =====
-- The creation and the update of a replica: every call is allowed.
use kubedns.Prelude.{
  Bool-cases, Option-cases, if-cases, Text, ◌≡◌, refl, ap, ◌∙◌, ◌⊎◌, inl, inr, Bool, not, Option,
  none, some, List,
}
use kubedns.Api.{ObjectKey}
use kubedns.Replicate.Options.{replicated_annotation}
use kubedns.Replicate.Objects.{
  Documented, ResponsibilityHandler, State, CallError, missing, other, temporary_problem,
  ignore_not_found, created, applied, got, mapped, owned, has_finalizer, Event,
}
use kubedns.Common.Cluster.{not_found, found, get_error, Problem, Fetched}
use kubedns.Common.Calls.{Action, returns, Holds-weaken}
use kubedns.Replicate.Events.{IsQuiet, IsTaken}
use kubedns.Replicate.Logic.{
  take_responsibility, replica_of, describe, of_owner, apply_with, copy_status, update_replica,
  place, own_and_place, replicate,
}
use kubedns.Replicate.Actions.{Replicator, patch_if, map_key}
use kubedns.Replicate.Logic.Guarding.{
  IsRunning, Stops, Goes, logged, IsPatched, IsGood-call, IsEnd, patch_if-Goes, IsKept,
}

module _ {P St H : Type 0} (r : Replicator P St H) (d : Documented P St r.objects)
    (quiet : (h : ResponsibilityHandler P H)
      → r.resp ≡ some h
      → IsQuiet P St H r.objects r.finalizer h)
    (owner : (es : List (Event P)) (p q n : P)
      → r.clusters.set_owner es p q ≡ inr n
      → r.objects.get_annotation n replicated_annotation
        ≡ r.objects.get_annotation q replicated_annotation)
    (had : Bool) where
  abbrev IsMarked : P → Type 0
  IsMarked p = r.objects.get_annotation p replicated_annotation ≡ r.clusters.source_id

  abbrev Taken : State P H → Type 0
  Taken s = IsTaken r.objects r.finalizer had s.events

  IsTaken-call : (s : State P H) (e : Event P) → Taken s → Taken (logged r had s e)
  IsTaken-call s e (inl h) = inl h
  IsTaken-call s e (inr h) = inr (inr h)

  created-Stops :
      (a : Option CallError) (p : P) (s : State P H)
      → IsRunning r had s
      → Taken s
      → IsMarked p
      → Stops r had (returns (temporary_problem (ignore_not_found a)), logged r had s (created p a))
  unfolding temporary_problem ignore_not_found
  created-Stops none p s (g, f) t m = (IsGood-call r had s (created p none) (t, m) g, (tt, f))
  created-Stops (some (missing e)) p s (g, f) t m =
      (IsGood-call r had s (created p (some (missing e))) (t, m) g, (tt, f))
  created-Stops (some (other e)) p s (g, f) t m =
      IsGood-call r had s (created p (some (other e))) (t, m) g

  IsKept-set_status :
      (p q : P) (st : St) (s : State P H)
      → r.objects.set_status p st ≡ inr q
      → s.object ≡ p
      → IsKept r had s
      → IsKept r had (record s { object = q })
  IsKept-set_status p q st s e same (inl h) =
      inl (d.has_finalizer-set_status p q st r.finalizer e ∙ (rw (← same) h))
  IsKept-set_status p q st s e same (inr h) = inr h

  apply_with-Stops :
      (tgt new : P) (st : St) (answer : Text ⊎ P) (s : State P H)
      → r.objects.set_status s.object st ≡ answer
      → IsRunning r had s
      → Taken s
      → IsMarked new
      → Stops r had (apply_with r tgt new answer s)
  unfolding apply_with
  apply_with-Stops tgt new st (inl e) s eq h t m = h
  apply_with-Stops tgt new st (inr q) s eq (g, f) t m =
      let kept = IsKept-set_status s.object q st s eq refl g.1 in
      let call = applied new tgt (r.clusters.apply s.events new tgt) in
      (IsGood-call r had (record s { object = q }) call (t, m) (g.0, kept), (tt, f))

  copy_status-Stops :
      (tgt new : P) (answer : Text ⊎ St) (s : State P H)
      → IsRunning r had s
      → Taken s
      → IsMarked new
      → Stops r had (copy_status r tgt new answer s)
  unfolding copy_status
  copy_status-Stops tgt new (inl e) s h t m = h
  copy_status-Stops tgt new (inr st) s h t m =
      apply_with-Stops tgt new st (r.objects.set_status s.object st) s refl h t m

  update_replica-Stops :
      (a : Fetched P) (k : ObjectKey) (new : P) (s : State P H)
      → IsRunning r had s
      → Taken s
      → IsMarked new
      → Stops r had (update_replica r new a (logged r had s (got k a)))
  unfolding update_replica
  update_replica-Stops (get_error m) k new s (g, f) t n =
      IsGood-call r had s (got k (get_error m)) tt g
  update_replica-Stops not_found k new s (g, f) t n =
      let s' = logged r had s (got k not_found) in
      created-Stops (r.clusters.create s'.events new) new s'
        (IsGood-call r had s (got k not_found) tt g, (tt, f)) (IsTaken-call s (got k not_found) t) n
  update_replica-Stops (found tgt) k new s (g, f) t n =
      let s' = logged r had s (got k (found tgt)) in
      let running : IsRunning r had s' = (IsGood-call r had s (got k (found tgt)) tt g, (tt, f)) in
      let fs = (r.objects.meta tgt).finalizers in
      if-cases _ _ (λ (m : Action (State P H) (Unit {0})). Stops r had (m s'))
        (r.objects.meta tgt).deleting running
        (copy_status-Stops tgt (r.objects.set_finalizers new fs) (r.objects.get_status tgt) s'
          running (IsTaken-call s (got k (found tgt)) t)
          (d.get_annotation-set_finalizers new fs replicated_annotation ∙ n))

  place-Stops :
      (new : P) (s : State P H)
      → IsRunning r had s
      → Taken s
      → IsMarked new
      → Stops r had (place r new s)
  unfolding place
  place-Stops new s h t n =
      update_replica-Stops (r.clusters.get s.events (map_key r)) (map_key r) new s h t n

  of_owner-Stops :
      (answer : Text ⊎ P) (new : P) (s : State P H)
      → r.clusters.set_owner s.events s.object new ≡ answer
      → IsRunning r had s
      → Taken s
      → IsMarked new
      → Stops r had (of_owner r answer (logged r had s (owned s.object new answer)))
  unfolding of_owner
  of_owner-Stops (inl m) new s e (g, f) t n = IsGood-call r had s (owned s.object new (inl m)) tt g
  of_owner-Stops (inr p) new s e (g, f) t n =
      let call = owned s.object new (inr p) in
      place-Stops p (logged r had s call) (IsGood-call r had s call tt g, (tt, f))
        (IsTaken-call s call t) (owner s.events s.object new p e ∙ n)

  own_and_place-Stops :
      (new : P) (s : State P H)
      → IsRunning r had s
      → Taken s
      → IsMarked new
      → Stops r had (own_and_place r new s)
  unfolding own_and_place
  own_and_place-Stops new s h t n =
      of_owner-Stops (r.clusters.set_owner s.events s.object new) new s refl h t n

  replica_of-IsMarked : (obj : P) → IsMarked (replica_of r obj)
  unfolding replica_of
  replica_of-IsMarked obj =
      let o = r.objects in
      let placed =
        o.cleanup_meta (o.set_name (o.set_namespace obj (map_key r).namespace) (map_key r).name) in
      let id = r.clusters.source_id in
      let marked = o.set_annotation placed replicated_annotation id in
      let kept =
        d.get_annotation-remove_finalizer marked r.finalizer replicated_annotation
        ∙ d.get-set_annotation placed replicated_annotation id in
      elim (Option-cases r.resp) [
        | inl e ↦ rw e kept
        | inr (h, e) ↦ rw e (
            (quiet h e).get_annotation-set_responsibility (o.remove_finalizer marked r.finalizer).0
            ∙ kept)
      ]

  mapped-Stops :
      (prob : Option Problem) (s : State P H)
      → IsRunning r had s
      → Taken s
      → Stops r had (describe r prob (logged r had s (mapped (map_key r) prob)))
  unfolding describe
  mapped-Stops none s (g, f) t =
      let call = mapped (map_key r) none in
      own_and_place-Stops (replica_of r s.object) (logged r had s call)
        (IsGood-call r had s call tt g, (tt, f)) (IsTaken-call s call t)
        (replica_of-IsMarked s.object)
  mapped-Stops (some p) s (g, f) t = IsGood-call r had s (mapped (map_key r) (some p)) tt g

  pub replicate-Stops : (s : State P H) → IsRunning r had s → Taken s → Stops r had (replicate r s)
  unfolding replicate
  replicate-Stops s h t = mapped-Stops (r.clusters.set_original s.events (map_key r)) s h t

  -- The object has the finalizer afterwards.
  pub take_responsibility-Goes :
      (s : State P H)
      → IsRunning r had s
      → has_finalizer r.objects s.object r.finalizer ≡ had
      → Goes r had (λ u t. Taken t) (take_responsibility r s)
  unfolding take_responsibility
  take_responsibility-Goes s (g, f) e =
      let (p, changed) = r.objects.add_finalizer s.object r.finalizer in
      let law = d.add_finalizer_lem s.object r.finalizer in
      let s' : State P H = record s { object = p } in
      Holds-weaken (λ u t. IsRunning r had t × IsPatched r had changed p s' u t)
        (λ u t. IsRunning r had t × Taken t) (IsEnd r had) (IsEnd r had) (patch_if r changed p s')
        (λ u t h. (
          h.0,
          elim (Bool-cases had) [
            | inl held ↦ inl held
            | inr free ↦ inr (h.1.1 (law.1 ∙ ap not (e ∙ free)) law.0)
          ],
        ))
        (λ q t h. h) (patch_if-Goes r had changed p s' ((g.0, inl law.0), f))
