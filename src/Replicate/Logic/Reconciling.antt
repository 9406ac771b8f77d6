-- ===== src/Replicate/Logic/Reconciling.antt =====
-- The reconciliation as a whole: what its calls do, whatever the clusters answer.
use kubedns.Prelude.{
  nat_eq, ◌==◌, text_eq, ◌≡◌, refl, ◌∙◌, inr, Bool, true, false, not, Option, none, some, List, [],
}
use kubedns.Replicate.Options.{replicated_annotation}
use kubedns.Replicate.Objects.{Event, Documented, ResponsibilityHandler, State, has_finalizer}
use kubedns.Common.Cluster.{Problem}
use kubedns.Common.Calls.{◌>>=◌, >>=-Holds, Holds-weaken, caught, caught-Holds}
use kubedns.Replicate.Events.{IsQuiet, IsSilent, IsTaken}
use kubedns.Replicate.Logic.{
  take_responsibility, replicate, reconcile, reconcile_original, reconcile_deleting,
  of_responsibility, ask, check_responsibility, then_return,
}
use kubedns.Replicate.Actions.{Replicator, return_if}
use kubedns.Replicate.Logic.Guarding.{IsRunning, Stops, Goes, IsEnd, IsGood-Silent, IsFine-Silent}
use kubedns.Replicate.Logic.Placing.{replicate-Stops, take_responsibility-Goes}
use kubedns.Replicate.Logic.Releasing.{reconcile_deleting-Stops}

module _ {P St H : Type 0} (r : Replicator P St H) (d : Documented P St r.objects)
    (quiet : (h : ResponsibilityHandler P H)
      → r.resp ≡ some h
      → IsQuiet P St H r.objects r.finalizer h)
    (owner : (es : List (Event P)) (p q n : P)
      → r.clusters.set_owner es p q ≡ inr n
      → r.objects.get_annotation n replicated_annotation
        ≡ r.objects.get_annotation q replicated_annotation) where
  module _ (had : Bool) where
    -- The object still has its finalizer or lacks it, as at first.
    abbrev AsAtFirst : State P H → Type 0
    AsAtFirst s = has_finalizer r.objects s.object r.finalizer ≡ had

    then_return-Stops :
        (prob p : Option Problem) (s : State P H)
        → IsEnd r had (some p) s
        → Stops r had (then_return r prob p s)
    then_return-Stops prob (some p) s h = h
    then_return-Stops none none s h = h
    then_return-Stops (some q) none s h = h.0

    foreign-Stops :
        (prob : Option Problem) (s : State P H)
        → IsRunning r had s
        → Stops r had (of_responsibility r (false, prob) s)
    unfolding of_responsibility
    foreign-Stops prob s h =
        >>=-Holds (λ p t. IsEnd r had (some p) t) (λ u t. ⊥) (IsEnd r had)
          (caught (reconcile_deleting r)) (then_return r prob) s
          (caught-Holds (IsEnd r had) (reconcile_deleting r) s
            (reconcile_deleting-Stops r quiet had s h))
          (λ p t k. then_return-Stops prob p t k)

    -- The handler's answer.
    of_responsibility-Goes :
        (b : Bool × Option Problem) (s : State P H)
        → IsRunning r had s
        → AsAtFirst s
        → Goes r had (λ u t. AsAtFirst t) (of_responsibility r b s)
    unfolding of_responsibility
    of_responsibility-Goes (true, none) s h e = (h, e)
    of_responsibility-Goes (true, some p) s h e = h.0
    of_responsibility-Goes (false, prob) s h e =
        Holds-weaken (λ u t. ⊥) (λ u t. IsRunning r had t × AsAtFirst t) (IsEnd r had) (IsEnd r had)
          (of_responsibility r (false, prob) s) (λ u t k. absurd k) (λ p t k. k)
          (foreign-Stops prob s h)

    abbrev Silent : State P H → State P H → Type 0
    Silent = IsSilent r.objects r.finalizer

    ask-Goes :
        (asked : Option (ResponsibilityHandler P H)) (s : State P H)
        → r.resp ≡ asked
        → IsRunning r had s
        → AsAtFirst s
        → Goes r had (λ u t. AsAtFirst t) (ask r asked s)
    unfolding ask
    ask-Goes none s same h e = (h, e)
    ask-Goes (some h) s same (g, f) e =
        >>=-Holds (λ b t. IsRunning r had t × AsAtFirst t) (λ u t. IsRunning r had t × AsAtFirst t)
          (IsEnd r had) h.is_responsible (of_responsibility r) s
          (Holds-weaken (λ b t. Silent s t) (λ b t. IsRunning r had t × AsAtFirst t)
            (λ p t. (p ≡ none) × Silent s t) (IsEnd r had) (h.is_responsible s)
            (λ b t k. ((IsGood-Silent r had s t k g, IsFine-Silent r had s t k f), k.0 ∙ e))
            (λ p t k. rw k.0 (IsGood-Silent r had s t k.1 g)) ((quiet h same).is_responsible_lem s))
          (λ b t k. of_responsibility-Goes b t k.0 k.1)

    check_responsibility-Goes :
        (s : State P H)
        → IsRunning r had s
        → AsAtFirst s
        → Goes r had (λ u t. AsAtFirst t) (check_responsibility r s)
    unfolding check_responsibility
    check_responsibility-Goes s h e = ask-Goes r.resp s refl h e

    reconcile_original-Stops :
        (s : State P H) → IsRunning r had s → AsAtFirst s → Stops r had (reconcile_original r s)
    unfolding reconcile_original
    reconcile_original-Stops s h e =
        >>=-Holds (λ u t. IsRunning r had t × AsAtFirst t) (λ u t. ⊥) (IsEnd r had)
          (check_responsibility r) (λ u. take_responsibility r >>= λ v. replicate r) s
          (check_responsibility-Goes s h e)
          (λ u t k.
            >>=-Holds (λ v w. IsRunning r had w × IsTaken r.objects r.finalizer had w.events)
              (λ v w. ⊥) (IsEnd r had) (take_responsibility r) (λ v. replicate r) t
              (take_responsibility-Goes r d quiet owner had t k.0 k.1)
              (λ v w l. replicate-Stops r d quiet owner had w l.0 l.1))

    reconcile-Stops_of :
        (b : Bool) (s : State P H)
        → IsRunning r had s
        → AsAtFirst s
        → Stops r had ((return_if r b >>= λ u. reconcile_original r) s)
    reconcile-Stops_of true s h e = h
    reconcile-Stops_of false s h e = reconcile_original-Stops s h e

    pub reconcile-Stops :
        (s : State P H) → IsRunning r had s → AsAtFirst s → Stops r had (reconcile r s)
    unfolding reconcile
    reconcile-Stops s h e =
        reconcile-Stops_of (not (r.objects.get_annotation s.object replicated_annotation == [])) s h
          e
