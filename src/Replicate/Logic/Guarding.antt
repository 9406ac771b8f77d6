-- ===== src/Replicate/Logic/Guarding.antt =====
-- What holds of the calls of a reconciliation, whatever the clusters answer.
use kubedns.Prelude.{
  All, Any, ◌≡◌, refl, ◌∙◌, ◌⊎◌, inl, inr, Bool, true, false, Option, none, some, List, [], ◌∷◌,
  ◌++◌, map,
}
use kubedns.Replicate.Objects.{patched, missing, other, has_finalizer, Event, enqueued}
use kubedns.Common.Cluster.{Problem}
use kubedns.Common.Calls.{Holds, Ended}
use kubedns.Replicate.Events.{IsFine, IsGuarded, IsGone, IsAllowed, IsTaking, IsSilent}
use kubedns.Replicate.Objects.{State, CallError}
use kubedns.Api.{ObjectKey}
use kubedns.Replicate.Actions.{Replicator, map_key, patch_if, return_error}

module _ {P St H : Type 0} (r : Replicator P St H) (had : Bool) where
  -- An object that had the finalizer has it, or there was no replica.
  abbrev pub IsKept : State P H → Type 0
  IsKept s =
      (has_finalizer r.objects s.object r.finalizer ≡ true)
      ⊎ ((had ≡ false) ⊎ Any (IsGone (map_key r)) s.events)

  abbrev pub IsGood : State P H → Type 0
  IsGood s = IsGuarded r.objects r.finalizer r.clusters.source_id had s.events × IsKept s

  -- While the reconciliation goes on, all answers were fine.
  abbrev pub IsRunning : State P H → Type 0
  IsRunning s = IsGood s × All IsFine s.events

  -- Where it ends.
  abbrev pub IsEnd : Option (Option Problem) → State P H → Type 0
  IsEnd none s = IsGood s
  IsEnd (some none) s = IsRunning s
  IsEnd (some (some p)) s = IsGood s

  abbrev pub Goes : {A : Type 0} → (A → State P H → Type 0) → Ended A × State P H → Type 0
  Goes Q = Holds (λ a t. IsRunning t × Q a t) IsEnd

  -- A reconciliation has to return.
  abbrev pub Stops : Ended (Unit {0}) × State P H → Type 0
  Stops = Holds (λ u t. ⊥) IsEnd

  IsKept-call :
      (s : State P H) (e : Event P) → IsKept s → IsKept (record s { events = e ∷ s.events })
  IsKept-call s e (inl h) = inl h
  IsKept-call s e (inr (inl h)) = inr (inl h)
  IsKept-call s e (inr (inr h)) = inr (inr (inr h))

  -- One more call.
  pub IsGood-call :
      (s : State P H) (e : Event P)
      → IsAllowed r.objects r.finalizer r.clusters.source_id had e s.events
      → IsGood s
      → IsGood (record s { events = e ∷ s.events })
  IsGood-call s e a (g, k) = ((a, g), IsKept-call s e k)

  abbrev pub logged : State P H → Event P → State P H
  logged s e = record s { events = e ∷ s.events }

  abbrev pub IsPatched : Bool → P → State P H → Unit {0} → State P H → Type 0
  IsPatched changed p s u t =
      (t.object ≡ s.object)
      × ((changed ≡ true)
          → has_finalizer r.objects p r.finalizer ≡ true
          → Any (IsTaking r.objects r.finalizer) t.events)

  return_error-Goes :
      (a : Option CallError) (p : P) (s : State P H)
      → IsRunning s
      → Goes (IsPatched true p s) (return_error r a (logged s (patched p a)))
  unfolding return_error
  return_error-Goes none p s (g, f) =
      ((IsGood-call s (patched p none) tt g, (tt, f)), (refl, λ c h. inl h))
  return_error-Goes (some (missing m)) p s (g, f) =
      (IsGood-call s (patched p (some (missing m))) tt g, (tt, f))
  return_error-Goes (some (other m)) p s (g, f) = IsGood-call s (patched p (some (other m))) tt g

  pub patch_if-Goes :
      (changed : Bool) (p : P) (s : State P H)
      → IsRunning s
      → Goes (IsPatched changed p s) (patch_if r changed p s)
  unfolding patch_if
  patch_if-Goes false p s h = (h, (refl, λ c. absurd (cc)))
  patch_if-Goes true p s h = return_error-Goes (r.clusters.patch s.events p) p s h

  -- Enqueued objects bear on nothing.
  IsGuarded-enqueued :
      (ks : List ObjectKey) (es : List (Event P))
      → IsGuarded r.objects r.finalizer r.clusters.source_id had es
      → IsGuarded r.objects r.finalizer r.clusters.source_id had (map enqueued ks ++ es)
  IsGuarded-enqueued [] es h = h
  IsGuarded-enqueued (k ∷ ks) es h = (tt, IsGuarded-enqueued ks es h)

  Any-enqueued :
      (T : Event P → Type 0) (ks : List ObjectKey) (es : List (Event P))
      → Any T es
      → Any T (map enqueued ks ++ es)
  Any-enqueued T [] es h = h
  Any-enqueued T (k ∷ ks) es h = inr (Any-enqueued T ks es h)

  IsFine-enqueued :
      (ks : List ObjectKey) (es : List (Event P))
      → All IsFine es
      → All IsFine (map enqueued ks ++ es)
  IsFine-enqueued [] es h = h
  IsFine-enqueued (k ∷ ks) es h = (tt, IsFine-enqueued ks es h)

  abbrev Silent : State P H → State P H → Type 0
  Silent = IsSilent r.objects r.finalizer

  IsKept-Silent : (s t : State P H) → Silent s t → IsKept s → IsKept t
  IsKept-Silent s t (same, (ks, e)) (inl h) = inl (same ∙ h)
  IsKept-Silent s t (same, (ks, e)) (inr (inl h)) = inr (inl h)
  IsKept-Silent s t (same, (ks, e)) (inr (inr h)) =
      inr (inr (rw e (Any-enqueued (IsGone (map_key r)) ks s.events h)))

  pub IsGood-Silent : (s t : State P H) → Silent s t → IsGood s → IsGood t
  IsGood-Silent s t (same, (ks, e)) (g, k) =
      (rw e (IsGuarded-enqueued ks s.events g), IsKept-Silent s t (same, (ks, e)) k)

  pub IsFine-Silent : (s t : State P H) → Silent s t → All IsFine s.events → All IsFine t.events
  IsFine-Silent s t (same, (ks, e)) f = rw e (IsFine-enqueued ks s.events f)
