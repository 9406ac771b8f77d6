-- ===== src/Replicate/Events.antt =====
-- What is said of the calls of a reconciliation, last first, and of the handler it asks.
use kubedns.Prelude.{
  Any, Text, ◌≡◌, ◌⊎◌, inl, inr, Bool, true, Option, none, some, List, [], ◌∷◌, ◌++◌, map,
}
use kubedns.Replicate.Objects.{
  created, applied, patched, got, deleted, mapped, unmapped, owned, enqueued, missing, other,
  CallError, Event, Objects, has_finalizer, State, ResponsibilityHandler,
}
use kubedns.Common.Cluster.{found, not_found, get_error}
use kubedns.Replicate.Options.{replicated_annotation}
use kubedns.Common.Calls.{Holds}
use kubedns.Api.{ObjectKey}

-- The answers that do not make the reconciliation fail: an object that is missing is not an error.
abbrev pub IsHarmless : Option CallError → Type 0
IsHarmless none = Unit
IsHarmless (some (missing m)) = Unit
IsHarmless (some (other m)) = ⊥

abbrev pub IsSuccess {ℓ} : {A : Type ℓ} → Option A → Type 0
IsSuccess none = Unit
IsSuccess (some a) = ⊥

abbrev pub IsFine : {P : Type 0} → Event P → Type 0
IsFine (patched p a) = IsHarmless a
IsFine (got k (found p)) = Unit
IsFine (got k not_found) = Unit
IsFine (got k (get_error m)) = ⊥
IsFine (created p a) = IsHarmless a
IsFine (deleted p a) = IsSuccess a
IsFine (applied p q a) = Unit
IsFine (mapped k a) = IsSuccess a
IsFine (unmapped k a) = IsSuccess a
IsFine (owned p q (inl m)) = ⊥
IsFine (owned p q (inr a)) = Unit
IsFine (enqueued k) = Unit

-- The target cluster answered that there is no object of that key.
abbrev pub IsGone : {P : Type 0} → ObjectKey → Event P → Type 0
IsGone key (got k not_found) = k ≡ key
IsGone key e = ⊥

module _ {P St : Type 0} (o : Objects P St) (finalizer : Text) where
  -- The object was patched to have the finalizer.
  abbrev pub IsTaking : Event P → Type 0
  IsTaking (patched p none) = has_finalizer o p finalizer ≡ true
  IsTaking e = ⊥

  abbrev pub IsTaken : Bool → List (Event P) → Type 0
  IsTaken had es = (had ≡ true) ⊎ Any IsTaking es

  -- A replica is created or updated only for an object with the finalizer, which it had or was
  -- given before; and the replica has the annotation with the identity of the source.
  abbrev pub IsAllowed : Text → Bool → Event P → List (Event P) → Type 0
  IsAllowed id had (created p a) es =
      IsTaken had es × (o.get_annotation p replicated_annotation ≡ id)
  IsAllowed id had (applied p q a) es =
      IsTaken had es × (o.get_annotation p replicated_annotation ≡ id)
  IsAllowed id had e es = Unit

  abbrev pub IsGuarded : Text → Bool → List (Event P) → Type 0
  IsGuarded id had [] = Unit
  IsGuarded id had (e ∷ es) = IsAllowed id had e es × IsGuarded id had es

-- Only objects were enqueued, and the object keeps its finalizer.
abbrev pub IsSilent : {P St H : Type 0} → Objects P St → Text → State P H → State P H → Type 0
IsSilent o finalizer s t =
    (has_finalizer o t.object finalizer ≡ has_finalizer o s.object finalizer)
    × ((ks : List ObjectKey) × (t.events ≡ map enqueued ks ++ s.events))

-- What a responsibility handler must do: it calls no cluster, it leaves finalizers and the
-- annotation alone, and it does not return early.
pub record IsQuiet (P St H : Type 0) (o : Objects P St) (finalizer : Text)
    (h : ResponsibilityHandler P H) : Type 0 where
  pub is_responsible_lem :
      (s : State P H)
      → Holds
          (λ b t. IsSilent o finalizer s t)
          (λ e t. (e ≡ none) × IsSilent o finalizer s t)
          (h.is_responsible s)
  pub delete_lem :
      (s : State P H)
      → Holds
          (λ b t. IsSilent o finalizer s t)
          (λ e t. (e ≡ none) × IsSilent o finalizer s t)
          (h.delete s)
  pub get_annotation-set_responsibility :
      (p : P)
      → o.get_annotation (h.set_responsibility p) replicated_annotation
        ≡ o.get_annotation p replicated_annotation
