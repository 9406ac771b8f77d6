-- ===== src/Replicate/Objects.antt =====
-- What the replication takes from packages outside of the repository: the access to an object of a
-- resource type, the clusters, the mapping of originals and the owner references. A call is an
-- event, and its answer may depend on all that was called before: nothing is assumed of it.
use kubedns.Prelude.{
  nat_eq, Text, text_eq, ℕ, ◌≡◌, ◌⊎◌, inr, Bool, true, false, not, Option, List, ◌∷◌,
}
use kubedns.Api.{ObjectKey, ObjectMeta}
pub use kubedns.Common.Calls.{CallError, missing, other}
unfoldable pub use kubedns.Common.Calls.{ignore_not_found, temporary_problem}
use kubedns.Common.Cluster.{Fetched, Problem, contains}
use kubedns.Common.Calls.{Action, value}

-- client.Object, objutils and controllerutil for a resource type with the status `St`
pub record Objects (P St : Type 0) : Type 0 where
  pub meta : P → ObjectMeta
  -- objutils.GetAnnotation; an annotation that is missing is empty.
  pub get_annotation : P → Text → Text
  pub set_annotation : P → Text → Text → P
  -- The object, and whether it was changed.
  pub add_finalizer : P → Text → P × Bool
  pub remove_finalizer : P → Text → P × Bool
  pub set_finalizers : P → List Text → P
  pub set_namespace : P → Text → P
  pub set_name : P → Text → P
  pub cleanup_meta : P → P
  -- The message of an error, or the status.
  pub get_status : P → Text ⊎ St
  pub set_status : P → St → Text ⊎ P

abbrev pub has_finalizer : {P St : Type 0} → Objects P St → P → Text → Bool
has_finalizer o p f = contains (o.meta p).finalizers f

-- The documented behaviour that the theorems rely on.
pub record Documented (P St : Type 0) (o : Objects P St) : Type 0 where
  pub add_finalizer_lem :
      (p : P) (f : Text)
      → (has_finalizer o (o.add_finalizer p f).0 f ≡ true)
        × ((o.add_finalizer p f).1 ≡ not (has_finalizer o p f))
  pub remove_finalizer_lem :
      (p : P) (f : Text)
      → (has_finalizer o (o.remove_finalizer p f).0 f ≡ false)
        × ((o.remove_finalizer p f).1 ≡ has_finalizer o p f)
  pub get-set_annotation : (p : P) (k v : Text) → o.get_annotation (o.set_annotation p k v) k ≡ v
  -- Finalizers and the status do not bear on the annotations, nor the status on the finalizers.
  pub get_annotation-remove_finalizer :
      (p : P) (f k : Text) → o.get_annotation (o.remove_finalizer p f).0 k ≡ o.get_annotation p k
  pub get_annotation-set_finalizers :
      (p : P) (fs : List Text) (k : Text)
      → o.get_annotation (o.set_finalizers p fs) k ≡ o.get_annotation p k
  pub has_finalizer-set_status :
      (p q : P) (st : St) (f : Text)
      → o.set_status p st ≡ inr q
      → has_finalizer o q f ≡ has_finalizer o p f

-- What was called, with its answer.
pub data Event (P : Type 0) : Type 0 where
  -- Patch on the source cluster
  patched : P → Option CallError → Event P
  -- Get, Create, Delete and ClientSideApplyObject on the target cluster
  got : ObjectKey → Fetched P → Event P
  created : P → Option CallError → Event P
  deleted : P → Option CallError → Event P
  applied : P → P → Option CallError → Event P
  -- SetOriginal and RemoveOriginal of the mapping
  mapped unmapped : ObjectKey → Option Problem → Event P
  -- SetOwner for the original and its replica
  owned : P → P → Text ⊎ P → Event P
  -- EnqueueByObject on the source cluster
  enqueued : ObjectKey → Event P

-- The answers to the calls, by the calls before; the owner reference changes the replica.
pub record Clusters (P : Type 0) : Type 0 where
  -- r.Cluster.GetId()
  pub source_id : Text
  -- objutils.GenerateUniqueName(prefix, id, name, namespace, max)
  pub generate_unique_name : Text → Text → Text → Text → ℕ → Text
  pub max_namelen : ℕ
  pub max_namespacelen : ℕ
  pub patch : List (Event P) → P → Option CallError
  pub get : List (Event P) → ObjectKey → Fetched P
  pub create : List (Event P) → P → Option CallError
  pub delete : List (Event P) → P → Option CallError
  pub apply : List (Event P) → P → P → Option CallError
  pub set_original : List (Event P) → ObjectKey → Option Problem
  pub remove_original : List (Event P) → ObjectKey → Option Problem
  pub set_owner : List (Event P) → P → P → Text ⊎ P

-- The object of the request, the state of the responsibility handler, and the calls, last first.
pub record State (P H : Type 0) : Type 0 where
  pub object : P
  pub handler : H
  pub events : List (Event P)

-- ResponsibilityHandler
pub record ResponsibilityHandler (P H : Type 0) : Type 0 where
  pub delete : Action (State P H) Unit
  pub is_responsible : Action (State P H) (Bool × Option Problem)
  pub set_responsibility : P → P

-- A call: the answer to it, and its event.
abbrev pub called : {P H A : Type 0} → (List (Event P) → A) → (A → Event P) → Action (State P H) A
called answer event s =
    let a = answer s.events in (value a, record s { events = event a ∷ s.events })
