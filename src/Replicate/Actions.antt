-- ===== src/Replicate/Actions.antt =====
-- internal/controller/replicate/common/generic/logic.go: `MapKey`, and the steps that `Reconcile` and
-- `ReconcileDeleting` have in common.
use kubedns.Prelude.{
  if◌then◌else◌, is_empty, Text, text, Bool, true, false, not, Option, none, some, [],
}
use kubedns.Common.Calls.{◌>>=◌, Action, modify, pure, return}
use kubedns.Replicate.Objects.{
  Objects, Clusters, temporary_problem, patched, ResponsibilityHandler, State, ignore_not_found,
  CallError, called,
}
use kubedns.Api.{ObjectKey}
use kubedns.Replicate.Options.{Options}

-- What a reconciliation is made of: the access to the objects, the clusters, the handler (nil is
-- `none`), the finalizer of the controller and the key of the request.
pub record Replicator (P St H : Type 0) : Type 0 where
  pub objects : Objects P St
  pub clusters : Clusters P
  pub resp : Option (ResponsibilityHandler P H)
  pub options : Options
  pub finalizer : Text
  pub key : ObjectKey

module _ {P St H : Type 0} (r : Replicator P St H) where
  abbrev pub set_object : P → Action (State P H) Unit
  set_object p = modify (λ s. record s { object = p })

  abbrev pub patch : P → Action (State P H) (Option CallError)
  patch p = called (λ log. r.clusters.patch log p) (patched p)

  -- `MapKey`
  unfoldable pub map_key : ObjectKey
  map_key =
      let c = r.clusters in
      if not (is_empty r.options.target_namespace)
      then record {
        name =
            c.generate_unique_name (text "replica") c.source_id r.key.name r.key.namespace
              c.max_namelen;
        namespace = r.options.target_namespace;
      }
      else record {
        name = r.key.name;
        namespace =
            c.generate_unique_name (text "replica") c.source_id [] r.key.namespace
              c.max_namespacelen;
      }

  abbrev pub set_responsibility : P → P
  set_responsibility p = elim r.resp [ none ↦ p | some h ↦ h.set_responsibility p ]

  abbrev pub handler_delete : Action (State P H) Unit
  handler_delete = elim r.resp [ none ↦ pure tt | some h ↦ h.delete ]

  -- if b { return nil }
  abbrev pub return_if : Bool → Action (State P H) Unit
  return_if false = pure tt
  return_if true = return none

  -- if err != nil { return TemporaryProblem(client.IgnoreNotFound(err)) }: an object that is
  -- missing ends the reconciliation without a problem.
  unfoldable pub return_error : Option CallError → Action (State P H) Unit
  unfolding temporary_problem ignore_not_found
  return_error none = pure tt
  return_error (some e) = return (temporary_problem (ignore_not_found (some e)))

  -- A patch, when the object was changed.
  unfoldable pub patch_if : Bool → P → Action (State P H) Unit
  unfolding return_error
  patch_if false p = pure tt
  patch_if true p = do e ← patch p; return_error e
