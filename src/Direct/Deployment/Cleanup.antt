-- ===== src/Direct/Deployment/Cleanup.antt =====
-- mode_local.go and mode_runtime.go, `Cleanup`: the secret for the access to the zones and the
-- namespace of the deployments are removed with the last zone that uses them.
pub mod Calling
use kubedns.Prelude.{nat_beq, if◌then◌else◌, is_empty, Text, text, ℕ, not, Option, none, some, List}
use kubedns.Api.{ObjectKey}
use kubedns.Common.Calls.{◌>>=◌, ◌>>◌, Action, CallError, missing, other, pure, return}
use kubedns.Common.Cluster.{Fetched, found, not_found, get_error, temporary, requeue}
use kubedns.Direct.Deployment.{
  Clusters, State, Secret, Namespace, called, noted, got_secret, deleted_secret, got_namespace,
  deleted_namespace, index_removed, index_asked,
}
use kubedns.Direct.Deployment.Modes.{Mode, local_mode, runtime_mode, ModeOptions, runtime_namespace}

module _ (c : Clusters) (o : ModeOptions) where
  -- Only an error that is not about a missing object is a problem.
  unfoldable pub unless_missing : Option CallError → Action State Unit
  unless_missing none = pure tt
  unless_missing (some (missing m)) = pure tt
  unless_missing (some (other m)) = return (some (temporary m))

  unfoldable pub remove_secret : ObjectKey → Fetched Secret → Action State Unit
  unfolding unless_missing
  remove_secret k not_found = pure tt
  remove_secret k (get_error m) = return (some (temporary m))
  remove_secret k (found s) =
      if s.deleting
      then return (some (requeue (text "waiting for secret finalizers to be removed")))
      else called (λ log. c.delete_secret log k) (deleted_secret k) >>= unless_missing

  abbrev pub await_finalizers : List Text → Action State Unit
  await_finalizers fs =
      if is_empty fs
      then pure tt
      else return (some (requeue (text "waiting for namespace finalizers to be removed")))

  unfoldable pub remove_namespace : Text → Fetched Namespace → Action State Unit
  unfolding unless_missing
  remove_namespace n not_found = pure tt
  remove_namespace n (get_error m) = return (some (temporary m))
  remove_namespace n (found s) =
      if s.deleting
      then await_finalizers s.finalizers
      else called (λ log. c.delete_namespace log n) (deleted_namespace n) >>= λ e.
          unless_missing e >> await_finalizers s.finalizers

  -- The namespace of the deployments goes when it is made for the zone's namespace.
  unfoldable pub cleanup_namespace : ObjectKey → Action State Unit
  unfolding remove_namespace runtime_namespace
  cleanup_namespace key =
      let n = runtime_namespace c o runtime_mode key in
      if is_empty o.runtime_namespace
      then called (λ log. c.get_namespace log n) (got_namespace n) >>= remove_namespace n
      else pure tt

  -- While other zones use the secret, it stays, and so does the namespace.
  unfoldable pub cleanup_unused : ObjectKey → ObjectKey → ℕ → Action State Unit
  unfolding remove_secret cleanup_namespace
  cleanup_unused key k users =
      if not (nat_beq users 0)
      then return none
      else called (λ log. c.get_secret log k) (got_secret k) >>= λ f.
          remove_secret k f >> (cleanup_namespace key >> return none)

  -- `Cleanup`
  unfoldable pub cleanup : Mode → ObjectKey → Text → Action State Unit
  unfolding cleanup_unused
  cleanup local_mode key name = do
    noted (index_removed key (record { namespace = key.namespace; name = name }))
    return none
  cleanup runtime_mode key name = do
    let k : ObjectKey = record { namespace = key.namespace; name = name }
    noted (index_removed key k)
    users ← called (λ log. c.users_for log k) (index_asked k)
    cleanup_unused key k users
