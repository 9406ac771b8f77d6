-- ===== src/Direct/Deployment/Cleanup/Calling.antt =====
-- The cleanup only calls: it leaves the object of the request alone.
use kubedns.Prelude.{nat_beq, is_empty, Text, ℕ, not, Option, none, some, List}
use kubedns.Api.{ObjectKey}
use kubedns.Common.Calls.{CallError, missing, other}
use kubedns.Common.Cluster.{Fetched, found, not_found, get_error}
use kubedns.Direct.Deployment.{
  Clusters, Secret, Namespace, got_secret, deleted_secret, got_namespace, deleted_namespace,
  index_asked,
}
use kubedns.Direct.Deployment.Modes.{Mode, local_mode, runtime_mode, ModeOptions, runtime_namespace}
use kubedns.Direct.Deployment.Cleanup.{
  unless_missing, remove_secret, await_finalizers, remove_namespace, cleanup_namespace,
  cleanup_unused, cleanup,
}
use kubedns.Direct.Deployment.Growth.{
  Appends, >>=-Appends, called-Appends, noted-Appends, pure-Appends, return-Appends, if-Appends,
}

module _ (c : Clusters) (o : ModeOptions) where
  unless_missing-Appends : (e : Option CallError) → Appends Unit (unless_missing c o e)
  unfolding unless_missing
  unless_missing-Appends none = pure-Appends
  unless_missing-Appends (some (missing m)) = pure-Appends
  unless_missing-Appends (some (other m)) = return-Appends

  remove_secret-Appends :
      (k : ObjectKey) (f : Fetched Secret) → Appends Unit (remove_secret c o k f)
  unfolding remove_secret
  remove_secret-Appends k not_found = pure-Appends
  remove_secret-Appends k (get_error m) = return-Appends
  remove_secret-Appends k (found s) = if-Appends s.deleting return-Appends (
      >>=-Appends (called-Appends (λ log. c.delete_secret log k) (deleted_secret k))
        unless_missing-Appends)

  await_finalizers-Appends : (fs : List Text) → Appends Unit (await_finalizers c o fs)
  await_finalizers-Appends fs = if-Appends (is_empty fs) pure-Appends return-Appends

  remove_namespace-Appends :
      (n : Text) (f : Fetched Namespace) → Appends Unit (remove_namespace c o n f)
  unfolding remove_namespace
  remove_namespace-Appends n not_found = pure-Appends
  remove_namespace-Appends n (get_error m) = return-Appends
  remove_namespace-Appends n (found s) =
      if-Appends s.deleting (await_finalizers-Appends s.finalizers) (
        >>=-Appends (called-Appends (λ log. c.delete_namespace log n) (deleted_namespace n)) (λ e.
          >>=-Appends (unless_missing-Appends e) (λ u. await_finalizers-Appends s.finalizers)))

  cleanup_namespace-Appends : (key : ObjectKey) → Appends Unit (cleanup_namespace c o key)
  unfolding cleanup_namespace
  cleanup_namespace-Appends key =
      let n = runtime_namespace c o runtime_mode key in
      if-Appends (is_empty o.runtime_namespace)
        (>>=-Appends (called-Appends (λ log. c.get_namespace log n) (got_namespace n))
          (remove_namespace-Appends n))
        pure-Appends

  cleanup_unused-Appends :
      (key k : ObjectKey) (users : ℕ) → Appends Unit (cleanup_unused c o key k users)
  unfolding cleanup_unused
  cleanup_unused-Appends key k users = if-Appends (not (nat_beq users 0)) return-Appends (
      >>=-Appends (called-Appends (λ log. c.get_secret log k) (got_secret k)) (λ f.
        >>=-Appends (remove_secret-Appends k f)
          (λ u. >>=-Appends (cleanup_namespace-Appends key) (λ v. return-Appends {p = none}))))

  pub cleanup-Appends :
      (m : Mode) (key : ObjectKey) (name : Text) → Appends Unit (cleanup c o m key name)
  unfolding cleanup
  cleanup-Appends local_mode key name = >>=-Appends noted-Appends (λ u. return-Appends {p = none})
  cleanup-Appends runtime_mode key name =
      let k : ObjectKey = record { namespace = key.namespace; name = name } in
      >>=-Appends noted-Appends (λ u.
        >>=-Appends (called-Appends (λ log. c.users_for log k) (index_asked k))
          (cleanup_unused-Appends key k))
