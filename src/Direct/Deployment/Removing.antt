-- ===== src/Direct/Deployment/Removing.antt =====
-- delete.go, and `delete`, `DeleteManifest`, `ReconcileDeleting` and the manifests of a DNS mode:
-- how the server of a zone is removed, and when the zone is released. Of the messages
-- of problems only the fixed text and that of the cause are kept.
pub mod Deleting
pub mod Cleaning
pub mod Releasing
use kubedns.Prelude.{
  if◌then◌else◌, nat_eq, is_empty, Text, text, text_eq, ◌⊎◌, inl, inr, Bool, true, false, not,
  Option, none, some, [], ◌∷◌, ◌++◌,
}
use kubedns.Api.{HostedZone, status_false}
use kubedns.Api.Conditions.{reason_runtime_internal_error, runtime_condition_type}
use kubedns.Common.Calls.{
  ◌>>=◌, ◌>>◌, Action, CallError, ignore_not_found, temporary_problem, value, panicked, pure,
  return, return_problem, caught, gets,
}
use kubedns.Common.Cluster.{
  Fetched, found, not_found, get_error, Problem, failed, temporary, requeue, contains,
}
use kubedns.Direct.Conditions.{set_condition}
use kubedns.Direct.Deployment.Manifests.{Deployer, Manifests, dns_manifests_deleting}
use kubedns.Direct.Deployment.{
  State, Side, dataplane, runtime, Decoded, called, patched, got_object, deleted_object,
}
use kubedns.Direct.Deployment.Modes.{Values, values}
use kubedns.Direct.Deployment.Cleanup.{cleanup}

module _ (d : Deployer) where
  abbrev pub set_object : HostedZone → Action State Unit
  set_object z s = (value tt, record s { object = some z })

  unfoldable pub delete_found : Side → Text → Fetched Bool → Action State (Option Problem)
  unfolding temporary_problem ignore_not_found
  delete_found side doc not_found = pure none
  delete_found side doc (get_error m) = pure (some (temporary (text "error getting object: " ++ m)))
  delete_found side doc (found true) =
      pure (some (requeue (text "resource is still being deleted")))
  delete_found side doc (found false) = do
    e ← called (λ log. d.clusters.delete_object log side doc) (deleted_object side doc)
    pure (temporary_problem (ignore_not_found e))

  unfoldable pub delete_decoded : Side → Text → Text ⊎ Decoded → Action State (Option Problem)
  unfolding delete_found
  delete_decoded side doc (inl m) = pure (some (failed (text "error decoding manifest: " ++ m)))
  delete_decoded side doc (inr o) = do
    f ← called (λ log. d.clusters.get_object log side o.key) (got_object side o.key)
    delete_found side doc f

  -- `DeleteManifest`
  unfoldable pub delete_manifest : Side → Text → Action State (Option Problem)
  unfolding delete_decoded
  delete_manifest side doc = delete_decoded side doc (d.decode doc)

  -- A loop over manifests that aggregates the problems.
  unfoldable pub delete_manifests :
      Side → Manifests → Option Problem → Action State (Option Problem)
  unfolding delete_manifest
  delete_manifests side [] prob = pure prob
  delete_manifests side ((n, doc) ∷ ms) prob = do
    p ← delete_manifest side doc
    delete_manifests side ms (d.aggregate prob p)

  -- The two loops for a DNS mode; they go over the manifests of the server.
  unfoldable pub delete_if :
      Bool → Side → Manifests → Option Problem → Action State (Option Problem)
  unfolding delete_manifests
  delete_if false side ms prob = pure prob
  delete_if true side ms prob = delete_manifests side ms prob

  -- The mode cleans up when nothing went wrong; nil values are read here, a panic.
  unfoldable pub clean_up : Option Values → Option Problem → Action State Unit
  unfolding cleanup
  clean_up v (some p) = return (some p)
  clean_up none none = λ s. (panicked, s)
  clean_up (some v) none = do cleanup d.clusters d.mode_options d.mode d.key v.name; return none

  unfoldable pub delete_server : Option Values → Manifests × Manifests → Action State Unit
  unfolding delete_manifests clean_up
  delete_server v (data_ms, run_ms) = do
    p ← delete_manifests runtime run_ms none
    q ← delete_manifests dataplane data_ms p
    clean_up v q

  unfoldable pub delete_all :
      Option Values → Manifests × Manifests → (Manifests × Manifests) ⊎ Problem → Action State Unit
  unfolding delete_if delete_server
  delete_all v ms (inr prob) = return (some prob)
  delete_all v (data_ms, run_ms) (inl (dns_data, dns_run)) = do
    p ← delete_if (not (is_empty dns_run)) runtime run_ms none
    q ← delete_if (not (is_empty dns_data)) dataplane data_ms p
    return_problem q
    delete_server v (data_ms, run_ms)

  -- The condition is set on an object that may be nil.
  unfoldable pub report_on : Text → Option HostedZone → Action State Unit
  unfolding set_condition
  report_on m none = λ s. (panicked, s)
  report_on m (some z) = set_object (record z {
    status = record z.status {
      conditions = set_condition d.external z z.status.conditions (record {
        kind = runtime_condition_type;
        status = status_false;
        observed_generation = 0;
        reason = reason_runtime_internal_error;
        message = m;
      });
    };
  })

  unfoldable pub report_render_error : Text → Action State Unit
  unfolding report_on
  report_render_error m = do obj ← gets (λ s. s.object); report_on m obj

  unfoldable pub of_rendered : Option Values → Text ⊎ (Manifests × Manifests) → Action State Unit
  unfolding report_render_error delete_all dns_manifests_deleting
  of_rendered v (inl m) = do report_render_error m; return (some (failed m))
  of_rendered v (inr ms) = delete_all v ms (dns_manifests_deleting d v)

  -- `DeleteExternalResources`
  unfoldable pub delete_external_resources : Action State Unit
  unfolding values of_rendered
  delete_external_resources = do
    r ← values d.clusters d.mode_options d.mode d.key true
    of_rendered r.0 (d.render d.manifests r.0)

  -- if err != nil { return TemporaryProblem(client.IgnoreNotFound(err)) }
  unfoldable pub return_error : Option CallError → Action State Unit
  unfolding temporary_problem ignore_not_found
  return_error none = pure tt
  return_error (some e) = return (temporary_problem (ignore_not_found (some e)))

  -- A patch, when the object was changed.
  unfoldable pub patch_if : Bool → HostedZone → Action State Unit
  unfolding return_error
  patch_if false z = pure tt
  patch_if true z = do e ← called (λ log. d.clusters.patch log z) (patched z); return_error e

  -- Everything is deleted: the finalizer goes.
  unfoldable pub release : Option HostedZone → Action State Unit
  unfolding patch_if
  release none = return none
  release (some z) = do
    let (z', changed) = d.remove_finalizer z d.finalizer
    set_object z'
    patch_if changed z'
    return none

  unfoldable pub delete_then_release : Action State Unit
  unfolding delete_external_resources release
  delete_then_release = do
    p ← caught delete_external_resources
    return_problem p
    obj ← gets (λ s. s.object)
    release obj

  -- `delete`, also `ReconcileDeleting`
  unfoldable pub delete_of : Option HostedZone → Action State Unit
  unfolding delete_then_release contains
  delete_of none = delete_then_release
  delete_of (some z) =
      if contains z.meta.finalizers d.finalizer then delete_then_release else return none

  unfoldable pub delete : Action State Unit
  unfolding delete_of
  delete = do obj ← gets (λ s. s.object); delete_of obj
