-- ===== src/Direct/Deployment/Applying/Calling.antt =====
-- The deployment of a server only adds calls; of the object it changes the status.
use kubedns.Prelude.{
  Text, text, ◌≡◌, refl, sym, ap, ◌∙◌, ◌⊎◌, inl, inr, Bool, true, false, Option, none, some, [],
  ◌∷◌, ◌++◌,
}
use kubedns.Api.{HostedZone}
use kubedns.Common.Calls.{Holds, ignore_not_found, temporary_problem}
use kubedns.Common.Cluster.{Fetched, found, not_found, get_error, Problem, temporary}
use kubedns.Direct.Readiness.{Service}
use kubedns.Direct.Deployment.{
  State, Side, dataplane, runtime, Decoded, Applied, applied_to, apply_error, got_object,
  deleted_object, applied, got_service,
}
use kubedns.Direct.Deployment.Manifests.{Deployer, Manifests}
use kubedns.Direct.Deployment.Removing.{delete_found, delete_decoded, delete_manifest}
use kubedns.Direct.Deployment.Reporting.{Deployed, change_of, change}
use kubedns.Direct.Deployment.Applying.{
  of_applied, apply_data, of_dataplane_applied, apply_dataplane, apply_dns_runtime, of_service_read,
  note_service, note_deployment, of_runtime_applied, apply_runtime, check_not_modifiable_error,
}
use kubedns.Direct.Deployment.Growth.{
  Extends, Extends-refl, meta_of, Appends, >>=-Appends, called-Appends, pure-Appends,
  return-Appends, if-Appends, early-Appends,
}

module _ (d : Deployer) where
  change_of-Extends :
      (f : HostedZone → HostedZone) (o : Option HostedZone) (s : State)
      → ((z : HostedZone) → (f z).meta ≡ z.meta)
      → s.object ≡ o
      → Holds (λ u t. Extends s t) (λ e t. Extends s t) (change_of d f o s)
  change_of-Extends f none s same e = Extends-refl s
  change_of-Extends f (some z) s same e =
      (ap (λ m. some m) (same z) ∙ sym (ap meta_of e), ([], refl))

  pub change-Appends :
      (f : HostedZone → HostedZone)
      → ((z : HostedZone) → (f z).meta ≡ z.meta)
      → Appends Unit (change d f)
  change-Appends f same = record { holds = λ s. change_of-Extends f s.object s same refl }

  of_applied-Appends : (a : Applied) → Appends Applied (of_applied d a)
  unfolding of_applied
  of_applied-Appends (applied_to o) = pure-Appends
  of_applied-Appends (apply_error i m) =
      >>=-Appends (change-Appends _ (λ z. refl)) (λ u. pure-Appends {a = apply_error i m})

  apply_data-Appends : (doc : Text) → Appends Applied (apply_data d doc)
  unfolding apply_data
  apply_data-Appends doc =
      >>=-Appends (called-Appends (λ log. d.clusters.apply log runtime doc) (applied runtime doc))
        of_applied-Appends

  of_dataplane_applied-Appends :
      (m : Text) (a : Applied) → Appends Unit (of_dataplane_applied d m a)
  unfolding of_dataplane_applied
  of_dataplane_applied-Appends m (applied_to o) = pure-Appends
  of_dataplane_applied-Appends m (apply_error i e) = return-Appends

  pub apply_dataplane-Appends : (m : Text) (ms : Manifests) → Appends Unit (apply_dataplane d m ms)
  unfolding apply_dataplane
  apply_dataplane-Appends m [] = pure-Appends
  apply_dataplane-Appends m ((n, doc) ∷ ms) =
      >>=-Appends
        (called-Appends (λ log. d.clusters.apply log dataplane doc) (applied dataplane doc))
        (λ a. >>=-Appends (of_dataplane_applied-Appends m a) (λ u. apply_dataplane-Appends m ms))

  pub apply_dns_runtime-Appends : (ms : Manifests) → Appends Unit (apply_dns_runtime d ms)
  unfolding apply_dns_runtime
  apply_dns_runtime-Appends [] = pure-Appends
  apply_dns_runtime-Appends ((n, doc) ∷ ms) = >>=-Appends (apply_data-Appends doc) (λ a.
      >>=-Appends (of_dataplane_applied-Appends (text "error deploying nameserver dns runtime: ") a)
        (λ u. apply_dns_runtime-Appends ms))

  of_service_read-Appends :
      (r : Deployed) (f : Fetched Service) → Appends Deployed (of_service_read d r f)
  unfolding of_service_read
  of_service_read-Appends r (found s) = pure-Appends
  of_service_read-Appends r not_found = pure-Appends
  of_service_read-Appends r (get_error m) = early-Appends

  note_service-Appends : (o : Decoded) (r : Deployed) → Appends Deployed (note_service d o r)
  unfolding note_service
  note_service-Appends o r =
      if-Appends o.is_service
        (>>=-Appends (called-Appends (λ log. d.clusters.get_service log o.key) (got_service o.key))
          (of_service_read-Appends r))
        pure-Appends

  delete_found-Appends :
      (side : Side) (doc : Text) (f : Fetched Bool)
      → Appends (Option Problem) (delete_found d side doc f)
  unfolding delete_found
  delete_found-Appends side doc not_found = pure-Appends
  delete_found-Appends side doc (get_error m) = pure-Appends
  delete_found-Appends side doc (found true) = pure-Appends
  delete_found-Appends side doc (found false) =
      >>=-Appends
        (called-Appends (λ log. d.clusters.delete_object log side doc) (deleted_object side doc))
        (λ e. pure-Appends {a = temporary_problem (ignore_not_found e)})

  delete_decoded-Appends :
      (side : Side) (doc : Text) (o : Text ⊎ Decoded)
      → Appends (Option Problem) (delete_decoded d side doc o)
  unfolding delete_decoded
  delete_decoded-Appends side doc (inl m) = pure-Appends
  delete_decoded-Appends side doc (inr o) =
      >>=-Appends
        (called-Appends (λ log. d.clusters.get_object log side o.key) (got_object side o.key))
        (delete_found-Appends side doc)

  delete_manifest-Appends :
      (side : Side) (doc : Text) → Appends (Option Problem) (delete_manifest d side doc)
  unfolding delete_manifest
  delete_manifest-Appends side doc = delete_decoded-Appends side doc (d.decode doc)

  of_runtime_applied-Appends :
      (doc : Text) (r : Deployed) (a : Applied) → Appends Deployed (of_runtime_applied d doc r a)
  unfolding of_runtime_applied
  of_runtime_applied-Appends doc r (applied_to o) = note_service-Appends o (note_deployment d o r)
  of_runtime_applied-Appends doc r (apply_error i m) =
      >>=-Appends
        (if-Appends (check_not_modifiable_error i m) (delete_manifest-Appends runtime doc)
          pure-Appends)
        (λ p. early-Appends {p = some (temporary (text "error deploying runtime: " ++ m))})

  pub apply_runtime-Appends :
      (ms : Manifests) (r : Deployed) → Appends Deployed (apply_runtime d ms r)
  unfolding apply_runtime
  apply_runtime-Appends [] r = pure-Appends
  apply_runtime-Appends ((n, doc) ∷ ms) r =
      >>=-Appends (apply_data-Appends doc)
        (λ a. >>=-Appends (of_runtime_applied-Appends doc r a) (λ r'. apply_runtime-Appends ms r'))
