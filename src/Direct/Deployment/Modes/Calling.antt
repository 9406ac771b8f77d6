-- ===== src/Direct/Deployment/Modes/Calling.antt =====
-- The modes only call: they leave the object of the request alone.
use kubedns.Prelude.{Text, text, ◌⊎◌, inl, inr, Bool, true, false, Option, none, List, [], ◌∷◌}
use kubedns.Api.{ObjectKey}
use kubedns.Common.Calls.{temporary_problem}
use kubedns.Common.Cluster.{Fetched, found, not_found, get_error}
use kubedns.Direct.Deployment.{
  Clusters, Secret, Namespace, got_secret, created_secret, got_namespace, created_namespace,
}
use kubedns.Direct.Deployment.Modes.{
  Values, Mode, local_mode, runtime_mode, ModeOptions, of_secret_read, access_values, values_with,
  values, prepare, of_namespace_read, runtime_namespace, of_created, base_name, values_of,
  of_created,
}
use kubedns.Direct.Deployment.Growth.{
  Appends, >>=-Appends, called-Appends, return-Appends, Continues, >>=-Continues, called-Continues,
  noted-Continues, pure-Continues,
}

module _ (c : Clusters) (o : ModeOptions) where
  -- Values for the templates, with an error.
  abbrev Result : Type 0
  Result = List (Text × Text) × Option Text

  of_secret_read-Continues :
      (deleting : Bool) (k : ObjectKey) (f : Fetched Secret)
      → Continues Result (of_secret_read c o deleting k f)
  unfolding of_secret_read
  of_secret_read-Continues deleting k (found s) = pure-Continues
  of_secret_read-Continues deleting k (get_error m) = pure-Continues
  of_secret_read-Continues true k not_found = pure-Continues
  of_secret_read-Continues false k not_found =
      >>=-Continues (called-Continues (λ log. c.create_secret log k) (created_secret k))
        (λ e. pure-Continues {a = of_created c o e})

  pub access_values-Continues :
      (m : Mode) (key : ObjectKey) (name : Text) (deleting : Bool)
      → Continues Result (access_values c o m key name deleting)
  unfolding access_values
  access_values-Continues local_mode key name deleting =
      >>=-Continues noted-Continues
        (λ u. pure-Continues {a = ((text "serviceaccount", name) ∷ [], none)})
  access_values-Continues runtime_mode key name deleting =
      let k : ObjectKey = record { namespace = key.namespace; name = name } in
      >>=-Continues noted-Continues (λ u.
        >>=-Continues (called-Continues (λ log. c.get_secret log k) (got_secret k))
          (of_secret_read-Continues deleting k))

  values_with-Continues :
      (m : Mode) (key : ObjectKey) (deleting : Bool) (url : Text ⊎ Text)
      → Continues (Option Values × Option Text) (values_with c o m key deleting url)
  unfolding values_with
  values_with-Continues m key deleting (inl e) = pure-Continues
  values_with-Continues m key deleting (inr url) =
      >>=-Continues (access_values-Continues m key base_name deleting)
        (λ a. pure-Continues {a = values_of c o m key url a})

  pub values-Continues :
      (m : Mode) (key : ObjectKey) (deleting : Bool)
      → Continues (Option Values × Option Text) (values c o m key deleting)
  unfolding values
  values-Continues m key deleting = values_with-Continues m key deleting c.api_server_url

  of_namespace_read-Appends :
      (n : Text) (f : Fetched Namespace) → Appends Unit (of_namespace_read c o n f)
  unfolding of_namespace_read
  of_namespace_read-Appends n (found s) = return-Appends
  of_namespace_read-Appends n (get_error m) = return-Appends
  of_namespace_read-Appends n not_found =
      >>=-Appends (called-Appends (λ log. c.create_namespace log n) (created_namespace n))
        (λ e. return-Appends {p = temporary_problem e})

  pub prepare-Appends : (m : Mode) (key : ObjectKey) → Appends Unit (prepare c o m key)
  unfolding prepare
  prepare-Appends local_mode key = return-Appends
  prepare-Appends runtime_mode key =
      let n = runtime_namespace c o runtime_mode key in
      >>=-Appends (called-Appends (λ log. c.get_namespace log n) (got_namespace n))
        (of_namespace_read-Appends n)
