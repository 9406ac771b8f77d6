-- ===== src/Direct/Deployment/Modes.antt =====
-- mode_local.go, mode_runtime.go, modes.go and values.go: where a server is deployed, how it gets
-- access to the zones, and the values for the templates. Simulation is only used by a test program
-- and left out, so is logging.
pub mod Calling
pub mod Describing
use kubedns.Prelude.{
  if◌then◌else◌, nat_eq, is_empty, put, Text, text, text_eq, ℕ, ◌⊎◌, inl, inr, Bool, true, false,
  not, Option, none, some, List, [], ◌∷◌, ◌++◌,
}
use kubedns.Api.{ObjectKey}
use kubedns.Common.Calls.{
  ◌>>=◌, ◌>>◌, Action, CallError, missing, other, temporary_problem, pure, return,
}
use kubedns.Common.Cluster.{Fetched, found, not_found, get_error, temporary}
use kubedns.Direct.Deployment.{
  Clusters, State, Secret, Namespace, called, noted, got_secret, created_secret, got_namespace,
  created_namespace, index_added, index_removed,
}

-- BASE
abbrev pub base_name : Text
base_name = text "dns-service"

-- LocalMode and RuntimeMode
pub data Mode : Type 0 where
  local_mode runtime_mode : Mode

-- The values of dnsKubedns.
pub record DnsValues : Type 0 where
  pub name : Text
  pub namespace : Text
  pub dnsnames : List Text
  pub class : Option Text
  pub ips : List Text
  pub cname : Option Text

-- The values for the templates; `access` is a map of its own.
pub record Values : Type 0 where
  pub namespace : Text
  pub server : Text
  pub name : Text
  pub label : Text
  pub access : List (Text × Text)
  pub zone : Text
  pub platform : Text
  pub runtime_namespace : Text
  pub secret_name : Text
  pub runtime_name : Text
  pub runtime_label : Text
  pub replicas : ℕ
  pub dns : Option DnsValues

-- `mergeValues`
unfoldable pub merge_values : List (Text × Text) → List (Text × Text) → List (Text × Text)
unfolding put
merge_values dst [] = dst
merge_values dst ((k, v) ∷ src) = merge_values (put k v dst) src

-- The options of the modes.
pub record ModeOptions : Type 0 where
  pub runtime_namespace : Text
  pub platform : Text

module _ (c : Clusters) (o : ModeOptions) where
  unfoldable pub runtime_namespace : Mode → ObjectKey → Text
  runtime_namespace local_mode key = key.namespace
  runtime_namespace runtime_mode key =
      if not (is_empty o.runtime_namespace)
      then o.runtime_namespace
      else c.generate_unique_name base_name c.id [] key.namespace c.max_namespacelen

  unfoldable pub runtime_secret_name : Mode → ObjectKey → Text
  runtime_secret_name local_mode key = []
  runtime_secret_name runtime_mode key =
      if not (is_empty o.runtime_namespace)
      then c.generate_unique_name base_name c.id [] key.namespace c.max_namespacelen
      else base_name

  unfoldable pub runtime_deployment_name : Mode → ObjectKey → Text
  runtime_deployment_name local_mode key = base_name ++ (text "-" ++ key.name)
  runtime_deployment_name runtime_mode key =
      if not (is_empty o.runtime_namespace)
      then c.generate_unique_name base_name c.id key.namespace key.name c.max_namelen
      else c.generate_unique_name base_name c.id [] key.name c.max_namelen

  -- The values of a secret, or an error while there is no token.
  unfoldable pub of_secret : Secret → List (Text × Text) × Option Text
  of_secret s = elim s.token [
    | none ↦ ([], some (text "token not yet available"))
    | some t ↦ elim s.ca_crt [
      | none ↦ ((text "token", t) ∷ [], none)
      | some cert ↦ ((text "token", t) ∷ (text "cadata", cert) ∷ [], none)
    ]
  ]

  abbrev call_message : CallError → Text
  call_message (missing m) = m
  call_message (other m) = m

  -- A secret that was created has no data yet.
  abbrev pub of_created : Option CallError → List (Text × Text) × Option Text
  of_created none = ([], some (text "token not yet available"))
  of_created (some e) = ([], some (call_message e))

  unfoldable pub of_secret_read :
      Bool → ObjectKey → Fetched Secret → Action State (List (Text × Text) × Option Text)
  unfolding of_secret
  of_secret_read deleting key (found s) = pure (of_secret s)
  of_secret_read deleting key (get_error m) = pure ([], some m)
  of_secret_read true key not_found = pure ([], none)
  of_secret_read false key not_found = do
    e ← called (λ log. c.create_secret log key) (created_secret key)
    pure (of_created e)

  -- `AccessValues`: the values and the error.
  unfoldable pub access_values :
      Mode → ObjectKey → Text → Bool → Action State (List (Text × Text) × Option Text)
  unfolding of_secret_read
  access_values local_mode key name deleting = do
    noted (index_removed key (record { namespace = key.namespace; name = name }))
    pure ((text "serviceaccount", name) ∷ [], none)
  access_values runtime_mode key name deleting = do
    let k : ObjectKey = record { namespace = key.namespace; name = name }
    noted (index_added key k)
    f ← called (λ log. c.get_secret log k) (got_secret k)
    of_secret_read deleting k f

  -- The values for a URL, with those of the access merged in; and the error of the access.
  unfoldable pub values_of :
      Mode → ObjectKey → Text → List (Text × Text) × Option Text → Option Values × Option Text
  unfolding merge_values runtime_namespace runtime_secret_name runtime_deployment_name
  values_of m key url (tmp, repeat) = (
    some (record {
      namespace = key.namespace;
      server = url;
      name = base_name;
      label = base_name;
      access = merge_values ((text "token", []) ∷ (text "cadata", []) ∷ []) tmp;
      zone = key.name;
      platform = o.platform;
      runtime_namespace = runtime_namespace m key;
      secret_name = runtime_secret_name m key;
      runtime_name = runtime_deployment_name m key;
      runtime_label = runtime_deployment_name m key;
      replicas = 1;
      dns = none;
    }),
    repeat,
  )

  -- `Values`: nil with an error when there is no URL.
  unfoldable pub values_with :
      Mode → ObjectKey → Bool → Text ⊎ Text → Action State (Option Values × Option Text)
  unfolding access_values values_of
  values_with m key deleting (inl e) = pure (none, some e)
  values_with m key deleting (inr url) = do
    a ← access_values m key base_name deleting
    pure (values_of m key url a)

  unfoldable pub values : Mode → ObjectKey → Bool → Action State (Option Values × Option Text)
  unfolding values_with
  values m key deleting = values_with m key deleting c.api_server_url

  unfoldable pub of_namespace_read : Text → Fetched Namespace → Action State Unit
  unfolding temporary_problem
  of_namespace_read n (found s) = return none
  of_namespace_read n (get_error m) = return (some (temporary m))
  of_namespace_read n not_found = do
    e ← called (λ log. c.create_namespace log n) (created_namespace n)
    return (temporary_problem e)

  -- `Prepare`
  unfoldable pub prepare : Mode → ObjectKey → Action State Unit
  unfolding of_namespace_read runtime_namespace
  prepare local_mode key = return none
  prepare runtime_mode key = do
    let n = runtime_namespace runtime_mode key
    f ← called (λ log. c.get_namespace log n) (got_namespace n)
    of_namespace_read n f
