-- ===== src/Direct/Deployment.antt =====
-- internal/controller/direct/hostedzone: the deployment of a server for a zone. What the clusters,
-- the templates and the index of secrets do is a parameter: a call is an event, and its answer may
-- depend on all that was called before.
pub mod Modes
pub mod Cleanup
pub mod Manifests
pub mod Removing
pub mod Reporting
pub mod Applying
pub mod Reconciling
pub mod Witnesses
pub mod Growth
use kubedns.Prelude.{Text, ℕ, ◌⊎◌, Bool, Option, List, ◌∷◌}
use kubedns.Api.{HostedZone, ObjectKey}
use kubedns.Common.Calls.{Action, CallError, value}
use kubedns.Common.Cluster.{Fetched}
use kubedns.Direct.Readiness.{Deployment, Service}

-- corev1.Secret: the two fields of its data, nil when they are missing.
pub record Secret : Type 0 where
  pub token : Option Text
  pub ca_crt : Option Text
  pub deleting : Bool

-- corev1.Namespace
pub record Namespace : Type 0 where
  pub deleting : Bool
  pub finalizers : List Text

-- The cluster of the zones, or that of the servers.
pub data Side : Type 0 where
  dataplane runtime : Side

-- What a manifest is about, and what the code asks of the kind.
pub record Decoded : Type 0 where
  pub key : ObjectKey
  pub is_deployment : Bool
  pub is_service : Bool

-- The answer of ClientSideApply: the object, or an error with its message, of which
-- `errors.IsInvalid` holds or not.
pub data Applied : Type 0 where
  applied_to : Decoded → Applied
  apply_error : Bool → Text → Applied

pub data Event : Type 0 where
  patched : HostedZone → Option CallError → Event
  got_secret : ObjectKey → Fetched Secret → Event
  created_secret deleted_secret : ObjectKey → Option CallError → Event
  got_namespace : Text → Fetched Namespace → Event
  created_namespace deleted_namespace : Text → Option CallError → Event
  -- Get of what a manifest is about; the answer says whether it is being deleted.
  got_object : Side → ObjectKey → Fetched Bool → Event
  deleted_object : Side → Text → Option CallError → Event
  applied : Side → Text → Applied → Event
  got_deployment : ObjectKey → Fetched Deployment → Event
  got_service : ObjectKey → Fetched Service → Event
  -- Add and Remove of the index of secrets, for a zone and a secret; and the number of users.
  index_added index_removed : ObjectKey → ObjectKey → Event
  index_asked : ObjectKey → ℕ → Event

pub record Clusters : Type 0 where
  pub patch : List Event → HostedZone → Option CallError
  pub get_secret : List Event → ObjectKey → Fetched Secret
  pub create_secret : List Event → ObjectKey → Option CallError
  pub delete_secret : List Event → ObjectKey → Option CallError
  pub get_namespace : List Event → Text → Fetched Namespace
  pub create_namespace : List Event → Text → Option CallError
  pub delete_namespace : List Event → Text → Option CallError
  pub get_object : List Event → Side → ObjectKey → Fetched Bool
  pub delete_object : List Event → Side → Text → Option CallError
  pub apply : List Event → Side → Text → Applied
  pub get_deployment : List Event → ObjectKey → Fetched Deployment
  pub get_service : List Event → ObjectKey → Fetched Service
  pub users_for : List Event → ObjectKey → ℕ
  -- GetId and GetAPIServerURL of the cluster of the zones: the message of an error, or the URL.
  pub id : Text
  pub api_server_url : Text ⊎ Text
  -- objutils.GenerateUniqueName(prefix, id, namespace, name, max)
  pub generate_unique_name : Text → Text → Text → Text → ℕ → Text
  pub max_namelen : ℕ
  pub max_namespacelen : ℕ

-- The object of the request, nil when it has vanished, and the calls, last first.
pub record State : Type 0 where
  pub object : Option HostedZone
  pub events : List Event

abbrev pub called : {A : Type 0} → (List Event → A) → (A → Event) → Action State A
called answer event s =
    let a = answer s.events in (value a, record s { events = event a ∷ s.events })

-- A call without an answer.
abbrev pub noted : Event → Action State Unit
noted e s = (value tt, record s { events = e ∷ s.events })
