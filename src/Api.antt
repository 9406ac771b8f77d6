-- ===== src/Api.antt =====
-- The custom resources of api/coredns/v1alpha1, with the part of the Kubernetes metadata that the
-- controllers read: hostedzone_types.go, corednsentry_types.go and conditions.go.
pub mod Conditions
use kubedns.Prelude.{Text, ℤ, ℕ, Bool, Option, List}

-- client.ObjectKey
pub record ObjectKey : Type 0 where
  pub namespace : Text
  pub name : Text

-- metav1.ObjectMeta: `deleting` says that the deletion timestamp is set.
pub record ObjectMeta : Type 0 where
  pub name : Text
  pub namespace : Text
  pub resource_version : Text
  pub generation : ℕ
  pub deleting : Bool
  pub finalizers : List Text
  pub annotations : List (Text × Text)

-- metav1.ConditionStatus
pub data ConditionStatus : Type 0 where
  status_true status_false status_unknown : ConditionStatus

-- metav1.Condition; its field `Type` is `kind` here.
pub record Condition : Type 0 where
  pub kind : Text
  pub status : ConditionStatus
  pub observed_generation : ℕ
  pub reason : Text
  pub message : Text

pub record HostedZoneSpec : Type 0 where
  pub class : Option Text
  pub runtime : Option Text
  pub domain_names : List Text
  pub email : Text
  pub refresh : ℤ
  pub retry : ℤ
  pub expire : ℤ
  pub minimum_ttl : ℤ
  pub parent_ref : Text

pub record Observed : Type 0 where
  pub class : Text
  pub runtime : Text

pub record HostedZoneStatus : Type 0 where
  pub conditions : List Condition
  pub state : Text
  pub message : Text
  pub name_servers : List Text
  pub observed : Option Observed

pub record HostedZone : Type 0 where
  pub meta : ObjectMeta
  pub spec : HostedZoneSpec
  pub status : HostedZoneStatus

pub record SrvRecord : Type 0 where
  pub protocol : Text
  pub priority : ℤ
  pub weight : ℤ
  pub port : ℤ
  pub host : Text

pub record ServiceSpec : Type 0 where
  pub service : Text
  pub records : List SrvRecord

pub record CoreDnsSpec : Type 0 where
  pub zone_ref : Text
  pub dns_names : List Text
  pub ttl : ℤ
  pub a : List Text
  pub aaaa : List Text
  pub txt : List Text
  pub srv : Option ServiceSpec
  pub cname : Text
  pub ns : List Text

pub record CoreDnsStatus : Type 0 where
  pub conditions : List Condition
  pub state : Text
  pub message : Text
  pub root_zone : Text
  pub effective_domain_names : List Text

pub record CoreDnsEntry : Type 0 where
  pub meta : ObjectMeta
  pub spec : CoreDnsSpec
  pub status : CoreDnsStatus
