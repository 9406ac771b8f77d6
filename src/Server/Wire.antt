-- ===== src/Server/Wire.antt =====
-- api/server/v1/api.go: what the server sends to the plugin.
use kubedns.Prelude.{Text, ℤ, ℕ, List}
use kubedns.Api.{ServiceSpec}

pub record Zone : Type 0 where
  pub serial_id : ℕ
  pub name_servers : List Text
  pub names : List Text
  pub email : Text
  pub minimum_ttl : ℤ
  pub expire : ℤ
  pub refresh : ℤ
  pub retry : ℤ

pub record Records : Type 0 where
  pub ttl : ℤ
  pub a : List Text
  pub aaaa : List Text
  pub txt : List Text
  pub srv : List ServiceSpec
  pub cname : Text
  pub ns : List Text

pub record Info : Type 0 where
  pub zone : Zone
  pub names : List Text
  pub records : Records

pub record Answer : Type 0 where
  pub error : Text
  pub infos : List Info
