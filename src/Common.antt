-- ===== src/Common.antt =====
-- internal/controller/common: what the controllers share.
pub mod Cluster
pub mod Responsibility
pub mod Formats
pub mod Indexer
pub mod Fqdn
pub mod Calls
pub mod Validate
use kubedns.Prelude.{}
pub mod Witnesses
