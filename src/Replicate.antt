-- ===== src/Replicate.antt =====
-- internal/controller/replicate: the controllers that copy zones and entries from a source cluster
-- to a target cluster.
pub mod Options
pub mod Objects
pub mod Events
pub mod Actions
pub mod Logic
pub mod Zones
pub mod Entries
pub mod Sample
pub mod Witnesses
use kubedns.Prelude.{}
