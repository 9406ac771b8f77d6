-- ===== src/Direct.antt =====
-- internal/controller/direct: the controllers that deploy a server per zone and sum up the states.
pub mod Fields
pub mod Conditions
pub mod ZoneValidation
pub mod Readiness
pub mod DnsModes
pub mod Render
pub mod Options
pub mod Deployment
pub mod EntryRequest
use kubedns.Prelude.{}
pub mod ZoneRequest
pub mod Witnesses
