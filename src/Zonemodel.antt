-- ===== src/Zonemodel.antt =====
-- internal/controller/server/zonemodel: the zones that the DNS server answers for.
pub mod Names
pub mod Keys
pub mod Outcome
pub mod Model
pub mod Resolve
pub mod Histories
pub mod Examples
pub mod Witnesses
