-- ===== src/Server.antt =====
-- internal/controller/server: the component that answers the plugin's queries, and the controllers
-- that feed it.
pub mod Wire
pub mod Records
pub mod Indexer
pub mod Handlers
pub mod Options
pub mod ZoneRequest
pub mod EntryRequest
use kubedns.Prelude.{}
pub mod Witnesses
