-- ===== src/Lib.antt =====
-- Kubedns: a DNS service whose zones and entries are Kubernetes resources. This library models the
-- parts of the program that decide what is served, and proves what they promise.
--
-- The parts, and how they interact. The resources (HostedZone, CoreDNSEntry) live in clusters. The
-- controllers of internal/controller/server validate them, find the root zone of each and keep the
-- zone model up to date, a tree of zones in memory. The web server of the same directory answers the
-- queries of the CoreDNS plugin from that model and from two indexes of entries. In the direct mode
-- (internal/controller/direct) further controllers deploy a server per root zone and sum up the
-- states. The controllers of internal/controller/replicate copy resources to another cluster.
--
-- The files.
-- - Api and Api/Conditions: api/coredns/v1alpha1, the resources as records and the constants.
-- - External: what comes from packages that are not part of the repository (the dns library, the
--   helpers of api/meta, the parsers of addresses), as one record of operations; `Documented` is
--   what their documentation promises. External/Sample has a simple implementation for examples.
-- - Zonemodel: internal/controller/server/zonemodel. Names has `Rdn` and `Join`; Keys the keys;
--   Model has `AddZone`, `RemoveZone` and `GetZone` on a heap of zones, since zones are shared by
--   pointers; Resolve has `Matches`, `ResolveFQDN`, `ResolveIP` and `expand`; Outcome says how a
--   call ends, a panic included. Histories has the states that calls of the model lead to. Examples
--   runs the scenarios of model_test.go.
-- - Common: internal/controller/common. Responsibility has `Check`, `GetRootInfo` and
--   `GetRootInfoForEntry`; Validate and Fqdn the validation; Indexer the two indexers; Formats the
--   texts of messages; Cluster the answers of a read; Calls the actions of a reconciliation.
-- - Server: internal/controller/server. Handlers has `handleNames` and `handleIPs`, Records
--   `prepareInfo`, Indexer the two indexers, ZoneRequest and EntryRequest the two reconciliations,
--   Options `IsMaster`, and Wire the types of api/server/v1.
-- - Direct: internal/controller/direct. Fields and ZoneValidation have hostedzone/validation.go,
--   Conditions hostedzone/conditions.go, ZoneRequest the decisions of hostedzone/request.go,
--   EntryRequest entry/request.go, Readiness the tests at the end of hostedzone/request.go, DnsModes
--   and Options the files of these names. Deployment has the rest of request.go, by what it does:
--   Reconciling `Reconcile` and `handleObject`, Applying and Reporting `HandleExternalResources`,
--   Removing `delete` and delete.go, Modes the two modes with values.go, Cleanup their `Cleanup`,
--   Manifests those of the DNS modes. Render is pkg/render, with `apply_hashes` in Render/Hashes.
-- - Replicate: internal/controller/replicate. Logic has `Reconcile` and `ReconcileDeleting` of
--   common/generic/logic.go, Actions its `MapKey` and the common steps, Zones and Entries the two
--   responsibility handlers, Options the options, Objects the clusters and the access to objects as
--   parameters, and Events what is said of the calls.
-- - Prelude: the names that all modules share, lists, maps and texts over the native numbers.
--
-- Conventions. A text is a list of bytes. A Go map is an association list in the order in which a
-- loop meets its entries; the theorems hold for every order. A loop without a structural bound has
-- fuel, and `unfinished` or `none` says that it was used up: the walk of `ResolveFQDN` needs more
-- than the bytes of the query, that of `ResolveIP` the zones of the longest path of children, the
-- search for a root more than the zones of the namespace, and the last loop of `AddZone` as many
-- rounds as the zone has ancestors. An error is its message. Locks
-- make a method one step. Log messages and events are left out.
--
-- A reconciliation that calls clusters is an action on a state with the object of the request and
-- the calls so far, each with its answer. The answers are functions of the calls before: a theorem
-- holds for every behaviour of the clusters, stale caches and failing calls included. In
-- `apply_hashes` the fuel is the number of passes.
--
-- Not modelled: the definition and the construction of the controllers, the triggers of the server
-- and of the direct mode, the template engine, the command line, HTTP and JSON, Kubernetes events,
-- and generated code.
pub mod Api
pub mod Common
pub mod Direct
pub mod External
pub mod Prelude
pub mod Replicate
pub mod Server
pub mod Zonemodel
