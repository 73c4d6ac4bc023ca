-- ===== src/Inspection/Server.antt =====
-- internal/inspection/sds.go: the secret server, a bounded cache of inspection certificates that
-- serves the watches of one Envoy. The pointers of the source are numbers: a list element carries
-- the address that container/list gave it, and the map holds the element.
pub mod State
pub mod Update
pub mod Elements
pub mod Consistency
pub mod Recency
pub mod Answers
pub mod Serving
pub mod Responses
pub mod Uses
pub mod Refinement
pub mod Frame
pub mod Watches
