-- ===== src/Daemon.antt =====
-- internal/daemon: the services of the gateway, and the proxy that they serve. A select of Go is an
-- element of a list of events; a wait with a limit is a Boolean, whether it ended in time.
pub mod Json
pub mod Request
pub mod Envoy
pub mod Opa
pub mod Probes
pub mod Policy
pub mod Supervision
pub mod Setup
pub mod Written
pub mod Start
pub mod Services
pub mod Startup
pub mod Steady
pub mod Ends
pub mod Reports
pub mod Readiness
