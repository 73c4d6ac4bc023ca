-- ===== src/Enrollment.antt =====
-- enrollment/compose.go: the Pod of a business, composed with the gateway's containers.
pub mod Pod
pub mod Managed
pub mod Protect
pub mod Proxy
pub mod Compose
pub mod Fixture
