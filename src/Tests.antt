-- ===== src/Tests.antt =====
-- Concrete runs of the definitions.
mod Secrets
mod Config
mod Ca
mod Daemon
mod Enrollment
mod Documents
mod Bundle
mod Command
mod Fixture
