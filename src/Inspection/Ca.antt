-- ===== src/Inspection/Ca.antt =====
-- internal/inspection/ca.go: the inspection authority on its volume. The operating system is an
-- oracle: what each call answers is an argument, and a function returns the calls that it makes.
pub mod Write
pub mod Bundle
pub mod Directory
pub mod Open
pub mod Durability
pub mod Safety
pub mod Usable
pub mod Origin
