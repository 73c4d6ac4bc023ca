-- ===== src/Inspection.antt =====
-- internal/inspection: the inspection authority, its leaf certificates and the secret server.
pub mod Crypto
pub mod Names
pub mod Leaf
pub mod Server
pub mod Ca
