-- ===== src/GoLib.antt =====
-- What the sources use of Go's standard library, over strings as code points.
pub mod Strings
pub mod Addr
pub mod FilePath
pub mod Numbers
