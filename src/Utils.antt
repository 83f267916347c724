-- ===== src/Utils.antt =====
-- utils: the parts that the other modules use.
pub mod Key
pub mod ThreadSaveMap
pub mod VersionNumber
pub mod Split
