-- ===== src/Scripts.antt =====
-- scripts/: the checks that the repository runs on itself.
pub mod Headers
pub mod Sections
pub mod Passing
