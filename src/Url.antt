-- ===== src/Url.antt =====
-- app/services/frontier.py: URL canonicalization.
pub mod Component
pub mod Segments
pub mod Split
pub mod Canonical
pub mod Dots
