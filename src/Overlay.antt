-- ===== src/Overlay.antt =====
-- app/services/atomic_structure_overlay_v0.py: the digests of the atomic structure overlay.
pub mod Framing
pub mod Unframing
