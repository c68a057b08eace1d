-- ===== src/Limiter.antt =====
-- app/services/rate_limiter.py: the registry of the domains' limiters.
pub mod Registry
pub mod Eviction
pub mod Capacity
