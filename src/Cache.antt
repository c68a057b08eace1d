-- ===== src/Cache.antt =====
-- app/cache/__init__.py: the connection of the result cache and its backoff.
pub mod Client
pub mod Backoff
