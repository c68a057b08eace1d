-- ===== src/Robots.antt =====
-- app/services/robots.py: the robots.txt policy.
pub mod Glob
pub mod Rules
pub mod Precedence
pub mod Parse
pub mod Within
pub mod Budget
pub mod Policy
pub mod Fetch
pub mod Evidence
pub mod Round
pub mod Retrieval
pub mod Groups
pub mod Service
pub mod Cached
pub mod Capped
pub mod Shared
