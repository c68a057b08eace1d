-- ===== src/Crawl.antt =====
-- app/services/crawler.py: the owner of a recursive crawl, over the frontier.
pub mod Job
pub mod Leases
pub mod Moves
pub mod Safety
pub mod Draining
pub mod Start
