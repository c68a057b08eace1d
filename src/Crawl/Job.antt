-- ===== src/Crawl/Job.antt =====
-- app/services/crawler.py: `_RecursiveCrawlJob`.
mod State
mod Retire
mod Steps
unfoldable pub use State.*
unfoldable pub use Retire.*
unfoldable pub use Steps.*
