-- ===== src/Frontier.antt =====
-- app/services/frontier.py: the crawl frontier. The modules below model and prove its parts.
pub mod Types
pub mod Heap
pub mod Queue
pub mod Claim
pub mod Report
pub mod Signs
pub mod Trap
pub mod Admit
pub mod Seeds
pub mod Wake
pub mod Run
pub mod Later
pub mod Sound
pub mod Survey
pub mod Sweep
pub mod Flight
pub mod Holding
pub mod Seeding
pub mod Grant
pub mod History
pub mod Admitting
pub mod Waking
pub mod Calls
pub mod Lifecycle
pub mod Politeness
pub mod Retry
pub mod Missing
pub mod Found
