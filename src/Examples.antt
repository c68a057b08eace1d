-- ===== src/Examples.antt =====
-- Tests on concrete inputs, and the theorems at inputs that meet their hypotheses.
pub mod FrontierRuns
pub mod RobotsRuns
pub mod RobotsFetches
pub mod LimitsRuns
pub mod LimiterRuns
pub mod UrlRuns
pub mod QualityRuns
pub mod CacheRuns
pub mod CrawlRuns
pub mod Integers
pub mod LatticeRuns
pub mod OverlayRuns
pub mod ServiceRuns
