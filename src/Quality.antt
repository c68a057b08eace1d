-- ===== src/Quality.antt =====
-- app/services/quality_extractor.py: the circuit breaker and the bounded workers of `QualityExtractor`.
pub mod Breaker
pub mod Extractor
pub mod Permits
pub mod Recovery
