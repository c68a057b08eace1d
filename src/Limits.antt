-- ===== src/Limits.antt =====
-- app/middleware/resource_limits.py: the bounds on a request's body and on the requests in progress.
pub mod Body
pub mod Reading
pub mod Admission
pub mod Occupancy
