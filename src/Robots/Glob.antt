-- ===== src/Robots/Glob.antt =====
-- app/services/robots.py: `_glob_matches`, and that it decides the meaning of a pattern.
pub mod Meaning
pub mod Loop
pub mod Question
pub mod Verdict
