-- ===== src/Lattice.antt =====
-- bench/lattice_reference/decoder.py: the exact decoder of a lattice of source spans, and its oracle.
pub mod Scores
pub mod Order
pub mod Identities
pub mod Spans
pub mod Decode
pub mod Lex
pub mod Paths
pub mod Table
pub mod Ending
pub mod Optimal
pub mod Oracle
pub mod Masks
pub mod Canonical
pub mod Ties
pub mod Agreement
pub mod Prepare
pub mod Brute
pub mod Comparison
