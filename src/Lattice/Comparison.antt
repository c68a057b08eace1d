-- ===== src/Lattice/Comparison.antt =====
-- bench/lattice_reference/decoder.py: the decoder against the oracle, each with the scores that it computes.
use clusy_crawler.Lattice.Prepare.{Lattice}
