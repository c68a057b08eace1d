-- ===== src/Lattice/Scores.antt =====
-- The exact scores of bench/lattice_reference/decoder.py: what it uses of Python's `Fraction`.
use clusy_crawler.Base.{ℕ, ◌≡◌, Bool, true, false}

-- `Fraction` with its order; the laws are those of an ordered commutative group that the decoder relies on.
pub record Fractions : Type 1 where
  pub Score : Type 0
  pub zero_score : Score
  pub add : Score → Score → Score
  pub multiply : Score → Score → Score
  pub negate : Score → Score
  pub from_int : ℕ → Score
  pub less : Score → Score → Bool
  pub add_comm : (a b : Score) → add a b ≡ add b a
  pub add_assoc : (a b c : Score) → add (add a b) c ≡ add a (add b c)
  pub add_zero : (a : Score) → add a zero_score ≡ a
  pub less_asym : (a b : Score) → less a b ≡ true → less b a ≡ false
  pub less_weak : (a b c : Score) → less a b ≡ false → less b c ≡ false → less a c ≡ false
  pub less_total : (a b : Score) → less a b ≡ false → less b a ≡ false → a ≡ b
  pub less_add : (a b c : Score) → less (add a c) (add b c) ≡ less a b
