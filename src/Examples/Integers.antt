-- ===== src/Examples/Integers.antt =====
-- bench/lattice_reference/decoder.py: integers in the place of `Fraction`, with the laws the decoder relies on.
use clusy_crawler.Base.{
  ℕ, ◌+◌, ◌-◌, ◌*◌, ◌≡◌, true, false, arith, ℤ, pos, negsuc, pos_part, neg_part, ltb_ℤ, leb,
  if◌then◌else◌,
}
use clusy_crawler.Lattice.Scores.{Fractions}

abbrev pub difference : ℕ → ℕ → ℤ
difference a b = if leb b a then pos (a - b) else negsuc (b - a - 1)

abbrev pub sum_ℤ : ℤ → ℤ → ℤ
sum_ℤ a b = difference (pos_part a + pos_part b) (neg_part a + neg_part b)

abbrev pub opposite : ℤ → ℤ
opposite a = difference (neg_part a) (pos_part a)

abbrev pub product_ℤ : ℤ → ℤ → ℤ
product_ℤ a b =
    difference (pos_part a * pos_part b + neg_part a * neg_part b)
      (pos_part a * neg_part b + neg_part a * pos_part b)

of_parts : (a b : ℤ) → pos_part a + neg_part b ≡ pos_part b + neg_part a → a ≡ b
of_parts (pos n) (pos m) h = let e : n ≡ m = omega (arith, h) in cc e
of_parts (pos n) (negsuc m) h = absurd (omega (arith, h))
of_parts (negsuc n) (pos m) h = absurd (omega (arith, h))
of_parts (negsuc n) (negsuc m) h = let e : n ≡ m = omega (arith, h) in cc e

difference_parts : (a b : ℕ) → pos_part (difference a b) + b ≡ neg_part (difference a b) + a
difference_parts a b = ground arith

sum_parts :
    (a b : ℤ)
    → pos_part (sum_ℤ a b) + (neg_part a + neg_part b)
      ≡ neg_part (sum_ℤ a b) + (pos_part a + pos_part b)
sum_parts a b = difference_parts (pos_part a + pos_part b) (neg_part a + neg_part b)

pub sum_comm : (a b : ℤ) → sum_ℤ a b ≡ sum_ℤ b a
sum_comm a b = of_parts (sum_ℤ a b) (sum_ℤ b a) (omega (arith, sum_parts a b, sum_parts b a))

pub sum_assoc : (a b c : ℤ) → sum_ℤ (sum_ℤ a b) c ≡ sum_ℤ a (sum_ℤ b c)
sum_assoc a b c =
    of_parts (sum_ℤ (sum_ℤ a b) c) (sum_ℤ a (sum_ℤ b c)) (
      omega (arith, sum_parts (sum_ℤ a b) c, sum_parts a b, sum_parts a (sum_ℤ b c), sum_parts b c))

pub sum_zero : (a : ℤ) → sum_ℤ a (pos 0) ≡ a
sum_zero a = of_parts (sum_ℤ a (pos 0)) a (omega (arith, sum_parts a (pos 0)))

pub less_asym : (a b : ℤ) → ltb_ℤ a b ≡ true → ltb_ℤ b a ≡ false
less_asym a b h = ground arith

pub less_weak : (a b c : ℤ) → ltb_ℤ a b ≡ false → ltb_ℤ b c ≡ false → ltb_ℤ a c ≡ false
less_weak a b c h k = ground arith

pub less_total : (a b : ℤ) → ltb_ℤ a b ≡ false → ltb_ℤ b a ≡ false → a ≡ b
less_total a b h k = of_parts a b (ground arith)

pub less_sum : (a b c : ℤ) → ltb_ℤ (sum_ℤ a c) (sum_ℤ b c) ≡ ltb_ℤ a b
less_sum a b c = ground (arith, sum_parts a c, sum_parts b c)

abbrev pub integers : Fractions
integers = record {
  Score = ℤ;
  zero_score = pos 0;
  add = sum_ℤ;
  multiply = product_ℤ;
  negate = opposite;
  from_int = pos;
  less = ltb_ℤ;
  add_comm = sum_comm;
  add_assoc = sum_assoc;
  add_zero = sum_zero;
  less_asym = less_asym;
  less_weak = less_weak;
  less_total = less_total;
  less_add = less_sum;
}
