-- ===== src/Lattice/Order.antt =====
-- Strict orders by Boolean tests, and the comparison by one test after another.
use clusy_crawler.Base.{◌≡◌, refl, Bool, true, false, ◌||◌, arith, ltb, if◌then◌else◌}

-- The test of a strict order on classes of equals.
pub record IsStrict {A : Type 0} (less : A → A → Bool) : Type 0 where
  pub asym : (a b : A) → less a b ≡ true → less b a ≡ false
  pub weak : (a b c : A) → less a b ≡ false → less b c ≡ false → less a c ≡ false

-- The first test decides where it tells the two apart, else the second one does.
abbrev pub first_then : Bool → Bool → Bool → Bool
first_then before after next = if before || after then before else next

pub first_then-asym :
    (p p' q q' : Bool)
    → (p ≡ true → p' ≡ false)
    → (q ≡ true → q' ≡ false)
    → first_then p p' q ≡ true
    → first_then p' p q' ≡ false
first_then-asym true true q q' h k e = absurd (cc (h refl))
first_then-asym true false q q' h k e = refl
first_then-asym false true q q' h k e = absurd (cc e)
first_then-asym false false q q' h k e = k e

pub first_then-weak :
    (ab ba bc cb ac ca x y z : Bool)
    → (ab ≡ true → ba ≡ false)
    → (bc ≡ true → cb ≡ false)
    → (ac ≡ true → ca ≡ false)
    → (ab ≡ false → bc ≡ false → ac ≡ false)
    → (ac ≡ false → cb ≡ false → ab ≡ false)
    → (ba ≡ false → ac ≡ false → bc ≡ false)
    → (bc ≡ false → ca ≡ false → ba ≡ false)
    → (ca ≡ false → ab ≡ false → cb ≡ false)
    → (cb ≡ false → ba ≡ false → ca ≡ false)
    → (x ≡ false → y ≡ false → z ≡ false)
    → first_then ab ba x ≡ false
    → first_then bc cb y ≡ false
    → first_then ac ca z ≡ false
first_then-weak ab ba bc cb ac ca x y z a1 a2 a3 w1 w2 w3 w4 w5 w6 n h k = ground arith

-- Comparing by one key, and by another one where the first leaves both in a class.
abbrev pub by_both : {A : Type 0} → (A → A → Bool) → (A → A → Bool) → A → A → Bool
by_both less next a b = first_then (less a b) (less b a) (next a b)

pub by_both-IsStrict :
    {A : Type 0} (less next : A → A → Bool)
    → IsStrict less
    → IsStrict next
    → IsStrict (by_both less next)
by_both-IsStrict less next s t = record {
  asym =
      λ a b. first_then-asym (less a b) (less b a) (next a b) (next b a) (s.asym a b) (t.asym a b);
  weak = λ a b c.
      first_then-weak (less a b) (less b a) (less b c) (less c b) (less a c) (less c a) (next a b)
        (next b c) (next a c) (s.asym a b) (s.asym b c) (s.asym a c) (s.weak a b c) (s.weak a c b)
        (s.weak b a c) (s.weak b c a) (s.weak c a b) (s.weak c b a) (t.weak a b c);
}

-- A test on a measure of the elements.
pub on-IsStrict :
    {A B : Type 0} (f : A → B) (less : B → B → Bool)
    → IsStrict less
    → IsStrict (λ a b. less (f a) (f b))
on-IsStrict f less s = record {
  asym = λ a b. s.asym (f a) (f b);
  weak = λ a b c. s.weak (f a) (f b) (f c);
}

-- The converse of a test.
pub flip-IsStrict : {A : Type 0} (less : A → A → Bool) → IsStrict less → IsStrict (λ a b. less b a)
flip-IsStrict less s = record { asym = λ a b. s.asym b a; weak = λ a b c h k. s.weak c b a k h }

pub ltb-IsStrict : IsStrict ltb
ltb-IsStrict = record { asym = λ a b h. ground arith; weak = λ a b c h k. ground arith }
