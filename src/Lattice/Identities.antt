-- ===== src/Lattice/Identities.antt =====
-- bench/lattice_reference/decoder.py: the order of tuples of source identities, which decides the last ties.
use clusy_crawler.Base.{
  ◌≡◌, refl, ap, Bool, true, false, List, [], ◌∷◌, ◌++◌, arith, Text, text_eq, text_eq_iff,
  text_ltb, length,
}
use clusy_crawler.Lattice.Order.{IsStrict, first_then, first_then-asym, first_then-weak}

text_ltb-asym : (s t : Text) → text_ltb s t ≡ true → text_ltb t s ≡ false
unfolding text_ltb
text_ltb-asym [] [] h = refl
text_ltb-asym [] (d ∷ t) h = refl
text_ltb-asym (c ∷ s) [] h = absurd (cc h)
text_ltb-asym (c ∷ s) (d ∷ t) h = ground (arith, text_ltb-asym s t)

text_ltb-weak : (s t u : Text) → text_ltb s t ≡ false → text_ltb t u ≡ false → text_ltb s u ≡ false
unfolding text_ltb
text_ltb-weak [] [] u h k = k
text_ltb-weak [] (d ∷ t) u h k = absurd (cc h)
text_ltb-weak (c ∷ s) t [] h k = refl
text_ltb-weak (c ∷ s) [] (e ∷ u) h k = absurd (cc k)
text_ltb-weak (c ∷ s) (d ∷ t) (e ∷ u) h k = ground (arith, text_ltb-weak s t u)

text_ltb-total : (s t : Text) → text_ltb s t ≡ false → text_ltb t s ≡ false → s ≡ t
unfolding text_ltb
text_ltb-total [] [] h k = refl
text_ltb-total [] (d ∷ t) h k = absurd (cc h)
text_ltb-total (c ∷ s) [] h k = absurd (cc k)
text_ltb-total (c ∷ s) (d ∷ t) h k = ground (arith, text_ltb-total s t)

pub text_ltb-IsStrict : IsStrict text_ltb
text_ltb-IsStrict = record { asym = text_ltb-asym; weak = text_ltb-weak }

-- `<` on tuples of texts.
unfoldable pub identities_less : List Text → List Text → Bool
unfolding text_ltb
identities_less [] [] = false
identities_less [] (d ∷ t) = true
identities_less (c ∷ s) [] = false
identities_less (c ∷ s) (d ∷ t) = first_then (text_ltb c d) (text_ltb d c) (identities_less s t)

identities_less-asym : (s t : List Text) → identities_less s t ≡ true → identities_less t s ≡ false
unfolding identities_less
identities_less-asym [] [] h = refl
identities_less-asym [] (d ∷ t) h = refl
identities_less-asym (c ∷ s) [] h = absurd (cc h)
identities_less-asym (c ∷ s) (d ∷ t) h =
    first_then-asym (text_ltb c d) (text_ltb d c) (identities_less s t) (identities_less t s)
      (text_ltb-asym c d) (identities_less-asym s t) h

identities_less-weak :
    (s t u : List Text)
    → identities_less s t ≡ false
    → identities_less t u ≡ false
    → identities_less s u ≡ false
unfolding identities_less
identities_less-weak [] [] u h k = k
identities_less-weak [] (d ∷ t) u h k = absurd (cc h)
identities_less-weak (c ∷ s) t [] h k = refl
identities_less-weak (c ∷ s) [] (e ∷ u) h k = absurd (cc k)
identities_less-weak (c ∷ s) (d ∷ t) (e ∷ u) h k =
    first_then-weak (text_ltb c d) (text_ltb d c) (text_ltb d e) (text_ltb e d) (text_ltb c e)
      (text_ltb e c) (identities_less s t) (identities_less t u) (identities_less s u)
      (text_ltb-asym c d) (text_ltb-asym d e) (text_ltb-asym c e) (text_ltb-weak c d e)
      (text_ltb-weak c e d) (text_ltb-weak d c e) (text_ltb-weak d e c) (text_ltb-weak e c d)
      (text_ltb-weak e d c) (identities_less-weak s t u) h k

pub identities_less-IsStrict : IsStrict identities_less
identities_less-IsStrict = record { asym = identities_less-asym; weak = identities_less-weak }

first_then_outer :
    (p q n m : Bool)
    → first_then p q n ≡ false
    → first_then q p m ≡ false
    → (p ≡ false) × (q ≡ false) × (n ≡ false) × (m ≡ false)
first_then_outer true q n m h k = absurd (cc h)
first_then_outer false true n m h k = absurd (cc k)
first_then_outer false false n m h k = (refl, refl, h, k)

pub identities_less-total :
    (s t : List Text) → identities_less s t ≡ false → identities_less t s ≡ false → s ≡ t
unfolding identities_less
identities_less-total [] [] h k = refl
identities_less-total [] (d ∷ t) h k = absurd (cc h)
identities_less-total (c ∷ s) [] h k = absurd (cc k)
identities_less-total (c ∷ s) (d ∷ t) h k =
    let (p, q, n, m) =
      first_then_outer (text_ltb c d) (text_ltb d c) (identities_less s t) (identities_less t s) h
        k in
    cc (text_ltb-total c d p q, identities_less-total s t n m)

irreflexive : (c : Text) → text_ltb c c ≡ false
unfolding text_ltb
irreflexive [] = refl
irreflexive (c ∷ s) = ground (arith, irreflexive s)

pub identities_less-irreflexive : (s : List Text) → identities_less s s ≡ false
unfolding identities_less
identities_less-irreflexive [] = refl
identities_less-irreflexive (c ∷ s) = rw (irreflexive c) (identities_less-irreflexive s)

-- A common last identity does not matter between tuples of one length.
pub identities_less-append :
    (s t : List Text) (last : Text)
    → length s ≡ length t
    → identities_less (s ++ last ∷ []) (t ++ last ∷ []) ≡ identities_less s t
unfolding identities_less
identities_less-append [] [] last h = rw (irreflexive last) refl
identities_less-append [] (d ∷ t) last h = absurd (omega arith)
identities_less-append (c ∷ s) [] last h = absurd (omega arith)
identities_less-append (c ∷ s) (d ∷ t) last h =
    ap (first_then (text_ltb c d) (text_ltb d c)) (identities_less-append s t last (omega arith))

-- A beginning is less than what it begins.
pub identities_less-beginning : (s u : List Text) (x : Text) → identities_less s (s ++ x ∷ u) ≡ true
unfolding identities_less
identities_less-beginning [] u x = refl
identities_less-beginning (c ∷ s) u x = rw (irreflexive c) (identities_less-beginning s u x)

pub identities_less-begun : (s u : List Text) (x : Text) → identities_less (s ++ x ∷ u) s ≡ false
unfolding identities_less
identities_less-begun [] u x = refl
identities_less-begun (c ∷ s) u x = rw (irreflexive c) (identities_less-begun s u x)

-- The first identities that differ decide.
pub identities_less-fork :
    (s u v : List Text) (x y : Text)
    → text_eq x y ≡ false
    → identities_less (s ++ x ∷ u) (s ++ y ∷ v) ≡ text_ltb x y
unfolding identities_less
identities_less-fork [] u v x y h = decided (text_ltb x y) (text_ltb y x) _ either
  where
    decided : (p q n : Bool) → (p ≡ false → q ≡ false → ⊥) → first_then p q n ≡ p
    decided true q n d = refl
    decided false true n d = refl
    decided false false n d = absurd (d refl refl)

    either : text_ltb x y ≡ false → text_ltb y x ≡ false → ⊥
    either p q = cc (h, (text_eq_iff x y).1 (text_ltb-total x y p q))
identities_less-fork (c ∷ s) u v x y h = rw (irreflexive c) (identities_less-fork s u v x y h)
