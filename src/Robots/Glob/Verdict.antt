-- ===== src/Robots/Glob/Verdict.antt =====
-- app/services/robots.py: `_glob_matches` decides the meaning of the pattern.
use clusy_crawler.Base.{
  ℕ, zero, suc, ◌+◌, ◌≡◌, refl, sym, ap, ◌∙◌, ◌↔◌, inl, inr, Bool, true, false, Option, none, some,
  [], ◌∷◌, ◌++◌, arith, Text, length, length-append, ◌==◌, Bool-cases,
}
use mathlib.Core.List.{append_assoc}
use clusy_crawler.Robots.Glob.Meaning.{
  star, describes, drop, IsPlain, IsPlain-append, length-drop, drop-drop,
}
use clusy_crawler.Robots.Glob.Loop.{Back, retry, glob_loop, glob_matches, rounds, or_false}
use clusy_crawler.Robots.Glob.Question.{
  Answer, Decides, Decides-iff, Hangs, Saved, Inv, at_end, star_iff, retry_iff,
}

Hangs-here : (p v : Text) → Hangs p v p v
unfolding drop
Hangs-here p v = record {
  stretch = [];
  plain = tt;
  pattern = refl;
  long = omega arith;
  text = refl;
}

retry-Decides :
    (f m k c : ℕ) (p v : Text) (back : Back)
    → ((m' : ℕ) (p' v' : Text) (b : Back)
        → Inv f m' k p' v' b
        → Decides (Answer p' v' b) (glob_loop f p' v' b))
    → Inv (suc f) m k p (c ∷ v) back
    → describes p (c ∷ v) ≡ false
    → Decides (Answer p (c ∷ v) back) (retry back (glob_loop f))
retry-Decides f m k c p v none ih i n = (λ h. absurd (cc h), given)
  where
    given : Answer p (c ∷ v) none → false ≡ true
    given (inl e) = cc
    given (inr r) = absurd r
retry-Decides f m k c p v (some (bp, [])) ih i n =
    let (h, _, _, _) = i.saved in
    absurd (omega (arith, length-drop (length h.stretch) [], ap length h.text))
retry-Decides f zero k c p v (some (bp, c' ∷ bv)) ih i n = absurd (omega arith)
retry-Decides f (suc m) k c p v (some (bp, c' ∷ bv)) ih i n =
    let (h, text_bound, pattern_bound, plain) = i.saved in
    let fuel = i.fuel in
    Decides-iff _ _ _ (retry_iff c p v bp bv c' n) (
      ih m bp bv (some (bp, bv)) (record {
        plain = plain.1;
        text_bound = omega arith;
        pattern_bound = pattern_bound;
        fuel = omega arith;
        saved = (Hangs-here bp bv, omega arith, pattern_bound, plain.1);
      }))

Saved-same :
    (m k d c : ℕ) (p v : Text) (back : Back)
    → (d == star) ≡ false
    → Saved m k (d ∷ p) (c ∷ v) back
    → Saved m k p v back
Saved-same m k d c p v none n s = tt
Saved-same m k d c p v (some (bp, bv)) n (h, a, b, plain) =
    let long = h.long in
    let one : length (h.stretch ++ d ∷ []) ≡ length h.stretch + 1 =
      length-append h.stretch (d ∷ []) in
    (
      record {
        stretch = h.stretch ++ d ∷ [];
        plain = IsPlain-append h.stretch d h.plain n;
        pattern = h.pattern ∙ sym (append_assoc h.stretch (d ∷ []) p);
        long = omega (arith, length-drop (length h.stretch) bv, ap length h.text);
        text = rw (one, ← drop-drop 1 (length h.stretch) bv, ← h.text) (unfold drop in refl);
      },
      a,
      b,
      plain,
    )

same_iff :
    (d c : ℕ) (p v : Text) (back : Back)
    → (d == c) ≡ true
    → (d == star) ≡ false
    → Answer p v back ↔ Answer (d ∷ p) (c ∷ v) back
unfolding describes
same_iff d c p v back s n = rw (n, s) (λ h. h, λ h. h)

glob_loop-Decides :
    (f m k : ℕ) (p v : Text) (back : Back)
    → Inv f m k p v back
    → Decides (Answer p v back) (glob_loop f p v back)
unfolding glob_loop
glob_loop-Decides zero m k p v back i = absurd (let fuel = i.fuel in omega arith)
glob_loop-Decides (suc f) m k [] [] back i = at_end m k [] back i.saved
glob_loop-Decides (suc f) m k (d ∷ p) [] back i = at_end m k (d ∷ p) back i.saved
glob_loop-Decides (suc f) m k [] (c ∷ v) back i =
    retry-Decides f m k c [] v back (λ m' p' v' b j. glob_loop-Decides f m' k p' v' b j) i
      (unfold describes in refl)
glob_loop-Decides (suc f) m k (d ∷ p) (c ∷ v) back i = elim (Bool-cases (d == c)) [
  | inl same ↦
      let n : (d == star) ≡ false = let plain = i.plain.0 in ground arith in
      rw same (
        Decides-iff _ _ _ (same_iff d c p v back same n) (
          glob_loop-Decides f m k p v back (
            let b = i.text_bound in
            let q = i.pattern_bound in
            let u = i.fuel in
            record {
              plain = i.plain.1;
              text_bound = omega arith;
              pattern_bound = omega arith;
              fuel = omega arith;
              saved = Saved-same m k d c p v back n i.saved;
            })))
  | inr differs ↦ rw differs (elim (Bool-cases (d == star)) [
    | inl starred ↦ rw starred (
        Decides-iff _ _ _ (star_iff m k d c p v back starred i.saved) (
          glob_loop-Decides f m k p (c ∷ v) (some (p, c ∷ v)) (
            let b = i.text_bound in
            let q = i.pattern_bound in
            let u = i.fuel in
            record {
              plain = i.plain;
              text_bound = omega arith;
              pattern_bound = omega arith;
              fuel = omega arith;
              saved = (Hangs-here p (c ∷ v), omega arith, omega arith, i.plain);
            })))
    | inr plain ↦ rw plain (
        retry-Decides f m k c (d ∷ p) v back (λ m' p' v' b j. glob_loop-Decides f m' k p' v' b j) i
          (unfold describes in rw (plain, differs)))
  ])
]

-- For a text without `*` the loop of the matcher ends within its rounds, and it answers whether the
-- pattern describes the text.
pub glob_matches-eq-describes :
    (pattern value : Text)
    → IsPlain value
    → (glob_loop (rounds pattern value) pattern value none ≡ some (describes pattern value))
      × (glob_matches pattern value ≡ describes pattern value)
unfolding glob_matches
glob_matches-eq-describes pattern value plain =
    answered (glob_loop (rounds pattern value) pattern value none) (
      glob_loop-Decides _ (length value) (length pattern) pattern value none (record {
        plain = plain;
        text_bound = omega arith;
        pattern_bound = omega arith;
        fuel = grind arith;
        saved = tt;
      }))
  where
    to_bool : (a b : Bool) → (a ≡ true → b ≡ true) → (b ≡ true → a ≡ true) → a ≡ b
    to_bool true b f g = cc (f refl)
    to_bool false true f g = g refl
    to_bool false false f g = refl

    given :
        (b : Bool)
        → (b ≡ true → Answer pattern value none)
        → b ≡ true
        → describes pattern value ≡ true
    given b f e = elim (f e) [ inl h ↦ h | inr r ↦ absurd r ]

    answered :
        (r : Option Bool)
        → Decides (Answer pattern value none) r
        → (r ≡ some (describes pattern value)) × (or_false r ≡ describes pattern value)
    answered none d = absurd d
    answered (some b) d =
        let same = to_bool b (describes pattern value) (given b d.0) (λ h. d.1 (inl h)) in
        (ap (λ x. some x) same, same)
