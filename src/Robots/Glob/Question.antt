-- ===== src/Robots/Glob/Question.antt =====
-- app/services/robots.py: the question that each state of `_glob_matches` asks.
use clusy_crawler.Base.{
  ℕ, zero, suc, ◌+◌, ◌*◌, ◌≤◌, ◌<◌, ◌≡◌, sym, ap, ◌∙◌, ◌↔◌, ◌⊎◌, inl, inr, Bool, true, false,
  Option, none, some, [], ◌∷◌, ◌++◌, arith, Text, length, ◌==◌,
}
use clusy_crawler.Robots.Glob.Meaning.{
  star, any_suffix, describes, drop, IsPlain, length-drop, drop-drop, any_suffix-drop,
  drop-any_suffix, describes-plain,
}
use clusy_crawler.Robots.Glob.Loop.{Back, only_stars}

-- What a saved star still promises: the pattern behind it describes a proper suffix.
abbrev pub Retry : Back → Type 0
Retry none = ⊥
Retry (some (p, v)) = (k : ℕ) × (k < length v) × (describes p (drop (suc k) v) ≡ true)

-- The answer that a state of the loop stands for.
abbrev pub Answer : Text → Text → Back → Type 0
Answer p v back = (describes p v ≡ true) ⊎ Retry back

-- The run ended, with the answer.
abbrev pub Decides : Type 0 → Option Bool → Type 0
Decides G none = ⊥
Decides G (some b) = (b ≡ true) ↔ G

pub Decides-iff : (G H : Type 0) (r : Option Bool) → (G ↔ H) → Decides G r → Decides H r
Decides-iff G H none e d = d
Decides-iff G H (some b) e d = (λ h. e.0 (d.0 h), λ h. d.1 (e.1 h))

-- How the current place hangs on the saved star: by a plain stretch of the pattern and as much text.
pub record Hangs (p v bp bv : Text) : Type 0 where
  pub stretch : Text
  pub plain : IsPlain stretch
  pub pattern : bp ≡ stretch ++ p
  pub long : length stretch ≤ length bv
  pub text : v ≡ drop (length stretch) bv

abbrev pub Saved : ℕ → ℕ → Text → Text → Back → Type 0
Saved m k p v none = Unit {0}
Saved m k p v (some (bp, bv)) = Hangs p v bp bv × (length bv ≤ m) × (length bp ≤ k) × IsPlain bv

pub record Inv (f m k : ℕ) (p v : Text) (back : Back) : Type 0 where
  pub plain : IsPlain v
  pub text_bound : length v ≤ m
  pub pattern_bound : length p ≤ k
  pub fuel : m * suc k + length p < f
  pub saved : Saved m k p v back

describes-nil : (p : Text) → (only_stars p ≡ true) ↔ (describes p [] ≡ true)
unfolding only_stars describes any_suffix
describes-nil [] = (λ h. h, λ h. h)
describes-nil (d ∷ p) = ground (arith, describes-nil p)

-- At the end of the text a saved star promises nothing more.
no-Retry : (m k : ℕ) (p : Text) (back : Back) → Saved m k p [] back → Retry back → ⊥
no-Retry m k p none s r = r
no-Retry m k p (some (bp, bv)) (h, _, _, _) (j, b, e) =
    let long = h.long in
    let e' : describes (h.stretch ++ p) (drop (suc j) bv) ≡ true = rw (← h.pattern) e in
    let taken = (describes-plain h.stretch p _ h.plain e').0 in
    omega (arith, length-drop (suc j) bv, length-drop (length h.stretch) bv, ap length h.text)

pub at_end :
    (m k : ℕ) (p : Text) (back : Back)
    → Saved m k p [] back
    → Decides (Answer p [] back) (some (only_stars p))
at_end m k p back s = (λ h. inl ((describes-nil p).0 h), back_to)
  where
    back_to : Answer p [] back → only_stars p ≡ true
    back_to (inl h) = (describes-nil p).1 h
    back_to (inr r) = absurd (no-Retry m k p back s r)

-- A promise of the older star is one of the star at hand.
old_promise :
    (m k d c : ℕ) (p v : Text) (back : Back)
    → (d == star) ≡ true
    → Saved m k (d ∷ p) (c ∷ v) back
    → Retry back
    → describes (d ∷ p) (c ∷ v) ≡ true
unfolding describes
old_promise m k d c p v none h s r = absurd r
old_promise m k d c p v (some (bp, bv)) h (hangs, _, _, _) (j, b, e) =
    let x = hangs.stretch in
    let long = hangs.long in
    let e' : describes (x ++ d ∷ p) (drop (suc j) bv) ≡ true = rw (← hangs.pattern) e in
    let (taken, rest) = describes-plain x (d ∷ p) _ hangs.plain e' in
    let comm : suc j + length x ≡ length x + suc j = omega arith in
    let moved : drop (length x) (drop (suc j) bv) ≡ drop (suc j) (c ∷ v) =
      drop-drop (length x) (suc j) bv
      ∙ ap (λ n. drop n bv) comm
      ∙ sym (drop-drop (suc j) (length x) bv)
      ∙ ap (drop (suc j)) (sym hangs.text) in
    let found : describes (d ∷ p) (drop (suc j) (c ∷ v)) ≡ true = rw (← moved) rest in
    let (i, bound, at) = any_suffix-drop (describes p) (drop (suc j) (c ∷ v)) (rw h at found) in
    let at' : describes p (drop (suc j + i) (c ∷ v)) ≡ true =
      rw (← drop-drop i (suc j) (c ∷ v)) at in
    rw h (
      drop-any_suffix (describes p) (c ∷ v) (suc j + i)
        (omega (
          arith,
          length-drop (suc j) (c ∷ v),
          length-drop (suc j) bv,
          length-drop (length x) bv,
          ap length hangs.text,
        ))
        at')

-- The question at a star is the question behind it, with the star saved.
pub star_iff :
    (m k d c : ℕ) (p v : Text) (back : Back)
    → (d == star) ≡ true
    → Saved m k (d ∷ p) (c ∷ v) back
    → Answer p (c ∷ v) (some (p, c ∷ v)) ↔ Answer (d ∷ p) (c ∷ v) back
unfolding describes
star_iff m k d c p v back h s = (forth, back_to)
  where
    forth : Answer p (c ∷ v) (some (p, c ∷ v)) → Answer (d ∷ p) (c ∷ v) back
    forth (inl e) =
        inl (rw h (drop-any_suffix (describes p) (c ∷ v) 0 (omega arith) (unfold drop in e)))
    forth (inr (j, b, e)) =
        inl (rw h (drop-any_suffix (describes p) (c ∷ v) (suc j) (omega arith) e))

    split :
        (i : ℕ)
        → i ≤ length (c ∷ v)
        → describes p (drop i (c ∷ v)) ≡ true
        → Answer p (c ∷ v) (some (p, c ∷ v))
    split zero b e = inl (unfold drop in e)
    split (suc i) b e = inr (i, omega arith, e)

    opened : describes (d ∷ p) (c ∷ v) ≡ true → Answer p (c ∷ v) (some (p, c ∷ v))
    opened e = let (i, b, at) = any_suffix-drop (describes p) (c ∷ v) (rw h at e) in split i b at

    back_to : Answer (d ∷ p) (c ∷ v) back → Answer p (c ∷ v) (some (p, c ∷ v))
    back_to (inl e) = opened e
    back_to (inr r) = opened (old_promise m k d c p v back h s r)

-- After a mismatch the question is that of the saved star, one character later.
pub retry_iff :
    (c : ℕ) (p v bp bv : Text) (c' : ℕ)
    → describes p (c ∷ v) ≡ false
    → Answer bp bv (some (bp, bv)) ↔ Answer p (c ∷ v) (some (bp, c' ∷ bv))
unfolding drop
retry_iff c p v bp bv c' n = (forth, back_to)
  where
    forth : Answer bp bv (some (bp, bv)) → Answer p (c ∷ v) (some (bp, c' ∷ bv))
    forth (inl e) = inr (0, omega arith, e)
    forth (inr (j, b, e)) = inr (suc j, omega arith, e)

    split :
        (j : ℕ)
        → j < length (c' ∷ bv)
        → describes bp (drop j bv) ≡ true
        → Answer bp bv (some (bp, bv))
    split zero b e = inl e
    split (suc j) b e = inr (j, omega arith, e)

    back_to : Answer p (c ∷ v) (some (bp, c' ∷ bv)) → Answer bp bv (some (bp, bv))
    back_to (inl e) = absurd (cc (e, n))
    back_to (inr (j, b, e)) = split j b e
