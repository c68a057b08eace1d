-- ===== src/Robots/Precedence.antt =====
-- app/services/robots.py: the longest matching rule decides, and `Allow` wins a tie.
use clusy_crawler.Base.{
  ℕ, ◌≤◌, ◌<◌, ◌≡◌, refl, sym, ◌∙◌, of_some_eq, ◌⊎◌, inl, inr, subst, Bool, true, false, Option,
  none, some, List, [], ◌∷◌, arith, Text, Bool-cases, if◌then◌else◌,
}
use clusy_crawler.Url.Split.{SplitResult}
use clusy_crawler.Robots.Rules.{
  Rule, matches, is_stronger, preferred, select, verdict, path_query, is_robots_resource,
  evaluate_split,
}

-- `r` stands in the list, and matches.
abbrev pub AmongMatches : Text → Rule → List Rule → Type 0
AmongMatches path r [] = ⊥
AmongMatches path r (q ∷ qs) = ((r ≡ q) × (matches q path ≡ true)) ⊎ AmongMatches path r qs

-- `m` is not weaker than `r`.
pub record NotWeaker (r m : Rule) : Type 0 where
  pub longer : r.specificity ≤ m.specificity
  pub tie : r.specificity ≡ m.specificity → r.allow ≡ true → m.allow ≡ true

NotWeaker-refl : (r : Rule) → NotWeaker r r
NotWeaker-refl r = record { longer = omega arith; tie = λ e a. a }

NotWeaker-trans : (a b c : Rule) → NotWeaker a b → NotWeaker b c → NotWeaker a c
NotWeaker-trans a b c h k = record {
  longer = let x = h.longer in let y = k.longer in omega arith;
  tie = λ e t. let x = h.longer in let y = k.longer in k.tie (omega arith) (h.tie (omega arith) t);
}

-- Nothing weaker than the rules matched so far is kept.
abbrev Covers : Rule → Option Rule → Type 0
Covers r none = ⊥
Covers r (some m) = NotWeaker r m

preferred-new : (r : Rule) (o : Option Rule) → Covers r (preferred r o)
preferred-new r none = NotWeaker-refl r
preferred-new r (some m) = elim (Bool-cases (is_stronger r m)) [
  | inl e ↦ rw e (NotWeaker-refl r)
  | inr e ↦ rw e (record { longer = ground arith; tie = λ q a. ground arith })
]

preferred-old : (r m : Rule) → Covers m (preferred r (some m))
preferred-old r m = elim (Bool-cases (is_stronger r m)) [
  | inl e ↦ rw e (record { longer = ground arith; tie = λ q a. ground arith })
  | inr e ↦ rw e (NotWeaker-refl m)
]

Covers-trans : (r m : Rule) (o : Option Rule) → NotWeaker r m → Covers m o → Covers r o
Covers-trans r m none h k = k
Covers-trans r m (some n) h k = NotWeaker-trans r m n h k

Covers-preferred : (r q : Rule) (o : Option Rule) → Covers r o → Covers r (preferred q o)
Covers-preferred r q none h = absurd h
Covers-preferred r q (some m) h = Covers-trans r m (preferred q (some m)) h (preferred-old q m)

select-Covers_kept :
    (path : Text) (rs : List Rule) (r : Rule) (o : Option Rule)
    → Covers r o
    → Covers r (select path rs o)
unfolding select
select-Covers_kept path [] r o h = h
select-Covers_kept path (q ∷ rs) r o h = elim (Bool-cases (matches q path)) [
  | inl e ↦ rw e (select-Covers_kept path rs r (preferred q o) (Covers-preferred r q o h))
  | inr e ↦ rw e (select-Covers_kept path rs r o h)
]

-- No matching rule is stronger than the one that is selected.
pub select-Covers :
    (path : Text) (rs : List Rule) (r : Rule) (o : Option Rule)
    → AmongMatches path r rs
    → Covers r (select path rs o)
unfolding select
select-Covers path [] r o h = absurd h
select-Covers path (q ∷ rs) r o (inl (e, hit)) = rw hit (
    subst (λ x. Covers x (select path rs (preferred q o))) (sym e)
      (select-Covers_kept path rs q (preferred q o) (preferred-new q o)))
select-Covers path (q ∷ rs) r o (inr h) =
    select-Covers path rs r (if matches q path then preferred q o else o) h

-- The rule that is selected is one of those that match.
preferred_cases : (r : Rule) (o : Option Rule) → (preferred r o ≡ some r) ⊎ (preferred r o ≡ o)
preferred_cases r none = inl refl
preferred_cases r (some m) = elim (Bool-cases (is_stronger r m)) [
  | inl e ↦ inl (rw e)
  | inr e ↦ inr (rw e)
]

pub select-AmongMatches :
    (path : Text) (rs : List Rule) (o : Option Rule) (r : Rule)
    → select path rs o ≡ some r
    → (o ≡ some r) ⊎ AmongMatches path r rs
unfolding select
select-AmongMatches path [] o r h = inl h
select-AmongMatches path (q ∷ rs) o r h = elim (Bool-cases (matches q path)) [
  | inl hit ↦ after hit (select-AmongMatches path rs (preferred q o) r (rw hit at h))
  | inr miss ↦ elim (select-AmongMatches path rs o r (rw miss at h)) [
    | inl e ↦ inl e
    | inr k ↦ inr (inr k)
  ]
]
  where
    after :
        matches q path ≡ true
        → (preferred q o ≡ some r) ⊎ AmongMatches path r rs
        → (o ≡ some r) ⊎ AmongMatches path r (q ∷ rs)
    after hit (inr k) = inr (inr k)
    after hit (inl e) = elim (preferred_cases q o) [
      | inl new ↦ inr (inl (of_some_eq (sym e ∙ new), hit))
      | inr old ↦ inl (sym old ∙ e)
    ]

-- What `evaluate` answers for a page that is not the policy itself. It is disallowed exactly if some
-- matching `Disallow` rule is longer than every matching `Allow` rule; and the specificity that is
-- reported bounds that of every matching rule.
pub record IsLongestMatch (path : Text) (rs : List Rule) (answer : Bool × ℕ) : Type 0 where
  pub bound : (r : Rule) → AmongMatches path r rs → r.specificity ≤ answer.1
  pub denied :
      answer.0 ≡ false
      → (q : Rule) × AmongMatches path q rs
        × (q.allow ≡ false)
        × (q.specificity ≡ answer.1)
        × ((r : Rule) → AmongMatches path r rs → r.allow ≡ true → r.specificity < q.specificity)
  pub allowed :
      answer.0 ≡ true
      → (q : Rule) → AmongMatches path q rs
      → q.allow ≡ false
      → (r : Rule) × AmongMatches path r rs × (r.allow ≡ true) × (q.specificity ≤ r.specificity)

covered :
    (path : Text) (rs : List Rule) (m r : Rule)
    → select path rs none ≡ some m
    → AmongMatches path r rs
    → NotWeaker r m
covered path rs m r h k = subst (Covers r) h (select-Covers path rs r none k)

uncovered :
    (path : Text) (rs : List Rule) (r : Rule)
    → select path rs none ≡ none
    → AmongMatches path r rs
    → ⊥
uncovered path rs r h k = subst (Covers r) h (select-Covers path rs r none k)

among :
    (path : Text) (rs : List Rule) (m : Rule)
    → select path rs none ≡ some m
    → AmongMatches path m rs
among path rs m h = elim (select-AmongMatches path rs none m h) [
  | inl e ↦ absurd (cc e)
  | inr k ↦ k
]

verdict-IsLongestMatch :
    (path : Text) (rs : List Rule) (o : Option Rule)
    → select path rs none ≡ o
    → IsLongestMatch path rs (verdict o)
verdict-IsLongestMatch path rs none h = record {
  bound = λ r k. absurd (uncovered path rs r h k);
  denied = λ e. absurd (cc e);
  allowed = λ e q k d. absurd (uncovered path rs q h k);
}
verdict-IsLongestMatch path rs (some m) h = record {
  bound = λ r k. (covered path rs m r h k).longer;
  denied = λ e. (
    m,
    among path rs m h,
    e,
    refl,
    λ r k a.
        let c = covered path rs m r h k in
        let longer = c.longer in
        let tie = c.tie in ground (arith, λ (q : r.specificity ≡ m.specificity). tie q a),
  );
  allowed = λ e q k d. (m, among path rs m h, e, (covered path rs m q h k).longer);
}

-- `evaluate` answers by the longest match, `Allow` winning ties; the policy's own URL is allowed.
pub evaluate_split-IsLongestMatch :
    (rules : List Rule) (s : SplitResult)
    → ((is_robots_resource s ≡ true) × (evaluate_split rules s ≡ (true, 0)))
      ⊎ IsLongestMatch (path_query s) rules (evaluate_split rules s)
unfolding evaluate_split
evaluate_split-IsLongestMatch rules s = elim (Bool-cases (is_robots_resource s)) [
  | inl e ↦ inl (e, rw e)
  | inr e ↦ inr (rw e (verdict-IsLongestMatch (path_query s) rules _ refl))
]
