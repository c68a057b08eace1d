-- ===== src/Lattice/Paths.antt =====
-- bench/lattice_reference/decoder.py: paths of compatible spans, and the order in which the decoder ranks them.
use clusy_crawler.Base.{
  ℕ, suc, ◌+◌, ◌≤◌, ◌<◌, ◌≡◌, refl, sym, ap, ◌∙◌, inl, inr, Bool, true, false, not, ◌||◌, List, [],
  ◌∷◌, ◌++◌, arith, Text, length, length-append, ltb, ◌==◌, if◌then◌else◌, Bool-cases,
}
use clusy_crawler.Lattice.Scores.{Fractions}
use clusy_crawler.Lattice.Order.{
  IsStrict, by_both, by_both-IsStrict, on-IsStrict, flip-IsStrict, ltb-IsStrict,
}
use clusy_crawler.Lattice.Identities.{
  identities_less, identities_less-IsStrict, identities_less-append,
}
use clusy_crawler.Lattice.Spans.{Catalog, node, transition, is_compatible, span_length}
use clusy_crawler.Lattice.Decode.{tie_break}

-- The key by which paths are ranked.
pub record Key (F : Fractions) : Type 0 where
  pub total_score : F.Score
  pub covered : ℕ
  pub spans : ℕ
  pub identities : List Text

-- A higher score, then more covered characters, then fewer spans, then the lesser identities.
abbrev pub key_better : (F : Fractions) → Key F → Key F → Bool
key_better F a b =
    tie_break F a.total_score b.total_score a.covered b.covered a.spans b.spans
      (identities_less a.identities b.identities)

-- The same by one test after another.
abbrev in_turn : (F : Fractions) → Key F → Key F → Bool
in_turn F =
    by_both (λ a b. F.less b.total_score a.total_score)
      (by_both (λ a b. ltb b.covered a.covered)
        (by_both (λ a b. ltb a.spans b.spans) (λ a b. identities_less a.identities b.identities)))

if_differ :
    (a b : ℕ) (x y : Bool) → (if not (a == b) then x else y) ≡ (if ltb b a || ltb a b then x else y)
if_differ a b x y = ground arith

if_differ_less :
    (a b : ℕ) (x y : Bool) → (if not (a == b) then x else y) ≡ (if ltb a b || ltb b a then x else y)
if_differ_less a b x y = ground arith

in_turn-eq : (F : Fractions) (a b : Key F) → key_better F a b ≡ in_turn F a b
in_turn-eq F a b =
    ap
      (λ x.
        if F.less b.total_score a.total_score || F.less a.total_score b.total_score
        then F.less b.total_score a.total_score
        else x)
      (if_differ a.covered b.covered (ltb b.covered a.covered) _
        ∙ ap
            (λ x.
              if ltb b.covered a.covered || ltb a.covered b.covered
              then ltb b.covered a.covered
              else x)
            (if_differ_less a.spans b.spans (ltb a.spans b.spans)
              (identities_less a.identities b.identities)))

less-IsStrict : (F : Fractions) → IsStrict F.less
less-IsStrict F = record { asym = F.less_asym; weak = F.less_weak }

in_turn-IsStrict : (F : Fractions) → IsStrict (in_turn F)
in_turn-IsStrict F =
    by_both-IsStrict (λ a b. F.less b.total_score a.total_score) _
      (on-IsStrict (λ (a : Key F). a.total_score) (λ x y. F.less y x)
        (flip-IsStrict F.less (less-IsStrict F)))
      (by_both-IsStrict (λ (a b : Key F). ltb b.covered a.covered) _
        (on-IsStrict (λ (a : Key F). a.covered) (λ x y. ltb y x) (flip-IsStrict ltb ltb-IsStrict))
        (by_both-IsStrict (λ (a b : Key F). ltb a.spans b.spans)
          (λ a b. identities_less a.identities b.identities)
          (on-IsStrict (λ (a : Key F). a.spans) ltb ltb-IsStrict)
          (on-IsStrict (λ (a : Key F). a.identities) identities_less identities_less-IsStrict)))

pub key_better-IsStrict : (F : Fractions) → IsStrict (key_better F)
key_better-IsStrict F = record {
  asym = λ a b h. in_turn-eq F b a ∙ (in_turn-IsStrict F).asym a b (sym (in_turn-eq F a b) ∙ h);
  weak = λ a b c h k.
      in_turn-eq F a c
      ∙ (in_turn-IsStrict F).weak a b c (sym (in_turn-eq F a b) ∙ h) (sym (in_turn-eq F b c) ∙ k);
}

module _ (F : Fractions) (c : Catalog F) where
  -- A path by its indices, the last one first.
  abbrev pub path_score : List ℕ → F.Score
  path_score [] = F.zero_score
  path_score (j ∷ []) = node F c j
  path_score (j ∷ i ∷ path) =
      F.add (F.add (path_score (i ∷ path)) (node F c j)) (transition F c i j)

  abbrev pub path_covered : List ℕ → ℕ
  path_covered [] = 0
  path_covered (j ∷ path) = path_covered path + span_length (c.span j)

  abbrev pub path_identities : List ℕ → List Text
  path_identities [] = []
  path_identities (j ∷ path) = path_identities path ++ (c.span j).source_identity ∷ []

  -- The next span is compatible with the last one of the path.
  abbrev pub Joins : ℕ → List ℕ → Type 0
  Joins j [] = Unit {0}
  Joins j (i ∷ path) = is_compatible F c i j ≡ true

  -- The indices grow, stay below the bound, and each span is compatible with the one before it.
  abbrev pub IsPath : ℕ → List ℕ → Type 0
  IsPath n [] = Unit {0}
  IsPath n (j ∷ path) = (j < n) × (Joins j path × IsPath j path)

  abbrev pub key : List ℕ → Key F
  key path = record {
    total_score = path_score path;
    covered = path_covered path;
    spans = length path;
    identities = path_identities path;
  }

  abbrev pub path_better : List ℕ → List ℕ → Bool
  path_better p q = key_better F (key p) (key q)

  pub IsPath-mono : (n m : ℕ) (p : List ℕ) → n ≤ m → IsPath n p → IsPath m p
  IsPath-mono n m [] h k = tt
  IsPath-mono n m (j ∷ p) h k = (omega (arith, k.0), k.1)

  pub length-path_identities : (p : List ℕ) → length (path_identities p) ≡ length p
  length-path_identities [] = refl
  length-path_identities (j ∷ p) = omega (
    arith,
    length-append (path_identities p) ((c.span j).source_identity ∷ []),
    length-path_identities p,
  )

-- The last test only counts between equal numbers of spans.
pub tie_break-cong :
    (F : Fractions) (s s' : F.Score) (a a' n n' : ℕ) (x y : Bool)
    → (n ≡ n' → x ≡ y)
    → tie_break F s s' a a' n n' x ≡ tie_break F s s' a a' n n' y
tie_break-cong F s s' a a' n n' x y h =
    ap
      (λ z.
        if F.less s' s || F.less s s' then F.less s' s else if not (a == a') then ltb a' a else z)
      (last n n' h)
  where
    last :
        (n n' : ℕ)
        → (n ≡ n' → x ≡ y)
        → (if not (n == n') then ltb n n' else x) ≡ (if not (n == n') then ltb n n' else y)
    last n n' h = ground arith

-- One more span at the end of both leaves the comparison as it is.
tie_break-extended :
    (F : Fractions) (s s' x y : F.Score) (a a' l n n' : ℕ) (e e' : Bool)
    → (n ≡ n' → e ≡ e')
    → tie_break F (F.add (F.add s x) y) (F.add (F.add s' x) y) (a + l) (a' + l) (suc n) (suc n') e
      ≡ tie_break F s s' a a' n n' e'
tie_break-extended F s s' x y a a' l n n' e e' h =
    rw
      (
        F.less_add (F.add s x) (F.add s' x) y,
        F.less_add (F.add s' x) (F.add s x) y,
        F.less_add s s' x,
        F.less_add s' s x,
      )
      (ap (λ z. if F.less s' s || F.less s s' then F.less s' s else z) (rest a a' l n n' e e' h))
  where
    rest :
        (a a' l n n' : ℕ) (e e' : Bool)
        → (n ≡ n' → e ≡ e')
        → (if not (a + l == a' + l)
            then ltb (a' + l) (a + l)
            else if not (suc n == suc n')
            then ltb (suc n) (suc n')
            else e)
          ≡ (if not (a == a') then ltb a' a else if not (n == n') then ltb n n' else e')
    rest a a' l n n' e e' h = ground arith

module _ (F : Fractions) (c : Catalog F) where
  pub identities-last :
      (j : ℕ) (p q : List ℕ)
      → length p ≡ length q
      → identities_less (path_identities F c (j ∷ p)) (path_identities F c (j ∷ q))
        ≡ identities_less (path_identities F c p) (path_identities F c q)
  identities-last j p q h =
      identities_less-append (path_identities F c p) (path_identities F c q)
        (c.span j).source_identity
        (length-path_identities F c p ∙ h ∙ sym (length-path_identities F c q))

  pub path_better-extended :
      (j i : ℕ) (p q : List ℕ)
      → path_better F c (j ∷ i ∷ p) (j ∷ i ∷ q) ≡ path_better F c (i ∷ p) (i ∷ q)
  path_better-extended j i p q =
      tie_break-extended F (path_score F c (i ∷ p)) (path_score F c (i ∷ q)) (node F c j)
        (transition F c i j) (path_covered F c (i ∷ p)) (path_covered F c (i ∷ q))
        (span_length (c.span j)) (length (i ∷ p)) (length (i ∷ q)) _ _
        (identities-last j (i ∷ p) (i ∷ q))

  pub path_better-asym : (p q : List ℕ) → path_better F c p q ≡ true → path_better F c q p ≡ false
  path_better-asym p q = (key_better-IsStrict F).asym (key F c p) (key F c q)

  pub path_better-weak :
      (p q r : List ℕ)
      → path_better F c p q ≡ false
      → path_better F c q r ≡ false
      → path_better F c p r ≡ false
  path_better-weak p q r = (key_better-IsStrict F).weak (key F c p) (key F c q) (key F c r)

  pub path_better-irreflexive : (p : List ℕ) → path_better F c p p ≡ false
  path_better-irreflexive p = elim (Bool-cases (path_better F c p p)) [
    | inl e ↦ path_better-asym p p e
    | inr e ↦ e
  ]
