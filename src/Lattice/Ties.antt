-- ===== src/Lattice/Ties.antt =====
-- bench/lattice_reference/decoder.py: paths that tie are equal, and the oracle's score is the decoder's.
use clusy_crawler.Base.{
  ℕ, ◌≤◌, ◌<◌, ◌≡◌, ◌≢◌, refl, sym, subst, ap, ◌∙◌, inl, inr, false, List, [], ◌∷◌, ◌++◌, arith,
  Text, text_eq_iff, Bool-cases, ltb,
}
use clusy_crawler.Lattice.Scores.{Fractions}
use clusy_crawler.Lattice.Identities.{identities_less-total}
use clusy_crawler.Lattice.Spans.{Catalog, node, transition}
use clusy_crawler.Lattice.Paths.{path_score, path_identities, Key, key_better}
use clusy_crawler.Lattice.Oracle.{own_scores, sum_of_nodes, sum_of_transitions, oracle_score}
use clusy_crawler.Lattice.Masks.{Descends}
use clusy_crawler.Lattice.Canonical.{IsCanonical}

module _ (F : Fractions) where
  zero_add : (a : F.Score) → F.add F.zero_score a ≡ a
  zero_add a = F.add_comm F.zero_score a ∙ F.add_zero a

  -- (n + t) + (a + b) ≡ (n + a) + (t + b)
  regroup : (n t a b : F.Score) → F.add (F.add (F.add n t) a) b ≡ F.add (F.add n a) (F.add t b)
  regroup n t a b =
      F.add_assoc (F.add n t) a b
      ∙ F.add_assoc n t (F.add a b)
      ∙ ap (λ z. F.add n z)
          (sym (F.add_assoc t a b) ∙ ap (λ z. F.add z b) (F.add_comm t a) ∙ F.add_assoc a t b)
      ∙ sym (F.add_assoc n a (F.add t b))

  -- The two sums of the oracle make the score that the decoder adds up.
  pub path_score-oracle_score :
      (c : Catalog F) (path : List ℕ) → path_score F c path ≡ oracle_score F c (own_scores F c) path
  path_score-oracle_score c [] = sym (zero_add F.zero_score)
  path_score-oracle_score c (j ∷ []) = sym (F.add_zero _ ∙ zero_add (node F c j))
  path_score-oracle_score c (j ∷ i ∷ path) =
      ap (λ z. F.add (F.add z (node F c j)) (transition F c i j))
        (path_score-oracle_score c (i ∷ path))
      ∙ regroup (sum_of_nodes F c (own_scores F c) (i ∷ path))
          (sum_of_transitions F c (own_scores F c) (i ∷ path)) (node F c j) (transition F c i j)

  -- Two paths neither of which ranks before the other agree in all that is compared.
  pub tied :
      (a b : Key F)
      → key_better F a b ≡ false
      → key_better F b a ≡ false
      → (a.total_score ≡ b.total_score) × (a.identities ≡ b.identities)
  tied a b h k =
      let e : a.total_score ≡ b.total_score =
        F.less_total a.total_score b.total_score (ground arith) (ground arith) in
      (e, identities_less-total a.identities b.identities (ground arith) (ground arith))

snoc-ne-nil : (s : List Text) (x : Text) → s ++ x ∷ [] ≢ []
snoc-ne-nil [] x e = cc e
snoc-ne-nil (y ∷ s) x e = cc e

snoc-cancel : (s t : List Text) (x y : Text) → s ++ x ∷ [] ≡ t ++ y ∷ [] → (s ≡ t) × (x ≡ y)
snoc-cancel [] [] x y h = (refl, cc h)
snoc-cancel [] (d ∷ []) x y h = absurd (cc h)
snoc-cancel [] (d ∷ e ∷ t) x y h = absurd (cc h)
snoc-cancel (c ∷ []) [] x y h = absurd (cc h)
snoc-cancel (c ∷ e ∷ s) [] x y h = absurd (cc h)
snoc-cancel (c ∷ s) (d ∷ t) x y h = let (e, f) = snoc-cancel s t x y (cc h) in (cc (e, h), f)

module _ (F : Fractions) (c : Catalog F) (canonical : IsCanonical F c) where
  same_index :
      (i j : ℕ)
      → i < c.count
      → j < c.count
      → (c.span i).source_identity ≡ (c.span j).source_identity
      → i ≡ j
  same_index i j h k e = elim (Bool-cases (ltb i j)) [
    | inl lt ↦
        let d = (canonical.pair i j (ground arith) k).distinct in
        absurd
          (ground (arith, (text_eq_iff (c.span i).source_identity (c.span j).source_identity).1 e))
    | inr ge ↦ elim (Bool-cases (ltb j i)) [
      | inl gt ↦
          let d = (canonical.pair j i (ground arith) h).distinct in
          absurd (
            ground (
              arith,
              (text_eq_iff (c.span j).source_identity (c.span i).source_identity).1 (sym e),
            ))
      | inr le ↦ ground arith
    ]
  ]

  -- A path is known by its source identities.
  pub path_identities-cancel :
      (n : ℕ) (p q : List ℕ)
      → n ≤ c.count
      → Descends n p
      → Descends n q
      → path_identities F c p ≡ path_identities F c q
      → p ≡ q
  path_identities-cancel n [] [] le d d' e = refl
  path_identities-cancel n [] (j ∷ q) le d d' e =
      absurd (snoc-ne-nil (path_identities F c q) _ (sym e))
  path_identities-cancel n (j ∷ p) [] le d d' e = absurd (snoc-ne-nil (path_identities F c p) _ e)
  path_identities-cancel n (i ∷ p) (j ∷ q) le d d' e =
      let (before, last) = snoc-cancel (path_identities F c p) (path_identities F c q) _ _ e in
      let same = same_index i j (omega (arith, d.0)) (omega (arith, d'.0)) last in
      let rest =
        path_identities-cancel i p q (omega (arith, d.0)) d.1
          (subst (λ k. Descends k q) (sym same) d'.1) before in
      cc (same, rest)
