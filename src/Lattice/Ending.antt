-- ===== src/Lattice/Ending.antt =====
-- bench/lattice_reference/decoder.py: the best path that ends with a span, by the inner loop of `decode`.
use clusy_crawler.Base.{
  ℕ, suc, ◌≤◌, ◌<◌, ◌≡◌, refl, sym, subst, ap, ◌∙◌, inl, inr, true, false, Option, some, List, [],
  ◌∷◌, arith, length, if◌then◌else◌, Bool-cases, ◌⊎◌, leb,
}
use clusy_crawler.Lattice.Scores.{Fractions}
use clusy_crawler.Lattice.Spans.{Catalog, is_compatible}
use clusy_crawler.Lattice.Decode.{PathState, walk, try_previous, best_of, alone, extended}
use clusy_crawler.Lattice.Paths.{
  Joins, IsPath, path_better, path_better-asym, path_better-irreflexive, path_better-weak,
  path_better-extended,
}
use clusy_crawler.Lattice.Table.{
  AreLinked, LexOrder, Holds, walk-latest, walk-newer, is_better_here-path_better,
}

module _ (F : Fractions) (c : Catalog F) where
  -- Before the current span, no path that ends below the bound ranks before `p`.
  abbrev pub IsBestBelow : ℕ → ℕ → List ℕ → Type 0
  IsBestBelow bound j p =
      (q : List ℕ) → IsPath F c bound q → Joins F c j q → path_better F c (j ∷ q) (j ∷ p) ≡ false

  abbrev pub IsBestOf : List (PathState F) → ℕ → PathState F → ℕ → Type 0
  IsBestOf states j s bound = (p : List ℕ) × Holds F c states j s p × IsBestBelow bound j p

  -- What the outer loop has finished: each state is the best of the paths that end with its span.
  abbrev pub AreFinished : List (PathState F) → Type 0
  AreFinished [] = Unit {0}
  AreFinished (s ∷ older) = IsBestOf older (length older) s (length older) × AreFinished older

  pub AreFinished-linked : (states : List (PathState F)) → AreFinished states → AreLinked F states
  AreFinished-linked [] h = tt
  AreFinished-linked (s ∷ older) ((p, h, b), r) = ((p, h.links), AreFinished-linked older r)

  -- A path over the next span ends with it, or it stood below the bound before.
  pub below_or_last :
      (i : ℕ) (q : List ℕ)
      → IsPath F c (suc i) q
      → (IsPath F c i q) ⊎ ((q' : List ℕ) × (q ≡ i ∷ q') × IsPath F c (suc i) (i ∷ q'))
  below_or_last i [] h = inl tt
  below_or_last i (k ∷ q) h = elim (Bool-cases (if leb i k then true else false)) [
    | inl x ↦
        let e : k ≡ i = ground (arith, h.0) in
        inr (q, ap (λ z. z ∷ q) e, subst (λ z. IsPath F c (suc i) (z ∷ q)) e h)
    | inr x ↦ inl (ground (arith, h.0), h.1)
  ]

  module _ (lex : LexOrder F c) (states : List (PathState F)) (linked : AreLinked F states)
      (fits : length states ≤ c.count) where
    extended-Holds :
        (older : List (PathState F)) (j i : ℕ) (s : PathState F) (p : List ℕ)
        → Holds F c older i s p
        → walk F states (some i) ≡ some (i ∷ p)
        → i < j
        → is_compatible F c i j ≡ true
        → Holds F c states j (extended F c j i s) (i ∷ p)
    extended-Holds older j i s p h w lt ok = record {
      links = record { ends = refl; walked = w; counted = omega (arith, h.links.counted) };
      scored = rw h.scored refl;
      covers = rw h.covers refl;
      joins = ok;
      path = (lt, (h.joins, h.path));
    }

    -- What was best stays so where no path through the span before ranks higher.
    IsBestBelow-suc :
        (j i : ℕ) (p : List ℕ)
        → IsBestBelow i j p
        → ((q : List ℕ)
            → IsPath F c (suc i) (i ∷ q)
            → is_compatible F c i j ≡ true
            → path_better F c (j ∷ i ∷ q) (j ∷ p) ≡ false)
        → IsBestBelow (suc i) j p
    IsBestBelow-suc j i p below last q h join = elim (below_or_last i q h) [
      | inl b ↦ below q b join
      | inr (q', e, h') ↦
          subst (λ z. path_better F c (j ∷ z) (j ∷ p) ≡ false) (sym e)
            (last q' h' (subst (Joins F c j) e join))
    ]

    -- Of the paths through the span before, the one of its state is the best.
    through_last :
        (j i : ℕ) (r q : List ℕ)
        → IsBestBelow i i r
        → IsPath F c (suc i) (i ∷ q)
        → path_better F c (j ∷ i ∷ q) (j ∷ i ∷ r) ≡ false
    through_last j i r q b h = path_better-extended F c j i q r ∙ b q h.1.1 h.1.0

    try_previous-IsBestOf :
        (older : List (PathState F)) (j i : ℕ) (s best : PathState F) (r : List ℕ)
        → Holds F c older i s r
        → IsBestBelow i i r
        → walk F states (some i) ≡ some (i ∷ r)
        → i < j
        → IsBestOf states j best i
        → IsBestOf states j (try_previous F lex.is_less c states j i s best) (suc i)
    unfolding try_previous
    try_previous-IsBestOf older j i s best r h b w lt (p, hold, below) =
        elim (Bool-cases (is_compatible F c i j)) [
          | inr apart ↦ rw apart (p, hold, IsBestBelow-suc j i p below (λ q k ok. absurd (cc ok)))
          | inl ok ↦
              let new : Holds F c states j (extended F c j i s) (i ∷ r) =
                extended-Holds older j i s r h w lt ok in
              let test =
                is_better_here-path_better F c lex states linked fits j (extended F c j i s) best
                  (i ∷ r) p new hold in
              elim (Bool-cases (path_better F c (j ∷ i ∷ r) (j ∷ p))) [
                | inl better ↦
                    rw (ok, test, better)
                      (
                        i ∷ r,
                        new,
                        IsBestBelow-suc j i (i ∷ r)
                            (λ q k join.
                              path_better-weak F c (j ∷ q) (j ∷ p) (j ∷ i ∷ r) (below q k join)
                                (path_better-asym F c (j ∷ i ∷ r) (j ∷ p) better))
                            (λ q k join. through_last j i r q b k),
                      )
                | inr worse ↦
                    rw (ok, test, worse)
                      (
                        p,
                        hold,
                        IsBestBelow-suc j i p below (λ q k join.
                            path_better-weak F c (j ∷ i ∷ q) (j ∷ i ∷ r) (j ∷ p)
                              (through_last j i r q b k) worse),
                      )
              ]
        ]

    alone-IsBestOf : (j : ℕ) → IsBestOf states j (alone F c j) 0
    unfolding walk
    alone-IsBestOf j = (
      [],
      record {
        links = record { ends = refl; walked = refl; counted = refl };
        scored = refl;
        covers = omega arith;
        joins = tt;
        path = tt;
      },
      only,
    )
      where
        only :
            (q : List ℕ) → IsPath F c 0 q → Joins F c j q → path_better F c (j ∷ q) (j ∷ []) ≡ false
        only [] h k = path_better-irreflexive F c (j ∷ [])
        only (i ∷ q) h k = absurd (omega (arith, h.0))

    pub best_of-IsBestOf :
        (j : ℕ) (older : List (PathState F))
        → AreFinished older
        → length older ≤ j
        → ((a : Option ℕ) (p : List ℕ) → walk F older a ≡ some p → walk F states a ≡ some p)
        → IsBestOf states j (best_of F lex.is_less c states j older) (length older)
    unfolding best_of
    best_of-IsBestOf j [] h le keep = alone-IsBestOf j
    best_of-IsBestOf j (s ∷ older) ((r, hold, b), rest) le keep =
        try_previous-IsBestOf older j (length older) s (best_of F lex.is_less c states j older) r
          hold b
          (keep (some (length older)) (length older ∷ r)
            (walk-latest F s older r hold.links.ends hold.links.walked))
          le
          (best_of-IsBestOf j older rest (omega (arith, le))
            (λ a p w. keep a p (walk-newer F s older a p w)))
