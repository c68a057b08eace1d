-- ===== src/Lattice/Optimal.antt =====
-- bench/lattice_reference/decoder.py: no path ranks before the one that `decode` answers.
use clusy_crawler.Base.{
  ℕ, zero, suc, ◌+◌, ◌≤◌, ◌≡◌, refl, sym, subst, inl, inr, false, some, List, [], ◌∷◌, arith,
  length, if◌then◌else◌, Bool-cases,
}
use clusy_crawler.Lattice.Scores.{Fractions}
use clusy_crawler.Lattice.Spans.{Catalog}
use clusy_crawler.Lattice.Decode.{
  PathState, walk, state_span_indices, best_of, is_better, decode_rounds, decode, empty_state,
}
use clusy_crawler.Lattice.Paths.{
  Joins, IsPath, IsPath-mono, path_score, path_covered, path_better, path_better-asym,
  path_better-irreflexive, path_better-weak,
}
use clusy_crawler.Lattice.Table.{
  AreLinked, LexOrder, Holds, Answers, walk-latest, walk-newer, state_span_indices-latest,
  state_span_indices-newer, is_better-path_better,
}
use clusy_crawler.Lattice.Ending.{
  IsBestOf, AreFinished, AreFinished-linked, best_of-IsBestOf, below_or_last,
}

module _ (F : Fractions) (c : Catalog F) where
  -- No path over the spans below the bound ranks before `p`.
  abbrev pub IsBestPath : ℕ → List ℕ → Type 0
  IsBestPath n p = (q : List ℕ) → IsPath F c n q → path_better F c q p ≡ false

  abbrev pub IsBestOverall : List (PathState F) → PathState F → Type 0
  IsBestOverall states s = (p : List ℕ) × Answers F c states s p × IsBestPath (length states) p

  current-Answers :
      (states : List (PathState F)) (s : PathState F) (p : List ℕ)
      → Holds F c states (length states) s p
      → Answers F c (s ∷ states) s (length states ∷ p)
  current-Answers states s p h = record {
    walked =
        subst (λ i. walk F (s ∷ states) i ≡ some (length states ∷ p)) (sym h.links.ends)
          (walk-latest F s states p h.links.ends h.links.walked);
    traced = state_span_indices-latest F s states (length states) p h.links.ends h.links.walked;
    scored = h.scored;
    covers = h.covers;
    counted = h.links.counted;
    path = (omega arith, (h.joins, h.path));
  }

  Answers-newer :
      (states : List (PathState F)) (current s : PathState F) (p : List ℕ)
      → Answers F c states s p
      → Answers F c (current ∷ states) s p
  Answers-newer states current s p h = record {
    walked = walk-newer F current states s.terminal_index p h.walked;
    traced = state_span_indices-newer F current s states p h.traced;
    scored = h.scored;
    covers = h.covers;
    counted = h.counted;
    path = IsPath-mono F c (length states) (suc (length states)) p (omega arith) h.path;
  }

  IsBestPath-suc :
      (n : ℕ) (p : List ℕ)
      → IsBestPath n p
      → ((q : List ℕ) → IsPath F c n q → Joins F c n q → path_better F c (n ∷ q) p ≡ false)
      → IsBestPath (suc n) p
  IsBestPath-suc n p below last q h = elim (below_or_last F c n q h) [
    | inl b ↦ below q b
    | inr (q', e, h') ↦ subst (λ z. path_better F c z p ≡ false) (sym e) (last q' h'.1.1 h'.1.0)
  ]

  module _ (lex : LexOrder F c) where
    overall-IsBestOverall :
        (states : List (PathState F)) (current best : PathState F)
        → AreLinked F (current ∷ states)
        → suc (length states) ≤ c.count
        → IsBestOf F c states (length states) current (length states)
        → IsBestOverall states best
        → IsBestOverall
            (current ∷ states)
            (if is_better F lex.is_less (current ∷ states) current best then current else best)
    overall-IsBestOverall states current best linked fits (r, hold, b) (p, answer, below) =
        let new = current-Answers states current r hold in
        let old = Answers-newer states current best p answer in
        let n = length states in
        let test =
          is_better-path_better F c lex (current ∷ states) linked fits current best (n ∷ r) p new
            old in
        elim (Bool-cases (path_better F c (n ∷ r) p)) [
          | inl better ↦
              rw (test, better)
                (
                  n ∷ r,
                  new,
                  IsBestPath-suc n (n ∷ r)
                      (λ q k.
                        path_better-weak F c q p (n ∷ r) (below q k)
                          (path_better-asym F c (n ∷ r) p better))
                      b,
                )
          | inr worse ↦
              rw (test, worse)
                (
                  p,
                  old,
                  IsBestPath-suc n p below
                      (λ q k join. path_better-weak F c (n ∷ q) (n ∷ r) p (b q k join) worse),
                )
        ]

    decode_rounds-IsBestOverall :
        (left : ℕ) (states : List (PathState F)) (best : PathState F)
        → left + length states ≡ c.count
        → AreFinished F c states
        → IsBestOverall states best
        → let (states', best') = decode_rounds F lex.is_less c left states best in
          (length states' ≡ c.count) × IsBestOverall states' best'
    unfolding decode_rounds
    decode_rounds-IsBestOverall zero states best e h k = (omega (arith, e), k)
    decode_rounds-IsBestOverall (suc left) states best e h k =
        let linked = AreFinished-linked F c states h in
        let current = best_of F lex.is_less c states (length states) states in
        let new =
          best_of-IsBestOf F c lex states linked (omega (arith, e)) (length states) states h
            (omega arith) (λ a p w. w) in
        let h' : AreFinished F c (current ∷ states) = (new, h) in
        decode_rounds-IsBestOverall left (current ∷ states) _ (omega (arith, e)) h' (
          overall-IsBestOverall states current best (AreFinished-linked F c (current ∷ states) h')
            (omega (arith, e)) new k)

    nothing_yet : IsBestOverall [] (empty_state F)
    unfolding state_span_indices
    nothing_yet = (
      [],
      record {
        walked = refl;
        traced = refl;
        scored = refl;
        covers = refl;
        counted = refl;
        path = tt;
      },
      none_better,
    )
      where
        none_better : (q : List ℕ) → IsPath F c 0 q → path_better F c q [] ≡ false
        none_better [] h = path_better-irreflexive F c []
        none_better (i ∷ q) h = absurd (omega (arith, h.0))

    -- `decode` always finds its way back from the last state to the first span: it answers a path of compatible spans
    -- with the score and the covered characters of that path, and no path of compatible spans has a higher
    -- score, or as high a one with more characters covered, or with as many in fewer spans, or in as many with
    -- lesser source identities.
    pub decode-IsBestPath :
        (p : List ℕ) × ((decode F lex.is_less c).0 ≡ some p)
        × ((decode F lex.is_less c).1.score ≡ path_score F c p)
        × ((decode F lex.is_less c).1.covered_characters ≡ path_covered F c p)
        × IsPath F c c.count p
        × ((q : List ℕ) → IsPath F c c.count q → path_better F c q p ≡ false)
    unfolding decode
    decode-IsBestPath =
        let (e, (p, answer, best)) =
          decode_rounds-IsBestOverall c.count [] (empty_state F) (omega arith) tt nothing_yet in
        (
          p,
          answer.traced,
          answer.scored,
          answer.covers,
          subst (λ n. IsPath F c n p) e answer.path,
          subst (λ n. IsBestPath n p) e best,
        )
