-- ===== src/Lattice/Table.antt =====
-- bench/lattice_reference/decoder.py: what the table of finished states holds, and what `_is_better` compares.
use clusy_crawler.Base.{
  ℕ, suc, ◌≤◌, ◌<◌, ◌≡◌, refl, sym, inl, inr, Option, none, some, List, [], ◌∷◌, arith, length,
  ◌==◌, Bool-cases, Option-cases,
}
use clusy_crawler.Lattice.Scores.{Fractions}
use clusy_crawler.Lattice.Identities.{identities_less}
use clusy_crawler.Lattice.Spans.{Catalog}
use clusy_crawler.Lattice.Decode.{
  PathState, LexIndex, node_of, walk, state_span_indices, is_better_here, is_better,
}
use clusy_crawler.Lattice.Paths.{
  Joins, IsPath, path_score, path_covered, path_identities, path_better, tie_break-cong,
  identities-last,
}

module _ (F : Fractions) where
  pub walk-lt :
      (states : List (PathState F)) (i : ℕ) (p : List ℕ)
      → walk F states (some i) ≡ some p
      → i < length states
  unfolding walk
  walk-lt [] i p h = absurd (cc h)
  walk-lt (s ∷ older) i p h = elim (Bool-cases (i == length older)) [
    | inl here ↦ ground arith
    | inr below ↦ let e : i < length older = walk-lt older i p (rw below at h) in omega (arith, e)
  ]

  -- A newer state changes no path.
  pub walk-newer :
      (s : PathState F) (older : List (PathState F)) (i : Option ℕ) (p : List ℕ)
      → walk F older i ≡ some p
      → walk F (s ∷ older) i ≡ some p
  unfolding walk
  walk-newer s older none p h = h
  walk-newer s older (some i) p h = ground (arith, walk-lt older i p h)

  pub walk-latest :
      (s : PathState F) (older : List (PathState F)) (p : List ℕ)
      → s.terminal_index ≡ some (length older)
      → walk F older s.predecessor_index ≡ some p
      → walk F (s ∷ older) (some (length older)) ≡ some (length older ∷ p)
  unfolding walk
  walk-latest s older p h k = ground arith

  pub state_span_indices-newer :
      (current s : PathState F) (older : List (PathState F)) (p : List ℕ)
      → state_span_indices F older s ≡ some p
      → state_span_indices F (current ∷ older) s ≡ some p
  unfolding state_span_indices
  state_span_indices-newer current s older p h = elim (Option-cases s.terminal_index) [
    | inl e ↦ rw e (rw e at h)
    | inr (i, e) ↦ rw e (elim (Option-cases (walk F older s.predecessor_index)) [
      | inl stuck ↦ absurd (cc (rw (e, stuck) at h))
      | inr (q, found) ↦
          rw (walk-newer current older s.predecessor_index q found) (rw (e, found) at h)
    ])
  ]

  pub state_span_indices-latest :
      (s : PathState F) (older : List (PathState F)) (j : ℕ) (p : List ℕ)
      → s.terminal_index ≡ some j
      → walk F older s.predecessor_index ≡ some p
      → state_span_indices F (s ∷ older) s ≡ some (j ∷ p)
  unfolding state_span_indices
  state_span_indices-latest s older j p e h =
      ground (arith, walk-newer s older s.predecessor_index p h)

  -- The last span of the state is `j`, and behind its backpointer is `p`, as long as the state counts.
  pub record Links (states : List (PathState F)) (j : ℕ) (s : PathState F) (p : List ℕ)
      : Type 0 where
    pub ends : s.terminal_index ≡ some j
    pub walked : walk F states s.predecessor_index ≡ some p
    pub counted : s.span_count ≡ suc (length p)

  -- The states that `_ExactPathLexIndex.append` takes, in its order.
  abbrev pub AreLinked : List (PathState F) → Type 0
  AreLinked [] = Unit {0}
  AreLinked (s ∷ older) = ((p : List ℕ) × Links older (length older) s p) × AreLinked older

-- The lexicographic index, by what it answers: `<` on the tuples of source identities of two paths of the table.
pub record LexOrder (F : Fractions) (c : Catalog F) : Type 0 where
  pub is_less : LexIndex F
  pub is_less_lem :
      (states : List (PathState F)) (a b : Option ℕ) (p q : List ℕ)
      → AreLinked F states
      → length states ≤ c.count
      → walk F states a ≡ some p
      → walk F states b ≡ some q
      → is_less states (node_of a) (node_of b)
        ≡ identities_less (path_identities F c p) (path_identities F c q)

module _ (F : Fractions) (c : Catalog F) where
  -- The state is that of the path `j ∷ p`, where `p` is in the table.
  pub record Holds (states : List (PathState F)) (j : ℕ) (s : PathState F) (p : List ℕ)
      : Type 0 where
    pub links : Links F states j s p
    pub scored : s.score ≡ path_score F c (j ∷ p)
    pub covers : s.covered_characters ≡ path_covered F c (j ∷ p)
    pub joins : Joins F c j p
    pub path : IsPath F c j p

  -- The state is that of the path `p` of the table, which need not end with the current span.
  pub record Answers (states : List (PathState F)) (s : PathState F) (p : List ℕ) : Type 0 where
    pub walked : walk F states s.terminal_index ≡ some p
    pub traced : state_span_indices F states s ≡ some p
    pub scored : s.score ≡ path_score F c p
    pub covers : s.covered_characters ≡ path_covered F c p
    pub counted : s.span_count ≡ length p
    pub path : IsPath F c (length states) p

  module _ (lex : LexOrder F c) (states : List (PathState F)) (linked : AreLinked F states)
      (fits : length states ≤ c.count) where
    pub is_better_here-path_better :
        (j : ℕ) (s t : PathState F) (p q : List ℕ)
        → Holds states j s p
        → Holds states j t q
        → is_better_here F lex.is_less states s t ≡ path_better F c (j ∷ p) (j ∷ q)
    unfolding is_better_here
    is_better_here-path_better j s t p q h k =
        rw
          (
            h.scored,
            k.scored,
            h.covers,
            k.covers,
            h.links.counted,
            k.links.counted,
            lex.is_less_lem states s.predecessor_index t.predecessor_index p q linked fits
                h.links.walked k.links.walked,
          )
          (tie_break-cong F (path_score F c (j ∷ p)) (path_score F c (j ∷ q))
            (path_covered F c (j ∷ p)) (path_covered F c (j ∷ q)) (suc (length p)) (suc (length q))
            _ _ (λ e. sym (identities-last F c j p q (omega (arith, e)))))

    pub is_better-path_better :
        (s t : PathState F) (p q : List ℕ)
        → Answers states s p
        → Answers states t q
        → is_better F lex.is_less states s t ≡ path_better F c p q
    unfolding is_better
    is_better-path_better s t p q h k =
        rw
          (
            h.scored,
            k.scored,
            h.covers,
            k.covers,
            h.counted,
            k.counted,
            lex.is_less_lem states s.terminal_index t.terminal_index p q linked fits h.walked
                k.walked,
          )
          refl
