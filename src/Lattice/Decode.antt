-- ===== src/Lattice/Decode.antt =====
-- bench/lattice_reference/decoder.py: the loops of `decode` over the scored spans.
use clusy_crawler.Base.{
  ℕ, zero, suc, ◌+◌, Bool, not, ◌||◌, Option, none, some, List, [], ◌∷◌, ltb, ◌==◌, if◌then◌else◌,
  length,
}
use clusy_crawler.Lattice.Scores.{Fractions}
use clusy_crawler.Lattice.Spans.{Catalog, node, transition, is_compatible, span_length}

pub record PathState (F : Fractions) : Type 0 where
  pub terminal_index : Option ℕ
  pub predecessor_index : Option ℕ
  pub score : F.Score
  pub covered_characters : ℕ
  pub span_count : ℕ

-- The node of the lexicographic index: zero is the empty path, and state `i` is node `i + 1`.
abbrev pub node_of : Option ℕ → ℕ
node_of none = 0
node_of (some i) = suc i

-- The comparisons that come before the lexicographic one, with its answer.
abbrev pub tie_break : (F : Fractions) → F.Score → F.Score → ℕ → ℕ → ℕ → ℕ → Bool → Bool
tie_break F score score' covered covered' count count' is_less =
    if F.less score' score || F.less score score'
    then F.less score' score
    else if not (covered == covered')
    then ltb covered' covered
    else if not (count == count')
    then ltb count count'
    else is_less

-- What `_ExactPathLexIndex.is_less` answers over the finalized states, the latest of which stands first.
abbrev pub LexIndex : Fractions → Type 0
LexIndex F = List (PathState F) → ℕ → ℕ → Bool

abbrev pub then_index : ℕ → Option (List ℕ) → Option (List ℕ)
then_index i none = none
then_index i (some path) = some (i ∷ path)

module _ (F : Fractions) where
  -- `_is_better`, where both states end with the current span and where they need not. The common terminal,
  -- whose check raises otherwise, is the current index of both states.
  unfoldable pub is_better_here : LexIndex F → List (PathState F) → PathState F → PathState F → Bool
  is_better_here is_less states s t =
      tie_break F s.score t.score s.covered_characters t.covered_characters s.span_count
        t.span_count (is_less states (node_of s.predecessor_index) (node_of t.predecessor_index))

  unfoldable pub is_better : LexIndex F → List (PathState F) → PathState F → PathState F → Bool
  is_better is_less states s t =
      tie_break F s.score t.score s.covered_characters t.covered_characters s.span_count
        t.span_count (is_less states (node_of s.terminal_index) (node_of t.terminal_index))

  abbrev pub empty_state : PathState F
  empty_state = record {
    terminal_index = none;
    predecessor_index = none;
    score = F.zero_score;
    covered_characters = 0;
    span_count = 0;
  }

  abbrev pub alone : Catalog F → ℕ → PathState F
  alone c j = record {
    terminal_index = some j;
    predecessor_index = none;
    score = node F c j;
    covered_characters = span_length (c.span j);
    span_count = 1;
  }

  abbrev pub extended : Catalog F → ℕ → ℕ → PathState F → PathState F
  extended c j i predecessor = record {
    terminal_index = some j;
    predecessor_index = some i;
    score = F.add (F.add predecessor.score (node F c j)) (transition F c i j);
    covered_characters = predecessor.covered_characters + span_length (c.span j);
    span_count = predecessor.span_count + 1;
  }

  -- One round of the inner loop.
  unfoldable pub try_previous :
      LexIndex F → Catalog F → List (PathState F) → ℕ → ℕ → PathState F → PathState F → PathState F
  unfolding is_better_here
  try_previous is_less c states j i predecessor best =
      if not (is_compatible F c i j)
      then best
      else if is_better_here is_less states (extended c j i predecessor) best
      then extended c j i predecessor
      else best

  -- The inner loop over the earlier states, the oldest first; `states` are all of them.
  unfoldable pub best_of :
      LexIndex F → Catalog F → List (PathState F) → ℕ → List (PathState F) → PathState F
  unfolding try_previous
  best_of is_less c states j [] = alone c j
  best_of is_less c states j (predecessor ∷ older) =
      try_previous is_less c states j (length older) predecessor (best_of is_less c states j older)

  -- The outer loop: `best_ending_at`, the latest first, and `best_overall`, with the rounds that are left.
  unfoldable pub decode_rounds :
      LexIndex F
      → Catalog F
      → ℕ
      → List (PathState F)
      → PathState F
      → List (PathState F) × PathState F
  unfolding best_of is_better
  decode_rounds is_less c zero states best = (states, best)
  decode_rounds is_less c (suc left) states best =
      let current = best_of is_less c states (length states) states in
      decode_rounds is_less c left (current ∷ states)
        (if is_better is_less (current ∷ states) current best then current else best)

  -- The loop of `_state_span_indices` over the backpointers, before its reversal, from an index on: `none` is
  -- a `RuntimeError` for a backpointer that leads outside the table or to a state of another terminal. A
  -- backpointer leads to an earlier state.
  unfoldable pub walk : List (PathState F) → Option ℕ → Option (List ℕ)
  walk states none = some []
  walk [] (some i) = none
  walk (s ∷ older) (some i) =
      let before = walk older s.predecessor_index in
      let elsewhere = walk older (some i) in
      if i == length older
      then (if node_of s.terminal_index == suc i then then_index i before else none)
      else elsewhere

  unfoldable pub state_span_indices : List (PathState F) → PathState F → Option (List ℕ)
  unfolding walk
  state_span_indices states s = elim s.terminal_index [
    | none ↦ some []
    | some i ↦ then_index i (walk states s.predecessor_index)
  ]

  -- The path that `decode` answers, by its indices, the last one first, with its state.
  unfoldable pub decode : LexIndex F → Catalog F → Option (List ℕ) × PathState F
  unfolding decode_rounds state_span_indices
  decode is_less c =
      let (states, best) = decode_rounds is_less c c.count [] empty_state in
      (state_span_indices states best, best)
