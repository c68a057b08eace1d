-- ===== src/Lattice/Spans.antt =====
-- bench/lattice_reference/decoder.py: the marginal spans, their compatibility, and `_transition_score`.
use clusy_crawler.Base.{
  ℕ, ◌-◌, Bool, false, not, ◌&&◌, ◌||◌, List, [], ◌∷◌, Text, text_eq, text_member, ltb,
  if◌then◌else◌,
}
use clusy_crawler.Lattice.Scores.{Fractions}

-- The fields of `MarginalSpan` that the decoders read.
pub record MarginalSpan : Type 0 where
  pub source_identity : Text
  pub source_start : ℕ
  pub source_end : ℕ
  pub block_id : Text
  pub ancestor_block_ids : List Text

abbrev pub span_length : MarginalSpan → ℕ
span_length s = s.source_end - s.source_start

unfoldable pub spans_are_compatible : MarginalSpan → MarginalSpan → Bool
unfolding text_eq text_member
spans_are_compatible previous current =
    if ltb current.source_start previous.source_end
    then false
    else if text_eq previous.source_identity current.source_identity
    then false
    else if text_eq previous.block_id current.block_id
    then false
    else if text_member previous.block_id current.ancestor_block_ids
    then false
    else not (text_member current.block_id previous.ancestor_block_ids)

pub record ScoredSpan (F : Fractions) : Type 0 where
  pub node_score : F.Score
  pub type_probabilities : List (Text × F.Score)
  pub heading_probability : F.Score
  pub body_probability : F.Score

pub record Context (F : Fractions) : Type 0 where
  pub gap_penalty_per_char : F.Score
  pub fragmentation_penalty : F.Score
  pub contiguous_gap_chars : ℕ
  pub type_compatibility : List ((Text × Text) × F.Score)
  pub heading_to_body_bonus : F.Score

-- A tuple of spans with their scores: its length, and what stands at each index below it.
pub record Catalog (F : Fractions) : Type 0 where
  pub count : ℕ
  pub span : ℕ → MarginalSpan
  pub scored : ℕ → ScoredSpan F
  pub context : Context F

module _ (F : Fractions) where
  abbrev pub is_nonzero : F.Score → Bool
  is_nonzero a = F.less a F.zero_score || F.less F.zero_score a

  -- `context.type_compatibility.get((previous_type, current_type), Fraction(0))`
  unfoldable pub compatibility_weight : Text → Text → List ((Text × Text) × F.Score) → F.Score
  unfolding text_eq
  compatibility_weight previous current [] = F.zero_score
  compatibility_weight previous current (((p, c), weight) ∷ ws) =
      let rest = compatibility_weight previous current ws in
      if text_eq p previous && text_eq c current then weight else rest

  -- The inner loop over the types of the current span.
  unfoldable pub add_current_types :
      List ((Text × Text) × F.Score) → Text → F.Score → List (Text × F.Score) → F.Score → F.Score
  unfolding compatibility_weight
  add_current_types ws previous p [] score = score
  add_current_types ws previous p ((current, q) ∷ types) score =
      add_current_types ws previous p types
        (F.add score (F.multiply (F.multiply p q) (compatibility_weight previous current ws)))

  unfoldable pub add_types :
      List ((Text × Text) × F.Score)
      → List (Text × F.Score)
      → List (Text × F.Score)
      → F.Score
      → F.Score
  unfolding add_current_types
  add_types ws [] current score = score
  add_types ws ((previous, p) ∷ types) current score =
      add_types ws types current (add_current_types ws previous p current score)

  abbrev pub add_bonus : Context F → ScoredSpan F → ScoredSpan F → F.Score → F.Score
  add_bonus c previous current score =
      if is_nonzero c.heading_to_body_bonus
      then F.add score (
          F.multiply c.heading_to_body_bonus
            (F.multiply previous.heading_probability current.body_probability))
      else score

  abbrev pub gap_score : Context F → ℕ → F.Score
  gap_score c gap =
      let score = F.negate (F.multiply c.gap_penalty_per_char (F.from_int gap)) in
      if ltb c.contiguous_gap_chars gap
      then F.add score (F.negate c.fragmentation_penalty)
      else score

  -- An empty table of weights adds nothing.
  unfoldable pub add_compatibility : Context F → ScoredSpan F → ScoredSpan F → F.Score → F.Score
  unfolding add_types
  add_compatibility c previous current score = elim c.type_compatibility [
    | [] ↦ score
    | w ∷ ws ↦ add_types (w ∷ ws) previous.type_probabilities current.type_probabilities score
  ]

  -- The gap between two spans of which the second begins behind the first.
  unfoldable pub transition_score :
      MarginalSpan → MarginalSpan → ScoredSpan F → ScoredSpan F → Context F → F.Score
  unfolding add_compatibility
  transition_score previous current previous_scored current_scored c =
      add_bonus c previous_scored current_scored (
        add_compatibility c previous_scored current_scored
          (gap_score c (current.source_start - previous.source_end)))

  -- The scores and the tests by index.
  abbrev pub node : Catalog F → ℕ → F.Score
  node c i = (c.scored i).node_score

  abbrev pub transition : Catalog F → ℕ → ℕ → F.Score
  transition c i j = transition_score (c.span i) (c.span j) (c.scored i) (c.scored j) c.context

  abbrev pub is_compatible : Catalog F → ℕ → ℕ → Bool
  is_compatible c i j = spans_are_compatible (c.span i) (c.span j)
