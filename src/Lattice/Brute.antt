-- ===== src/Lattice/Brute.antt =====
-- bench/lattice_reference/decoder.py: the scores of `brute_force_decode`, which it computes for itself.
use clusy_crawler.Base.{
  ℕ, zero, suc, ◌-◌, Bool, true, false, not, ◌&&◌, ◌||◌, Option, none, some, List, [], ◌∷◌, Text,
  ltb, if◌then◌else◌,
}
use clusy_crawler.Lattice.Scores.{Fractions}
use clusy_crawler.Lattice.Spans.{span_length, Context, is_nonzero, compatibility_weight}
use clusy_crawler.Lattice.Prepare.{
  Marginal, Weights, Lattice, sum_from, only, quotients, or_empty, is_some, catalog_of,
}
use clusy_crawler.Lattice.Oracle.{OracleScores, brute_force}

module _ (F : Fractions) (divide : F.Score → F.Score → F.Score) where
  -- `none` is the ValueError of a mass that is not positive.
  abbrev pub oracle_type_probabilities : Marginal F → Option (List (Text × F.Score))
  oracle_type_probabilities m =
      let mass = sum_from F F.zero_score m.type_probabilities in
      if F.less F.zero_score mass then some (quotients F divide mass m.type_probabilities) else none

  abbrev pub oracle_node_score : Weights F → Marginal F → F.Score
  oracle_node_score w m =
      F.add m.marginal_score
        (F.multiply w.coverage_reward_per_char (F.from_int (span_length m.span)))

  -- The two loops over the types.
  abbrev pub add_oracle_current :
      List ((Text × Text) × F.Score) → Text → F.Score → List (Text × F.Score) → F.Score → F.Score
  add_oracle_current table previous p [] result = result
  add_oracle_current table previous p ((current, q) ∷ types) result =
      add_oracle_current table previous p types
        (F.add result (F.multiply (F.multiply p q) (compatibility_weight F previous current table)))

  abbrev pub add_oracle_types :
      List ((Text × Text) × F.Score)
      → List (Text × F.Score)
      → List (Text × F.Score)
      → F.Score
      → F.Score
  add_oracle_types table [] current result = result
  add_oracle_types table ((previous, p) ∷ types) current result =
      add_oracle_types table types current (add_oracle_current table previous p current result)

  -- `if context.type_compatibility`
  abbrev pub has_table : List ((Text × Text) × F.Score) → Bool
  has_table [] = false
  has_table (w ∷ ws) = true

  abbrev pub needs_types : Context F → Bool
  needs_types c = has_table c.type_compatibility || is_nonzero F c.heading_to_body_bonus

  -- The part for pairs of types, where the probabilities of both spans are there.
  abbrev pub add_oracle_pairs :
      Weights F → List (Text × F.Score) → List (Text × F.Score) → F.Score → F.Score
  add_oracle_pairs w previous current result =
      let table = w.context.type_compatibility in
      let paired =
        if has_table table then add_oracle_types table previous current result else result in
      if is_nonzero F w.context.heading_to_body_bonus
      then F.add paired (
          F.multiply w.context.heading_to_body_bonus (
            F.multiply (sum_from F F.zero_score (only F w.heading_types previous))
              (sum_from F F.zero_score (only F w.body_types current))))
      else paired

  abbrev pub oracle_gap_score : Context F → ℕ → F.Score
  oracle_gap_score c gap =
      let result = F.negate (F.multiply c.gap_penalty_per_char (F.from_int gap)) in
      if ltb c.contiguous_gap_chars gap
      then F.add result (F.negate c.fragmentation_penalty)
      else result

  -- `_oracle_transition_score`, where it does not raise.
  abbrev pub oracle_transition_score : Weights F → Marginal F → Marginal F → F.Score
  oracle_transition_score w previous current =
      let result =
        oracle_gap_score w.context (current.span.source_start - previous.span.source_end) in
      if needs_types w.context
      then add_oracle_pairs w (or_empty F divide (oracle_type_probabilities previous))
          (or_empty F divide (oracle_type_probabilities current)) result
      else result

  abbrev pub all_oracle_normalized : (ℕ → Marginal F) → ℕ → Bool
  all_oracle_normalized marginal zero = true
  all_oracle_normalized marginal (suc n) =
      is_some F divide (oracle_type_probabilities (marginal n)) && all_oracle_normalized marginal n

  -- The table of transitions has each pair of spans. One of two or more spans raises if one of its spans does.
  abbrev pub is_oracle_raised : Lattice F → Bool
  is_oracle_raised l =
      needs_types l.weights.context
      && (ltb 1 l.count && not (all_oracle_normalized l.marginal l.count))

  abbrev pub oracle_scores : Lattice F → OracleScores F
  oracle_scores l = record {
    nodes = λ i. oracle_node_score l.weights (l.marginal i);
    transitions = λ i j. oracle_transition_score l.weights (l.marginal i) (l.marginal j);
  }

  -- From the marginal spans on; `none` is a ValueError.
  unfoldable pub brute_force_decode : Lattice F → Option (List ℕ × F.Score)
  unfolding brute_force
  brute_force_decode l =
      if is_oracle_raised l
      then none
      else some (brute_force F (catalog_of F divide l) (oracle_scores l))
