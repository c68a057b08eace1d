-- ===== src/Lattice/Prepare.antt =====
-- bench/lattice_reference/decoder.py: `_exact_type_probabilities` and `_prepare_scored_spans`. The exact value of
-- a float, and the quotient of two scores, are parameters.
use clusy_crawler.Base.{
  ℕ, zero, suc, Bool, true, false, ◌&&◌, Option, none, some, List, [], ◌∷◌, Text, text_member,
  if◌then◌else◌,
}
use clusy_crawler.Lattice.Scores.{Fractions}
use clusy_crawler.Lattice.Spans.{MarginalSpan, span_length, ScoredSpan, Context, Catalog}

-- A `MarginalSpan` with its exact scores.
pub record Marginal (F : Fractions) : Type 0 where
  pub span : MarginalSpan
  pub marginal_score : F.Score
  pub type_probabilities : List (Text × F.Score)

-- The rest of `_ExactScoringContext`.
pub record Weights (F : Fractions) : Type 0 where
  pub coverage_reward_per_char : F.Score
  pub heading_types : List Text
  pub body_types : List Text
  pub context : Context F

-- The spans by index, and the weights.
pub record Lattice (F : Fractions) : Type 0 where
  pub count : ℕ
  pub marginal : ℕ → Marginal F
  pub weights : Weights F

module _ (F : Fractions) where
  -- `arithmetic.sum` of the probabilities, from a start.
  abbrev pub sum_from : F.Score → List (Text × F.Score) → F.Score
  sum_from total [] = total
  sum_from total ((name, probability) ∷ types) = sum_from (F.add total probability) types

  -- Those whose type is among the names.
  abbrev pub only : List Text → List (Text × F.Score) → List (Text × F.Score)
  only names [] = []
  only names ((name, probability) ∷ types) =
      if text_member name names then (name, probability) ∷ only names types else only names types

  module _ (divide : F.Score → F.Score → F.Score) where
    abbrev pub quotients : F.Score → List (Text × F.Score) → List (Text × F.Score)
    quotients mass [] = []
    quotients mass ((name, probability) ∷ types) =
        (name, divide probability mass) ∷ quotients mass types

    -- `none` is the ValueError of a mass that is not positive.
    abbrev pub exact_type_probabilities : Marginal F → Option (List (Text × F.Score))
    exact_type_probabilities m =
        let normalizer = sum_from F.zero_score m.type_probabilities in
        if F.less F.zero_score normalizer
        then some (quotients normalizer m.type_probabilities)
        else none

    abbrev pub or_empty : Option (List (Text × F.Score)) → List (Text × F.Score)
    or_empty none = []
    or_empty (some types) = types

    abbrev pub scored_span : Weights F → Marginal F → ScoredSpan F
    scored_span w m =
        let types = or_empty (exact_type_probabilities m) in
        record {
          node_score =
              F.add m.marginal_score
                (F.multiply w.coverage_reward_per_char (F.from_int (span_length m.span)));
          type_probabilities = types;
          heading_probability = sum_from F.zero_score (only w.heading_types types);
          body_probability = sum_from F.zero_score (only w.body_types types);
        }

    abbrev pub is_some : Option (List (Text × F.Score)) → Bool
    is_some none = false
    is_some (some types) = true

    -- No span raises.
    abbrev pub all_normalized : (ℕ → Marginal F) → ℕ → Bool
    all_normalized marginal zero = true
    all_normalized marginal (suc n) =
        is_some (exact_type_probabilities (marginal n)) && all_normalized marginal n

    abbrev pub catalog_of : Lattice F → Catalog F
    catalog_of l = record {
      count = l.count;
      span = λ i. (l.marginal i).span;
      scored = λ i. scored_span l.weights (l.marginal i);
      context = l.weights.context;
    }

    -- `_prepare_scored_spans`; `none` is a ValueError.
    abbrev pub prepare_scored_spans : Lattice F → Option (Catalog F)
    prepare_scored_spans l = if all_normalized l.marginal l.count then some (catalog_of l) else none
