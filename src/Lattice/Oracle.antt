-- ===== src/Lattice/Oracle.antt =====
-- bench/lattice_reference/decoder.py: `brute_force_decode`, the exhaustive search beside the decoder.
use clusy_crawler.Base.{
  ℕ, zero, suc, shifted_one, ◌-◌, ◌/◌, ◌%◌, Bool, true, not, ◌&&◌, List, [], ◌∷◌, length, ◌==◌,
  if◌then◌else◌,
}
use clusy_crawler.Lattice.Scores.{Fractions}
use clusy_crawler.Lattice.Identities.{identities_less}
use clusy_crawler.Lattice.Spans.{Catalog, node, transition, is_compatible}
use clusy_crawler.Lattice.Decode.{tie_break}
use clusy_crawler.Lattice.Paths.{path_covered, path_identities}

-- `mask & (1 << k)`, as a test.
unfoldable pub has_bit : ℕ → ℕ → Bool
has_bit zero mask = mask % 2 == 1
has_bit (suc k) mask = has_bit k (mask / 2)

-- The indices below a bound whose bits are set, the last one first.
unfoldable pub selected_indices : ℕ → ℕ → List ℕ
unfolding has_bit
selected_indices zero mask = []
selected_indices (suc k) mask =
    let below = selected_indices k mask in if has_bit k mask then k ∷ below else below

-- `oracle_node_scores` and `oracle_transition_scores`.
pub record OracleScores (F : Fractions) : Type 0 where
  pub nodes : ℕ → F.Score
  pub transitions : ℕ → ℕ → F.Score

-- The decoder's scores in that form.
abbrev pub own_scores : (F : Fractions) → Catalog F → OracleScores F
own_scores F c = record { nodes = node F c; transitions = transition F c }

module _ (F : Fractions) (c : Catalog F) where
  -- A span against all those before it. The five tests on a pair are those of `_spans_are_compatible`.
  unfoldable pub follows_all : ℕ → List ℕ → Bool
  follows_all j [] = true
  follows_all j (i ∷ before) = is_compatible F c i j && follows_all j before

  unfoldable pub oracle_path_is_compatible : List ℕ → Bool
  unfolding follows_all
  oracle_path_is_compatible [] = true
  oracle_path_is_compatible (j ∷ before) = follows_all j before && oracle_path_is_compatible before

  abbrev pub sum_of_nodes : OracleScores F → List ℕ → F.Score
  sum_of_nodes o [] = F.zero_score
  sum_of_nodes o (j ∷ before) = F.add (sum_of_nodes o before) (o.nodes j)

  abbrev pub sum_of_transitions : OracleScores F → List ℕ → F.Score
  sum_of_transitions o [] = F.zero_score
  sum_of_transitions o (j ∷ []) = F.zero_score
  sum_of_transitions o (j ∷ i ∷ before) =
      F.add (sum_of_transitions o (i ∷ before)) (o.transitions i j)

  abbrev pub oracle_score : OracleScores F → List ℕ → F.Score
  oracle_score o path = F.add (sum_of_nodes o path) (sum_of_transitions o path)

  abbrev pub oracle_is_better : F.Score → List ℕ → F.Score → List ℕ → Bool
  oracle_is_better score path best_score best =
      tie_break F score best_score (path_covered F c path) (path_covered F c best) (length path)
        (length best) (identities_less (path_identities F c path) (path_identities F c best))

  -- The body of the loop, with the selected spans and their score so far.
  unfoldable pub consider : OracleScores F → List ℕ → List ℕ × F.Score → List ℕ × F.Score
  unfolding oracle_path_is_compatible
  consider o path (best, best_score) =
      if not (oracle_path_is_compatible path)
      then (best, best_score)
      else if oracle_is_better (oracle_score o path) path best_score best
      then (path, oracle_score o path)
      else (best, best_score)

  -- The loop over the masks, with the number of those that are left.
  unfoldable pub search_masks : OracleScores F → ℕ → ℕ → List ℕ × F.Score → List ℕ × F.Score
  unfolding consider selected_indices
  search_masks o zero mask best = best
  search_masks o (suc left) mask best =
      search_masks o left (suc mask) (consider o (selected_indices c.count mask) best)

  unfoldable pub brute_force : OracleScores F → List ℕ × F.Score
  unfolding search_masks
  brute_force o = search_masks o (shifted_one c.count - 1) 1 ([], F.zero_score)
