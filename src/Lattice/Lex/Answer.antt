-- ===== src/Lattice/Lex/Answer.antt =====
-- bench/lattice_reference/decoder.py: the decoder with its own lexicographic index.
use clusy_crawler.Base.{
  ℕ, ◌≤◌, ◌<◌, ◌≡◌, ◌≢◌, sym, ap, ◌∙◌, inl, inr, Bool, false, Option, none, some, List, ◌∷◌, Text,
  text_eq, text_eq_iff, length, Bool-cases, ltb, arith,
}
use clusy_crawler.Lattice.Scores.{Fractions}
use clusy_crawler.Lattice.Identities.{identities_less}
use clusy_crawler.Lattice.Spans.{Catalog}
use clusy_crawler.Lattice.Decode.{PathState, LexIndex, node_of, walk, decode}
use clusy_crawler.Lattice.Paths.{IsPath, path_identities, path_score, path_covered, path_better}
use clusy_crawler.Lattice.Table.{AreLinked, LexOrder, walk-lt}
use clusy_crawler.Lattice.Optimal.{decode-IsBestPath}
use clusy_crawler.Lattice.Oracle.{own_scores, brute_force}
use clusy_crawler.Lattice.Canonical.{IsCanonical}
use clusy_crawler.Lattice.Agreement.{decode-brute_force}
use clusy_crawler.Lattice.Lex.{◌>>=◌, index_of, is_less}
use clusy_crawler.Lattice.Lex.Lift.{node_at}
use clusy_crawler.Lattice.Lex.Less.{identity, is_less-identities_less}
use clusy_crawler.Lattice.Lex.Index.{
  InTable, index_of-Indexes, walked-InTable, walk-last_index, node_of-last_index,
}

-- What `is_less` answers where it raises nothing.
abbrev pub or_false : Option Bool → Bool
or_false none = false
or_false (some b) = b

text_eq-sym : (s t : Text) → text_eq s t ≡ false → text_eq t s ≡ false
text_eq-sym s t h = ground (arith, text_eq_iff s t, text_eq_iff t s)

module _ (F : Fractions) (c : Catalog F) where
  -- Two spans of the catalog have different source identities.
  abbrev pub IsDistinct : Type 0
  IsDistinct =
      (i j : ℕ)
      → i < c.count
      → j < c.count
      → i ≢ j
      → text_eq (identity F c i) (identity F c j) ≡ false

  -- The comparison of the decoder: `lex_index` after the appends of the states, and its `is_less`.
  unfoldable pub lex_answer : List (PathState F) → ℕ → ℕ → Option Bool
  unfolding index_of is_less
  lex_answer states left right =
      index_of states >>= λ index. is_less (identity F c) index left right

  unfoldable pub lex_index : LexIndex F
  unfolding lex_answer
  lex_index states left right = or_false (lex_answer states left right)

  -- Between two paths of the table of finished states, the jump pointers answer the order of the tuples of
  -- source identities, and no `RuntimeError` is raised, where the spans have different source identities.
  pub lex_answer-identities_less :
      IsDistinct
      → (states : List (PathState F)) (a b : Option ℕ) (p q : List ℕ) → AreLinked F states
      → length states ≤ c.count
      → walk F states a ≡ some p
      → walk F states b ≡ some q
      → lex_answer states (node_of a) (node_of b)
        ≡ some (identities_less (path_identities F c p) (path_identities F c q))
  unfolding lex_answer
  lex_answer-identities_less distinct states a b p q linked fits h k =
      let (index, built, len, ix) = index_of-Indexes states linked in
      let (t, e) = walked-InTable states a p h in
      let (t', e') = walked-InTable states b q k in
      let left : node_of a ≡ node_at p =
        ap node_of (sym (walk-last_index states a p h)) ∙ sym (node_of-last_index p) in
      let right : node_of b ≡ node_at q =
        ap node_of (sym (walk-last_index states b q k)) ∙ sym (node_of-last_index q) in
      rw (built, left, right) (is_less-identities_less F c ix apart p q t t')
    where
      apart :
          (i j : ℕ) (p q : List ℕ)
          → InTable states (i ∷ p)
          → InTable states (j ∷ q)
          → i ≢ j
          → text_eq (identity F c i) (identity F c j) ≡ false
      apart i j p q t t' d =
          distinct i j (omega (arith, walk-lt F states i (i ∷ p) t, fits))
            (omega (arith, walk-lt F states j (j ∷ q) t', fits)) d

  lex_index-identities_less :
      IsDistinct
      → (states : List (PathState F)) (a b : Option ℕ) (p q : List ℕ) → AreLinked F states
      → length states ≤ c.count
      → walk F states a ≡ some p
      → walk F states b ≡ some q
      → lex_index states (node_of a) (node_of b)
        ≡ identities_less (path_identities F c p) (path_identities F c q)
  unfolding lex_index
  lex_index-identities_less distinct states a b p q linked fits h k =
      ap or_false (lex_answer-identities_less distinct states a b p q linked fits h k)

  lex_order : IsDistinct → LexOrder F c
  lex_order distinct = record {
    is_less = lex_index;
    is_less_lem = lex_index-identities_less distinct;
  }

  -- Where the spans have different source identities, `decode` always finds its way back from the last state to
  -- the first span: it answers a path of compatible spans with that path's score and covered characters. No path
  -- of compatible spans has a higher score, or as high a one with more characters covered, or with as many in
  -- fewer spans, or in as many with a lesser tuple of source identities.
  pub decode-path_better :
      IsDistinct
      → (p : List ℕ) × ((decode F lex_index c).0 ≡ some p)
        × ((decode F lex_index c).1.score ≡ path_score F c p)
        × ((decode F lex_index c).1.covered_characters ≡ path_covered F c p)
        × IsPath F c c.count p
        × ((q : List ℕ) → IsPath F c c.count q → path_better F c q p ≡ false)
  unfolding lex_order
  decode-path_better distinct = decode-IsBestPath F c (lex_order distinct)

  IsCanonical-distinct : IsCanonical F c → IsDistinct
  IsCanonical-distinct canonical i j h k d = elim (Bool-cases (ltb i j)) [
    | inl lt ↦ (canonical.pair i j (ground arith) k).distinct
    | inr ge ↦
        text_eq-sym (identity F c j) (identity F c i) (canonical.pair j i (ground arith) h).distinct
  ]

  -- Over a canonical catalog `decode` and the exhaustive search of `brute_force_decode` answer the same path
  -- with the same score.
  pub decode-brute_force_lem :
      IsCanonical F c
      → ((decode F lex_index c).0 ≡ some (brute_force F c (own_scores F c)).0)
        × ((decode F lex_index c).1.score ≡ (brute_force F c (own_scores F c)).1)
  unfolding lex_order
  decode-brute_force_lem canonical =
      decode-brute_force F c canonical (lex_order (IsCanonical-distinct canonical))
