-- ===== src/Examples/LatticeRuns.antt =====
-- bench/lattice_reference/decoder.py: the decoder over integer scores, on three spans.
use clusy_crawler.Base.{
  ℕ, zero, suc, ◌<◌, ◌≡◌, refl, false, none, some, List, [], ◌∷◌, arith, Text, codes, ℤ, pos, ltb,
  text_eq, text_eq_iff, Bool-cases, inl, inr, text_member,
}
use clusy_crawler.Examples.Integers.{integers}
use clusy_crawler.Lattice.Spans.{
  MarginalSpan, ScoredSpan, Catalog, spans_are_compatible, transition_score,
}
use clusy_crawler.Lattice.Decode.{PathState, decode, walk}
use clusy_crawler.Lattice.Paths.{IsPath, path_score, path_covered, path_identities, path_better}
use clusy_crawler.Lattice.Identities.{identities_less}
use clusy_crawler.Lattice.Oracle.{brute_force, own_scores}
use clusy_crawler.Lattice.Canonical.{AreCanonical, IsCanonical}
use clusy_crawler.Lattice.Table.{AreLinked}
use clusy_crawler.Lattice.Lex.Answer.{
  IsDistinct, lex_index, lex_answer, lex_answer-identities_less, decode-path_better,
}
use clusy_crawler.Lattice.Prepare.{Marginal, Lattice, catalog_of}
use clusy_crawler.Lattice.Brute.{brute_force_decode}

abbrev span_from : Text → ℕ → ℕ → MarginalSpan
span_from name from to = record {
  source_identity = name;
  source_start = from;
  source_end = to;
  block_id = name;
  ancestor_block_ids = [];
}

-- Two spans that follow one another, and one that overlaps both.
abbrev spans : ℕ → MarginalSpan
spans zero = span_from (codes "a") 0 5
spans (suc zero) = span_from (codes "c") 3 12
spans (suc (suc n)) = span_from (codes "b") 5 9

abbrev scored_from : ℕ → ScoredSpan integers
scored_from n = record {
  node_score = pos n;
  type_probabilities = [];
  heading_probability = pos 0;
  body_probability = pos 0;
}

abbrev catalog : Catalog integers
catalog = record {
  count = 3;
  span = spans;
  scored = λ i. elim i [
    | zero ↦ scored_from 4
    | suc n ↦ elim n [ zero ↦ scored_from 6 | suc m ↦ scored_from 3 ]
  ];
  context = record {
    gap_penalty_per_char = pos 1;
    fragmentation_penalty = pos 1;
    contiguous_gap_chars = 2;
    type_compatibility = [];
    heading_to_body_bonus = pos 0;
  };
}

-- The two spans that follow one another score seven together.
decode-catalog : decode integers (lex_index integers catalog) catalog ≡ (
  some (2 ∷ 0 ∷ []),
  record {
    terminal_index = some 2;
    predecessor_index = some 0;
    score = pos 7;
    covered_characters = 9;
    span_count = 2;
  },
)
unfolding decode lex_index spans_are_compatible transition_score
decode-catalog = refl

brute_force-catalog :
    brute_force integers catalog (own_scores integers catalog) ≡ (2 ∷ 0 ∷ [], pos 7)
unfolding brute_force spans_are_compatible transition_score
brute_force-catalog = refl

canonical :
    (i j : ℕ)
    → text_eq (spans i).source_identity (spans j).source_identity ≡ false
    → text_eq (spans i).block_id (spans j).block_id ≡ false
    → text_member (spans i).block_id (spans j).ancestor_block_ids ≡ false
    → text_member (spans j).block_id (spans i).ancestor_block_ids ≡ false
    → ((spans i).source_start < (spans i).source_end)
      × ((spans j).source_start < (spans j).source_end)
    → AreCanonical (spans i) (spans j)
canonical i j h b a a' n = record {
  distinct = h;
  same_block = λ e. absurd (cc (b, e));
  nested = λ e. absurd (cc (a, e));
  nests = λ e. absurd (cc (a', e));
  nonempty = n;
}

catalog-IsCanonical : IsCanonical integers catalog
unfolding text_eq text_member
catalog-IsCanonical = record { pair = pairs }
  where
    pairs : (i j : ℕ) → i < j → j < 3 → AreCanonical (spans i) (spans j)
    pairs i zero h k = absurd (omega (arith, h))
    pairs zero (suc zero) h k = canonical 0 1 refl refl refl refl (omega arith)
    pairs (suc i) (suc zero) h k = absurd (omega (arith, h))
    pairs zero (suc (suc zero)) h k = canonical 0 2 refl refl refl refl (omega arith)
    pairs (suc zero) (suc (suc zero)) h k = canonical 1 2 refl refl refl refl (omega arith)
    pairs (suc (suc i)) (suc (suc zero)) h k = absurd (omega (arith, h))
    pairs i (suc (suc (suc n))) h k = absurd (omega (arith, k))

catalog-IsDistinct : IsDistinct integers catalog
catalog-IsDistinct i j h k d = elim (Bool-cases (ltb i j)) [
  | inl lt ↦ (catalog-IsCanonical.pair i j (ground arith) k).distinct
  | inr ge ↦ reversed i j (catalog-IsCanonical.pair j i (ground arith) h).distinct
]
  where
    reversed :
        (i j : ℕ)
        → text_eq (spans j).source_identity (spans i).source_identity ≡ false
        → text_eq (spans i).source_identity (spans j).source_identity ≡ false
    reversed i j e = ground (
      arith,
      text_eq_iff (spans i).source_identity (spans j).source_identity,
      text_eq_iff (spans j).source_identity (spans i).source_identity,
    )

decode-path_better_example :
    (p : List ℕ) × ((decode integers (lex_index integers catalog) catalog).0 ≡ some p)
    × ((decode integers (lex_index integers catalog) catalog).1.score
        ≡ path_score integers catalog p)
    × ((decode integers (lex_index integers catalog) catalog).1.covered_characters
        ≡ path_covered integers catalog p)
    × IsPath integers catalog 3 p
    × ((q : List ℕ) → IsPath integers catalog 3 q → path_better integers catalog q p ≡ false)
decode-path_better_example = decode-path_better integers catalog catalog-IsDistinct

-- The same spans with one type each, and without a reward for coverage.
abbrev marginal_from : ℕ → ℕ → Marginal integers
marginal_from i n = record {
  span = spans i;
  marginal_score = pos n;
  type_probabilities = (codes "text", pos 1) ∷ [];
}

abbrev lattice : Lattice integers
lattice = record {
  count = 3;
  marginal = λ i. marginal_from i (elim i [ zero ↦ 4 | suc n ↦ elim n [ zero ↦ 6 | suc m ↦ 3 ] ]);
  weights = record {
    coverage_reward_per_char = pos 0;
    heading_types = [];
    body_types = [];
    context = catalog.context;
  };
}

-- Where the mass is one, the quotient by it is the probability.
abbrev quotient : ℤ → ℤ → ℤ
quotient a b = a

abbrev prepared : Catalog integers
prepared = catalog_of integers quotient lattice

-- The oracle's own score of the first and the last span is the decoder's.
brute_force_decode-lattice : brute_force_decode integers quotient lattice ≡ some (2 ∷ 0 ∷ [], pos 7)
unfolding brute_force_decode brute_force spans_are_compatible
brute_force_decode-lattice = refl

abbrev first_state : PathState integers
first_state = record {
  terminal_index = some 0;
  predecessor_index = none;
  score = pos 4;
  covered_characters = 5;
  span_count = 1;
}

abbrev second_state : PathState integers
second_state = record first_state { terminal_index = some 1; score = pos 6; covered_characters = 9 }

states-walked : walk integers (second_state ∷ first_state ∷ []) (some 1) ≡ some (1 ∷ [])
unfolding walk
states-walked = refl

first-walked : walk integers (second_state ∷ first_state ∷ []) (some 0) ≡ some (0 ∷ [])
unfolding walk
first-walked = refl

states-AreLinked : AreLinked integers (second_state ∷ first_state ∷ [])
unfolding walk
states-AreLinked = (
  ([], record { ends = refl; walked = refl; counted = refl }),
  (([], record { ends = refl; walked = refl; counted = refl }), tt),
)

lex_answer-identities_less_example :
    lex_answer integers catalog (second_state ∷ first_state ∷ []) 1 2
    ≡ some (
        identities_less
          (path_identities integers catalog (0 ∷ []))
          (path_identities integers catalog (1 ∷ [])))
lex_answer-identities_less_example =
    lex_answer-identities_less integers catalog catalog-IsDistinct (second_state ∷ first_state ∷ [])
      (some 0) (some 1) (0 ∷ []) (1 ∷ []) states-AreLinked (omega arith) first-walked states-walked
