-- ===== src/Lattice/Canonical.antt =====
-- bench/lattice_reference/decoder.py: over a canonical catalog it is enough to compare neighbours.
use clusy_crawler.Base.{
  ℕ, ◌≤◌, ◌<◌, ◌≡◌, refl, sym, ◌∙◌, true, false, List, [], ◌∷◌, arith, text_eq, text_member, leb,
}
use clusy_crawler.Lattice.Scores.{Fractions}
use clusy_crawler.Lattice.Spans.{Catalog, MarginalSpan, spans_are_compatible, is_compatible}
use clusy_crawler.Lattice.Paths.{Joins, IsPath}
use clusy_crawler.Lattice.Oracle.{follows_all, oracle_path_is_compatible}
use clusy_crawler.Lattice.Masks.{Descends}

-- What `_marginalize_candidates` and `_validate_canonical_catalog` ensure of two spans of the catalog.
pub record AreCanonical (a b : MarginalSpan) : Type 0 where
  pub distinct : text_eq a.source_identity b.source_identity ≡ false
  pub same_block :
      text_eq a.block_id b.block_id ≡ true
      → (a.source_start ≡ b.source_start) × (a.source_end ≡ b.source_end)
  pub nested :
      text_member a.block_id b.ancestor_block_ids ≡ true
      → (a.source_start ≤ b.source_start) × (b.source_end ≤ a.source_end)
  pub nests :
      text_member b.block_id a.ancestor_block_ids ≡ true
      → (b.source_start ≤ a.source_start) × (a.source_end ≤ b.source_end)
  pub nonempty : (a.source_start < a.source_end) × (b.source_start < b.source_end)

pub record IsCanonical (F : Fractions) (c : Catalog F) : Type 0 where
  pub pair : (i j : ℕ) → i < j → j < c.count → AreCanonical (c.span i) (c.span j)

spans_are_compatible-leb :
    (a b : MarginalSpan)
    → AreCanonical a b
    → spans_are_compatible a b ≡ leb a.source_end b.source_start
unfolding spans_are_compatible
spans_are_compatible-leb a b h =
    ground (arith, h.distinct, h.same_block, h.nested, h.nests, h.nonempty)

module _ (F : Fractions) (c : Catalog F) (canonical : IsCanonical F c) where
  is_compatible-leb :
      (i j : ℕ)
      → i < j
      → j < c.count
      → is_compatible F c i j ≡ leb (c.span i).source_end (c.span j).source_start
  is_compatible-leb i j h k =
      spans_are_compatible-leb (c.span i) (c.span j) (canonical.pair i j h k)

  -- A span behind the last one of a path is compatible with all of the path.
  IsPath-follows_all :
      (n j : ℕ) (path : List ℕ)
      → j < c.count
      → n ≤ j
      → IsPath F c n path
      → Joins F c j path
      → follows_all F c j path ≡ true
  unfolding follows_all
  IsPath-follows_all n j [] lt le h k = refl
  IsPath-follows_all n j (i ∷ []) lt le h k = ground (arith, k)
  IsPath-follows_all n j (i ∷ i' ∷ path) lt le h k =
      let before = is_compatible-leb i j (omega (arith, h.0)) lt in
      let between = is_compatible-leb i' i h.1.1.0 (omega (arith, h.0)) in
      let over = is_compatible-leb i' j (omega (arith, h.0, h.1.1.0)) lt in
      let nonempty = (canonical.pair i j (omega (arith, h.0)) lt).nonempty.0 in
      let first : leb (c.span i).source_end (c.span j).source_start ≡ true = sym before ∙ k in
      let second : leb (c.span i').source_end (c.span i).source_start ≡ true =
        sym between ∙ h.1.0 in
      let third : is_compatible F c i' j ≡ true = over ∙ ground arith in
      rw k (IsPath-follows_all i j (i' ∷ path) lt (omega (arith, h.0)) h.1.1 third)

  pub IsPath-oracle_path_is_compatible :
      (n : ℕ) (path : List ℕ)
      → n ≤ c.count
      → IsPath F c n path
      → oracle_path_is_compatible F c path ≡ true
  unfolding oracle_path_is_compatible
  IsPath-oracle_path_is_compatible n [] le h = refl
  IsPath-oracle_path_is_compatible n (j ∷ path) le h =
      rw (IsPath-follows_all j j path (omega (arith, h.0)) (omega arith) h.1.1 h.1.0)
        (IsPath-oracle_path_is_compatible j path (omega (arith, h.0)) h.1.1)

module _ (F : Fractions) (c : Catalog F) where
  Joins-follows_all : (j : ℕ) (path : List ℕ) → follows_all F c j path ≡ true → Joins F c j path
  unfolding follows_all
  Joins-follows_all j [] h = tt
  Joins-follows_all j (i ∷ path) h = ground arith

  pub oracle_path_is_compatible-IsPath :
      (n : ℕ) (path : List ℕ)
      → Descends n path
      → oracle_path_is_compatible F c path ≡ true
      → IsPath F c n path
  unfolding oracle_path_is_compatible
  oracle_path_is_compatible-IsPath n [] d h = tt
  oracle_path_is_compatible-IsPath n (j ∷ path) d h =
      let all : follows_all F c j path ≡ true = ground arith in
      (
        d.0,
        (Joins-follows_all j path all, oracle_path_is_compatible-IsPath j path d.1 (ground arith)),
      )

  pub IsPath-Descends : (n : ℕ) (path : List ℕ) → IsPath F c n path → Descends n path
  IsPath-Descends n [] h = tt
  IsPath-Descends n (j ∷ path) h = (h.0, IsPath-Descends j path h.1.1)
