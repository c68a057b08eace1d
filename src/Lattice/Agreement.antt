-- ===== src/Lattice/Agreement.antt =====
-- bench/lattice_reference/decoder.py: `decode` and `brute_force_decode` answer the same path.
use clusy_crawler.Base.{
  ℕ, zero, suc, ◌+◌, ◌-◌, ◌<◌, ◌≡◌, refl, sym, subst, ap, ◌∙◌, inl, inr, true, false, some, List,
  [], arith, Bool-cases, ltb, shifted_one, shifted_one-pos,
}
use clusy_crawler.Lattice.Scores.{Fractions}
use clusy_crawler.Lattice.Spans.{Catalog}
use clusy_crawler.Lattice.Decode.{decode}
use clusy_crawler.Lattice.Paths.{
  IsPath, path_score, path_better, path_better-asym, path_better-irreflexive, path_better-weak, key,
}
use clusy_crawler.Lattice.Table.{LexOrder}
use clusy_crawler.Lattice.Optimal.{IsBestPath, decode-IsBestPath}
use clusy_crawler.Lattice.Oracle.{
  own_scores, selected_indices, oracle_path_is_compatible, consider, search_masks, brute_force,
}
use clusy_crawler.Lattice.Masks.{
  mask_of, mask_of-lt, selected_indices-mask_of, selected_indices-Descends,
}
use clusy_crawler.Lattice.Canonical.{
  IsCanonical, IsPath-oracle_path_is_compatible, oracle_path_is_compatible-IsPath, IsPath-Descends,
}
use clusy_crawler.Lattice.Ties.{path_score-oracle_score, tied, path_identities-cancel}

module _ (F : Fractions) (c : Catalog F) where
  -- What the loop over the masks has found before it comes to `mask`.
  record IsBestBefore (mask : ℕ) (best : List ℕ × F.Score) : Type 0 where
    path : IsPath F c c.count best.0
    scored : best.1 ≡ path_score F c best.0
    below :
        (m : ℕ)
        → m < mask
        → oracle_path_is_compatible F c (selected_indices c.count m) ≡ true
        → path_better F c (selected_indices c.count m) best.0 ≡ false

  -- One more mask, whose selection does not rank before the new best, and where the old best does not either.
  IsBestBefore-suc :
      (mask : ℕ) (best new : List ℕ × F.Score)
      → IsBestBefore mask best
      → IsPath F c c.count new.0
      → new.1 ≡ path_score F c new.0
      → path_better F c best.0 new.0 ≡ false
      → (oracle_path_is_compatible F c (selected_indices c.count mask) ≡ true
          → path_better F c (selected_indices c.count mask) new.0 ≡ false)
      → IsBestBefore (suc mask) new
  IsBestBefore-suc mask best new h path scored keeps last = record {
    path = path;
    scored = scored;
    below = λ m lt ok. elim (Bool-cases (ltb m mask)) [
      | inl before ↦
          path_better-weak F c (selected_indices c.count m) best.0 new.0
            (h.below m (ground arith) ok) keeps
      | inr here ↦
          let e : m ≡ mask = ground arith in
          subst (λ k. path_better F c (selected_indices c.count k) new.0 ≡ false) (sym e)
            (last
              (subst (λ k. oracle_path_is_compatible F c (selected_indices c.count k) ≡ true) e ok))
    ];
  }

  consider-IsBestBefore :
      (mask : ℕ) (best : List ℕ × F.Score)
      → IsBestBefore mask best
      → IsBestBefore (suc mask) (consider F c (own_scores F c) (selected_indices c.count mask) best)
  unfolding consider
  consider-IsBestBefore mask (best, s) h =
      let p = selected_indices c.count mask in
      elim (Bool-cases (oracle_path_is_compatible F c p)) [
        | inr clash ↦ rw clash (
            IsBestBefore-suc mask (best, s) (best, s) h h.path h.scored
              (path_better-irreflexive F c best) (λ ok. absurd (cc ok)))
        | inl ok ↦ elim (Bool-cases (path_better F c p best)) [
          | inl better ↦
              rw (ok, ← path_score-oracle_score F c p, h.scored, better)
                (IsBestBefore-suc mask (best, s) (p, path_score F c p) h
                  (oracle_path_is_compatible-IsPath F c c.count p
                    (selected_indices-Descends c.count mask) ok)
                  refl (path_better-asym F c p best better) (λ ok. path_better-irreflexive F c p))
          | inr worse ↦
              rw (ok, ← path_score-oracle_score F c p, h.scored, worse)
                (IsBestBefore-suc mask (best, s) (best, path_score F c best) h h.path refl
                  (path_better-irreflexive F c best) (λ ok. worse))
        ]
      ]

  search_masks-IsBestBefore :
      (left mask : ℕ) (best : List ℕ × F.Score)
      → IsBestBefore mask best
      → IsBestBefore (left + mask) (search_masks F c (own_scores F c) left mask best)
  unfolding search_masks
  search_masks-IsBestBefore zero mask best h = subst (λ k. IsBestBefore k best) (omega arith) h
  search_masks-IsBestBefore (suc left) mask best h =
      subst (λ k. IsBestBefore k (search_masks F c (own_scores F c) (suc left) mask best))
        (omega arith)
        (search_masks-IsBestBefore left (suc mask) _ (consider-IsBestBefore mask best h))

  -- No mask is left out: zero is the empty path.
  brute_force-IsBestBefore : IsBestBefore (shifted_one c.count) (brute_force F c (own_scores F c))
  unfolding brute_force
  brute_force-IsBestBefore =
      subst (λ k. IsBestBefore k (brute_force F c (own_scores F c)))
        (omega (arith, shifted_one-pos c.count))
        (search_masks-IsBestBefore (shifted_one c.count - 1) 1 ([], F.zero_score)
          (record { path = tt; scored = refl; below = only_zero }))
    where
      only_zero :
          (m : ℕ)
          → m < 1
          → oracle_path_is_compatible F c (selected_indices c.count m) ≡ true
          → path_better F c (selected_indices c.count m) [] ≡ false
      only_zero m lt ok =
          let e : m ≡ 0 = omega (arith, lt) in
          subst (λ p. path_better F c p [] ≡ false)
            (sym (ap (selected_indices c.count) e ∙ selected_indices-mask_of c.count [] tt))
            (path_better-irreflexive F c [])

  module _ (canonical : IsCanonical F c) where
    brute_force-IsBestPath : IsBestPath F c c.count (brute_force F c (own_scores F c)).0
    brute_force-IsBestPath q h =
        let e = selected_indices-mask_of c.count q (IsPath-Descends F c c.count q h) in
        subst (λ p. path_better F c p (brute_force F c (own_scores F c)).0 ≡ false) e
          (brute_force-IsBestBefore.below (mask_of q)
            (mask_of-lt c.count q (IsPath-Descends F c c.count q h))
            (subst (λ p. oracle_path_is_compatible F c p ≡ true) (sym e)
              (IsPath-oracle_path_is_compatible F c canonical c.count q (omega arith) h)))

    -- Over a canonical catalog the decoder and the exhaustive search answer the same path with the same score.
    pub decode-brute_force :
        (lex : LexOrder F c)
        → ((decode F lex.is_less c).0 ≡ some (brute_force F c (own_scores F c)).0)
          × ((decode F lex.is_less c).1.score ≡ (brute_force F c (own_scores F c)).1)
    decode-brute_force lex =
        let (p, found, scored, covers, path, best) = decode-IsBestPath F c lex in
        let b = (brute_force F c (own_scores F c)).0 in
        let (same_score, same_identities) =
          tied F (key F c p) (key F c b) (brute_force-IsBestPath p path)
            (best b brute_force-IsBestBefore.path) in
        let e : p ≡ b =
          path_identities-cancel F c canonical c.count p b (omega arith)
            (IsPath-Descends F c c.count p path)
            (IsPath-Descends F c c.count b brute_force-IsBestBefore.path) same_identities in
        (found ∙ ap some e, scored ∙ same_score ∙ sym brute_force-IsBestBefore.scored)
