-- ===== src/Lattice/Lex/Common.antt =====
-- bench/lattice_reference/decoder.py: the descent of `_lowest_common_ancestor` from nodes of one depth.
use clusy_crawler.Base.{
  ℕ, zero, suc, ◌+◌, ◌*◌, ◌/◌, ◌≤◌, ◌<◌, ◌≡◌, ◌≢◌, refl, sym, ap, ◌∙◌, inl, inr, true, false,
  Option, some, List, [], ◌∷◌, leb, ◌==◌, ==_iff, ◌⊎◌, length, length-drop, drop, drop-drop,
  drop_all, shifted_one, Bool-cases, arith,
}
use clusy_crawler.Lattice.Lex.{LexNode, bits, bit_length, descend, meet}
use clusy_crawler.Lattice.Lex.Lift.{node_at, Indexes, jump-drop}

bits-lt : (fuel n : ℕ) → n ≤ fuel → n < shifted_one (bits fuel n)
unfolding bits
bits-lt zero n h = omega (arith, h)
bits-lt (suc fuel) n h = elim (Bool-cases (n == 0)) [
  | inl none ↦ rw (none, bits) (ground arith)
  | inr more ↦
      let half : n / 2 ≤ fuel = ground arith in
      rw (more, bits) (omega (arith, bits-lt fuel (n / 2) half))
]

pub bit_length-lt : (n : ℕ) → n < shifted_one (bit_length n)
unfolding bit_length
bit_length-lt n = bits-lt n n (omega arith)

nonempty : (p q : List ℕ) → length p ≡ length q → p ≢ q → 1 ≤ length p
nonempty [] [] h d = absurd (d refl)
nonempty [] (x ∷ q) h d = absurd (omega (arith, h))
nonempty (x ∷ p) q h d = omega arith

-- The paths come together `above + 1` spans further up, and not before, and that is the node.
pub record MeetsAt (p q : List ℕ) (answer : Option ℕ) : Type 0 where
  pub above : ℕ
  pub within : suc above ≤ length p
  pub common : drop (suc above) p ≡ drop (suc above) q
  pub apart : drop above p ≢ drop above q
  pub found : answer ≡ some (node_at (drop (suc above) p))

-- The same from nodes further up.
MeetsAt-drop :
    (u : ℕ) (p q : List ℕ) (answer : Option ℕ)
    → u ≤ length p
    → MeetsAt (drop u p) (drop u q) answer
    → MeetsAt p q answer
MeetsAt-drop u p q answer le h = record {
  above = u + h.above;
  within = omega (arith, h.within, length-drop u p);
  common = later p ∙ h.common ∙ sym (later q);
  apart = λ e. h.apart (drop-drop u h.above p ∙ e ∙ sym (drop-drop u h.above q));
  found = h.found ∙ ap (λ z. some (node_at z)) (sym (later p));
}
  where
    later : (z : List ℕ) → drop (suc (u + h.above)) z ≡ drop (suc h.above) (drop u z)
    later z =
        let e : suc (u + h.above) ≡ u + suc h.above = omega arith in
        ap (λ k. drop k z) e ∙ sym (drop-drop u (suc h.above) z)

module _ {InTable : List ℕ → Type 0} {index : List LexNode} (ix : Indexes InTable index) where
  pub node_at-cases :
      (p q : List ℕ)
      → InTable p
      → InTable q
      → (((node_at p == node_at q) ≡ true) × (p ≡ q))
        ⊎ (((node_at p == node_at q) ≡ false) × (p ≢ q))
  node_at-cases p q t t' = elim (Bool-cases (node_at p == node_at q)) [
    | inl e ↦ inl (e, ix.same p q t t' ((==_iff (node_at p) (node_at q)).0 e))
    | inr d ↦ inr (d, λ e. cc ((==_iff (node_at p) (node_at q)).1 (ap node_at e)))
  ]

  descend-MeetsAt :
      (levels : ℕ) (p q : List ℕ)
      → InTable p
      → InTable q
      → length p ≡ length q
      → p ≢ q
      → drop (shifted_one levels) p ≡ drop (shifted_one levels) q
      → MeetsAt p q (descend index levels (node_at p) (node_at q))
  unfolding descend
  descend-MeetsAt zero p q t t' e d m = record {
    above = 0;
    within = nonempty p q e d;
    common = m;
    apart = d;
    found = jump-drop ix p 0 t (nonempty p q e d);
  }
  descend-MeetsAt (suc level) p q t t' e d m =
      let (l, l_found, l_stands) = ix.find p t in
      let (r, r_found, r_stands) = ix.find q t' in
      let u = shifted_one level in
      elim (node_at-cases (drop u p) (drop u q) (ix.drops u p t) (ix.drops u q t')) [
        | inl (same, e') ↦
            rw (l_found, r_found, l_stands.jumps_or_zero level, r_stands.jumps_or_zero level, same)
              (descend-MeetsAt level p q t t' e d e')
        | inr (differ, d') ↦
            let short : u ≤ length p = further u p q e d' in
            let half : u + u ≡ 2 * u = omega arith in
            rw
              (l_found, r_found, l_stands.jumps_or_zero level, r_stands.jumps_or_zero level, differ)
              (MeetsAt-drop u p q _ short (
                descend-MeetsAt level (drop u p) (drop u q) (ix.drops u p t) (ix.drops u q t')
                  (omega (arith, e, length-drop u p, length-drop u q)) d'
                  (twice u p ∙ m ∙ sym (twice u q))))
      ]
    where
      further : (u : ℕ) (p q : List ℕ) → length p ≡ length q → drop u p ≢ drop u q → u ≤ length p
      further u p q e d = elim (Bool-cases (leb u (length p))) [
        | inl le ↦ ground arith
        | inr gt ↦ absurd (d (drop_all u p (ground arith) ∙ sym (drop_all u q (ground arith))))
      ]

      twice : (u : ℕ) (p : List ℕ) → drop u (drop u p) ≡ drop (2 * u) p
      twice u p = let e : u + u ≡ 2 * u = omega arith in drop-drop u u p ∙ ap (λ k. drop k p) e

  pub meet-MeetsAt :
      (p q : List ℕ)
      → InTable p
      → InTable q
      → length p ≡ length q
      → p ≢ q
      → MeetsAt p q (meet index (node_at p) (node_at q))
  unfolding meet
  meet-MeetsAt p q t t' e d =
      let (l, l_found, l_stands) = ix.find p t in
      let levels = bit_length l.depth in
      let all : length p ≤ shifted_one levels =
        omega (arith, bit_length-lt l.depth, l_stands.deep) in
      elim (node_at-cases p q t t') [
        | inl (same, e') ↦ absurd (d e')
        | inr (differ, d') ↦
            rw (differ, l_found)
              (descend-MeetsAt levels p q t t' e d (
                drop_all (shifted_one levels) p all
                ∙ sym (drop_all (shifted_one levels) q (omega (arith, all, e)))))
      ]
