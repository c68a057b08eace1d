-- ===== src/Lattice/Lex/Ancestor.antt =====
-- bench/lattice_reference/decoder.py: `_lowest_common_ancestor` finds the longest common beginning of two paths.
use clusy_crawler.Base.{
  ℕ, suc, ◌+◌, ◌-◌, ◌≤◌, ◌≡◌, ◌≢◌, refl, sym, ap, ◌∙◌, inl, inr, false, Option, some, List, ltb,
  length, length-drop, drop, drop-drop, Bool-cases, arith,
}
use clusy_crawler.Lattice.Lex.{LexNode, meet, lowest_common_ancestor}
use clusy_crawler.Lattice.Lex.Lift.{node_at, Indexes, lift-drop}
use clusy_crawler.Lattice.Lex.Common.{node_at-cases, meet-MeetsAt}

-- How `_lowest_common_ancestor` stands to two paths that differ.
pub data Meeting (p q : List ℕ) (answer : Option ℕ) : Type 0 where
  below :
      (n : ℕ)
      → suc n ≤ length q
      → drop (suc n) q ≡ p
      → answer ≡ some (node_at p)
      → Meeting p q answer
  above :
      (m : ℕ)
      → suc m ≤ length p
      → drop (suc m) p ≡ q
      → answer ≡ some (node_at q)
      → Meeting p q answer
  fork :
      (m n : ℕ)
      → suc m ≤ length p
      → suc n ≤ length q
      → drop (suc m) p ≡ drop (suc n) q
      → drop m p ≢ drop n q
      → answer ≡ some (node_at (drop (suc m) p))
      → Meeting p q answer

module _ {InTable : List ℕ → Type 0} {index : List LexNode} (ix : Indexes InTable index) where
  -- The left node is the deeper one, by `suc m` spans.
  left_deeper :
      (p q : List ℕ) (m : ℕ)
      → InTable p
      → InTable q
      → length p ≡ suc m + length q
      → Meeting p q (meet index (node_at (drop (suc m) p)) (node_at q))
  unfolding meet
  left_deeper p q m t t' e = elim (node_at-cases ix (drop (suc m) p) q (ix.drops (suc m) p t) t') [
    | inl (same, e') ↦
        Meeting.above m (omega (arith, e)) e' (rw same (ap (λ z. some (node_at z)) e'))
    | inr (differ, d) ↦
        let h =
          meet-MeetsAt ix (drop (suc m) p) q (ix.drops (suc m) p t) t'
            (omega (arith, e, length-drop (suc m) p)) d in
        let further : suc (suc m + h.above) ≡ suc m + suc h.above = omega arith in
        let later : drop (suc (suc m + h.above)) p ≡ drop (suc h.above) (drop (suc m) p) =
          ap (λ k. drop k p) further ∙ sym (drop-drop (suc m) (suc h.above) p) in
        Meeting.fork (suc m + h.above) h.above (omega (arith, h.within, length-drop (suc m) p, e))
          (omega (arith, h.within, length-drop (suc m) p, e)) (later ∙ h.common)
          (λ x. h.apart (drop-drop (suc m) h.above p ∙ x))
          (h.found ∙ ap (λ z. some (node_at z)) (sym later))
  ]

  right_deeper :
      (p q : List ℕ) (n : ℕ)
      → InTable p
      → InTable q
      → length q ≡ suc n + length p
      → Meeting p q (meet index (node_at p) (node_at (drop (suc n) q)))
  unfolding meet
  right_deeper p q n t t' e = elim (node_at-cases ix p (drop (suc n) q) t (ix.drops (suc n) q t')) [
    | inl (same, e') ↦ Meeting.below n (omega (arith, e)) (sym e') (rw same refl)
    | inr (differ, d) ↦
        let h =
          meet-MeetsAt ix p (drop (suc n) q) t (ix.drops (suc n) q t')
            (omega (arith, e, length-drop (suc n) q)) d in
        let further : suc (suc n + h.above) ≡ suc n + suc h.above = omega arith in
        let later : drop (suc (suc n + h.above)) q ≡ drop (suc h.above) (drop (suc n) q) =
          ap (λ k. drop k q) further ∙ sym (drop-drop (suc n) (suc h.above) q) in
        Meeting.fork h.above (suc n + h.above) h.within (omega (arith, h.within, e))
          (h.common ∙ sym later) (λ x. h.apart (x ∙ sym (drop-drop (suc n) h.above q))) h.found
  ]

  pub lowest_common_ancestor-Meeting :
      (p q : List ℕ)
      → InTable p
      → InTable q
      → p ≢ q
      → Meeting p q (lowest_common_ancestor index (node_at p) (node_at q))
  unfolding lowest_common_ancestor
  lowest_common_ancestor-Meeting p q t t' d =
      let (l, l_found, l_stands) = ix.find p t in
      let (r, r_found, r_stands) = ix.find q t' in
      elim (Bool-cases (ltb (length q) (length p))) [
        | inl longer ↦
            let m = length p - length q - 1 in
            let by : length p - length q ≡ suc m = ground arith in
            let other : ltb (length p) (length q) ≡ false = ground arith in
            rw
              (
                l_found,
                r_found,
                l_stands.deep,
                r_stands.deep,
                longer,
                other,
                by,
                lift-drop ix p (suc m) t (omega (arith, by)),
              )
              (left_deeper p q m t t' (ground arith))
        | inr short ↦ elim (Bool-cases (ltb (length p) (length q))) [
          | inl longer ↦
              let n = length q - length p - 1 in
              let by : length q - length p ≡ suc n = ground arith in
              rw
                (
                  l_found,
                  r_found,
                  l_stands.deep,
                  r_stands.deep,
                  longer,
                  short,
                  by,
                  lift-drop ix q (suc n) t' (omega (arith, by)),
                )
                (right_deeper p q n t t' (ground arith))
          | inr as_long ↦
              let e : length p ≡ length q = ground arith in
              let h = meet-MeetsAt ix p q t t' e d in
              rw (l_found, r_found, l_stands.deep, r_stands.deep, short, as_long)
                (Meeting.fork h.above h.above h.within (omega (arith, h.within, e)) h.common h.apart
                  h.found)
        ]
      ]
