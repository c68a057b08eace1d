-- ===== src/Lattice/Lex/Less.antt =====
-- bench/lattice_reference/decoder.py: `is_less` by jump pointers is `<` on the tuples of source identities.
use clusy_crawler.Base.{
  ℕ, zero, suc, ◌-◌, ◌≤◌, ◌≡◌, ◌≢◌, refl, sym, subst, ap, ◌∙◌, inl, inr, true, false, some, List,
  [], ◌∷◌, ◌++◌, Text, text_eq, ◌==◌, length, length-drop, drop, arith,
}
use mathlib.Core.List.{append_assoc}
use clusy_crawler.Lattice.Scores.{Fractions}
use clusy_crawler.Lattice.Identities.{
  identities_less, identities_less-beginning, identities_less-begun, identities_less-fork,
  identities_less-irreflexive,
}
use clusy_crawler.Lattice.Spans.{Catalog}
use clusy_crawler.Lattice.Paths.{path_identities}
use clusy_crawler.Lattice.Lex.{LexNode, lift, is_less_apart, is_less}
use clusy_crawler.Lattice.Lex.Lift.{node_at, Indexes, lift-drop}
use clusy_crawler.Lattice.Lex.Common.{node_at-cases}
use clusy_crawler.Lattice.Lex.Ancestor.{Meeting, lowest_common_ancestor-Meeting}

module _ (F : Fractions) (c : Catalog F) where
  abbrev pub identity : ℕ → Text
  identity i = (c.span i).source_identity

  -- A path by its beginning, the next span and the spans behind it.
  record Behind (n : ℕ) (q : List ℕ) : Type 0 where
    next : ℕ
    rest : List Text
    stands : drop n q ≡ next ∷ drop (suc n) q
    joined : path_identities F c q ≡ path_identities F c (drop (suc n) q) ++ identity next ∷ rest

  behind : (n : ℕ) (q : List ℕ) → suc n ≤ length q → Behind n q
  behind n [] h = absurd (omega (arith, h))
  behind zero (i ∷ q) h = record { next = i; rest = []; stands = refl; joined = refl }
  behind (suc n) (i ∷ q) h =
      let b = behind n q (omega (arith, h)) in
      record {
        next = b.next;
        rest = b.rest ++ identity i ∷ [];
        stands = b.stands;
        joined =
            ap (λ z. z ++ identity i ∷ []) b.joined
            ∙ append_assoc (path_identities F c (drop (suc n) q)) (identity b.next ∷ b.rest)
                (identity i ∷ []);
      }

  module _ {InTable : List ℕ → Type 0} {index : List LexNode} (ix : Indexes InTable index)
      (distinct : (i j : ℕ) (p q : List ℕ)
        → InTable (i ∷ p)
        → InTable (j ∷ q)
        → i ≢ j
        → text_eq (identity i) (identity j) ≡ false) where
    child :
        (p : List ℕ) (m common_depth : ℕ)
        → InTable p
        → suc m ≤ length p
        → common_depth ≡ length (drop (suc m) p)
        → lift index (node_at p) (length p - common_depth - 1) ≡ some (node_at (drop m p))
    child p m common_depth t h e =
        let far : length p - common_depth - 1 ≡ m = omega (arith, h, e, length-drop (suc m) p) in
        rw far (lift-drop ix p m t (omega (arith, h)))

    is_less_apart-fork :
        (p q : List ℕ) (m n : ℕ)
        → InTable p
        → InTable q
        → suc m ≤ length p
        → suc n ≤ length q
        → drop (suc m) p ≡ drop (suc n) q
        → drop m p ≢ drop n q
        → is_less_apart identity index (node_at (drop (suc m) p)) (node_at p) (node_at q)
          ≡ some (identities_less (path_identities F c p) (path_identities F c q))
    unfolding is_less_apart
    is_less_apart-fork p q m n t t' h h' common apart =
        let (s, s_found, s_stands) = ix.find (drop (suc m) p) (ix.drops (suc m) p t) in
        let (l, l_found, l_stands) = ix.find p t in
        let (r, r_found, r_stands) = ix.find q t' in
        let a = behind m p h in
        let b = behind n q h' in
        let differ : a.next ≢ b.next = λ e. apart (
          a.stands ∙ ap (λ i. i ∷ drop (suc m) p) e ∙ ap (λ z. b.next ∷ z) common ∙ sym b.stands) in
        let unlike : text_eq (identity a.next) (identity b.next) ≡ false =
          distinct a.next b.next (drop (suc m) p) (drop (suc n) q)
            (subst InTable a.stands (ix.drops m p t)) (subst InTable b.stands (ix.drops n q t'))
            differ in
        let left : lift index (node_at p) (length p - length (drop (suc m) p) - 1)
            ≡ some (suc a.next) =
          child p m (length (drop (suc m) p)) t h refl ∙ ap (λ z. some (node_at z)) a.stands in
        let right : lift index (node_at q) (length q - length (drop (suc m) p) - 1)
            ≡ some (suc b.next) =
          child q n (length (drop (suc m) p)) t' h' (ap length common)
          ∙ ap (λ z. some (node_at z)) b.stands in
        let low : suc a.next - 1 ≡ a.next = omega arith in
        let low' : suc b.next - 1 ≡ b.next = omega arith in
        rw
          (
            s_found, l_found, r_found, s_stands.deep, l_stands.deep, r_stands.deep, left, right,
            low, low', unlike,
          )
          (ap some (
            sym (
              ap (λ z. identities_less z (path_identities F c q)) a.joined
              ∙ ap
                  (λ z.
                    identities_less
                      (path_identities F c (drop (suc m) p) ++ identity a.next ∷ a.rest) z)
                  (b.joined
                    ∙ ap (λ z. path_identities F c z ++ identity b.next ∷ b.rest) (sym common))
              ∙ identities_less-fork (path_identities F c (drop (suc m) p)) a.rest b.rest
                  (identity a.next) (identity b.next) unlike)))

    other_node :
        (p q : List ℕ)
        → InTable p
        → InTable q
        → length p ≢ length q
        → (node_at p == node_at q) ≡ false
    other_node p q t t' d = elim (node_at-cases ix p q t t') [
      | inl (same, e) ↦ absurd (d (ap length e))
      | inr (differ, e) ↦ differ
    ]

    same_node : (p : List ℕ) → (node_at p == node_at p) ≡ true
    same_node p = ground arith

    -- `is_less` raises nothing, and answers the order of the two tuples.
    pub is_less-identities_less :
        (p q : List ℕ)
        → InTable p
        → InTable q
        → is_less identity index (node_at p) (node_at q)
          ≡ some (identities_less (path_identities F c p) (path_identities F c q))
    unfolding is_less
    is_less-identities_less p q t t' = elim (node_at-cases ix p q t t') [
      | inl (same, e) ↦
          rw same (ap some (sym (rw e (identities_less-irreflexive (path_identities F c q)))))
      | inr (differ, d) ↦ elim (lowest_common_ancestor-Meeting ix p q t t' d) [
        | Meeting.below n le e found ↦
            let b = behind n q le in
            rw (differ, found, same_node p)
              (ap some (
                sym (
                  ap (λ z. identities_less (path_identities F c p) z)
                    (b.joined ∙ ap (λ z. path_identities F c z ++ identity b.next ∷ b.rest) e)
                  ∙ identities_less-beginning (path_identities F c p) b.rest (identity b.next))))
        | Meeting.above m le e found ↦
            let a = behind m p le in
            let up =
              other_node q p t' t
                (λ z. absurd (omega (arith, le, z, ap length e, length-drop (suc m) p))) in
            rw (differ, found, up, same_node q)
              (ap some (
                sym (
                  ap (λ z. identities_less z (path_identities F c q))
                    (a.joined ∙ ap (λ z. path_identities F c z ++ identity a.next ∷ a.rest) e)
                  ∙ identities_less-begun (path_identities F c q) a.rest (identity a.next))))
        | Meeting.fork m n le le' common apart found ↦
            let s = drop (suc m) p in
            let ts = ix.drops (suc m) p t in
            let left =
              other_node s p ts t (λ z. absurd (omega (arith, le, z, length-drop (suc m) p))) in
            let right =
              other_node s q ts t'
                (λ z. absurd (omega (arith, le', z, ap length common, length-drop (suc n) q))) in
            rw (differ, found, left, right) (is_less_apart-fork p q m n t t' le le' common apart)
      ]
    ]
