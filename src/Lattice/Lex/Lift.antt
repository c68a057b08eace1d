-- ===== src/Lattice/Lex/Lift.antt =====
-- bench/lattice_reference/decoder.py: `_lift` finds the node that many spans further up.
use clusy_crawler.Base.{
  ℕ, zero, suc, ◌+◌, ◌*◌, ◌/◌, ◌%◌, ◌≤◌, ◌<◌, ◌≡◌, sym, ap, ◌∙◌, inl, inr, true, some, List, [],
  ◌∷◌, leb, ◌==◌, length, length-drop, get_elem?, drop, drop-drop, shifted_one, Bool-cases, arith,
}
use clusy_crawler.Lattice.Lex.{LexNode, entry, jump, lift_loop, lift, get_or}

-- The node of a path, the last span of which stands first.
abbrev pub node_at : List ℕ → ℕ
node_at [] = 0
node_at (i ∷ path) = suc i

-- The node `e` stands for the path: its jumps lead over the powers of two.
pub record StandsFor (e : LexNode) (path : List ℕ) : Type 0 where
  pub deep : e.depth ≡ length path
  pub jumps_to :
      (k : ℕ)
      → shifted_one k ≤ length path
      → get_elem? e.jumps k ≡ some (node_at (drop (shifted_one k) path))
  pub jumps_or_zero : (k : ℕ) → get_or 0 e.jumps k ≡ node_at (drop (shifted_one k) path)

-- An index of all paths of a set, which has the beginnings of its paths and tells them apart by their last nodes.
pub record Indexes (InTable : List ℕ → Type 0) (index : List LexNode) : Type 0 where
  pub find :
      (path : List ℕ)
      → InTable path
      → (e : LexNode) × (entry index (node_at path) ≡ some e) × StandsFor e path
  pub drops : (n : ℕ) (path : List ℕ) → InTable path → InTable (drop n path)
  pub same : (p q : List ℕ) → InTable p → InTable q → node_at p ≡ node_at q → p ≡ q

odd_multiple : (q u : ℕ) → (2 * q + 1) * u ≡ u + q * (2 * u)
odd_multiple q u = grind arith

even_multiple : (q u : ℕ) → 2 * q * u ≡ q * (2 * u)
even_multiple q u = grind arith

module _ {InTable : List ℕ → Type 0} {index : List LexNode} (ix : Indexes InTable index) where
  pub jump-drop :
      (path : List ℕ) (k : ℕ)
      → InTable path
      → shifted_one k ≤ length path
      → jump index (node_at path) k ≡ some (node_at (drop (shifted_one k) path))
  unfolding jump
  jump-drop path k t h = let (e, found, stands) = ix.find path t in rw found (stands.jumps_to k h)

  -- With the power of two at the level as the unit of the distance.
  lift_loop-drop :
      (fuel : ℕ) (path : List ℕ) (distance level : ℕ)
      → InTable path
      → distance < fuel
      → distance * shifted_one level ≤ length path
      → lift_loop index fuel (node_at path) distance level
        ≡ some (node_at (drop (distance * shifted_one level) path))
  unfolding lift_loop
  lift_loop-drop zero path distance level t f h = absurd (omega (arith, f))
  lift_loop-drop (suc fuel) path distance level t f h = elim (Bool-cases (distance == 0)) [
    | inl done ↦
        let e : distance ≡ 0 = ground arith in
        let none_left : 0 ≡ distance * shifted_one level = grind arith in
        rw (done, lift_loop) (ap (λ k. some (node_at (drop k path))) none_left)
    | inr more ↦ elim (Bool-cases (distance % 2 == 1)) [
      | inl odd ↦
          let unit = shifted_one level in
          let halves : distance ≡ 2 * (distance / 2) + 1 = ground arith in
          let split : distance * unit ≡ unit + distance / 2 * (2 * unit) =
            ap (λ x. x * unit) halves ∙ odd_multiple (distance / 2) unit in
          let e =
            lift_loop-drop fuel (drop unit path) (distance / 2) (suc level) (ix.drops unit path t)
              (ground arith) (omega (arith, h, split, length-drop unit path)) in
          rw (more, lift_loop, odd, jump-drop path level t (omega (arith, h, split)))
            (e
              ∙ ap (λ p. some (node_at p)) (drop-drop unit (distance / 2 * (2 * unit)) path)
              ∙ ap (λ k. some (node_at (drop k path))) (sym split))
      | inr even ↦
          let unit = shifted_one level in
          let halves : distance ≡ 2 * (distance / 2) = ground arith in
          let split : distance * unit ≡ distance / 2 * (2 * unit) =
            ap (λ x. x * unit) halves ∙ even_multiple (distance / 2) unit in
          rw (more, lift_loop, even)
            (lift_loop-drop fuel path (distance / 2) (suc level) t (ground arith)
                (omega (arith, h, split))
              ∙ ap (λ k. some (node_at (drop k path))) (sym split))
    ]
  ]

  pub lift-drop :
      (path : List ℕ) (distance : ℕ)
      → InTable path
      → distance ≤ length path
      → lift index (node_at path) distance ≡ some (node_at (drop distance path))
  unfolding lift
  lift-drop path distance t h =
      let (e, found, stands) = ix.find path t in
      let allowed : leb distance e.depth ≡ true = ground (arith, stands.deep) in
      let unit : distance * 1 ≡ distance = omega arith in
      rw (found, allowed)
        (lift_loop-drop (suc distance) path distance 0 t (omega arith) (omega (arith, h))
          ∙ ap (λ k. some (node_at (drop k path))) unit)
