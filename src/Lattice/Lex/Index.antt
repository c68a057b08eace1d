-- ===== src/Lattice/Lex/Index.antt =====
-- bench/lattice_reference/decoder.py: the index of the finished states, and `is_less` over it.
use clusy_crawler.Base.{
  ℕ, zero, suc, ◌+◌, ◌<◌, ◌≡◌, refl, sym, subst, ap, ◌∙◌, inl, inr, ◌⊎◌, Bool, true, false, ◌&&◌,
  Option, none, some, List, [], ◌∷◌, ◌==◌, length, drop, drop-nil, shifted_one-pos, if◌then◌else◌,
  Bool-cases, arith, shifted_one,
}
use clusy_crawler.Lattice.Scores.{Fractions}
use clusy_crawler.Lattice.Decode.{PathState, node_of, walk, then_index}
use clusy_crawler.Lattice.Table.{Links, AreLinked, walk-lt, walk-newer, walk-latest}
use clusy_crawler.Lattice.Lex.{
  LexNode, entry, get_or, root, is_some_of, parent_node, append, index_of,
}
use clusy_crawler.Lattice.Lex.Lift.{node_at, Indexes, StandsFor}
use clusy_crawler.Lattice.Lex.Build.{extend_jumps-StandsFor}

abbrev pub last_index : List ℕ → Option ℕ
last_index [] = none
last_index (i ∷ path) = some i

entry-lt :
    (index : List LexNode) (node : ℕ) (e : LexNode)
    → entry index node ≡ some e
    → node < length index
unfolding entry
entry-lt [] node e h = absurd (cc h)
entry-lt (x ∷ older) node e h = ground (arith, entry-lt older node e)

-- Below the latest node the index is the one before.
entry-older :
    (x : LexNode) (index : List LexNode) (node : ℕ) (e : LexNode)
    → entry index node ≡ some e
    → entry (x ∷ index) node ≡ some e
unfolding entry
entry-older x index node e h = ground (arith, entry-lt index node e)

entry-latest : (x : LexNode) (index : List LexNode) → entry (x ∷ index) (length index) ≡ some x
unfolding entry
entry-latest x index = ground arith

pub node_of-last_index : (path : List ℕ) → node_at path ≡ node_of (last_index path)
node_of-last_index [] = refl
node_of-last_index (i ∷ path) = refl

root-StandsFor : StandsFor root []
root-StandsFor = record {
  deep = refl;
  jumps_to = λ k h. absurd (omega (arith, h, shifted_one-pos k));
  jumps_or_zero = no_jump;
}
  where
    no_jump : (k : ℕ) → get_or 0 (0 ∷ []) k ≡ node_at (drop (shifted_one k) [])
    no_jump zero = refl
    no_jump (suc k) = sym (ap node_at (drop-nil (shifted_one (suc k))))

module _ {F : Fractions} where
  -- The path of a state of the table.
  abbrev pub InTable : List (PathState F) → List ℕ → Type 0
  InTable states path = walk F states (last_index path) ≡ some path

  pub walk-last_index :
      (states : List (PathState F)) (i : Option ℕ) (path : List ℕ)
      → walk F states i ≡ some path
      → last_index path ≡ i
  unfolding walk
  walk-last_index states none path h = let e : path ≡ [] = cc h in ap last_index e
  walk-last_index [] (some i) path h = absurd (cc h)
  walk-last_index (s ∷ older) (some i) path h = elim (Bool-cases (i == length older)) [
    | inr below ↦ walk-last_index older (some i) path (rw below at h)
    | inl here ↦
        ends (node_of s.terminal_index == suc i) (walk F older s.predecessor_index) (rw here at h)
  ]
    where
      ends :
          (t : Bool) (before : Option (List ℕ))
          → (if t then then_index i before else none) ≡ some path
          → last_index path ≡ some i
      ends false before h = absurd (cc h)
      ends true none h = absurd (cc h)
      ends true (some b) h = let e : path ≡ i ∷ b = cc h in ap last_index e

  walk-tail :
      (states : List (PathState F)) (i j : ℕ) (path : List ℕ)
      → walk F states (some i) ≡ some (j ∷ path)
      → InTable states path
  unfolding walk
  walk-tail [] i j path h = absurd (cc h)
  walk-tail (s ∷ older) i j path h = elim (Bool-cases (i == length older)) [
    | inr below ↦
        walk-newer F s older (last_index path) path (walk-tail older i j path (rw below at h))
    | inl here ↦
        let before =
          rest (node_of s.terminal_index == suc i) (walk F older s.predecessor_index)
            (rw here at h) in
        walk-newer F s older (last_index path) path (
          subst (λ a. walk F older a ≡ some path)
            (sym (walk-last_index older s.predecessor_index path before)) before)
  ]
    where
      rest :
          (t : Bool) (before : Option (List ℕ))
          → (if t then then_index i before else none) ≡ some (j ∷ path)
          → before ≡ some path
      rest false before h = absurd (cc h)
      rest true none h = absurd (cc h)
      rest true (some b) h = cc h

  InTable-drop :
      (states : List (PathState F)) (n : ℕ) (path : List ℕ)
      → InTable states path
      → InTable states (drop n path)
  InTable-drop states zero path h = h
  InTable-drop states (suc n) [] h = h
  InTable-drop states (suc n) (i ∷ path) h =
      InTable-drop states n path (walk-tail states i i path h)

  InTable-same :
      (states : List (PathState F)) (p q : List ℕ)
      → InTable states p
      → InTable states q
      → node_at p ≡ node_at q
      → p ≡ q
  InTable-same states [] [] h k e = refl
  InTable-same states [] (j ∷ q) h k e = absurd (omega (arith, e))
  InTable-same states (i ∷ p) [] h k e = absurd (omega (arith, e))
  InTable-same states (i ∷ p) (j ∷ q) h k e =
      let same : i ≡ j = omega (arith, e) in
      let found : some (i ∷ p) ≡ some (j ∷ q) = sym h ∙ ap (λ a. walk F states (some a)) same ∙ k in
      cc found

  -- A path of the table is one of before, or that of the latest state.
  InTable-cases :
      (s : PathState F) (older : List (PathState F)) (r path : List ℕ)
      → Links F older (length older) s r
      → InTable (s ∷ older) path
      → (InTable older path) ⊎ (path ≡ length older ∷ r)
  unfolding walk
  InTable-cases s older r [] l h = inl refl
  InTable-cases s older r (i ∷ path) l h = elim (Bool-cases (i == length older)) [
    | inr below ↦ inl (rw below at h)
    | inl here ↦
        let e : i ≡ length older = ground arith in
        let latest = walk-latest F s older r l.ends l.walked in
        let found : some (i ∷ path) ≡ some (length older ∷ r) =
          sym h ∙ ap (λ a. walk F (s ∷ older) (some a)) e ∙ latest in
        inr (cc found)
  ]

  pub walked-InTable :
      (older : List (PathState F)) (a : Option ℕ) (r : List ℕ)
      → walk F older a ≡ some r
      → InTable older r × (parent_node a (length older) ≡ some (node_at r))
  walked-InTable older a r h =
      let e = walk-last_index older a r h in
      (
        subst (λ b. walk F older b ≡ some r) (sym e) h,
        finished a (λ i q. walk-lt F older i r (sym (ap (walk F older) q) ∙ h))
            ∙ ap some (sym (node_of-last_index r ∙ ap node_of e)),
      )
    where
      finished :
          (a : Option ℕ)
          → ((i : ℕ) → a ≡ some i → i < length older)
          → parent_node a (length older) ≡ some (node_of a)
      finished none f = refl
      finished (some i) f = let lt = f i refl in ground arith

  Indexes-cons :
      (s : PathState F) (older : List (PathState F)) (index : List LexNode) (r : List ℕ)
      (x : LexNode)
      → Links F older (length older) s r
      → length index ≡ suc (length older)
      → Indexes (InTable older) index
      → StandsFor x (length older ∷ r)
      → Indexes (InTable (s ∷ older)) (x ∷ index)
  Indexes-cons s older index r x l len ix stands = record {
    drops = λ n path t. InTable-drop (s ∷ older) n path t;
    same = λ p q t t' e. InTable-same (s ∷ older) p q t t' e;
    find = λ path t. elim (InTable-cases s older r path l t) [
      | inl t' ↦
          let (e, found, ok) = ix.find path t' in
          (e, entry-older x index (node_at path) e found, ok)
      | inr e ↦ (
        x,
        ap (entry (x ∷ index)) (ap node_at e ∙ sym len) ∙ entry-latest x index,
        subst (StandsFor x) (sym e) stands,
      )
    ];
  }

  -- A finished state is appended to the index of those before it.
  append-Indexes :
      (s : PathState F) (older : List (PathState F)) (index : List LexNode) (r : List ℕ)
      → Links F older (length older) s r
      → length index ≡ suc (length older)
      → Indexes (InTable older) index
      → (index' : List LexNode) × (append index s (length older) ≡ some index')
        × (length index' ≡ suc (length (s ∷ older)))
        × Indexes (InTable (s ∷ older)) index'
  unfolding append
  append-Indexes s older index r l len ix =
      let (t, parent) = walked-InTable older s.predecessor_index r l.walked in
      let (e, found, ok) = ix.find r t in
      let (js, ends, stands) = extend_jumps-StandsFor ix (length older) r t in
      let in_order : (length index == suc (length older)
            && is_some_of s.terminal_index (length older))
          ≡ true =
        rw (len, l.ends) (ground arith) in
      let counted : (s.span_count == length r + 1) ≡ true = ground (arith, l.counted) in
      (
        record { depth = length r + 1; jumps = js } ∷ index,
        rw (in_order, parent, found, ok.deep, counted, ends) refl,
        omega (arith, len),
        Indexes-cons s older index r (record { depth = length r + 1; jumps = js }) l len ix stands,
      )

nothing-Indexes : (F : Fractions) → Indexes (InTable {F = F} []) (root ∷ [])
unfolding walk entry
nothing-Indexes F = record {
  drops = λ n path t. InTable-drop {F = F} [] n path t;
  same = λ p q t t' e. InTable-same {F = F} [] p q t t' e;
  find = only_root;
}
  where
    only_root :
        (path : List ℕ)
        → InTable {F = F} [] path
        → (e : LexNode) × (entry (root ∷ []) (node_at path) ≡ some e) × StandsFor e path
    only_root [] t = (root, refl, root-StandsFor)
    only_root (i ∷ path) t = absurd (cc t)

module _ {F : Fractions} where
  -- The index takes every state that the decoder finishes.
  pub index_of-Indexes :
      (states : List (PathState F))
      → AreLinked F states
      → (index : List LexNode) × (index_of states ≡ some index)
        × (length index ≡ suc (length states))
        × Indexes (InTable states) index
  unfolding index_of
  index_of-Indexes [] h = (root ∷ [], refl, refl, nothing-Indexes F)
  index_of-Indexes (s ∷ older) ((r, l), rest) =
      let (index, built, len, ix) = index_of-Indexes older rest in
      let (index', appended, len', ix') = append-Indexes s older index r l len ix in
      (index', rw built appended, len', ix')
