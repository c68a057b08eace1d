-- ===== src/Lattice/Lex.antt =====
-- bench/lattice_reference/decoder.py: `_ExactPathLexIndex`, the jump pointers over the finished states.
pub mod Lift
pub mod Common
pub mod Ancestor
pub mod Build
pub mod Less
pub mod Index
pub mod Answer
use clusy_crawler.Base.{
  ℕ, zero, suc, ◌+◌, ◌-◌, ◌/◌, ◌%◌, Bool, true, false, not, ◌&&◌, Option, none, some, List, [], ◌∷◌,
  ◌++◌, Text, text_eq, text_ltb, leb, ltb, ◌==◌, length, get_elem?, shifted_one, if◌then◌else◌,
}
use clusy_crawler.Lattice.Scores.{Fractions}
use clusy_crawler.Lattice.Decode.{PathState}

-- `none` is a `RuntimeError`.
infixl 5 ◌>>=◌
abbrev pub ◌>>=◌ : {A B : Type 0} → Option A → (A → Option B) → Option B
none >>= f = none
some a >>= f = f a

abbrev pub guard : Bool → Option (Unit {0})
guard true = some tt
guard false = none

-- What `_depths` and `_jumps` hold at one node.
pub record LexNode : Type 0 where
  pub depth : ℕ
  pub jumps : List ℕ

-- The node of a number, where the latest one stands first.
unfoldable pub entry : List LexNode → ℕ → Option LexNode
entry [] node = none
entry (e ∷ older) node =
    let before = entry older node in if node == length older then some e else before

-- `self._jumps[node][level]`
unfoldable pub jump : List LexNode → ℕ → ℕ → Option ℕ
unfolding entry
jump index node level = do e ← entry index node; get_elem? e.jumps level

-- The loop of `_lift`, with fuel.
unfoldable pub lift_loop : List LexNode → ℕ → ℕ → ℕ → ℕ → Option ℕ
unfolding jump
lift_loop index zero node distance level = none
lift_loop index (suc fuel) node distance level = elim (distance == 0) [
  | true ↦ some node
  | false ↦ (if distance % 2 == 1 then jump index node level else some node) >>= λ next.
      lift_loop index fuel next (distance / 2) (suc level)
]

unfoldable pub lift : List LexNode → ℕ → ℕ → Option ℕ
unfolding lift_loop
lift index node distance = do
  e ← entry index node
  guard (leb distance e.depth) >>= λ _. lift_loop index (suc distance) node distance 0

-- `n.bit_length()`
unfoldable pub bits : ℕ → ℕ → ℕ
bits zero n = 0
bits (suc fuel) n = elim (n == 0) [ true ↦ 0 | false ↦ suc (bits fuel (n / 2)) ]

unfoldable pub bit_length : ℕ → ℕ
unfolding bits
bit_length n = bits n n

-- `self._jumps[node][level] if level < len(self._jumps[node]) else 0`
abbrev pub get_or : ℕ → List ℕ → ℕ → ℕ
get_or default [] level = default
get_or default (j ∷ jumps) zero = j
get_or default (j ∷ jumps) (suc level) = get_or default jumps level

-- The loop of `_lowest_common_ancestor`, with the levels that are left.
unfoldable pub descend : List LexNode → ℕ → ℕ → ℕ → Option ℕ
unfolding jump
descend index zero left right = jump index left 0
descend index (suc level) left right = do
  l ← entry index left
  r ← entry index right
  let left_ancestor = get_or 0 l.jumps level
  let right_ancestor = get_or 0 r.jumps level
  let same = left_ancestor == right_ancestor
  descend index level (if same then left else left_ancestor)
      (if same then right else right_ancestor)

-- The rest of `_lowest_common_ancestor`, once both nodes are as deep.
unfoldable pub meet : List LexNode → ℕ → ℕ → Option ℕ
unfolding bit_length descend
meet index left right =
    if left == right
    then some left
    else entry index left >>= λ l. descend index (bit_length l.depth) left right

unfoldable pub lowest_common_ancestor : List LexNode → ℕ → ℕ → Option ℕ
lowest_common_ancestor index left right = do
  l ← entry index left
  r ← entry index right
  left' ← if ltb r.depth l.depth then lift index left (l.depth - r.depth) else some left
  right' ← if ltb l.depth r.depth then lift index right (r.depth - l.depth) else some right
  meet index left' right'

module _ (identity : ℕ → Text) where
  -- `is_less` of two nodes neither of which is above the other.
  unfoldable pub is_less_apart : List LexNode → ℕ → ℕ → ℕ → Option Bool
  is_less_apart index common left right = do
    c ← entry index common
    l ← entry index left
    r ← entry index right
    left_child ← lift index left (l.depth - c.depth - 1)
    right_child ← lift index right (r.depth - c.depth - 1)
    let left_identity = identity (left_child - 1)
    let right_identity = identity (right_child - 1)
    if text_eq left_identity right_identity
        then none
        else some (text_ltb left_identity right_identity)

  -- `is_less`, with the source identity of the span at each index.
  unfoldable pub is_less : List LexNode → ℕ → ℕ → Option Bool
  is_less index left right =
      if left == right
      then some false
      else lowest_common_ancestor index left right >>= λ common.
          if common == left
          then some true
          else if common == right
          then some false
          else is_less_apart index common left right

-- The `while` loop of `append`, with fuel: the jumps so far, the shortest one first.
unfoldable pub extend_jumps : ℕ → List LexNode → ℕ → List ℕ → Option (List ℕ)
unfolding jump
extend_jumps zero index depth jumps = none
extend_jumps (suc fuel) index depth jumps = elim (leb (shifted_one (length jumps)) depth) [
  | false ↦ some jumps
  | true ↦ do
    halfway ← get_elem? jumps (length jumps - 1)
    next ← jump index halfway (length jumps - 1)
    extend_jumps fuel index depth (jumps ++ next ∷ [])
]

abbrev pub root : LexNode
root = record { depth = 0; jumps = 0 ∷ [] }

abbrev pub is_some_of : Option ℕ → ℕ → Bool
is_some_of none n = false
is_some_of (some m) n = m == n

-- A predecessor that is not among the finished states is refused.
abbrev pub parent_node : Option ℕ → ℕ → Option ℕ
parent_node none current = some 0
parent_node (some i) current = if leb current i then none else some (suc i)

module _ {F : Fractions} where
  unfoldable pub append : List LexNode → PathState F → ℕ → Option (List LexNode)
  unfolding extend_jumps entry
  append index state current = do
    guard (length index == suc current && is_some_of state.terminal_index current) >>= λ _.
        parent_node state.predecessor_index current >>= λ parent. entry index parent >>= λ p.
        guard (state.span_count == p.depth + 1) >>= λ _.
        extend_jumps (suc (p.depth + 1)) index (p.depth + 1) (parent ∷ []) >>= λ jumps.
        some (record { depth = p.depth + 1; jumps = jumps } ∷ index)

  -- The index after the states have been appended one after another.
  unfoldable pub index_of : List (PathState F) → Option (List LexNode)
  unfolding append
  index_of [] = some (root ∷ [])
  index_of (s ∷ older) = do index ← index_of older; append index s (length older)
