-- ===== src/Frontier/Missing.antt =====
-- app/services/frontier.py: where `_promote_ready`, `_peek_ready` and `next_wake_at` raise `KeyError`, since
-- `_entries` lacks the URL of a heap item, and the heaps that they leave then.
use clusy_crawler.Base.{ℕ, Option, none, some, List, [], ◌∷◌, Text, leb, if◌then◌else◌}
use clusy_crawler.Base.Dict.{get}
use clusy_crawler.Frontier.Types.{text_key, Entry, HostState, WaitingHeapItem, ReadyHeapItem}
use clusy_crawler.Frontier.Queue.{fresh, promoted, promote_ready}

-- `_promote_ready`: the item is popped before its entry is looked up.
unfoldable pub promote_missing :
    List (Text × Entry)
    → ℕ
    → List WaitingHeapItem
    → List ReadyHeapItem
    → Option (List WaitingHeapItem × List ReadyHeapItem)
unfolding fresh get
promote_missing m now [] ready = none
promote_missing m now (i ∷ waiting) ready =
    let rest =
      promote_missing m now waiting (promoted (fresh m i.url i.generation) i.generation ready) in
    if leb i.ready_at now
    then elim (get i.url m) [ none ↦ some (waiting, ready) | some e ↦ rest ]
    else none

-- `_peek_ready`: the item is still at the top.
unfoldable pub peek_missing : List (Text × Entry) → List ReadyHeapItem → Option (List ReadyHeapItem)
unfolding fresh get
peek_missing m [] = none
peek_missing m (i ∷ ready) =
    let rest = peek_missing m ready in
    elim (get i.url m) [
      | none ↦ some (i ∷ ready)
      | some e ↦ elim (fresh m i.url i.generation) [ some x ↦ none | none ↦ rest ]
    ]

-- One after the other, on one host.
unfoldable pub refresh_missing : List (Text × Entry) → ℕ → HostState → Option HostState
unfolding promote_missing peek_missing promote_ready
refresh_missing m now s =
    let (waiting, promoted_ready) = promote_ready m now s.waiting s.ready in
    elim (promote_missing m now s.waiting s.ready) [
      | some left ↦ some (record s { waiting = left.0; ready = left.1 })
      | none ↦ elim (peek_missing m promoted_ready) [
        | some ready ↦ some (record s { waiting = waiting; ready = ready })
        | none ↦ none
      ]
    ]

-- The inner `while` of `next_wake_at`.
unfoldable pub waiting_missing :
    List (Text × Entry) → List WaitingHeapItem → Option (List WaitingHeapItem)
unfolding fresh get
waiting_missing m [] = none
waiting_missing m (i ∷ waiting) =
    let rest = waiting_missing m waiting in
    elim (get i.url m) [
      | none ↦ some (i ∷ waiting)
      | some e ↦ elim (fresh m i.url i.generation) [ some x ↦ none | none ↦ rest ]
    ]

-- The hosts behind one that the loop has left in a state.
abbrev pub with_host :
    Text → HostState → Option (List (Text × HostState)) → Option (List (Text × HostState))
with_host host s none = none
with_host host s (some hs) = some ((host, s) ∷ hs)
