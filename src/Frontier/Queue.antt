-- ===== src/Frontier/Queue.antt =====
-- app/services/frontier.py: `_enqueue`, `_promote_ready`, `_peek_ready`, `_pop_ready`,
-- `_terminate` and `_terminate_pending`.
use clusy_crawler.Base.{
  ℕ, zero, suc, ◌+◌, Bool, ◌&&◌, Option, none, some, List, [], ◌∷◌, Text, text_eq, leb, ◌==◌,
  if◌then◌else◌,
}
use clusy_crawler.Base.Dict.{get, put}
use clusy_crawler.Frontier.Types.{
  text_key, Entry, HostState, new_host, Frontier, FrontierState, queued, retry_wait, terminal,
  is_pending, TerminalReason, WaitingHeapItem, ReadyHeapItem,
}
use clusy_crawler.Frontier.Heap.{push_waiting, push_ready}

-- `entry.attempts` as a condition
abbrev pub state_after_enqueue : ℕ → FrontierState
state_after_enqueue zero = queued
state_after_enqueue (suc n) = retry_wait

-- What `_enqueue` writes to the entry.
unfoldable pub enqueued : Entry → ℕ → Entry
enqueued e ready_at = record e {
  generation = e.generation + 1;
  ready_at = ready_at;
  state = state_after_enqueue e.attempts;
}

abbrev pub or_new_host : Option HostState → HostState
or_new_host none = new_host
or_new_host (some s) = s

-- `_enqueue` of the object that `_entries` holds under `url`.
unfoldable pub enqueue : Text → Entry → ℕ → Frontier → Frontier
unfolding enqueued push_waiting
enqueue url e ready_at f =
    let s = or_new_host (get e.host f.hosts) in
    let item : WaitingHeapItem = record {
      ready_at = ready_at;
      order = e.order;
      generation = e.generation + 1;
      url = e.url;
    } in
    record f {
      entries = put url (enqueued e ready_at) f.entries;
      hosts = put e.host (record s { waiting = push_waiting item s.waiting }) f.hosts;
    }

-- The entry of a heap item, unless the item is stale. Where `_entries` lacks its URL the source raises:
-- Missing says so, and what reads a heap asks it first.
unfoldable pub fresh : List (Text × Entry) → Text → ℕ → Option Entry
fresh m url generation = elim (get url m) [
  | none ↦ none
  | some e ↦ if (e.generation == generation) && is_pending e.state then some e else none
]

abbrev pub promoted : Option Entry → ℕ → List ReadyHeapItem → List ReadyHeapItem
promoted none generation ready = ready
promoted (some e) generation ready =
    push_ready
      (record { priority = e.priority; order = e.order; generation = generation; url = e.url })
      ready

-- `_promote_ready`: the two heaps that it leaves.
unfoldable pub promote_ready :
    List (Text × Entry)
    → ℕ
    → List WaitingHeapItem
    → List ReadyHeapItem
    → List WaitingHeapItem × List ReadyHeapItem
unfolding fresh push_ready
promote_ready m now [] ready = ([], ready)
promote_ready m now (i ∷ waiting) ready =
    let rest =
      promote_ready m now waiting (promoted (fresh m i.url i.generation) i.generation ready) in
    if leb i.ready_at now then rest else (i ∷ waiting, ready)

-- `_peek_ready`: the entry at the top, and the heap without the stale items above it.
unfoldable pub peek_ready :
    List (Text × Entry) → List ReadyHeapItem → Option Entry × List ReadyHeapItem
unfolding fresh
peek_ready m [] = (none, [])
peek_ready m (i ∷ ready) =
    let rest = peek_ready m ready in
    elim (fresh m i.url i.generation) [ some e ↦ (some e, i ∷ ready) | none ↦ rest ]

-- What `_terminate` writes to the entry.
unfoldable pub terminated : TerminalReason → Entry → Entry
terminated reason e = record e {
  state = terminal;
  terminal_reason = some reason;
  generation = e.generation + 1;
}

-- `_terminate` of the object that `_entries` holds under `url`.
unfoldable pub terminate : Text → Entry → TerminalReason → Frontier → Frontier
unfolding terminated
terminate url e reason f = record f {
  entries = put url (terminated reason e) f.entries;
  terminal_reasons = reason ∷ f.terminal_reasons;
}

-- `(host is None or entry.host == host) and entry.state in {QUEUED, RETRY_WAIT}`
abbrev pub is_swept : Option Text → Entry → Bool
is_swept none e = is_pending e.state
is_swept (some host) e = text_eq e.host host && is_pending e.state

-- The loop of `_terminate_pending`: the entries and the counter that it leaves.
unfoldable pub sweep :
    Option Text
    → TerminalReason
    → List (Text × Entry)
    → List TerminalReason
    → List (Text × Entry) × List TerminalReason
unfolding terminated text_eq
sweep host reason [] counter = ([], counter)
sweep host reason ((k, e) ∷ m) counter =
    let (m', counter') =
      sweep host reason m (if is_swept host e then reason ∷ counter else counter) in
    ((k, if is_swept host e then terminated reason e else e) ∷ m', counter')

unfoldable pub terminate_pending : Option Text → TerminalReason → Frontier → Frontier
unfolding sweep
terminate_pending host reason f =
    let (entries, counter) = sweep host reason f.entries f.terminal_reasons in
    record f { entries = entries; terminal_reasons = counter }
