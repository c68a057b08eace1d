-- ===== src/Frontier/Wake.antt =====
-- app/services/frontier.py: `next_wake_at`, `record`, `records`, `metrics`.
use clusy_crawler.Base.{
  ℕ, ◌+◌, Bool, true, false, not, Option, none, some, List, [], ◌∷◌, Text, ltb, if◌then◌else◌, min,
  max, Float, non_negative,
}
use mathlib.Core.Option
use clusy_crawler.Base.Dict.{get}
use clusy_crawler.Url.Split.{Platform}
use clusy_crawler.Url.Canonical.{canonicalize_url, Checked, accept, refuse}
use clusy_crawler.Frontier.Types.{
  text_key, Entry, HostState, Frontier, FrontierRecord, FrontierState, queued, retry_wait,
  in_flight, terminal, snapshot, RejectionReason, duplicate, TerminalReason, WaitingHeapItem,
  Outcome, returned, raised, value_error, key_error,
}
use clusy_crawler.Frontier.Queue.{fresh}
use clusy_crawler.Frontier.Missing.{refresh_missing, waiting_missing, with_host}
use clusy_crawler.Frontier.Claim.{refreshed}

-- The inner `while`: the time of the first item that is not stale, and the heap from that item on.
unfoldable pub next_waiting :
    List (Text × Entry) → List WaitingHeapItem → Option ℕ × List WaitingHeapItem
unfolding fresh
next_waiting m [] = (none, [])
next_waiting m (i ∷ waiting) =
    let rest = next_waiting m waiting in
    elim (fresh m i.url i.generation) [ some e ↦ (some i.ready_at, i ∷ waiting) | none ↦ rest ]

abbrev wake_of : ℕ → Option Entry → Option ℕ → HostState → Option ℕ
wake_of now (some e) waiting s = some (max now s.next_allowed_at)
wake_of now none none s = none
wake_of now none (some ready_at) s = some (max ready_at s.next_allowed_at)

abbrev pub waiting_left :
    Option Entry → List WaitingHeapItem → List WaitingHeapItem → List WaitingHeapItem
waiting_left (some e) before after = before
waiting_left none before after = after

-- One round of the loop over the hosts.
unfoldable pub wake_host : List (Text × Entry) → ℕ → HostState → Option ℕ × HostState
unfolding refreshed next_waiting
wake_host m now s =
    let (top, s') = refreshed m now s in
    let (ready_at, waiting) = next_waiting m s'.waiting in
    (wake_of now top ready_at s', record s' { waiting = waiting_left top s'.waiting waiting })

-- `min(wake_times)`
abbrev earlier : Option ℕ → Option ℕ → Option ℕ
earlier none t = t
earlier (some n) none = some n
earlier (some n) (some k) = some (min n k)

unfoldable pub wake_hosts :
    List (Text × Entry) → ℕ → List (Text × HostState) → Option ℕ × List (Text × HostState)
unfolding wake_host
wake_hosts m now [] = (none, [])
wake_hosts m now ((host, s) ∷ hs) =
    let (first, s') = wake_host m now s in
    let (rest, hs') = wake_hosts m now hs in (earlier first rest, (host, s') ∷ hs')

-- Where a round raises `KeyError`, and where the loop does: the hosts that it leaves.
unfoldable pub wake_host_missing : List (Text × Entry) → ℕ → HostState → Option HostState
unfolding refreshed refresh_missing waiting_missing
wake_host_missing m now s =
    let (top, s') = refreshed m now s in
    elim (refresh_missing m now s) [
      | some s'' ↦ some s''
      | none ↦ elim top [
        | some e ↦ none
        | none ↦ elim (waiting_missing m s'.waiting) [
          | some waiting ↦ some (record s' { waiting = waiting })
          | none ↦ none
        ]
      ]
    ]

unfoldable pub wake_hosts_missing :
    List (Text × Entry) → ℕ → List (Text × HostState) → Option (List (Text × HostState))
unfolding wake_host wake_host_missing
wake_hosts_missing m now [] = none
wake_hosts_missing m now ((host, s) ∷ hs) =
    let rest = wake_hosts_missing m now hs in
    elim (wake_host_missing m now s) [
      | some s' ↦ some ((host, s') ∷ hs)
      | none ↦ with_host host (wake_host m now s).1 rest
    ]

abbrev woken : Option ℕ × List (Text × HostState) → Frontier → Outcome (Option ℕ) × Frontier
woken (wake, hosts) f = (returned wake, record f { hosts = hosts })

unfoldable pub next_wake_at : Float → Frontier → Outcome (Option ℕ) × Frontier
unfolding wake_hosts wake_hosts_missing
next_wake_at now f = elim (non_negative now) [
  | none ↦ (raised value_error, f)
  | some t ↦ elim (wake_hosts_missing f.entries t f.hosts) [
    | some hosts ↦ (raised key_error, record f { hosts = hosts })
    | none ↦ woken (wake_hosts f.entries t f.hosts) f
  ]
]

abbrev checked_record : Checked Text → Frontier → Option FrontierRecord
checked_record (refuse e) f = none
checked_record (accept canonical) f = Option.map snapshot (get canonical f.entries)

unfoldable pub record_of : Platform → Text → Frontier → Option FrontierRecord
unfolding canonicalize_url snapshot
record_of p url f = checked_record (canonicalize_url p f.config.max_url_length url) f

-- `sorted(..., key=order)`: stable.
unfoldable pub insert_by_order : FrontierRecord → List FrontierRecord → List FrontierRecord
insert_by_order r [] = r ∷ []
insert_by_order r (q ∷ rs) = if ltb q.order r.order then q ∷ insert_by_order r rs else r ∷ q ∷ rs

unfoldable pub records_of : List (Text × Entry) → List FrontierRecord
unfolding insert_by_order snapshot
records_of [] = []
records_of ((k, e) ∷ m) = insert_by_order (snapshot e) (records_of m)

unfoldable pub records : Frontier → List FrontierRecord
unfolding records_of
records f = records_of f.entries

pub record FrontierMetrics : Type 0 where
  pub admission_attempts : ℕ
  pub admitted : ℕ
  pub rejected : ℕ
  pub duplicates : ℕ
  pub claimed : ℕ
  pub retries_scheduled : ℕ
  pub pending : ℕ
  pub in_flight : ℕ
  pub terminal : ℕ
  pub rejection_reasons : List RejectionReason
  pub terminal_reasons : List TerminalReason

abbrev pub one_if : Bool → ℕ
one_if true = 1
one_if false = 0

abbrev pub is_in_state : FrontierState → FrontierState → Bool
is_in_state queued queued = true
is_in_state retry_wait retry_wait = true
is_in_state in_flight in_flight = true
is_in_state terminal terminal = true
is_in_state _ _ = false

-- `states[state]`
unfoldable pub count_state : FrontierState → List (Text × Entry) → ℕ
count_state state [] = 0
count_state state ((k, e) ∷ m) = one_if (is_in_state state e.state) + count_state state m

abbrev is_duplicate : RejectionReason → Bool
is_duplicate duplicate = true
is_duplicate _ = false

unfoldable pub count_rejected : List RejectionReason → ℕ
count_rejected [] = 0
count_rejected (r ∷ rs) = one_if (not (is_duplicate r)) + count_rejected rs

unfoldable pub metrics : Frontier → FrontierMetrics
unfolding count_state count_rejected
metrics f = record {
  admission_attempts = f.admission_attempts;
  admitted = f.admitted;
  rejected = count_rejected f.rejection_reasons;
  duplicates = f.duplicates;
  claimed = f.claimed;
  retries_scheduled = f.retries_scheduled;
  pending = count_state queued f.entries + count_state retry_wait f.entries;
  in_flight = count_state in_flight f.entries;
  terminal = count_state terminal f.entries;
  rejection_reasons = f.rejection_reasons;
  terminal_reasons = f.terminal_reasons;
}
