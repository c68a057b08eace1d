-- ===== src/Frontier/Claim.antt =====
-- app/services/frontier.py: `claim`. Every path through its `while True` returns in the first round.
use clusy_crawler.Base.{
  ℕ, ◌+◌, Bool, true, false, ◌&&◌, ◌||◌, Option, none, some, List, [], ◌∷◌, Text, text_eq, text_ltb,
  ltb, leb, if◌then◌else◌, max, ℤ, pos, ltb_ℤ, Float, non_negative,
}
use clusy_crawler.Base.Dict.{get, put}
use clusy_crawler.Frontier.Types.{
  text_key, Entry, HostState, Frontier, FrontierLease, in_flight, global_fetch_limit,
  host_fetch_limit, global_fetch_budget, host_fetch_budget, ReadyHeapItem, Outcome, returned,
  raised, value_error, key_error, index_error, assertion_error,
}
use clusy_crawler.Frontier.Queue.{promote_ready, peek_ready, terminate_pending}
use clusy_crawler.Frontier.Missing.{refresh_missing, with_host}

-- One tuple of `candidates`; the priority stands for its negation.
pub record Candidate : Type 0 where
  pub last_served_turn : ℤ
  pub priority : ℤ
  pub host : Text
  pub order : ℕ
  pub entry : Entry

abbrev same_ℤ : ℤ → ℤ → Bool
same_ℤ a b = if ltb_ℤ a b then false else if ltb_ℤ b a then false else true

-- The tuples' order. Hosts differ, so that the entries are never compared.
unfoldable pub candidate_before : Candidate → Candidate → Bool
unfolding text_eq text_ltb
candidate_before a b =
    ltb_ℤ a.last_served_turn b.last_served_turn
    || (same_ℤ a.last_served_turn b.last_served_turn
        && (ltb_ℤ b.priority a.priority
            || (same_ℤ a.priority b.priority
                && (text_ltb a.host b.host || (text_eq a.host b.host && ltb a.order b.order)))))

-- `min(candidates)`: the first of the least.
unfoldable pub least : Candidate → List Candidate → Candidate
unfolding candidate_before
least c [] = c
least c (d ∷ ds) = least (if candidate_before d c then d else c) ds

pub record Scan : Type 0 where
  pub hosts : List (Text × HostState)
  pub candidates : List Candidate
  pub exhausted_hosts : List Text

-- `entry is None or state.next_allowed_at > now`
abbrev pub offered : ℕ → Text → HostState → Option Entry → List Candidate → List Candidate
offered now host s none candidates = candidates
offered now host s (some e) candidates =
    if ltb now s.next_allowed_at
    then candidates
    else (record {
      last_served_turn = s.last_served_turn;
      priority = e.priority;
      host = host;
      order = e.order;
      entry = e;
    })
      ∷ candidates

-- A host with its two heaps brought up to `now`, and the entry at its top.
unfoldable pub refreshed : List (Text × Entry) → ℕ → HostState → Option Entry × HostState
unfolding promote_ready peek_ready
refreshed m now s =
    let (waiting, promoted) = promote_ready m now s.waiting s.ready in
    let (top, ready) = peek_ready m promoted in (top, record s { waiting = waiting; ready = ready })

-- The loop over `self._hosts`.
unfoldable pub scan : List (Text × Entry) → ℕ → ℕ → List (Text × HostState) → Scan
unfolding refreshed
scan m now limit [] = record { hosts = []; candidates = []; exhausted_hosts = [] }
scan m now limit ((host, s) ∷ hs) =
    let rest = scan m now limit hs in
    let (top, s') = refreshed m now s in
    if leb limit s.fetches
    then record {
      hosts = (host, s) ∷ rest.hosts;
      candidates = rest.candidates;
      exhausted_hosts = host ∷ rest.exhausted_hosts;
    }
    else record {
      hosts = (host, s') ∷ rest.hosts;
      candidates = offered now host s top rest.candidates;
      exhausted_hosts = rest.exhausted_hosts;
    }

-- Where the loop over `self._hosts` raises `KeyError`: the hosts that it leaves.
unfoldable pub scan_missing :
    List (Text × Entry) → ℕ → ℕ → List (Text × HostState) → Option (List (Text × HostState))
unfolding refreshed refresh_missing
scan_missing m now limit [] = none
scan_missing m now limit ((host, s) ∷ hs) =
    let rest = scan_missing m now limit hs in
    if leb limit s.fetches then with_host host s rest else elim (refresh_missing m now s) [
      | some s' ↦ some ((host, s') ∷ hs)
      | none ↦ with_host host (refreshed m now s).1 rest
    ]

-- The loop over `exhausted_hosts`.
unfoldable pub close_hosts : List Text → Frontier → Frontier
unfolding terminate_pending
close_hosts [] f = f
close_hosts (host ∷ hs) f = close_hosts hs (terminate_pending (some host) host_fetch_budget f)

-- What `claim` writes to the entry, and to its host once `_pop_ready` has left `ready`.
unfoldable pub claimed : Entry → Entry
claimed e = record e { state = in_flight; attempts = e.attempts + 1 }

unfoldable pub served : ℕ → ℕ → ℕ → List ReadyHeapItem → HostState → HostState
served turn delay now ready s = record s {
  ready = ready;
  fetches = s.fetches + 1;
  last_served_turn = pos turn;
  next_allowed_at = max s.next_allowed_at (now + delay);
}

unfoldable pub lease_of : Entry → FrontierLease
lease_of e = record {
  url = e.url;
  host = e.host;
  depth = e.depth;
  priority = e.priority;
  attempt = e.attempts;
  parent_url = e.parent_url;
}

unfoldable pub grant :
    ℕ → Text → Text → Entry → HostState → List ReadyHeapItem → Frontier → Frontier
unfolding claimed served
grant now host url e s ready f = record f {
  entries = put url (claimed e) f.entries;
  hosts = put host (served f.turn f.config.host_delay_s now ready s) f.hosts;
  claimed = f.claimed + 1;
  turn = f.turn + 1;
}

-- `_pop_ready`: it takes the top off, and raises if that is not the entry.
unfoldable pub pop_and_grant :
    ℕ
    → Text
    → Text
    → Entry
    → HostState
    → List ReadyHeapItem
    → Frontier
    → Outcome (Option FrontierLease) × Frontier
unfolding grant lease_of text_eq
pop_and_grant now host url e s [] f = (raised index_error, f)
pop_and_grant now host url e s (i ∷ ready) f =
    if text_eq i.url e.url
    then (returned (some (lease_of (claimed e))), grant now host url e s ready f)
    else (
      raised assertion_error,
      record f { hosts = put host (record s { ready = ready }) f.hosts },
    )

-- The selected entry is the object that `_entries` holds, as the loop over exhausted hosts left it.
unfoldable pub serve : ℕ → Candidate → Frontier → Outcome (Option FrontierLease) × Frontier
unfolding pop_and_grant
serve now c f = elim (get c.host f.hosts) [
  | none ↦ (raised key_error, f)
  | some s ↦ elim (get c.entry.url f.entries) [
    | none ↦ (raised key_error, f)
    | some e ↦ pop_and_grant now c.host c.entry.url e s s.ready f
  ]
]

abbrev pub choose : ℕ → List Candidate → Frontier → Outcome (Option FrontierLease) × Frontier
choose now [] f = (returned none, f)
choose now (c ∷ cs) f = serve now (least c cs) f

-- The state after the loop over the hosts.
abbrev pub scanned : ℕ → Frontier → Frontier
scanned now f = record f { hosts = (scan f.entries now (host_fetch_limit f.config) f.hosts).hosts }

abbrev pub closing : ℕ → Frontier → List Text
closing now f = (scan f.entries now (host_fetch_limit f.config) f.hosts).exhausted_hosts

-- The state after both loops, before a candidate is selected.
unfoldable pub surveyed : ℕ → Frontier → Frontier
unfolding scan close_hosts
surveyed now f = close_hosts (closing now f) (scanned now f)

unfoldable pub claim_at : ℕ → Frontier → Outcome (Option FrontierLease) × Frontier
unfolding scan scan_missing surveyed serve least host_fetch_limit global_fetch_limit
    terminate_pending
claim_at now f =
    if leb (global_fetch_limit f.config) f.claimed
    then (returned none, terminate_pending none global_fetch_budget f)
    else elim (scan_missing f.entries now (host_fetch_limit f.config) f.hosts) [
      | some hosts ↦ (raised key_error, record f { hosts = hosts })
      | none ↦
          choose now (scan f.entries now (host_fetch_limit f.config) f.hosts).candidates
            (surveyed now f)
    ]

unfoldable pub claim : Float → Frontier → Outcome (Option FrontierLease) × Frontier
unfolding claim_at
claim now f = elim (non_negative now) [ none ↦ (raised value_error, f) | some t ↦ claim_at t f ]
