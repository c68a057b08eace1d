-- ===== src/Robots/Service.antt =====
-- app/services/robots.py: the cache and the shared fetches of `RobotsPolicyService`. The product token is
-- the same in every key of a service, so that a key is its origin; a `_Flight` and its task are a number
-- that is not used again.
use clusy_crawler.Base.{
  ℕ, ◌+◌, ◌-◌, ◌*◌, Bool, true, false, not, ◌&&◌, Option, none, some, List, [], ◌∷◌, ◌++◌, Text,
  length, ltb, ◌==◌, if◌then◌else◌,
}
use clusy_crawler.Base.Dict.{get, put, remove}
use clusy_crawler.Frontier.Types.{text_key}
use clusy_crawler.Robots.Policy.{Policy, FetchedPolicy}

pub record CacheEntry : Type 0 where
  pub policy : Policy
  pub expires_at : ℕ

pub record Flight : Type 0 where
  pub task : ℕ
  pub waiters : ℕ

pub record Service : Type 0 where
  pub cache : List (Text × CacheEntry)
  pub flights : List (Text × Flight)
  pub closed : Bool
  pub next_task : ℕ

abbrev pub new_service : Service
new_service = record { cache = []; flights = []; closed = false; next_task = 0 }

-- What `check` goes on with after the lock: a refusal, a cached policy, or the task it waits for.
pub data Entrance : Type 0 where
  refused : Entrance
  hit : Policy → Entrance
  waits : ℕ → Entrance

unfoldable pub move_to_end : Text → CacheEntry → List (Text × CacheEntry) → List (Text × CacheEntry)
unfolding remove
move_to_end key e cache = remove key cache ++ (key, e) ∷ []

abbrev pub flight_of : ℕ → Option Flight → Flight
flight_of next_task none = record { task = next_task; waiters = 0 }
flight_of next_task (some flight) = flight

-- The waiter joins the flight of its key, or starts one.
unfoldable pub join_flight : Text → Service → Entrance × Service
unfolding get put
join_flight key s =
    let flight = flight_of s.next_task (get key s.flights) in
    (
      waits flight.task,
      record s {
        flights = put key (record flight { waiters = flight.waiters + 1 }) s.flights;
        next_task = elim (get key s.flights) [ none ↦ s.next_task + 1 | some _ ↦ s.next_task ];
      },
    )

abbrev pub look_up : ℕ → Text → Service → Option CacheEntry → Entrance × Service
look_up now key s none = join_flight key s
look_up now key s (some cached) =
    if ltb now cached.expires_at
    then (hit cached.policy, record s { cache = move_to_end key cached s.cache })
    else join_flight key (record s { cache = remove key s.cache })

-- `check` under the lock.
unfoldable pub enter : ℕ → Text → Service → Entrance × Service
unfolding get remove move_to_end join_flight
enter now key s = if s.closed then (refused, s) else look_up now key s (get key s.cache)

-- `while len(self._cache) > cache_max_entries: self._cache.popitem(last=False)`
unfoldable pub trim : ℕ → List (Text × CacheEntry) → List (Text × CacheEntry)
trim max_entries [] = []
trim max_entries (item ∷ cache) =
    let rest = trim max_entries cache in
    if ltb max_entries (length (item ∷ cache)) then rest else item ∷ cache

abbrev pub entry_of : ℕ → FetchedPolicy → CacheEntry
entry_of now fetched = record {
  policy = fetched.policy;
  expires_at = now + fetched.ttl_s * 1000000;
}

unfoldable pub store : ℕ → ℕ → Text → Option FetchedPolicy → Service → Service
unfolding put move_to_end trim
store max_entries now key none s = s
store max_entries now key (some fetched) s = if s.closed then s else record s {
  cache =
      trim max_entries
        (move_to_end key (entry_of now fetched) (put key (entry_of now fetched) s.cache));
}

abbrev pub end_flight : Text → ℕ → Service → Option Flight → Service
end_flight key task s none = s
end_flight key task s (some flight) =
    if flight.task == task then record s { flights = remove key s.flights } else s

-- `_fetch_and_cache` from the end of the fetch on; `none` is a cancellation.
unfoldable pub finish_fetch : ℕ → ℕ → Text → ℕ → Option FetchedPolicy → Service → Service
unfolding get remove store
finish_fetch max_entries now key task fetched s =
    let stored = store max_entries now key fetched s in
    end_flight key task stored (get key stored.flights)

abbrev pub released : Text → ℕ → Bool → Service → Option Flight → Bool × Service
released key task is_done s none = (false, s)
released key task is_done s (some flight) =
    if flight.task == task
    then (
      (flight.waiters - 1 == 0) && not is_done,
      record s { flights = put key (record flight { waiters = flight.waiters - 1 }) s.flights },
    )
    else (false, s)

-- `_release_waiter`, with whether it cancels the task.
unfoldable pub release_waiter : Text → ℕ → Bool → Service → Bool × Service
unfolding get put
release_waiter key task is_done s = released key task is_done s (get key s.flights)

-- `close` before and after its wait for the tasks, which it cancels: each ends as a cancelled fetch does.
abbrev pub begin_close : Service → Service
begin_close s = record s { cache = []; closed = true }

abbrev pub end_close : Service → Service
end_close s = record s { flights = [] }

pub data Call : Type 0 where
  enters : ℕ → Text → Call
  finishes : ℕ → Text → ℕ → Option FetchedPolicy → Call
  releases : Text → ℕ → Bool → Call
  begins_close ends_close : Call

unfoldable pub step : ℕ → Call → Service → Service
unfolding enter finish_fetch release_waiter
step max_entries (enters now key) s = (enter now key s).1
step max_entries (finishes now key task fetched) s = finish_fetch max_entries now key task fetched s
step max_entries (releases key task is_done) s = (release_waiter key task is_done s).1
step max_entries begins_close s = begin_close s
step max_entries ends_close s = end_close s

unfoldable pub run : ℕ → List Call → Service → Service
unfolding step
run max_entries [] s = s
run max_entries (c ∷ cs) s = run max_entries cs (step max_entries c s)
