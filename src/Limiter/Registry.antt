-- ===== src/Limiter/Registry.antt =====
-- app/services/rate_limiter.py: `DomainRateLimiter`. An `AsyncLimiter` is its identity, a number that is
-- not used again; the domain is what `_extract_domain` answers.
use clusy_crawler.Base.{
  ℕ, zero, suc, ◌+◌, ◌-◌, ◌*◌, max, Bool, true, false, ◌&&◌, Option, none, some, List, [], ◌∷◌,
  ◌++◌, Text, leb, ltb, ◌==◌, if◌then◌else◌, length,
}
use clusy_crawler.Base.Dict.{get, put, remove}
use clusy_crawler.Frontier.Types.{text_key}

-- `rate_limit_max_domains`, `rate_limit_burst`, and `rate_limit_requests_per_second` in thousandths.
pub record Settings : Type 0 where
  pub max_domains : ℕ
  pub burst : ℕ
  pub requests_per_1000_s : ℕ

pub record Registry : Type 0 where
  pub limiters : List (Text × ℕ)
  pub last_used : List (Text × ℕ)
  pub in_use : List (Text × ℕ)
  pub overflow_limiter : Option ℕ
  pub next_limiter : ℕ

abbrev pub or_default : ℕ → Option ℕ → ℕ
or_default n none = n
or_default n (some m) = m

-- `now - last >= refill_period` in microseconds, with the period's denominator on the left.
abbrev pub is_refilled : Settings → ℕ → ℕ → Bool
is_refilled settings now last =
    leb (max settings.burst 1 * 1000000000) ((now - last) * max settings.requests_per_1000_s 1)

unfoldable pub is_evictable : Settings → ℕ → Registry → Text → Bool
unfolding get
is_evictable settings now r candidate =
    (or_default 0 (get candidate r.in_use) == 0)
    && is_refilled settings now (or_default now (get candidate r.last_used))

-- The first candidate in the order of the dictionary.
unfoldable pub first_evictable : Settings → ℕ → Registry → List (Text × ℕ) → Option Text
unfolding is_evictable
first_evictable settings now r [] = none
first_evictable settings now r ((candidate, limiter) ∷ ls) =
    let rest = first_evictable settings now r ls in
    if is_evictable settings now r candidate then some candidate else rest

abbrev pub discard : Text → Registry → Registry
discard domain r = record r {
  limiters = remove domain r.limiters;
  last_used = remove domain r.last_used;
}

abbrev pub after_search : Registry → (Registry → Registry) → Option Text → Registry
after_search r next none = r
after_search r next (some domain) = next (discard domain r)

-- The loop of `_evict_to_limit`; `clock` is the time that each round reads. Each round that goes on takes
-- one limiter away.
unfoldable pub evict_rounds : Settings → (ℕ → ℕ) → ℕ → ℕ → Registry → Registry
unfolding first_evictable remove
evict_rounds settings clock zero max_entries r = r
evict_rounds settings clock (suc fuel) max_entries r =
    let next = evict_rounds settings clock fuel max_entries in
    if ltb max_entries (length r.limiters)
    then after_search r next (first_evictable settings (clock fuel) r r.limiters)
    else r

unfoldable pub evict_to_limit : Settings → (ℕ → ℕ) → ℕ → Registry → Registry
unfolding evict_rounds
evict_to_limit settings clock max_entries r =
    evict_rounds settings clock (length r.limiters) max_entries r

-- `move_to_end`
unfoldable pub move_to_end : Text → ℕ → List (Text × ℕ) → List (Text × ℕ)
unfolding remove
move_to_end domain limiter ls = remove domain ls ++ (domain, limiter) ∷ []

-- What `acquire` holds while it waits: its limiter, and whether it is the domain's own.
pub record Ticket : Type 0 where
  pub limiter : ℕ
  pub dedicated : Bool

-- The marks of a caller that uses the domain's own limiter.
unfoldable pub mark_used : ℕ → Text → Registry → Registry
unfolding get put
mark_used now domain r = record r {
  last_used = put domain now r.last_used;
  in_use = put domain (or_default 0 (get domain r.in_use) + 1) r.in_use;
}

unfoldable pub create_limiter : Text → Registry → Ticket × Registry
unfolding put
create_limiter domain r = (
  record { limiter = r.next_limiter; dedicated = true },
  record r { limiters = put domain r.next_limiter r.limiters; next_limiter = r.next_limiter + 1 },
)

unfoldable pub get_overflow_limiter : Registry → Ticket × Registry
get_overflow_limiter r = elim r.overflow_limiter [
  | some limiter ↦ (record { limiter = limiter; dedicated = false }, r)
  | none ↦ (
    record { limiter = r.next_limiter; dedicated = false },
    record r { overflow_limiter = some r.next_limiter; next_limiter = r.next_limiter + 1 },
  )
]

abbrev pub marked : ℕ → Text → Ticket × Registry → Ticket × Registry
marked now domain (ticket, r) = (ticket, if ticket.dedicated then mark_used now domain r else r)

abbrev pub choose_new : Settings → Text → Registry → Ticket × Registry
choose_new settings domain r =
    if ltb (length r.limiters) settings.max_domains
    then create_limiter domain r
    else get_overflow_limiter r

abbrev pub choose : Settings → (ℕ → ℕ) → Text → Registry → Option ℕ → Ticket × Registry
choose settings clock domain r (some limiter) = (
  record { limiter = limiter; dedicated = true },
  record r { limiters = move_to_end domain limiter r.limiters },
)
choose settings clock domain r none =
    choose_new settings domain (evict_to_limit settings clock (settings.max_domains - 1) r)

-- `acquire` up to the wait, under the lock.
unfoldable pub begin_acquire : Settings → (ℕ → ℕ) → ℕ → Text → Registry → Ticket × Registry
unfolding get evict_to_limit create_limiter get_overflow_limiter move_to_end mark_used
begin_acquire settings clock now domain r =
    marked now domain (choose settings clock domain r (get domain r.limiters))

abbrev pub released : Text → ℕ → List (Text × ℕ) → List (Text × ℕ)
released domain zero in_use = remove domain in_use
released domain (suc remaining) in_use = put domain (suc remaining) in_use

-- The `finally` block of a caller with the domain's own limiter; `acquired` says that the wait ended well.
unfoldable pub end_acquire : Settings → (ℕ → ℕ) → ℕ → Text → Bool → Registry → Registry
unfolding get put remove evict_to_limit
end_acquire settings clock now domain acquired r =
    evict_to_limit settings clock settings.max_domains (record r {
      last_used = if acquired then put domain now r.last_used else r.last_used;
      in_use = released domain (or_default 1 (get domain r.in_use) - 1) r.in_use;
    })

-- The registry of a new event loop.
abbrev pub emptied : Registry → Registry
emptied r = record r { limiters = []; last_used = []; in_use = []; overflow_limiter = none }

pub data Call : Type 0 where
  begins : (ℕ → ℕ) → ℕ → Text → Call
  ends : (ℕ → ℕ) → ℕ → Text → Bool → Call
  evicts_idle : (ℕ → ℕ) → ℕ → Call
  changes_loop : Call

unfoldable pub step : Settings → Call → Registry → Registry
unfolding begin_acquire end_acquire evict_to_limit
step settings (begins clock now domain) r = (begin_acquire settings clock now domain r).1
step settings (ends clock now domain acquired) r = end_acquire settings clock now domain acquired r
step settings (evicts_idle clock max_entries) r = evict_to_limit settings clock max_entries r
step settings changes_loop r = emptied r

unfoldable pub run : Settings → List Call → Registry → Registry
unfolding step
run settings [] r = r
run settings (c ∷ cs) r = run settings cs (step settings c r)
