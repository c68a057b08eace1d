-- ===== src/Quality/Extractor.antt =====
-- app/services/quality_extractor.py: `QualityExtractor.extract` and `aclose`, as the steps of the requests
-- and workers of one extractor. A worker is apart from the request that started it: it may outlive it.
use clusy_crawler.Base.{
  ℕ, zero, suc, ◌+◌, ◌-◌, ◌≡◌, Bool, true, false, Option, none, some, List, [], ◌∷◌, ◌++◌,
  if◌then◌else◌,
}
use clusy_crawler.Quality.Breaker.{
  Config, Breaker, closed_breaker, Admission, admit, record_success, record_failure,
  record_capacity_timeout, release_probe,
}

-- Where an admitted request stands: before the semaphore, or in the wait for its worker.
pub data Stage : Type 0 where
  queued working : Stage

pub record Request : Type 0 where
  pub was_probe : Bool
  pub stage : Stage

-- The semaphore's free permits, the runtimes in `_available_runtimes`, the workers that are alive, and
-- the permits that `aclose` has taken.
pub record Extractor : Type 0 where
  pub breaker : Breaker
  pub permits : ℕ
  pub available_runtimes : ℕ
  pub workers : ℕ
  pub drained : ℕ
  pub closed : Bool
  pub requests : List Request

unfoldable pub new_extractor : Config → Extractor
new_extractor c = record {
  breaker = closed_breaker;
  permits = c.max_concurrency;
  available_runtimes = c.max_concurrency;
  workers = 0;
  drained = 0;
  closed = false;
  requests = [];
}

-- `extract` up to the semaphore: a request that is not admitted returns at once.
abbrev pub enqueue : Admission → List Request → List Request
enqueue a requests =
    if a.admitted then record { was_probe = a.is_probe; stage = queued } ∷ requests else requests

unfoldable pub arrive : ℕ → Extractor → Extractor
unfolding admit
arrive now x =
    if x.closed
    then x
    else let (a, b) = admit now x.breaker in
      record x { breaker = b; requests = enqueue a x.requests }

-- What the permit leads to: the return of a closed extractor, a worker, a worker that does not start, or
-- the `IndexError` of `popleft` on an empty deque.
pub data Granted : Type 0 where
  refused : Extractor → Granted
  started : Extractor → Granted
  start_failed : Extractor → Granted
  no_runtime : Granted

-- From the semaphore's permit to the worker; `starts` says whether the executor takes the call. The request
-- itself is not yet taken off or moved on.
unfoldable pub take_permit : Config → ℕ → Bool → Bool → Extractor → Granted
unfolding record_failure release_probe
take_permit c now starts was_probe x =
    if x.closed
    then refused (record x { breaker = release_probe was_probe x.breaker })
    else elim x.available_runtimes [
      | zero ↦ no_runtime
      | suc n ↦
          if starts
          then started (record x {
            permits = x.permits - 1;
            available_runtimes = n;
            workers = x.workers + 1;
          })
          else start_failed (record x { breaker = record_failure c now x.breaker })
    ]

-- How the wait for the worker ends.
pub data Ending : Type 0 where
  returned inference_timeout request_cancelled input_ineligible failed : Ending

unfoldable pub settle : Config → ℕ → Ending → Bool → Breaker → Breaker
unfolding record_success record_failure release_probe
settle c now returned was_probe b = record_success b
settle c now inference_timeout was_probe b = record_failure c now b
settle c now request_cancelled was_probe b = release_probe was_probe b
settle c now input_ineligible was_probe b = release_probe was_probe b
settle c now failed was_probe b = record_failure c now b

-- `release_when_worker_really_finishes`
abbrev pub finish_worker : Extractor → Extractor
finish_worker x = record x {
  available_runtimes = x.available_runtimes + 1;
  permits = x.permits + 1;
  workers = x.workers - 1;
}

abbrev pub with_requests : List Request → Extractor → Extractor
with_requests requests x = record x { requests = requests }

-- The requests once the one in the middle has been granted a permit.
abbrev pub after_grant : List Request → List Request → Request → Granted → Option Extractor
after_grant before after q (refused x) = some (with_requests (before ++ after) x)
after_grant before after q (started x) =
    some (with_requests (before ++ record q { stage = working } ∷ after) x)
after_grant before after q (start_failed x) = some (with_requests (before ++ after) x)
after_grant before after q no_runtime = none

-- One step of the extractor, of any request, of any worker, or of `aclose`.
pub data Step (c : Config) : Extractor → Extractor → Type 0 where
  arrives : (x : Extractor) (now : ℕ) → Step c x (arrive now x)
  acquires :
      (before after : List Request) (q : Request) (x y : Extractor) (now permits : ℕ)
      (starts : Bool)
      → q.stage ≡ queued
      → x.requests ≡ before ++ q ∷ after
      → x.permits ≡ suc permits
      → after_grant before after q (take_permit c now starts q.was_probe x) ≡ some y
      → Step c x y
  misses_capacity :
      (before after : List Request) (q : Request) (x : Extractor) (now : ℕ)
      → q.stage ≡ queued
      → x.requests ≡ before ++ q ∷ after
      → Step c x (record x {
        breaker = record_capacity_timeout c now (release_probe q.was_probe x.breaker);
        requests = before ++ after;
      })
  cancels_queued :
      (before after : List Request) (q : Request) (x : Extractor)
      → q.stage ≡ queued
      → x.requests ≡ before ++ q ∷ after
      → Step c x
          (record x { breaker = release_probe q.was_probe x.breaker; requests = before ++ after })
  ends :
      (before after : List Request) (q : Request) (x : Extractor) (now : ℕ) (ending : Ending)
      → q.stage ≡ working
      → x.requests ≡ before ++ q ∷ after
      → Step c x (record x {
        breaker = settle c now ending q.was_probe x.breaker;
        requests = before ++ after;
      })
  worker_ends : (x : Extractor) (workers : ℕ) → x.workers ≡ suc workers → Step c x (finish_worker x)
  closes : (x : Extractor) → Step c x (record x { closed = true })
  drains :
      (x : Extractor) (permits : ℕ)
      → x.closed ≡ true
      → x.permits ≡ suc permits
      → Step c x (record x { permits = permits; drained = x.drained + 1 })

-- The states that the extractor comes to.
pub data Reachable (c : Config) : Extractor → Type 0 where
  begins : Reachable c (new_extractor c)
  goes_on : (x y : Extractor) → Reachable c x → Step c x y → Reachable c y
