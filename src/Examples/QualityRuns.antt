-- ===== src/Examples/QualityRuns.antt =====
-- app/services/quality_extractor.py: an extractor for one worker that opens at the second failure.
use clusy_crawler.Base.{ℕ, suc, ◌≤◌, ◌≡◌, refl, Bool, true, false, [], ◌∷◌, arith}
use clusy_crawler.Quality.Breaker.{
  Config, Breaker, closed_breaker, admit, record_failure, record_capacity_timeout, release_probe,
  fail_at, failures-open,
}
use clusy_crawler.Quality.Extractor.{
  Extractor, Request, Reachable, new_extractor, arrive, begins, goes_on, arrives, misses_capacity,
  queued, take_permit, no_runtime,
}
use clusy_crawler.Quality.Permits.{Reachable-workers}

abbrev config : Config
config = record { max_concurrency = 1; failure_threshold = 2; cooldown_s = 10 }

-- After failures at 3 and 5 the breaker denies at 14, and lets one probe through at 15.
abbrev opened : Breaker
opened = record { consecutive_failures = 2; open_until = 15; half_open_probe = false }

fail_at-opened : fail_at config (3 ∷ 5 ∷ []) closed_breaker ≡ opened
unfolding fail_at
fail_at-opened = refl

admit-probe : (admit 15 opened).0 ≡ record { admitted = true; is_probe = true }
unfolding admit
admit-probe = refl

admit-second : (admit 16 (admit 15 opened).1).0.admitted ≡ false
unfolding admit
admit-second = refl

failures-open_example :
    (admit 14 (record_failure config 5 (fail_at config (3 ∷ []) closed_breaker))).0.admitted ≡ false
failures-open_example =
    failures-open config (3 ∷ []) 5 14 closed_breaker (omega arith) (omega arith) (omega arith)

-- One request that misses the semaphore.
abbrev first : Request
first = record { was_probe = false; stage = queued }

abbrev shut : Extractor
shut = record {
  breaker = record { consecutive_failures = 2; open_until = 15; half_open_probe = false };
  permits = 1;
  available_runtimes = 1;
  workers = 0;
  drained = 0;
  closed = false;
  requests = [];
}

abbrev one_queued : Extractor
one_queued = record shut { breaker = closed_breaker; requests = first ∷ [] }

shut-Reachable : Reachable config shut
unfolding new_extractor arrive admit record_capacity_timeout release_probe
shut-Reachable =
    goes_on one_queued shut
      (goes_on (new_extractor config) one_queued begins (arrives (new_extractor config) 0))
      (misses_capacity [] [] first one_queued 5 refl refl)

Reachable-workers_example :
    (0 ≤ 1)
    × ((now permits : ℕ) (starts was_probe : Bool)
        → 1 ≡ suc permits
        → take_permit config now starts was_probe shut ≡ no_runtime
        → ⊥)
Reachable-workers_example = Reachable-workers config shut shut-Reachable
