-- ===== src/Examples/CacheRuns.antt =====
-- app/cache/__init__.py: a cache whose server fails a read, with a pause of one second.
use clusy_crawler.Base.{ℕ, ◌≡◌, refl, true, false, Option, none, some, List, [], ◌∷◌, Text, arith}
use clusy_crawler.Cache.Client.{
  Settings, RedisCache, Moment, Call, gets, Reply, answered, failed, new_cache, get, set, run,
  write_available, cooldown, ensure_client, connect, count_failure,
}
use clusy_crawler.Cache.Backoff.{get_recovers, write_available-away}

abbrev settings : Settings
settings = record {
  has_redis_url = true;
  cache_failure_cooldown_s = 1000000;
  cache_max_entry_bytes = 2;
  cache_ttl_s = 300;
}

abbrev moment : ℕ → Moment
moment t = record { first_look = t; locked_look = t; failed_at = t; connects = true }

abbrev history : List Call
history = gets (moment 5) failed ∷ []

run-history :
    run settings history new_cache
    ≡ record { is_connected = false; retry_after = 1000005; failure_count = 1 }
unfolding run
run-history = refl

cooldown-fourth : cooldown settings 4 ≡ some 8000000
unfolding cooldown
cooldown-fourth = refl

cooldown-tenth : cooldown settings 10 ≡ some 60000000
unfolding cooldown
cooldown-tenth = refl

-- After 1024 failures one more is an OverflowError, and the caller's read raises.
abbrev worn_out : RedisCache
worn_out = record { is_connected = false; retry_after = 0; failure_count = 1024 }

get-overflow :
    get settings (record (moment 5) { connects = false }) failed worn_out
    ≡ (none, record { is_connected = false; retry_after = 0; failure_count = 1025 })
unfolding get ensure_client connect count_failure cooldown
get-overflow = refl

get_recovers_example :
    (get settings (moment 60000005) (answered (some (1 ∷ []))) (run settings history new_cache)).0
    ≡ some (some (1 ∷ []))
get_recovers_example =
    get_recovers settings history 5 (moment 60000005) (some (1 ∷ [])) refl (omega arith, tt) refl
      (omega arith) (omega arith)

abbrev paused : RedisCache
paused = record { is_connected = false; retry_after = 1000005; failure_count = 1 }

paused-away : write_available settings 6 paused ≡ false
unfolding write_available
paused-away = refl

write_available-away_example :
    ((reply : Reply (Option (List ℕ))) → get settings (moment 6) reply paused ≡ (some none, paused))
    × ((jitter : ℕ → ℕ) (reply : Reply (Unit {0})) (key : Text) (value : List ℕ) (ttl : Option ℕ)
        → set settings (moment 6) jitter reply key value ttl paused ≡ ((none, true), paused))
write_available-away_example = write_available-away settings (moment 6) paused paused-away
