-- ===== src/Cache/Client.antt =====
-- app/cache/__init__.py: `RedisCache`. What the client answers, and what the clock reads at each look, are
-- arguments; times are in microseconds.
use clusy_crawler.Base.{
  ℕ, zero, suc, ◌+◌, ◌-◌, ◌*◌, ◌^◌, min, max, Bool, true, false, ◌&&◌, ◌||◌, Option, none, some,
  List, [], ◌∷◌, Text, leb, ltb, if◌then◌else◌, length,
}

pub record Settings : Type 0 where
  pub has_redis_url : Bool
  pub cache_failure_cooldown_s : ℕ
  pub cache_max_entry_bytes : ℕ
  pub cache_ttl_s : ℕ

-- `_redis is not None`, `_retry_after` and `_failure_count`.
pub record RedisCache : Type 0 where
  pub is_connected : Bool
  pub retry_after : ℕ
  pub failure_count : ℕ

abbrev pub new_cache : RedisCache
new_cache = record { is_connected = false; retry_after = 0; failure_count = 0 }

-- 60 seconds
abbrev pub max_cooldown : ℕ
max_cooldown = 60000000

-- `min(cache_failure_cooldown_s * (2 ** (failure_count - 1)), 60.0)`. The product is one of a float with an
-- integer; `none` is its OverflowError, for an integer from 2 ** 1024 on.
unfoldable pub cooldown : Settings → ℕ → Option ℕ
cooldown settings failure_count =
    if leb 1024 (failure_count - 1)
    then none
    else some (min (settings.cache_failure_cooldown_s * 2 ^ (failure_count - 1)) max_cooldown)

abbrev pub paused : ℕ → RedisCache → Option ℕ → Bool × RedisCache
paused now s none = (false, s)
paused now s (some pause) = (true, record s { retry_after = now + pause })

-- The count of one more failure, and the pause after it; `false` says that this raises the OverflowError.
unfoldable pub count_failure : Settings → ℕ → RedisCache → Bool × RedisCache
unfolding cooldown
count_failure settings now s =
    paused now (record s { failure_count = s.failure_count + 1 })
      (cooldown settings (s.failure_count + 1))

unfoldable pub mark_unavailable : Settings → ℕ → RedisCache → Bool × RedisCache
unfolding count_failure
mark_unavailable settings now s = count_failure settings now (record s { is_connected = false })

-- What a call answers behind one that may raise; `none` is the OverflowError.
abbrev pub unless_raised : {A : Type 0} → A → Bool × RedisCache → Option A × RedisCache
unless_raised a (true, s) = (some a, s)
unless_raised a (false, s) = (none, s)

-- The first part of `_ensure_client`, and again the first part behind the lock: the answer where there
-- is one.
abbrev pub look : ℕ → RedisCache → Option Bool
look now s =
    if s.is_connected then some true else if ltb now s.retry_after then some false else none

-- The attempt to connect; `connects` says whether the server answers the ping.
unfoldable pub connect : Settings → ℕ → Bool → RedisCache → Option Bool × RedisCache
unfolding count_failure
connect settings now connects s =
    if connects
    then (some true, record { is_connected = true; retry_after = 0; failure_count = 0 })
    else unless_raised false (count_failure settings now s)

-- What the environment does in one call: the times of the first look, of the look behind the lock, and of
-- a failure, and whether the server answers the ping.
pub record Moment : Type 0 where
  pub first_look : ℕ
  pub locked_look : ℕ
  pub failed_at : ℕ
  pub connects : Bool

abbrev pub ensure_locked : Settings → Moment → RedisCache → Option Bool → Option Bool × RedisCache
ensure_locked settings m s (some b) = (some b, s)
ensure_locked settings m s none = connect settings m.failed_at m.connects s

abbrev pub ensure_looked : Settings → Moment → RedisCache → Option Bool → Option Bool × RedisCache
ensure_looked settings m s (some b) = (some b, s)
ensure_looked settings m s none = ensure_locked settings m s (look m.locked_look s)

-- Whether there is a client; `none` is the OverflowError.
unfoldable pub ensure_client : Settings → Moment → RedisCache → Option Bool × RedisCache
unfolding connect
ensure_client settings m s =
    if settings.has_redis_url
    then ensure_looked settings m s (look m.first_look s)
    else (some false, s)

-- The server's reply to an operation, or its timeout or error.
pub data Reply (A : Type 0) : Type 0 where
  answered : A → Reply A
  failed : Reply A

abbrev pub get_reply :
    Settings
    → Moment
    → Reply (Option (List ℕ))
    → Option Bool × RedisCache
    → Option (Option (List ℕ)) × RedisCache
get_reply settings m reply (none, s) = (none, s)
get_reply settings m reply (some false, s) = (some none, s)
get_reply settings m (answered value) (some true, s) = (some value, s)
get_reply settings m failed (some true, s) =
    unless_raised none (mark_unavailable settings m.failed_at s)

unfoldable pub get :
    Settings → Moment → Reply (Option (List ℕ)) → RedisCache → Option (Option (List ℕ)) × RedisCache
unfolding ensure_client mark_unavailable
get settings m reply s = get_reply settings m reply (ensure_client settings m s)

-- `max(1, round(ttl * random.uniform(0.95, 1.05)))`, where `jitter` is the rounded product.
abbrev pub chosen_ttl : Settings → Option ℕ → ℕ
chosen_ttl settings none = settings.cache_ttl_s
chosen_ttl settings (some zero) = settings.cache_ttl_s
chosen_ttl settings (some (suc n)) = suc n

abbrev pub jittered_ttl : Settings → (ℕ → ℕ) → Option ℕ → ℕ
jittered_ttl settings jitter ttl = max 1 (jitter (chosen_ttl settings ttl))

-- A `SETEX` that the server is sent.
pub record Write : Type 0 where
  pub key : Text
  pub ttl : ℕ
  pub value : List ℕ

abbrev pub set_reply :
    Settings
    → Moment
    → Reply (Unit {0})
    → Write
    → Option Bool × RedisCache
    → (Option Write × Bool) × RedisCache
set_reply settings m reply write (none, s) = ((none, false), s)
set_reply settings m reply write (some false, s) = ((none, true), s)
set_reply settings m (answered u) write (some true, s) = ((some write, true), s)
set_reply settings m failed write (some true, s) =
    let (is_returned, s') = mark_unavailable settings m.failed_at s in
    ((some write, is_returned), s')

-- `set`: the write that it sends, if it sends one, and whether it returns; it raises the OverflowError otherwise.
unfoldable pub set :
    Settings
    → Moment
    → (ℕ → ℕ)
    → Reply (Unit {0})
    → Text
    → List ℕ
    → Option ℕ
    → RedisCache
    → (Option Write × Bool) × RedisCache
unfolding ensure_client mark_unavailable
set settings m jitter reply key value ttl s =
    if ltb settings.cache_max_entry_bytes (length value)
    then ((none, true), s)
    else set_reply settings m reply
        (record { key = key; ttl = jittered_ttl settings jitter ttl; value = value })
        (ensure_client settings m s)

unfoldable pub write_available : Settings → ℕ → RedisCache → Bool
write_available settings now s = settings.has_redis_url && (s.is_connected || leb s.retry_after now)

abbrev pub health_reply :
    Settings → Moment → Reply Bool → Option Bool × RedisCache → Option Bool × RedisCache
health_reply settings m reply (none, s) = (none, s)
health_reply settings m reply (some false, s) = (some false, s)
health_reply settings m (answered b) (some true, s) = (some b, s)
health_reply settings m failed (some true, s) =
    unless_raised false (mark_unavailable settings m.failed_at s)

unfoldable pub healthcheck : Settings → Moment → Reply Bool → RedisCache → Option Bool × RedisCache
unfolding ensure_client mark_unavailable
healthcheck settings m reply s =
    if settings.has_redis_url
    then health_reply settings m reply (ensure_client settings m s)
    else (some true, s)

unfoldable pub close : RedisCache → RedisCache
close s = record { is_connected = false; retry_after = 0; failure_count = 0 }

-- One call of a cache.
pub data Call : Type 0 where
  gets : Moment → Reply (Option (List ℕ)) → Call
  sets : Moment → (ℕ → ℕ) → Reply (Unit {0}) → Text → List ℕ → Option ℕ → Call
  checks : Moment → Reply Bool → Call
  closes : Call

unfoldable pub step : Settings → Call → RedisCache → RedisCache
unfolding get set healthcheck close
step settings (gets m reply) s = (get settings m reply s).1
step settings (sets m jitter reply key value ttl) s =
    (set settings m jitter reply key value ttl s).1
step settings (checks m reply) s = (healthcheck settings m reply s).1
step settings closes s = close s

unfoldable pub run : Settings → List Call → RedisCache → RedisCache
unfolding step
run settings [] s = s
run settings (c ∷ cs) s = run settings cs (step settings c s)
