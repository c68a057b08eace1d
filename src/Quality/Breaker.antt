-- ===== src/Quality/Breaker.antt =====
-- app/services/quality_extractor.py: `_admit` and the records of `QualityExtractor`'s circuit breaker.
use clusy_crawler.Base.{
  ℕ, ◌+◌, ◌≤◌, ◌<◌, ◌≡◌, max, Bool, true, false, List, [], ◌∷◌, leb, ltb, if◌then◌else◌, length,
  arith,
}

-- The settings that the extractor reads, with times in microseconds.
pub record Config : Type 0 where
  pub max_concurrency : ℕ
  pub failure_threshold : ℕ
  pub cooldown_s : ℕ

pub record Breaker : Type 0 where
  pub consecutive_failures : ℕ
  pub open_until : ℕ
  pub half_open_probe : Bool

abbrev pub closed_breaker : Breaker
closed_breaker = record { consecutive_failures = 0; open_until = 0; half_open_probe = false }

-- Whether the request is admitted, and whether it is the probe of a half-open breaker.
pub record Admission : Type 0 where
  pub admitted : Bool
  pub is_probe : Bool

abbrev denied : Admission
denied = record { admitted = false; is_probe = false }

-- `_admit` at the time that the clock reads.
unfoldable pub admit : ℕ → Breaker → Admission × Breaker
admit now b =
    if leb b.open_until 0
    then (record { admitted = true; is_probe = false }, b)
    else if ltb now b.open_until
    then (denied, b)
    else if b.half_open_probe
    then (denied, b)
    else (record { admitted = true; is_probe = true }, record b { half_open_probe = true })

unfoldable pub record_success : Breaker → Breaker
record_success b = record { consecutive_failures = 0; open_until = 0; half_open_probe = false }

unfoldable pub record_failure : Config → ℕ → Breaker → Breaker
record_failure c now b = record {
  consecutive_failures = b.consecutive_failures + 1;
  open_until =
      if leb c.failure_threshold (b.consecutive_failures + 1)
      then now + c.cooldown_s
      else b.open_until;
  half_open_probe = false;
}

unfoldable pub record_capacity_timeout : Config → ℕ → Breaker → Breaker
record_capacity_timeout c now b = record {
  consecutive_failures = max (b.consecutive_failures + 1) c.failure_threshold;
  open_until = now + c.cooldown_s;
  half_open_probe = false;
}

unfoldable pub release_probe : Bool → Breaker → Breaker
release_probe was_probe b = if was_probe then record b { half_open_probe = false } else b

-- Failures in a row, at the times of the list, the last of them last.
unfoldable pub fail_at : Config → List ℕ → Breaker → Breaker
unfolding record_failure
fail_at c [] b = b
fail_at c (now ∷ times) b = fail_at c times (record_failure c now b)

fail_at-open :
    (c : Config) (times : List ℕ) (last now : ℕ) (b : Breaker)
    → c.failure_threshold ≤ b.consecutive_failures + length times + 1
    → 0 < c.cooldown_s
    → now < last + c.cooldown_s
    → (admit now (record_failure c last (fail_at c times b))).0.admitted ≡ false
unfolding fail_at admit record_failure
fail_at-open c [] last now b h pos early = ground arith
fail_at-open c (t ∷ times) last now b h pos early =
    fail_at-open c times last now (record_failure c t b) (omega arith) pos early

-- Once as many failures in a row as the threshold have been recorded, no request is admitted until the
-- cooldown after the last of them has passed.
pub failures-open :
    (c : Config) (times : List ℕ) (last now : ℕ) (b : Breaker)
    → c.failure_threshold ≤ length times + 1
    → 0 < c.cooldown_s
    → now < last + c.cooldown_s
    → (admit now (record_failure c last (fail_at c times b))).0.admitted ≡ false
failures-open c times last now b h pos early =
    fail_at-open c times last now b (omega arith) pos early
