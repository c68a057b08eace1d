-- ===== src/Cache/Backoff.antt =====
-- app/cache/__init__.py: how long the cache stays away from a server that failed.
use clusy_crawler.Base.{
  ℕ, ◌+◌, ◌≤◌, ◌≡◌, refl, inl, inr, Bool, true, false, Option, none, some, List, [], ◌∷◌, Text,
  arith, ltb, leb, ◌-◌, if◌then◌else◌, length, Bool-cases, All,
}
use clusy_crawler.Cache.Client

-- No call of the history failed later than at the time.
abbrev pub FailedBy : ℕ → Client.Call → Type 0
FailedBy t (Client.gets m reply) = m.failed_at ≤ t
FailedBy t (Client.sets m jitter reply key value ttl) = m.failed_at ≤ t
FailedBy t (Client.checks m reply) = m.failed_at ≤ t
FailedBy t Client.closes = Unit {0}

-- The pause ends at most 60 seconds after the time.
abbrev EndsBy : ℕ → Client.RedisCache → Type 0
EndsBy t s = s.retry_after ≤ t + Client.max_cooldown

count_failure-EndsBy :
    (settings : Client.Settings) (now t : ℕ) (s : Client.RedisCache)
    → now ≤ t
    → EndsBy t s
    → EndsBy t (Client.count_failure settings now s).1
unfolding Client.count_failure Client.cooldown
count_failure-EndsBy settings now t s h e = elim (Bool-cases (leb 1024 (s.failure_count + 1 - 1))) [
  | inl over ↦ rw over e
  | inr fits ↦ rw fits (omega arith)
]

unless_raised-EndsBy :
    {A : Type 0} (t : ℕ) (a : A) (r : Bool × Client.RedisCache)
    → EndsBy t r.1
    → EndsBy t (Client.unless_raised a r).1
unless_raised-EndsBy t a (true, s) h = h
unless_raised-EndsBy t a (false, s) h = h

connect-EndsBy :
    (settings : Client.Settings) (now t : ℕ) (connects : Bool) (s : Client.RedisCache)
    → now ≤ t
    → EndsBy t s
    → EndsBy t (Client.connect settings now connects s).1
unfolding Client.connect
connect-EndsBy settings now t true s h e = omega arith
connect-EndsBy settings now t false s h e =
    unless_raised-EndsBy t false (Client.count_failure settings now s)
      (count_failure-EndsBy settings now t s h e)

module _ (settings : Client.Settings) (m : Client.Moment) (t : ℕ) (early : m.failed_at ≤ t) where
  ensure_locked-EndsBy :
      (s : Client.RedisCache) (o : Option Bool)
      → EndsBy t s
      → EndsBy t (Client.ensure_locked settings m s o).1
  ensure_locked-EndsBy s (some b) h = h
  ensure_locked-EndsBy s none h = connect-EndsBy settings m.failed_at t m.connects s early h

  ensure_looked-EndsBy :
      (s : Client.RedisCache) (o : Option Bool)
      → EndsBy t s
      → EndsBy t (Client.ensure_looked settings m s o).1
  ensure_looked-EndsBy s (some b) h = h
  ensure_looked-EndsBy s none h = ensure_locked-EndsBy s (Client.look m.locked_look s) h

  ensure_client-EndsBy :
      (s : Client.RedisCache) → EndsBy t s → EndsBy t (Client.ensure_client settings m s).1
  unfolding Client.ensure_client
  ensure_client-EndsBy s h = go settings.has_redis_url
    where
      go :
          (b : Bool)
          → EndsBy t
              (if b
                then Client.ensure_looked settings m s (Client.look m.first_look s)
                else (some false, s)).1
      go true = ensure_looked-EndsBy s (Client.look m.first_look s) h
      go false = h

  mark_unavailable-EndsBy :
      (s : Client.RedisCache)
      → EndsBy t s
      → EndsBy t (Client.mark_unavailable settings m.failed_at s).1
  unfolding Client.mark_unavailable
  mark_unavailable-EndsBy s h =
      count_failure-EndsBy settings m.failed_at t (record s { is_connected = false }) early h

  get_reply-EndsBy :
      (reply : Client.Reply (Option (List ℕ))) (r : Option Bool × Client.RedisCache)
      → EndsBy t r.1
      → EndsBy t (Client.get_reply settings m reply r).1
  get_reply-EndsBy reply (none, s) h = h
  get_reply-EndsBy reply (some false, s) h = h
  get_reply-EndsBy (Client.answered value) (some true, s) h = h
  get_reply-EndsBy Client.failed (some true, s) h =
      unless_raised-EndsBy t none (Client.mark_unavailable settings m.failed_at s)
        (mark_unavailable-EndsBy s h)

  set_reply-EndsBy :
      (reply : Client.Reply (Unit {0})) (write : Client.Write) (r : Option Bool × Client.RedisCache)
      → EndsBy t r.1
      → EndsBy t (Client.set_reply settings m reply write r).1
  set_reply-EndsBy reply write (none, s) h = h
  set_reply-EndsBy reply write (some false, s) h = h
  set_reply-EndsBy (Client.answered u) write (some true, s) h = h
  set_reply-EndsBy Client.failed write (some true, s) h = mark_unavailable-EndsBy s h

  health_reply-EndsBy :
      (reply : Client.Reply Bool) (r : Option Bool × Client.RedisCache)
      → EndsBy t r.1
      → EndsBy t (Client.health_reply settings m reply r).1
  health_reply-EndsBy reply (none, s) h = h
  health_reply-EndsBy reply (some false, s) h = h
  health_reply-EndsBy (Client.answered b) (some true, s) h = h
  health_reply-EndsBy Client.failed (some true, s) h =
      unless_raised-EndsBy t false (Client.mark_unavailable settings m.failed_at s)
        (mark_unavailable-EndsBy s h)

step-EndsBy :
    (settings : Client.Settings) (t : ℕ) (c : Client.Call) (s : Client.RedisCache)
    → FailedBy t c
    → EndsBy t s
    → EndsBy t (Client.step settings c s)
unfolding Client.step Client.get Client.set Client.healthcheck Client.close
step-EndsBy settings t (Client.gets m reply) s e h =
    get_reply-EndsBy settings m t e reply (Client.ensure_client settings m s)
      (ensure_client-EndsBy settings m t e s h)
step-EndsBy settings t (Client.sets m jitter reply key value ttl) s e h =
    go (ltb settings.cache_max_entry_bytes (length value))
  where
    go :
        (b : Bool)
        → EndsBy t
            (if b
              then ((none, true), s)
              else Client.set_reply settings m reply
                  (record {
                    key = key;
                    ttl = Client.jittered_ttl settings jitter ttl;
                    value = value;
                  })
                  (Client.ensure_client settings m s)).1
    go true = h
    go false =
        set_reply-EndsBy settings m t e reply _ (Client.ensure_client settings m s)
          (ensure_client-EndsBy settings m t e s h)
step-EndsBy settings t (Client.checks m reply) s e h = go settings.has_redis_url
  where
    go :
        (b : Bool)
        → EndsBy t
            (if b
              then Client.health_reply settings m reply (Client.ensure_client settings m s)
              else (some true, s)).1
    go true =
        health_reply-EndsBy settings m t e reply (Client.ensure_client settings m s)
          (ensure_client-EndsBy settings m t e s h)
    go false = h
step-EndsBy settings t Client.closes s e h = omega arith

run-EndsBy :
    (settings : Client.Settings) (t : ℕ) (cs : List Client.Call) (s : Client.RedisCache)
    → All (FailedBy t) cs
    → EndsBy t s
    → EndsBy t (Client.run settings cs s)
unfolding Client.run
run-EndsBy settings t [] s e h = h
run-EndsBy settings t (c ∷ cs) s (e, es) h =
    run-EndsBy settings t cs (Client.step settings c s) es (step-EndsBy settings t c s e h)

-- A cache whose pause is over asks the server, on the connection that it has or on a new one.
ensure_client-connected :
    (settings : Client.Settings) (m : Client.Moment) (s : Client.RedisCache)
    → settings.has_redis_url ≡ true
    → m.connects ≡ true
    → s.retry_after ≤ m.first_look
    → s.retry_after ≤ m.locked_look
    → (Client.ensure_client settings m s).0 ≡ some true
unfolding Client.ensure_client Client.connect
ensure_client-connected settings m s url up first locked = rw (url, up) (go s.is_connected refl)
  where
    go :
        (b : Bool)
        → s.is_connected ≡ b
        → (Client.ensure_looked settings
            (record m { connects = true })
            s
            (Client.look m.first_look s)).0
          ≡ some true
    go b e = elim (Bool-cases s.is_connected) [ inl c ↦ rw c refl | inr c ↦ ground arith ]

get_reply-answered :
    (settings : Client.Settings) (m : Client.Moment) (value : Option (List ℕ))
    (r : Option Bool × Client.RedisCache)
    → r.0 ≡ some true
    → (Client.get_reply settings m (Client.answered value) r).0 ≡ some value
get_reply-answered settings m value (some true, s) h = refl
get_reply-answered settings m value (some false, s) h = absurd (cc h)
get_reply-answered settings m value (none, s) h = absurd (cc h)

-- Whatever calls were made and however many of them failed, also where so many failed that a call raised:
-- 60 seconds after the last failure, a read returns what the server answers if the server answers.
pub get_recovers :
    (settings : Client.Settings) (cs : List Client.Call) (t : ℕ) (m : Client.Moment)
    (value : Option (List ℕ))
    → settings.has_redis_url ≡ true
    → All (FailedBy t) cs
    → m.connects ≡ true
    → t + Client.max_cooldown ≤ m.first_look
    → t + Client.max_cooldown ≤ m.locked_look
    → (Client.get settings m (Client.answered value) (Client.run settings cs Client.new_cache)).0
      ≡ some value
unfolding Client.get
get_recovers settings cs t m value url failures up first locked =
    let late = run-EndsBy settings t cs Client.new_cache failures (omega arith) in
    get_reply-answered settings m value
      (Client.ensure_client settings m (Client.run settings cs Client.new_cache))
      (ensure_client-connected settings m (Client.run settings cs Client.new_cache) url up
        (omega arith) (omega arith))

-- Without a write available the client is not asked.
away-ensure_client :
    (settings : Client.Settings) (m : Client.Moment) (s : Client.RedisCache)
    → Client.write_available settings m.first_look s ≡ false
    → Client.ensure_client settings m s ≡ (some false, s)
unfolding Client.write_available Client.ensure_client
away-ensure_client settings m s h = elim (Bool-cases settings.has_redis_url) [
  | inr e ↦ rw e refl
  | inl e ↦ elim (Bool-cases s.is_connected) [
    | inl c ↦ absurd (ground arith)
    | inr c ↦ ground arith
  ]
]

-- If no write is available at the time of a call's first look, the call leaves the server alone: a read
-- returns nothing, a write is not sent and returns, and the cache stays as it is, whatever the server would do.
pub write_available-away :
    (settings : Client.Settings) (m : Client.Moment) (s : Client.RedisCache)
    → Client.write_available settings m.first_look s ≡ false
    → ((reply : Client.Reply (Option (List ℕ))) → Client.get settings m reply s ≡ (some none, s))
      × ((jitter : ℕ → ℕ) (reply : Client.Reply (Unit {0})) (key : Text) (value : List ℕ)
            (ttl : Option ℕ)
          → Client.set settings m jitter reply key value ttl s ≡ ((none, true), s))
unfolding Client.get Client.set
write_available-away settings m s h =
    let away = away-ensure_client settings m s h in
    (
      λ reply. rw away refl,
      λ jitter reply key value ttl.
          elim (Bool-cases (ltb settings.cache_max_entry_bytes (length value))) [
            | inl e ↦ rw e refl
            | inr e ↦ rw (e, away) refl
          ],
    )
