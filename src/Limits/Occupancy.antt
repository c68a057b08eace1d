-- ===== src/Limits/Occupancy.antt =====
-- app/middleware/resource_limits.py: the count of active requests, over every interleaving.
use clusy_crawler.Base.{
  ℕ, ◌+◌, ◌-◌, ◌≤◌, ◌≡◌, refl, sym, subst, ◌∙◌, inl, inr, Bool, true, false, Option, List, [], ◌∷◌,
  ◌++◌, arith, length, All, Bool-cases, if◌then◌else◌, leb,
}
use clusy_crawler.Limits.Body.{BodyRead, complete, excessive, waiting}
use clusy_crawler.Limits.Admission.{
  Limits, Phase, entering, reading, running, sending, leaving, gone, Request, Server, send_error,
  is_declared_larger, enter, after_read, read, start_response, finish, expire, leave, IsTimed,
  place, settle, Step, arrives, enters, reads, starts, finishes, sends, breaks_off, expires, leaves,
  Reachable, begins, goes_on,
}

abbrev bit : Bool → ℕ
bit true = 1
bit false = 0

abbrev occupies_at : Phase → Bool → ℕ
occupies_at entering admitted = bit admitted
occupies_at reading admitted = bit admitted
occupies_at running admitted = bit admitted
occupies_at sending admitted = bit admitted
occupies_at leaving admitted = bit admitted
occupies_at gone admitted = 0

-- 1 for a request that was admitted and has not left.
abbrev pub occupies : Request → ℕ
occupies q = occupies_at q.phase q.admitted

abbrev pub occupied : List Request → ℕ
occupied [] = 0
occupied (q ∷ qs) = occupies q + occupied qs

occupied_place :
    (before after : List Request) (q : Request)
    → occupied (before ++ q ∷ after) ≡ occupied before + (occupies q + occupied after)
occupied_place [] after q = omega arith
occupied_place (b ∷ before) after q = omega (arith, occupied_place before after q)

All-place :
    (P : Request → Type 0) (before after : List Request) (q : Request)
    → All P (before ++ q ∷ after)
    → P q × ((r : Request) → P r → All P (before ++ r ∷ after))
All-place P [] after q (h, hs) = (h, λ r k. (k, hs))
All-place P (b ∷ before) after q (h, hs) =
    let (here, others) = All-place P before after q hs in (here, λ r k. (h, others r k))

-- No error is being sent or was sent.
abbrev IsBefore : Phase → Type 0
IsBefore entering = Unit {0}
IsBefore reading = Unit {0}
IsBefore running = Unit {0}
IsBefore sending = ⊥
IsBefore leaving = ⊥
IsBefore gone = ⊥

-- What holds of each request.
record IsRegular (q : Request) : Type 0 where
  fresh : q.phase ≡ entering → q.admitted ≡ false
  quiet : IsBefore q.phase → q.errors ≡ []
  silent : q.response_started ≡ false → q.errors ≡ []
  once : length q.errors ≤ 1

-- What holds of the server between two steps.
record Sound (limits : Limits) (s : Server) : Type 0 where
  counted : s.active ≡ occupied s.requests
  bounded : s.active ≤ limits.max_active_requests
  regular : All IsRegular s.requests

-- A step replaces one request, and moves the count with it.
replaced-Sound :
    (limits : Limits) (before after : List Request) (q r : Request) (active active' : ℕ)
    → Sound limits (place before q after active)
    → active' + occupies q ≡ active + occupies r
    → active' ≤ limits.max_active_requests
    → IsRegular r
    → Sound limits (place before r after active')
replaced-Sound limits before after q r active active' s moved bound ok = record {
  counted =
      let c = s.counted in
      omega (arith, occupied_place before after q, occupied_place before after r);
  bounded = bound;
  regular = (All-place IsRegular before after q s.regular).1 r ok;
}

IsRegular-at :
    (limits : Limits) (before after : List Request) (q : Request) (active : ℕ)
    → Sound limits (place before q after active)
    → IsRegular q
IsRegular-at limits before after q active s = (All-place IsRegular before after q s.regular).0

occupies-timed : (q : Request) → IsTimed q.phase → occupies q ≡ bit q.admitted
occupies-timed q h = go q.phase h
  where
    go : (phase : Phase) → IsTimed phase → occupies_at phase q.admitted ≡ bit q.admitted
    go entering k = refl
    go reading k = refl
    go running k = refl
    go sending k = refl
    go leaving k = absurd k
    go gone k = absurd k

send_error-IsRegular : (status : ℕ) (q : Request) → q.errors ≡ [] → IsRegular (send_error status q)
send_error-IsRegular status q h = record {
  fresh = λ e. absurd (cc e);
  quiet = λ t. absurd t;
  silent = λ e. absurd (cc e);
  once = rw h (omega arith);
}

finish-IsRegular : (q : Request) → IsRegular q → IsRegular (finish q)
finish-IsRegular q ok = record {
  fresh = λ e. absurd (cc e);
  quiet = λ t. absurd t;
  silent = ok.silent;
  once = ok.once;
}

left-IsRegular : (q : Request) → IsRegular q → IsRegular (record q { phase = gone })
left-IsRegular q ok = record {
  fresh = λ e. absurd (cc e);
  quiet = λ t. absurd t;
  silent = ok.silent;
  once = ok.once;
}

-- A request with no error so far goes on within the `timeout` block.
timed-IsRegular :
    (q : Request) → q.errors ≡ [] → (q.phase ≡ entering → q.admitted ≡ false) → IsRegular q
timed-IsRegular q h k = record {
  fresh = k;
  quiet = λ t. h;
  silent = λ e. h;
  once = rw h (omega arith);
}

-- The errors of a request whose phase is known, and its place in the count.
errors_of :
    (q : Request) (phase : Phase) → q.phase ≡ phase → IsBefore phase → IsRegular q → q.errors ≡ []
errors_of q phase h t ok = ok.quiet (subst IsBefore (sym h) t)

occupies_of :
    (q : Request) (phase : Phase) → q.phase ≡ phase → IsTimed phase → occupies q ≡ bit q.admitted
occupies_of q phase h t = occupies-timed q (subst IsTimed (sym h) t)

enter-Sound :
    (limits : Limits) (before after : List Request) (q : Request) (active : ℕ) (declared : Option ℕ)
    → q.phase ≡ entering
    → Sound limits (place before q after active)
    → Sound limits (settle before after (enter limits declared active q))
unfolding enter
enter-Sound limits before after q active declared h s =
    let ok = IsRegular-at limits before after q active s in
    let quiet = errors_of q entering h tt ok in
    let count = occupies_of q entering h tt in
    elim (Bool-cases (is_declared_larger limits.max_body_bytes declared)) [
      | inl large ↦ rw large (
          replaced-Sound limits before after q (send_error 413 q) active active s
            (omega (arith, count)) s.bounded (send_error-IsRegular 413 q quiet))
      | inr small ↦ elim (Bool-cases (leb limits.max_active_requests active)) [
        | inl full ↦
            rw (small, full)
              (replaced-Sound limits before after q (send_error 429 q) active active s
                (omega (arith, count)) s.bounded (send_error-IsRegular 429 q quiet))
        | inr free ↦
            rw (small, free)
              (replaced-Sound limits before after q _ active (active + 1) s
                (rw (count, ok.fresh h) (omega arith)) (ground arith)
                (timed-IsRegular (record q { phase = reading; admitted = true }) quiet
                  (λ e. absurd (cc e))))
      ]
    ]

read-Sound :
    (limits : Limits) (before after : List Request) (q : Request) (active : ℕ) (result : BodyRead)
    → q.phase ≡ reading
    → Sound limits (place before q after active)
    → Sound limits (place before (after_read result q) after active)
read-Sound limits before after q active waiting h s = s
read-Sound limits before after q active excessive h s =
    replaced-Sound limits before after q (send_error 413 q) active active s
      (let count = occupies_of q reading h tt in omega arith) s.bounded
      (send_error-IsRegular 413 q
        (errors_of q reading h tt (IsRegular-at limits before after q active s)))
read-Sound limits before after q active (complete body) h s =
    replaced-Sound limits before after q (record q { phase = running }) active active s
      (let count = occupies_of q reading h tt in omega arith) s.bounded
      (timed-IsRegular (record q { phase = running })
        (errors_of q reading h tt (IsRegular-at limits before after q active s))
        (λ e. absurd (cc e)))

start-Sound :
    (limits : Limits) (before after : List Request) (q : Request) (active : ℕ)
    → q.phase ≡ running
    → Sound limits (place before q after active)
    → Sound limits (place before (start_response q) after active)
start-Sound limits before after q active h s =
    replaced-Sound limits before after q (start_response q) active active s refl s.bounded (
      timed-IsRegular (start_response q)
        (errors_of q running h tt (IsRegular-at limits before after q active s))
        (λ e. absurd (cc (sym h ∙ e))))

finish-Sound :
    (limits : Limits) (before after : List Request) (q : Request) (active : ℕ)
    → IsTimed q.phase
    → Sound limits (place before q after active)
    → Sound limits (place before (finish q) after active)
finish-Sound limits before after q active t s =
    replaced-Sound limits before after q (finish q) active active s
      (let count = occupies-timed q t in omega arith) s.bounded
      (finish-IsRegular q (IsRegular-at limits before after q active s))

expire-Sound :
    (limits : Limits) (before after : List Request) (q : Request) (active : ℕ)
    → IsTimed q.phase
    → Sound limits (place before q after active)
    → Sound limits (place before (expire q) after active)
unfolding expire
expire-Sound limits before after q active t s =
    let ok = IsRegular-at limits before after q active s in
    let ended = finish-Sound limits before after q active t s in
    let count = occupies-timed q t in
    elim (Bool-cases q.response_started) [
      | inl begun ↦
          subst
            (λ b.
              Sound limits
                (place before (if b then finish q else finish (send_error 504 q)) after active))
            (sym begun) ended
      | inr silent ↦
          subst
            (λ b.
              Sound limits
                (place before (if b then finish q else finish (send_error 504 q)) after active))
            (sym silent)
            (replaced-Sound limits before after q (finish (send_error 504 q)) active active s
              (omega arith) s.bounded
              (finish-IsRegular (send_error 504 q) (send_error-IsRegular 504 q (ok.silent silent))))
    ]

leave-Sound :
    (limits : Limits) (before after : List Request) (q : Request) (active : ℕ)
    → q.phase ≡ leaving
    → Sound limits (place before q after active)
    → Sound limits (settle before after (leave active q))
unfolding leave
leave-Sound limits before after q active h s = go q.admitted (at_leaving q.phase q.admitted h)
  where
    at_leaving :
        (phase : Phase) (admitted : Bool)
        → phase ≡ leaving
        → occupies_at phase admitted ≡ bit admitted
    at_leaving phase admitted e = rw e refl

    go :
        (b : Bool)
        → occupies q ≡ bit b
        → Sound limits
            (settle before after (if b then active - 1 else active, record q { phase = gone }))
    go true one =
        let total = s.counted in
        let bound = s.bounded in
        replaced-Sound limits before after q (record q { phase = gone }) active (active - 1) s
          (omega (arith, occupied_place before after q)) (omega arith)
          (left-IsRegular q (IsRegular-at limits before after q active s))
    go false nothing =
        replaced-Sound limits before after q (record q { phase = gone }) active active s
          (omega arith) s.bounded (left-IsRegular q (IsRegular-at limits before after q active s))

Step-Sound : (limits : Limits) (s t : Server) → Step limits s t → Sound limits s → Sound limits t
unfolding read
Step-Sound limits _ _ (arrives s) k = record {
  counted = let c = k.counted in omega arith;
  bounded = k.bounded;
  regular = (
    record { fresh = λ e. refl; quiet = λ t. refl; silent = λ e. refl; once = omega arith },
    k.regular,
  );
}
Step-Sound limits _ _ (enters before after q active declared h) k =
    enter-Sound limits before after q active declared h k
Step-Sound limits _ _ (reads before after q active messages h) k =
    read-Sound limits before after q active _ h k
Step-Sound limits _ _ (starts before after q active h) k =
    start-Sound limits before after q active h k
Step-Sound limits _ _ (finishes before after q active h) k =
    finish-Sound limits before after q active (subst IsTimed (sym h) tt) k
Step-Sound limits _ _ (sends before after q active h) k =
    finish-Sound limits before after q active (subst IsTimed (sym h) tt) k
Step-Sound limits _ _ (breaks_off before after q active t) k =
    finish-Sound limits before after q active t k
Step-Sound limits _ _ (expires before after q active t) k =
    expire-Sound limits before after q active t k
Step-Sound limits _ _ (leaves before after q active h) k =
    leave-Sound limits before after q active h k

Reachable-Sound : (limits : Limits) (s : Server) → Reachable limits s → Sound limits s
Reachable-Sound limits _ begins = record { counted = refl; bounded = omega arith; regular = tt }
Reachable-Sound limits _ (goes_on s t r x) = Step-Sound limits s t x (Reachable-Sound limits s r)

-- In every state that the server comes to, in whatever order its requests take their steps, the count is
-- that of the requests which were admitted and have not left, and is at most `max_active_requests`.
pub Reachable-occupied :
    (limits : Limits) (s : Server)
    → Reachable limits s
    → (s.active ≡ occupied s.requests) × (s.active ≤ limits.max_active_requests)
Reachable-occupied limits s r = let k = Reachable-Sound limits s r in (k.counted, k.bounded)

-- In every state that the server comes to, the middleware has begun to send each request at most one error, also where the deadline strikes in the sending of one.
pub Reachable-one_error :
    (limits : Limits) (s : Server) → Reachable limits s → All (λ q. length q.errors ≤ 1) s.requests
Reachable-one_error limits s r = go s.requests (Reachable-Sound limits s r).regular
  where
    go : (qs : List Request) → All IsRegular qs → All (λ q. length q.errors ≤ 1) qs
    go [] h = tt
    go (q ∷ qs) (h, hs) = (h.once, go qs hs)
