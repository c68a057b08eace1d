-- ===== src/Quality/Permits.antt =====
-- app/services/quality_extractor.py: the permits and the runtimes, over every interleaving.
use clusy_crawler.Base.{
  ℕ, zero, suc, ◌+◌, ◌-◌, ◌≤◌, ◌≡◌, refl, subst, of_some_eq, Bool, true, false, some, List, arith,
  if◌then◌else◌,
}
use clusy_crawler.Quality.Breaker.{Config, admit, record_failure, release_probe}
use clusy_crawler.Quality.Extractor

-- Each permit is free, held by a worker that is alive, or taken by `aclose`; and each runtime is free or
-- with a worker.
record Sound (c : Config) (x : Extractor.Extractor) : Type 0 where
  permits : x.permits + x.workers + x.drained ≡ c.max_concurrency
  runtimes : x.available_runtimes + x.workers ≡ c.max_concurrency

arrive-Sound :
    (c : Config) (now : ℕ) (x : Extractor.Extractor) → Sound c x → Sound c (Extractor.arrive now x)
unfolding Extractor.arrive
arrive-Sound c now x s = either x.closed
  where
    either :
        (b : Bool)
        → Sound c (
            if b then x else (record x {
              breaker = (admit now x.breaker).1;
              requests = Extractor.enqueue (admit now x.breaker).0 x.requests;
            }))
    either true = s
    either false = record { permits = s.permits; runtimes = s.runtimes }

-- What a permit leads to keeps the counts, and finds a runtime.
abbrev GrantHolds : Config → Extractor.Granted → Type 0
GrantHolds c (Extractor.refused y) = Sound c y
GrantHolds c (Extractor.started y) = Sound c y
GrantHolds c (Extractor.start_failed y) = Sound c y
GrantHolds c Extractor.no_runtime = ⊥

take_permit-GrantHolds :
    (c : Config) (now permits : ℕ) (starts was_probe : Bool) (x : Extractor.Extractor)
    → x.permits ≡ suc permits
    → Sound c x
    → GrantHolds c (Extractor.take_permit c now starts was_probe x)
unfolding Extractor.take_permit
take_permit-GrantHolds c now permits starts was_probe x h s =
    go x.closed x.available_runtimes starts refl
  where
    go :
        (closed : Bool) (runtimes : ℕ) (b : Bool)
        → runtimes ≡ x.available_runtimes
        → GrantHolds c (
            if closed
            then Extractor.refused (record x { breaker = release_probe was_probe x.breaker })
            else elim runtimes as (λ n. Extractor.Granted) [
              | zero ↦ Extractor.no_runtime
              | suc n ↦
                  if b
                  then Extractor.started (record x {
                    permits = x.permits - 1;
                    available_runtimes = n;
                    workers = x.workers + 1;
                  })
                  else Extractor.start_failed
                      (record x { breaker = record_failure c now x.breaker })
            ])
    go true runtimes b e = record { permits = s.permits; runtimes = s.runtimes }
    go false zero b e = let p = s.permits in let r = s.runtimes in absurd (omega arith)
    go false (suc n) true e =
        let p = s.permits in
        let r = s.runtimes in record { permits = omega arith; runtimes = omega arith }
    go false (suc n) false e = record { permits = s.permits; runtimes = s.runtimes }

after_grant-Sound :
    (c : Config) (before after : List Extractor.Request) (q : Extractor.Request)
    (g : Extractor.Granted) (y : Extractor.Extractor)
    → GrantHolds c g
    → Extractor.after_grant before after q g ≡ some y
    → Sound c y
after_grant-Sound c before after q (Extractor.refused x) y h e =
    subst (Sound c) (of_some_eq e) (record { permits = h.permits; runtimes = h.runtimes })
after_grant-Sound c before after q (Extractor.started x) y h e =
    subst (Sound c) (of_some_eq e) (record { permits = h.permits; runtimes = h.runtimes })
after_grant-Sound c before after q (Extractor.start_failed x) y h e =
    subst (Sound c) (of_some_eq e) (record { permits = h.permits; runtimes = h.runtimes })
after_grant-Sound c before after q Extractor.no_runtime y h e = absurd h

Step-Sound : (c : Config) (x y : Extractor.Extractor) → Extractor.Step c x y → Sound c x → Sound c y
Step-Sound c _ _ (Extractor.arrives x now) s = arrive-Sound c now x s
Step-Sound c _ _ (Extractor.acquires before after q x y now permits starts stage place h e) s =
    after_grant-Sound c before after q (Extractor.take_permit c now starts q.was_probe x) y
      (take_permit-GrantHolds c now permits starts q.was_probe x h s) e
Step-Sound c _ _ (Extractor.misses_capacity before after q x now stage place) s = record {
  permits = s.permits;
  runtimes = s.runtimes;
}
Step-Sound c _ _ (Extractor.cancels_queued before after q x stage place) s = record {
  permits = s.permits;
  runtimes = s.runtimes;
}
Step-Sound c _ _ (Extractor.ends before after q x now ending stage place) s = record {
  permits = s.permits;
  runtimes = s.runtimes;
}
Step-Sound c _ _ (Extractor.worker_ends x workers h) s =
    let p = s.permits in
    let r = s.runtimes in record { permits = omega arith; runtimes = omega arith }
Step-Sound c _ _ (Extractor.closes x) s = record { permits = s.permits; runtimes = s.runtimes }
Step-Sound c _ _ (Extractor.drains x permits closed h) s =
    let p = s.permits in record { permits = omega arith; runtimes = s.runtimes }

Reachable-Sound : (c : Config) (x : Extractor.Extractor) → Extractor.Reachable c x → Sound c x
unfolding Extractor.new_extractor
Reachable-Sound c _ Extractor.begins = record { permits = omega arith; runtimes = omega arith }
Reachable-Sound c _ (Extractor.goes_on x y r e) = Step-Sound c x y e (Reachable-Sound c x r)

-- In every state that an extractor comes to, at most `max_concurrency` workers are alive, also where
-- requests have timed out or were cancelled; and a request that gets a permit finds a runtime.
pub Reachable-workers :
    (c : Config) (x : Extractor.Extractor)
    → Extractor.Reachable c x
    → (x.workers ≤ c.max_concurrency)
      × ((now permits : ℕ) (starts was_probe : Bool)
          → x.permits ≡ suc permits
          → Extractor.take_permit c now starts was_probe x ≡ Extractor.no_runtime
          → ⊥)
Reachable-workers c x r =
    let s = Reachable-Sound c x r in
    (
      (let p = s.runtimes in omega arith),
      λ now permits starts was_probe h e.
          subst (GrantHolds c) e (take_permit-GrantHolds c now permits starts was_probe x h s),
    )
