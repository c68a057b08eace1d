-- ===== src/Frontier/Lifecycle.antt =====
-- app/services/frontier.py: what holds of entries, leases and hosts through any history of calls.
use clusy_crawler.Base.{
  ℕ, ◌≤◌, ◌≡◌, ◌∙◌, subst, sym, inl, inr, Option, none, some, Bool, true, false, List, arith, Text,
  Bool-cases, Option-cases, leb, of_some_eq, Float, finite, pos, non_negative,
}
use clusy_crawler.Base.Dict.{get, get-put_self}
use clusy_crawler.Url.Split.{Platform}
use clusy_crawler.Frontier.Types.{
  text_key, Entry, Frontier, FrontierLease, FrontierRecord, FailureResult, TerminalReason,
  in_flight, terminal, returned, raised, stale_lease, succeeded, retry_exhausted,
}
use clusy_crawler.Frontier.Queue.{enqueue, enqueued, terminate, terminated}
use clusy_crawler.Frontier.Report.{
  succeed, fail, fail_entry, schedule_retry, resolve_lease, RetryAfter, DateParser, is_succeeded,
}
use clusy_crawler.Frontier.Run.{Call, run}
use clusy_crawler.Frontier.Sound.{Sound}
use clusy_crawler.Frontier.History.{Evolves}
use clusy_crawler.Frontier.Calls.{
  run-Evolves, resolve_lease-Resolved, succeed-Evolves, fail-Evolves,
}

-- Once an entry is terminal, no later history of calls changes anything of it.
pub terminal_forever :
    (p : Platform) (cs : List Call) (f : Frontier) (url : Text) (e : Entry)
    → Sound f
    → get url f.entries ≡ some e
    → e.state ≡ terminal
    → get url (run p cs f).entries ≡ some e
terminal_forever p cs f url e v q t =
    let (e', q', l) = (run-Evolves p cs f v).entries url e q in rw (← l.final t) q'

-- The attempt of a lease is over: a later one has begun, or its entry is no more in flight.
abbrev pub Spent : FrontierLease → Frontier → Type 0
Spent lease f =
    (e : Entry) × (get lease.url f.entries ≡ some e)
    × (lease.attempt ≤ e.attempts)
    × (e.attempts ≡ lease.attempt → e.state ≡ in_flight → ⊥)

Spent-later : (lease : FrontierLease) (f g : Frontier) → Evolves f g → Spent lease f → Spent lease g
Spent-later lease f g m (e, q, a, n) =
    let (e', q', l) = m.entries lease.url e q in
    (
      e',
      q',
      omega arith,
      λ s i.
          let same : e.attempts ≡ lease.attempt = omega arith in
          n same (l.claimed_anew (omega arith) i),
    )

Spent-resolve_lease :
    (lease : FrontierLease) (f : Frontier) → Spent lease f → resolve_lease lease f ≡ none
Spent-resolve_lease lease f (e, q, a, n) = elim (Option-cases (resolve_lease lease f)) [
  | inl h ↦ h
  | inr (x, h) ↦
      let r = resolve_lease-Resolved lease f x h in
      let same : x ≡ e = of_some_eq (sym r.entry ∙ q) in
      absurd (
        n (subst (λ u. u.attempts ≡ lease.attempt) same r.same_attempt)
          (subst (λ u. u.state ≡ in_flight) same r.flying))
]

succeed-Spent :
    (lease : FrontierLease) (f : Frontier) (r : FrontierRecord)
    → (succeed lease f).0 ≡ returned r
    → Spent lease (succeed lease f).1
unfolding succeed terminate terminated
succeed-Spent lease f r h = elim (Option-cases (resolve_lease lease f)) [
  | inl q ↦ absurd (cc (rw (q, succeed) at h))
  | inr (e, q) ↦
      let z = resolve_lease-Resolved lease f e q in
      rw (q, succeed)
        (
          terminated succeeded e,
          get-put_self lease.url (terminated succeeded e) f.entries,
          omega arith,
          λ s i. ground arith,
        )
]

fail_entry-Spent :
    (lease : FrontierLease) (e : Entry) (now : ℕ) (retryable : Bool) (retry_after : RetryAfter)
    (wall_now : Option DateParser) (reason : TerminalReason) (f : Frontier) (r : FailureResult)
    → e.attempts ≡ lease.attempt
    → (fail_entry lease.url e now retryable retry_after wall_now reason f).0 ≡ returned r
    → Spent lease (fail_entry lease.url e now retryable retry_after wall_now reason f).1
unfolding fail_entry terminate terminated schedule_retry enqueue enqueued
fail_entry-Spent lease e now false retry_after wall_now reason f r a h =
    elim (Bool-cases (is_succeeded reason)) [
      | inl s ↦ absurd (cc (rw s at h))
      | inr s ↦ rw s (
        terminated reason e,
        get-put_self lease.url (terminated reason e) f.entries,
        omega arith,
        λ n i. ground arith,
      )
    ]
fail_entry-Spent lease e now true retry_after wall_now reason f r a h =
    elim (Bool-cases (leb f.config.max_attempts_per_url e.attempts)) [
      | inl s ↦ rw s (
        terminated retry_exhausted e,
        get-put_self lease.url (terminated retry_exhausted e) f.entries,
        omega arith,
        λ n i. ground arith,
      )
      | inr s ↦
          rw s (
            enqueued e _,
            get-put_self lease.url (enqueued e _) _,
            omega arith,
            λ n i. ground arith,
          )
    ]

fail-Spent :
    (lease : FrontierLease) (now : Float) (retryable : Bool) (retry_after : RetryAfter)
    (wall_now : Option DateParser) (reason : TerminalReason) (f : Frontier) (r : FailureResult)
    → (fail lease now retryable retry_after wall_now reason f).0 ≡ returned r
    → Spent lease (fail lease now retryable retry_after wall_now reason f).1
unfolding fail
fail-Spent lease now retryable retry_after wall_now reason f r h =
    elim (Option-cases (non_negative now)) [
      | inl q ↦ absurd (cc (rw (q, fail) at h))
      | inr (t, q) ↦ elim (Option-cases (resolve_lease lease f)) [
        | inl n ↦ absurd (cc (rw (q, n, fail) at h))
        | inr (e, n) ↦
            let z = resolve_lease-Resolved lease f e n in
            rw (q, n, fail)
              (fail_entry-Spent lease e t retryable retry_after wall_now reason f r z.same_attempt
                (rw (q, n, fail) at h))
      ]
    ]

-- Both completions raise `StaleLeaseError` and leave the state as it is.
abbrev pub IsStale : FrontierLease → Frontier → Type 0
IsStale lease g =
    (succeed lease g ≡ (raised stale_lease, g))
    × ((t : ℕ) (retryable : Bool) (retry_after : RetryAfter) (wall_now : Option DateParser)
          (reason : TerminalReason)
        → fail lease (finite (pos t)) retryable retry_after wall_now reason g
          ≡ (raised stale_lease, g))

Spent-IsStale : (lease : FrontierLease) (g : Frontier) → Spent lease g → IsStale lease g
unfolding succeed fail
Spent-IsStale lease g spent =
    let stale = Spent-resolve_lease lease g spent in
    (rw (stale, succeed), λ t retryable retry_after wall_now reason. rw (stale, fail))

-- A lease completes at most once: after a `succeed` that returned, the lease is stale in every
-- later history, so that `succeed` and `fail` with it raise and change nothing.
pub succeed_once :
    (p : Platform) (cs : List Call) (lease : FrontierLease) (f : Frontier) (r : FrontierRecord)
    → Sound f
    → (succeed lease f).0 ≡ returned r
    → IsStale lease (run p cs (succeed lease f).1)
succeed_once p cs lease f r v h =
    let g = (succeed lease f).1 in
    let later = run-Evolves p cs g (succeed-Evolves lease f v).linked in
    Spent-IsStale lease (run p cs g)
      (Spent-later lease g (run p cs g) later (succeed-Spent lease f r h))

-- The same after a `fail` that returned, also where it scheduled a retry.
pub fail_once :
    (p : Platform) (cs : List Call) (lease : FrontierLease) (now : Float) (retryable : Bool)
    (retry_after : RetryAfter) (wall_now : Option DateParser) (reason : TerminalReason)
    (f : Frontier) (r : FailureResult)
    → Sound f
    → (fail lease now retryable retry_after wall_now reason f).0 ≡ returned r
    → IsStale lease (run p cs (fail lease now retryable retry_after wall_now reason f).1)
fail_once p cs lease now retryable retry_after wall_now reason f r v h =
    let g = (fail lease now retryable retry_after wall_now reason f).1 in
    let later =
      run-Evolves p cs g
        (fail-Evolves lease now retryable retry_after wall_now reason f v).linked in
    Spent-IsStale lease (run p cs g) (
      Spent-later lease g (run p cs g) later
        (fail-Spent lease now retryable retry_after wall_now reason f r h))
