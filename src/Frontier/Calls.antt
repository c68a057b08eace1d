-- ===== src/Frontier/Calls.antt =====
-- app/services/frontier.py: `succeed`, `fail` and `cancel_pending` keep the references
-- sound and only move entries and hosts forward; so does any sequence of calls.
use clusy_crawler.Base.{
  ℕ, ◌+◌, ◌≡◌, refl, inl, inr, Option, none, some, Bool, true, false, List, [], ◌∷◌, arith, Text,
  Bool-cases, Option-cases, leb, min, max, text_eq_iff, Float, non_negative,
}
use clusy_crawler.Base.Dict.{get}
use clusy_crawler.Url.Split.{Platform}
use clusy_crawler.Frontier.Types.{
  text_key, pair_key, Entry, Frontier, FrontierLease, TerminalReason, in_flight, cancelled,
  succeeded, retry_exhausted,
}
use clusy_crawler.Frontier.Queue.{or_new_host}
use clusy_crawler.Frontier.Claim.{claim}
use clusy_crawler.Frontier.Report.{
  resolve_lease, succeed, fail, fail_entry, schedule_retry, pause_host, retry_delay, cancel_pending,
  RetryAfter, DateParser, is_succeeded,
}
use clusy_crawler.Frontier.Run.{
  Call, admits, claims, succeeds, fails, cancels, asks_wake, step, run,
}
use clusy_crawler.Frontier.Later.{EntriesLater-trans, IsOpen, enqueued-Later, HostsLater-trans}
use clusy_crawler.Frontier.Sound.{Sound, host_known}
use clusy_crawler.Frontier.Admitting.{admit-Evolves}
use clusy_crawler.Frontier.History.{
  Evolves, Evolves-refl, Evolves-trans, enqueue-Evolves, put_host-Evolves, terminate-Evolves,
  terminate_pending-Evolves, claim_at-Evolves,
}
use clusy_crawler.Frontier.Waking.{next_wake_at-Evolves}

-- The entry of a lease that resolves is in flight.
pub record Resolved (lease : FrontierLease) (f : Frontier) (e : Entry) : Type 0 where
  pub entry : get lease.url f.entries ≡ some e
  pub flying : e.state ≡ in_flight
  pub same_attempt : e.attempts ≡ lease.attempt
  pub same_host : e.host ≡ lease.host

pub resolve_lease-Resolved :
    (lease : FrontierLease) (f : Frontier) (e : Entry)
    → resolve_lease lease f ≡ some e
    → Resolved lease f e
unfolding resolve_lease
resolve_lease-Resolved lease f e h = record {
  entry = ground arith;
  flying = ground arith;
  same_attempt = ground arith;
  same_host = ground (arith, text_eq_iff e.host lease.host);
}

Resolved-IsOpen : (lease : FrontierLease) (f : Frontier) (e : Entry) → Resolved lease f e → IsOpen e
Resolved-IsOpen lease f e r t = ground arith

pub succeed-Evolves :
    (lease : FrontierLease) (f : Frontier) → Sound f → Evolves f (succeed lease f).1
unfolding succeed
succeed-Evolves lease f v = elim (Option-cases (resolve_lease lease f)) [
  | inl q ↦ rw (q, succeed) (Evolves-refl f v)
  | inr (e, q) ↦
      let r = resolve_lease-Resolved lease f e q in
      rw (q, succeed)
        (terminate-Evolves lease.url e succeeded f v r.entry (Resolved-IsOpen lease f e r))
]

pause_host-Evolves :
    (e : Entry) (now : ℕ) (pause : Option ℕ) (f : Frontier)
    → Sound f
    → Evolves f (pause_host e now pause f)
unfolding pause_host
pause_host-Evolves e now none f v = Evolves-refl f v
pause_host-Evolves e now (some pause) f v =
    let s = or_new_host (get e.host f.hosts) in
    let k = host_known f.entries e.host f.hosts (get e.host f.hosts) v.known refl in
    put_host-Evolves e.host
      (record s {
        next_allowed_at = max s.next_allowed_at (now + min pause f.config.max_retry_delay_s);
      })
      f v (record { waiting = k.waiting; ready = k.ready }) (λ s' q. rw q (omega arith))

pause_host-entries :
    (e : Entry) (now : ℕ) (pause : Option ℕ) (f : Frontier)
    → (pause_host e now pause f).entries ≡ f.entries
unfolding pause_host
pause_host-entries e now none f = refl
pause_host-entries e now (some pause) f = refl

schedule_retry-Evolves :
    (url : Text) (e : Entry) (now : ℕ) (pause : Option ℕ) (f : Frontier)
    → Sound f
    → get url f.entries ≡ some e
    → IsOpen e
    → Evolves f (schedule_retry url e now pause f).1
unfolding schedule_retry
schedule_retry-Evolves url e now pause f v q o =
    let f' = pause_host e now pause f in
    let paused = pause_host-Evolves e now pause f v in
    let queued =
      enqueue-Evolves url e e (now + retry_delay f.config e.attempts pause)
        (record f' { retries_scheduled = f'.retries_scheduled + 1 }) paused.linked
        (rw (pause_host-entries e now pause f) q) (enqueued-Later e _ o) in
    record {
      linked = queued.linked;
      entries = EntriesLater-trans _ _ _ paused.entries queued.entries;
      hosts = HostsLater-trans _ _ _ paused.hosts queued.hosts;
    }

fail_entry-Evolves :
    (url : Text) (e : Entry) (now : ℕ) (retryable : Bool) (retry_after : RetryAfter)
    (wall_now : Option DateParser) (reason : TerminalReason) (f : Frontier)
    → Sound f
    → get url f.entries ≡ some e
    → IsOpen e
    → Evolves f (fail_entry url e now retryable retry_after wall_now reason f).1
unfolding fail_entry
fail_entry-Evolves url e now false retry_after wall_now reason f v q o =
    elim (Bool-cases (is_succeeded reason)) [
      | inl a ↦ rw a (Evolves-refl f v)
      | inr a ↦ rw a (terminate-Evolves url e reason f v q o)
    ]
fail_entry-Evolves url e now true retry_after wall_now reason f v q o =
    elim (Bool-cases (leb f.config.max_attempts_per_url e.attempts)) [
      | inl a ↦ rw a (terminate-Evolves url e retry_exhausted f v q o)
      | inr a ↦ rw a (schedule_retry-Evolves url e now _ f v q o)
    ]

pub fail-Evolves :
    (lease : FrontierLease) (now : Float) (retryable : Bool) (retry_after : RetryAfter)
    (wall_now : Option DateParser) (reason : TerminalReason) (f : Frontier)
    → Sound f
    → Evolves f (fail lease now retryable retry_after wall_now reason f).1
unfolding fail
fail-Evolves lease now retryable retry_after wall_now reason f v =
    elim (Option-cases (non_negative now)) [
      | inl q ↦ rw (q, fail) (Evolves-refl f v)
      | inr (t, q) ↦
          rw (q, fail)
            (elim (Option-cases (resolve_lease lease f)) [
              | inl n ↦ rw (n, fail) (Evolves-refl f v)
              | inr (e, n) ↦
                  let r = resolve_lease-Resolved lease f e n in
                  rw (n, fail)
                    (fail_entry-Evolves lease.url e t retryable retry_after wall_now reason f v
                      r.entry (Resolved-IsOpen lease f e r))
            ])
    ]

cancel_pending-Evolves : (f : Frontier) → Sound f → Evolves f (cancel_pending f).1
unfolding cancel_pending
cancel_pending-Evolves f v = terminate_pending-Evolves none cancelled f v

pub claim-Evolves : (now : Float) (f : Frontier) → Sound f → Evolves f (claim now f).1
unfolding claim
claim-Evolves now f v = elim (Option-cases (non_negative now)) [
  | inl q ↦ rw (q, claim) (Evolves-refl f v)
  | inr (t, q) ↦ rw (q, claim) (claim_at-Evolves t f v)
]

pub step-Evolves : (p : Platform) (c : Call) (f : Frontier) → Sound f → Evolves f (step p c f)
unfolding step
step-Evolves p (admits url depth priority parent_url ready_at) f v =
    admit-Evolves p url depth priority parent_url ready_at f v
step-Evolves p (claims now) f v = claim-Evolves now f v
step-Evolves p (succeeds lease) f v = succeed-Evolves lease f v
step-Evolves p (fails lease now retryable retry_after wall_now reason) f v =
    fail-Evolves lease now retryable retry_after wall_now reason f v
step-Evolves p cancels f v = cancel_pending-Evolves f v
step-Evolves p (asks_wake now) f v = next_wake_at-Evolves now f v

pub run-Evolves : (p : Platform) (cs : List Call) (f : Frontier) → Sound f → Evolves f (run p cs f)
unfolding run
run-Evolves p [] f v = Evolves-refl f v
run-Evolves p (c ∷ cs) f v =
    let first = step-Evolves p c f v in
    Evolves-trans f (step p c f) (run p cs (step p c f)) first
      (run-Evolves p cs (step p c f) first.linked)
