-- ===== src/Frontier/Retry.antt =====
-- app/services/frontier.py: the retries that `fail` schedules.
use clusy_crawler.Base.{
  ℕ, zero, suc, ◌+◌, ◌≤◌, ◌<◌, ◌≡◌, refl, ◌⊎◌, inl, inr, Bool, true, false, Option, none, some,
  List, [], ◌∷◌, arith, Text, finite, pos, Bool-cases, Option-cases, leb,
}
use clusy_crawler.Base.Dict.{get, get-put_self}
use clusy_crawler.Frontier.Types.{
  text_key, Entry, Frontier, FrontierConfig, FrontierLease, FailureResult, TerminalReason, returned,
  HostState, WaitingHeapItem, is_pending,
}
use clusy_crawler.Frontier.Heap.{heappush, push_waiting, waiting_before}
use clusy_crawler.Frontier.Queue.{enqueue, enqueued, or_new_host, state_after_enqueue}
use clusy_crawler.Frontier.Report.{
  resolve_lease, RetryAfter, DateParser, retry_delay, pause_host, schedule_retry, fail_entry, fail,
  is_succeeded,
}

-- An item of a heap.
abbrev pub IsAmong : WaitingHeapItem → List WaitingHeapItem → Type 0
IsAmong i [] = ⊥
IsAmong i (j ∷ h) = (i ≡ j) ⊎ IsAmong i h

heappush-IsAmong :
    (before : WaitingHeapItem → WaitingHeapItem → Bool) (i : WaitingHeapItem)
    (h : List WaitingHeapItem)
    → IsAmong i (heappush before i h)
unfolding heappush
heappush-IsAmong before i [] = inl refl
heappush-IsAmong before i (j ∷ h) = elim (Bool-cases (before j i)) [
  | inl e ↦ rw e (inr (heappush-IsAmong before i h))
  | inr e ↦ rw e (inl refl)
]

state_after_enqueue-pending : (n : ℕ) → is_pending (state_after_enqueue n) ≡ true
state_after_enqueue-pending zero = refl
state_after_enqueue-pending (suc n) = refl

-- The entry is pending with its attempts, of which it has one left, from the time that the result tells on;
-- that time is at most `max_retry_delay_s` away; and the heap of its host has an item for it, with its
-- generation, that gets it claimed.
pub record IsScheduled (url : Text) (e : Entry) (now : ℕ) (f : Frontier) (result : FailureResult)
    (f' : Frontier) : Type 0 where
  pub time : ℕ
  pub told : result.ready_at ≡ some time
  pub early : now ≤ time
  pub late : time ≤ now + f.config.max_retry_delay_s
  pub spare : e.attempts < f.config.max_attempts_per_url
  pub entry : Entry
  pub entry_after : get url f'.entries ≡ some entry
  pub pending : is_pending entry.state ≡ true
  pub at_time : entry.ready_at ≡ time
  pub same_attempts : entry.attempts ≡ e.attempts
  pub host : HostState
  pub host_after : get e.host f'.hosts ≡ some host
  pub waits :
      IsAmong
        (record {
          ready_at = time;
          order = entry.order;
          generation = entry.generation;
          url = entry.url;
        })
        host.waiting
  pub counted : f'.retries_scheduled ≡ f.retries_scheduled + 1

retry_delay-bound :
    (c : FrontierConfig) (attempts : ℕ) (pause : Option ℕ)
    → retry_delay c attempts pause ≤ c.max_retry_delay_s
unfolding retry_delay
retry_delay-bound c attempts pause = omega arith

pause_host-retries :
    (e : Entry) (now : ℕ) (pause : Option ℕ) (f : Frontier)
    → (pause_host e now pause f).retries_scheduled ≡ f.retries_scheduled
unfolding pause_host
pause_host-retries e now none f = refl
pause_host-retries e now (some n) f = refl

-- What `fail` does with an entry in flight that has an attempt left.
schedule_retry-IsScheduled :
    (url : Text) (e : Entry) (now : ℕ) (pause : Option ℕ) (f : Frontier) (result : FailureResult)
    → e.attempts < f.config.max_attempts_per_url
    → (schedule_retry url e now pause f).0 ≡ returned result
    → IsScheduled url e now f result (schedule_retry url e now pause f).1
unfolding schedule_retry enqueue enqueued push_waiting
schedule_retry-IsScheduled url e now pause f result spare h = record {
  time = now + retry_delay f.config e.attempts pause;
  told = cc h;
  early = omega arith;
  late = omega (arith, retry_delay-bound f.config e.attempts pause);
  spare = spare;
  entry = enqueued e (now + retry_delay f.config e.attempts pause);
  entry_after = get-put_self url _ _;
  pending = state_after_enqueue-pending e.attempts;
  at_time = refl;
  same_attempts = refl;
  host = _;
  host_after = get-put_self e.host _ _;
  waits =
      heappush-IsAmong waiting_before
        (record {
          ready_at = now + retry_delay f.config e.attempts pause;
          order = e.order;
          generation = e.generation + 1;
          url = e.url;
        })
        (or_new_host (get e.host (pause_host e now pause f).hosts)).waiting;
  counted = let p = pause_host-retries e now pause f in omega arith;
}

fail_entry-IsScheduled :
    (url : Text) (e : Entry) (now : ℕ) (retryable : Bool) (retry_after : RetryAfter)
    (wall_now : Option DateParser) (reason : TerminalReason) (f : Frontier) (result : FailureResult)
    → (fail_entry url e now retryable retry_after wall_now reason f).0 ≡ returned result
    → result.retry_scheduled ≡ true
    → IsScheduled url e now f result
        (fail_entry url e now retryable retry_after wall_now reason f).1
unfolding fail_entry
fail_entry-IsScheduled url e now false retry_after wall_now reason f result h s =
    elim (Bool-cases (is_succeeded reason)) [
      | inl q ↦ absurd (cc (rw q at h))
      | inr q ↦ absurd (cc (s, rw q at h))
    ]
fail_entry-IsScheduled url e now true retry_after wall_now reason f result h s =
    elim (Bool-cases (leb f.config.max_attempts_per_url e.attempts)) [
      | inl q ↦ absurd (cc (s, rw q at h))
      | inr q ↦ rw q (schedule_retry-IsScheduled url e now _ f result (ground arith) (rw q at h))
    ]

-- If `fail` answers at a finite non-negative time that a retry is scheduled, the lease resolved to an
-- entry with an attempt left; the entry is pending again from the time that is told on, which is from `now`
-- to `now + max_retry_delay_s`; the heap of its host has an item for it at that time, with the entry's
-- generation; and one more retry is counted.
pub fail-IsScheduled :
    (lease : FrontierLease) (now : ℕ) (retryable : Bool) (retry_after : RetryAfter)
    (wall_now : Option DateParser) (reason : TerminalReason) (f : Frontier) (result : FailureResult)
    → (fail lease (finite (pos now)) retryable retry_after wall_now reason f).0 ≡ returned result
    → result.retry_scheduled ≡ true
    → (e : Entry) × (resolve_lease lease f ≡ some e)
      × IsScheduled lease.url e now f result
          (fail lease (finite (pos now)) retryable retry_after wall_now reason f).1
unfolding fail
fail-IsScheduled lease now retryable retry_after wall_now reason f result h s =
    elim (Option-cases (resolve_lease lease f)) [
      | inl q ↦ absurd (cc (rw (q, fail) at h))
      | inr (e, q) ↦ (
        e,
        q,
        rw (q, fail)
            (fail_entry-IsScheduled lease.url e now retryable retry_after wall_now reason f result
              (rw (q, fail) at h) s),
      )
    ]
