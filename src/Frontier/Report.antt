-- ===== src/Frontier/Report.antt =====
-- app/services/frontier.py: `succeed`, `fail` with its retry delay, and `cancel_pending`.
use clusy_crawler.Base.{
  ℕ, ◌+◌, ◌-◌, ◌*◌, ◌^◌, Bool, true, false, not, ◌&&◌, Option, none, some, Text, text_eq, leb, ◌==◌,
  if◌then◌else◌, min, max, ℤ, pos_part, Float, finite, not_finite, non_negative, length, strip, [],
  ◌∷◌,
}
use clusy_crawler.Base.Dict.{get, put}
use clusy_crawler.Frontier.Types.{
  text_key, Entry, Frontier, FrontierConfig, FrontierLease, FrontierRecord, FrontierState,
  in_flight, snapshot, FailureResult, TerminalReason, succeeded, retry_exhausted, cancelled,
  Outcome, returned, raised, value_error, stale_lease,
}
use clusy_crawler.Frontier.Queue.{enqueue, terminated, terminate, terminate_pending, or_new_host}

abbrev pub is_in_flight : FrontierState → Bool
is_in_flight in_flight = true
is_in_flight _ = false

-- The test of `_resolve_lease` on an entry that is there.
abbrev pub holds : FrontierLease → Entry → Bool
holds lease e = is_in_flight e.state && (e.attempts == lease.attempt && text_eq e.host lease.host)

-- `_resolve_lease`: `none` is its `StaleLeaseError`.
unfoldable pub resolve_lease : FrontierLease → Frontier → Option Entry
unfolding text_eq
resolve_lease lease f = elim (get lease.url f.entries) [
  | none ↦ none
  | some e ↦ if holds lease e then some e else none
]

unfoldable pub succeed : FrontierLease → Frontier → Outcome FrontierRecord × Frontier
unfolding resolve_lease terminate snapshot
succeed lease f = elim (resolve_lease lease f) [
  | none ↦ (raised stale_lease, f)
  | some e ↦ (returned (snapshot (terminated succeeded e)), terminate lease.url e succeeded f)
]

-- The value of a decimal digit of any script, as Python knows them.
abbrev pub DecimalDigits : Type 0
DecimalDigits = ℕ → Option ℕ

-- The `Retry-After` value that a caller passes: `str | int | float | bool | None`.
pub data RetryAfter : Type 0 where
  absent : RetryAfter
  boolean : Bool → RetryAfter
  number : Float → RetryAfter
  header : DecimalDigits → Text → RetryAfter

-- The seconds from `wall_now` to the date that `parsedate_to_datetime` reads, where it reads one.
abbrev pub DateParser : Type 0
DateParser = Text → Option ℤ

-- One second in the model's unit.
abbrev pub second : ℕ
second = 1000000

-- The value of a text with `s.isdecimal()`, `none` for another text.
unfoldable pub decimals : DecimalDigits → ℕ → Text → Option ℕ
decimals digit n [] = some n
decimals digit n (c ∷ s) = elim (digit c) [ none ↦ none | some d ↦ decimals digit (n * 10 + d) s ]

abbrev pub decimal_value : DecimalDigits → Text → Option ℕ
decimal_value digit [] = none
decimal_value digit (c ∷ s) = decimals digit 0 (c ∷ s)

-- `_retry_after_seconds`; `wall_now` is the parser, absent where it is `None`.
unfoldable pub retry_after_seconds : ℕ → RetryAfter → Option DateParser → Option ℕ
unfolding strip decimals
retry_after_seconds max_delay absent wall_now = none
retry_after_seconds max_delay (boolean b) wall_now = none
retry_after_seconds max_delay (number not_finite) wall_now = none
retry_after_seconds max_delay (number (finite z)) wall_now = some (min max_delay (pos_part z))
retry_after_seconds max_delay (header digit value) wall_now =
    elim (decimal_value digit (strip value)) [
      | some n ↦ some (min max_delay (n * second))
      | none ↦ elim wall_now [
        | none ↦ none
        | some parse ↦ elim (parse (strip value)) [
          | none ↦ none
          | some z ↦ some (min max_delay (pos_part z))
        ]
      ]
    ]

abbrev pub or_zero : Option ℕ → ℕ
or_zero none = 0
or_zero (some n) = n

-- The delay before attempt `attempts + 1`.
unfoldable pub retry_delay : FrontierConfig → ℕ → Option ℕ → ℕ
retry_delay c attempts retry_after =
    let backoff = min c.max_retry_delay_s (c.retry_backoff_base_s * 2 ^ min (attempts - 1) 62) in
    min c.max_retry_delay_s (max backoff (or_zero retry_after))

-- `host_state.next_allowed_at = max(...)` where the origin asked for a pause.
unfoldable pub pause_host : Entry → ℕ → Option ℕ → Frontier → Frontier
pause_host e now none f = f
pause_host e now (some pause) f =
    let s = or_new_host (get e.host f.hosts) in
    record f {
      hosts =
          put e.host
            (record s {
              next_allowed_at = max s.next_allowed_at (now + min pause f.config.max_retry_delay_s);
            })
            f.hosts;
    }

abbrev pub is_succeeded : TerminalReason → Bool
is_succeeded succeeded = true
is_succeeded _ = false

-- The end of `fail`: the retry is scheduled.
unfoldable pub schedule_retry :
    Text → Entry → ℕ → Option ℕ → Frontier → Outcome FailureResult × Frontier
unfolding retry_delay pause_host enqueue
schedule_retry url e now pause f =
    let ready_at = now + retry_delay f.config e.attempts pause in
    let f' = pause_host e now pause f in
    (
      returned
          (record { retry_scheduled = true; ready_at = some ready_at; terminal_reason = none }),
      enqueue url e ready_at (record f' { retries_scheduled = f'.retries_scheduled + 1 }),
    )

abbrev pub ended : TerminalReason → FailureResult
ended reason = record { retry_scheduled = false; ready_at = none; terminal_reason = some reason }

-- `fail` once `now` has passed its test and the lease is resolved.
unfoldable pub fail_entry :
    Text
    → Entry
    → ℕ
    → Bool
    → RetryAfter
    → Option DateParser
    → TerminalReason
    → Frontier
    → Outcome FailureResult × Frontier
unfolding schedule_retry terminate retry_after_seconds
fail_entry url e now retryable retry_after wall_now reason f =
    if not retryable
    then (if is_succeeded reason
        then (raised value_error, f)
        else (returned (ended reason), terminate url e reason f))
    else if leb f.config.max_attempts_per_url e.attempts
    then (returned (ended retry_exhausted), terminate url e retry_exhausted f)
    else schedule_retry url e now
        (retry_after_seconds f.config.max_retry_delay_s retry_after wall_now) f

unfoldable pub fail :
    FrontierLease
    → Float
    → Bool
    → RetryAfter
    → Option DateParser
    → TerminalReason
    → Frontier
    → Outcome FailureResult × Frontier
unfolding resolve_lease fail_entry
fail lease now retryable retry_after wall_now reason f = elim (non_negative now) [
  | none ↦ (raised value_error, f)
  | some t ↦ elim (resolve_lease lease f) [
    | none ↦ (raised stale_lease, f)
    | some e ↦ fail_entry lease.url e t retryable retry_after wall_now reason f
  ]
]

-- `cancel_pending`: the number of entries that it ended.
unfoldable pub cancel_pending : Frontier → ℕ × Frontier
unfolding terminate_pending
cancel_pending f =
    let f' = terminate_pending none cancelled f in
    (length f'.terminal_reasons - length f.terminal_reasons, f')
