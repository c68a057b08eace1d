-- ===== src/Examples/FrontierRuns.antt =====
-- app/services/frontier.py on one small frontier.
use clusy_crawler.Base.{
  ℕ, ◌+◌, ◌≤◌, ◌≡◌, refl, Option, none, some, true, false, List, [], ◌∷◌, Text, codes, text_eq,
  Float, finite, pos, negsuc,
}
use clusy_crawler.Base.Dict.{get, put}
use clusy_crawler.Url.Split.{Platform, lower_all}
use clusy_crawler.Frontier.Types.{
  text_key, pair_key, Entry, Frontier, FrontierConfig, FrontierLease, queued, in_flight, terminal,
  succeeded, returned, WaitingHeapItem, FailureResult, snapshot, permanent_failure,
}
use clusy_crawler.Frontier.Queue.{terminated}
use clusy_crawler.Frontier.Claim.{claim, claimed}
use clusy_crawler.Frontier.Report.{succeed, fail, resolve_lease, absent}
use clusy_crawler.Frontier.Retry.{IsScheduled, fail-IsScheduled}
use clusy_crawler.Frontier.Run.{Call, claims, cancels, run}
use clusy_crawler.Frontier.Sound.{Sound}
use clusy_crawler.Frontier.Lifecycle.{terminal_forever, succeed_once, fail_once, IsStale}
use clusy_crawler.Frontier.Politeness.{
  claim-returned, claim-IsGranted, IsGranted, claims_apart, resolve_lease-claim,
}

-- A platform for hosts and URLs in ASCII and lower case.
abbrev pub ascii : Platform
ascii = record {
  lower = lower_all;
  casefold = lower_all;
  is_netloc_accepted = λ s. true;
  ip_address = λ s. none;
  idna = λ s. some s;
  parse_qsl = λ s. [];
  decimal_digit = λ c. none;
}

abbrev pub config : FrontierConfig
config = record {
  max_depth = 4;
  max_urls = 100;
  max_urls_per_host = 50;
  max_fetch_attempts = none;
  max_fetch_attempts_per_host = none;
  max_attempts_per_url = 3;
  allow_subdomains = false;
  host_delay_s = 10;
  retry_backoff_base_s = 1;
  max_retry_delay_s = 120;
  max_url_length = 8192;
  max_path_segments = 96;
  max_repeated_path_segment = 3;
  max_query_parameters = 24;
  max_repeated_query_key = 6;
  max_query_variants_per_path = 32;
  max_facet_parameters = 8;
  max_calendar_variants_per_pattern = 24;
  min_calendar_year = 1990;
  max_calendar_year = 2100;
}

abbrev pub page : ℕ → Text → Entry
page order url = record {
  url = url;
  host = codes "a.b";
  path = codes "/";
  query = [];
  depth = 0;
  priority = pos 0;
  parent_url = none;
  order = order;
  state = queued;
  attempts = 0;
  ready_at = 0;
  generation = 1;
  terminal_reason = none;
}

abbrev pub first : Text
first = codes "http://a.b/1"

abbrev pub second : Text
second = codes "http://a.b/2"

abbrev pub item : ℕ → Text → WaitingHeapItem
item order url = record { ready_at = 0; order = order; generation = 1; url = url }

-- Two pages of one host, queued.
abbrev pub sample : Frontier
sample = record {
  config = config;
  roots = codes "a.b" ∷ [];
  entries = (first, page 1 first) ∷ (second, page 2 second) ∷ [];
  hosts =
      (
        codes "a.b",
        record {
          waiting = item 1 first ∷ item 2 second ∷ [];
          ready = [];
          next_allowed_at = 0;
          last_served_turn = negsuc 0;
          admitted = 2;
          fetches = 0;
        },
      )
      ∷ [];
  path_query_variants = [];
  calendar_variants = [];
  rejection_reasons = [];
  terminal_reasons = [];
  admission_attempts = 2;
  admitted = 2;
  duplicates = 0;
  claimed = 0;
  retries_scheduled = 0;
  order = 2;
  turn = 0;
}

pub sample-Sound : Sound sample
unfolding get text_eq
sample-Sound = record {
  keyed = (refl, (refl, tt));
  distinct = (refl, tt);
  known = (
    record {
      waiting = ((page 1 first, refl, refl), ((page 2 second, refl, refl), tt));
      ready = tt;
    },
    tt,
  );
}

abbrev pub lease : Text → FrontierLease
lease url = record {
  url = url;
  host = codes "a.b";
  depth = 0;
  priority = pos 0;
  attempt = 1;
  parent_url = none;
}

abbrev at : ℕ → Float
at now = finite (pos now)

-- At time 5 the first page is leased; at 14 the host is still closed, and at 15 the second page is.
claim-first : (claim (at 5) sample).0 ≡ returned (some (lease first))
unfolding claim get put
claim-first = refl

claim_too_soon : (claim (at 14) (claim (at 5) sample).1).0 ≡ returned none
unfolding claim get put
claim_too_soon = refl

claim-second :
    (claim (at 15) (run ascii [] (claim (at 5) sample).1)).0 ≡ returned (some (lease second))
unfolding claim get put run
claim-second = refl

claim-returned_example : (l : Option FrontierLease) × ((claim (at 5) sample).0 ≡ returned l)
claim-returned_example = claim-returned 5 sample sample-Sound

claim-IsGranted_example : IsGranted 5 sample (lease first) (claim (at 5) sample).1
claim-IsGranted_example = claim-IsGranted 5 sample (lease first) sample-Sound claim-first

claims_apart_example : 5 + 10 ≤ 15
claims_apart_example =
    claims_apart ascii [] 5 15 sample (lease first) (lease second) sample-Sound claim-first
      claim-second refl

resolve_lease-claim_example :
    (e : Entry) × (get first sample.entries ≡ some e)
    × (resolve_lease (lease first) (claim (at 5) sample).1 ≡ some (claimed e))
resolve_lease-claim_example = resolve_lease-claim 5 sample (lease first) sample-Sound claim-first

-- The sample with its first page replaced by a version of it on the same host.
abbrev with_first : Entry → Frontier
with_first e = record sample { entries = (first, e) ∷ (second, page 2 second) ∷ [] }

with_first-Sound : (e : Entry) → e.url ≡ first → e.host ≡ codes "a.b" → Sound (with_first e)
unfolding get text_eq
with_first-Sound e u h = record {
  keyed = (u, (refl, tt));
  distinct = (refl, tt);
  known = (record { waiting = ((e, refl, h), ((page 2 second, refl, refl), tt)); ready = tt }, tt);
}

abbrev ended : Entry
ended = record (page 1 first) { state = terminal; attempts = 1; terminal_reason = some succeeded }

abbrev flying : Entry
flying = record (page 1 first) { state = in_flight; attempts = 1 }

abbrev history : List Call
history = claims (at 5) ∷ cancels ∷ []

get-ended : get first (with_first ended).entries ≡ some ended
unfolding get text_eq
get-ended = refl

terminal_forever_example : get first (run ascii history (with_first ended)).entries ≡ some ended
terminal_forever_example =
    terminal_forever ascii history (with_first ended) first ended (with_first-Sound ended refl refl)
      get-ended refl

succeed_flying :
    (succeed (lease first) (with_first flying)).0
    ≡ returned (snapshot (terminated succeeded flying))
unfolding succeed get
succeed_flying = refl

succeed_once_example :
    IsStale (lease first) (run ascii history (succeed (lease first) (with_first flying)).1)
succeed_once_example =
    succeed_once ascii history (lease first) (with_first flying) _
      (with_first-Sound flying refl refl) succeed_flying

fail_flying :
    (fail (lease first) (at 6) true absent none permanent_failure (with_first flying)).0
    ≡ returned (record { retry_scheduled = true; ready_at = some 7; terminal_reason = none })
unfolding fail get
fail_flying = refl

fail_once_example : IsStale (lease first) (
    run ascii history
      (fail (lease first) (at 6) true absent none permanent_failure (with_first flying)).1)
fail_once_example =
    fail_once ascii history (lease first) (at 6) true absent none permanent_failure
      (with_first flying) _ (with_first-Sound flying refl refl) fail_flying

-- The result of `fail` above.
abbrev scheduled : FailureResult
scheduled = record { retry_scheduled = true; ready_at = some 7; terminal_reason = none }

fail-IsScheduled_example :
    (e : Entry) × (resolve_lease (lease first) (with_first flying) ≡ some e)
    × IsScheduled first e 6
        (with_first flying)
        scheduled
        (fail (lease first) (at 6) true absent none permanent_failure (with_first flying)).1
fail-IsScheduled_example =
    fail-IsScheduled (lease first) 6 true absent none permanent_failure (with_first flying)
      scheduled fail_flying refl
