-- ===== src/Frontier/Types.antt =====
-- app/services/frontier.py: the enumerations, the configuration, the records and the frontier's
-- state. Times are naturals of one small unit; a `Counter` is the list of what it counted.
use clusy_crawler.Base.{
  ℕ, zero, suc, ◌*◌, ◌≡◌, ◌↔◌, Bool, true, false, ◌&&◌, Option, none, some, List, [], arith, Text,
  text_eq, text_eq_iff, ℤ, pos, negsuc, ltb, if◌then◌else◌, Float, non_negative,
}
use clusy_crawler.Base.Dict.{Eq}

instance abbrev pub text_key : Eq Text
text_key = record { beq = text_eq; beq_iff = text_eq_iff }

abbrev pub pair_eq : Text × Text → Text × Text → Bool
pair_eq (a, b) (c, d) = text_eq a c && text_eq b d

pub pair_eq_iff : (p q : Text × Text) → (pair_eq p q ≡ true) ↔ (p ≡ q)
pair_eq_iff (a, b) (c, d) = ground (arith, text_eq_iff a c, text_eq_iff b d)

instance abbrev pub pair_key : Eq (Text × Text)
pair_key = record { beq = pair_eq; beq_iff = pair_eq_iff }

pub data RejectionReason : Type 0 where
  duplicate invalid_url unsupported_scheme userinfo_not_allowed off_site : RejectionReason
  depth_budget global_url_budget host_url_budget path_too_deep trap_repeated_path : RejectionReason
  trap_query_parameters trap_query_variants trap_facets trap_calendar trap_session : RejectionReason

pub data FrontierState : Type 0 where
  queued retry_wait in_flight terminal : FrontierState

pub data TerminalReason : Type 0 where
  succeeded permanent_failure retry_exhausted global_fetch_budget : TerminalReason
  host_fetch_budget robots_disallowed content_rejected cancelled : TerminalReason

-- The arguments of `FrontierConfig(...)`, before `__post_init__` has seen them.
pub record ConfigArguments : Type 0 where
  pub max_depth : ℤ
  pub max_urls : ℤ
  pub max_urls_per_host : ℤ
  pub max_fetch_attempts : Option ℤ
  pub max_fetch_attempts_per_host : Option ℤ
  pub max_attempts_per_url : ℤ
  pub allow_subdomains : Bool
  pub host_delay_s : Float
  pub retry_backoff_base_s : Float
  pub max_retry_delay_s : Float
  pub max_url_length : ℤ
  pub max_path_segments : ℤ
  pub max_repeated_path_segment : ℤ
  pub max_query_parameters : ℤ
  pub max_repeated_query_key : ℤ
  pub max_query_variants_per_path : ℤ
  pub max_facet_parameters : ℤ
  pub max_calendar_variants_per_pattern : ℤ
  pub min_calendar_year : ℕ
  pub max_calendar_year : ℕ

pub record FrontierConfig : Type 0 where
  pub max_depth : ℕ
  pub max_urls : ℕ
  pub max_urls_per_host : ℕ
  pub max_fetch_attempts : Option ℕ
  pub max_fetch_attempts_per_host : Option ℕ
  pub max_attempts_per_url : ℕ
  pub allow_subdomains : Bool
  pub host_delay_s : ℕ
  pub retry_backoff_base_s : ℕ
  pub max_retry_delay_s : ℕ
  pub max_url_length : ℕ
  pub max_path_segments : ℕ
  pub max_repeated_path_segment : ℕ
  pub max_query_parameters : ℕ
  pub max_repeated_query_key : ℕ
  pub max_query_variants_per_path : ℕ
  pub max_facet_parameters : ℕ
  pub max_calendar_variants_per_pattern : ℕ
  pub min_calendar_year : ℕ
  pub max_calendar_year : ℕ

infixl 5 ◌>>=◌
abbrev ◌>>=◌ {ℓ κ} : {A : Type ℓ} {B : Type κ} → Option A → (A → Option B) → Option B
none >>= f = none
some a >>= f = f a

-- `if value <= 0: raise ValueError`
abbrev positive : ℤ → Option ℕ
positive (pos zero) = none
positive (pos (suc n)) = some (suc n)
positive (negsuc n) = none

-- The same of a field that may be `None`.
abbrev optional_positive : Option ℤ → Option (Option ℕ)
optional_positive none = some none
optional_positive (some z) = do n ← positive z; some (some n)

abbrev non_negative_int : ℤ → Option ℕ
non_negative_int (pos n) = some n
non_negative_int (negsuc n) = none

-- `FrontierConfig.__post_init__`: `none` is its `ValueError`.
unfoldable pub post_init : ConfigArguments → Option FrontierConfig
post_init c = do
  urls ← positive c.max_urls
  urls_per_host ← positive c.max_urls_per_host
  attempts_per_url ← positive c.max_attempts_per_url
  url_length ← positive c.max_url_length
  path_segments ← positive c.max_path_segments
  repeated_path_segment ← positive c.max_repeated_path_segment
  query_parameters ← positive c.max_query_parameters
  repeated_query_key ← positive c.max_repeated_query_key
  query_variants ← positive c.max_query_variants_per_path
  facet_parameters ← positive c.max_facet_parameters
  calendar_variants ← positive c.max_calendar_variants_per_pattern
  fetch_attempts ← optional_positive c.max_fetch_attempts
  fetch_attempts_per_host ← optional_positive c.max_fetch_attempts_per_host
  depth ← non_negative_int c.max_depth
  host_delay ← non_negative c.host_delay_s
  retry_backoff_base ← non_negative c.retry_backoff_base_s
  retry_delay ← non_negative c.max_retry_delay_s
  if ltb c.max_calendar_year c.min_calendar_year
      then none
      else some (record {
        max_depth = depth;
        max_urls = urls;
        max_urls_per_host = urls_per_host;
        max_fetch_attempts = fetch_attempts;
        max_fetch_attempts_per_host = fetch_attempts_per_host;
        max_attempts_per_url = attempts_per_url;
        allow_subdomains = c.allow_subdomains;
        host_delay_s = host_delay;
        retry_backoff_base_s = retry_backoff_base;
        max_retry_delay_s = retry_delay;
        max_url_length = url_length;
        max_path_segments = path_segments;
        max_repeated_path_segment = repeated_path_segment;
        max_query_parameters = query_parameters;
        max_repeated_query_key = repeated_query_key;
        max_query_variants_per_path = query_variants;
        max_facet_parameters = facet_parameters;
        max_calendar_variants_per_pattern = calendar_variants;
        min_calendar_year = c.min_calendar_year;
        max_calendar_year = c.max_calendar_year;
      })

unfoldable pub global_fetch_limit : FrontierConfig → ℕ
global_fetch_limit c = elim c.max_fetch_attempts [
  | some n ↦ n
  | none ↦ c.max_urls * c.max_attempts_per_url
]

unfoldable pub host_fetch_limit : FrontierConfig → ℕ
host_fetch_limit c = elim c.max_fetch_attempts_per_host [
  | some n ↦ n
  | none ↦ c.max_urls_per_host * c.max_attempts_per_url
]

pub record AdmissionResult : Type 0 where
  pub accepted : Bool
  pub url : Option Text
  pub reason : Option RejectionReason
  pub reprioritized : Bool

pub record FrontierLease : Type 0 where
  pub url : Text
  pub host : Text
  pub depth : ℕ
  pub priority : ℤ
  pub attempt : ℕ
  pub parent_url : Option Text

pub record FrontierRecord : Type 0 where
  pub url : Text
  pub host : Text
  pub depth : ℕ
  pub priority : ℤ
  pub state : FrontierState
  pub attempts : ℕ
  pub ready_at : ℕ
  pub parent_url : Option Text
  pub terminal_reason : Option TerminalReason
  pub order : ℕ

pub record FailureResult : Type 0 where
  pub retry_scheduled : Bool
  pub ready_at : Option ℕ
  pub terminal_reason : Option TerminalReason

pub record Entry : Type 0 where
  pub url : Text
  pub host : Text
  pub path : Text
  pub query : Text
  pub depth : ℕ
  pub priority : ℤ
  pub parent_url : Option Text
  pub order : ℕ
  pub state : FrontierState
  pub attempts : ℕ
  pub ready_at : ℕ
  pub generation : ℕ
  pub terminal_reason : Option TerminalReason

unfoldable pub snapshot : Entry → FrontierRecord
snapshot e = record {
  url = e.url;
  host = e.host;
  depth = e.depth;
  priority = e.priority;
  state = e.state;
  attempts = e.attempts;
  ready_at = e.ready_at;
  parent_url = e.parent_url;
  terminal_reason = e.terminal_reason;
  order = e.order;
}

-- `state in {QUEUED, RETRY_WAIT}`
abbrev pub is_pending : FrontierState → Bool
is_pending queued = true
is_pending retry_wait = true
is_pending in_flight = false
is_pending terminal = false

-- `_WaitingHeapItem` and `_ReadyHeapItem`, the latter with the priority before its negation.
pub record WaitingHeapItem : Type 0 where
  pub ready_at : ℕ
  pub order : ℕ
  pub generation : ℕ
  pub url : Text

pub record ReadyHeapItem : Type 0 where
  pub priority : ℤ
  pub order : ℕ
  pub generation : ℕ
  pub url : Text

-- `_HostState`; each heap is the list of its items in the order in which they are popped.
pub record HostState : Type 0 where
  pub waiting : List WaitingHeapItem
  pub ready : List ReadyHeapItem
  pub next_allowed_at : ℕ
  pub last_served_turn : ℤ
  pub admitted : ℕ
  pub fetches : ℕ

abbrev pub new_host : HostState
new_host = record {
  waiting = [];
  ready = [];
  next_allowed_at = 0;
  last_served_turn = negsuc 0;
  admitted = 0;
  fetches = 0;
}

-- `CrawlFrontier`'s attributes. A key that a `defaultdict` lacks and one with an empty set are the
-- same to all of its code.
pub record Frontier : Type 0 where
  pub config : FrontierConfig
  pub roots : List Text
  pub entries : List (Text × Entry)
  pub hosts : List (Text × HostState)
  pub path_query_variants : List ((Text × Text) × List Text)
  pub calendar_variants : List ((Text × Text) × List Text)
  pub rejection_reasons : List RejectionReason
  pub terminal_reasons : List TerminalReason
  pub admission_attempts : ℕ
  pub admitted : ℕ
  pub duplicates : ℕ
  pub claimed : ℕ
  pub retries_scheduled : ℕ
  pub order : ℕ
  pub turn : ℕ

-- What an operation does: it returns, or it raises. The state that it leaves stands beside.
pub data Error : Type 0 where
  value_error type_error key_error canonicalization_error index_error stale_lease assertion_error :
      Error

pub data Outcome (A : Type 0) : Type 0 where
  returned : A → Outcome A
  raised : Error → Outcome A
