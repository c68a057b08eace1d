-- ===== src/Robots/Policy.antt =====
-- app/services/robots.py: the decisions, `_Policy` and the retrieval of a policy over its redirects.
use clusy_crawler.Base.{
  ℕ, ◌+◌, Bool, true, false, Option, none, some, List, [], ◌∷◌, ◌++◌, Text, ltb, if◌then◌else◌,
  length, ℤ, ltb_ℤ, pos,
}
use clusy_crawler.Url.Split.{Platform}
use clusy_crawler.Robots.Rules.{Rule, evaluate}
use clusy_crawler.Robots.Parse.{ParseLimits}

pub data RobotsDecisionReason : Type 0 where
  allowed_by_rules : RobotsDecisionReason
  explicit_disallow : RobotsDecisionReason
  missing : RobotsDecisionReason
  client_error : RobotsDecisionReason
  transient_client_error : RobotsDecisionReason
  server_error : RobotsDecisionReason
  timeout : RobotsDecisionReason
  network_error : RobotsDecisionReason
  unsafe : RobotsDecisionReason
  response_too_large : RobotsDecisionReason
  too_many_redirects : RobotsDecisionReason
  protocol_error : RobotsDecisionReason
  policy_too_complex : RobotsDecisionReason

pub record RobotsDecision : Type 0 where
  pub allowed : Bool
  pub reason : RobotsDecisionReason
  pub cache_hit : Bool
  pub status_code : ℕ
  pub matched_specificity : ℕ

-- The settings that the retrieval reads.
pub record RobotsPolicyConfig : Type 0 where
  pub max_redirects : ℕ
  pub max_body_bytes : ℕ
  pub max_url_length : ℕ
  pub limits : ParseLimits
  pub cache_ttl_s : ℕ
  pub unavailable_cache_ttl_s : ℕ
  pub error_cache_ttl_s : ℕ
  pub user_agent : Text

pub record Policy : Type 0 where
  pub rules : Option (List Rule)
  pub default_allowed : Bool
  pub reason : RobotsDecisionReason
  pub status_code : ℕ

pub record FetchedPolicy : Type 0 where
  pub policy : Policy
  pub ttl_s : ℕ

abbrev pub ruled : Policy → Bool → Bool × ℕ → RobotsDecision
ruled policy cache_hit (allowed, specificity) = record {
  allowed = allowed;
  reason = if allowed then allowed_by_rules else explicit_disallow;
  cache_hit = cache_hit;
  status_code = policy.status_code;
  matched_specificity = specificity;
}

abbrev pub decided : Policy → Bool → Option (Bool × ℕ) → Option RobotsDecision
decided policy cache_hit none = none
decided policy cache_hit (some answer) = some (ruled policy cache_hit answer)

-- `none` is a `ValueError` of `urlsplit`.
unfoldable pub decide : Platform → Text → Bool → Policy → Option RobotsDecision
unfolding evaluate
decide p url cache_hit policy = elim policy.rules [
  | none ↦ some (record {
    allowed = policy.default_allowed;
    reason = policy.reason;
    cache_hit = cache_hit;
    status_code = policy.status_code;
    matched_specificity = 0;
  })
  | some rules ↦ decided policy cache_hit (evaluate p rules url)
]

unfoldable pub allow_unavailable : RobotsPolicyConfig → RobotsDecisionReason → ℕ → FetchedPolicy
allow_unavailable config reason status_code = record {
  policy = record {
    rules = none;
    default_allowed = true;
    reason = reason;
    status_code = status_code;
  };
  ttl_s = config.unavailable_cache_ttl_s;
}

unfoldable pub deny_error : RobotsPolicyConfig → RobotsDecisionReason → ℕ → FetchedPolicy
deny_error config reason status_code = record {
  policy = record {
    rules = none;
    default_allowed = false;
    reason = reason;
    status_code = status_code;
  };
  ttl_s = config.error_cache_ttl_s;
}

-- What an awaited call raises: the timeout of the retrieval or of the call, an `httpx.HTTPError`, the
-- error of a body that is too large, or any other exception.
pub data Failure : Type 0 where
  timed_out : Failure
  http_error : Failure
  body_too_large : Failure
  other_exception : Failure

pub data Call (A : Type 0) : Type 0 where
  returned : A → Call A
  raised : Failure → Call A

-- A response as the client gives it: `int` of the declared length where there is one and it is a number, and the
-- chunks of the body with the exception that cuts it off, if any does.
pub record Response : Type 0 where
  pub is_peer_refused : Bool
  pub status : ℕ
  pub location : Text
  pub declared : Option ℤ
  pub chunks : List (List ℕ)
  pub broken : Option Failure

-- The calls that the service awaits, at each redirect: whether the validator refuses the URL, the
-- rate limit, and the request. `urljoin` and the decoding of a body are the standard library's.
pub record Web : Type 0 where
  pub validate_url : ℕ → Text → Call Bool
  pub acquire_rate_limit : ℕ → Text → Call (Unit {0})
  pub stream : ℕ → Text → Call Response
  pub urljoin : Text → Text → Option Text
  pub decode : List ℕ → Text

-- The loop over the chunks, with what has been read.
unfoldable pub read_chunks : ℕ → List ℕ → List (List ℕ) → Option Failure → Call (List ℕ)
read_chunks max_bytes body [] none = returned body
read_chunks max_bytes body [] (some failure) = raised failure
read_chunks max_bytes body (chunk ∷ chunks) broken =
    let rest = read_chunks max_bytes (body ++ chunk) chunks broken in
    if ltb max_bytes (length body + length chunk) then raised body_too_large else rest

abbrev pub is_declared_too_large : ℕ → Option ℤ → Bool
is_declared_too_large max_bytes none = false
is_declared_too_large max_bytes (some n) = ltb_ℤ (pos max_bytes) n

unfoldable pub read_success_body : RobotsPolicyConfig → Response → Call (List ℕ)
unfolding read_chunks
read_success_body config response =
    if is_declared_too_large config.max_body_bytes response.declared
    then raised body_too_large
    else read_chunks config.max_body_bytes [] response.chunks response.broken
