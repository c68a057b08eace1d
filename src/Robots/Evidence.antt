-- ===== src/Robots/Evidence.antt =====
-- app/services/robots.py: what a fetched policy rests on, and which URLs are requested for it.
use clusy_crawler.Base.{
  ℕ, ◌+◌, ◌≤◌, ◌<◌, ◌≡◌, refl, sym, subst, ◌⊎◌, inl, inr, false, ◌&&◌, ◌||◌, Option, none, some,
  List, [], ◌∷◌, ◌++◌, arith, Text, length, length-append, Bool-cases, ltb, leb, ◌==◌, member,
}
use mathlib.Core.List.{append_assoc, append-nil}
use clusy_crawler.Url.Split.{Platform}
use clusy_crawler.Robots.Rules.{Rule}
use clusy_crawler.Robots.Parse.{parsed, parse_text}
use clusy_crawler.Robots.Policy.{
  RobotsDecisionReason, RobotsPolicyConfig, FetchedPolicy, deny_error, allow_unavailable, Failure,
  Call, returned, raised, Response, Web, read_chunks, read_success_body, is_declared_too_large,
}
use clusy_crawler.Robots.Fetch

-- The policy denies every page, and is kept for the time of an error.
abbrev pub IsDenied : RobotsPolicyConfig → FetchedPolicy → Type 0
IsDenied config fetched =
    (fetched.policy.rules ≡ none)
    × (fetched.policy.default_allowed ≡ false)
    × (fetched.ttl_s ≡ config.error_cache_ttl_s)

-- A client error that is not a transient one, for which every page is allowed.
abbrev pub IsUnavailable : ℕ → FetchedPolicy → Type 0
IsUnavailable status fetched =
    (fetched.policy.rules ≡ none)
    × (400 ≤ status)
    × (status < 500)
    × (member status Fetch.transient_client_statuses ≡ false)

-- All chunks of a response, one behind the other.
abbrev pub joined : List (List ℕ) → List ℕ
joined [] = []
joined (chunk ∷ chunks) = chunk ++ joined chunks

-- The rules of the whole body of a response with a status of success: the stream ended well, and the body is
-- within the bound.
pub record IsParsed (p : Platform) (web : Web) (config : RobotsPolicyConfig) (response : Response)
    (fetched : FetchedPolicy) : Type 0 where
  pub rules : List Rule
  pub low : 200 ≤ response.status
  pub high : response.status < 300
  pub complete : response.broken ≡ none
  pub bounded : length (joined response.chunks) ≤ config.max_body_bytes
  pub read :
      parse_text p config.limits config.user_agent (web.decode (joined response.chunks))
      ≡ parsed rules
  pub kept : fetched.policy.rules ≡ some rules

-- Some response that was received over an accepted connection justifies the policy.
pub record IsAnswered (p : Platform) (web : Web) (config : RobotsPolicyConfig)
    (fetched : FetchedPolicy) : Type 0 where
  pub round : ℕ
  pub url : Text
  pub response : Response
  pub streamed : web.stream round url ≡ returned response
  pub trusted : response.is_peer_refused ≡ false
  pub answer : IsUnavailable response.status fetched ⊎ IsParsed p web config response fetched

abbrev pub IsJustified : Platform → Web → RobotsPolicyConfig → FetchedPolicy → Type 0
IsJustified p web config fetched = IsDenied config fetched ⊎ IsAnswered p web config fetched

pub deny_error-IsDenied :
    (config : RobotsPolicyConfig) (reason : RobotsDecisionReason) (status : ℕ)
    → IsDenied config (deny_error config reason status)
unfolding deny_error
deny_error-IsDenied config reason status = (refl, refl, refl)

-- A body that was read is the whole one, and within the bound.
abbrev pub IsWhole : ℕ → List ℕ → Option Failure → Call (List ℕ) → Type 0
IsWhole n whole broken (raised failure) = Unit {0}
IsWhole n whole broken (returned body) = (length body ≤ n) × (body ≡ whole) × (broken ≡ none)

read_chunks-IsWhole :
    (n : ℕ) (body : List ℕ) (chunks : List (List ℕ)) (broken : Option Failure)
    → length body ≤ n
    → IsWhole n (body ++ joined chunks) broken (read_chunks n body chunks broken)
unfolding read_chunks
read_chunks-IsWhole n body [] none h = (h, sym (append-nil body), refl)
read_chunks-IsWhole n body [] (some failure) h = tt
read_chunks-IsWhole n body (chunk ∷ chunks) broken h =
    elim (Bool-cases (ltb n (length body + length chunk))) [
      | inl over ↦ rw over tt
      | inr fits ↦ rw fits (
          subst (λ whole. IsWhole n whole broken (read_chunks n (body ++ chunk) chunks broken))
            (append_assoc body chunk (joined chunks))
            (read_chunks-IsWhole n (body ++ chunk) chunks broken
              (ground (arith, length-append body chunk))))
    ]

pub read_success_body-IsWhole :
    (config : RobotsPolicyConfig) (response : Response)
    → IsWhole config.max_body_bytes
        (joined response.chunks)
        response.broken
        (read_success_body config response)
unfolding read_success_body
read_success_body-IsWhole config response =
    elim (Bool-cases (is_declared_too_large config.max_body_bytes response.declared)) [
      | inl over ↦ rw over tt
      | inr fits ↦ rw fits (
          read_chunks-IsWhole config.max_body_bytes [] response.chunks response.broken
            (omega arith))
    ]

-- What a status that is neither a redirect nor a success makes of the policy.
pub unsuccessful-cases :
    (config : RobotsPolicyConfig) (status : ℕ)
    → IsDenied config (Fetch.unsuccessful config status)
      ⊎ IsUnavailable status (Fetch.unsuccessful config status)
unfolding Fetch.unsuccessful allow_unavailable member deny_error
unsuccessful-cases config status = elim (Bool-cases ((status == 404) || (status == 410))) [
  | inl gone ↦ rw gone (inr (refl, ground arith, ground arith, ground arith))
  | inr there ↦ elim (Bool-cases (member status Fetch.transient_client_statuses)) [
    | inl busy ↦ rw (there, busy) (inl (refl, refl, refl))
    | inr lasting ↦ elim (Bool-cases (leb 400 status && ltb status 500)) [
      | inl client ↦ rw (there, lasting, client) (inr (refl, ground arith, ground arith, refl))
      | inr server ↦ elim (Bool-cases (leb 500 status && ltb status 600)) [
        | inl failing ↦ rw (there, lasting, server, failing) (inl (refl, refl, refl))
        | inr odd ↦ rw (there, lasting, server, odd) (inl (refl, refl, refl))
      ]
    ]
  ]
]
