-- ===== src/Robots/Retrieval.antt =====
-- app/services/robots.py: the retrieval of a policy, over every chain of redirects.
use clusy_crawler.Base.{
  ℕ, zero, suc, ◌+◌, ◌≤◌, ◌≡◌, refl, inl, Bool, true, false, [], ◌∷◌, arith, Text, length, All,
}
use clusy_crawler.Url.Split.{Platform}
use clusy_crawler.Robots.Policy.{
  RobotsPolicyConfig, FetchedPolicy, too_many_redirects, unsafe, timeout, network_error,
  response_too_large, timed_out, http_error, body_too_large, other_exception, Call, returned,
  raised, Response, Web,
}
use clusy_crawler.Robots.Fetch
use clusy_crawler.Robots.Evidence.{IsJustified, deny_error-IsDenied}
use clusy_crawler.Robots.Round.{IsSecure, RoundHolds, respond-RoundHolds}

-- The URL is one that the validator accepted and whose turn at the rate limit was awaited.
abbrev pub IsCleared : Web → Text → Type 0
IsCleared web url =
    (n : ℕ) × (web.validate_url n url ≡ returned false)
    × (web.acquire_rate_limit n url ≡ returned tt)

abbrev OutcomeHolds : Platform → Web → RobotsPolicyConfig → Call FetchedPolicy → Type 0
OutcomeHolds p web config (raised failure) = Unit {0}
OutcomeHolds p web config (returned fetched) = IsJustified p web config fetched

-- What `left` rounds from `current` come to.
record Holds (p : Platform) (web : Web) (config : RobotsPolicyConfig) (left : ℕ) (current : Text)
    (r : Fetch.Retrieved) : Type 0 where
  outcome : OutcomeHolds p web config r.0
  bound : length r.1 ≤ left
  cleared : All (IsCleared web) r.1
  secure : IsSecure p current → All (IsSecure p) r.1

module _ (p : Platform) (web : Web) (config : RobotsPolicyConfig) (left : ℕ) (current : Text) where
  nothing-Holds :
      (c : Call FetchedPolicy)
      → OutcomeHolds p web config c
      → Holds p web config left current (c, [])
  nothing-Holds c h = record { outcome = h; bound = omega arith; cleared = tt; secure = λ s. tt }

  module _ (next : Text → Fetch.Retrieved)
      (later : (url : Text) → Holds p web config left url (next url))
      (clear : IsCleared web current) where
    last-Holds :
        (c : Call FetchedPolicy)
        → OutcomeHolds p web config c
        → Holds p web config (suc left) current (c, current ∷ [])
    last-Holds c h = record {
      outcome = h;
      bound = omega arith;
      cleared = (clear, tt);
      secure = λ s. (s, tt);
    }

    after_respond-Holds :
        (c : Call Fetch.Round)
        → RoundHolds p web config current c
        → Holds p web config (suc left) current (Fetch.after_respond current next c)
    after_respond-Holds (raised failure) h = last-Holds (raised failure) tt
    after_respond-Holds (returned (Fetch.done fetched)) h = last-Holds (returned fetched) h
    after_respond-Holds (returned (Fetch.redirected target)) h =
        let l = later target in
        record {
          outcome = l.outcome;
          bound = let b = l.bound in omega arith;
          cleared = (clear, l.cleared);
          secure = λ s. (s, l.secure (h s));
        }

    after_stream-Holds :
        (answer : Response → Call Fetch.Round) (c : Call Response)
        → ((response : Response)
            → c ≡ returned response
            → RoundHolds p web config current (answer response))
        → Holds p web config (suc left) current (Fetch.after_stream current next answer c)
    after_stream-Holds answer (raised failure) h = last-Holds (raised failure) tt
    after_stream-Holds answer (returned response) h =
        after_respond-Holds (answer response) (h response refl)

after_wait-Holds :
    (p : Platform) (web : Web) (config : RobotsPolicyConfig) (left : ℕ) (current : Text)
    (request : Fetch.Retrieved) (c : Call (Unit {0}))
    → (c ≡ returned tt → Holds p web config left current request)
    → Holds p web config left current (Fetch.after_wait request c)
after_wait-Holds p web config left current request (raised failure) h =
    nothing-Holds p web config left current (raised failure) tt
after_wait-Holds p web config left current request (returned tt) h = h refl

after_validate-Holds :
    (p : Platform) (web : Web) (config : RobotsPolicyConfig) (left : ℕ) (current : Text)
    (request : Fetch.Retrieved) (c : Call Bool)
    → (c ≡ returned false → Holds p web config left current request)
    → Holds p web config left current (Fetch.after_validate config request c)
after_validate-Holds p web config left current request (raised failure) h =
    nothing-Holds p web config left current (raised failure) tt
after_validate-Holds p web config left current request (returned true) h =
    nothing-Holds p web config left current _ (inl (deny_error-IsDenied config unsafe 0))
after_validate-Holds p web config left current request (returned false) h = h refl

rounds_from-Holds :
    (p : Platform) (web : Web) (config : RobotsPolicyConfig) (left n : ℕ) (current : Text)
    → Holds p web config left current (Fetch.rounds_from p web config left n current)
unfolding Fetch.rounds_from
rounds_from-Holds p web config zero n current =
    nothing-Holds p web config zero current _
      (inl (deny_error-IsDenied config too_many_redirects 0))
rounds_from-Holds p web config (suc left) n current =
    after_validate-Holds p web config (suc left) current _ (web.validate_url n current) (λ valid.
      after_wait-Holds p web config (suc left) current _ (web.acquire_rate_limit n current)
        (λ waited.
          after_stream-Holds p web config left current _
            (λ url. rounds_from-Holds p web config left (n + 1) url) (n, valid, waited) _
            (web.stream n current)
            (λ response e. respond-RoundHolds p web config n current response e)))

handled-IsJustified :
    (p : Platform) (web : Web) (config : RobotsPolicyConfig) (c : Call FetchedPolicy)
    → OutcomeHolds p web config c
    → IsJustified p web config (Fetch.handled config c)
unfolding Fetch.denied_by
handled-IsJustified p web config (returned fetched) h = h
handled-IsJustified p web config (raised timed_out) h = inl (deny_error-IsDenied config timeout 0)
handled-IsJustified p web config (raised http_error) h =
    inl (deny_error-IsDenied config network_error 0)
handled-IsJustified p web config (raised body_too_large) h =
    inl (deny_error-IsDenied config response_too_large 0)
handled-IsJustified p web config (raised other_exception) h =
    inl (deny_error-IsDenied config network_error 0)

-- The retrieval of a policy always ends with one, and fails closed: the policy denies every page and is
-- kept for the time of an error, or it rests on a response over an accepted connection, namely on a
-- status from 400 to 499 that is not 408, 425 or 429, or on a status from 200 to 299 whose stream ended
-- well and whose whole body, all chunks of it, is within the bound and is parsed to the policy's rules.
pub fetch_policy-IsJustified :
    (p : Platform) (web : Web) (config : RobotsPolicyConfig) (url : Text)
    → IsJustified p web config (Fetch.fetch_policy p web config url).0
unfolding Fetch.fetch_policy Fetch.fetch_policy_within_deadline
fetch_policy-IsJustified p web config url =
    handled-IsJustified p web config _
      (rounds_from-Holds p web config (config.max_redirects + 1) 0 url).outcome

-- The retrieval requests at most `max_redirects + 1` URLs, each of which the validator accepted and
-- for which the rate limit was awaited.
pub fetch_policy-requests :
    (p : Platform) (web : Web) (config : RobotsPolicyConfig) (url : Text)
    → (length (Fetch.fetch_policy p web config url).1 ≤ config.max_redirects + 1)
      × All (IsCleared web) (Fetch.fetch_policy p web config url).1
unfolding Fetch.fetch_policy Fetch.fetch_policy_within_deadline
fetch_policy-requests p web config url =
    let h = rounds_from-Holds p web config (config.max_redirects + 1) 0 url in (h.bound, h.cleared)

-- The retrieval of a policy at an `https` URL requests `https` URLs only, whatever the redirects say.
pub fetch_policy-IsSecure :
    (p : Platform) (web : Web) (config : RobotsPolicyConfig) (url : Text)
    → IsSecure p url
    → All (IsSecure p) (Fetch.fetch_policy p web config url).1
unfolding Fetch.fetch_policy Fetch.fetch_policy_within_deadline
fetch_policy-IsSecure p web config url h =
    (rounds_from-Holds p web config (config.max_redirects + 1) 0 url).secure h
