-- ===== src/Robots/Fetch.antt =====
-- app/services/robots.py: `_fetch_policy`, its loop over the redirects and `_validated_redirect_target`.
use clusy_crawler.Base.{
  ℕ, zero, suc, ◌+◌, Bool, true, false, ◌&&◌, ◌||◌, not, Option, none, some, List, [], ◌∷◌, Text,
  codes, text_eq, leb, ltb, ◌==◌, if◌then◌else◌, length, member,
}
use clusy_crawler.Url.Split.{Platform, SplitResult, urlsplit}
use clusy_crawler.Url.Canonical.{Checked, accept, refuse, canonicalize_url}
use clusy_crawler.Robots.Parse.{Parsed, parsed, limit_error, index_error, parse_text}
use clusy_crawler.Robots.Policy.{
  allowed_by_rules, missing, client_error, transient_client_error, server_error, timeout,
  network_error, unsafe, response_too_large, too_many_redirects, protocol_error, policy_too_complex,
  RobotsPolicyConfig, FetchedPolicy, allow_unavailable, deny_error, Failure, timed_out, http_error,
  body_too_large, other_exception, Call, returned, raised, Response, Web, read_success_body,
}

abbrev pub redirect_statuses : List ℕ
redirect_statuses = 301 ∷ 302 ∷ 303 ∷ 307 ∷ 308 ∷ []

abbrev pub transient_client_statuses : List ℕ
transient_client_statuses = 408 ∷ 425 ∷ 429 ∷ []

abbrev pub has_https : SplitResult → Bool
has_https s = text_eq s.scheme (codes "https")

-- The refusal to leave `https`. Each `none` of a splitting is a `ValueError`.
abbrev pub downgrade_checked : Text → Option SplitResult → Option SplitResult → Call (Option Text)
downgrade_checked target none s = raised other_exception
downgrade_checked target (some current) none =
    if has_https current then raised other_exception else returned (some target)
downgrade_checked target (some current) (some s) =
    if has_https current && not (has_https s) then returned none else returned (some target)

abbrev pub canonical_target : Platform → Text → Checked Text → Call (Option Text)
canonical_target p current (refuse e) = returned none
canonical_target p current (accept target) =
    downgrade_checked target (urlsplit p current) (urlsplit p target)

abbrev pub joined_target : Platform → RobotsPolicyConfig → Text → Option Text → Call (Option Text)
joined_target p config current none = returned none
joined_target p config current (some url) =
    canonical_target p current (canonicalize_url p config.max_url_length url)

unfoldable pub validated_redirect_target :
    Platform → Web → RobotsPolicyConfig → Text → Text → Call (Option Text)
unfolding urlsplit canonicalize_url text_eq
validated_redirect_target p web config current location =
    joined_target p config current (web.urljoin current location)

-- What one round of the loop ends with: a policy, or the next URL.
pub data Round : Type 0 where
  done : FetchedPolicy → Round
  redirected : Text → Round

abbrev pub to_target : RobotsPolicyConfig → ℕ → Call (Option Text) → Call Round
to_target config status (raised failure) = raised failure
to_target config status (returned none) = returned (done (deny_error config unsafe status))
to_target config status (returned (some target)) = returned (redirected target)

unfoldable pub follow : Platform → Web → RobotsPolicyConfig → ℕ → Text → Response → Call Round
unfolding validated_redirect_target deny_error
follow p web config redirect_count current response =
    if leb (length response.location) 0
    then returned (done (deny_error config protocol_error response.status))
    else if leb config.max_redirects redirect_count
    then returned (done (deny_error config too_many_redirects response.status))
    else to_target config response.status
        (validated_redirect_target p web config current response.location)

abbrev pub with_rules : RobotsPolicyConfig → ℕ → Parsed → Call FetchedPolicy
with_rules config status limit_error = returned (deny_error config policy_too_complex status)
with_rules config status index_error = raised other_exception
with_rules config status (parsed rules) = returned (record {
  policy = record {
    rules = some rules;
    default_allowed = true;
    reason = allowed_by_rules;
    status_code = status;
  };
  ttl_s = config.cache_ttl_s;
})

abbrev pub with_body : Platform → Web → RobotsPolicyConfig → ℕ → Call (List ℕ) → Call FetchedPolicy
with_body p web config status (raised failure) = raised failure
with_body p web config status (returned body) =
    with_rules config status (parse_text p config.limits config.user_agent (web.decode body))

-- A status that is neither a redirect nor a success.
unfoldable pub unsuccessful : RobotsPolicyConfig → ℕ → FetchedPolicy
unfolding deny_error allow_unavailable member
unsuccessful config status =
    if (status == 404) || (status == 410)
    then allow_unavailable config missing status
    else if member status transient_client_statuses
    then deny_error config transient_client_error status
    else if leb 400 status && ltb status 500
    then allow_unavailable config client_error status
    else if leb 500 status && ltb status 600
    then deny_error config server_error status
    else deny_error config protocol_error status

abbrev pub done_with : Call FetchedPolicy → Call Round
done_with (raised failure) = raised failure
done_with (returned fetched) = returned (done fetched)

-- The body of the `async with client.stream` block.
unfoldable pub respond : Platform → Web → RobotsPolicyConfig → ℕ → Text → Response → Call Round
unfolding follow read_success_body parse_text unsuccessful deny_error member
respond p web config redirect_count current response =
    if response.is_peer_refused
    then returned (done (deny_error config unsafe 0))
    else if member response.status redirect_statuses
    then follow p web config redirect_count current response
    else if leb 200 response.status && ltb response.status 300
    then done_with (with_body p web config response.status (read_success_body config response))
    else returned (done (unsuccessful config response.status))

-- The policy or the exception of the loop, and the URLs that it requested.
abbrev pub Retrieved : Type 0
Retrieved = Call FetchedPolicy × List Text

abbrev pub after_respond : Text → (Text → Retrieved) → Call Round → Retrieved
after_respond current next (raised failure) = (raised failure, current ∷ [])
after_respond current next (returned (done fetched)) = (returned fetched, current ∷ [])
after_respond current next (returned (redirected target)) =
    let (outcome, requested) = next target in (outcome, current ∷ requested)

abbrev pub after_stream :
    Text → (Text → Retrieved) → (Response → Call Round) → Call Response → Retrieved
after_stream current next answer (raised failure) = (raised failure, current ∷ [])
after_stream current next answer (returned response) = after_respond current next (answer response)

abbrev pub after_wait : Retrieved → Call (Unit {0}) → Retrieved
after_wait request (raised failure) = (raised failure, [])
after_wait request (returned done_waiting) = request

abbrev pub after_validate : RobotsPolicyConfig → Retrieved → Call Bool → Retrieved
after_validate config request (raised failure) = (raised failure, [])
after_validate config request (returned true) = (returned (deny_error config unsafe 0), [])
after_validate config request (returned false) = request

-- The loop, with the rounds that are left.
unfoldable pub rounds_from : Platform → Web → RobotsPolicyConfig → ℕ → ℕ → Text → Retrieved
unfolding respond deny_error
rounds_from p web config zero redirect_count current =
    (returned (deny_error config too_many_redirects 0), [])
rounds_from p web config (suc left) redirect_count current =
    let next = rounds_from p web config left (redirect_count + 1) in
    after_validate config
      (after_wait
        (after_stream current next (respond p web config redirect_count current)
          (web.stream redirect_count current))
        (web.acquire_rate_limit redirect_count current))
      (web.validate_url redirect_count current)

unfoldable pub fetch_policy_within_deadline : Platform → Web → RobotsPolicyConfig → Text → Retrieved
unfolding rounds_from
fetch_policy_within_deadline p web config url =
    rounds_from p web config (config.max_redirects + 1) 0 url

-- The handlers of `_fetch_policy`.
unfoldable pub denied_by : RobotsPolicyConfig → Failure → FetchedPolicy
unfolding deny_error
denied_by config timed_out = deny_error config timeout 0
denied_by config body_too_large = deny_error config response_too_large 0
denied_by config http_error = deny_error config network_error 0
denied_by config other_exception = deny_error config network_error 0

abbrev pub handled : RobotsPolicyConfig → Call FetchedPolicy → FetchedPolicy
handled config (returned fetched) = fetched
handled config (raised failure) = denied_by config failure

unfoldable pub fetch_policy : Platform → Web → RobotsPolicyConfig → Text → FetchedPolicy × List Text
unfolding fetch_policy_within_deadline denied_by
fetch_policy p web config url =
    let (outcome, requested) = fetch_policy_within_deadline p web config url in
    (handled config outcome, requested)
