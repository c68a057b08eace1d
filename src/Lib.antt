-- ===== src/Lib.antt =====
-- Clusy Crawler: the crawl frontier with the recursive crawl that owns it, the robots policy,
-- the request limits, the rate limiter, the result cache, the circuit breaker and the reference
-- decoder, with the theorems that make them correct.
--
-- The crawler asks the frontier for work: it admits URLs, claims leases, and reports each lease
-- as succeeded or failed. Before it fetches a leased page it asks the robots policy, which
-- evaluates the rules of the page's host. The frontier keeps hosts apart in time and bounds what
-- is fetched. The middleware bounds the requests that reach the crawler at all, and the rate
-- limiter those that it sends to a domain.
--
-- Url (app/services/frontier.py, `canonicalize_url` and what it calls; `urlsplit` and its
--   properties of the Python library): Component is `_normalize_component`, Segments
--   `_remove_dot_segments`, Split the splitting of a URL, Canonical the whole routine with
--   `_normalize_host` and `_same_site`, Dots a proof.
-- Frontier (app/services/frontier.py, `CrawlFrontier`): Types holds the enumerations and the
--   records `FrontierConfig`, `_Entry`, `_HostState` and `Frontier`, the state that `__init__`
--   makes. Heap is the part of `heapq` that the source uses, Queue `_enqueue`, `_promote_ready`,
--   `_peek_ready`, `_terminate` and `_terminate_pending`, Claim `claim` with `_pop_ready`, Signs
--   and Trap `_trap_reason`, Admit `admit`, Seeds `__init__` and `is_in_scope`, Report `succeed`,
--   `fail` and `cancel_pending`, Wake `next_wake_at`, `record`, `records` and `metrics`; Run is a
--   history of calls on one frontier. A method is a function on the state that answers an outcome,
--   the value it returns or the exception it raises, with the state it leaves. The state holds the
--   entries once, by URL, where the source shares objects between its tables. Each dictionary is
--   an association list in insertion order. The other files hold proofs: Sound the invariant
--   (keys, distinctness, heap items that name entries), Later what a call may do to an entry and
--   to a host, Survey, Sweep, Grant, Admitting, Waking, Calls and History that each call does only
--   this, Flight and Holding that a lease is held until its report, Missing where a heap item
--   lacks its entry and Found that none does, Seeding that `__init__` makes a sound frontier that
--   has leased nothing, Lifecycle, Politeness and Retry the results.
-- Robots (app/services/robots.py): Glob/Loop is `_glob_matches`, Glob/Meaning the meaning of a
--   pattern, Glob/Question and Glob/Verdict the proof; Rules is `_normalize_octets`,
--   `_pattern_specificity`, `_parse_rule`, `_Rule` and `RobotsRules.evaluate`, Precedence the
--   longest match. Parse is `parse_robots_txt` from the decoded text on, Within and Budget its
--   bounds, Groups where a group ends. Policy holds the decisions, the policies and the reading of
--   a body, Fetch `_fetch_policy` with its loop over the redirects; what it awaits (the validator,
--   the rate limit, the client) is a function of the round and the URL and may raise. Round,
--   Evidence and Retrieval are what holds of every retrieval. Service is `RobotsPolicyService`
--   with its cache and its shared fetches, each call in parts, so that a history of them is any
--   interleaving; Cached, Capped and Shared are what holds of it.
-- Limits (app/middleware/resource_limits.py): Body is `_content_length`, with `int` of a byte
--   string, and `_read_bounded_body`, Reading what it answers. Admission is
--   `ResourceLimitMiddleware.__call__`: each metered request is a state machine, its steps change
--   the shared count, and a step of the server is a step of any request. Occupancy is the
--   invariant of every interleaving.
-- Limiter (app/services/rate_limiter.py): Registry is `DomainRateLimiter`, with `acquire` in two
--   parts, before and after its wait, so that a history of calls is any interleaving of callers;
--   an `AsyncLimiter` is its identity. Eviction and Capacity are what holds of it. An eviction
--   runs on as many rounds as there are limiters, which is enough since each round takes one away
--   or ends.
-- Quality (app/services/quality_extractor.py): Breaker is the circuit breaker of
--   `QualityExtractor`, Extractor its `extract` and `aclose` as steps of the requests and of the
--   workers, which may outlive them. Permits and Recovery are invariants of every interleaving.
-- Cache (app/cache/__init__.py): Client is `RedisCache`, what the server does being an argument
--   of each call; Backoff is what holds of every history of calls, one after the other.
-- Crawl (app/services/crawler.py): Job is `_RecursiveCrawlJob` over Frontier, in Job/State what
--   it keeps, claims and starts with, in Job/Retire its reports, in Job/Steps its `run` as a step
--   relation: between two steps any task may end, with a result, a denial or an exception. Leases
--   and Moves are what its parts do, Safety the invariant of every interleaving, Draining what a
--   cancelled crawl leaves, Start a crawl from its arguments.
-- Lattice (bench/lattice_reference/decoder.py): Scores is `Fraction` as an ordered group, a
--   parameter. Spans is `MarginalSpan`, `_spans_are_compatible` and `_transition_score`, Decode
--   the loops of `decode` from the scored spans on, with `_is_better` and `_state_span_indices`;
--   the table of states stands latest first, and so does a path. Lex is `_ExactPathLexIndex`.
--   Oracle is the search of `brute_force_decode`, over whatever scores; Prepare is
--   `_prepare_scored_spans`, Brute the scores that `brute_force_decode` computes for itself, and
--   Comparison sets the two side by side. Order and Identities are strict orders and that of
--   tuples, Paths how paths rank, Table, Ending and Optimal the invariants of the loops; Lex/Lift,
--   Lex/Common, Lex/Ancestor, Lex/Build, Lex/Less and Lex/Index the jump pointers, with the record
--   LexOrder of Table between the two. Masks, Canonical, Ties and Agreement relate the oracle, and
--   Lex/Answer holds the results. The loop of `_lift` runs on one round more than the distance,
--   which each round halves; that of `append` on one more than the depth, since the jumps never
--   become more than that.
-- Overlay (app/services/atomic_structure_overlay_v0.py): Framing is `_framed_digest`, SHA-256
--   being a parameter, Unframing reads back what it is fed.
-- Examples: tests on concrete inputs, and the theorems at inputs where their hypotheses hold.
-- Base: lists, texts, dictionaries, Boolean tests and numbers.
--
-- Times are whole numbers of microseconds, an infinite or undefined time a value of its own, and
-- a priority or an order is an integer; a text is a list of code points. The loop of the matcher
-- runs on fuel, (|value| + 1) (|pattern| + 1) rounds, which is enough: each round moves on in
-- the pattern, or takes up the star one place later. The loop that collapses `**` runs as often
-- as the pattern is long, and each round shortens it. Loops over lists are structural.
--
-- Parameters, since their code is not part of the repository: lower-casing and case-folding of
-- non-ASCII text, Unicode normalization in a netloc, IP addresses, IDNA, `parse_qsl`, decimal
-- digits and the date of a Retry-After header, `urljoin`, the decoding of a body, and
-- `Fraction`.
--
-- Not modelled: `deterministic_partition` (SHA-256), the deadline and the semaphore of a robots
-- fetch, the text of error responses and the replay of a body to the application, the validation
-- and marginalization of a lattice's candidates, its budgets, and the services that fetch,
-- render and extract pages, which call browsers, parsers and other services.
pub mod Base
pub mod Url
pub mod Frontier
pub mod Robots
pub mod Limits
pub mod Limiter
pub mod Quality
pub mod Cache
pub mod Crawl
pub mod Lattice
pub mod Overlay
pub mod Examples
