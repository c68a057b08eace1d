-- ===== src/Examples/RobotsFetches.antt =====
-- app/services/robots.py: one policy, read and retrieved over a redirect.
use clusy_crawler.Base.{
  true, ℕ, ◌+◌, ◌≤◌, ◌≡◌, refl, none, some, false, List, [], ◌∷◌, ◌++◌, Text, codes, All, length,
  text_eq, text_member, zero, suc, arith,
}
use clusy_crawler.Url.Split.{urlsplit, lower_all}
use clusy_crawler.Robots.Rules.{Rule, parse_rule}
use clusy_crawler.Robots.Groups.{empty_rule-joins, read_fields}
use clusy_crawler.Robots.Parse.{
  Reading, rules_for, finish_group, is_nonempty, agent_token, ParseLimits, parse_text, parsed,
  limit_error,
}
use clusy_crawler.Robots.Budget.{IsBounded, parse_text-IsBounded}
use clusy_crawler.Robots.Policy.{
  RobotsPolicyConfig, Web, Response, Call, returned, raised, http_error,
}
use clusy_crawler.Robots.Fetch.{fetch_policy}
use clusy_crawler.Robots.Evidence.{IsJustified}
use clusy_crawler.Robots.Round.{IsSecure}
use clusy_crawler.Robots.Retrieval.{
  IsCleared, fetch_policy-IsJustified, fetch_policy-requests, fetch_policy-IsSecure,
}
use clusy_crawler.Examples.FrontierRuns.{ascii}

abbrev limits : ParseLimits
limits = record { max_rules = 1; max_records = 3; max_line_chars = 40 }

abbrev agent : Text
agent = codes "bot/1.0"

abbrev line : Text → Text
line s = s ++ 10 ∷ []

abbrev file : Text
file = line (codes "user-agent: *") ++ line (codes "disallow: /private # no")

abbrev private : Rule
private = record {
  allow = false;
  pattern = codes "/private";
  end_anchored = false;
  specificity = 8;
}

parse_text-file : parse_text ascii limits agent file ≡ parsed (private ∷ [])
unfolding parse_text lower_all
parse_text-file = refl

-- The agent's own group replaces that of `*`.
parse_text-own : parse_text ascii limits agent (file ++ line (codes "user-agent: bot")) ≡ parsed []
unfolding parse_text lower_all
parse_text-own = refl

parse_text-long : parse_text ascii limits agent (file ++ line (codes "disallow: /b")) ≡ limit_error
unfolding parse_text lower_all
parse_text-long = refl

parse_text-IsBounded_example : IsBounded limits (private ∷ [])
parse_text-IsBounded_example =
    parse_text-IsBounded ascii limits agent file (private ∷ []) parse_text-file

abbrev config : RobotsPolicyConfig
config = record {
  max_redirects = 1;
  max_body_bytes = 60;
  max_url_length = 100;
  limits = limits;
  cache_ttl_s = 30;
  unavailable_cache_ttl_s = 20;
  error_cache_ttl_s = 10;
  user_agent = agent;
}

abbrev response : ℕ → Text → List (List ℕ) → Response
response status location chunks = record {
  is_peer_refused = false;
  status = status;
  location = location;
  declared = none;
  chunks = chunks;
  broken = none;
}

-- A site whose first answer leads to a second.
abbrev answers : ℕ → Call Response
answers zero = returned (response 301 (codes "https://b.c/r") [])
answers (suc zero) = returned (response 200 [] (file ∷ []))
answers (suc (suc n)) = raised http_error

abbrev web : Web
web = record {
  validate_url = λ n url. returned false;
  acquire_rate_limit = λ n url. returned tt;
  stream = λ n url. answers n;
  urljoin = λ current location. some location;
  decode = λ body. body;
}

abbrev start : Text
start = codes "https://a.b/robots.txt"

fetch_policy-rules : (fetch_policy ascii web config start).0.policy.rules ≡ some (private ∷ [])
unfolding fetch_policy lower_all
fetch_policy-rules = refl

start-IsSecure : IsSecure ascii start
unfolding urlsplit text_eq
start-IsSecure = refl

fetch_policy-IsJustified_example :
    IsJustified ascii web config (fetch_policy ascii web config start).0
fetch_policy-IsJustified_example = fetch_policy-IsJustified ascii web config start

fetch_policy-requests_example :
    (length (fetch_policy ascii web config start).1 ≤ 1 + 1)
    × All (IsCleared web) (fetch_policy ascii web config start).1
fetch_policy-requests_example = fetch_policy-requests ascii web config start

fetch_policy-IsSecure_example : All (IsSecure ascii) (fetch_policy ascii web config start).1
fetch_policy-IsSecure_example = fetch_policy-IsSecure ascii web config start start-IsSecure

abbrev joining : Reading
joining = record {
  groups = [];
  agents = codes "a" ∷ [];
  rules = [];
  record_count = 2;
  rule_count = 0;
}

token-bot : is_nonempty (agent_token ascii (codes "bot")) ≡ true
unfolding agent_token lower_all
token-bot = refl

path_rule : parse_rule (codes "/private") false ≡ some private
unfolding parse_rule
path_rule = refl

empty_rule-joins_example :
    (r' : Reading) × (read_fields ascii limits
        ((codes "disallow", [])
          ∷ (codes "user-agent", codes "bot")
          ∷ (codes "disallow", codes "/private")
          ∷ [])
        joining
      ≡ some r')
    × ((agent : Text)
        → text_member agent joining.agents ≡ true
        → rules_for agent (finish_group r').groups ≡ rules_for agent joining.groups ++ private ∷ [])
empty_rule-joins_example =
    empty_rule-joins ascii limits (codes "bot") (codes "/private") private joining refl token-bot
      refl path_rule (omega arith)

-- A site that allows everything to `bot` and disallows a path to the others.
parse_text-joined :
    parse_text ascii
      (record limits { max_records = 4 })
      agent
      (line (codes "user-agent: bot") ++ line (codes "disallow:") ++ file)
    ≡ parsed (private ∷ [])
unfolding parse_text lower_all
parse_text-joined = refl
