-- ===== src/Robots/Parse.antt =====
-- app/services/robots.py: `parse_robots_txt` on the decoded text, `_agent_token` and `_product_token`.
use clusy_crawler.Base.{
  ℕ, ◌+◌, Bool, true, false, ◌&&◌, ◌||◌, not, Option, none, some, List, [], ◌∷◌, ◌++◌, Text, codes,
  text_eq, text_member, leb, ltb, ◌==◌, if◌then◌else◌, length, member, partition, prepend, strip,
  is_space,
}
use clusy_crawler.Url.Split.{Platform}
use clusy_crawler.Robots.Rules.{Rule, parse_rule}

-- The characters that end a line for `str.splitlines`.
unfoldable pub is_line_end : ℕ → Bool
is_line_end c =
    (leb 10 c && leb c 13)
    || (leb 28 c && leb c 30)
    || (c == 0x85)
    || (c == 0x2028)
    || (c == 0x2029)

-- `text.splitlines()`
unfoldable pub splitlines : Text → List Text
unfolding is_line_end
splitlines [] = []
splitlines (c ∷ []) = if is_line_end c then [] ∷ [] else (c ∷ []) ∷ []
splitlines (c ∷ d ∷ s) =
    let pair = splitlines s in
    let single = splitlines (d ∷ s) in
    if (c == 13) && (d == 10)
    then [] ∷ pair
    else if is_line_end c
    then [] ∷ single
    else prepend c single

-- `text.split(None, 1)[0]` of a stripped text; empty for the empty text, where the source raises.
unfoldable pub first_word : Text → Text
unfolding is_space
first_word [] = []
first_word (c ∷ s) = let rest = first_word s in if is_space c then [] else c ∷ rest

unfoldable pub agent_token : Platform → Text → Text
unfolding first_word strip text_eq partition
agent_token p value =
    let token = first_word (strip value) in
    if text_eq token (codes "*") then token else p.casefold (partition b'/' token).0

-- `none` is the `IndexError` for a user agent of white space only.
unfoldable pub product_token : Platform → Text → Option Text
unfolding first_word strip partition
product_token p user_agent = elim (strip user_agent) [
  | [] ↦ none
  | c ∷ s ↦ some (p.casefold (partition b'/' (first_word (c ∷ s))).0)
]

pub record Group : Type 0 where
  pub agents : List Text
  pub rules : List Rule

-- `max_rules`, `max_records` and `max_line_chars`.
pub record ParseLimits : Type 0 where
  pub max_rules : ℕ
  pub max_records : ℕ
  pub max_line_chars : ℕ

-- The local variables of `parse_robots_txt`.
pub record Reading : Type 0 where
  pub groups : List Group
  pub agents : List Text
  pub rules : List Rule
  pub record_count : ℕ
  pub rule_count : ℕ

abbrev pub start : Reading
start = record { groups = []; agents = []; rules = []; record_count = 0; rule_count = 0 }

abbrev pub closed_groups : List Group → List Text → List Rule → List Group
closed_groups groups [] rules = groups
closed_groups groups (a ∷ agents) rules =
    groups ++ record { agents = a ∷ agents; rules = rules } ∷ []

unfoldable pub finish_group : Reading → Reading
finish_group r = record r {
  groups = closed_groups r.groups r.agents r.rules;
  agents = [];
  rules = [];
}

abbrev pub is_nonempty {ℓ} : {A : Type ℓ} → List A → Bool
is_nonempty [] = false
is_nonempty (x ∷ xs) = true

-- A `User-agent` line.
unfoldable pub read_agent : Platform → Text → Reading → Reading
unfolding finish_group agent_token
read_agent p value r =
    let ready = if is_nonempty r.rules then finish_group r else r in
    let token = agent_token p value in
    if is_nonempty token then record ready { agents = ready.agents ++ token ∷ [] } else ready

abbrev pub add_rule : ParseLimits → Reading → Option Rule → Option Reading
add_rule limits r none = some r
add_rule limits r (some rule) =
    if ltb limits.max_rules (r.rule_count + 1)
    then none
    else some (record r { rules = r.rules ++ rule ∷ []; rule_count = r.rule_count + 1 })

-- A rule line that says nothing: an unknown field, no agent before it, or no value.
unfoldable pub is_ignored : Text → Text → Reading → Bool
unfolding text_eq
is_ignored field value r =
    not (text_eq field (codes "allow") || text_eq field (codes "disallow"))
    || (not (is_nonempty r.agents) || not (is_nonempty value))

-- The part of the loop's body behind the count of records.
unfoldable pub read_field : Platform → ParseLimits → Text → Text → Reading → Option Reading
unfolding read_agent parse_rule text_eq is_ignored
read_field p limits field value r =
    if text_eq field (codes "user-agent")
    then some (read_agent p value r)
    else if is_ignored field value r
    then some r
    else add_rule limits r (parse_rule value (text_eq field (codes "allow")))

abbrev pub count_record : ParseLimits → Reading → Option Reading
count_record limits r =
    if ltb limits.max_records (r.record_count + 1)
    then none
    else some (record r { record_count = r.record_count + 1 })

abbrev pub read_counted : Platform → ParseLimits → Text → Text → Option Reading → Option Reading
read_counted p limits field value none = none
read_counted p limits field value (some r) = read_field p limits field value r

-- A line without its comment, divided at the first colon.
abbrev pub read_parts : Platform → ParseLimits → Text × Option Text → Reading → Option Reading
read_parts p limits (field, none) r = some r
read_parts p limits (field, some raw_value) r =
    read_counted p limits (p.casefold (strip field)) (strip raw_value) (count_record limits r)

abbrev pub line_of : Text → Text
line_of raw_line = strip (partition b'#' raw_line).0

-- An empty line, or one with a NUL.
unfoldable pub is_skipped : Text → Bool
unfolding member
is_skipped line = not (is_nonempty line) || member 0 line

-- The loop's body; `none` is a `RobotsParseLimitError`.
unfoldable pub read_line : Platform → ParseLimits → Text → Reading → Option Reading
unfolding partition strip read_field is_skipped
read_line p limits raw_line r =
    let line = line_of raw_line in
    if ltb limits.max_line_chars (length raw_line)
    then none
    else if is_skipped line
    then some r
    else read_parts p limits (partition b':' line) r

unfoldable pub read_lines : Platform → ParseLimits → List Text → Reading → Option Reading
unfolding read_line
read_lines p limits [] r = some r
read_lines p limits (l ∷ ls) r = elim (read_line p limits l r) [
  | none ↦ none
  | some r' ↦ read_lines p limits ls r'
]

-- The rules of the groups that name the agent.
unfoldable pub rules_for : Text → List Group → List Rule
unfolding text_member
rules_for agent [] = []
rules_for agent (g ∷ gs) =
    let rest = rules_for agent gs in if text_member agent g.agents then g.rules ++ rest else rest

unfoldable pub is_named : Text → List Group → Bool
unfolding text_member
is_named agent [] = false
is_named agent (g ∷ gs) = text_member agent g.agents || is_named agent gs

-- The groups of the product, or else those of `*`.
unfoldable pub select_rules : Text → List Group → List Rule
unfolding rules_for is_named
select_rules product groups =
    if is_nonempty product && is_named product groups
    then rules_for product groups
    else rules_for (codes "*") groups

-- What `parse_robots_txt` returns or raises.
pub data Parsed : Type 0 where
  parsed : List Rule → Parsed
  limit_error : Parsed
  index_error : Parsed

abbrev pub selected : Option Text → Reading → Parsed
selected none r = index_error
selected (some product) r = parsed (select_rules product r.groups)

abbrev pub finished : Platform → Text → Option Reading → Parsed
finished p user_agent none = limit_error
finished p user_agent (some r) = selected (product_token p user_agent) (finish_group r)

-- `parse_robots_txt` from the decoded text on.
unfoldable pub parse_text : Platform → ParseLimits → Text → Text → Parsed
unfolding splitlines read_lines finish_group product_token select_rules
parse_text p limits user_agent text =
    finished p user_agent (read_lines p limits (splitlines text) start)
