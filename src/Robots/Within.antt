-- ===== src/Robots/Within.antt =====
-- app/services/robots.py: what holds between two lines of the parser.
use clusy_crawler.Base.{
  ℕ, ◌+◌, ◌≤◌, ◌<◌, ◌≡◌, refl, subst, of_some_eq, inl, inr, Bool, true, false, Option, none, some,
  List, [], ◌∷◌, ◌++◌, arith, Text, length, length-append, All, All-append, Bool-cases,
  if◌then◌else◌, ltb, ◌==◌, codes, text_eq, starts_with, ends_with, partition,
}
use clusy_crawler.Url.Split.{Platform}
use clusy_crawler.Robots.Rules.{
  Rule, parse_rule, pattern_specificity, normalize_octets, drop_last, collapse_stars,
}
use clusy_crawler.Robots.Parse

-- A rule that says something, with its length as its pattern has it.
pub record IsRule (r : Rule) : Type 0 where
  pub positive : 0 < r.specificity
  pub counted : r.specificity ≡ pattern_specificity r.pattern

-- The rules of all groups.
abbrev pub rules_in : List Parse.Group → ℕ
rules_in [] = 0
rules_in (g ∷ gs) = length g.rules + rules_in gs

rules_in_append : (gs hs : List Parse.Group) → rules_in (gs ++ hs) ≡ rules_in gs + rules_in hs
rules_in_append [] hs = omega arith
rules_in_append (g ∷ gs) hs = omega (arith, rules_in_append gs hs)

abbrev pub HasRules : Parse.Group → Type 0
HasRules g = All IsRule g.rules

-- What holds between two lines.
pub record Within (limits : Parse.ParseLimits) (r : Parse.Reading) : Type 0 where
  pub kept : rules_in r.groups + length r.rules ≤ r.rule_count
  pub rule_bound : r.rule_count ≤ limits.max_rules
  pub record_bound : r.record_count ≤ limits.max_records
  pub grouped : All HasRules r.groups
  pub pending : All IsRule r.rules

pub start-Within : (limits : Parse.ParseLimits) → Within limits Parse.start
start-Within limits = record {
  kept = omega arith;
  rule_bound = omega arith;
  record_bound = omega arith;
  grouped = tt;
  pending = tt;
}

closed_groups-rules_in :
    (gs : List Parse.Group) (agents : List Text) (rules : List Rule)
    → rules_in (Parse.closed_groups gs agents rules) ≤ rules_in gs + length rules
closed_groups-rules_in gs [] rules = omega arith
closed_groups-rules_in gs (a ∷ agents) rules =
    omega (arith, rules_in_append gs (record { agents = a ∷ agents; rules = rules } ∷ []))

closed_groups-HasRules :
    (gs : List Parse.Group) (agents : List Text) (rules : List Rule)
    → All HasRules gs
    → All IsRule rules
    → All HasRules (Parse.closed_groups gs agents rules)
closed_groups-HasRules gs [] rules h k = h
closed_groups-HasRules gs (a ∷ agents) rules h k = All-append HasRules gs _ h (k, tt)

pub finish_group-Within :
    (limits : Parse.ParseLimits) (r : Parse.Reading)
    → Within limits r
    → Within limits (Parse.finish_group r)
unfolding Parse.finish_group
finish_group-Within limits r w = record {
  kept = let k = w.kept in omega (arith, closed_groups-rules_in r.groups r.agents r.rules);
  rule_bound = w.rule_bound;
  record_bound = w.record_bound;
  grouped = closed_groups-HasRules r.groups r.agents r.rules w.grouped w.pending;
  pending = tt;
}

with_agents-Within :
    (limits : Parse.ParseLimits) (r : Parse.Reading) (agents : List Text)
    → Within limits r
    → Within limits (record r { agents = agents })
with_agents-Within limits r agents w = record {
  kept = w.kept;
  rule_bound = w.rule_bound;
  record_bound = w.record_bound;
  grouped = w.grouped;
  pending = w.pending;
}

if-Within :
    (limits : Parse.ParseLimits) (b : Bool) (r q : Parse.Reading)
    → Within limits r
    → Within limits q
    → Within limits (if b then r else q)
if-Within limits true r q h k = h
if-Within limits false r q h k = k

read_agent-Within :
    (p : Platform) (limits : Parse.ParseLimits) (value : Text) (r : Parse.Reading)
    → Within limits r
    → Within limits (Parse.read_agent p value r)
unfolding Parse.read_agent
read_agent-Within p limits value r w =
    let ready =
      if-Within limits (Parse.is_nonempty r.rules) (Parse.finish_group r) r
        (finish_group-Within limits r w) w in
    if-Within limits (Parse.is_nonempty (Parse.agent_token p value)) _ _
      (with_agents-Within limits _ _ ready) ready

positive_of : (n : ℕ) → (n == 0) ≡ false → 0 < n
positive_of n h = ground arith

parse_rule-IsRule :
    (value : Text) (allow : Bool) (rule : Rule) → parse_rule value allow ≡ some rule → IsRule rule
unfolding parse_rule
parse_rule-IsRule value allow rule h =
    let anchored = ends_with (codes "$") value in
    let raw = normalize_octets (if anchored then drop_last value else value) in
    let pattern = collapse_stars (length raw) raw in
    elim (Bool-cases (starts_with (codes "/") value)) [
      | inr bare ↦ absurd (cc (rw bare at h))
      | inl slash ↦ elim (Bool-cases (pattern_specificity pattern == 0)) [
        | inl none_left ↦ absurd (cc (rw (slash, none_left) at h))
        | inr positive ↦ subst IsRule (of_some_eq (rw (slash, positive) at h)) (record {
          positive = positive_of (pattern_specificity pattern) positive;
          counted = refl;
        })
      ]
    ]

-- The next reading, where there is one, keeps the bounds.
abbrev pub IsWithin : Parse.ParseLimits → Option Parse.Reading → Type 0
IsWithin limits none = Unit {0}
IsWithin limits (some r) = Within limits r

add_rule-IsWithin :
    (limits : Parse.ParseLimits) (r : Parse.Reading) (o : Option Rule)
    → ((rule : Rule) → o ≡ some rule → IsRule rule)
    → Within limits r
    → IsWithin limits (Parse.add_rule limits r o)
add_rule-IsWithin limits r none h w = w
add_rule-IsWithin limits r (some rule) h w =
    elim (Bool-cases (ltb limits.max_rules (r.rule_count + 1))) [
      | inl over ↦ rw over tt
      | inr fits ↦ rw fits (record {
        kept = let k = w.kept in omega (arith, length-append r.rules (rule ∷ []));
        rule_bound = ground arith;
        record_bound = w.record_bound;
        grouped = w.grouped;
        pending = All-append IsRule r.rules (rule ∷ []) w.pending (h rule refl, tt);
      })
    ]

if-IsWithin :
    (limits : Parse.ParseLimits) (b : Bool) (r q : Option Parse.Reading)
    → IsWithin limits r
    → IsWithin limits q
    → IsWithin limits (if b then r else q)
if-IsWithin limits true r q h k = h
if-IsWithin limits false r q h k = k

read_field-IsWithin :
    (p : Platform) (limits : Parse.ParseLimits) (field value : Text) (r : Parse.Reading)
    → Within limits r
    → IsWithin limits (Parse.read_field p limits field value r)
unfolding Parse.read_field
read_field-IsWithin p limits field value r w =
    let allow = text_eq field (codes "allow") in
    if-IsWithin limits (text_eq field (codes "user-agent")) _ _
      (read_agent-Within p limits value r w)
      (if-IsWithin limits (Parse.is_ignored field value r) (some r) _ w (
        add_rule-IsWithin limits r (parse_rule value allow)
          (λ rule h. parse_rule-IsRule value allow rule h) w))

read_counted-IsWithin :
    (p : Platform) (limits : Parse.ParseLimits) (field value : Text) (o : Option Parse.Reading)
    → IsWithin limits o
    → IsWithin limits (Parse.read_counted p limits field value o)
read_counted-IsWithin p limits field value none w = tt
read_counted-IsWithin p limits field value (some r) w = read_field-IsWithin p limits field value r w

count_record-IsWithin :
    (limits : Parse.ParseLimits) (r : Parse.Reading)
    → Within limits r
    → IsWithin limits (Parse.count_record limits r)
count_record-IsWithin limits r w = elim (Bool-cases (ltb limits.max_records (r.record_count + 1))) [
  | inl over ↦ rw over tt
  | inr fits ↦ rw fits (record {
    kept = w.kept;
    rule_bound = w.rule_bound;
    record_bound = ground arith;
    grouped = w.grouped;
    pending = w.pending;
  })
]

read_parts-IsWithin :
    (p : Platform) (limits : Parse.ParseLimits) (parts : Text × Option Text) (r : Parse.Reading)
    → Within limits r
    → IsWithin limits (Parse.read_parts p limits parts r)
read_parts-IsWithin p limits (field, none) r w = w
read_parts-IsWithin p limits (field, some raw_value) r w =
    read_counted-IsWithin p limits _ _ _ (count_record-IsWithin limits r w)

read_line-IsWithin :
    (p : Platform) (limits : Parse.ParseLimits) (line : Text) (r : Parse.Reading)
    → Within limits r
    → IsWithin limits (Parse.read_line p limits line r)
unfolding Parse.read_line
read_line-IsWithin p limits line r w =
    if-IsWithin limits (ltb limits.max_line_chars (length line)) _ _ tt (
      if-IsWithin limits (Parse.is_skipped (Parse.line_of line)) (some r) _ w
        (read_parts-IsWithin p limits (partition b':' (Parse.line_of line)) r w))

pub read_lines-IsWithin :
    (p : Platform) (limits : Parse.ParseLimits) (lines : List Text) (r : Parse.Reading)
    → Within limits r
    → IsWithin limits (Parse.read_lines p limits lines r)
unfolding Parse.read_lines
read_lines-IsWithin p limits [] r w = w
read_lines-IsWithin p limits (l ∷ ls) r w =
    after (λ q h. read_lines-IsWithin p limits ls q h) (Parse.read_line p limits l r)
      (read_line-IsWithin p limits l r w)
  where
    after :
        ((q : Parse.Reading) → Within limits q → IsWithin limits (Parse.read_lines p limits ls q))
        → (o : Option Parse.Reading) → IsWithin limits o
        → IsWithin limits (elim o as (λ x. Option Parse.Reading) [
          | none ↦ none
          | some q ↦ Parse.read_lines p limits ls q
        ])
    after next none h = tt
    after next (some q) h = next q h
