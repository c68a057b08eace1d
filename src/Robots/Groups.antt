-- ===== src/Robots/Groups.antt =====
-- app/services/robots.py: where a group of a robots file ends.
use clusy_crawler.Base.{
  ℕ, ◌+◌, ◌≤◌, ◌≡◌, refl, sym, ap, ◌∙◌, inl, inr, Bool, true, false, not, ◌||◌, Option, none, some,
  List, [], ◌∷◌, ◌++◌, Text, codes, text_eq, text_member, Bool-cases, arith, ltb, if◌then◌else◌,
}
use mathlib.Core.List.{append_assoc}
use clusy_crawler.Robots.Rules.{Rule, parse_rule}
use clusy_crawler.Url.Split.{Platform}
use clusy_crawler.Robots.Parse.{
  ParseLimits, Reading, Group, rules_for, finish_group, closed_groups, agent_token, is_nonempty,
  read_agent, read_field, is_ignored,
}

or_true : (b : Bool) → (not b || true) ≡ true
or_true true = refl
or_true false = refl

-- The fields of consecutive lines, with their values.
abbrev pub read_fields : Platform → ParseLimits → List (Text × Text) → Reading → Option Reading
read_fields p limits [] r = some r
read_fields p limits ((field, value) ∷ lines) r = elim (read_field p limits field value r) [
  | none ↦ none
  | some r' ↦ read_fields p limits lines r'
]

rules_for-append :
    (agent : Text) (gs hs : List Group)
    → rules_for agent (gs ++ hs) ≡ rules_for agent gs ++ rules_for agent hs
unfolding rules_for
rules_for-append agent [] hs = refl
rules_for-append agent (g ∷ gs) hs = elim (Bool-cases (text_member agent g.agents)) [
  | inl named ↦ rw named (
      ap (λ rs. g.rules ++ rs) (rules_for-append agent gs hs)
      ∙ sym (append_assoc g.rules (rules_for agent gs) (rules_for agent hs)))
  | inr other ↦ rw other (rules_for-append agent gs hs)
]

text_member-append :
    (agent token : Text) (agents : List Text)
    → text_member agent agents ≡ true
    → text_member agent (agents ++ token ∷ []) ≡ true
unfolding text_member
text_member-append agent token [] h = absurd (cc h)
text_member-append agent token (a ∷ agents) h = elim (Bool-cases (text_eq agent a)) [
  | inl same ↦ rw same refl
  | inr other ↦ rw other (text_member-append agent token agents (rw other at h))
]

nonempty-append : (agents : List Text) (token : Text) → is_nonempty (agents ++ token ∷ []) ≡ true
nonempty-append [] token = refl
nonempty-append (a ∷ agents) token = refl

closed_groups-append :
    (groups : List Group) (agents : List Text) (token : Text) (rules : List Rule)
    → closed_groups groups (agents ++ token ∷ []) rules
      ≡ groups ++ record { agents = agents ++ token ∷ []; rules = rules } ∷ []
closed_groups-append groups [] token rules = refl
closed_groups-append groups (a ∷ agents) token rules = refl

read_fields-read :
    (p : Platform) (limits : ParseLimits) (field value : Text) (lines : List (Text × Text))
    (r r' : Reading)
    → read_field p limits field value r ≡ some r'
    → read_fields p limits ((field, value) ∷ lines) r ≡ read_fields p limits lines r'
read_fields-read p limits field value lines r r' h =
    ap (λ o. elim o [ none ↦ none | some r'' ↦ read_fields p limits lines r'' ]) h

not_over : (n k : ℕ) → k ≤ n → ltb n k ≡ false
not_over n k h = ground arith

-- A rule line in a group with agents.
read_rule :
    (p : Platform) (limits : ParseLimits) (path : Text) (rule : Rule) (r : Reading)
    → is_nonempty r.agents ≡ true
    → is_nonempty path ≡ true
    → parse_rule path false ≡ some rule
    → r.rule_count + 1 ≤ limits.max_rules
    → read_field p limits (codes "disallow") path r
      ≡ some (record r { rules = r.rules ++ rule ∷ []; rule_count = r.rule_count + 1 })
unfolding read_field is_ignored text_eq
read_rule p limits path rule r agents some_path parsed_rule room =
    let fits = not_over limits.max_rules (r.rule_count + 1) room in
    rw (agents, some_path, parsed_rule, fits) refl

-- The rules of a group that is closed behind the others.
rules_for-closed :
    (agent token : Text) (groups : List Group) (agents : List Text) (rules : List Rule)
    → text_member agent agents ≡ true
    → rules_for agent (closed_groups groups (agents ++ token ∷ []) rules)
      ≡ rules_for agent groups ++ (rules ++ [])
unfolding rules_for
rules_for-closed agent token groups agents rules h =
    let named = text_member-append agent token agents h in
    ap (rules_for agent) (closed_groups-append groups agents token rules)
    ∙ rules_for-append agent groups (record { agents = agents ++ token ∷ []; rules = rules } ∷ [])
    ∙ ap (λ b. rules_for agent groups ++ (if b then rules ++ [] else [])) named

empty_line :
    (p : Platform) (limits : ParseLimits) (r : Reading)
    → read_field p limits (codes "disallow") [] r ≡ some r
unfolding read_field is_ignored text_eq
empty_line p limits r = rw (or_true (is_nonempty r.agents)) refl

agent_line :
    (p : Platform) (limits : ParseLimits) (value : Text) (r : Reading)
    → r.rules ≡ []
    → is_nonempty (agent_token p value) ≡ true
    → read_field p limits (codes "user-agent") value r
      ≡ some (record r { agents = r.agents ++ agent_token p value ∷ [] })
unfolding read_field read_agent text_eq
agent_line p limits value r none_yet token = rw (none_yet, token) refl

-- A group has agents and no rules yet. Its `Disallow` line with an empty value, which allows them everything, is
-- passed over: the next `User-agent` line with a token joins the same group, so that a rule which follows it is
-- one of the earlier agents' too, when the group is closed.
pub empty_rule-joins :
    (p : Platform) (limits : ParseLimits) (value path : Text) (rule : Rule) (r : Reading)
    → r.rules ≡ []
    → is_nonempty (agent_token p value) ≡ true
    → is_nonempty path ≡ true
    → parse_rule path false ≡ some rule
    → r.rule_count + 1 ≤ limits.max_rules
    → (r' : Reading) × (read_fields p limits
          ((codes "disallow", []) ∷ (codes "user-agent", value) ∷ (codes "disallow", path) ∷ [])
          r
        ≡ some r')
      × ((agent : Text)
          → text_member agent r.agents ≡ true
          → rules_for agent (finish_group r').groups ≡ rules_for agent r.groups ++ rule ∷ [])
unfolding finish_group
empty_rule-joins p limits value path rule r none_yet token some_path parsed_rule room =
    let joined = record r { agents = r.agents ++ agent_token p value ∷ [] } in
    let kept : read_field p limits (codes "disallow") [] r ≡ some r = empty_line p limits r in
    let added = agent_line p limits value r none_yet token in
    let ruled =
      read_rule p limits path rule joined (nonempty-append r.agents (agent_token p value)) some_path
        parsed_rule room in
    (
      record joined { rules = r.rules ++ rule ∷ []; rule_count = r.rule_count + 1 },
      read_fields-read p limits (codes "disallow") []
            ((codes "user-agent", value) ∷ (codes "disallow", path) ∷ []) r r kept
          ∙ read_fields-read p limits (codes "user-agent") value ((codes "disallow", path) ∷ []) r
              joined added
          ∙ read_fields-read p limits (codes "disallow") path [] joined _ ruled,
      λ agent named.
          rules_for-closed agent (agent_token p value) r.groups r.agents (r.rules ++ rule ∷ [])
            named
          ∙ ap (λ rules. rules_for agent r.groups ++ ((rules ++ rule ∷ []) ++ [])) none_yet,
    )
