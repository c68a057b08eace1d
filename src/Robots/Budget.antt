-- ===== src/Robots/Budget.antt =====
-- app/services/robots.py: the bounds of the rules that the parser returns.
use clusy_crawler.Base.{
  ◌≤◌, ◌≡◌, subst, inl, inr, ◌&&◌, Option, none, some, List, [], ◌∷◌, arith, Text, length,
  length-append, All, All-append, Bool-cases, codes, text_member,
}
use clusy_crawler.Url.Split.{Platform}
use clusy_crawler.Robots.Rules.{Rule}
use clusy_crawler.Robots.Parse
use clusy_crawler.Robots.Within.{
  IsRule, rules_in, HasRules, Within, start-Within, finish_group-Within, IsWithin,
  read_lines-IsWithin,
}

rules_for-bound :
    (agent : Text) (gs : List Parse.Group) → length (Parse.rules_for agent gs) ≤ rules_in gs
unfolding Parse.rules_for
rules_for-bound agent [] = omega arith
rules_for-bound agent (g ∷ gs) = elim (Bool-cases (text_member agent g.agents)) [
  | inl e ↦
      rw e
        (omega (arith, rules_for-bound agent gs, length-append g.rules (Parse.rules_for agent gs)))
  | inr e ↦ rw e (omega (arith, rules_for-bound agent gs))
]

rules_for-IsRule :
    (agent : Text) (gs : List Parse.Group) → All HasRules gs → All IsRule (Parse.rules_for agent gs)
unfolding Parse.rules_for
rules_for-IsRule agent [] h = tt
rules_for-IsRule agent (g ∷ gs) h = elim (Bool-cases (text_member agent g.agents)) [
  | inl e ↦ rw e (All-append IsRule g.rules _ h.0 (rules_for-IsRule agent gs h.1))
  | inr e ↦ rw e (rules_for-IsRule agent gs h.1)
]

-- Few rules, and each of them says something.
abbrev pub IsBounded : Parse.ParseLimits → List Rule → Type 0
IsBounded limits rules = (length rules ≤ limits.max_rules) × All IsRule rules

rules_for-IsBounded :
    (limits : Parse.ParseLimits) (agent : Text) (r : Parse.Reading)
    → Within limits r
    → IsBounded limits (Parse.rules_for agent r.groups)
rules_for-IsBounded limits agent r w = (
  let k = w.kept in let b = w.rule_bound in omega (arith, rules_for-bound agent r.groups),
  rules_for-IsRule agent r.groups w.grouped,
)

select_rules-IsBounded :
    (limits : Parse.ParseLimits) (product : Text) (r : Parse.Reading)
    → Within limits r
    → IsBounded limits (Parse.select_rules product r.groups)
unfolding Parse.select_rules
select_rules-IsBounded limits product r w =
    elim (Bool-cases (Parse.is_nonempty product && Parse.is_named product r.groups)) [
      | inl e ↦ rw e (rules_for-IsBounded limits product r w)
      | inr e ↦ rw e (rules_for-IsBounded limits (codes "*") r w)
    ]

finished-IsBounded :
    (p : Platform) (limits : Parse.ParseLimits) (user_agent : Text) (o : Option Parse.Reading)
    (rules : List Rule)
    → IsWithin limits o
    → Parse.finished p user_agent o ≡ Parse.parsed rules
    → IsBounded limits rules
finished-IsBounded p limits user_agent none rules w h = absurd (cc h)
finished-IsBounded p limits user_agent (some r) rules w h =
    after (Parse.product_token p user_agent) h
  where
    after :
        (product : Option Text)
        → Parse.selected product (Parse.finish_group r) ≡ Parse.parsed rules
        → IsBounded limits rules
    after none e = absurd (cc e)
    after (some product) e = subst (IsBounded limits) (cc e) (
        select_rules-IsBounded limits product (Parse.finish_group r)
          (finish_group-Within limits r w))

-- A policy that the parser returns has at most `max_rules` rules, and each has a positive specificity,
-- that of its pattern.
pub parse_text-IsBounded :
    (p : Platform) (limits : Parse.ParseLimits) (user_agent text : Text) (rules : List Rule)
    → Parse.parse_text p limits user_agent text ≡ Parse.parsed rules
    → IsBounded limits rules
unfolding Parse.parse_text
parse_text-IsBounded p limits user_agent text rules h =
    finished-IsBounded p limits user_agent _ rules
      (read_lines-IsWithin p limits (Parse.splitlines text) Parse.start (start-Within limits)) h
