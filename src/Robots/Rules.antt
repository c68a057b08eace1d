-- ===== src/Robots/Rules.antt =====
-- app/services/robots.py: `_normalize_octets`, `_pattern_specificity`, `_parse_rule`, `_Rule` and
-- `RobotsRules`.
use clusy_crawler.Base.{
  ℕ, zero, suc, Bool, true, false, ◌&&◌, ◌||◌, not, Option, none, some, List, [], ◌∷◌, ◌++◌, Text,
  codes, text_eq, leb, ltb, ◌==◌, if◌then◌else◌, length, starts_with, ends_with,
}
use clusy_crawler.Url.Component.{hex_value, unescape, utf8, escape_all}
use clusy_crawler.Url.Split.{Platform, SplitResult, urlsplit}
use clusy_crawler.Robots.Glob.Meaning.{star}
use clusy_crawler.Robots.Glob.Loop.{glob_matches}

abbrev bytes_of : Option (List ℕ) → List ℕ
bytes_of none = []
bytes_of (some bytes) = bytes

-- A character that begins no escape. The texts come from UTF-8 and from canonical URLs, so that each
-- character has an encoding.
unfoldable pub encode_octet : ℕ → Text
unfolding utf8 escape_all
encode_octet c = if leb 0x21 c && leb c 0x7e then c ∷ [] else escape_all (bytes_of (utf8 c))

abbrev pub both_hex : Option ℕ → Option ℕ → Option Text
both_hex none low = none
both_hex (some high) none = none
both_hex (some high) (some low) = some (unescape high low)

abbrev pub escape_at : ℕ → ℕ → ℕ → Option Text
escape_at c a b = if c == b'%' then both_hex (hex_value a) (hex_value b) else none

unfoldable pub normalize_octets : Text → Text
unfolding encode_octet unescape hex_value
normalize_octets [] = []
normalize_octets (c ∷ a ∷ b ∷ s) =
    let plain = encode_octet c ++ normalize_octets (a ∷ b ∷ s) in
    let rest = normalize_octets s in
    elim (escape_at c a b) [ none ↦ plain | some text ↦ text ++ rest ]
normalize_octets (c ∷ s) = encode_octet c ++ normalize_octets s

abbrev pub is_escape : ℕ → ℕ → ℕ → Bool
is_escape c a b = elim (escape_at c a b) [ none ↦ false | some text ↦ true ]

-- The number of characters and escapes that are not `*`.
unfoldable pub pattern_specificity : Text → ℕ
unfolding hex_value
pattern_specificity [] = 0
pattern_specificity (c ∷ a ∷ b ∷ s) =
    let rest = pattern_specificity (a ∷ b ∷ s) in
    let after = pattern_specificity s in
    if c == star then rest else if is_escape c a b then suc after else suc rest
pattern_specificity (c ∷ s) =
    let rest = pattern_specificity s in if c == star then rest else suc rest

pub record Rule : Type 0 where
  pub allow : Bool
  pub pattern : Text
  pub end_anchored : Bool
  pub specificity : ℕ

unfoldable pub matches : Rule → Text → Bool
unfolding glob_matches
matches r path_query =
    glob_matches (if r.end_anchored then r.pattern else r.pattern ++ star ∷ []) path_query

-- `pattern.replace("**", "*")`
unfoldable pub halve_stars : Text → Text
halve_stars [] = []
halve_stars (c ∷ d ∷ s) =
    let pair = halve_stars s in
    let single = halve_stars (d ∷ s) in
    if (c == star) && (d == star) then star ∷ pair else c ∷ single
halve_stars (c ∷ s) = c ∷ halve_stars s

-- `"**" in pattern`
unfoldable pub has_double_star : Text → Bool
has_double_star [] = false
has_double_star (c ∷ []) = false
has_double_star (c ∷ d ∷ s) = ((c == star) && (d == star)) || has_double_star (d ∷ s)

-- The loop that replaces them; each round makes the pattern shorter.
unfoldable pub collapse_stars : ℕ → Text → Text
unfolding halve_stars has_double_star
collapse_stars zero s = s
collapse_stars (suc f) s =
    let rest = collapse_stars f (halve_stars s) in if has_double_star s then rest else s

-- `value[:-1]`
unfoldable pub drop_last : Text → Text
drop_last [] = []
drop_last (c ∷ []) = []
drop_last (c ∷ d ∷ s) = c ∷ drop_last (d ∷ s)

unfoldable pub parse_rule : Text → Bool → Option Rule
unfolding starts_with ends_with drop_last normalize_octets collapse_stars pattern_specificity
parse_rule value allow =
    let end_anchored = ends_with (codes "$") value in
    let raw = normalize_octets (if end_anchored then drop_last value else value) in
    let pattern = collapse_stars (length raw) raw in
    let specificity = pattern_specificity pattern in
    if not (starts_with (codes "/") value)
    then none
    else if specificity == 0
    then none
    else some (record {
      allow = allow;
      pattern = pattern;
      end_anchored = end_anchored;
      specificity = specificity;
    })

-- The two tests of the loop in `evaluate` that replace the rule matched so far.
abbrev pub is_stronger : Rule → Rule → Bool
is_stronger r m =
    ltb m.specificity r.specificity
    || ((r.specificity == m.specificity) && (r.allow && not m.allow))

abbrev pub preferred : Rule → Option Rule → Option Rule
preferred r none = some r
preferred r (some m) = if is_stronger r m then some r else some m

-- The loop of `evaluate`.
unfoldable pub select : Text → List Rule → Option Rule → Option Rule
unfolding matches
select path [] matched = matched
select path (r ∷ rs) matched =
    select path rs (if matches r path then preferred r matched else matched)

abbrev pub verdict : Option Rule → Bool × ℕ
verdict none = (true, 0)
verdict (some r) = (r.allow, r.specificity)

abbrev or_slash : Text → Text
or_slash [] = b'/' ∷ []
or_slash (c ∷ s) = c ∷ s

abbrev query_suffix : Text → Text
query_suffix [] = []
query_suffix (c ∷ s) = b'?' ∷ normalize_octets (c ∷ s)

-- The text that the rules are matched against.
unfoldable pub path_query : SplitResult → Text
unfolding normalize_octets
path_query s = normalize_octets (or_slash s.path) ++ query_suffix s.query

-- `split.path == "/robots.txt" and not split.query`
unfoldable pub is_robots_resource : SplitResult → Bool
unfolding text_eq
is_robots_resource s = text_eq s.path (codes "/robots.txt") && text_eq s.query []

unfoldable pub evaluate_split : List Rule → SplitResult → Bool × ℕ
unfolding is_robots_resource path_query select
evaluate_split rules s =
    if is_robots_resource s then (true, 0) else verdict (select (path_query s) rules none)

abbrev evaluated : List Rule → Option SplitResult → Option (Bool × ℕ)
evaluated rules none = none
evaluated rules (some s) = some (evaluate_split rules s)

-- `RobotsRules.evaluate`: `none` is a `ValueError` of `urlsplit`.
unfoldable pub evaluate : Platform → List Rule → Text → Option (Bool × ℕ)
unfolding urlsplit evaluate_split
evaluate p rules url = evaluated rules (urlsplit p url)
