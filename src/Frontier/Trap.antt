-- ===== src/Frontier/Trap.antt =====
-- app/services/frontier.py: `_calendar_signature` and `_trap_reason`.
use clusy_crawler.Base.{
  ℕ, zero, suc, ◌+◌, ◌*◌, ◌-◌, Bool, true, false, ◌&&◌, ◌||◌, not, Option, none, some, List, [],
  ◌∷◌, ◌++◌, map, Text, codes, text_member, ltb, leb, ◌==◌, if◌then◌else◌, length, join, is_digit,
}
use clusy_crawler.Base.Dict.{get}
use clusy_crawler.Url.Split.{Platform}
use clusy_crawler.Frontier.Types.{
  pair_key, FrontierConfig, RejectionReason, path_too_deep, trap_repeated_path,
  trap_query_parameters, trap_query_variants, trap_facets, trap_calendar, trap_session,
}
use clusy_crawler.Frontier.Signs.{
  calendar_keys, path_session, query_session, calendar_path, key_token, query_pairs, max_count,
  path_segments, has_session_key, facet_count, normalized_pairs, keys,
}

-- `_CALENDAR_NUMBER`: `k` digits at the head, and no letter behind them.
abbrev is_letter : ℕ → Bool
is_letter c = (leb b'A' c && leb c b'Z') || (leb b'a' c && leb c b'z')

fits : ℕ → Text → Bool
unfolding is_digit
fits zero [] = true
fits zero (c ∷ s) = not (is_letter c)
fits (suc k) [] = false
fits (suc k) (c ∷ s) = is_digit c && fits k s

number_length : Text → ℕ
unfolding fits
number_length s =
    if fits 4 s
    then 4
    else if fits 3 s
    then 3
    else if fits 2 s
    then 2
    else if fits 1 s
    then 1
    else 0

-- `_CALENDAR_NUMBER.sub("{n}", s)`: the rest of a match to skip, and whether a letter precedes.
substitute_numbers : ℕ → Bool → Text → Text
unfolding number_length
substitute_numbers skip letter [] = []
substitute_numbers (suc n) letter (c ∷ s) = substitute_numbers n false s
substitute_numbers zero letter (c ∷ s) =
    let matched = number_length (c ∷ s) in
    let starts = not letter && ltb 0 matched in
    let rest =
      substitute_numbers (if starts then matched - 1 else 0) (not starts && is_letter c) s in
    if starts then codes "{n}" ++ rest else c ∷ rest

has_calendar_key : Platform → List (Text × Text) → Bool
unfolding text_member key_token
has_calendar_key p [] = false
has_calendar_key p ((key, value) ∷ pairs) =
    text_member (key_token p key) calendar_keys || has_calendar_key p pairs

abbrev query_part : Platform → Text × Text → Text
query_part p (key, value) =
    if text_member (key_token p key) calendar_keys
    then key ++ codes "={calendar}"
    else key ++ b'=' ∷ value

unfoldable pub calendar_signature : Platform → Text → Text → Option Text
unfolding has_calendar_key calendar_path substitute_numbers join query_pairs text_member key_token
calendar_signature p path query =
    let pairs = query_pairs p query in
    if not (has_calendar_key p pairs) && not (calendar_path path)
    then none
    else some (
        substitute_numbers 0 false (p.casefold path) ++ b'?' ∷ join b'&' (map (query_part p) pairs))

calendar_values : Platform → List (Text × Text) → List Text
unfolding text_member key_token
calendar_values p [] = []
calendar_values p ((key, value) ∷ pairs) =
    let rest = calendar_values p pairs in
    if text_member (key_token p key) calendar_keys then value ∷ rest else rest

-- `_YEAR.findall`: the values of the digit runs of length four, `n` and `v` being the length and
-- the value of the run that goes on.
abbrev closed_run : ℕ → ℕ → List ℕ → List ℕ
closed_run n v years = if n == 4 then v ∷ years else years

unfoldable pub years_from : Platform → ℕ → ℕ → Text → List ℕ
years_from p n v [] = closed_run n v []
years_from p n v (c ∷ s) =
    let outside = years_from p 0 0 s in
    elim (p.decimal_digit c) [
      | none ↦ closed_run n v outside
      | some d ↦ years_from p (suc n) (v * 10 + d) s
    ]

unfoldable pub years_of : Platform → List Text → List ℕ
unfolding years_from
years_of p [] = []
years_of p (value ∷ values) = years_from p 0 0 value ++ years_of p values

unfoldable pub has_year_outside : FrontierConfig → List ℕ → Bool
has_year_outside c [] = false
has_year_outside c (year ∷ years) =
    ltb year c.min_calendar_year || ltb c.max_calendar_year year || has_year_outside c years

-- The sets of the `defaultdict`s.
abbrev pub Variants : Type 0
Variants = List ((Text × Text) × List Text)

abbrev pub or_empty_set : Option (List Text) → List Text
or_empty_set none = []
or_empty_set (some s) = s

unfoldable pub variants_of : Text × Text → Variants → List Text
variants_of key m = or_empty_set (get key m)

-- `value not in variants and len(variants) >= limit`
unfoldable pub is_variant_too_many : Text → List Text → ℕ → Bool
unfolding text_member
is_variant_too_many value variants limit =
    not (text_member value variants) && leb limit (length variants)

-- One guard of the chain.
abbrev pub guard : Bool → RejectionReason → Option RejectionReason → Option RejectionReason
guard true reason next = some reason
guard false reason next = next

abbrev casefolded : Platform → List Text → List Text
casefolded p = map p.casefold

-- The tests up to the facets.
unfoldable pub static_trap : Platform → FrontierConfig → Text → Text → Option RejectionReason
unfolding path_segments max_count path_session query_pairs query_session key_token has_session_key
    facet_count
static_trap p c path query =
    let segments = path_segments path in
    let pairs = query_pairs p query in
    let normalized = normalized_pairs p pairs in
    guard (ltb c.max_path_segments (length segments)) path_too_deep (
      guard (ltb c.max_repeated_path_segment (max_count (casefolded p segments))) trap_repeated_path
        (guard (path_session path) trap_session (
          guard (query_session query) trap_session (
            guard (ltb c.max_query_parameters (length pairs)) trap_query_parameters (
              guard (has_session_key normalized) trap_session (
                guard (ltb c.max_repeated_query_key (max_count (keys normalized)))
                  trap_query_parameters
                  (guard (ltb c.max_facet_parameters (facet_count p (keys normalized))) trap_facets
                    none)))))))

abbrev query_variant_trap : FrontierConfig → Variants → Text → Text → Text → Bool
query_variant_trap c m host path [] = false
query_variant_trap c m host path (d ∷ query) =
    is_variant_too_many (d ∷ query) (variants_of (host, path) m) c.max_query_variants_per_path

abbrev calendar_trap :
    Platform → FrontierConfig → Variants → Text → Text → Text → Text → Option Text → Bool
calendar_trap p c m host path query url none = false
calendar_trap p c m host path query url (some signature) =
    has_year_outside c (years_of p (path ∷ calendar_values p (query_pairs p query)))
    || is_variant_too_many url (variants_of (host, signature) m) c.max_calendar_variants_per_pattern

abbrev or_else : Option RejectionReason → Option RejectionReason → Option RejectionReason
or_else none next = next
or_else (some reason) next = some reason

-- `_trap_reason`, with the two `defaultdict`s that it reads.
unfoldable pub trap_reason :
    Platform
    → FrontierConfig
    → Variants
    → Variants
    → Text
    → Text
    → Text
    → Text
    → Option RejectionReason
unfolding static_trap variants_of is_variant_too_many calendar_signature has_year_outside years_of
    calendar_values query_pairs
trap_reason p c queries calendars host path query url = or_else (static_trap p c path query) (
    guard (query_variant_trap c queries host path query) trap_query_variants (
      guard (calendar_trap p c calendars host path query url (calendar_signature p path query))
        trap_calendar none))
