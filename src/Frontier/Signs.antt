-- ===== src/Frontier/Signs.antt =====
-- app/services/frontier.py: the regular expressions and key sets of the trap policy, `_key_token`,
-- `_contains_key_part` and `_query_pairs`.
use clusy_crawler.Base.{
  ℕ, suc, Bool, true, false, ◌&&◌, ◌||◌, List, [], ◌∷◌, ◌++◌, map, Text, codes, text_eq,
  text_member, leb, if◌then◌else◌, max, length, member, split_on, starts_with, is_digit, lstrip_of,
  rstrip_of,
}
use clusy_crawler.Url.Split.{Platform, lower_all}
use clusy_crawler.Frontier.Types.{pair_key}

abbrev session_names : List Text
session_names = codes "jsessionid" ∷ codes "phpsessid" ∷ codes "sessionid" ∷ []

abbrev query_session_names : List Text
query_session_names =
    codes "aspsessionid"
    ∷ codes "jsessionid"
    ∷ codes "phpsessid"
    ∷ codes "session_id"
    ∷ codes "sessionid"
    ∷ []

abbrev ambiguous_session_keys : List Text
ambiguous_session_keys = codes "session" ∷ codes "sid" ∷ []

abbrev calendar_words : List Text
calendar_words =
    codes "calendar" ∷ codes "calendars" ∷ codes "events" ∷ codes "agenda" ∷ codes "archive" ∷ []

abbrev pub calendar_keys : List Text
calendar_keys =
    codes "calendar"
    ∷ codes "date"
    ∷ codes "day"
    ∷ codes "end_date"
    ∷ codes "month"
    ∷ codes "start_date"
    ∷ codes "view_date"
    ∷ codes "year"
    ∷ []

abbrev facet_key_parts : List Text
facet_key_parts =
    codes "attribute"
    ∷ codes "brand"
    ∷ codes "category"
    ∷ codes "color"
    ∷ codes "facet"
    ∷ codes "filter"
    ∷ codes "order"
    ∷ codes "price"
    ∷ codes "size"
    ∷ codes "sort"
    ∷ codes "tag"
    ∷ []

-- One of `(?:name|...)=` stands at the head.
abbrev is_assignment : List Text → Text → Bool
is_assignment [] s = false
is_assignment (name ∷ names) s = starts_with (name ++ b'=' ∷ []) s || is_assignment names s

-- `_PATH_SESSION.search` and `_QUERY_SESSION.search` on text in lower case; `start` says that the
-- text begins, or follows one of the separators.
session_search : List Text → List ℕ → Bool → Text → Bool
unfolding starts_with member
session_search names separators start [] = false
session_search names separators start (c ∷ s) =
    (start && is_assignment names (c ∷ s))
    || session_search names separators (member c separators) s

unfoldable pub path_session : Text → Bool
unfolding session_search lower_all
path_session path = session_search session_names (codes ";/") true (lower_all path)

unfoldable pub query_session : Text → Bool
unfolding session_search lower_all
query_session query = session_search query_session_names (codes "&;") true (lower_all query)

-- A segment of the path is one of `_CALENDAR_PATH`'s words.
any_calendar_word : List Text → Bool
unfolding text_member
any_calendar_word [] = false
any_calendar_word (w ∷ ws) = text_member w calendar_words || any_calendar_word ws

unfoldable pub calendar_path : Text → Bool
unfolding any_calendar_word split_on lower_all
calendar_path path = any_calendar_word (split_on b'/' (lower_all path))

is_token_character : ℕ → Bool
unfolding is_digit
is_token_character c = (leb b'a' c && leb c b'z') || is_digit c

-- `re.sub(r"[^a-z0-9]+", "_", s)`; the flag says that a run of other characters goes on.
squeeze : Bool → Text → Text
unfolding is_token_character
squeeze other [] = []
squeeze other (c ∷ s) =
    let kept = squeeze false s in
    let dropped = squeeze true s in
    if is_token_character c then c ∷ kept else if other then dropped else b'_' ∷ dropped

unfoldable pub key_token : Platform → Text → Text
unfolding squeeze lstrip_of rstrip_of
key_token p key = rstrip_of b'_' (lstrip_of b'_' (squeeze false (p.casefold key)))

shares_a_member : List Text → List Text → Bool
unfolding text_member
shares_a_member [] ws = false
shares_a_member (t ∷ ts) ws = text_member t ws || shares_a_member ts ws

unfoldable pub contains_key_part : Platform → Text → List Text → Bool
unfolding shares_a_member key_token split_on
contains_key_part p key parts = shares_a_member (split_on b'_' (key_token p key)) parts

unfoldable pub query_pairs : Platform → Text → List (Text × Text)
query_pairs p [] = []
query_pairs p (c ∷ s) = p.parse_qsl (c ∷ s)

-- `Counter(ws)[w]`, and the largest of its values.
unfoldable pub count : Text → List Text → ℕ
unfolding text_eq
count w [] = 0
count w (v ∷ vs) = let rest = count w vs in if text_eq w v then suc rest else rest

abbrev largest : List Text → List Text → ℕ
largest all [] = 0
largest all (w ∷ ws) = max (count w all) (largest all ws)

unfoldable pub max_count : List Text → ℕ
unfolding count
max_count ws = largest ws ws

nonempty_segments : List Text → List Text
nonempty_segments [] = []
nonempty_segments ([] ∷ ws) = nonempty_segments ws
nonempty_segments ((c ∷ w) ∷ ws) = (c ∷ w) ∷ nonempty_segments ws

unfoldable pub path_segments : Text → List Text
unfolding nonempty_segments split_on
path_segments path = nonempty_segments (split_on b'/' path)

is_session_character : ℕ → Bool
unfolding member is_digit
is_session_character c =
    (leb b'A' c && leb c b'Z')
    || (leb b'a' c && leb c b'z')
    || is_digit c
    || member c (codes "._~-")

all_session : Text → Bool
unfolding is_session_character
all_session [] = true
all_session (c ∷ s) = is_session_character c && all_session s

-- `_SESSION_VALUE.fullmatch`
unfoldable pub session_value : Text → Bool
unfolding all_session
session_value s = leb 16 (length s) && all_session s

-- The `any` over the pairs of normalized key and value.
unfoldable pub has_session_key : List (Text × Text) → Bool
unfolding session_value text_member
has_session_key [] = false
has_session_key ((key, value) ∷ pairs) =
    text_member key query_session_names
    || (text_member key ambiguous_session_keys && session_value value)
    || has_session_key pairs

unfoldable pub facet_count : Platform → List Text → ℕ
unfolding contains_key_part
facet_count p [] = 0
facet_count p (key ∷ keys) =
    let rest = facet_count p keys in
    if contains_key_part p key facet_key_parts then suc rest else rest

abbrev pub normalized_pairs : Platform → List (Text × Text) → List (Text × Text)
normalized_pairs p = map (λ q. (key_token p q.0, q.1))

abbrev pub keys : List (Text × Text) → List Text
keys = map (λ q. q.0)
