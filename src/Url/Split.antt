-- ===== src/Url/Split.antt =====
-- `urllib.parse.urlsplit` and `urlunsplit` of Python's standard library, for text without control
-- characters and outer white space, which is what their callers pass.
use clusy_crawler.Base.{
  ℕ, ◌+◌, Bool, true, false, ◌&&◌, ◌||◌, Option, none, some, List, [], ◌∷◌, ◌++◌, Text, codes, leb,
  ◌==◌, if◌then◌else◌, member, partition, decimal?,
}

-- What the standard library decides by tables or parsers of its own: `str.lower`, `str.casefold`,
-- the NFKC test and the brackets' test of `urlsplit`, `ipaddress.ip_address` (the compressed form
-- in lower case, and whether the version is 6), IDNA, `parse_qsl` with blank values kept and without strict parsing
-- (it raises nothing then), and the value of a decimal digit of any script.
pub record Platform : Type 0 where
  pub lower : Text → Text
  pub casefold : Text → Text
  pub is_netloc_accepted : Text → Bool
  pub ip_address : Text → Option (Text × Bool)
  pub idna : Text → Option Text
  pub parse_qsl : Text → List (Text × Text)
  pub decimal_digit : ℕ → Option ℕ

pub record SplitResult : Type 0 where
  pub scheme : Text
  pub netloc : Text
  pub path : Text
  pub query : Text

unfoldable pub lower_ascii : ℕ → ℕ
lower_ascii c = if leb b'A' c && leb c b'Z' then c + 32 else c

unfoldable pub lower_all : Text → Text
unfolding lower_ascii
lower_all [] = []
lower_all (c ∷ s) = lower_ascii c ∷ lower_all s

is_letter : ℕ → Bool
is_letter c = (leb b'A' c && leb c b'Z') || (leb b'a' c && leb c b'z')

is_scheme_character : ℕ → Bool
unfolding is_letter member
is_scheme_character c = is_letter c || (leb b'0' c && leb c b'9') || member c (codes "+-.")

all_scheme : Text → Bool
unfolding is_scheme_character
all_scheme [] = true
all_scheme (c ∷ s) = is_scheme_character c && all_scheme s

is_scheme : Text → Bool
unfolding is_letter all_scheme
is_scheme [] = false
is_scheme (c ∷ s) = is_letter c && all_scheme (c ∷ s)

-- The scheme, in lower case, and what follows its colon.
abbrev scheme_and_rest : Text → Text × Option Text → Text × Text
scheme_and_rest url (before, none) = ([], url)
scheme_and_rest url (before, some rest) =
    if is_scheme before then (lower_all before, rest) else ([], url)

-- `_splitnetloc`
split_netloc : Text → Text × Text
unfolding member
split_netloc [] = ([], [])
split_netloc (c ∷ s) =
    let (netloc, rest) = split_netloc s in
    if member c (codes "/?#") then ([], c ∷ s) else (c ∷ netloc, rest)

abbrev netloc_and_rest : Text → Text × Text
netloc_and_rest (c ∷ d ∷ s) = if (c == b'/') && (d == b'/') then split_netloc s else ([], c ∷ d ∷ s)
netloc_and_rest s = ([], s)

abbrev or_empty : Option Text → Text
or_empty none = []
or_empty (some s) = s

-- `none` is a `ValueError`.
unfoldable pub urlsplit : Platform → Text → Option SplitResult
unfolding partition is_scheme split_netloc lower_all
urlsplit p url =
    let (scheme, hierarchy) = scheme_and_rest url (partition b':' url) in
    let (netloc, tail) = netloc_and_rest hierarchy in
    let before_fragment = (partition b'#' tail).0 in
    let (path, query) = partition b'?' before_fragment in
    if p.is_netloc_accepted netloc
    then some (record { scheme = scheme; netloc = netloc; path = path; query = or_empty query })
    else none

-- `rpartition("@")[2]`
after_userinfo : Text → Text → Text
after_userinfo candidate [] = candidate
after_userinfo candidate (c ∷ s) = after_userinfo (if c == b'@' then s else candidate) s

-- The text of the host and, if it is not empty, that of the port.
abbrev nonempty : Option Text → Option Text
nonempty none = none
nonempty (some []) = none
nonempty (some (c ∷ s)) = some (c ∷ s)

abbrev port_after : Option Text → Option Text
port_after none = none
port_after (some s) = nonempty (partition b':' s).1

abbrev bracketed_host : Text × Option Text → Text × Option Text
bracketed_host (host, rest) = (host, port_after rest)

abbrev plain_host : Text × Option Text → Text × Option Text
plain_host (host, rest) = (host, nonempty rest)

abbrev host_of_parts : Text → Text × Option Text → Text × Option Text
host_of_parts hostinfo (before, none) = plain_host (partition b':' hostinfo)
host_of_parts hostinfo (before, some bracketed) = bracketed_host (partition b']' bracketed)

-- `_hostinfo`
unfoldable pub hostinfo : Text → Text × Option Text
unfolding after_userinfo partition
hostinfo netloc =
    let info = after_userinfo netloc netloc in host_of_parts info (partition b'[' info)

abbrev lower_before_zone : Platform → Text × Option Text → Text
lower_before_zone p (host, none) = p.lower host
lower_before_zone p (host, some zone) = p.lower host ++ b'%' ∷ zone

abbrev hostname_of : Platform → Text → Option Text
hostname_of p [] = none
hostname_of p (c ∷ s) = some (lower_before_zone p (partition b'%' (c ∷ s)))

-- The property `hostname`.
unfoldable pub hostname : Platform → Text → Option Text
unfolding hostinfo partition
hostname p netloc = hostname_of p (hostinfo netloc).0

abbrev port_of : Option Text → Option (Option ℕ)
port_of none = some none
port_of (some s) = elim (decimal? s) [
  | none ↦ none
  | some n ↦ if leb n 65535 then some (some n) else none
]

-- The property `port`: `none` is a `ValueError`.
unfoldable pub port : Text → Option (Option ℕ)
unfolding hostinfo decimal?
port netloc = port_of (hostinfo netloc).1

abbrev with_query : Text → Text
with_query [] = []
with_query (c ∷ s) = b'?' ∷ c ∷ s

-- `urlunsplit((scheme, netloc, path, query, ""))` where the scheme and netloc are not empty and the
-- path begins with a slash.
unfoldable pub urlunsplit : Text → Text → Text → Text → Text
urlunsplit scheme netloc path query =
    scheme ++ (codes "://" ++ (netloc ++ (path ++ with_query query)))
