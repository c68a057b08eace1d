-- ===== src/Url/Canonical.antt =====
-- app/services/frontier.py: `canonicalize_url`, `_normalize_host`, `_host_from_canonical` and
-- `_same_site`.
use clusy_crawler.Base.{
  ℕ, zero, suc, ◌+◌, ◌/◌, ◌%◌, Bool, true, false, ◌&&◌, ◌||◌, not, Option, none, some, List, [],
  ◌∷◌, ◌++◌, Text, codes, text_eq, ltb, leb, ◌==◌, if◌then◌else◌, length, member, text_member,
  strip, split_on, starts_with, ends_with,
}
use clusy_crawler.Url.Component.{is_path_safe, is_query_safe, normalize_component}
use clusy_crawler.Url.Segments.{remove_dot_segments}
use clusy_crawler.Url.Split.{Platform, SplitResult, urlsplit, hostname, port, urlunsplit, lower_all}

-- The reasons that `UrlCanonicalizationError` carries.
pub data UrlError : Type 0 where
  invalid_url unsupported_scheme userinfo_not_allowed : UrlError

pub data Checked (A : Type 0) : Type 0 where
  accept : A → Checked A
  refuse : UrlError → Checked A

infixl 5 ◌>>=◌ ◌>>◌
abbrev pub ◌>>=◌ : {A B : Type 0} → Checked A → (A → Checked B) → Checked B
accept a >>= f = f a
refuse e >>= f = refuse e

abbrev pub ◌>>◌ : {B : Type 0} → Checked (Unit {0}) → Checked B → Checked B
m >> k = m >>= λ _. k

-- `if test: raise UrlCanonicalizationError(reason, ...)`
abbrev pub reject_if : Bool → UrlError → Checked (Unit {0})
reject_if true e = refuse e
reject_if false e = accept tt

abbrev pub or_refuse : {A : Type 0} → Option A → UrlError → Checked A
or_refuse none e = refuse e
or_refuse (some a) e = accept a

has_control : Text → Bool
has_control [] = false
has_control (c ∷ s) = (ltb c 0x20 || (c == 0x7f)) || has_control s

is_label_character : ℕ → Bool
is_label_character c = (leb b'a' c && leb c b'z') || (leb b'0' c && leb c b'9')

-- `[a-z0-9-]*[a-z0-9]`, the part of `_HOST_LABEL` after its first character.
ends_label : Text → Bool
unfolding is_label_character
ends_label [] = false
ends_label (c ∷ []) = is_label_character c
ends_label (c ∷ d ∷ s) = (is_label_character c || (c == b'-')) && ends_label (d ∷ s)

-- `_HOST_LABEL.fullmatch`
is_host_label : Text → Bool
unfolding ends_label
is_host_label [] = false
is_host_label (c ∷ []) = is_label_character c
is_host_label (c ∷ d ∷ s) =
    is_label_character c && (ends_label (d ∷ s) && leb (length (c ∷ d ∷ s)) 63)

all_labels : List Text → Bool
unfolding is_host_label
all_labels [] = true
all_labels (w ∷ ws) = is_host_label w && all_labels ws

-- `host.removesuffix(".")`
remove_trailing_dot : Text → Text
remove_trailing_dot [] = []
remove_trailing_dot (c ∷ []) = if c == b'.' then [] else c ∷ []
remove_trailing_dot (c ∷ d ∷ s) = c ∷ remove_trailing_dot (d ∷ s)

-- The part of `_normalize_host` for a host that is no IP address.
dns_host : Platform → Text → Checked (Text × Bool)
unfolding all_labels lower_all split_on
dns_host p host = do
  ascii ← or_refuse (p.idna host) invalid_url
  let ascii_host = lower_all ascii
  reject_if (ltb 253 (length ascii_host) || not (all_labels (split_on b'.' ascii_host))) invalid_url
  accept (ascii_host, false)

unfoldable pub normalize_host : Platform → Text → Checked (Text × Bool)
unfolding dns_host remove_trailing_dot member ends_with
normalize_host p raw_host = do
  reject_if (ends_with (codes "..") raw_host) invalid_url
  let host = remove_trailing_dot raw_host
  reject_if (text_eq host []) invalid_url
  reject_if (member b'%' host) invalid_url
  elim (p.ip_address host) [
    | some (compressed, v6) ↦ accept (compressed, v6)
    | none ↦ dns_host p host
  ]

-- `str(n)` for a number below 100000.
digits : ℕ → ℕ → Text → Text
digits zero n acc = acc
digits (suc f) n acc =
    let more = digits f (n / 10) ((b'0' + n % 10) ∷ acc) in
    if ltb n 10 then (b'0' + n) ∷ acc else more

abbrev with_port : Text → Option ℕ → Text
with_port authority none = authority
with_port authority (some n) = authority ++ b':' ∷ digits 5 n []

-- The port that is written: none where it is the scheme's own.
abbrev kept_port : Text → Option ℕ → Option ℕ
kept_port scheme none = none
kept_port scheme (some n) =
    if (text_eq scheme (codes "http") && (n == 80))
      || (text_eq scheme (codes "https") && (n == 443))
    then none
    else some n

abbrev bracketed : Text × Bool → Text
bracketed (host, true) = b'[' ∷ host ++ b']' ∷ []
bracketed (host, false) = host

abbrev or_root : Text → Text
or_root [] = b'/' ∷ []
or_root (c ∷ s) = c ∷ s

-- The part of `canonicalize_url` after `urlsplit`.
canonical_parts : Platform → SplitResult → Checked Text
unfolding normalize_host digits hostname port normalize_component remove_dot_segments urlunsplit
    is_path_safe is_query_safe member starts_with ends_with text_eq
canonical_parts p parsed = do
  reject_if (not (text_eq parsed.scheme (codes "http") || text_eq parsed.scheme (codes "https")))
      unsupported_scheme
  reject_if (member b'@' parsed.netloc) userinfo_not_allowed
  parsed_port ← or_refuse (port parsed.netloc) invalid_url
  raw_host ← or_refuse (hostname p parsed.netloc) invalid_url
  reject_if (text_eq raw_host []) invalid_url
  reject_if (ends_with (codes ":") parsed.netloc) invalid_url
  host ← normalize_host p raw_host
  reject_if (starts_with (codes "[") parsed.netloc && not host.1) invalid_url
  let authority = with_port (bracketed host) (kept_port parsed.scheme parsed_port)
  path ← or_refuse (normalize_component is_path_safe (or_root parsed.path)) invalid_url
  query ← or_refuse (normalize_component is_query_safe parsed.query) invalid_url
  accept (urlunsplit parsed.scheme authority (remove_dot_segments path) query)

unfoldable pub canonicalize_url : Platform → ℕ → Text → Checked Text
unfolding canonical_parts has_control urlsplit strip
canonicalize_url p max_length url = do
  reject_if (text_eq url []) invalid_url
  reject_if (ltb max_length (length url)) invalid_url
  reject_if (not (text_eq url (strip url))) invalid_url
  reject_if (has_control url) invalid_url
  parsed ← or_refuse (urlsplit p url) invalid_url
  canonical ← canonical_parts p parsed
  reject_if (ltb max_length (length canonical)) invalid_url
  accept canonical

abbrev hostname_of_split : Platform → Option SplitResult → Option Text
hostname_of_split p none = none
hostname_of_split p (some s) = hostname p s.netloc

-- `_host_from_canonical`: `none` is its `AssertionError`.
unfoldable pub host_from_canonical : Platform → Text → Option Text
unfolding urlsplit hostname
host_from_canonical p url = hostname_of_split p (urlsplit p url)

is_below_a_root : Text → List Text → Bool
unfolding ends_with
is_below_a_root host [] = false
is_below_a_root host (root ∷ roots) = ends_with (b'.' ∷ root) host || is_below_a_root host roots

unfoldable pub same_site : Platform → Text → List Text → Bool → Bool
unfolding text_member is_below_a_root
same_site p host roots allow_subdomains =
    if text_member host roots
    then true
    else if not allow_subdomains
    then false
    else elim (p.ip_address host) [ some ip ↦ false | none ↦ is_below_a_root host roots ]
