-- ===== src/Url/Component.antt =====
-- app/services/frontier.py: `_normalize_component` and the character sets that it uses.
use clusy_crawler.Base.{
  ℕ, ◌+◌, ◌-◌, ◌*◌, ◌/◌, ◌%◌, Bool, ◌&&◌, ◌||◌, Option, none, some, List, [], ◌∷◌, ◌++◌, Text,
  codes, leb, ltb, ◌==◌, if◌then◌else◌, member,
}

-- `A` to `Z`, `a` to `z`, `0` to `9` and `-._~`
unfoldable pub is_unreserved : ℕ → Bool
is_unreserved c =
    (leb b'A' c && leb c b'Z')
    || (leb b'a' c && leb c b'z')
    || (leb b'0' c && leb c b'9')
    || (c == b'-')
    || (c == b'.')
    || (c == b'_')
    || (c == b'~')

unfoldable pub is_path_safe : ℕ → Bool
unfolding is_unreserved member
is_path_safe c = is_unreserved c || member c (codes "!$&'()*+,;=:@/")

unfoldable pub is_query_safe : ℕ → Bool
unfolding is_unreserved member
is_query_safe c = is_unreserved c || member c (codes "!$&'()*+,;=:@/?")

-- The value of a hexadecimal digit, of either case.
unfoldable pub hex_value : ℕ → Option ℕ
hex_value c =
    if leb b'0' c && leb c b'9'
    then some (c - b'0')
    else if leb b'A' c && leb c b'F'
    then some (c - b'A' + 10)
    else if leb b'a' c && leb c b'f'
    then some (c - b'a' + 10)
    else none

-- The upper-case digit of a value below 16.
unfoldable pub hex_digit : ℕ → ℕ
hex_digit n = if ltb n 10 then b'0' + n else b'A' + (n - 10)

-- f"%{byte:02X}"
unfoldable pub escape : ℕ → Text
unfolding hex_digit
escape byte = b'%' ∷ hex_digit (byte / 16) ∷ hex_digit (byte % 16) ∷ []

-- `character.encode("utf-8")`; a surrogate has no encoding.
unfoldable pub utf8 : ℕ → Option (List ℕ)
utf8 c =
    if ltb c 0x80
    then some (c ∷ [])
    else if ltb c 0x800
    then some ((0xc0 + c / 64) ∷ (0x80 + c % 64) ∷ [])
    else if leb 0xd800 c && leb c 0xdfff
    then none
    else if ltb c 0x10000
    then some ((0xe0 + c / 4096) ∷ (0x80 + c / 64 % 64) ∷ (0x80 + c % 64) ∷ [])
    else some
        ((0xf0 + c / 262144) ∷ (0x80 + c / 4096 % 64) ∷ (0x80 + c / 64 % 64) ∷ (0x80 + c % 64) ∷ [])

unfoldable pub escape_all : List ℕ → Text
unfolding escape
escape_all [] = []
escape_all (b ∷ bs) = escape b ++ escape_all bs

-- The replacement of an escape with the two digits' values.
unfoldable pub unescape : ℕ → ℕ → Text
unfolding is_unreserved escape
unescape high low =
    let byte = high * 16 + low in if is_unreserved byte then byte ∷ [] else escape byte

-- The replacement of one character that begins no escape.
unfoldable pub encode_character : (ℕ → Bool) → ℕ → Option Text
unfolding utf8 escape_all
encode_character safe c =
    if safe c
    then some (c ∷ [])
    else elim (utf8 c) [ none ↦ none | some bytes ↦ some (escape_all bytes) ]

-- Both parts, where there are both.
abbrev pub both : Option Text → Option Text → Option Text
both none t = none
both (some s) none = none
both (some s) (some t) = some (s ++ t)

abbrev pub unescaped : Option ℕ → Option ℕ → Option Text
unfolding unescape
unescaped none low = none
unescaped (some high) none = none
unescaped (some high) (some low) = some (unescape high low)

-- `_normalize_component`: `none` is its `UrlCanonicalizationError` for INVALID_URL.
unfoldable pub normalize_component : (ℕ → Bool) → Text → Option Text
unfolding hex_value encode_character unescape
normalize_component safe [] = some []
normalize_component safe (c ∷ a ∷ b ∷ s) =
    let plain = both (encode_character safe c) (normalize_component safe (a ∷ b ∷ s)) in
    let escaped = both (unescaped (hex_value a) (hex_value b)) (normalize_component safe s) in
    if c == b'%' then escaped else plain
normalize_component safe (c ∷ s) =
    let plain = both (encode_character safe c) (normalize_component safe s) in
    if c == b'%' then none else plain
