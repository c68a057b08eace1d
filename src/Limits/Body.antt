-- ===== src/Limits/Body.antt =====
-- app/middleware/resource_limits.py: `_content_length` and `_read_bounded_body`.
use clusy_crawler.Base.{
  ℕ, zero, suc, ◌+◌, ◌*◌, ◌-◌, Bool, true, ◌&&◌, ◌||◌, not, Option, none, some, List, [], ◌∷◌, ◌++◌,
  Text, codes, text_eq, leb, ltb, ◌==◌, if◌then◌else◌, length, is_digit, ℤ, pos, negsuc, pos_part,
}
use clusy_crawler.Url.Split.{lower_all}

-- White space for `int` of a byte string.
unfoldable pub is_blank : ℕ → Bool
is_blank c = (leb 9 c && leb c 13) || (c == 32)

unfoldable pub skip_blanks : Text → Text
unfolding is_blank
skip_blanks [] = []
skip_blanks (c ∷ s) = let rest = skip_blanks s in if is_blank c then rest else c ∷ s

unfoldable pub all_blank : Text → Bool
unfolding is_blank
all_blank [] = true
all_blank (c ∷ s) = is_blank c && all_blank s

-- Digits, with single underscores between them, up to trailing white space; `digits` counts them.
unfoldable pub digits_from : ℕ → ℕ → Text → Option (ℕ × ℕ)
unfolding is_digit all_blank is_blank
digits_from digits n [] = some (digits, n)
digits_from digits n (c ∷ []) =
    if is_digit c
    then some (suc digits, n * 10 + (c - b'0'))
    else if is_blank c
    then some (digits, n)
    else none
digits_from digits n (c ∷ d ∷ s) =
    let next = digits_from (suc digits) (n * 10 + (c - b'0')) (d ∷ s) in
    let after = digits_from (suc digits) (n * 10 + (d - b'0')) s in
    if is_digit c
    then next
    else if (c == b'_') && is_digit d
    then after
    else if is_blank c && all_blank (d ∷ s)
    then some (digits, n)
    else none

-- `int` refuses more than 4300 digits.
abbrev pub within_digits : Option (ℕ × ℕ) → Option ℕ
within_digits none = none
within_digits (some (digits, n)) = if leb digits 4300 then some n else none

unfoldable pub unsigned : Text → Option ℕ
unfolding digits_from is_digit
unsigned [] = none
unsigned (c ∷ s) = if is_digit c then within_digits (digits_from 0 0 (c ∷ s)) else none

abbrev pub negated : Option ℕ → Option ℤ
negated none = none
negated (some zero) = some (pos 0)
negated (some (suc n)) = some (negsuc n)

abbrev pub positive : Option ℕ → Option ℤ
positive none = none
positive (some n) = some (pos n)

abbrev pub signed : Text → Option ℤ
signed [] = none
signed (c ∷ s) =
    if c == b'-'
    then negated (unsigned s)
    else if c == b'+'
    then positive (unsigned s)
    else positive (unsigned (c ∷ s))

-- `int(raw_value)`: `none` is its `ValueError`.
unfoldable pub int_of : Text → Option ℤ
unfolding unsigned skip_blanks
int_of s = signed (skip_blanks s)

-- `max(value, 0)`
abbrev pub at_least_zero : Option ℤ → Option ℕ
at_least_zero none = none
at_least_zero (some z) = some (pos_part z)

-- `_content_length` of the headers: the first header of the name decides.
unfoldable pub content_length : List (Text × Text) → Option ℕ
unfolding int_of text_eq lower_all
content_length [] = none
content_length ((name, value) ∷ headers) =
    let rest = content_length headers in
    if text_eq (lower_all name) (codes "content-length") then at_least_zero (int_of value) else rest

-- An ASGI message: a missing body is empty, and a missing `more_body` is false.
pub data Message : Type 0 where
  disconnect : Message
  request : List ℕ → Bool → Message
  other_message : Message

-- What the reading comes to: a body, the excess, or a wait for a message that does not come.
pub data BodyRead : Type 0 where
  complete : List ℕ → BodyRead
  excessive : BodyRead
  waiting : BodyRead

-- The loop of `_read_bounded_body`, with the chunks so far.
unfoldable pub read_messages : ℕ → List ℕ → List Message → BodyRead
read_messages max_body_bytes chunks [] = waiting
read_messages max_body_bytes chunks (disconnect ∷ ms) = complete []
read_messages max_body_bytes chunks (other_message ∷ ms) = read_messages max_body_bytes chunks ms
read_messages max_body_bytes chunks (request chunk more_body ∷ ms) =
    let rest = read_messages max_body_bytes (chunks ++ chunk) ms in
    if ltb max_body_bytes (length chunks + length chunk)
    then excessive
    else if not more_body
    then complete (chunks ++ chunk)
    else rest

unfoldable pub read_bounded_body : ℕ → List Message → BodyRead
unfolding read_messages
read_bounded_body max_body_bytes messages = read_messages max_body_bytes [] messages
