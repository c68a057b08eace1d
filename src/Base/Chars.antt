-- ===== src/Base/Chars.antt =====
-- Python's `str` as the list of its code points.
use Prim.Native.Nat.{ℕ, compare, Ordering, ◌+◌, ◌*◌, ◌-◌}
use Prim.Native.Char.{code}
use Prim.Native.String.{String}
use mathlib.Core.Path.{◌≡◌, refl}
use mathlib.Core.Logic.{◌↔◌}
use mathlib.Core.Bool.{Bool, true, false, ◌&&◌, ◌||◌}
use mathlib.Core.List.{List, [], ◌∷◌, ◌++◌}
use mathlib.Core.Option.{Option, none, some}
use native.Mathlib.Omega.{arith}
use clusy_crawler.Base.Tests.{◌==◌, leb, if◌then◌else◌}

abbrev pub Text : Type 0
Text = List ℕ

-- The code points of a literal.
abbrev pub codes : String → Text
codes String.[] = []
codes (String.◌∷◌ c s) = code c ∷ codes s

unfoldable pub text_eq : Text → Text → Bool
text_eq [] [] = true
text_eq [] (d ∷ t) = false
text_eq (c ∷ s) [] = false
text_eq (c ∷ s) (d ∷ t) = (c == d) && text_eq s t

pub text_eq_iff : (s t : Text) → (text_eq s t ≡ true) ↔ (s ≡ t)
unfolding text_eq
text_eq_iff [] [] = (λ _. refl, λ _. refl)
text_eq_iff [] (d ∷ t) = (λ e. cc, λ e. cc)
text_eq_iff (c ∷ s) [] = (λ e. cc, λ e. cc)
text_eq_iff (c ∷ s) (d ∷ t) = ground (arith, text_eq_iff s t)

-- `a < b` on strings: by code points, a prefix first.
unfoldable pub text_ltb : Text → Text → Bool
text_ltb [] [] = false
text_ltb [] (d ∷ t) = true
text_ltb (c ∷ s) [] = false
text_ltb (c ∷ s) (d ∷ t) =
    let rest = text_ltb s t in
    elim (compare c d) [ Ordering.lt ↦ true | Ordering.eq ↦ rest | Ordering.gt ↦ false ]

unfoldable pub starts_with : Text → Text → Bool
starts_with [] s = true
starts_with (p ∷ ps) [] = false
starts_with (p ∷ ps) (c ∷ s) = (p == c) && starts_with ps s

unfoldable pub ends_with : Text → Text → Bool
unfolding text_eq
ends_with suffix [] = text_eq suffix []
ends_with suffix (c ∷ s) = text_eq suffix (c ∷ s) || ends_with suffix s

-- `c in frozenset(...)`
unfoldable pub member : ℕ → List ℕ → Bool
member c [] = false
member c (d ∷ ds) = (c == d) || member c ds

unfoldable pub text_member : Text → List Text → Bool
unfolding text_eq
text_member s [] = false
text_member s (t ∷ ts) = text_eq s t || text_member s ts

abbrev pub prepend : ℕ → List Text → List Text
prepend c [] = (c ∷ []) ∷ []
prepend c (w ∷ ws) = (c ∷ w) ∷ ws

-- `s.split(sep)` for a one-character separator: never empty.
unfoldable pub split_on : ℕ → Text → List Text
split_on sep [] = [] ∷ []
split_on sep (c ∷ s) = let rest = split_on sep s in if c == sep then [] ∷ rest else prepend c rest

-- `sep.join(ws)`
unfoldable pub join : ℕ → List Text → Text
join sep [] = []
join sep (w ∷ []) = w
join sep (w ∷ v ∷ ws) = w ++ sep ∷ join sep (v ∷ ws)

-- `s.partition(sep)`, with `none` in place of the last two where `sep` is not there.
unfoldable pub partition : ℕ → Text → Text × Option Text
partition sep [] = ([], none)
partition sep (c ∷ s) =
    let (before, after) = partition sep s in if c == sep then ([], some s) else (c ∷ before, after)

-- `str.isspace` above U+00FF
unfoldable pub is_wide_space : ℕ → Bool
is_wide_space c =
    (c == 0x1680)
    || (leb 0x2000 c && leb c 0x200a)
    || (c == 0x2028)
    || (c == 0x2029)
    || (c == 0x202f)
    || (c == 0x205f)
    || (c == 0x3000)

-- `str.isspace`
unfoldable pub is_space : ℕ → Bool
unfolding is_wide_space
is_space c =
    (leb 9 c && leb c 13) || (leb 28 c && leb c 32) || (c == 133) || (c == 160) || is_wide_space c

unfoldable pub lstrip : Text → Text
unfolding is_space
lstrip [] = []
lstrip (c ∷ s) = let rest = lstrip s in if is_space c then rest else c ∷ s

-- `s.rstrip()`
unfoldable pub rstrip : Text → Text
unfolding is_space
rstrip [] = []
rstrip (c ∷ s) = elim (rstrip s) [ [] ↦ if is_space c then [] else c ∷ [] | d ∷ t ↦ c ∷ d ∷ t ]

unfoldable pub strip : Text → Text
unfolding lstrip rstrip
strip s = rstrip (lstrip s)

unfoldable pub is_digit : ℕ → Bool
is_digit c = leb b'0' c && leb c b'9'

unfoldable pub digits_value : ℕ → Text → Option ℕ
unfolding is_digit
digits_value n [] = some n
digits_value n (c ∷ s) =
    let rest = digits_value (n * 10 + (c - b'0')) s in if is_digit c then rest else none

-- The value of a text with `s.isdecimal()`.
unfoldable pub decimal? : Text → Option ℕ
unfolding digits_value
decimal? [] = none
decimal? (c ∷ s) = digits_value 0 (c ∷ s)

-- `s.strip(sep)` for a one-character separator.
unfoldable pub lstrip_of : ℕ → Text → Text
lstrip_of sep [] = []
lstrip_of sep (c ∷ s) = let rest = lstrip_of sep s in if c == sep then rest else c ∷ s

unfoldable pub rstrip_of : ℕ → Text → Text
rstrip_of sep [] = []
rstrip_of sep (c ∷ s) = elim (rstrip_of sep s) [
  | [] ↦ if c == sep then [] else c ∷ []
  | d ∷ t ↦ c ∷ d ∷ t
]
