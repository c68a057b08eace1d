-- ===== src/Url/Segments.antt =====
-- app/services/frontier.py: `_remove_dot_segments`.
use clusy_crawler.Base.{
  ℕ, Bool, ◌&&◌, ◌||◌, not, List, [], ◌∷◌, ◌++◌, Text, codes, text_eq, ◌==◌, if◌then◌else◌,
  split_on, join, ends_with,
}

abbrev pub slash : ℕ
slash = b'/'

-- `output` without its last segment, if it has more than one.
unfoldable pub pop_last : List Text → List Text
pop_last [] = []
pop_last (w ∷ []) = w ∷ []
pop_last (w ∷ v ∷ []) = w ∷ []
pop_last (w ∷ v ∷ u ∷ ws) = w ∷ pop_last (v ∷ u ∷ ws)

-- The loop over the segments.
unfoldable pub resolve : List Text → List Text → List Text
unfolding text_eq pop_last
resolve [] output = output
resolve (w ∷ ws) output = resolve ws (
    if text_eq w (codes ".")
    then output
    else if text_eq w (codes "..")
    then pop_last output
    else output ++ w ∷ [])

abbrev pub with_leading_slash : Text → Text
with_leading_slash [] = slash ∷ []
with_leading_slash (c ∷ s) = if c == slash then c ∷ s else slash ∷ c ∷ s

abbrev pub has_trailing_slash : Text → Bool
has_trailing_slash path =
    ends_with (codes "/") path || ends_with (codes "/.") path || ends_with (codes "/..") path

unfoldable pub remove_dot_segments : Text → Text
unfolding split_on resolve join ends_with
remove_dot_segments path =
    let normalized = with_leading_slash (join slash (resolve (split_on slash path) [])) in
    if has_trailing_slash path && not (ends_with (codes "/") normalized)
    then normalized ++ slash ∷ []
    else normalized
