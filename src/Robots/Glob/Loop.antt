-- ===== src/Robots/Glob/Loop.antt =====
-- app/services/robots.py: `_glob_matches`. An index stands as the text from that index on.
use clusy_crawler.Base.{
  ℕ, zero, suc, ◌*◌, Bool, true, false, ◌&&◌, Option, none, some, [], ◌∷◌, Text, length,
  if◌then◌else◌, ◌==◌,
}
use clusy_crawler.Robots.Glob.Meaning.{star}

-- `star_index + 1` and `retry_value_index`, once there has been a star.
abbrev pub Back : Type 0
Back = Option (Text × Text)

-- The second loop, and the test behind it.
unfoldable pub only_stars : Text → Bool
only_stars [] = true
only_stars (d ∷ p) = (d == star) && only_stars p

-- `if star_index >= 0`, where `next` is the next round.
abbrev pub retry : Back → (Text → Text → Back → Option Bool) → Option Bool
retry none next = some false
retry (some (p, [])) next = next p [] (some (p, []))
retry (some (p, c ∷ v)) next = next p v (some (p, v))

-- The first loop; `none` says that the fuel ran out.
unfoldable pub glob_loop : ℕ → Text → Text → Back → Option Bool
unfolding only_stars
glob_loop zero p v back = none
glob_loop (suc f) p [] back = some (only_stars p)
glob_loop (suc f) [] (c ∷ v) back = retry back (glob_loop f)
glob_loop (suc f) (d ∷ p) (c ∷ v) back =
    let same = glob_loop f p v back in
    let starred = glob_loop f p (c ∷ v) (some (p, c ∷ v)) in
    let other = retry back (glob_loop f) in
    if d == c then same else if d == star then starred else other

abbrev pub or_false : Option Bool → Bool
or_false none = false
or_false (some b) = b

-- Enough rounds for any run.
abbrev pub rounds : Text → Text → ℕ
rounds pattern value = suc (length value) * suc (length pattern)

unfoldable pub glob_matches : Text → Text → Bool
unfolding glob_loop
glob_matches pattern value = or_false (glob_loop (rounds pattern value) pattern value none)
