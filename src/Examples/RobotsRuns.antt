-- ===== src/Examples/RobotsRuns.antt =====
-- app/services/robots.py on a few rules.
use clusy_crawler.Base.{
  ℕ, ◌≡◌, refl, ◌⊎◌, none, some, Bool, true, false, List, [], ◌∷◌, Text, codes,
}
use clusy_crawler.Url.Split.{SplitResult}
use clusy_crawler.Robots.Glob.Meaning.{describes, IsPlain}
use clusy_crawler.Robots.Glob.Loop.{glob_matches, glob_loop, rounds}
use clusy_crawler.Robots.Glob.Verdict.{glob_matches-eq-describes}
use clusy_crawler.Robots.Rules.{Rule, parse_rule, path_query, is_robots_resource, evaluate_split}
use clusy_crawler.Robots.Precedence.{IsLongestMatch, evaluate_split-IsLongestMatch}

abbrev php : Text
php = codes "/*.php"

php-IsPlain : IsPlain (codes "/a.php")
php-IsPlain = (refl, (refl, (refl, (refl, (refl, (refl, tt))))))

glob_matches-php : glob_matches php (codes "/a.php") ≡ true
unfolding glob_matches
glob_matches-php = refl

glob_matches-html : glob_matches php (codes "/a.html") ≡ false
unfolding glob_matches
glob_matches-html = refl

glob_matches-eq-describes_example :
    (glob_loop (rounds php (codes "/a.php")) php (codes "/a.php") none
      ≡ some (describes php (codes "/a.php")))
    × (glob_matches php (codes "/a.php") ≡ describes php (codes "/a.php"))
glob_matches-eq-describes_example = glob_matches-eq-describes php (codes "/a.php") php-IsPlain

-- The parser's rule and the URL's path around the same defect.
rejected-php : glob_matches php (codes "/*x.php") ≡ false
unfolding glob_matches
rejected-php = refl

abbrev rule : Bool → Text → ℕ → Rule
rule allow pattern n = record {
  allow = allow;
  pattern = pattern;
  end_anchored = false;
  specificity = n;
}

parse_rule-private :
    parse_rule (codes "/private**/") false ≡ some (rule false (codes "/private*/") 9)
unfolding parse_rule
parse_rule-private = refl

abbrev rules : List Rule
rules = rule false (codes "/p") 2 ∷ rule true (codes "/page") 5 ∷ []

abbrev split_of : Text → SplitResult
split_of path = record { scheme = codes "http"; netloc = codes "a.b"; path = path; query = [] }

evaluate_split-page : evaluate_split rules (split_of (codes "/page/1")) ≡ (true, 5)
unfolding evaluate_split
evaluate_split-page = refl

evaluate_split-pal : evaluate_split rules (split_of (codes "/pal")) ≡ (false, 2)
unfolding evaluate_split
evaluate_split-pal = refl

evaluate_split-IsLongestMatch_example :
    ((is_robots_resource (split_of (codes "/pal")) ≡ true)
      × (evaluate_split rules (split_of (codes "/pal")) ≡ (true, 0)))
    ⊎ IsLongestMatch
        (path_query (split_of (codes "/pal")))
        rules
        (evaluate_split rules (split_of (codes "/pal")))
evaluate_split-IsLongestMatch_example =
    evaluate_split-IsLongestMatch rules (split_of (codes "/pal"))
