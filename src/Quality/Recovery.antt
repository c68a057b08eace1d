-- ===== src/Quality/Recovery.antt =====
-- app/services/quality_extractor.py: the breaker of an extractor that nobody is using lets a probe through.
use clusy_crawler.Base.{◌≡◌, ◌⊎◌, true, List, [], ◌∷◌}
use clusy_crawler.Quality.Breaker.{Breaker}
use clusy_crawler.Quality.Extractor

-- Some request in progress is a probe.
abbrev HasProbe : List Extractor.Request → Type 0
HasProbe [] = ⊥
HasProbe (q ∷ qs) = (q.was_probe ≡ true) ⊎ HasProbe qs

-- A breaker that waits for its probe waits for a request in progress.
abbrev Attended : Breaker → List Extractor.Request → Type 0
Attended b qs = b.half_open_probe ≡ true → HasProbe qs
