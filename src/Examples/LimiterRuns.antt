-- ===== src/Examples/LimiterRuns.antt =====
-- app/services/rate_limiter.py: a registry for one domain.
use clusy_crawler.Base.{ℕ, ◌≤◌, ◌≡◌, refl, ◌⊎◌, none, true, List, [], ◌∷◌, codes, text_eq, arith}
use clusy_crawler.Base.Dict.{get, put, remove}
use clusy_crawler.Frontier.Types.{text_key}
use clusy_crawler.Limiter.Registry.{
  Settings, Registry, Call, begins, ends, run, begin_acquire, evict_to_limit,
}
use clusy_crawler.Limiter.Eviction.{IsIdle, evict_to_limit-spares}
use clusy_crawler.Limiter.Capacity.{size, run-size}

-- One token in a second.
abbrev settings : Settings
settings = record { max_domains = 1; burst = 1; requests_per_1000_s = 1000 }

abbrev empty : Registry
empty = record {
  limiters = [];
  last_used = [];
  in_use = [];
  overflow_limiter = none;
  next_limiter = 0;
}

abbrev clock : ℕ → ℕ
clock n = 2000000

-- The second domain shares the overflow limiter while the first one is in use, and gets a limiter of its own
-- once the first one's bucket is full.
abbrev calls : List Call
calls =
    begins clock 0 (codes "a")
    ∷ begins clock 1 (codes "b")
    ∷ ends clock 1000000 (codes "a") true
    ∷ []

run-domains : (run settings calls empty).limiters ≡ (codes "a", 0) ∷ []
unfolding run get put remove text_eq
run-domains = refl

begin_acquire-evicts :
    (begin_acquire settings clock 2000000 (codes "b") (run settings calls empty)).1.limiters
    ≡ (codes "b", 2) ∷ []
unfolding run begin_acquire get put remove text_eq
begin_acquire-evicts = refl

run-size_example : size (run settings calls empty) ≤ 1
run-size_example = run-size settings calls empty (omega arith)

evict_to_limit-spares_example :
    (get (codes "a") (evict_to_limit settings clock 0 (run settings calls empty)).limiters
      ≡ get (codes "a") (run settings calls empty).limiters)
    ⊎ IsIdle settings clock (run settings calls empty) (codes "a")
evict_to_limit-spares_example =
    evict_to_limit-spares settings clock 0 (codes "a") (run settings calls empty)
