-- ===== src/Examples/ServiceRuns.antt =====
-- app/services/robots.py: the cache of `RobotsPolicyService`, on concrete histories.
use clusy_crawler.Base.{ℕ, ◌<◌, ◌≡◌, refl, true, none, some, List, [], ◌∷◌, ◌++◌, Text, text_eq}
use clusy_crawler.Base.Dict.{get, put, remove}
use clusy_crawler.Frontier.Types.{text_key}
use clusy_crawler.Robots.Policy.{Policy, FetchedPolicy, missing}
use clusy_crawler.Robots.Service
use clusy_crawler.Robots.Cached.{Stored, enter-hit}
use clusy_crawler.Robots.Shared.{enter-enter}
use clusy_crawler.Robots.Capped.{IsCapped, run-IsCapped}

abbrev origin : Text
origin = 97 ∷ []

abbrev other_origin : Text
other_origin = 98 ∷ []

abbrev open_policy : Policy
open_policy = record { rules = none; default_allowed = true; reason = missing; status_code = 404 }

abbrev fetched : FetchedPolicy
fetched = record { policy = open_policy; ttl_s = 10 }

-- Two checks of one origin share a fetch.
abbrev history : List Service.Call
history =
    Service.enters 1 origin
    ∷ Service.enters 2 origin
    ∷ Service.finishes 3 origin 0 (some fetched)
    ∷ []

second_waits :
    (Service.enter 2 origin (Service.run 1 (Service.enters 1 origin ∷ []) Service.new_service)).0
    ≡ Service.waits 0
unfolding Service.enter Service.run Service.join_flight get put text_eq
second_waits = refl

-- The oldest policy goes when there is room for one.
other_evicts :
    get origin
      (Service.run 1
        (history ++ Service.finishes 4 other_origin 1 (some fetched) ∷ [])
        Service.new_service).cache
    ≡ none
unfolding Service.run Service.store Service.trim Service.move_to_end Service.finish_fetch get put
    remove text_eq
other_evicts = refl

-- At its expiry a policy is fetched again.
expired_waits :
    (Service.enter 10000003 origin (Service.run 1 history Service.new_service)).0 ≡ Service.waits 1
unfolding Service.enter Service.run Service.join_flight Service.store Service.trim
    Service.move_to_end get put remove text_eq
expired_waits = refl

known_hits :
    (Service.enter 4 origin (Service.run 1 history Service.new_service)).0 ≡ Service.hit open_policy
unfolding Service.enter Service.run Service.join_flight Service.store Service.trim
    Service.move_to_end get put remove text_eq
known_hits = refl

enter-hit_example :
    (e : Service.CacheEntry) × Stored history origin e
    × (e.policy ≡ open_policy)
    × (4 < e.expires_at)
enter-hit_example = enter-hit 1 4 history origin open_policy known_hits

run-IsCapped_example : IsCapped 1 (Service.run 1 history Service.new_service)
run-IsCapped_example = run-IsCapped 1 history

-- A check of another origin comes between.
first_waits : (Service.enter 1 origin Service.new_service).0 ≡ Service.waits 0
unfolding Service.enter Service.join_flight get put
first_waits = refl

third_waits :
    (Service.enter 3 origin (
      Service.run 1
        (Service.enters 2 other_origin ∷ [])
        (Service.enter 1 origin Service.new_service).1)).0
    ≡ Service.waits 0
unfolding Service.enter Service.run Service.join_flight get put text_eq
third_waits = refl

abbrev first_task : ℕ
first_task = 0

abbrev third_task : ℕ
third_task = 0

enter-enter_example : third_task ≡ first_task
enter-enter_example =
    enter-enter 1 1 3 origin Service.new_service first_task third_task
      (Service.enters 2 other_origin ∷ []) first_waits (tt, tt) third_waits
