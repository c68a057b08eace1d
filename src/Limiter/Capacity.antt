-- ===== src/Limiter/Capacity.antt =====
-- app/services/rate_limiter.py: the bound of the registry.
use clusy_crawler.Base.{
  ℕ, zero, suc, ◌-◌, ◌≤◌, ◌≡◌, refl, inl, inr, Option, none, some, List, [], ◌∷◌, arith, Text,
  length, length-append, Bool-cases, Option-cases, ltb,
}
use clusy_crawler.Base.Dict.{get, remove}
use clusy_crawler.Frontier.Types.{text_key}
use clusy_crawler.Limiter.Registry
use clusy_crawler.Limiter.Eviction.{length-put, length-remove, length-remove_present}

-- The number of domains with a limiter of their own.
abbrev pub size : Registry.Registry → ℕ
size r = length r.limiters

evict_rounds-size :
    (settings : Registry.Settings) (clock : ℕ → ℕ) (fuel max_entries : ℕ) (r : Registry.Registry)
    → size (Registry.evict_rounds settings clock fuel max_entries r) ≤ size r
unfolding Registry.evict_rounds
evict_rounds-size settings clock zero max_entries r = omega arith
evict_rounds-size settings clock (suc fuel) max_entries r =
    elim (Bool-cases (ltb max_entries (length r.limiters))) [
      | inr small ↦ rw small (omega arith)
      | inl large ↦ rw large (
          searched (λ c. evict_rounds-size settings clock fuel max_entries (Registry.discard c r))
            (Registry.first_evictable settings (clock fuel) r r.limiters))
    ]
  where
    searched :
        ((c : Text)
          → size (Registry.evict_rounds settings clock fuel max_entries (Registry.discard c r))
            ≤ size (Registry.discard c r))
        → (o : Option Text)
        → size (Registry.after_search r (Registry.evict_rounds settings clock fuel max_entries) o)
          ≤ size r
    searched ih none = omega arith
    searched ih (some c) = let i = ih c in omega (arith, length-remove c r.limiters)

evict_to_limit-size :
    (settings : Registry.Settings) (clock : ℕ → ℕ) (max_entries : ℕ) (r : Registry.Registry)
    → size (Registry.evict_to_limit settings clock max_entries r) ≤ size r
unfolding Registry.evict_to_limit
evict_to_limit-size settings clock max_entries r =
    evict_rounds-size settings clock (length r.limiters) max_entries r

get_overflow_limiter-size :
    (r : Registry.Registry) → size (Registry.get_overflow_limiter r).1 ≡ size r
unfolding Registry.get_overflow_limiter
get_overflow_limiter-size r = elim (Option-cases r.overflow_limiter) [
  | inl e ↦ rw e refl
  | inr (l, e) ↦ rw e refl
]

choose_new-size :
    (settings : Registry.Settings) (domain : Text) (r : Registry.Registry)
    → size r ≤ settings.max_domains
    → size (Registry.choose_new settings domain r).1 ≤ settings.max_domains
unfolding Registry.create_limiter
choose_new-size settings domain r h =
    elim (Bool-cases (ltb (length r.limiters) settings.max_domains)) [
      | inl room ↦ rw room (ground (arith, length-put domain r.next_limiter r.limiters))
      | inr full ↦ rw full (omega (arith, get_overflow_limiter-size r))
    ]

choose-size :
    (settings : Registry.Settings) (clock : ℕ → ℕ) (domain : Text) (r : Registry.Registry)
    (o : Option ℕ)
    → get domain r.limiters ≡ o
    → size r ≤ settings.max_domains
    → size (Registry.choose settings clock domain r o).1 ≤ settings.max_domains
unfolding Registry.move_to_end
choose-size settings clock domain r none e h =
    choose_new-size settings domain
      (Registry.evict_to_limit settings clock (settings.max_domains - 1) r)
      (omega (arith, evict_to_limit-size settings clock (settings.max_domains - 1) r))
choose-size settings clock domain r (some l) e h = omega (
  arith,
  length-remove_present domain l r.limiters e,
  length-append (remove domain r.limiters) ((domain, l) ∷ []),
)

marked-size :
    (now : ℕ) (domain : Text) (t : Registry.Ticket × Registry.Registry)
    → size (Registry.marked now domain t).1 ≡ size t.1
unfolding Registry.mark_used
marked-size now domain (ticket, r) = elim (Bool-cases ticket.dedicated) [
  | inl e ↦ rw e refl
  | inr e ↦ rw e refl
]

step-size :
    (settings : Registry.Settings) (c : Registry.Call) (r : Registry.Registry)
    → size r ≤ settings.max_domains
    → size (Registry.step settings c r) ≤ settings.max_domains
unfolding Registry.step Registry.begin_acquire Registry.end_acquire
step-size settings (Registry.begins clock now domain) r h =
    let chosen = choose-size settings clock domain r _ refl h in
    omega (
      arith,
      marked-size now domain (Registry.choose settings clock domain r (get domain r.limiters)),
    )
step-size settings (Registry.ends clock now domain acquired) r h =
    omega (arith, evict_to_limit-size settings clock settings.max_domains _)
step-size settings (Registry.evicts_idle clock max_entries) r h =
    omega (arith, evict_to_limit-size settings clock max_entries r)
step-size settings Registry.changes_loop r h = omega arith

-- Over every history of calls, in whatever order the callers begin and end, the registry that started
-- within the bound has at most `rate_limit_max_domains` limiters of domains.
pub run-size :
    (settings : Registry.Settings) (cs : List Registry.Call) (r : Registry.Registry)
    → size r ≤ settings.max_domains
    → size (Registry.run settings cs r) ≤ settings.max_domains
unfolding Registry.run
run-size settings [] r h = h
run-size settings (c ∷ cs) r h =
    run-size settings cs (Registry.step settings c r) (step-size settings c r h)
