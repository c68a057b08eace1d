-- ===== src/Limiter/Eviction.antt =====
-- app/services/rate_limiter.py: the size of the registry, and what an eviction may take.
use clusy_crawler.Base.{
  ℕ, zero, suc, ◌+◌, ◌-◌, ◌*◌, max, Option-cases, ap, ◌≤◌, ◌≡◌, refl, sym, subst, ◌∙◌, of_some_eq,
  ◌⊎◌, inl, inr, true, false, Option, none, some, List, [], ◌∷◌, arith, Text, text_eq, text_eq_iff,
  length, Bool-cases, ltb,
}
use clusy_crawler.Base.Dict.{get, put, remove}
use clusy_crawler.Frontier.Types.{text_key}
use clusy_crawler.Limiter.Registry

pub length-put : (k : Text) (v : ℕ) (m : List (Text × ℕ)) → length (put k v m) ≤ suc (length m)
unfolding put
length-put k v [] = omega arith
length-put k v ((j, w) ∷ m) = elim (Bool-cases (text_eq j k)) [
  | inl e ↦ rw e (omega arith)
  | inr e ↦ rw e (omega (arith, length-put k v m))
]

pub length-remove : (k : Text) (m : List (Text × ℕ)) → length (remove k m) ≤ length m
unfolding remove
length-remove k [] = omega arith
length-remove k ((j, w) ∷ m) = elim (Bool-cases (text_eq j k)) [
  | inl e ↦ rw e (omega arith)
  | inr e ↦ rw e (omega (arith, length-remove k m))
]

pub length-remove_present :
    (k : Text) (v : ℕ) (m : List (Text × ℕ)) → get k m ≡ some v → length (remove k m) + 1 ≡ length m
unfolding remove get
length-remove_present k v [] h = absurd (cc h)
length-remove_present k v ((j, w) ∷ m) h = elim (Bool-cases (text_eq j k)) [
  | inl e ↦ rw e (omega arith)
  | inr e ↦ rw e (omega (arith, length-remove_present k v m (rw e at h)))
]

get-remove_other :
    (k j : Text) (m : List (Text × ℕ)) → text_eq k j ≡ false → get j (remove k m) ≡ get j m
unfolding remove get
get-remove_other k j [] n = refl
get-remove_other k j ((i, w) ∷ m) n = elim (Bool-cases (text_eq i k)) [
  | inl e ↦ rw (e, subst (λ t. text_eq t j ≡ false) (sym ((text_eq_iff i k).0 e)) n) refl
  | inr e ↦ rw e (elim (Bool-cases (text_eq i j)) [
    | inl q ↦ rw q refl
    | inr q ↦ rw q (get-remove_other k j m n)
  ])
]

first_evictable-some :
    (settings : Registry.Settings) (now : ℕ) (r : Registry.Registry) (ls : List (Text × ℕ))
    (d : Text)
    → Registry.first_evictable settings now r ls ≡ some d
    → Registry.is_evictable settings now r d ≡ true
unfolding Registry.first_evictable
first_evictable-some settings now r [] d h = absurd (cc h)
first_evictable-some settings now r ((c, l) ∷ ls) d h =
    elim (Bool-cases (Registry.is_evictable settings now r c)) [
      | inl e ↦
          subst (λ t. Registry.is_evictable settings now r t ≡ true) (of_some_eq (rw e at h)) e
      | inr e ↦ first_evictable-some settings now r ls d (rw e at h)
    ]

-- A limiter that is taken away was not in use, and its bucket had the time to fill up.
abbrev pub WasEvictable : Registry.Settings → (ℕ → ℕ) → Registry.Registry → Text → Type 0
WasEvictable settings clock r d = (n : ℕ) × (Registry.is_evictable settings (clock n) r d ≡ true)

abbrev Spares : Registry.Settings → (ℕ → ℕ) → Text → Registry.Registry → Registry.Registry → Type 0
Spares settings clock d r q =
    (get d q.limiters ≡ get d r.limiters) ⊎ WasEvictable settings clock r d

discard-Spares :
    (settings : Registry.Settings) (clock : ℕ → ℕ) (c d : Text) (r q : Registry.Registry)
    → text_eq c d ≡ false
    → Spares settings clock d (Registry.discard c r) q
    → Spares settings clock d r q
unfolding Registry.is_evictable
discard-Spares settings clock c d r q n (inl e) = inl (e ∙ get-remove_other c d r.limiters n)
discard-Spares settings clock c d r q n (inr (k, e)) =
    inr (k, rw (get-remove_other c d r.last_used n) at e)

evict_rounds-Spares :
    (settings : Registry.Settings) (clock : ℕ → ℕ) (fuel max_entries : ℕ) (d : Text)
    (r : Registry.Registry)
    → Spares settings clock d r (Registry.evict_rounds settings clock fuel max_entries r)
unfolding Registry.evict_rounds
evict_rounds-Spares settings clock zero max_entries d r = inl refl
evict_rounds-Spares settings clock (suc fuel) max_entries d r =
    elim (Bool-cases (ltb max_entries (length r.limiters))) [
      | inr small ↦ rw small (inl refl)
      | inl large ↦ rw large (
          searched
            (λ c. evict_rounds-Spares settings clock fuel max_entries d (Registry.discard c r))
            (Registry.first_evictable settings (clock fuel) r r.limiters)
            (first_evictable-some settings (clock fuel) r r.limiters))
    ]
  where
    searched :
        ((c : Text)
          → Spares settings clock d
              (Registry.discard c r)
              (Registry.evict_rounds settings clock fuel max_entries (Registry.discard c r)))
        → (o : Option Text)
        → ((c : Text) → o ≡ some c → Registry.is_evictable settings (clock fuel) r c ≡ true)
        → Spares settings clock d r
            (Registry.after_search r (Registry.evict_rounds settings clock fuel max_entries) o)
    searched ih none h = inl refl
    searched ih (some c) h = elim (Bool-cases (text_eq c d)) [
      | inl e ↦ inr (
        fuel,
        subst (λ t. Registry.is_evictable settings (clock fuel) r t ≡ true) ((text_eq_iff c d).0 e)
            (h c refl),
      )
      | inr n ↦
          discard-Spares settings clock c d r
            (Registry.evict_rounds settings clock fuel max_entries (Registry.discard c r)) n (ih c)
    ]

-- Nobody uses the domain, and since its last use its bucket had the time to fill up.
pub record IsIdle (settings : Registry.Settings) (clock : ℕ → ℕ) (r : Registry.Registry) (d : Text)
    : Type 0 where
  pub unused : (get d r.in_use ≡ none) ⊎ (get d r.in_use ≡ some 0)
  pub round : ℕ
  pub last : ℕ
  pub used_at : get d r.last_used ≡ some last
  pub refilled :
      max settings.burst 1 * 1000000000 ≤ (clock round - last) * max settings.requests_per_1000_s 1

WasEvictable-IsIdle :
    (settings : Registry.Settings) (clock : ℕ → ℕ) (r : Registry.Registry) (d : Text)
    → WasEvictable settings clock r d
    → IsIdle settings clock r d
unfolding Registry.is_evictable
WasEvictable-IsIdle settings clock r d (n, h) = elim (Option-cases (get d r.last_used)) [
  | inl never ↦ absurd (ground arith)
  | inr (last, known) ↦ record {
    unused = elim (Option-cases (get d r.in_use)) [
      | inl nobody ↦ inl nobody
      | inr (count, counted) ↦ inr (counted ∙ ap (λ k. some k) (ground arith))
    ];
    round = n;
    last = last;
    used_at = known;
    refilled = ground arith;
  }
]

-- An eviction leaves each domain with its limiter, or takes it from a domain that nobody is using and
-- whose bucket is full again: since its last use it had the time to fill up at its rate.
pub evict_to_limit-spares :
    (settings : Registry.Settings) (clock : ℕ → ℕ) (max_entries : ℕ) (d : Text)
    (r : Registry.Registry)
    → (get d (Registry.evict_to_limit settings clock max_entries r).limiters ≡ get d r.limiters)
      ⊎ IsIdle settings clock r d
unfolding Registry.evict_to_limit
evict_to_limit-spares settings clock max_entries d r =
    elim (evict_rounds-Spares settings clock (length r.limiters) max_entries d r) [
      | inl kept ↦ inl kept
      | inr taken ↦ inr (WasEvictable-IsIdle settings clock r d taken)
    ]
