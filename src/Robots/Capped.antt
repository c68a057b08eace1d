-- ===== src/Robots/Capped.antt =====
-- app/services/robots.py: the size of the cache of `RobotsPolicyService`, and what `close` leaves of it.
use clusy_crawler.Base.{
  ℕ, ◌+◌, ◌≤◌, ◌≡◌, refl, ◌∙◌, Bool, true, Option, none, some, List, [], ◌∷◌, Text, length,
  length-append, ltb, ◌==◌, Bool-cases, Option-cases, inl, inr, arith,
}
use clusy_crawler.Base.Dict.{get, remove}
use clusy_crawler.Frontier.Types.{text_key}
use clusy_crawler.Robots.Policy.{FetchedPolicy}
use clusy_crawler.Robots.Service

-- At most `cache_max_entries` policies, and none after `close`.
abbrev pub IsCapped : ℕ → Service.Service → Type 0
IsCapped n s = (length s.cache ≤ n) × (s.closed ≡ true → s.cache ≡ [])

length-remove_found :
    (k : Text) (e : Service.CacheEntry) (m : List (Text × Service.CacheEntry))
    → get k m ≡ some e
    → length (remove k m) + 1 ≡ length m
unfolding get remove
length-remove_found k e [] h = cc
length-remove_found k e ((j, d) ∷ m) h = ground (arith, length-remove_found k e m)

length-remove : (k : Text) (m : List (Text × Service.CacheEntry)) → length (remove k m) ≤ length m
unfolding remove
length-remove k [] = omega arith
length-remove k ((j, d) ∷ m) = ground (arith, length-remove k m)

length-trim : (n : ℕ) (m : List (Text × Service.CacheEntry)) → length (Service.trim n m) ≤ n
unfolding Service.trim
length-trim n [] = omega arith
length-trim n (item ∷ m) = ground (arith, length-trim n m)

length-move_to_end :
    (k : Text) (e d : Service.CacheEntry) (m : List (Text × Service.CacheEntry))
    → get k m ≡ some d
    → length (Service.move_to_end k e m) ≡ length m
unfolding Service.move_to_end
length-move_to_end k e d m h =
    length-append (remove k m) ((k, e) ∷ []) ∙ length-remove_found k d m h

enter-IsCapped :
    (n now : ℕ) (key : Text) (s : Service.Service)
    → IsCapped n s
    → IsCapped n (Service.enter now key s).1
unfolding Service.enter Service.join_flight
enter-IsCapped n now key s h = elim (Bool-cases s.closed) [
  | inl shut ↦ rw shut (h.0, λ q. h.1 shut)
  | inr open_ ↦ elim (Option-cases (get key s.cache)) [
    | inl missing ↦ rw (open_, missing) (h.0, λ q. absurd (ground arith))
    | inr (e, found) ↦ elim (Bool-cases (ltb now e.expires_at)) [
      | inl fresh ↦
          let same = length-move_to_end key e e s.cache found in
          rw (open_, found, fresh) (omega (arith, same, h.0), λ q. absurd (ground arith))
      | inr old ↦
          let fewer = length-remove key s.cache in
          rw (open_, found, old) (omega (arith, fewer, h.0), λ q. absurd (ground arith))
    ]
  ]
]

store-IsCapped :
    (n now : ℕ) (key : Text) (fetched : Option FetchedPolicy) (s : Service.Service)
    → IsCapped n s
    → IsCapped n (Service.store n now key fetched s)
unfolding Service.store
store-IsCapped n now key none s h = h
store-IsCapped n now key (some f) s h = elim (Bool-cases s.closed) [
  | inl shut ↦ rw shut (h.0, λ q. h.1 shut)
  | inr open_ ↦ rw open_ (length-trim n _, λ q. absurd (ground arith))
]

end_flight-IsCapped :
    (n : ℕ) (key : Text) (task : ℕ) (s : Service.Service) (o : Option Service.Flight)
    → IsCapped n s
    → IsCapped n (Service.end_flight key task s o)
end_flight-IsCapped n key task s none h = h
end_flight-IsCapped n key task s (some flight) h = elim (Bool-cases (flight.task == task)) [
  | inl same ↦ rw same h
  | inr other ↦ rw other h
]

released-IsCapped :
    (n : ℕ) (key : Text) (task : ℕ) (d : Bool) (s : Service.Service) (o : Option Service.Flight)
    → IsCapped n s
    → IsCapped n (Service.released key task d s o).1
released-IsCapped n key task d s none h = h
released-IsCapped n key task d s (some flight) h = elim (Bool-cases (flight.task == task)) [
  | inl same ↦ rw same h
  | inr other ↦ rw other h
]

step-IsCapped :
    (n : ℕ) (c : Service.Call) (s : Service.Service)
    → IsCapped n s
    → IsCapped n (Service.step n c s)
unfolding Service.step Service.finish_fetch Service.release_waiter
step-IsCapped n (Service.enters now key) s h = enter-IsCapped n now key s h
step-IsCapped n (Service.finishes now key task fetched) s h =
    let stored = Service.store n now key fetched s in
    let (small, gone) = store-IsCapped n now key fetched s h in
    end_flight-IsCapped n key task stored (get key stored.flights) (small, gone)
step-IsCapped n (Service.releases key task d) s h =
    released-IsCapped n key task d s (get key s.flights) h
step-IsCapped n Service.begins_close s h = (omega arith, λ q. refl)
step-IsCapped n Service.ends_close s h = h

run-IsCapped_from :
    (n : ℕ) (cs : List Service.Call) (s : Service.Service)
    → IsCapped n s
    → IsCapped n (Service.run n cs s)
unfolding Service.run
run-IsCapped_from n [] s h = h
run-IsCapped_from n (c ∷ cs) s h =
    run-IsCapped_from n cs (Service.step n c s) (step-IsCapped n c s h)

-- Whatever calls a new service had, its cache holds at most cache_max_entries policies, and none once close has begun, also when a fetch ends after that.
pub run-IsCapped :
    (max_entries : ℕ) (cs : List Service.Call)
    → IsCapped max_entries (Service.run max_entries cs Service.new_service)
run-IsCapped max_entries cs =
    run-IsCapped_from max_entries cs Service.new_service (omega arith, λ q. refl)
