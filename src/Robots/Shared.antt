-- ===== src/Robots/Shared.antt =====
-- app/services/robots.py: the fetch that the checks of one origin share in `RobotsPolicyService`.
use clusy_crawler.Base.{
  ℕ, ◌≡◌, refl, sym, ap, subst, ◌∙◌, Bool, true, false, Option, none, some, List, [], ◌∷◌, Text,
  text_eq, text_eq_iff, ltb, ◌==◌, ◌&&◌, All, if◌then◌else◌, Bool-cases, Option-cases, inl, inr,
  arith,
}
use clusy_crawler.Base.Dict.{get, put, remove, get-put, get-put_self}
use clusy_crawler.Frontier.Types.{text_key}
use clusy_crawler.Robots.Policy.{FetchedPolicy}
use clusy_crawler.Robots.Service

-- The task is the fetch of the origin.
abbrev pub IsShared : Text → ℕ → List (Text × Service.Flight) → Type 0
IsShared key task flights = (f : Service.Flight) × (get key flights ≡ some f) × (f.task ≡ task)

-- The call does not end this fetch, nor the service.
abbrev pub Leaves : Text → ℕ → Service.Call → Type 0
Leaves key task (Service.finishes now j ended fetched) = (text_eq j key && (ended == task)) ≡ false
Leaves key task (Service.enters now j) = Unit {0}
Leaves key task (Service.releases j ended is_done) = Unit {0}
Leaves key task Service.begins_close = Unit {0}
Leaves key task Service.ends_close = ⊥

get-remove_other :
    (j key : Text) (m : List (Text × Service.Flight))
    → text_eq j key ≡ false
    → get key (remove j m) ≡ get key m
unfolding get remove
get-remove_other j key [] n = refl
get-remove_other j key ((i, f) ∷ m) n =
    ground (arith, get-remove_other j key m, text_eq_iff i j, text_eq_iff i key, text_eq_iff j key)

put-IsShared :
    (j key : Text) (task : ℕ) (g : Service.Flight) (m : List (Text × Service.Flight))
    → IsShared key task m
    → (text_eq j key ≡ true → g.task ≡ task)
    → IsShared key task (put j g m)
put-IsShared j key task g m (f, found, same) h = elim (Bool-cases (text_eq j key)) [
  | inl own ↦ (g, rw (get-put, own) refl, h own)
  | inr other ↦ (f, rw (get-put, other) found, same)
]

-- A flight that takes the place of the origin's has its task.
flight_of-task :
    (j key : Text) (task next : ℕ) (m : List (Text × Service.Flight))
    → IsShared key task m
    → text_eq j key ≡ true
    → (Service.flight_of next (get j m)).task ≡ task
flight_of-task j key task next m (f, found, same) own =
    let e : j ≡ key = (text_eq_iff j key).0 own in
    ap (λ i. (Service.flight_of next (get i m)).task) e
    ∙ ap (λ o. (Service.flight_of next o).task) found
    ∙ same

join_flight-IsShared :
    (j key : Text) (task : ℕ) (s : Service.Service)
    → IsShared key task s.flights
    → IsShared key task (Service.join_flight j s).1.flights
unfolding Service.join_flight
join_flight-IsShared j key task s h =
    put-IsShared j key task _ s.flights h (flight_of-task j key task s.next_task s.flights h)

enter-IsShared :
    (now : ℕ) (j key : Text) (task : ℕ) (s : Service.Service)
    → IsShared key task s.flights
    → IsShared key task (Service.enter now j s).1.flights
unfolding Service.enter
enter-IsShared now j key task s h = elim (Bool-cases s.closed) [
  | inl shut ↦ rw shut h
  | inr open_ ↦ elim (Option-cases (get j s.cache)) [
    | inl missing ↦
        rw (open_, missing) (join_flight-IsShared j key task (record s { closed = false }) h)
    | inr (e, found) ↦ elim (Bool-cases (ltb now e.expires_at)) [
      | inl fresh ↦ rw (open_, found, fresh) h
      | inr old ↦
          rw (open_, found, old)
            (join_flight-IsShared j key task (record s { closed = false; cache = remove j s.cache })
              h)
    ]
  ]
]

end_flight-IsShared :
    (j key : Text) (ended task : ℕ) (s : Service.Service)
    → (text_eq j key && (ended == task)) ≡ false
    → IsShared key task s.flights
    → IsShared key task (Service.end_flight j ended s (get j s.flights)).flights
end_flight-IsShared j key ended task s other h = elim (Option-cases (get j s.flights)) [
  | inl missing ↦ rw missing h
  | inr (g, known) ↦ elim (Bool-cases (g.task == ended)) [
    | inl same ↦
        let kept = flight_of-task j key task 0 s.flights h in
        let apart : text_eq j key ≡ false = elim (Bool-cases (text_eq j key)) [
          | inl own ↦ let its : g.task ≡ task = rw known at (kept own) in absurd (ground arith)
          | inr differs ↦ differs
        ] in
        rw (known, same) (h.0, get-remove_other j key s.flights apart ∙ h.1, h.2)
    | inr differs ↦ rw (known, differs) h
  ]
]

store-flights :
    (n now : ℕ) (j : Text) (fetched : Option FetchedPolicy) (s : Service.Service)
    → (Service.store n now j fetched s).flights ≡ s.flights
unfolding Service.store
store-flights n now j none s = refl
store-flights n now j (some f) s = elim (Bool-cases s.closed) [
  | inl shut ↦ rw shut refl
  | inr open_ ↦ rw open_ refl
]

finish_fetch-IsShared :
    (n now : ℕ) (j key : Text) (ended task : ℕ) (fetched : Option FetchedPolicy)
    (s : Service.Service)
    → (text_eq j key && (ended == task)) ≡ false
    → IsShared key task s.flights
    → IsShared key task (Service.finish_fetch n now j ended fetched s).flights
unfolding Service.finish_fetch
finish_fetch-IsShared n now j key ended task fetched s other h =
    let stored = Service.store n now j fetched s in
    end_flight-IsShared j key ended task stored other
      (subst (IsShared key task) (sym (store-flights n now j fetched s)) h)

release_waiter-IsShared :
    (j key : Text) (ended task : ℕ) (d : Bool) (s : Service.Service)
    → IsShared key task s.flights
    → IsShared key task (Service.release_waiter j ended d s).1.flights
unfolding Service.release_waiter
release_waiter-IsShared j key ended task d s h = elim (Option-cases (get j s.flights)) [
  | inl missing ↦ rw missing h
  | inr (g, known) ↦ elim (Bool-cases (g.task == ended)) [
    | inl same ↦
        let kept = flight_of-task j key task 0 s.flights h in
        rw (known, same) (put-IsShared j key task _ s.flights h (λ own. rw known at (kept own)))
    | inr differs ↦ rw (known, differs) h
  ]
]

step-IsShared :
    (n : ℕ) (key : Text) (task : ℕ) (c : Service.Call) (s : Service.Service)
    → Leaves key task c
    → IsShared key task s.flights
    → IsShared key task (Service.step n c s).flights
unfolding Service.step
step-IsShared n key task (Service.enters now j) s l h = enter-IsShared now j key task s h
step-IsShared n key task (Service.finishes now j ended fetched) s l h =
    finish_fetch-IsShared n now j key ended task fetched s l h
step-IsShared n key task (Service.releases j ended d) s l h =
    release_waiter-IsShared j key ended task d s h
step-IsShared n key task Service.begins_close s l h = h
step-IsShared n key task Service.ends_close s l h = absurd l

run-IsShared :
    (n : ℕ) (key : Text) (task : ℕ) (cs : List Service.Call) (s : Service.Service)
    → All (Leaves key task) cs
    → IsShared key task s.flights
    → IsShared key task (Service.run n cs s).flights
unfolding Service.run
run-IsShared n key task [] s l h = h
run-IsShared n key task (c ∷ cs) s l h =
    run-IsShared n key task cs (Service.step n c s) l.1 (step-IsShared n key task c s l.0 h)

-- A check that waits has joined the fetch of the origin, or started it.
abbrev Joins : Text → ℕ → Service.Service → Service.Entrance × Service.Service → Type 0
Joins key task s r =
    ((Service.flight_of s.next_task (get key s.flights)).task ≡ task)
    × IsShared key task r.1.flights

join_flight-Joins :
    (key : Text) (s : Service.Service) (task : ℕ)
    → (Service.join_flight key s).0 ≡ Service.waits task
    → Joins key task s (Service.join_flight key s)
unfolding Service.join_flight
join_flight-Joins key s task h =
    let joined : (Service.flight_of s.next_task (get key s.flights)).task ≡ task = ground arith in
    (joined, (_, get-put_self key _ s.flights, joined))

look_up-Joins :
    (now : ℕ) (key : Text) (s : Service.Service) (o : Option Service.CacheEntry) (task : ℕ)
    → (Service.look_up now key s o).0 ≡ Service.waits task
    → Joins key task s (Service.look_up now key s o)
look_up-Joins now key s none task h = join_flight-Joins key s task h
look_up-Joins now key s (some e) task h = elim (Bool-cases (ltb now e.expires_at)) [
  | inl fresh ↦ absurd (ground arith)
  | inr old ↦
      rw old (join_flight-Joins key (record s { cache = remove key s.cache }) task (rw old at h))
]

if-waits :
    (b : Bool) (s : Service.Service) (r : Service.Entrance × Service.Service) (task : ℕ)
    → (if b then (Service.refused, s) else r).0 ≡ Service.waits task
    → (if b then (Service.refused, s) else r) ≡ r
if-waits true s r task h = absurd (ground arith)
if-waits false s r task h = refl

enter-Joins :
    (now : ℕ) (key : Text) (s : Service.Service) (task : ℕ)
    → (Service.enter now key s).0 ≡ Service.waits task
    → Joins key task s (Service.enter now key s)
unfolding Service.enter
enter-Joins now key s task h =
    let looked = Service.look_up now key s (get key s.cache) in
    let same : Service.enter now key s ≡ looked = if-waits s.closed s looked task h in
    subst (Joins key task s) (sym same) (
      look_up-Joins now key s (get key s.cache) task (subst (λ r. r.0 ≡ Service.waits task) same h))

-- A check that waits for a fetch and a later one of the same origin that waits wait for the same fetch, whatever calls come between, when none of them ends that fetch or the service.
pub enter-enter :
    (n now later : ℕ) (key : Text) (s : Service.Service) (task other : ℕ) (cs : List Service.Call)
    → (Service.enter now key s).0 ≡ Service.waits task
    → All (Leaves key task) cs
    → (Service.enter later key (Service.run n cs (Service.enter now key s).1)).0
      ≡ Service.waits other
    → other ≡ task
enter-enter n now later key s task other cs first between second =
    let after = Service.run n cs (Service.enter now key s).1 in
    let shared =
      run-IsShared n key task cs (Service.enter now key s).1 between
        (enter-Joins now key s task first).1 in
    sym (enter-Joins later key after other second).0
    ∙ ap (λ o. (Service.flight_of after.next_task o).task) shared.1
    ∙ shared.2
