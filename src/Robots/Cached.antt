-- ===== src/Robots/Cached.antt =====
-- app/services/robots.py: where a policy in the cache of `RobotsPolicyService` comes from.
use clusy_crawler.Base.{
  ℕ, ◌<◌, ◌≡◌, refl, sym, ap, subst, Bool, Option, none, some, List, [], ◌∷◌, ◌++◌, Text, length,
  ltb, ◌==◌, if◌then◌else◌, Bool-cases, Option-cases, ◌⊎◌, inl, inr, arith,
}
use clusy_crawler.Base.Dict.{get, put, remove, Every, Every-get, Every-put, Every-mono}
use clusy_crawler.Frontier.Types.{text_key}
use clusy_crawler.Robots.Policy.{Policy, FetchedPolicy}
use clusy_crawler.Robots.Service

-- A call puts the entry into the cache at the key.
abbrev pub Stores : Service.Call → Text → Service.CacheEntry → Type 0
Stores (Service.finishes now key task (some fetched)) k e =
    (k ≡ key) × (e ≡ Service.entry_of now fetched)
Stores (Service.finishes now key task none) k e = ⊥
Stores (Service.enters now key) k e = ⊥
Stores (Service.releases key task is_done) k e = ⊥
Stores Service.begins_close k e = ⊥
Stores Service.ends_close k e = ⊥

-- One of the calls does.
abbrev pub Stored : List Service.Call → Text → Service.CacheEntry → Type 0
Stored [] k e = ⊥
Stored (c ∷ cs) k e = Stores c k e ⊎ Stored cs k e

abbrev Entries : Type 1
Entries = Text → Service.CacheEntry → Type 0

module _ (P : Entries) where
  Every-remove :
      (k : Text) (m : List (Text × Service.CacheEntry)) → Every P m → Every P (remove k m)
  unfolding remove
  Every-remove k [] h = tt
  Every-remove k ((j, e) ∷ m) h = elim (Bool-cases (text_key.beq j k)) [
    | inl same ↦ rw same h.1
    | inr other ↦ rw other (h.0, Every-remove k m h.1)
  ]

  Every-append :
      (m m' : List (Text × Service.CacheEntry)) → Every P m → Every P m' → Every P (m ++ m')
  Every-append [] m' h h' = h'
  Every-append ((k, e) ∷ m) m' h h' = (h.0, Every-append m m' h.1 h')

  Every-trim :
      (n : ℕ) (m : List (Text × Service.CacheEntry)) → Every P m → Every P (Service.trim n m)
  unfolding Service.trim
  Every-trim n [] h = tt
  Every-trim n ((k, e) ∷ m) h = elim (Bool-cases (ltb n (length ((k, e) ∷ m)))) [
    | inl over ↦ rw over (Every-trim n m h.1)
    | inr within ↦ rw within h
  ]

  Every-move_to_end :
      (k : Text) (e : Service.CacheEntry) (m : List (Text × Service.CacheEntry))
      → Every P m
      → P k e
      → Every P (Service.move_to_end k e m)
  unfolding Service.move_to_end
  Every-move_to_end k e m h p = Every-append (remove k m) ((k, e) ∷ []) (Every-remove k m h) (p, tt)

  -- A check leaves entries of the cache that were there.
  enter-Every :
      (now : ℕ) (key : Text) (s : Service.Service)
      → Every P s.cache
      → Every P (Service.enter now key s).1.cache
  unfolding Service.enter Service.join_flight
  enter-Every now key s h = elim (Bool-cases s.closed) [
    | inl shut ↦ rw shut h
    | inr open_ ↦ elim (Option-cases (get key s.cache)) [
      | inl missing ↦ rw (open_, missing) h
      | inr (e, found) ↦ elim (Bool-cases (ltb now e.expires_at)) [
        | inl fresh ↦
            rw (open_, found, fresh)
              (Every-move_to_end key e s.cache h (Every-get P key e s.cache h found))
        | inr old ↦ rw (open_, found, old) (Every-remove key s.cache h)
      ]
    ]
  ]

  store-Every :
      (n now : ℕ) (key : Text) (fetched : Option FetchedPolicy) (s : Service.Service)
      → Every P s.cache
      → ((f : FetchedPolicy) → fetched ≡ some f → P key (Service.entry_of now f))
      → Every P (Service.store n now key fetched s).cache
  unfolding Service.store
  store-Every n now key none s h p = h
  store-Every n now key (some f) s h p = elim (Bool-cases s.closed) [
    | inl shut ↦ rw shut h
    | inr open_ ↦
        let e = Service.entry_of now f in
        let known = p f refl in
        rw open_ (
          Every-trim n (Service.move_to_end key e (put key e s.cache))
            (Every-move_to_end key e (put key e s.cache) (Every-put P key e s.cache h known) known))
  ]

end_flight-cache :
    (key : Text) (task : ℕ) (s : Service.Service) (o : Option Service.Flight)
    → (Service.end_flight key task s o).cache ≡ s.cache
end_flight-cache key task s none = refl
end_flight-cache key task s (some flight) = elim (Bool-cases (flight.task == task)) [
  | inl same ↦ rw same refl
  | inr other ↦ rw other refl
]

released-cache :
    (key : Text) (task : ℕ) (d : Bool) (s : Service.Service) (o : Option Service.Flight)
    → (Service.released key task d s o).1.cache ≡ s.cache
released-cache key task d s none = refl
released-cache key task d s (some flight) = elim (Bool-cases (flight.task == task)) [
  | inl same ↦ rw same refl
  | inr other ↦ rw other refl
]

-- After a call, an entry of the cache was there before or is what the call stores.
step-Every :
    (P : Entries) (n : ℕ) (c : Service.Call) (s : Service.Service)
    → Every P s.cache
    → Every (λ k e. P k e ⊎ Stores c k e) (Service.step n c s).cache
unfolding Service.step Service.finish_fetch Service.release_waiter
step-Every P n (Service.enters now key) s h =
    Every-mono _ _ _ (λ k e p. inl p) (enter-Every P now key s h)
step-Every P n (Service.finishes now key task none) s h =
    let same = end_flight-cache key task (Service.store n now key none s) _ in
    let Q : Entries = λ k e. P k e ⊎ ⊥ in
    subst (λ m. Every Q m) (sym same)
      (Every-mono P Q _ (λ k e p. inl p)
        (store-Every P n now key none s h (λ f q. absurd (ground arith))))
step-Every P n (Service.finishes now key task (some f)) s h =
    let Q : Entries = λ k e. P k e ⊎ ((k ≡ key) × (e ≡ Service.entry_of now f)) in
    let same = end_flight-cache key task (Service.store n now key (some f) s) _ in
    let before : Every Q s.cache = Every-mono P Q s.cache (λ k e p. inl p) h in
    subst (λ m. Every Q m) (sym same)
      (store-Every Q n now key (some f) s before
        (λ g q. inr (refl, ap (Service.entry_of now) (ground arith))))
step-Every P n (Service.releases key task d) s h =
    let Q : Entries = λ k e. P k e ⊎ ⊥ in
    subst (λ m. Every Q m) (sym (released-cache key task d s _))
      (Every-mono P Q _ (λ k e p. inl p) h)
step-Every P n Service.begins_close s h = tt
step-Every P n Service.ends_close s h = Every-mono P _ _ (λ k e p. inl p) h

run-Every :
    (P : Entries) (n : ℕ) (cs : List Service.Call) (s : Service.Service)
    → Every P s.cache
    → Every (λ k e. P k e ⊎ Stored cs k e) (Service.run n cs s).cache
unfolding Service.run
run-Every P n [] s h = Every-mono P _ _ (λ k e p. inl p) h
run-Every P n (c ∷ cs) s h =
    let Q : Entries = λ k e. P k e ⊎ Stores c k e in
    Every-mono (λ k e. Q k e ⊎ Stored cs k e) (λ k e. P k e ⊎ Stored (c ∷ cs) k e) _
      (λ k e q. elim q [
        | inl early ↦ elim early [ inl p ↦ inl p | inr now ↦ inr (inl now) ]
        | inr later ↦ inr (inr later)
      ])
      (run-Every Q n cs (Service.step n c s) (step-Every P n c s h))

look_up-hit :
    (now : ℕ) (key : Text) (s : Service.Service) (o : Option Service.CacheEntry) (policy : Policy)
    → (Service.look_up now key s o).0 ≡ Service.hit policy
    → (e : Service.CacheEntry) × (o ≡ some e) × (e.policy ≡ policy) × (now < e.expires_at)
unfolding Service.join_flight
look_up-hit now key s none policy h = absurd (ground arith)
look_up-hit now key s (some e) policy h = elim (Bool-cases (ltb now e.expires_at)) [
  | inl fresh ↦ (e, refl, ground arith, ground arith)
  | inr old ↦ absurd (ground arith)
]

-- Whatever calls a new service had, a policy that it answers from its cache is one that a fetch for the same origin ended with, in one of these calls, and whose time to live is not over.
pub enter-hit :
    (max_entries now : ℕ) (cs : List Service.Call) (key : Text) (policy : Policy)
    → (Service.enter now key (Service.run max_entries cs Service.new_service)).0
      ≡ Service.hit policy
    → (e : Service.CacheEntry) × Stored cs key e × (e.policy ≡ policy) × (now < e.expires_at)
unfolding Service.enter
enter-hit max_entries now cs key policy h =
    let s = Service.run max_entries cs Service.new_service in
    elim (Bool-cases s.closed) [
      | inl shut ↦ absurd (ground arith)
      | inr open_ ↦
          let looked : (Service.look_up now key s (get key s.cache)).0 ≡ Service.hit policy =
            subst
              (λ b.
                (if b then (Service.refused, s) else Service.look_up now key s (get key s.cache)).0
                ≡ Service.hit policy)
              open_ h in
          let (e, found, same, fresh) = look_up-hit now key s (get key s.cache) policy looked in
          let origin =
            Every-get (λ k e. ⊥ ⊎ Stored cs k e) key e s.cache
              (run-Every (λ k e. ⊥) max_entries cs Service.new_service tt) found in
          (e, elim origin [ inl never ↦ absurd never | inr stored ↦ stored ], same, fresh)
    ]
