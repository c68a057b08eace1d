-- ===== src/Frontier/Survey.antt =====
-- app/services/frontier.py: the loop of `claim` over the hosts, and the candidates that it finds.
use clusy_crawler.Base.{
  ℕ, ◌≤◌, ◌≡◌, refl, ◌∙◌, subst, sym, ap, inl, inr, Option, none, some, false, List, [], ◌∷◌, arith,
  Text, All, All-map, Bool-cases, if◌then◌else◌, leb, ltb, leb→le, text_eq, text_eq_iff,
}
use clusy_crawler.Base.Dict.{get, Every, KeysDistinct}
use clusy_crawler.Frontier.Types.{text_key, Entry, HostState}
use clusy_crawler.Frontier.Claim.{Candidate, scan, refreshed, offered, least, candidate_before}
use clusy_crawler.Frontier.Sound.{
  KnownHost, promote_ready-All, peek_ready-All, Peeked, peek_ready-Peeked,
}

pub refreshed-KnownHost :
    (m : List (Text × Entry)) (host : Text) (now : ℕ) (s : HostState)
    → Every (λ k e. e.url ≡ k) m
    → KnownHost m host s
    → KnownHost m host (refreshed m now s).1
unfolding refreshed
refreshed-KnownHost m host now s keyed k =
    let moved = promote_ready-All m host now s.waiting s.ready keyed k.waiting k.ready in
    record { waiting = moved.0; ready = peek_ready-All m host _ moved.1 }

pub refreshed-Peeked :
    (m : List (Text × Entry)) (now : ℕ) (s : HostState) (e : Entry)
    → (refreshed m now s).0 ≡ some e
    → Peeked m e (refreshed m now s).1.ready
unfolding refreshed
refreshed-Peeked m now s e h = peek_ready-Peeked m _ e h

-- The state in which the loop leaves a host.
abbrev pub visited : List (Text × Entry) → ℕ → ℕ → HostState → HostState
visited m now limit s = if leb limit s.fetches then s else (refreshed m now s).1

abbrev pub visited_option : List (Text × Entry) → ℕ → ℕ → Option HostState → Option HostState
visited_option m now limit none = none
visited_option m now limit (some s) = some (visited m now limit s)

module _ (m : List (Text × Entry)) (now limit : ℕ) where
  pub scan-get :
      (host : Text) (hs : List (Text × HostState))
      → get host (scan m now limit hs).hosts ≡ visited_option m now limit (get host hs)
  unfolding scan get
  scan-get host [] = refl
  scan-get host ((h, s) ∷ hs) = elim (Bool-cases (leb limit s.fetches)) [
    | inl e ↦ rw e (ground (arith, scan-get host hs))
    | inr e ↦ rw e (ground (arith, scan-get host hs))
  ]

  pub scan-KeysDistinct :
      (hs : List (Text × HostState)) → KeysDistinct hs → KeysDistinct (scan m now limit hs).hosts
  unfolding scan
  scan-KeysDistinct [] d = tt
  scan-KeysDistinct ((h, s) ∷ hs) d =
      let rest = scan-KeysDistinct hs d.1 in
      let new : get h (scan m now limit hs).hosts ≡ none =
        scan-get h hs ∙ ap (visited_option m now limit) d.0 in
      elim (Bool-cases (leb limit s.fetches)) [
        | inl e ↦ rw e (new, rest)
        | inr e ↦ rw e (new, rest)
      ]

  pub scan-known :
      (hs : List (Text × HostState))
      → Every (λ k e. e.url ≡ k) m
      → Every (KnownHost m) hs
      → Every (KnownHost m) (scan m now limit hs).hosts
  unfolding scan
  scan-known [] keyed k = tt
  scan-known ((h, s) ∷ hs) keyed k = elim (Bool-cases (leb limit s.fetches)) [
    | inl e ↦ rw e (k.0, scan-known hs keyed k.1)
    | inr e ↦ rw e (refreshed-KnownHost m h now s keyed k.0, scan-known hs keyed k.1)
  ]

  -- The hosts that are closed have used up their fetches.
  abbrev pub IsExhausted : List (Text × HostState) → Text → Type 0
  IsExhausted hs h = (s : HostState) × (get h hs ≡ some s) × (limit ≤ s.fetches)

  -- A candidate stands for the top of a host that may be fetched from.
  pub record Eligible (hs : List (Text × HostState)) (c : Candidate) : Type 0 where
    pub state : HostState
    pub at_host : get c.host hs ≡ some state
    pub below : leb limit state.fetches ≡ false
    pub allowed : state.next_allowed_at ≤ now
    pub top : (refreshed m now state).0 ≡ some c.entry
    pub same_turn : c.last_served_turn ≡ state.last_served_turn
    pub same_priority : c.priority ≡ c.entry.priority
    pub same_order : c.order ≡ c.entry.order

get_under :
    (h k : Text) (s s' : HostState) (hs : List (Text × HostState))
    → get h hs ≡ none
    → get k hs ≡ some s'
    → get k ((h, s) ∷ hs) ≡ some s'
unfolding get
get_under h k s s' hs new q = elim (Bool-cases (text_eq h k)) [
  | inl e ↦ absurd (cc (subst (λ x. get x hs ≡ some s') (sym ((text_eq_iff h k).0 e)) q))
  | inr e ↦ rw e q
]

get_head : (h : Text) (s : HostState) (hs : List (Text × HostState)) → get h ((h, s) ∷ hs) ≡ some s
unfolding get
get_head h s hs = rw ((text_eq_iff h h).1 refl)

Eligible-under :
    (m : List (Text × Entry)) (now limit : ℕ) (h : Text) (s : HostState)
    (hs : List (Text × HostState)) (c : Candidate)
    → get h hs ≡ none
    → Eligible m now limit hs c
    → Eligible m now limit ((h, s) ∷ hs) c
Eligible-under m now limit h s hs c new v = record {
  state = v.state;
  at_host = get_under h c.host s v.state hs new v.at_host;
  below = v.below;
  allowed = v.allowed;
  top = v.top;
  same_turn = v.same_turn;
  same_priority = v.same_priority;
  same_order = v.same_order;
}

offered-Eligible :
    (m : List (Text × Entry)) (now limit : ℕ) (h : Text) (s : HostState)
    (hs : List (Text × HostState)) (o : Option Entry) (cs : List Candidate)
    → leb limit s.fetches ≡ false
    → (refreshed m now s).0 ≡ o
    → All (Eligible m now limit ((h, s) ∷ hs)) cs
    → All (Eligible m now limit ((h, s) ∷ hs)) (offered now h s o cs)
offered-Eligible m now limit h s hs none cs b q k = k
offered-Eligible m now limit h s hs (some e) cs b q k =
    elim (Bool-cases (ltb now s.next_allowed_at)) [
      | inl t ↦ rw t k
      | inr t ↦ rw t (
        record {
          state = s;
          at_host = get_head h s hs;
          below = b;
          allowed = ground arith;
          top = q;
          same_turn = refl;
          same_priority = refl;
          same_order = refl;
        },
        k,
      )
    ]

module _ (m : List (Text × Entry)) (now limit : ℕ) where
  -- Every candidate is eligible.
  pub scan-Eligible :
      (hs : List (Text × HostState))
      → KeysDistinct hs
      → All (Eligible m now limit hs) (scan m now limit hs).candidates
  unfolding scan
  scan-Eligible [] d = tt
  scan-Eligible ((h, s) ∷ hs) d =
      let rest =
        All-map _ _ _ (λ c. Eligible-under m now limit h s hs c d.0) (scan-Eligible hs d.1) in
      elim (Bool-cases (leb limit s.fetches)) [
        | inl e ↦ rw e rest
        | inr e ↦ rw e (offered-Eligible m now limit h s hs (refreshed m now s).0 _ e refl rest)
      ]

  -- Every closed host has used up its fetches.
  pub scan-IsExhausted :
      (hs : List (Text × HostState))
      → KeysDistinct hs
      → All (IsExhausted m now limit hs) (scan m now limit hs).exhausted_hosts
  unfolding scan
  scan-IsExhausted [] d = tt
  scan-IsExhausted ((h, s) ∷ hs) d =
      let rest =
        All-map _ (IsExhausted m now limit ((h, s) ∷ hs)) _
          (λ k (s', q, b). (s', get_under h k s s' hs d.0 q, b)) (scan-IsExhausted hs d.1) in
      elim (Bool-cases (leb limit s.fetches)) [
        | inl e ↦ rw e ((s, get_head h s hs, leb→le _ _ e), rest)
        | inr e ↦ rw e rest
      ]

-- `min` picks a candidate, of which holds what holds of all.
pub least-All {κ} :
    (P : Candidate → Type κ) (c : Candidate) (cs : List Candidate) → P c → All P cs → P (least c cs)
unfolding least
least-All P c [] p h = p
least-All P c (d ∷ ds) p h = elim (Bool-cases (candidate_before d c)) [
  | inl e ↦ rw e (least-All P d ds h.0 h.1)
  | inr e ↦ rw e (least-All P c ds p h.1)
]
