-- ===== src/Frontier/Sound.antt =====
-- app/services/frontier.py: the references between a frontier's dictionaries and heaps.
use clusy_crawler.Base.{
  ℕ, ◌+◌, ◌≡◌, refl, ◌∙◌, subst, sym, inl, inr, Option, none, some, Bool, true, List, [], ◌∷◌,
  arith, Text, All, All-map, Bool-cases, Option-cases, leb,
}
use clusy_crawler.Base.Dict.{
  get, get-put_self, Every, Every-get, Every-put, Every-mono, KeysDistinct, put-KeysDistinct,
}
use clusy_crawler.Frontier.Types.{
  text_key, Entry, HostState, Frontier, is_pending, WaitingHeapItem, ReadyHeapItem,
}
use clusy_crawler.Frontier.Heap.{heappush, waiting_before, ready_before, push_waiting, push_ready}
use clusy_crawler.Frontier.Queue.{
  enqueue, enqueued, or_new_host, fresh, promoted, promote_ready, peek_ready,
}
use clusy_crawler.Frontier.Later.{Later, EntriesLater, EntriesLater-put}

-- `url` is the key of an entry of `host`.
abbrev pub Refers : List (Text × Entry) → Text → Text → Type 0
Refers m host url = (e : Entry) × (get url m ≡ some e) × (e.host ≡ host)

-- Each item of the host's heaps refers to an entry of that host.
pub record KnownHost (m : List (Text × Entry)) (host : Text) (s : HostState) : Type 0 where
  pub waiting : All (λ i. Refers m host i.url) s.waiting
  pub ready : All (λ i. Refers m host i.url) s.ready

pub record Linked (m : List (Text × Entry)) (hs : List (Text × HostState)) : Type 0 where
  pub keyed : Every (λ k e. e.url ≡ k) m
  pub distinct : KeysDistinct hs
  pub known : Every (KnownHost m) hs

abbrev pub Sound : Frontier → Type 0
Sound f = Linked f.entries f.hosts

pub Refers-later :
    (m m' : List (Text × Entry)) (host url : Text)
    → EntriesLater m m'
    → Refers m host url
    → Refers m' host url
Refers-later m m' host url h (e, q, r) = let (e', q', l) = h url e q in (e', q', l.same_host ∙ r)

pub KnownHost-later :
    (m m' : List (Text × Entry)) (host : Text) (s : HostState)
    → EntriesLater m m'
    → KnownHost m host s
    → KnownHost m' host s
KnownHost-later m m' host s h k = record {
  waiting = All-map _ _ s.waiting (λ i. Refers-later m m' host i.url h) k.waiting;
  ready = All-map _ _ s.ready (λ i. Refers-later m m' host i.url h) k.ready;
}

pub known_later :
    (m m' : List (Text × Entry)) (hs : List (Text × HostState))
    → EntriesLater m m'
    → Every (KnownHost m) hs
    → Every (KnownHost m') hs
known_later m m' hs h k = Every-mono _ _ hs (λ host s. KnownHost-later m m' host s h) k

pub heappush-All {κ} :
    {A : Type 0} (before : A → A → Bool) (P : A → Type κ) (a : A) (h : List A)
    → P a
    → All P h
    → All P (heappush before a h)
unfolding heappush
heappush-All before P a [] p k = (p, tt)
heappush-All before P a (b ∷ h) p k = elim (Bool-cases (before b a)) [
  | inl e ↦ rw e (k.0, heappush-All before P a h p k.1)
  | inr e ↦ rw e (p, k)
]

pub host_known :
    (m : List (Text × Entry)) (host : Text) (hs : List (Text × HostState)) (o : Option HostState)
    → Every (KnownHost m) hs
    → get host hs ≡ o
    → KnownHost m host (or_new_host o)
host_known m host hs none h q = record { waiting = tt; ready = tt }
host_known m host hs (some s) h q = Every-get _ host s hs h q

-- `_enqueue` of a later version of the entry under `url`.
pub enqueue-Sound :
    (url : Text) (e e' : Entry) (ready_at : ℕ) (f : Frontier)
    → Sound f
    → get url f.entries ≡ some e
    → Later e (enqueued e' ready_at)
    → Sound (enqueue url e' ready_at f)
unfolding enqueue enqueued push_waiting
enqueue-Sound url e e' ready_at f v q l =
    let later = EntriesLater-put url e (enqueued e' ready_at) f.entries q l in
    let known = known_later _ _ f.hosts later v.known in
    let s = or_new_host (get e'.host f.hosts) in
    let item : WaitingHeapItem = record {
      ready_at = ready_at;
      order = e'.order;
      generation = e'.generation + 1;
      url = e'.url;
    } in
    let mine = host_known _ e'.host f.hosts (get e'.host f.hosts) known refl in
    let here : e'.url ≡ url = l.same_url ∙ Every-get _ url e f.entries v.keyed q in
    record {
      keyed = Every-put _ url (enqueued e' ready_at) f.entries v.keyed here;
      distinct = put-KeysDistinct e'.host _ f.hosts v.distinct;
      known =
          Every-put _ e'.host (record s { waiting = push_waiting item s.waiting }) f.hosts known
            (record {
              waiting =
                  heappush-All waiting_before _ _ _
                    (subst (Refers _ e'.host) (sym here) (
                      enqueued e' ready_at,
                      get-put_self url (enqueued e' ready_at) f.entries,
                      refl,
                    ))
                    mine.waiting;
              ready = mine.ready;
            });
    }

pub fresh-get :
    (m : List (Text × Entry)) (url : Text) (generation : ℕ) (e : Entry)
    → fresh m url generation ≡ some e
    → (get url m ≡ some e) × (is_pending e.state ≡ true) × (e.generation ≡ generation)
unfolding fresh
fresh-get m url generation e h = ground arith

promoted-All :
    (m : List (Text × Entry)) (host url : Text) (generation : ℕ) (ready : List ReadyHeapItem)
    (o : Option Entry)
    → Every (λ k e. e.url ≡ k) m
    → Refers m host url
    → All (λ i. Refers m host i.url) ready
    → fresh m url generation ≡ o
    → All (λ i. Refers m host i.url) (promoted o generation ready)
unfolding push_ready
promoted-All m host url generation ready none keyed r k q = k
promoted-All m host url generation ready (some e) keyed r k q =
    let at_url = (fresh-get m url generation e q).0 in
    heappush-All ready_before _ _ ready
      (subst (Refers m host) (sym (Every-get _ url e m keyed at_url)) r) k

-- `_promote_ready` keeps the references.
pub promote_ready-All :
    (m : List (Text × Entry)) (host : Text) (now : ℕ) (w : List WaitingHeapItem)
    (r : List ReadyHeapItem)
    → Every (λ k e. e.url ≡ k) m
    → All (λ i. Refers m host i.url) w
    → All (λ i. Refers m host i.url) r
    → All (λ i. Refers m host i.url) (promote_ready m now w r).0
      × All (λ i. Refers m host i.url) (promote_ready m now w r).1
unfolding promote_ready
promote_ready-All m host now [] r keyed h k = (tt, k)
promote_ready-All m host now (i ∷ w) r keyed h k = elim (Bool-cases (leb i.ready_at now)) [
  | inl e ↦ rw e (
      promote_ready-All m host now w _ keyed h.1
        (promoted-All m host i.url i.generation r (fresh m i.url i.generation) keyed h.0 k refl))
  | inr e ↦ rw e (h, k)
]

-- So does `_peek_ready`, and the entry that it finds is that of the item at the top.
pub record Peeked (m : List (Text × Entry)) (e : Entry) (ready : List ReadyHeapItem) : Type 0 where
  pub item : ReadyHeapItem
  pub below : List ReadyHeapItem
  pub at_top : ready ≡ item ∷ below
  pub entry : get item.url m ≡ some e
  pub pending : is_pending e.state ≡ true

pub peek_ready-All :
    (m : List (Text × Entry)) (host : Text) (r : List ReadyHeapItem)
    → All (λ i. Refers m host i.url) r
    → All (λ i. Refers m host i.url) (peek_ready m r).1
unfolding peek_ready
peek_ready-All m host [] h = tt
peek_ready-All m host (i ∷ r) h = elim (Option-cases (fresh m i.url i.generation)) [
  | inl e ↦ rw (e, peek_ready) (peek_ready-All m host r h.1)
  | inr (x, e) ↦ rw (e, peek_ready) h
]

pub peek_ready-Peeked :
    (m : List (Text × Entry)) (r : List ReadyHeapItem) (e : Entry)
    → (peek_ready m r).0 ≡ some e
    → Peeked m e (peek_ready m r).1
unfolding peek_ready
peek_ready-Peeked m [] e h = absurd (cc)
peek_ready-Peeked m (i ∷ r) e h = elim (Option-cases (fresh m i.url i.generation)) [
  | inl q ↦ rw (q, peek_ready) (peek_ready-Peeked m r e (rw (q, peek_ready) at h))
  | inr (x, q) ↦
      let same : x ≡ e = ground arith in
      let found = fresh-get m i.url i.generation x q in
      rw (q, peek_ready)
        (record {
          item = i;
          below = r;
          at_top = refl;
          entry = subst (λ u. get i.url m ≡ some u) same found.0;
          pending = subst (λ u. is_pending u.state ≡ true) same found.1;
        })
]
