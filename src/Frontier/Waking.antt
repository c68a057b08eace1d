-- ===== src/Frontier/Waking.antt =====
-- app/services/frontier.py: what `next_wake_at` may change.
use clusy_crawler.Base.{
  ℕ, ◌≡◌, refl, ◌∙◌, ap, inl, inr, Option, none, some, List, [], ◌∷◌, arith, Text, All,
  Option-cases, Float, non_negative,
}
use mathlib.Core.Option
use clusy_crawler.Base.Dict.{KeysDistinct, get, Every}
use clusy_crawler.Frontier.Types.{text_key, pair_key, Entry, HostState, Frontier, WaitingHeapItem}
use clusy_crawler.Frontier.Queue.{fresh}
use clusy_crawler.Frontier.Claim.{refreshed}
use clusy_crawler.Frontier.Wake.{next_waiting, wake_host, wake_hosts, next_wake_at, waiting_left}
use clusy_crawler.Frontier.Later.{EntriesLater-refl, HostLater}
use clusy_crawler.Frontier.Sound.{Sound, KnownHost, Refers}
use clusy_crawler.Frontier.Found.{wake_hosts_missing-none}
use clusy_crawler.Frontier.Survey.{refreshed-KnownHost}
use clusy_crawler.Frontier.History.{Moved, Evolves, Evolves-refl}

next_waiting-All :
    (m : List (Text × Entry)) (P : WaitingHeapItem → Type 0) (w : List WaitingHeapItem)
    → All P w
    → All P (next_waiting m w).1
unfolding next_waiting
next_waiting-All m P [] h = tt
next_waiting-All m P (i ∷ w) h = elim (Option-cases (fresh m i.url i.generation)) [
  | inl q ↦ rw (q, next_waiting) (next_waiting-All m P w h.1)
  | inr (e, q) ↦ rw (q, next_waiting) h
]

waiting_left-All :
    (P : WaitingHeapItem → Type 0) (o : Option Entry) (w w' : List WaitingHeapItem)
    → All P w
    → All P w'
    → All P (waiting_left o w w')
waiting_left-All P none w w' h k = k
waiting_left-All P (some e) w w' h k = h

wake_host-KnownHost :
    (m : List (Text × Entry)) (host : Text) (now : ℕ) (s : HostState)
    → Every (λ k e. e.url ≡ k) m
    → KnownHost m host s
    → KnownHost m host (wake_host m now s).1
unfolding wake_host
wake_host-KnownHost m host now s keyed k =
    let r = refreshed-KnownHost m host now s keyed k in
    record {
      waiting =
          waiting_left-All (λ i. Refers m host i.url) (refreshed m now s).0 _ _ r.waiting
            (next_waiting-All m (λ i. Refers m host i.url) (refreshed m now s).1.waiting r.waiting);
      ready = r.ready;
    }

wake_host-HostLater :
    (m : List (Text × Entry)) (now : ℕ) (s : HostState) → HostLater s (wake_host m now s).1
unfolding wake_host refreshed
wake_host-HostLater m now s = omega arith

wake_hosts-get :
    (m : List (Text × Entry)) (now : ℕ) (host : Text) (hs : List (Text × HostState))
    → get host (wake_hosts m now hs).1 ≡ Option.map (λ s. (wake_host m now s).1) (get host hs)
unfolding wake_hosts get
wake_hosts-get m now host [] = refl
wake_hosts-get m now host ((h, s) ∷ hs) = ground (arith, wake_hosts-get m now host hs)

wake_hosts-KeysDistinct :
    (m : List (Text × Entry)) (now : ℕ) (hs : List (Text × HostState))
    → KeysDistinct hs
    → KeysDistinct (wake_hosts m now hs).1
unfolding wake_hosts
wake_hosts-KeysDistinct m now [] d = tt
wake_hosts-KeysDistinct m now ((h, s) ∷ hs) d = (
  wake_hosts-get m now h hs ∙ ap (Option.map (λ s. (wake_host m now s).1)) d.0,
  wake_hosts-KeysDistinct m now hs d.1,
)

wake_hosts-known :
    (m : List (Text × Entry)) (now : ℕ) (hs : List (Text × HostState))
    → Every (λ k e. e.url ≡ k) m
    → Every (KnownHost m) hs
    → Every (KnownHost m) (wake_hosts m now hs).1
unfolding wake_hosts
wake_hosts-known m now [] keyed k = tt
wake_hosts-known m now ((h, s) ∷ hs) keyed k =
    (wake_host-KnownHost m h now s keyed k.0, wake_hosts-known m now hs keyed k.1)

wake_hosts-Moved :
    (now : ℕ) (f : Frontier)
    → Sound f
    → Moved f.entries f.hosts f.entries (wake_hosts f.entries now f.hosts).1
wake_hosts-Moved now f v = record {
  linked = record {
    keyed = v.keyed;
    distinct = wake_hosts-KeysDistinct f.entries now f.hosts v.distinct;
    known = wake_hosts-known f.entries now f.hosts v.keyed v.known;
  };
  entries = EntriesLater-refl f.entries;
  hosts = λ host s q. (
    (wake_host f.entries now s).1,
    wake_hosts-get f.entries now host f.hosts
        ∙ ap (Option.map (λ s. (wake_host f.entries now s).1)) q,
    wake_host-HostLater f.entries now s,
  );
}

pub next_wake_at-Evolves : (now : Float) (f : Frontier) → Sound f → Evolves f (next_wake_at now f).1
unfolding next_wake_at
next_wake_at-Evolves now f v = elim (Option-cases (non_negative now)) [
  | inl q ↦ rw (q, next_wake_at) (Evolves-refl f v)
  | inr (t, q) ↦
      rw (q, wake_hosts_missing-none f.entries t v.keyed f.hosts v.known, next_wake_at)
        (wake_hosts-Moved t f v)
]
