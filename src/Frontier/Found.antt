-- ===== src/Frontier/Found.antt =====
-- app/services/frontier.py: in a sound frontier no heap item lacks its entry.
use clusy_crawler.Base.{
  ℕ, ◌≡◌, refl, inl, inr, none, List, [], ◌∷◌, Text, All, Bool-cases, Option-cases, leb,
}
use clusy_crawler.Base.Dict.{Every}
use clusy_crawler.Frontier.Types.{text_key, Entry, HostState, WaitingHeapItem, ReadyHeapItem}
use clusy_crawler.Frontier.Queue.{fresh}
use clusy_crawler.Frontier.Missing.{promote_missing, peek_missing, refresh_missing, waiting_missing}
use clusy_crawler.Frontier.Claim.{scan_missing, refreshed}
use clusy_crawler.Frontier.Wake.{wake_host_missing, wake_hosts_missing}
use clusy_crawler.Frontier.Sound.{Refers, KnownHost, promote_ready-All}
use clusy_crawler.Frontier.Survey.{refreshed-KnownHost}

module _ (m : List (Text × Entry)) (host : Text) where
  promote_missing-none :
      (now : ℕ) (w : List WaitingHeapItem) (r : List ReadyHeapItem)
      → All (λ i. Refers m host i.url) w
      → promote_missing m now w r ≡ none
  unfolding promote_missing
  promote_missing-none now [] r h = refl
  promote_missing-none now (i ∷ w) r ((e, q, s), h) = elim (Bool-cases (leb i.ready_at now)) [
    | inl due ↦ rw (due, q, promote_missing) (promote_missing-none now w _ h)
    | inr early ↦ rw early refl
  ]

  peek_missing-none :
      (r : List ReadyHeapItem) → All (λ i. Refers m host i.url) r → peek_missing m r ≡ none
  unfolding peek_missing
  peek_missing-none [] h = refl
  peek_missing-none (i ∷ r) ((e, q, s), h) = elim (Option-cases (fresh m i.url i.generation)) [
    | inl stale ↦ rw (q, stale, peek_missing) (peek_missing-none r h)
    | inr (x, live) ↦ rw (q, live, peek_missing) refl
  ]

  waiting_missing-none :
      (w : List WaitingHeapItem) → All (λ i. Refers m host i.url) w → waiting_missing m w ≡ none
  unfolding waiting_missing
  waiting_missing-none [] h = refl
  waiting_missing-none (i ∷ w) ((e, q, s), h) = elim (Option-cases (fresh m i.url i.generation)) [
    | inl stale ↦ rw (q, stale, waiting_missing) (waiting_missing-none w h)
    | inr (x, live) ↦ rw (q, live, waiting_missing) refl
  ]

  refresh_missing-none :
      (now : ℕ) (s : HostState)
      → Every (λ k e. e.url ≡ k) m
      → KnownHost m host s
      → refresh_missing m now s ≡ none
  unfolding refresh_missing
  refresh_missing-none now s keyed k =
      let waiting = promote_missing-none now s.waiting s.ready k.waiting in
      let promoted = promote_ready-All m host now s.waiting s.ready keyed k.waiting k.ready in
      rw (waiting, peek_missing-none _ promoted.1, refresh_missing) refl

  wake_host_missing-none :
      (now : ℕ) (s : HostState)
      → Every (λ k e. e.url ≡ k) m
      → KnownHost m host s
      → wake_host_missing m now s ≡ none
  unfolding wake_host_missing
  wake_host_missing-none now s keyed k =
      let found = refresh_missing-none now s keyed k in
      let later = refreshed-KnownHost m host now s keyed k in
      let waiting = waiting_missing-none (refreshed m now s).1.waiting later.waiting in
      elim (Option-cases (refreshed m now s).0) [
        | inl empty ↦ rw (found, empty, waiting, wake_host_missing) refl
        | inr (e, top) ↦ rw (found, top, wake_host_missing) refl
      ]

module _ (m : List (Text × Entry)) (now : ℕ) (keyed : Every (λ k e. e.url ≡ k) m) where
  pub scan_missing-none :
      (limit : ℕ) (hs : List (Text × HostState))
      → Every (KnownHost m) hs
      → scan_missing m now limit hs ≡ none
  unfolding scan_missing
  scan_missing-none limit [] k = refl
  scan_missing-none limit ((host, s) ∷ hs) k =
      let rest = scan_missing-none limit hs k.1 in
      elim (Bool-cases (leb limit s.fetches)) [
        | inl spent ↦ rw (spent, rest) refl
        | inr left ↦ rw (left, refresh_missing-none m host now s keyed k.0, rest, scan_missing) refl
      ]

  pub wake_hosts_missing-none :
      (hs : List (Text × HostState)) → Every (KnownHost m) hs → wake_hosts_missing m now hs ≡ none
  unfolding wake_hosts_missing
  wake_hosts_missing-none [] k = refl
  wake_hosts_missing-none ((host, s) ∷ hs) k =
      rw
        (
          wake_host_missing-none m host now s keyed k.0,
          wake_hosts_missing-none hs k.1,
          wake_hosts_missing,
        )
        refl
