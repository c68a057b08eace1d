-- ===== src/Frontier/Grant.antt =====
-- app/services/frontier.py: what `claim` returns, and the state in which it leaves the frontier.
use clusy_crawler.Base.{
  ℕ, ◌≤◌, ◌<◌, ◌≡◌, ◌≢◌, refl, ◌∙◌, subst, sym, ap, inl, inr, none, some, of_some_eq, true, false,
  List, [], ◌∷◌, arith, Text, All, All-map, Bool-cases, leb, text_eq_iff,
}
use clusy_crawler.Base.Dict.{get, Every-get}
use clusy_crawler.Frontier.Types.{
  text_key, Frontier, is_pending, global_fetch_limit, host_fetch_limit, global_fetch_budget,
  ReadyHeapItem, returned,
}
use clusy_crawler.Frontier.Queue.{terminate_pending}
use clusy_crawler.Frontier.Claim.{
  Candidate, scan, closing, scanned, surveyed, claimed, grant, lease_of, pop_and_grant, serve,
  least, claim_at,
}
use clusy_crawler.Frontier.Found.{scan_missing-none}
use clusy_crawler.Frontier.Sound.{Sound, Peeked}
use clusy_crawler.Frontier.Survey.{
  visited, visited_option, scan-get, scan-KeysDistinct, scan-known, scan-Eligible, scan-IsExhausted,
  IsExhausted, Eligible, least-All, refreshed-Peeked,
}
use clusy_crawler.Frontier.Sweep.{close_hosts-Sound, close_hosts-get, close_hosts-Unswept}

abbrev pub limit_of : Frontier → ℕ
limit_of f = host_fetch_limit f.config

abbrev pub IsEligible : ℕ → Frontier → Candidate → Type 0
IsEligible now f c = Eligible f.entries now (limit_of f) f.hosts c

pub surveyed-Sound : (now : ℕ) (f : Frontier) → Sound f → Sound (surveyed now f)
unfolding surveyed
surveyed-Sound now f v = close_hosts-Sound (closing now f) (scanned now f) (record {
  keyed = v.keyed;
  distinct = scan-KeysDistinct f.entries now (limit_of f) f.hosts v.distinct;
  known = scan-known f.entries now (limit_of f) f.hosts v.keyed v.known;
})

pub surveyed-hosts :
    (now : ℕ) (f : Frontier)
    → (surveyed now f).hosts ≡ (scan f.entries now (limit_of f) f.hosts).hosts
unfolding surveyed
surveyed-hosts now f = (close_hosts-Unswept (closing now f) (scanned now f)).same_hosts

-- Where the item and the state of an eligible candidate stand.
pub record Placed (now : ℕ) (f : Frontier) (c : Candidate) : Type 0 where
  pub eligible : IsEligible now f c
  pub item : ReadyHeapItem
  pub below : List ReadyHeapItem
  pub at_top : (visited f.entries now (limit_of f) eligible.state).ready ≡ item ∷ below
  pub item_url : item.url ≡ c.entry.url
  pub entry : get c.entry.url f.entries ≡ some c.entry
  pub pending : is_pending c.entry.state ≡ true
  pub same_host : c.entry.host ≡ c.host

refreshed_top :
    (now : ℕ) (f : Frontier) (c : Candidate) (e : IsEligible now f c)
    → Peeked f.entries c.entry (visited f.entries now (limit_of f) e.state).ready
refreshed_top now f c e = rw e.below (refreshed-Peeked f.entries now e.state c.entry e.top)

place : (now : ℕ) (f : Frontier) (c : Candidate) → Sound f → IsEligible now f c → Placed now f c
place now f c v e =
    let p = refreshed_top now f c e in
    let url : c.entry.url ≡ p.item.url = Every-get _ _ _ f.entries v.keyed p.entry in
    let hosts = scan-known f.entries now (limit_of f) f.hosts v.keyed v.known in
    let visited_host =
      scan-get f.entries now (limit_of f) c.host f.hosts
      ∙ ap (visited_option f.entries now (limit_of f)) e.at_host in
    let known = Every-get _ c.host _ _ hosts visited_host in
    let (x, q, r) = (subst (All _) p.at_top known.ready).0 in
    record {
      eligible = e;
      item = p.item;
      below = p.below;
      at_top = p.at_top;
      item_url = sym url;
      entry = subst (λ u. get u f.entries ≡ some c.entry) (sym url) p.entry;
      pending = p.pending;
      same_host =
          let same : x ≡ c.entry = of_some_eq (sym q ∙ p.entry) in
          subst (λ u. u.host ≡ c.host) same r;
    }

-- An exhausted host is not that of a candidate.
not_closed :
    (now : ℕ) (f : Frontier) (c : Candidate) (p : Placed now f c) (h : Text)
    → IsExhausted f.entries now (limit_of f) f.hosts h
    → c.entry.host ≢ h
not_closed now f c p h (s, q, b) e =
    let at_h =
      subst (λ k. get k f.hosts ≡ some p.eligible.state) (sym p.same_host ∙ e) p.eligible.at_host in
    let same : s ≡ p.eligible.state = of_some_eq (sym q ∙ at_h) in
    let b' = subst (λ u. limit_of f ≤ u.fetches) same b in
    let no_room = p.eligible.below in ground arith

pub surveyed-entry :
    (now : ℕ) (f : Frontier) (c : Candidate)
    → Sound f
    → Placed now f c
    → get c.entry.url (surveyed now f).entries ≡ some c.entry
unfolding surveyed
surveyed-entry now f c v p =
    close_hosts-get (closing now f) c.entry.url c.entry (scanned now f)
      (All-map _ _ _ (not_closed now f c p)
        (scan-IsExhausted f.entries now (limit_of f) f.hosts v.distinct))
      p.entry

pub surveyed-host :
    (now : ℕ) (f : Frontier) (c : Candidate) (e : IsEligible now f c)
    → get c.host (surveyed now f).hosts ≡ some (visited f.entries now (limit_of f) e.state)
surveyed-host now f c e = rw (surveyed-hosts now f) (
    scan-get f.entries now (limit_of f) c.host f.hosts
    ∙ ap (visited_option f.entries now (limit_of f)) e.at_host)

-- The state that a granted claim leaves.
abbrev pub granted_state : (now : ℕ) (f : Frontier) (c : Candidate) → Placed now f c → Frontier
granted_state now f c p =
    grant now c.host c.entry.url c.entry (visited f.entries now (limit_of f) p.eligible.state)
      p.below (surveyed now f)

-- `_pop_ready` finds the candidate's item, so that nothing is raised.
serve_eq :
    (now : ℕ) (f : Frontier) (c : Candidate)
    → Sound f
    → (p : Placed now f c)
    → serve now c (surveyed now f)
      ≡ (returned (some (lease_of (claimed c.entry))), granted_state now f c p)
unfolding serve pop_and_grant
serve_eq now f c v p = rw (
  surveyed-host now f c p.eligible,
  surveyed-entry now f c v p,
  p.at_top,
  (text_eq_iff p.item.url c.entry.url).1 p.item_url,
  serve,
  pop_and_grant,
)

-- The three ways in which `claim` ends.
pub data ClaimEnd (now : ℕ) (f : Frontier) : Type 0 where
  budget_spent :
      global_fetch_limit f.config ≤ f.claimed
      → claim_at now f ≡ (returned none, terminate_pending none global_fetch_budget f)
      → ClaimEnd now f
  nothing_ready :
      (scan f.entries now (limit_of f) f.hosts).candidates ≡ []
      → claim_at now f ≡ (returned none, surveyed now f)
      → ClaimEnd now f
  granted :
      f.claimed < global_fetch_limit f.config
      → (c : Candidate) (p : Placed now f c)
      → claim_at now f ≡ (returned (some (lease_of (claimed c.entry))), granted_state now f c p)
      → ClaimEnd now f

choose-ClaimEnd :
    (now : ℕ) (f : Frontier) (cs : List Candidate)
    → Sound f
    → All (IsEligible now f) cs
    → (scan f.entries now (limit_of f) f.hosts).candidates ≡ cs
    → leb (global_fetch_limit f.config) f.claimed ≡ false
    → ClaimEnd now f
unfolding claim_at
choose-ClaimEnd now f [] v h q b =
    let found = scan_missing-none f.entries now v.keyed (limit_of f) f.hosts v.known in
    nothing_ready q (rw (b, found, q, claim_at) refl)
choose-ClaimEnd now f (c ∷ cs) v h q b =
    let best = least c cs in
    let p = place now f best v (least-All (IsEligible now f) c cs h.0 h.1) in
    let found = scan_missing-none f.entries now v.keyed (limit_of f) f.hosts v.known in
    granted (ground arith) best p (rw (b, found, q, claim_at) (serve_eq now f best v p))

pub claim_at-ClaimEnd : (now : ℕ) (f : Frontier) → Sound f → ClaimEnd now f
unfolding claim_at
claim_at-ClaimEnd now f v = elim (Bool-cases (leb (global_fetch_limit f.config) f.claimed)) [
  | inl e ↦ budget_spent (ground arith) (rw e)
  | inr e ↦
      choose-ClaimEnd now f _ v (scan-Eligible f.entries now (limit_of f) f.hosts v.distinct) refl e
]
