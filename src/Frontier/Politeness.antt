-- ===== src/Frontier/Politeness.antt =====
-- app/services/frontier.py: what a lease from `claim` guarantees, and the pause between two leases of
-- a host.
use clusy_crawler.Base.{
  ℕ, ◌+◌, ◌≤◌, ◌<◌, ◌≡◌, refl, ◌∙◌, subst, sym, ap, inl, inr, Option, none, some, true, List, arith,
  Bool-cases, leb, of_some_eq, Float, finite, pos, text_eq_iff,
}
use clusy_crawler.Base.Dict.{get, get-put_self}
use clusy_crawler.Url.Split.{Platform}
use clusy_crawler.Frontier.Types.{
  text_key, Entry, HostState, Frontier, FrontierLease, is_pending, in_flight, returned,
  global_fetch_limit, host_fetch_limit,
}
use clusy_crawler.Frontier.Claim.{
  claim, claim_at, claimed, lease_of, grant, served, refreshed, surveyed, closing, scanned,
}
use clusy_crawler.Frontier.Report.{resolve_lease}
use clusy_crawler.Frontier.Run.{Call, run}
use clusy_crawler.Frontier.Sound.{Sound}
use clusy_crawler.Frontier.Survey.{visited}
use clusy_crawler.Frontier.Sweep.{close_hosts-Unswept, Unswept}
use clusy_crawler.Frontier.Grant.{
  ClaimEnd, budget_spent, nothing_ready, granted, claim_at-ClaimEnd, Placed, granted_state,
  limit_of,
}
use clusy_crawler.Frontier.History.{claim_at-Evolves}
use clusy_crawler.Frontier.Calls.{run-Evolves}

abbrev at : ℕ → Float
at now = finite (pos now)

-- `claim` raises nothing at a finite time: neither `KeyError` nor the assertion of `_pop_ready`.
pub claim-returned :
    (now : ℕ) (f : Frontier)
    → Sound f
    → (l : Option FrontierLease) × ((claim (at now) f).0 ≡ returned l)
unfolding claim
claim-returned now f v = ended (claim_at-ClaimEnd now f v)
  where
    ended : ClaimEnd now f → (l : Option FrontierLease) × ((claim_at now f).0 ≡ returned l)
    ended (budget_spent b q) = (none, ap (λ r. r.0) q)
    ended (nothing_ready b q) = (none, ap (λ r. r.0) q)
    ended (granted b c p q) = (some (lease_of (claimed c.entry)), ap (λ r. r.0) q)

-- What a lease tells: it names a pending entry under its URL, on a host that may be fetched from at that time and
-- has fetches left; it carries the entry's next attempt, and the state after it has that attempt in
-- flight and the host closed for the configured pause.
pub record IsGranted (now : ℕ) (f : Frontier) (l : FrontierLease) (g : Frontier) : Type 0 where
  pub entry : Entry
  pub host : HostState
  pub host' : HostState
  pub entry_before : get l.url f.entries ≡ some entry
  pub pending : is_pending entry.state ≡ true
  pub same_host : entry.host ≡ l.host
  pub next_attempt : l.attempt ≡ entry.attempts + 1
  pub entry_after : get l.url g.entries ≡ some (claimed entry)
  pub entry_flies :
      (e : Entry)
      → get l.url g.entries ≡ some e
      → (e.state ≡ in_flight) × (e.attempts ≡ l.attempt) × (e.host ≡ l.host)
  pub host_before : get l.host f.hosts ≡ some host
  pub allowed : host.next_allowed_at ≤ now
  pub within_host : host.fetches < host_fetch_limit f.config
  pub within_global : f.claimed < global_fetch_limit f.config
  pub host_after : get l.host g.hosts ≡ some host'
  pub closed : now + f.config.host_delay_s ≤ host'.next_allowed_at
  pub counted_host : host'.fetches ≡ host.fetches + 1
  pub counted : g.claimed ≡ f.claimed + 1

surveyed-Unswept : (now : ℕ) (f : Frontier) → Unswept (scanned now f) (surveyed now f)
unfolding surveyed
surveyed-Unswept now f = close_hosts-Unswept (closing now f) (scanned now f)

visited-fetches :
    (now limit : ℕ) (f : Frontier) (s : HostState)
    → (visited f.entries now limit s).fetches ≡ s.fetches
unfolding refreshed
visited-fetches now limit f s = elim (Bool-cases (leb limit s.fetches)) [
  | inl e ↦ rw e
  | inr e ↦ rw e
]

Placed-IsGranted :
    (now : ℕ) (f : Frontier) (c : _) (p : Placed now f c)
    → f.claimed < global_fetch_limit f.config
    → IsGranted now f (lease_of (claimed c.entry)) (granted_state now f c p)
unfolding lease_of claimed grant served
Placed-IsGranted now f c p b =
    let s = visited f.entries now (limit_of f) p.eligible.state in
    let g = surveyed now f in
    let u = surveyed-Unswept now f in
    let s' : HostState = served g.turn g.config.host_delay_s now p.below s in
    record {
      entry = c.entry;
      host = p.eligible.state;
      host' = s';
      entry_before = p.entry;
      pending = p.pending;
      same_host = refl;
      next_attempt = refl;
      entry_after = get-put_self c.entry.url (claimed c.entry) g.entries;
      entry_flies = λ e q.
          let same : claimed c.entry ≡ e =
            of_some_eq (sym (get-put_self c.entry.url (claimed c.entry) g.entries) ∙ q) in
          subst
            (λ e'.
              (e'.state ≡ in_flight)
              × (e'.attempts ≡ c.entry.attempts + 1)
              × (e'.host ≡ c.entry.host))
            same (refl, refl, refl);
      host_before = rw p.same_host p.eligible.at_host;
      allowed = p.eligible.allowed;
      within_host = let room = p.eligible.below in ground arith;
      within_global = b;
      host_after = rw p.same_host (get-put_self c.host s' g.hosts);
      closed = let same = ap (λ k. k.host_delay_s) u.same_config in omega arith;
      counted_host = ap (λ n. n + 1) (visited-fetches now (limit_of f) f p.eligible.state);
      counted = ap (λ n. n + 1) u.same_claimed;
    }

-- Every lease that `claim` returns is granted in that sense: the URL's entry was pending, its host was
-- open at that time and had fetches left, so did the crawl; afterwards the entry's next attempt is in
-- flight, the host is closed for `host_delay_s`, and both counts of fetches have grown by one.
pub claim-IsGranted :
    (now : ℕ) (f : Frontier) (l : FrontierLease)
    → Sound f
    → (claim (at now) f).0 ≡ returned (some l)
    → IsGranted now f l (claim (at now) f).1
unfolding claim
claim-IsGranted now f l v h = ended (claim_at-ClaimEnd now f v)
  where
    ended : ClaimEnd now f → IsGranted now f l (claim_at now f).1
    ended (budget_spent b q) = absurd (cc (sym (ap (λ r. r.0) q) ∙ h))
    ended (nothing_ready b q) = absurd (cc (sym (ap (λ r. r.0) q) ∙ h))
    ended (granted b c p q) =
        let same : lease_of (claimed c.entry) ≡ l = cc (sym (ap (λ r. r.0) q) ∙ h) in
        rw (← same, q) (Placed-IsGranted now f c p b)

-- Two leases of one host, whatever calls stand between them, are at least `host_delay_s` apart.
pub claims_apart :
    (p : Platform) (cs : List Call) (now later : ℕ) (f : Frontier) (l m : FrontierLease)
    → Sound f
    → (claim (at now) f).0 ≡ returned (some l)
    → (claim (at later) (run p cs (claim (at now) f).1)).0 ≡ returned (some m)
    → l.host ≡ m.host
    → now + f.config.host_delay_s ≤ later
unfolding claim
claims_apart p cs now later f l m v h k e =
    let g = (claim_at now f).1 in
    let first = claim-IsGranted now f l v h in
    let linked = (claim_at-Evolves now f v).linked in
    let between = run-Evolves p cs g linked in
    let second = claim-IsGranted later (run p cs g) m between.linked k in
    let (s, q, grown) = between.hosts l.host first.host' first.host_after in
    let same : s ≡ second.host = of_some_eq (sym q ∙ rw e second.host_before) in
    let bound = subst (λ u. u.next_allowed_at ≤ later) (sym same) second.allowed in
    let after = first.closed in omega arith

-- The lease that `claim` returns is the one that resolves to the entry in flight.
pub resolve_lease-claim :
    (now : ℕ) (f : Frontier) (l : FrontierLease)
    → Sound f
    → (claim (at now) f).0 ≡ returned (some l)
    → (e : Entry) × (get l.url f.entries ≡ some e)
      × (resolve_lease l (claim (at now) f).1 ≡ some (claimed e))
unfolding resolve_lease claimed
resolve_lease-claim now f l v h =
    let g = claim-IsGranted now f l v h in
    (
      g.entry,
      g.entry_before,
      rw (g.entry_after, resolve_lease)
          (ground (arith, g.next_attempt, g.same_host, text_eq_iff g.entry.host l.host)),
    )
