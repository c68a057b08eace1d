-- ===== src/Frontier/History.antt =====
-- app/services/frontier.py: every call keeps the references sound, and only moves entries and hosts
-- forward.
use clusy_crawler.Base.{
  ℕ, ◌≡◌, ◌∙◌, subst, sym, ap, inl, inr, Option, none, some, List, arith, Text, All, Bool-cases,
  leb, of_some_eq,
}
use clusy_crawler.Base.Dict.{get, put, Every-get, Every-put, put-KeysDistinct}
use clusy_crawler.Frontier.Types.{text_key, Entry, HostState, Frontier, global_fetch_budget}
use clusy_crawler.Frontier.Queue.{enqueue, enqueued, terminate, terminated, terminate_pending}
use clusy_crawler.Frontier.Claim.{
  Candidate, refreshed, surveyed, scanned, closing, claimed, served, grant, claim_at,
}
use clusy_crawler.Frontier.Later.{
  Later, EntriesLater, EntriesLater-refl, EntriesLater-trans, EntriesLater-put, IsOpen,
  claimed-Later, terminated-Later, pending-IsOpen, HostLater, HostLater-refl, HostsLater,
  HostsLater-refl, HostsLater-trans, HostsLater-put,
}
use clusy_crawler.Frontier.Sound.{Linked, Sound, KnownHost, known_later, enqueue-Sound}
use clusy_crawler.Frontier.Survey.{visited, visited_option, scan-get}
use clusy_crawler.Frontier.Sweep.{
  terminate_pending-Sound, terminate_pending-later, close_hosts-later,
}
use clusy_crawler.Frontier.Grant.{
  Placed, limit_of, granted_state, surveyed-Sound, surveyed-hosts, surveyed-entry, surveyed-host,
  claim_at-ClaimEnd, ClaimEnd, budget_spent, nothing_ready, granted,
}

-- From the dictionaries `m` and `hs` to `m'` and `hs'`.
pub record Moved (m : List (Text × Entry)) (hs : List (Text × HostState)) (m' : List (Text × Entry))
    (hs' : List (Text × HostState)) : Type 0 where
  pub linked : Linked m' hs'
  pub entries : EntriesLater m m'
  pub hosts : HostsLater hs hs'

abbrev pub Evolves : Frontier → Frontier → Type 0
Evolves f g = Moved f.entries f.hosts g.entries g.hosts

pub Evolves-refl : (f : Frontier) → Sound f → Evolves f f
Evolves-refl f v = record {
  linked = v;
  entries = EntriesLater-refl f.entries;
  hosts = HostsLater-refl f.hosts;
}

pub Evolves-trans : (f g h : Frontier) → Evolves f g → Evolves g h → Evolves f h
Evolves-trans f g h a b = record {
  linked = b.linked;
  entries = EntriesLater-trans _ _ _ a.entries b.entries;
  hosts = HostsLater-trans _ _ _ a.hosts b.hosts;
}

enqueue-hosts :
    (url : Text) (e : Entry) (ready_at : ℕ) (f : Frontier)
    → HostsLater f.hosts (enqueue url e ready_at f).hosts
unfolding enqueue
enqueue-hosts url e ready_at f = HostsLater-put e.host _ f.hosts (λ s q. rw q (omega arith))

enqueue-entries :
    (url : Text) (e e' : Entry) (ready_at : ℕ) (f : Frontier)
    → get url f.entries ≡ some e
    → Later e (enqueued e' ready_at)
    → EntriesLater f.entries (enqueue url e' ready_at f).entries
unfolding enqueue
enqueue-entries url e e' ready_at f q l =
    EntriesLater-put url e (enqueued e' ready_at) f.entries q l

pub enqueue-Evolves :
    (url : Text) (e e' : Entry) (ready_at : ℕ) (f : Frontier)
    → Sound f
    → get url f.entries ≡ some e
    → Later e (enqueued e' ready_at)
    → Evolves f (enqueue url e' ready_at f)
enqueue-Evolves url e e' ready_at f v q l = record {
  linked = enqueue-Sound url e e' ready_at f v q l;
  entries = enqueue-entries url e e' ready_at f q l;
  hosts = enqueue-hosts url e' ready_at f;
}

-- An entry is replaced by a later one.
pub put_entry-Evolves :
    (url : Text) (e e' : Entry) (f : Frontier)
    → Sound f
    → get url f.entries ≡ some e
    → Later e e'
    → Moved f.entries f.hosts (put url e' f.entries) f.hosts
put_entry-Evolves url e e' f v q l =
    let later = EntriesLater-put url e e' f.entries q l in
    record {
      linked = record {
        keyed =
            Every-put _ url e' f.entries v.keyed
              (l.same_url ∙ Every-get _ url e f.entries v.keyed q);
        distinct = v.distinct;
        known = known_later _ _ f.hosts later v.known;
      };
      entries = later;
      hosts = HostsLater-refl f.hosts;
    }

-- A host's state is replaced by a later one whose items refer to the host's entries.
pub put_host-Evolves :
    (host : Text) (s' : HostState) (f : Frontier)
    → Sound f
    → KnownHost f.entries host s'
    → ((s : HostState) → get host f.hosts ≡ some s → HostLater s s')
    → Moved f.entries f.hosts f.entries (put host s' f.hosts)
put_host-Evolves host s' f v k l = record {
  linked = record {
    keyed = v.keyed;
    distinct = put-KeysDistinct host s' f.hosts v.distinct;
    known = Every-put _ host s' f.hosts v.known k;
  };
  entries = EntriesLater-refl f.entries;
  hosts = HostsLater-put host s' f.hosts l;
}

pub terminate-Evolves :
    (url : Text) (e : Entry) (reason : _) (f : Frontier)
    → Sound f
    → get url f.entries ≡ some e
    → IsOpen e
    → Evolves f (terminate url e reason f)
unfolding terminate
terminate-Evolves url e reason f v q o =
    put_entry-Evolves url e (terminated reason e) f v q (terminated-Later reason e o)

terminate_pending-hosts :
    (host : Option Text) (reason : _) (f : Frontier)
    → HostsLater f.hosts (terminate_pending host reason f).hosts
unfolding terminate_pending
terminate_pending-hosts host reason f = HostsLater-refl f.hosts

pub terminate_pending-Evolves :
    (host : Option Text) (reason : _) (f : Frontier)
    → Sound f
    → Evolves f (terminate_pending host reason f)
terminate_pending-Evolves host reason f v = record {
  linked = terminate_pending-Sound host reason f v;
  entries = terminate_pending-later host reason f;
  hosts = terminate_pending-hosts host reason f;
}

refreshed-HostLater :
    (m : List (Text × Entry)) (now : ℕ) (s : HostState) → HostLater s (refreshed m now s).1
unfolding refreshed
refreshed-HostLater m now s = omega arith

pub visited-HostLater :
    (m : List (Text × Entry)) (now limit : ℕ) (s : HostState) → HostLater s (visited m now limit s)
visited-HostLater m now limit s = elim (Bool-cases (leb limit s.fetches)) [
  | inl e ↦ rw e (HostLater-refl s)
  | inr e ↦ rw e (refreshed-HostLater m now s)
]

surveyed-later : (now : ℕ) (f : Frontier) → EntriesLater f.entries (surveyed now f).entries
unfolding surveyed
surveyed-later now f = close_hosts-later (closing now f) (scanned now f)

surveyed-HostsLater : (now : ℕ) (f : Frontier) → HostsLater f.hosts (surveyed now f).hosts
surveyed-HostsLater now f host s q = (
  visited f.entries now (limit_of f) s,
  rw (surveyed-hosts now f) (
      scan-get f.entries now (limit_of f) host f.hosts
      ∙ ap (visited_option f.entries now (limit_of f)) q),
  visited-HostLater f.entries now (limit_of f) s,
)

pub surveyed-Evolves : (now : ℕ) (f : Frontier) → Sound f → Evolves f (surveyed now f)
surveyed-Evolves now f v = record {
  linked = surveyed-Sound now f v;
  entries = surveyed-later now f;
  hosts = surveyed-HostsLater now f;
}

-- What the surveyed state holds of the host of a candidate.
surveyed-KnownHost :
    (now : ℕ) (f : Frontier) (c : Candidate) (v : Sound f) (p : Placed now f c)
    → KnownHost
        (surveyed now f).entries
        c.host
        (visited f.entries now (limit_of f) p.eligible.state)
surveyed-KnownHost now f c v p =
    Every-get _ c.host _ _ (surveyed-Sound now f v).known (surveyed-host now f c p.eligible)

granted-KnownHost :
    (now : ℕ) (f g : Frontier) (c : Candidate) (p : Placed now f c)
    → KnownHost g.entries c.host (visited f.entries now (limit_of f) p.eligible.state)
    → KnownHost g.entries c.host (
        served g.turn g.config.host_delay_s now p.below
          (visited f.entries now (limit_of f) p.eligible.state))
unfolding served
granted-KnownHost now f g c p k = record {
  waiting = k.waiting;
  ready = (subst (All _) p.at_top k.ready).1;
}

granted-hosts :
    (now : ℕ) (f : Frontier) (c : Candidate) (p : Placed now f c) (g : Frontier)
    → get c.host g.hosts ≡ some (visited f.entries now (limit_of f) p.eligible.state)
    → (s : HostState) → get c.host g.hosts ≡ some s
    → HostLater s (
        served g.turn g.config.host_delay_s now p.below
          (visited f.entries now (limit_of f) p.eligible.state))
unfolding served
granted-hosts now f c p g q s r =
    subst
      (λ u. HostLater u (
        served g.turn g.config.host_delay_s now p.below
          (visited f.entries now (limit_of f) p.eligible.state)))
      (of_some_eq (sym q ∙ r)) (omega arith)

granted-Evolves :
    (now : ℕ) (f : Frontier) (c : Candidate) (v : Sound f) (p : Placed now f c)
    → Evolves f (granted_state now f c p)
unfolding grant
granted-Evolves now f c v p =
    let g = surveyed now f in
    let s = visited f.entries now (limit_of f) p.eligible.state in
    let s' = served g.turn g.config.host_delay_s now p.below s in
    let by_survey = surveyed-Evolves now f v in
    let by_host : Moved g.entries g.hosts g.entries (put c.host s' g.hosts) =
      put_host-Evolves c.host s' g by_survey.linked
        (granted-KnownHost now f g c p (surveyed-KnownHost now f c v p))
        (granted-hosts now f c p g (surveyed-host now f c p.eligible)) in
    let by_entry =
      put_entry-Evolves c.entry.url c.entry (claimed c.entry)
        (record g { hosts = put c.host s' g.hosts }) by_host.linked (surveyed-entry now f c v p)
        (claimed-Later c.entry (pending-IsOpen c.entry p.pending)) in
    record {
      linked = by_entry.linked;
      entries = EntriesLater-trans _ _ _ by_survey.entries by_entry.entries;
      hosts = HostsLater-trans _ _ _ by_survey.hosts by_host.hosts;
    }

ClaimEnd-Evolves :
    (now : ℕ) (f : Frontier) → Sound f → ClaimEnd now f → Evolves f (claim_at now f).1
ClaimEnd-Evolves now f v (budget_spent b q) =
    rw q (terminate_pending-Evolves none global_fetch_budget f v)
ClaimEnd-Evolves now f v (nothing_ready b q) = rw q (surveyed-Evolves now f v)
ClaimEnd-Evolves now f v (granted b c p q) = rw q (granted-Evolves now f c v p)

pub claim_at-Evolves : (now : ℕ) (f : Frontier) → Sound f → Evolves f (claim_at now f).1
claim_at-Evolves now f v = ClaimEnd-Evolves now f v (claim_at-ClaimEnd now f v)
