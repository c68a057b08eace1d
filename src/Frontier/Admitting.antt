-- ===== src/Frontier/Admitting.antt =====
-- app/services/frontier.py: `admit` keeps the references sound and only moves entries and hosts
-- forward.
use clusy_crawler.Base.{
  ℕ, ◌+◌, ◌≡◌, refl, subst, inl, inr, Option, none, some, true, ◌&&◌, arith, Text, Bool-cases,
  Option-cases, leb, ltb, min, ℤ, pos, negsuc, Float, non_negative,
}
use clusy_crawler.Base.Dict.{get, put, get-put_self, Every-put}
use clusy_crawler.Url.Split.{Platform, SplitResult, urlsplit}
use clusy_crawler.Url.Canonical.{
  canonicalize_url, host_from_canonical, same_site, Checked, accept, refuse,
}
use clusy_crawler.Frontier.Types.{
  text_key, pair_key, Entry, HostState, Frontier, RejectionReason, off_site, depth_budget,
  global_url_budget, host_url_budget, is_pending,
}
use clusy_crawler.Frontier.Queue.{enqueued, or_new_host}
use clusy_crawler.Frontier.Admit.{
  Discovery, reject, is_better, reprioritized_entry, admit_known, new_entry, insert_new,
  admit_within_budgets, admit_unknown, admit_canonical, admit, after_traps, after_split,
  admit_on_host, admit_checked, reason_of, counted_duplicate, counted_attempt,
}
use clusy_crawler.Frontier.Later.{
  Later, EntriesLater-trans, EntriesLater-put_new, enqueued-Later, pending-IsOpen, HostLater,
  HostLater-refl, HostsLater-refl, HostsLater-trans,
}
use clusy_crawler.Frontier.Sound.{Sound, KnownHost, known_later, host_known}
use clusy_crawler.Frontier.History.{Moved, Evolves, Evolves-refl, enqueue-Evolves, put_host-Evolves}

-- The host's state as `setdefault` gives it, with another count of admitted URLs.
host_put :
    (host : Text) (s' : HostState) (f : Frontier)
    → Sound f
    → KnownHost f.entries host s'
    → HostLater (or_new_host (get host f.hosts)) s'
    → Moved f.entries f.hosts f.entries (put host s' f.hosts)
host_put host s' f v k l =
    put_host-Evolves host s' f v k (λ s q. subst (λ o. HostLater (or_new_host o) s') q l)

reject-Evolves :
    (reason : RejectionReason) (url : Option Text) (f g : Frontier)
    → Evolves f g
    → Evolves f (reject reason url g).1
unfolding reject
reject-Evolves reason url f g e = record { linked = e.linked; entries = e.entries; hosts = e.hosts }

reprioritized-Later :
    (d : Discovery) (e : Entry) (ready_at : ℕ)
    → is_pending e.state ≡ true
    → Later e (enqueued (reprioritized_entry d e) ready_at)
unfolding enqueued reprioritized_entry
reprioritized-Later d e ready_at h = record {
  same_url = refl;
  same_host = refl;
  same_order = refl;
  more_attempts = omega arith;
  more_generations = omega arith;
  final = λ t. absurd (pending-IsOpen e h t);
  claimed_anew = λ n s. ground arith;
}

admit_known-Evolves :
    (d : Discovery) (e : Entry) (f : Frontier)
    → Sound f
    → get d.url f.entries ≡ some e
    → Evolves f (admit_known d e f).1
unfolding admit_known
admit_known-Evolves d e f v q = elim (Bool-cases (is_pending e.state && is_better d e)) [
  | inl h ↦ rw h (
      enqueue-Evolves d.url e (reprioritized_entry d e) (min e.ready_at d.ready_at)
        (counted_duplicate f) v q (reprioritized-Later d e _ (ground arith)))
  | inr h ↦ rw h (Evolves-refl f v)
]

new_entry-Later :
    (d : Discovery) (host : Text) (split : SplitResult) (order ready_at : ℕ)
    → Later (new_entry d host split order) (enqueued (new_entry d host split order) ready_at)
unfolding new_entry
new_entry-Later d host split order ready_at = enqueued-Later _ ready_at (λ t. ground arith)

new_entry-url :
    (d : Discovery) (host : Text) (split : SplitResult) (order : ℕ)
    → (new_entry d host split order).url ≡ d.url
unfolding new_entry
new_entry-url d host split order = refl

-- A new entry, put under its URL.
put_new-Evolves :
    (url : Text) (e : Entry) (f : Frontier)
    → Sound f
    → get url f.entries ≡ none
    → e.url ≡ url
    → Moved f.entries f.hosts (put url e f.entries) f.hosts
put_new-Evolves url e f v q u =
    let later = EntriesLater-put_new url e f.entries q in
    record {
      linked = record {
        keyed = Every-put _ url e f.entries v.keyed u;
        distinct = v.distinct;
        known = known_later _ _ f.hosts later v.known;
      };
      entries = later;
      hosts = HostsLater-refl f.hosts;
    }

insert_new-Evolves :
    (p : Platform) (d : Discovery) (host : Text) (split : SplitResult) (f : Frontier)
    → Sound f
    → get d.url f.entries ≡ none
    → Evolves f (insert_new p d host split (or_new_host (get host f.hosts)) f).1
unfolding insert_new
insert_new-Evolves p d host split f v q =
    let e = new_entry d host split (f.order + 1) in
    let s = or_new_host (get host f.hosts) in
    let s' : HostState = record s { admitted = s.admitted + 1 } in
    let by_entry = put_new-Evolves d.url e f v q (new_entry-url d host split (f.order + 1)) in
    let g = record f { entries = put d.url e f.entries } in
    let k = host_known g.entries host f.hosts (get host f.hosts) by_entry.linked.known refl in
    let by_host =
      host_put host s' g by_entry.linked (record { waiting = k.waiting; ready = k.ready })
        (omega arith) in
    let h = record g { hosts = put host s' g.hosts } in
    let by_queue =
      enqueue-Evolves d.url e e d.ready_at h by_host.linked (get-put_self d.url e f.entries)
        (new_entry-Later d host split (f.order + 1) d.ready_at) in
    record {
      linked = record {
        keyed = by_queue.linked.keyed;
        distinct = by_queue.linked.distinct;
        known = by_queue.linked.known;
      };
      entries =
          EntriesLater-trans _ _ _ by_entry.entries
            (EntriesLater-trans _ _ _ by_host.entries by_queue.entries);
      hosts = HostsLater-trans _ _ _ by_host.hosts by_queue.hosts;
    }

admit_within_budgets-Evolves :
    (p : Platform) (d : Discovery) (host : Text) (split : SplitResult) (f : Frontier)
    → Sound f
    → get d.url f.entries ≡ none
    → Evolves f (admit_within_budgets p d host split f).1
unfolding admit_within_budgets
admit_within_budgets-Evolves p d host split f v q =
    let s = or_new_host (get host f.hosts) in
    elim (Bool-cases (leb f.config.max_urls f.admitted)) [
      | inl a ↦ rw a (reject-Evolves global_url_budget (some d.url) f f (Evolves-refl f v))
      | inr a ↦ rw a (elim (Bool-cases (leb f.config.max_urls_per_host s.admitted)) [
        | inl b ↦ rw b (
            reject-Evolves host_url_budget (some d.url) f (record f { hosts = put host s f.hosts })
              (host_put host s f v
                (host_known f.entries host f.hosts (get host f.hosts) v.known refl)
                (HostLater-refl s)))
        | inr b ↦ rw b (insert_new-Evolves p d host split f v q)
      ])
    ]

after_traps-Evolves :
    (p : Platform) (d : Discovery) (host : Text) (split : SplitResult)
    (trap : Option RejectionReason) (f : Frontier)
    → Sound f
    → get d.url f.entries ≡ none
    → Evolves f (after_traps p d host split trap f).1
after_traps-Evolves p d host split none f v q = admit_within_budgets-Evolves p d host split f v q
after_traps-Evolves p d host split (some trap) f v q =
    reject-Evolves trap (some d.url) f f (Evolves-refl f v)

after_split-Evolves :
    (p : Platform) (d : Discovery) (host : Text) (split : Option SplitResult) (f : Frontier)
    → Sound f
    → get d.url f.entries ≡ none
    → Evolves f (after_split p d host split f).1
after_split-Evolves p d host none f v q = Evolves-refl f v
after_split-Evolves p d host (some split) f v q = after_traps-Evolves p d host split _ f v q

admit_unknown-Evolves :
    (p : Platform) (d : Discovery) (host : Text) (f : Frontier)
    → Sound f
    → get d.url f.entries ≡ none
    → Evolves f (admit_unknown p d host f).1
unfolding admit_unknown
admit_unknown-Evolves p d host f v q = elim (Bool-cases (ltb f.config.max_depth d.depth)) [
  | inl a ↦ rw a (reject-Evolves depth_budget (some d.url) f f (Evolves-refl f v))
  | inr a ↦ rw a (after_split-Evolves p d host (urlsplit p d.url) f v q)
]

admit_on_host-Evolves :
    (p : Platform) (d : Discovery) (host : Option Text) (f : Frontier)
    → Sound f
    → Evolves f (admit_on_host p d host f).1
admit_on_host-Evolves p d none f v = Evolves-refl f v
admit_on_host-Evolves p d (some host) f v =
    elim (Bool-cases (same_site p host f.roots f.config.allow_subdomains)) [
      | inr a ↦ rw a (reject-Evolves off_site (some d.url) f f (Evolves-refl f v))
      | inl a ↦ rw a (elim (Option-cases (get d.url f.entries)) [
        | inl q ↦ rw q (admit_unknown-Evolves p d host f v q)
        | inr (e, q) ↦ rw q (admit_known-Evolves d e f v q)
      ])
    ]

pub admit_canonical-Evolves :
    (p : Platform) (d : Discovery) (f : Frontier) → Sound f → Evolves f (admit_canonical p d f).1
unfolding admit_canonical
admit_canonical-Evolves p d f v = admit_on_host-Evolves p d (host_from_canonical p d.url) f v

admit_checked-Evolves :
    (p : Platform) (url : Checked Text) (depth : ℕ) (priority : ℤ) (parent_url : Option Text)
    (ready_at : ℕ) (f : Frontier)
    → Sound f
    → Evolves f (admit_checked p url depth priority parent_url ready_at f).1
admit_checked-Evolves p (refuse e) depth priority parent_url ready_at f v =
    reject-Evolves (reason_of e) none f f (Evolves-refl f v)
admit_checked-Evolves p (accept url) depth priority parent_url ready_at f v =
    admit_canonical-Evolves p _ f v

pub admit-Evolves :
    (p : Platform) (url : Text) (depth priority : ℤ) (parent_url : Option Text) (ready_at : Float)
    (f : Frontier)
    → Sound f
    → Evolves f (admit p url depth priority parent_url ready_at f).1
unfolding admit
admit-Evolves p url (negsuc n) priority parent_url ready_at f v =
    reject-Evolves depth_budget none f (counted_attempt f) (Evolves-refl f v)
admit-Evolves p url (pos depth) priority parent_url ready_at f v =
    elim (Option-cases (non_negative ready_at)) [
      | inl q ↦ rw (q, admit) (Evolves-refl f v)
      | inr (t, q) ↦
          rw (q, admit)
            (admit_checked-Evolves p (canonicalize_url p f.config.max_url_length url) depth priority
              parent_url t (counted_attempt f) v)
    ]
