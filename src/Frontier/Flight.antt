-- ===== src/Frontier/Flight.antt =====
-- app/services/frontier.py: an entry in flight is left alone until its lease is reported.
use clusy_crawler.Base.{
  ℕ, ◌+◌, ◌≡◌, refl, ◌∙◌, sym, subst, inl, inr, Option, none, some, true, ◌&&◌, List, arith, Text,
  Bool-cases, Option-cases, leb, ltb, ℤ, pos, negsuc, Float, non_negative,
}
use clusy_crawler.Base.Dict.{get, put, get-put_self, Tracks, Tracks-put, Tracks-refl, Tracks-trans}
use clusy_crawler.Url.Split.{Platform, SplitResult, urlsplit}
use clusy_crawler.Url.Canonical.{
  canonicalize_url, host_from_canonical, same_site, Checked, accept, refuse,
}
use clusy_crawler.Frontier.Types.{
  text_key, Entry, Frontier, RejectionReason, TerminalReason, is_pending, in_flight, off_site,
  depth_budget, global_url_budget, host_url_budget,
}
use clusy_crawler.Frontier.Queue.{enqueued, or_new_host, terminate_pending}
use clusy_crawler.Frontier.Admit.{
  Discovery, reject, is_better, admit_known, new_entry, insert_new, admit_within_budgets,
  admit_unknown, admit_canonical, admit, after_traps, after_split, admit_on_host, admit_checked,
  reason_of, counted_attempt,
}
use clusy_crawler.Frontier.Sweep.{swept, sweep-get}

-- An entry in flight stays as it is.
abbrev pub Kept : Entry → Entry → Type 0
Kept e e' = e.state ≡ in_flight → e' ≡ e

pub Kept-refl : (e : Entry) → Kept e e
Kept-refl e h = refl

pub Kept-trans : (a b c : Entry) → Kept a b → Kept b c → Kept a c
Kept-trans a b c h k s = let e : b ≡ a = h s in k (subst (λ x. x.state ≡ in_flight) (sym e) s) ∙ e

-- What a call that reports no lease does to the entries in flight, the configuration and the count of leases.
pub record Spares (f g : Frontier) : Type 0 where
  pub same_config : g.config ≡ f.config
  pub same_claimed : g.claimed ≡ f.claimed
  pub kept : Tracks Kept f.entries g.entries

pub Spares-refl : (f : Frontier) → Spares f f
Spares-refl f = record {
  same_config = refl;
  same_claimed = refl;
  kept = Tracks-refl Kept f.entries Kept-refl;
}

pub Spares-trans : (f g h : Frontier) → Spares f g → Spares g h → Spares f h
Spares-trans f g h a b = record {
  same_config = b.same_config ∙ a.same_config;
  same_claimed = b.same_claimed ∙ a.same_claimed;
  kept = Tracks-trans Kept f.entries g.entries h.entries Kept-trans a.kept b.kept;
}

pending-Kept : (e e' : Entry) → is_pending e.state ≡ true → Kept e e'
pending-Kept e e' h s = ground arith

pub put-Kept :
    (url : Text) (e e' : Entry) (m : List (Text × Entry))
    → get url m ≡ some e
    → is_pending e.state ≡ true
    → Tracks Kept m (put url e' m)
put-Kept url e e' m q h =
    Tracks-put Kept url e' m Kept-refl
      (λ w r. let same : e ≡ w = ground arith in subst (λ u. Kept u e') same (pending-Kept e e' h))

put_new-Kept :
    (url : Text) (e' : Entry) (m : List (Text × Entry))
    → get url m ≡ none
    → Tracks Kept m (put url e' m)
put_new-Kept url e' m q = Tracks-put Kept url e' m Kept-refl (λ w r. absurd (cc))

reject-Spares :
    (reason : RejectionReason) (url : Option Text) (f g : Frontier)
    → Spares f g
    → Spares f (reject reason url g).1
unfolding reject
reject-Spares reason url f g s = record {
  same_config = s.same_config;
  same_claimed = s.same_claimed;
  kept = s.kept;
}

admit_known-Spares :
    (d : Discovery) (e : Entry) (f : Frontier)
    → get d.url f.entries ≡ some e
    → Spares f (admit_known d e f).1
unfolding admit_known
admit_known-Spares d e f q = elim (Bool-cases (is_pending e.state && is_better d e)) [
  | inl h ↦ rw h (record {
    same_config = refl;
    same_claimed = refl;
    kept = put-Kept d.url e _ f.entries q (ground arith);
  })
  | inr h ↦ rw h (record {
    same_config = refl;
    same_claimed = refl;
    kept = Tracks-refl Kept f.entries Kept-refl;
  })
]

insert_new-Spares :
    (p : Platform) (d : Discovery) (host : Text) (split : SplitResult) (f : Frontier)
    → get d.url f.entries ≡ none
    → Spares f (insert_new p d host split (or_new_host (get host f.hosts)) f).1
unfolding insert_new
insert_new-Spares p d host split f q =
    let e = new_entry d host split (f.order + 1) in
    let m = put d.url e f.entries in
    record {
      same_config = refl;
      same_claimed = refl;
      kept =
          Tracks-trans Kept f.entries m _ Kept-trans (put_new-Kept d.url e f.entries q)
            (put-Kept d.url e (enqueued e d.ready_at) m (get-put_self d.url e f.entries) refl);
    }

admit_within_budgets-Spares :
    (p : Platform) (d : Discovery) (host : Text) (split : SplitResult) (f : Frontier)
    → get d.url f.entries ≡ none
    → Spares f (admit_within_budgets p d host split f).1
unfolding admit_within_budgets
admit_within_budgets-Spares p d host split f q =
    let s = or_new_host (get host f.hosts) in
    elim (Bool-cases (leb f.config.max_urls f.admitted)) [
      | inl a ↦ rw a (reject-Spares global_url_budget (some d.url) f f (Spares-refl f))
      | inr a ↦ rw a (elim (Bool-cases (leb f.config.max_urls_per_host s.admitted)) [
        | inl b ↦ rw b (
            reject-Spares host_url_budget (some d.url) f (record f { hosts = put host s f.hosts })
              (record {
                same_config = refl;
                same_claimed = refl;
                kept = Tracks-refl Kept f.entries Kept-refl;
              }))
        | inr b ↦ rw b (insert_new-Spares p d host split f q)
      ])
    ]

after_traps-Spares :
    (p : Platform) (d : Discovery) (host : Text) (split : SplitResult)
    (trap : Option RejectionReason) (f : Frontier)
    → get d.url f.entries ≡ none
    → Spares f (after_traps p d host split trap f).1
after_traps-Spares p d host split none f q = admit_within_budgets-Spares p d host split f q
after_traps-Spares p d host split (some trap) f q =
    reject-Spares trap (some d.url) f f (Spares-refl f)

after_split-Spares :
    (p : Platform) (d : Discovery) (host : Text) (split : Option SplitResult) (f : Frontier)
    → get d.url f.entries ≡ none
    → Spares f (after_split p d host split f).1
after_split-Spares p d host none f q = Spares-refl f
after_split-Spares p d host (some split) f q = after_traps-Spares p d host split _ f q

admit_unknown-Spares :
    (p : Platform) (d : Discovery) (host : Text) (f : Frontier)
    → get d.url f.entries ≡ none
    → Spares f (admit_unknown p d host f).1
unfolding admit_unknown
admit_unknown-Spares p d host f q = elim (Bool-cases (ltb f.config.max_depth d.depth)) [
  | inl a ↦ rw a (reject-Spares depth_budget (some d.url) f f (Spares-refl f))
  | inr a ↦ rw a (after_split-Spares p d host (urlsplit p d.url) f q)
]

admit_on_host-Spares :
    (p : Platform) (d : Discovery) (host : Option Text) (f : Frontier)
    → Spares f (admit_on_host p d host f).1
admit_on_host-Spares p d none f = Spares-refl f
admit_on_host-Spares p d (some host) f =
    elim (Bool-cases (same_site p host f.roots f.config.allow_subdomains)) [
      | inr a ↦ rw a (reject-Spares off_site (some d.url) f f (Spares-refl f))
      | inl a ↦ rw a (elim (Option-cases (get d.url f.entries)) [
        | inl q ↦ rw q (admit_unknown-Spares p d host f q)
        | inr (e, q) ↦ rw q (admit_known-Spares d e f q)
      ])
    ]

pub admit_canonical-Spares :
    (p : Platform) (d : Discovery) (f : Frontier) → Spares f (admit_canonical p d f).1
unfolding admit_canonical
admit_canonical-Spares p d f = admit_on_host-Spares p d (host_from_canonical p d.url) f

pub counted_attempt-Spares : (f : Frontier) → Spares f (counted_attempt f)
counted_attempt-Spares f = record {
  same_config = refl;
  same_claimed = refl;
  kept = Tracks-refl Kept f.entries Kept-refl;
}

admit_checked-Spares :
    (p : Platform) (url : Checked Text) (depth : ℕ) (priority : ℤ) (parent_url : Option Text)
    (ready_at : ℕ) (f : Frontier)
    → Spares f (admit_checked p url depth priority parent_url ready_at f).1
unfolding admit_canonical
admit_checked-Spares p (refuse e) depth priority parent_url ready_at f =
    reject-Spares (reason_of e) none f f (Spares-refl f)
admit_checked-Spares p (accept url) depth priority parent_url ready_at f =
    admit_on_host-Spares p _ (host_from_canonical p url) f

pub admit-Spares :
    (p : Platform) (url : Text) (depth priority : ℤ) (parent_url : Option Text) (ready_at : Float)
    (f : Frontier)
    → Spares f (admit p url depth priority parent_url ready_at f).1
unfolding admit
admit-Spares p url (negsuc n) priority parent_url ready_at f =
    reject-Spares depth_budget none f (counted_attempt f) (record {
      same_config = refl;
      same_claimed = refl;
      kept = Tracks-refl Kept f.entries Kept-refl;
    })
admit-Spares p url (pos depth) priority parent_url ready_at f =
    let counted : Spares f (counted_attempt f) = record {
      same_config = refl;
      same_claimed = refl;
      kept = Tracks-refl Kept f.entries Kept-refl;
    } in
    elim (Option-cases (non_negative ready_at)) [
      | inl q ↦ rw (q, admit) counted
      | inr (t, q) ↦
          rw (q, admit)
            (Spares-trans f (counted_attempt f) _ counted (
              admit_checked-Spares p (canonicalize_url p f.config.max_url_length url) depth priority
                parent_url t (counted_attempt f)))
    ]

swept-Kept :
    (host : Option Text) (reason : TerminalReason) (e : Entry) → Kept e (swept host reason e)
swept-Kept none reason e s = ground arith
swept-Kept (some host) reason e s = ground arith

pub terminate_pending-Spares :
    (host : Option Text) (reason : TerminalReason) (f : Frontier)
    → Spares f (terminate_pending host reason f)
unfolding terminate_pending
terminate_pending-Spares host reason f = record {
  same_config = refl;
  same_claimed = refl;
  kept = λ k e q. (
    swept host reason e,
    sweep-get host reason k e f.entries f.terminal_reasons q,
    swept-Kept host reason e,
  );
}
