-- ===== src/Frontier/Holding.antt =====
-- app/services/frontier.py: a lease resolves until it is reported, whatever is claimed, admitted or reported beside it.
use clusy_crawler.Base.{
  ℕ, ◌+◌, ◌≡◌, ◌≢◌, ◌<◌, refl, ◌∙◌, sym, subst, ap, Option, none, some, true, false, List, [], ◌∷◌,
  arith, Text, text_eq, text_eq_iff, finite, pos, if◌then◌else◌,
}
use clusy_crawler.Base.Dict.{get, put, get-put, Tracks, Tracks-trans}
use clusy_crawler.Frontier.Types.{
  text_key, Entry, Frontier, FrontierLease, TerminalReason, Outcome, returned, is_pending,
  global_fetch_limit, global_fetch_budget, host_fetch_budget, succeeded,
}
use clusy_crawler.Frontier.Queue.{terminate, terminated}
use clusy_crawler.Frontier.Claim.{
  claim, claim_at, claimed, grant, surveyed, scanned, closing, close_hosts, lease_of, Candidate,
}
use clusy_crawler.Frontier.Report.{
  resolve_lease, succeed, fail, fail_entry, absent, is_succeeded, holds,
}
use clusy_crawler.Frontier.Sound.{Sound}
use clusy_crawler.Frontier.Grant.{
  ClaimEnd, budget_spent, nothing_ready, granted, claim_at-ClaimEnd, surveyed-entry, Placed,
  granted_state,
}
use clusy_crawler.Frontier.Politeness.{claim-IsGranted, resolve_lease-claim}
use clusy_crawler.Frontier.Calls.{resolve_lease-Resolved}
use clusy_crawler.Frontier.Flight.{
  Kept, Kept-trans, Spares, Spares-refl, Spares-trans, put-Kept, terminate_pending-Spares,
}

close_hosts-Spares : (hs : List Text) (f : Frontier) → Spares f (close_hosts hs f)
unfolding close_hosts
close_hosts-Spares [] f = Spares-refl f
close_hosts-Spares (h ∷ hs) f =
    Spares-trans f _ _ (terminate_pending-Spares (some h) host_fetch_budget f)
      (close_hosts-Spares hs _)

surveyed-Spares : (now : ℕ) (f : Frontier) → Spares f (surveyed now f)
unfolding surveyed
surveyed-Spares now f =
    let s = close_hosts-Spares (closing now f) (scanned now f) in
    record { same_config = s.same_config; same_claimed = s.same_claimed; kept = s.kept }

-- What `claim` does to the leases that are held.
pub data ClaimHolds (f : Frontier) (r : Outcome (Option FrontierLease) × Frontier) : Type 0 where
  nothing : r.0 ≡ returned none → Spares f r.1 → ClaimHolds f r
  leased :
      (l : FrontierLease) (e : Entry)
      → r.0 ≡ returned (some l)
      → r.1.config ≡ f.config
      → r.1.claimed ≡ f.claimed + 1
      → f.claimed < global_fetch_limit f.config
      → Tracks Kept f.entries r.1.entries
      → get l.url f.entries ≡ some e
      → is_pending e.state ≡ true
      → resolve_lease l r.1 ≡ some (claimed e)
      → ClaimHolds f r

granted_state-Spares :
    (now : ℕ) (f : Frontier) (c : Candidate)
    → Sound f
    → (p : Placed now f c)
    → ((granted_state now f c p).config ≡ f.config)
      × Tracks Kept f.entries (granted_state now f c p).entries
unfolding grant
granted_state-Spares now f c v p =
    let s = surveyed-Spares now f in
    (
      s.same_config,
      Tracks-trans Kept f.entries (surveyed now f).entries _ Kept-trans s.kept (
          put-Kept c.entry.url c.entry (claimed c.entry) (surveyed now f).entries
            (surveyed-entry now f c v p) p.pending),
    )

-- A claim at a time from the clock leases a pending entry, within the limit, or nothing.
pub claim-ClaimHolds :
    (now : ℕ) (f : Frontier) → Sound f → ClaimHolds f (claim (finite (pos now)) f)
unfolding claim
claim-ClaimHolds now f v = ended (claim_at-ClaimEnd now f v)
  where
    ended : ClaimEnd now f → ClaimHolds f (claim_at now f)
    ended (budget_spent b q) =
        rw q (ClaimHolds.nothing refl (terminate_pending-Spares none global_fetch_budget f))
    ended (nothing_ready b q) = rw q (ClaimHolds.nothing refl (surveyed-Spares now f))
    ended (granted b c p q) =
        let l = lease_of (claimed c.entry) in
        let taken : (claim_at now f).0 ≡ returned (some l) = ap (λ r. r.0) q in
        let g = claim-IsGranted now f l v taken in
        let (e, before, resolves) = resolve_lease-claim now f l v taken in
        let same : e ≡ g.entry = cc (before, g.entry_before) in
        let (same_config, kept) = granted_state-Spares now f c v p in
        ClaimHolds.leased l e taken (ap (λ r. r.1.config) q ∙ same_config) g.counted g.within_global
          (subst (λ h. Tracks Kept f.entries h.1.entries) (sym q) kept) before
          (subst (λ x. is_pending x.state ≡ true) (sym same) g.pending) resolves

-- A lease resolves by the entry at its URL.
resolve_lease-same :
    (l : FrontierLease) (e : Entry) (f g : Frontier)
    → get l.url f.entries ≡ get l.url g.entries
    → resolve_lease l f ≡ some e
    → resolve_lease l g ≡ some e
unfolding resolve_lease
resolve_lease-same l e f g same h = moved (get l.url f.entries) (get l.url g.entries) same h
  where
    moved :
        (a b : Option Entry)
        → a ≡ b
        → elim a [ none ↦ none | some x ↦ if holds l x then some x else none ] ≡ some e
        → elim b [ none ↦ none | some x ↦ if holds l x then some x else none ] ≡ some e
    moved a b e h = rw (← e) h

-- It still does where its entry was kept.
pub resolve_lease-Kept :
    (l : FrontierLease) (e : Entry) (f g : Frontier)
    → Tracks Kept f.entries g.entries
    → resolve_lease l f ≡ some e
    → resolve_lease l g ≡ some e
resolve_lease-Kept l e f g k h =
    let r = resolve_lease-Resolved l f e h in
    let (e', q, same) = k l.url e r.entry in
    resolve_lease-same l e f g (r.entry ∙ sym (q ∙ ap some (same r.flying))) h

-- What the report of a lease does to the others: `r` is the state after it.
pub record Reports {A : Type 0} (l : FrontierLease) (f : Frontier) (r : Outcome A × Frontier)
    : Type 0 where
  pub answers : (a : A) × (r.0 ≡ returned a)
  pub same_config : r.1.config ≡ f.config
  pub same_claimed : r.1.claimed ≡ f.claimed
  pub others :
      (m : FrontierLease) (e : Entry)
      → l.url ≢ m.url
      → resolve_lease m f ≡ some e
      → resolve_lease m r.1 ≡ some e

terminate-others :
    (url : Text) (x : Entry) (reason : TerminalReason) (f : Frontier) (m : FrontierLease)
    (e : Entry)
    → url ≢ m.url
    → resolve_lease m f ≡ some e
    → resolve_lease m (terminate url x reason f) ≡ some e
unfolding terminate
terminate-others url x reason f m e d h =
    let apart : text_eq url m.url ≡ false = ground (arith, text_eq_iff url m.url) in
    let same : get m.url (put url (terminated reason x) f.entries) ≡ get m.url f.entries =
      rw (get-put, apart) refl in
    resolve_lease-same m e f (terminate url x reason f) (sym same) h

pub succeed-Reports :
    (l : FrontierLease) (e : Entry) (f : Frontier)
    → resolve_lease l f ≡ some e
    → Reports l f (succeed l f)
unfolding succeed
succeed-Reports l e f h =
    rw (h, succeed)
      (record {
        answers = (_, refl);
        same_config = refl;
        same_claimed = refl;
        others = λ m x d q. terminate-others l.url e succeeded f m x d q;
      })

pub fail-Reports :
    (l : FrontierLease) (e : Entry) (now : ℕ) (reason : TerminalReason) (f : Frontier)
    → is_succeeded reason ≡ false
    → resolve_lease l f ≡ some e
    → Reports l f (fail l (finite (pos now)) false absent none reason f)
unfolding fail fail_entry
fail-Reports l e now reason f n h =
    rw (h, fail, n)
      (record {
        answers = (_, refl);
        same_config = refl;
        same_claimed = refl;
        others = λ m x d q. terminate-others l.url e reason f m x d q;
      })
