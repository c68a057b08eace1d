-- ===== src/Crawl/Moves.antt =====
-- app/services/crawler.py: what claims, reports and admissions do to a crawl in order.
use clusy_crawler.Base.{
  ℕ, zero, suc, ◌+◌, ◌≤◌, ◌≡◌, ◌≢◌, refl, sym, ap, subst, ◌∙◌, inl, inr, Bool, true, false, Option,
  none, some, List, [], ◌∷◌, Text, arith, length, finite, pos, Option-cases, if◌then◌else◌,
}
use clusy_crawler.Url.Split.{Platform}
use clusy_crawler.Frontier.Types.{
  Entry, Frontier, FrontierLease, TerminalReason, Outcome, returned, raised, global_fetch_limit,
  permanent_failure,
}
use clusy_crawler.Frontier.Admit.{admit}
use clusy_crawler.Frontier.Claim.{claim}
use clusy_crawler.Frontier.Report.{resolve_lease, succeed, fail, absent, is_succeeded}
use clusy_crawler.Frontier.Sound.{Sound}
use clusy_crawler.Frontier.Calls.{succeed-Evolves, fail-Evolves, claim-Evolves}
use clusy_crawler.Frontier.History.{Evolves, Evolves-refl, Evolves-trans}
use clusy_crawler.Frontier.Admitting.{admit-Evolves}
use clusy_crawler.Frontier.Flight.{Spares, Spares-refl, Spares-trans, admit-Spares}
use clusy_crawler.Frontier.Holding.{
  ClaimHolds, claim-ClaimHolds, Reports, succeed-Reports, fail-Reports,
}
use clusy_crawler.Crawl.Job.{
  Job, LiveTask, Fetch, robots, off_site, CrawlResult, Settings, started, active, fill_rounds,
  outcome_of, reason_of, report, has_error, admit_links, admit_discovered_links, after_return,
}
use clusy_crawler.Crawl.Leases.{
  Consecutive, AreHeld, AreApart, AreElsewhere, Consecutive-append, AreHeld-Kept, AreHeld-append,
  pending-AreElsewhere, AreApart-append, active-append,
}

-- The invariant of a crawl that has not been cancelled: `retired` results, and the tasks in the order of their claims.
pub record IsInOrder (limit concurrency : ℕ) (j : Job) : Type 0 where
  pub sound : Sound j.frontier
  pub limited : global_fetch_limit j.frontier.config ≡ limit
  pub counted : j.claim_order ≡ j.frontier.claimed
  pub within : j.frontier.claimed ≤ limit
  pub running : active j.live ≤ concurrency
  pub ordered : Consecutive (length j.results) j.live j.claim_order
  pub held : AreHeld j.frontier j.live
  pub apart : AreApart j.live

module _ (limit concurrency : ℕ) where
  pub spared :
      (j : Job) (f : Frontier)
      → IsInOrder limit concurrency j
      → Sound f
      → Spares j.frontier f
      → IsInOrder limit concurrency (record j { frontier = f })
  spared j f v sound s = record {
    sound = sound;
    limited = ap global_fetch_limit s.same_config ∙ v.limited;
    counted = v.counted ∙ sym s.same_claimed;
    within = omega (arith, v.within, s.same_claimed);
    running = v.running;
    ordered = v.ordered;
    held = AreHeld-Kept j.frontier f j.live s.kept v.held;
    apart = v.apart;
  }

  pub fill_rounds-IsInOrder :
      (left : ℕ) (clock : ℕ → ℕ) (j j' : Job)
      → left + active j.live ≤ concurrency
      → IsInOrder limit concurrency j
      → fill_rounds left clock j ≡ some j'
      → IsInOrder limit concurrency j' × (j'.phase ≡ j.phase)
  unfolding fill_rounds
  fill_rounds-IsInOrder zero clock j j' room v h =
      let e : j ≡ j' = cc h in (subst (IsInOrder limit concurrency) e v, ap (λ x. x.phase) (sym e))
  fill_rounds-IsInOrder (suc left) clock j j' room v h =
      let t = clock j.claim_order in
      let sound = (claim-Evolves (finite (pos t)) j.frontier v.sound).linked in
      elim (claim-ClaimHolds t j.frontier v.sound) [
        | ClaimHolds.nothing e s ↦
            let end : some (record j { frontier = (claim (finite (pos t)) j.frontier).1 })
                ≡ some j' =
              rw (e, fill_rounds) at h in
            let same : record j { frontier = (claim (finite (pos t)) j.frontier).1 } ≡ j' =
              cc end in
            (
              subst (IsInOrder limit concurrency) same (spared j _ v sound s),
              sym (ap (λ x. x.phase) same),
            )
        | ClaimHolds.leased l x e config counted below kept before pending resolves ↦
            let f = (claim (finite (pos t)) j.frontier).1 in
            let rest : fill_rounds left clock (started l f j) ≡ some j' =
              rw (e, fill_rounds) at h in
            fill_rounds-IsInOrder left clock (started l f j) j'
              (omega (
                arith,
                room,
                active-append j.live j.claim_order (record { lease = l; fetch = none }),
              ))
              (record {
                sound = sound;
                limited = ap global_fetch_limit config ∙ v.limited;
                counted = omega (arith, v.counted, counted);
                within = omega (arith, counted, below, v.limited);
                running = omega (
                  arith,
                  room,
                  active-append j.live j.claim_order (record { lease = l; fetch = none }),
                );
                ordered = Consecutive-append (length j.results) j.claim_order j.live _ v.ordered;
                held =
                    AreHeld-append f j.live j.claim_order _ _
                      (AreHeld-Kept j.frontier f j.live kept v.held) resolves;
                apart =
                    AreApart-append j.live j.claim_order _ v.apart
                      (pending-AreElsewhere j.frontier l.url x j.live before pending v.held);
              })
              rest
      ]

after_return-returned :
    {A : Type 0} (r : Outcome A × Frontier) (a : A) → r.0 ≡ returned a → after_return r ≡ some r.1
after_return-returned (returned b, f) a h = refl
after_return-returned (raised e, f) a h = absurd (cc h)

pub after_return-some :
    {A : Type 0} (r : Outcome A × Frontier) (f : Frontier) → after_return r ≡ some f → r.1 ≡ f
after_return-some (returned b, g) f h = cc h
after_return-some (raised e, g) f h = absurd (cc h)

-- The reasons that the job reports are failures.
abbrev pub IsFailure : Option TerminalReason → Type 0
IsFailure none = Unit {0}
IsFailure (some reason) = is_succeeded reason ≡ false

pub reason_of-IsFailure :
    (l : FrontierLease) (fetch : Fetch)
    → let (r, reason) = outcome_of l fetch in IsFailure (reason_of r reason)
unfolding outcome_of
reason_of-IsFailure l (Fetch.denied robots message) = refl
reason_of-IsFailure l (Fetch.denied off_site message) = refl
reason_of-IsFailure l (Fetch.failed type_name) = refl
reason_of-IsFailure l (Fetch.fetched r) = by_error (has_error r)
  where
    by_error : (b : Bool) → IsFailure (if b then some permanent_failure else none)
    by_error true = refl
    by_error false = tt

-- The state after the report of a lease that is held.
pub record IsReported (l : FrontierLease) (f : Frontier) (o : Option Frontier) : Type 0 where
  pub after : Frontier
  pub answered : o ≡ some after
  pub sound : Sound after
  pub same_config : after.config ≡ f.config
  pub same_claimed : after.claimed ≡ f.claimed
  pub others :
      (m : FrontierLease) (e : Entry)
      → l.url ≢ m.url
      → resolve_lease m f ≡ some e
      → resolve_lease m after ≡ some e

Reports-IsReported :
    {A : Type 0} (l : FrontierLease) (f : Frontier) (r : Outcome A × Frontier)
    → Sound r.1
    → Reports l f r
    → IsReported l f (after_return r)
Reports-IsReported l f r v h = record {
  after = r.1;
  answered = after_return-returned r h.answers.0 h.answers.1;
  sound = v;
  same_config = h.same_config;
  same_claimed = h.same_claimed;
  others = h.others;
}

pub report-IsReported :
    (now : ℕ) (l : FrontierLease) (reason : Option TerminalReason) (e : Entry) (f : Frontier)
    → IsFailure reason
    → Sound f
    → resolve_lease l f ≡ some e
    → IsReported l f (report now l reason f)
report-IsReported now l none e f n v h =
    Reports-IsReported l f (succeed l f) (succeed-Evolves l f v).linked (succeed-Reports l e f h)
report-IsReported now l (some reason) e f n v h =
    Reports-IsReported l f (fail l (finite (pos now)) false absent none reason f)
      (fail-Evolves l (finite (pos now)) false absent none reason f v).linked
      (fail-Reports l e now reason f n h)

pub AreHeld-others :
    (l : FrontierLease) (f g : Frontier)
    → ((m : FrontierLease) (e : Entry)
        → l.url ≢ m.url
        → resolve_lease m f ≡ some e
        → resolve_lease m g ≡ some e)
    → (live : List (ℕ × LiveTask)) → AreElsewhere l.url live
    → AreHeld f live
    → AreHeld g live
AreHeld-others l f g others [] d h = tt
AreHeld-others l f g others ((k, t) ∷ live) d ((e, q), rest) =
    ((e, others t.lease e d.0 q), AreHeld-others l f g others live d.1 rest)

module _ (p : Platform) (s : Settings) where
  pub admit_links-Spares :
      (now : ℕ) (l : FrontierLease) (links : List Text) (f f' : Frontier)
      → Sound f
      → admit_links p s now l links f ≡ some f'
      → Sound f' × Spares f f'
  unfolding admit_links
  admit_links-Spares now l [] f f' v h =
      let e : f ≡ f' = cc h in (subst Sound e v, subst (Spares f) e (Spares-refl f))
  admit_links-Spares now l (link ∷ links) f f' v h =
      let r = admit p link (pos (l.depth + 1)) s.priority (some l.url) (finite (pos now)) f in
      elim (Option-cases (after_return r)) [
        | inl stuck ↦ absurd (cc (rw (stuck, admit_links) at h))
        | inr (g, q) ↦
            let e = after_return-some r g q in
            let sound =
              subst Sound e
                (admit-Evolves p link (pos (l.depth + 1)) s.priority (some l.url) (finite (pos now))
                  f v).linked in
            let spares = subst (Spares f) e (
              admit-Spares p link (pos (l.depth + 1)) s.priority (some l.url) (finite (pos now))
                f) in
            let (sound', spares') =
              admit_links-Spares now l links g f' sound (rw (q, admit_links) at h) in
            (sound', Spares-trans f g f' spares spares')
      ]

  pub admit_links-Evolves :
      (now : ℕ) (l : FrontierLease) (links : List Text) (f f' : Frontier)
      → Sound f
      → admit_links p s now l links f ≡ some f'
      → Evolves f f'
  unfolding admit_links
  admit_links-Evolves now l [] f f' v h =
      let e : f ≡ f' = cc h in subst (Evolves f) e (Evolves-refl f v)
  admit_links-Evolves now l (link ∷ links) f f' v h =
      let r = admit p link (pos (l.depth + 1)) s.priority (some l.url) (finite (pos now)) f in
      elim (Option-cases (after_return r)) [
        | inl stuck ↦ absurd (cc (rw (stuck, admit_links) at h))
        | inr (g, q) ↦
            let first = subst (Evolves f) (after_return-some r g q) (
              admit-Evolves p link (pos (l.depth + 1)) s.priority (some l.url) (finite (pos now)) f
                v) in
            Evolves-trans f g f' first
              (admit_links-Evolves now l links g f' first.linked (rw (q, admit_links) at h))
      ]

  pub admit_discovered_links-Spares :
      (later : ℕ) (l : FrontierLease) (r : CrawlResult) (reason : Option TerminalReason)
      (f f' : Frontier)
      → Sound f
      → admit_discovered_links p s later l r reason f ≡ some f'
      → Sound f' × Spares f f'
  admit_discovered_links-Spares later l r none f f' v h = admit_links-Spares later l _ f f' v h
  admit_discovered_links-Spares later l r (some reason) f f' v h =
      let e : f ≡ f' = cc h in (subst Sound e v, subst (Spares f) e (Spares-refl f))
