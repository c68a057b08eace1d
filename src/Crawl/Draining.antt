-- ===== src/Crawl/Draining.antt =====
-- app/services/crawler.py: what `_cancel_and_drain` leaves in the frontier.
use clusy_crawler.Base.{
  ℕ, ◌≡◌, refl, sym, ap, subst, ◌∙◌, inl, inr, false, none, some, List, [], ◌∷◌, Text, arith,
  finite, pos, Bool-cases, Option-cases, ◌≢◌, text_eq,
}
use clusy_crawler.Base.Dict.{get, get-put_self}
use clusy_crawler.Url.Split.{Platform}
use clusy_crawler.Frontier.Types.{
  text_key, Entry, Frontier, FrontierLease, TerminalReason, terminal, is_pending, cancelled,
  succeeded, global_fetch_limit,
}
use clusy_crawler.Frontier.Queue.{sweep, terminated, terminate, terminate_pending}
use clusy_crawler.Frontier.Report.{succeed, resolve_lease, fail, fail_entry, absent, cancel_pending}
use clusy_crawler.Frontier.Sound.{Sound}
use clusy_crawler.Frontier.History.{Evolves, Evolves-refl, Evolves-trans, terminate_pending-Evolves}
use clusy_crawler.Frontier.Calls.{fail-Evolves, succeed-Evolves}
use clusy_crawler.Frontier.Holding.{fail-Reports, succeed-Reports}
use clusy_crawler.Crawl.Job.{
  Job, Settings, LiveTask, Reachable, new_job, cancel_leases, cancel_and_drain, Interrupted,
  between, admitting,
}
use clusy_crawler.Crawl.Leases.{AreHeld, AreApart, AreHeld-Kept}
use clusy_crawler.Crawl.Moves.{
  AreHeld-others, IsInOrder, after_return-some, admit_links-Spares, admit_links-Evolves,
}
use clusy_crawler.Crawl.Safety.{Reachable-IsSafe, IsSafe, first_retired}

-- The page of each lease has a terminal state.
abbrev pub AreOver : Frontier → List (ℕ × LiveTask) → Type 0
AreOver f [] = Unit {0}
AreOver f ((k, t) ∷ live) =
    ((e : Entry) × (get t.lease.url f.entries ≡ some e) × (e.state ≡ terminal)) × AreOver f live

AreOver-later :
    (f g : Frontier) (live : List (ℕ × LiveTask)) → Evolves f g → AreOver f live → AreOver g live
AreOver-later f g [] m h = tt
AreOver-later f g ((k, t) ∷ live) m ((e, q, s), rest) =
    let (e', q', l) = m.entries t.lease.url e q in
    ((e', q', subst (λ x. x.state ≡ terminal) (sym (l.final s)) s), AreOver-later f g live m rest)

cancel_leases-Evolves :
    (now : ℕ) (live : List (ℕ × LiveTask)) (f : Frontier)
    → Sound f
    → Evolves f (cancel_leases now live f)
unfolding cancel_leases
cancel_leases-Evolves now [] f v = Evolves-refl f v
cancel_leases-Evolves now ((k, t) ∷ live) f v =
    let g = (fail t.lease (finite (pos now)) false absent none cancelled f).1 in
    let first = fail-Evolves t.lease (finite (pos now)) false absent none cancelled f v in
    Evolves-trans f g (cancel_leases now live g) first
      (cancel_leases-Evolves now live g first.linked)

fail-over :
    (now : ℕ) (l : FrontierLease) (e : Entry) (f : Frontier)
    → resolve_lease l f ≡ some e
    → get l.url (fail l (finite (pos now)) false absent none cancelled f).1.entries
      ≡ some (terminated cancelled e)
unfolding fail fail_entry terminate
fail-over now l e f h = rw (h, fail) (get-put_self l.url (terminated cancelled e) f.entries)

cancel_leases-AreOver :
    (now : ℕ) (live : List (ℕ × LiveTask)) (f : Frontier)
    → Sound f
    → AreHeld f live
    → AreApart live
    → AreOver (cancel_leases now live f) live
unfolding cancel_leases terminated
cancel_leases-AreOver now [] f v h a = tt
cancel_leases-AreOver now ((k, t) ∷ live) f v ((e, r), rest) a =
    let g = (fail t.lease (finite (pos now)) false absent none cancelled f).1 in
    let sound = (fail-Evolves t.lease (finite (pos now)) false absent none cancelled f v).linked in
    let held =
      AreHeld-others t.lease f g (fail-Reports t.lease e now cancelled f refl r).others live a.0
        rest in
    let later = cancel_leases-Evolves now live g sound in
    let (e', q', l) =
      later.entries t.lease.url (terminated cancelled e) (fail-over now t.lease e f r) in
    ((e', q', ap (λ x. x.state) (l.final refl)), cancel_leases-AreOver now live g sound held a.1)

-- A sweep over all hosts leaves no entry pending.
sweep-none :
    (reason : TerminalReason) (url : Text) (e : Entry) (m : List (Text × Entry))
    (counter : List TerminalReason)
    → get url (sweep none reason m counter).0 ≡ some e
    → is_pending e.state ≡ false
unfolding sweep get terminated
sweep-none reason url e [] counter h = absurd (cc h)
sweep-none reason url e ((k, x) ∷ m) counter h = elim (Bool-cases (text_eq k url)) [
  | inr other ↦ sweep-none reason url e m _ (rw other at h)
  | inl same ↦ elim (Bool-cases (is_pending x.state)) [
    | inl p ↦ let q : terminated reason x ≡ e = ground arith in ap (λ y. is_pending y.state) (sym q)
    | inr n ↦ let q : x ≡ e = ground arith in ap (λ y. is_pending y.state) (sym q) ∙ n
  ]
]

-- A report of any lease, stale or not, leaves the leases of other pages.
fail-others :
    (now : ℕ) (l : FrontierLease) (f : Frontier) (m : FrontierLease) (e : Entry)
    → l.url ≢ m.url
    → resolve_lease m f ≡ some e
    → resolve_lease m (fail l (finite (pos now)) false absent none cancelled f).1 ≡ some e
unfolding fail
fail-others now l f m e d h = elim (Option-cases (resolve_lease l f)) [
  | inl stale ↦ rw (stale, fail) h
  | inr (x, q) ↦ (fail-Reports l x now cancelled f refl q).others m e d h
]

-- The leases behind one whose page is over already.
cancel_over-AreOver :
    (now k : ℕ) (t : LiveTask) (live : List (ℕ × LiveTask)) (f : Frontier)
    → Sound f
    → AreOver f ((k, t) ∷ [])
    → AreHeld f live
    → AreApart ((k, t) ∷ live)
    → AreOver (cancel_leases now ((k, t) ∷ live) f) ((k, t) ∷ live)
unfolding cancel_leases
cancel_over-AreOver now k t live f v over held apart =
    let g = (fail t.lease (finite (pos now)) false absent none cancelled f).1 in
    let first = fail-Evolves t.lease (finite (pos now)) false absent none cancelled f v in
    let whole =
      Evolves-trans f g (cancel_leases now live g) first
        (cancel_leases-Evolves now live g first.linked) in
    let left = AreHeld-others t.lease f g (fail-others now t.lease f) live apart.0 held in
    (
      (AreOver-later f (cancel_leases now live g) ((k, t) ∷ []) whole over).0,
      cancel_leases-AreOver now live g first.linked left apart.1,
    )

succeed-over :
    (k : ℕ) (t : LiveTask) (e : Entry) (f : Frontier)
    → resolve_lease t.lease f ≡ some e
    → AreOver (succeed t.lease f).1 ((k, t) ∷ [])
unfolding succeed terminate terminated
succeed-over k t e f h = (
  (
    terminated succeeded e,
    rw (h, succeed) (get-put_self t.lease.url (terminated succeeded e) f.entries),
    refl,
  ),
  tt,
)

module _ (p : Platform) (s : Settings) (j : Job) (limit : ℕ)
    (v : IsInOrder limit s.concurrency j) where
  Interrupted-AreOver :
      (now : ℕ) (f : Frontier)
      → Interrupted p s j f
      → Sound f × AreOver (cancel_leases now j.live f) j.live
  Interrupted-AreOver now f between =
      (v.sound, cancel_leases-AreOver now j.live j.frontier v.sound v.held v.apart)
  Interrupted-AreOver now f
        (admitting later order rounds t r before after g f' ph old q n ok e c a) =
      let (live, place, number) = first_retired p s limit order t j v.ordered old in
      let held = subst (AreHeld j.frontier) place v.held in
      let apart = subst AreApart place v.apart in
      let (x, resolves) = held.0 in
      let reported = succeed-Reports t.lease x j.frontier resolves in
      let same = after_return-some (succeed t.lease j.frontier) g ok in
      let sound = subst Sound same (succeed-Evolves t.lease j.frontier v.sound).linked in
      let (later_sound, spares) = admit_links-Spares p s later t.lease before g f' sound a in
      let over =
        AreOver-later g f' ((order, t) ∷ [])
          (admit_links-Evolves p s later t.lease before g f' sound a)
          (subst (λ h. AreOver h ((order, t) ∷ [])) same
            (succeed-over order t x j.frontier resolves)) in
      let left = AreHeld-Kept g f' live spares.kept (
        subst (λ h. AreHeld h live) same
          (AreHeld-others t.lease j.frontier (succeed t.lease j.frontier).1 reported.others live
            apart.0 held.1)) in
      (
        later_sound,
        subst (λ l. AreOver (cancel_leases now l f') l) (sym place)
            (cancel_over-AreOver now order t live f' later_sound over left apart),
      )

module _ (p : Platform) (s : Settings) (f : Frontier) (j : Job) (v : Sound f) (c : f.claimed ≡ 0)
    (r : Reachable p s (new_job f) j) where
  -- When a crawl over a frontier that had leased nothing before is cancelled, at an await between two steps or at
  -- one among the admissions of a page's links, the page of every task that was live has a terminal state in the
  -- frontier, and no entry is left waiting.
  pub cancel_and_drain-AreOver :
      (now : ℕ) (g : Frontier)
      → Interrupted p s j g
      → AreOver (cancel_and_drain now (record j { frontier = g })).frontier j.live
        × ((url : Text) (e : Entry)
            → get url (cancel_and_drain now (record j { frontier = g })).frontier.entries ≡ some e
            → is_pending e.state ≡ false)
  unfolding cancel_and_drain cancel_pending terminate_pending
  cancel_and_drain-AreOver now g i =
      let left = cancel_leases now j.live g in
      (
        over (Reachable-IsSafe p s (global_fetch_limit f.config) f j v c refl r),
        λ url e q. sweep-none cancelled url e left.entries left.terminal_reasons q,
      )
    where
      over :
          IsSafe p s (global_fetch_limit f.config) j
          → AreOver (cancel_and_drain now (record j { frontier = g })).frontier j.live
      over (inl safe) =
          let left = cancel_leases now j.live g in
          let (sound, ended) =
            Interrupted-AreOver p s j (global_fetch_limit f.config) safe now g i in
          AreOver-later left (cancel_pending left).1 j.live
            (terminate_pending-Evolves none cancelled left
              (cancel_leases-Evolves now j.live g sound).linked)
            ended
      over (inr ended) =
          subst (AreOver (cancel_and_drain now (record j { frontier = g })).frontier)
            (sym ended.empty) tt
