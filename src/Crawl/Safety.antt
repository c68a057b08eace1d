-- ===== src/Crawl/Safety.antt =====
-- app/services/crawler.py: what holds of a recursive crawl whenever its tasks end.
use clusy_crawler.Base.{
  ℕ, suc, ◌-◌, ◌≤◌, ◌≡◌, refl, sym, ap, subst, ◌∙◌, inl, inr, ◌⊎◌, Option, some, List, [], ◌∷◌,
  ◌++◌, arith, length, length-append, Option-cases,
}
use clusy_crawler.Url.Split.{Platform}
use clusy_crawler.Frontier.Types.{Frontier, TerminalReason, global_fetch_limit}
use clusy_crawler.Frontier.Sound.{Sound}
use clusy_crawler.Crawl.Job.{
  Job, Phase, LiveTask, Fetch, CrawlResult, Settings, active, fill_capacity, outcome_of, reason_of,
  report, admit_discovered_links, retire_completed, pop, oldest, live_at, drained, Step, ends,
  fills, retires, holds_back, refills, wakes, cancels, Reachable, here, next, new_job,
  cancel_and_drain, project_formats,
}
use clusy_crawler.Crawl.Leases.{
  Consecutive, AreHeld, AreApart, oldest-first, finish-Consecutive, finish-AreHeld, finish-AreApart,
  finish-active,
}
use clusy_crawler.Crawl.Moves.{
  IsInOrder, fill_rounds-IsInOrder, spared, IsReported, report-IsReported, reason_of-IsFailure,
  AreHeld-others, admit_discovered_links-Spares,
}

some_pair :
    (k order : ℕ) (x t : LiveTask)
    → ◌≡◌ {A = Option (ℕ × LiveTask)} (some (k, x)) (some (order, t))
    → (k ≡ order) × (x ≡ t)
some_pair k order x t e = (cc e, cc e)

module _ (p : Platform) (s : Settings) (limit : ℕ) where
  fill_capacity-IsInOrder :
      (clock : ℕ → ℕ) (j j' : Job)
      → IsInOrder limit s.concurrency j
      → fill_capacity s.concurrency clock j ≡ some j'
      → IsInOrder limit s.concurrency j'
  unfolding fill_capacity
  fill_capacity-IsInOrder clock j j' v h =
      (fill_rounds-IsInOrder limit s.concurrency (s.concurrency - active j.live) clock j j'
        (omega (arith, v.running)) v h).0

  -- The task that is retired is the first one, and its place among the results is its order.
  pub first_retired :
      (order : ℕ) (t : LiveTask) (j : Job)
      → Consecutive (length j.results) j.live j.claim_order
      → oldest j.live ≡ some (order, t)
      → (live : List (ℕ × LiveTask)) × (j.live ≡ (order, t) ∷ live) × (order ≡ length j.results)
  first_retired order t j c h = by_cases j.live c h
    where
      by_cases :
          (live : List (ℕ × LiveTask))
          → Consecutive (length j.results) live j.claim_order
          → oldest live ≡ some (order, t)
          → (rest : List (ℕ × LiveTask)) × (live ≡ (order, t) ∷ rest) × (order ≡ length j.results)
      by_cases [] c h = absurd (cc h)
      by_cases ((k, x) ∷ live) c h =
          let e : ◌≡◌ {A = Option (ℕ × LiveTask)} (some (k, x)) (some (order, t)) =
            sym (oldest-first (length j.results) j.claim_order k x live c) ∙ h in
          let same_order : k ≡ order = (some_pair k order x t e).0 in
          let same_task : x ≡ t = (some_pair k order x t e).1 in
          let same : ◌≡◌ {A = List (ℕ × LiveTask)} ((k, x) ∷ live) ((order, t) ∷ live) =
            cc (same_order, same_task) in
          (live, same, sym same_order ∙ c.0)

  retired-IsInOrder :
      (order : ℕ) (t : LiveTask) (live : List (ℕ × LiveTask)) (r : CrawlResult)
      (reason : Option TerminalReason) (later : ℕ) (o : Option Frontier) (j : Job) (f : Frontier)
      → IsInOrder limit s.concurrency j
      → j.live ≡ (order, t) ∷ live
      → IsReported t.lease j.frontier o
      → (g : Frontier) → o ≡ some g
      → admit_discovered_links p s later t.lease r reason g ≡ some f
      → IsInOrder limit s.concurrency (record j {
        frontier = f;
        live = pop p s order j.live;
        results = j.results ++ project_formats p s r ∷ [];
      })
  unfolding pop
  retired-IsInOrder order t live r reason later o j f v e reported g og h =
      let results = j.results ++ project_formats p s r ∷ [] in
      let same : reported.after ≡ g = cc (og, reported.answered) in
      let (sound, spares) =
        admit_discovered_links-Spares p s later t.lease r reason g f
          (subst Sound same reported.sound) h in
      let first = subst (λ l. Consecutive (length j.results) l j.claim_order) e v.ordered in
      let held = subst (AreHeld j.frontier) e v.held in
      let apart = subst AreApart e v.apart in
      let one_more : length results ≡ suc (length j.results) =
        omega (arith, length-append j.results (project_formats p s r ∷ [])) in
      let popped : pop p s order j.live ≡ live = ap (pop p s order) e ∙ first_popped order t live in
      let reported_job : IsInOrder limit s.concurrency
          (record j { frontier = g; live = live; results = results }) =
        record {
          sound = subst Sound same reported.sound;
          limited =
              ap global_fetch_limit (sym (ap (λ x. x.config) same) ∙ reported.same_config)
              ∙ v.limited;
          counted = v.counted ∙ sym (sym (ap (λ x. x.claimed) same) ∙ reported.same_claimed);
          within = omega (arith, v.within, reported.same_claimed, ap (λ x. x.claimed) same);
          running = omega (arith, v.running, ap active e);
          ordered = subst (λ n. Consecutive n live j.claim_order) (sym one_more) first.1;
          held =
              subst (λ x. AreHeld x live) same
                (AreHeld-others t.lease j.frontier reported.after reported.others live apart.0
                  held.1);
          apart = apart.1;
        } in
      subst
        (λ l.
          IsInOrder limit s.concurrency (record j { frontier = f; live = l; results = results }))
        (sym popped)
        (spared limit s.concurrency (record j { frontier = g; live = live; results = results }) f
          reported_job sound spares)
    where
      first_popped :
          (order : ℕ) (t : LiveTask) (live : List (ℕ × LiveTask))
          → pop p s order ((order, t) ∷ live) ≡ live
      first_popped order t live = ground arith

  -- A crawl that was cancelled.
  pub record IsDrained (j : Job) : Type 0 where
    pub over : j.phase ≡ drained
    pub empty : j.live ≡ []
    pub bounded : j.claim_order ≤ limit

  abbrev pub IsSafe : Job → Type 0
  IsSafe j = IsInOrder limit s.concurrency j ⊎ IsDrained j

  rephased :
      (j : Job) (phase : Phase)
      → IsInOrder limit s.concurrency j
      → IsInOrder limit s.concurrency (record j { phase = phase })
  rephased j phase v = record {
    sound = v.sound;
    limited = v.limited;
    counted = v.counted;
    within = v.within;
    running = v.running;
    ordered = v.ordered;
    held = v.held;
    apart = v.apart;
  }

  retire_completed-IsInOrder :
      (now later order : ℕ) (t : LiveTask) (fetch : Fetch) (j j' : Job)
      → IsInOrder limit s.concurrency j
      → oldest j.live ≡ some (order, t)
      → retire_completed p s now later order t.lease fetch j ≡ some j'
      → IsInOrder limit s.concurrency j'
  unfolding retire_completed
  retire_completed-IsInOrder now later order t fetch j j' v old h =
      let (live, e, place) = first_retired order t j v.ordered old in
      let (x, resolves) = (subst (AreHeld j.frontier) e v.held).0 in
      let (r, terminal_reason) = outcome_of t.lease fetch in
      let reason = reason_of r terminal_reason in
      let reported =
        report-IsReported now t.lease reason x j.frontier (reason_of-IsFailure t.lease fetch)
          v.sound resolves in
      let g = reported.after in
      elim (Option-cases (admit_discovered_links p s later t.lease r reason g)) [
        | inl stuck ↦ absurd (cc (rw (reported.answered, stuck, retire_completed) at h))
        | inr (f, q) ↦
            let end : some (record j {
              frontier = f;
              live = pop p s order j.live;
              results = j.results ++ project_formats p s r ∷ [];
            })
                ≡ some j' =
              rw (reported.answered, q, retire_completed) at h in
            let same : record j {
              frontier = f;
              live = pop p s order j.live;
              results = j.results ++ project_formats p s r ∷ [];
            }
                ≡ j' =
              cc end in
            subst (IsInOrder limit s.concurrency) same (
              retired-IsInOrder order t live r reason later (report now t.lease reason j.frontier) j
                f v e reported g reported.answered q)
      ]

  cancelled_job : (now : ℕ) (j : Job) → j.claim_order ≤ limit → IsDrained (cancel_and_drain now j)
  unfolding cancel_and_drain
  cancelled_job now j h = record { over = refl; empty = refl; bounded = h }

  Step-IsDrained : (j j' : Job) → IsDrained j → Step p s j j' → IsDrained j'
  Step-IsDrained j j' d (ends order t fetch at run) =
      absurd (cc (subst (λ l. live_at order l ≡ some t) d.empty at))
  Step-IsDrained j j' d (fills clock j'' ph q) = absurd (cc (sym d.over ∙ ph))
  Step-IsDrained j j' d (retires now later order t fetch j'' ph old q r) =
      absurd (cc (sym d.over ∙ ph))
  Step-IsDrained j j' d (holds_back ph q) = absurd (cc (sym d.over ∙ ph))
  Step-IsDrained j j' d (refills clock j'' ph q) = absurd (cc (sym d.over ∙ ph))
  Step-IsDrained j j' d (wakes orders ph q) = absurd (cc (sym d.over ∙ ph))
  Step-IsDrained j j' d (cancels now f i) = cancelled_job now (record j { frontier = f }) d.bounded

  Step-IsSafe : (j j' : Job) → IsInOrder limit s.concurrency j → Step p s j j' → IsSafe j'
  Step-IsSafe j j' v (ends order t fetch at run) = inl (record {
    sound = v.sound;
    limited = v.limited;
    counted = v.counted;
    within = v.within;
    running = omega (arith, v.running, finish-active order fetch j.live);
    ordered = finish-Consecutive order fetch (length j.results) j.claim_order j.live v.ordered;
    held = finish-AreHeld order fetch j.frontier j.live v.held;
    apart = finish-AreApart order fetch j.live v.apart;
  })
  Step-IsSafe j j' v (fills clock j'' ph q) =
      inl (rephased j'' _ (fill_capacity-IsInOrder clock j j'' v q))
  Step-IsSafe j j' v (retires now later order t fetch j'' ph old q r) =
      inl (retire_completed-IsInOrder now later order t fetch j j'' v old r)
  Step-IsSafe j j' v (holds_back ph q) = inl (rephased j _ v)
  Step-IsSafe j j' v (refills clock j'' ph q) =
      inl (rephased j'' _ (fill_capacity-IsInOrder clock j j'' v q))
  Step-IsSafe j j' v (wakes orders ph q) = inl (rephased j _ v)
  Step-IsSafe j j' v (cancels now f i) =
      inr (cancelled_job now (record j { frontier = f }) (omega (arith, v.counted, v.within)))

  pub Reachable-IsSafe :
      (f : Frontier) (j : Job)
      → Sound f
      → f.claimed ≡ 0
      → global_fetch_limit f.config ≡ limit
      → Reachable p s (new_job f) j
      → IsSafe j
  Reachable-IsSafe f j v c l here = inl (record {
    sound = v;
    limited = l;
    counted = sym c;
    within = omega (arith, c);
    running = omega arith;
    ordered = refl;
    held = tt;
    apart = tt;
  })
  Reachable-IsSafe f j v c l (next {j = i} r st) = elim (Reachable-IsSafe f i v c l r) [
    | inl safe ↦ Step-IsSafe i j safe st
    | inr over ↦ inr (Step-IsDrained i j over st)
  ]

module _ (p : Platform) (s : Settings) (f : Frontier) (j : Job) (v : Sound f) (c : f.claimed ≡ 0)
    (r : Reachable p s (new_job f) j) where
  -- Whenever the tasks end, a crawl over a frontier that has leased nothing yet starts at most as many page
  -- fetches as the frontier's limit, and has at most `concurrency` of them running at once.
  pub Reachable-bounded :
      (j.claim_order ≤ global_fetch_limit f.config) × (active j.live ≤ s.concurrency)
  Reachable-bounded = elim (Reachable-IsSafe p s (global_fetch_limit f.config) f j v c refl r) [
    | inl safe ↦ (omega (arith, safe.counted, safe.within), safe.running)
    | inr over ↦ (over.bounded, omega (arith, ap active over.empty))
  ]

  -- Whenever the tasks end, results are in the order of the claims: the task that is to be retired next is that
  -- of the claim whose number is the number of the results so far.
  pub Reachable-in_order :
      (order : ℕ) (t : LiveTask) → oldest j.live ≡ some (order, t) → order ≡ length j.results
  Reachable-in_order order t h =
      elim (Reachable-IsSafe p s (global_fetch_limit f.config) f j v c refl r) [
        | inl safe ↦ (first_retired p s (global_fetch_limit f.config) order t j safe.ordered h).2
        | inr over ↦ absurd (cc (subst (λ l. oldest l ≡ some (order, t)) over.empty h))
      ]

  -- The report of the task that is to be retired next raises no `StaleLeaseError` nor anything else, however its
  -- fetch ended and whatever was claimed, admitted and reported since its claim.
  pub Reachable-reports :
      (now order : ℕ) (t : LiveTask) (fetch : Fetch)
      → oldest j.live ≡ some (order, t)
      → let (result, reason) = outcome_of t.lease fetch in
        (f' : Frontier) × (report now t.lease (reason_of result reason) j.frontier ≡ some f')
  Reachable-reports now order t fetch h =
      elim (Reachable-IsSafe p s (global_fetch_limit f.config) f j v c refl r) [
        | inl safe ↦
            let (live, e, place) =
              first_retired p s (global_fetch_limit f.config) order t j safe.ordered h in
            let (x, resolves) = (subst (AreHeld j.frontier) e safe.held).0 in
            let (result, reason) = outcome_of t.lease fetch in
            let reported =
              report-IsReported now t.lease (reason_of result reason) x j.frontier
                (reason_of-IsFailure t.lease fetch) safe.sound resolves in
            (reported.after, reported.answered)
        | inr over ↦ absurd (cc (subst (λ l. oldest l ≡ some (order, t)) over.empty h))
      ]
