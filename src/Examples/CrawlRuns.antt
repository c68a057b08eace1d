-- ===== src/Examples/CrawlRuns.antt =====
-- app/services/crawler.py: a crawl of two pages, the second of which is fetched first.
use clusy_crawler.Base.{
  ◌≤◌, ◌≡◌, refl, Option, none, some, [], ◌∷◌, length, codes, pos, Text, false,
}
use clusy_crawler.Base.Dict.{get, put}
use clusy_crawler.Frontier.Types.{Frontier, FrontierLease, Entry, is_pending, text_key}
use clusy_crawler.Frontier.Claim.{claim}
use clusy_crawler.Examples.FrontierRuns.{sample, sample-Sound, ascii, config, first, second, lease}
use clusy_crawler.Crawl.Job.{
  Job, Settings, LiveTask, Fetch, failed, fetched, new_job, fill_capacity, oldest, active, finish,
  outcome_of, reason_of, report, retiring, Reachable, here, next, fills, ends, cancel_and_drain,
  between, start_job,
}
use clusy_crawler.Crawl.Start.{start_job-bounded}
use clusy_crawler.Crawl.Draining.{AreOver, cancel_and_drain-AreOver}
use clusy_crawler.Crawl.Safety.{Reachable-in_order, Reachable-reports}

abbrev settings : Settings
settings = record { priority = pos 0; formats = codes "markdown" ∷ []; concurrency = 2 }

-- Without a delay between the fetches of one host.
abbrev pages : Frontier
pages = record sample { config = record config { host_delay_s = 0 } }

abbrev or_job : Job → Option Job → Job
or_job j none = j
or_job j (some j') = j'

abbrev filled : Job
filled = or_job (new_job pages) (fill_capacity 2 (λ order. 5) (new_job pages))

fill_capacity-pages : fill_capacity 2 (λ order. 5) (new_job pages) ≡ some filled
unfolding fill_capacity claim get put
fill_capacity-pages = refl

abbrev begun : Job
begun = record filled { phase = retiring }

live-begun :
    begun.live
    ≡ (0, record { lease = lease first; fetch = none })
      ∷ (1, record { lease = lease second; fetch = none })
      ∷ []
unfolding fill_capacity claim get put
live-begun = refl

begun-Reachable : Reachable ascii settings (new_job pages) begun
unfolding fill_capacity claim get put
begun-Reachable = next here (fills (λ order. 5) filled refl fill_capacity-pages)

abbrev running : FrontierLease → LiveTask
running l = record { lease = l; fetch = none }

-- The second page arrives, then the first one turns out to have failed.
abbrev page_arrived : Fetch
page_arrived =
    fetched
      (record { url = second; markdown = []; html = none; links = some (first ∷ []); error = none })

abbrev both_done : Job
both_done = record begun {
  live = finish 0 (failed (codes "OSError")) (finish 1 page_arrived begun.live);
}

both_done-Reachable : Reachable ascii settings (new_job pages) both_done
unfolding fill_capacity claim get put
both_done-Reachable =
    next (next begun-Reachable (ends 1 (running (lease second)) page_arrived refl refl))
      (ends 0 (running (lease first)) (failed (codes "OSError")) refl refl)

abbrev first_done : LiveTask
first_done = record { lease = lease first; fetch = some (failed (codes "OSError")) }

oldest-both_done : oldest both_done.live ≡ some (0, first_done)
unfolding fill_capacity claim get put
oldest-both_done = refl

Reachable-in_order_example : 0 ≡ length both_done.results
Reachable-in_order_example =
    Reachable-in_order ascii settings pages both_done sample-Sound refl both_done-Reachable 0
      first_done oldest-both_done

Reachable-reports_example :
    let (result, reason) = outcome_of (lease first) (failed (codes "OSError")) in
    (f : Frontier) × (report 6 (lease first) (reason_of result reason) both_done.frontier ≡ some f)
Reachable-reports_example =
    Reachable-reports ascii settings pages both_done sample-Sound refl both_done-Reachable 6 0
      first_done (failed (codes "OSError")) oldest-both_done

cancel_and_drain-AreOver_example :
    AreOver (cancel_and_drain 6 both_done).frontier both_done.live
    × ((url : Text) (e : Entry)
        → get url (cancel_and_drain 6 both_done).frontier.entries ≡ some e
        → is_pending e.state ≡ false)
cancel_and_drain-AreOver_example =
    cancel_and_drain-AreOver ascii settings pages both_done sample-Sound refl both_done-Reachable 6
      both_done.frontier between

-- From its arguments: one seed, depth 2, five pages.
abbrev started_job : Job
started_job = or_job (new_job pages) (start_job ascii (first ∷ []) 2 5 false (pos 0))

start_job-seed : start_job ascii (first ∷ []) 2 5 false (pos 0) ≡ some started_job
unfolding start_job get
start_job-seed = refl

abbrev started_filled : Job
started_filled = or_job (new_job pages) (fill_capacity 2 (λ order. 5) started_job)

fill_capacity-seed : fill_capacity 2 (λ order. 5) started_job ≡ some started_filled
unfolding start_job fill_capacity claim get put
fill_capacity-seed = refl

started_filled-Reachable :
    Reachable ascii settings started_job (record started_filled { phase = retiring })
unfolding start_job fill_capacity claim get put
started_filled-Reachable = next here (fills (λ order. 5) started_filled refl fill_capacity-seed)

start_job-bounded_example : (started_filled.claim_order ≤ 5) × (active started_filled.live ≤ 2)
start_job-bounded_example =
    start_job-bounded ascii settings (first ∷ []) 2 5 false (pos 0) started_job
      (record started_filled { phase = retiring }) start_job-seed started_filled-Reachable
