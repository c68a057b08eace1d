-- ===== src/Crawl/Job/Steps.antt =====
-- app/services/crawler.py: `run` of `_RecursiveCrawlJob`, its tasks ending in whatever order.
use clusy_crawler.Base.{
  ℕ, suc, ◌*◌, ◌++◌, Text, length, ◌≡◌, Bool, true, false, Option, none, some, List, [], ◌∷◌, ◌==◌,
  min, if◌then◌else◌, pos, finite,
}
use clusy_crawler.Url.Split.{Platform}
use clusy_crawler.Frontier.Types.{Frontier, cancelled}
use clusy_crawler.Frontier.Report.{succeed, fail, cancel_pending, absent}
use clusy_crawler.Crawl.Job.State.{
  CrawlResult, Fetch, fetched, LiveTask, Job, Settings, is_running, fill_capacity, filling,
  retiring, refilling, waiting, finished, drained,
}
use clusy_crawler.Crawl.Job.Retire.{
  retire_completed, reason_of, after_return, admit_links, links_of,
}

-- `min(self._live)`, of a table whose first key is there.
abbrev pub min_order : ℕ → List (ℕ × LiveTask) → ℕ
min_order order [] = order
min_order order ((k, t) ∷ live) = min_order (min order k) live

abbrev pub live_at : ℕ → List (ℕ × LiveTask) → Option LiveTask
live_at order [] = none
live_at order ((k, t) ∷ live) = if k == order then some t else live_at order live

abbrev pub with_order : ℕ → Option LiveTask → Option (ℕ × LiveTask)
with_order order none = none
with_order order (some t) = some (order, t)

-- The claim that is to be retired next.
abbrev pub oldest : List (ℕ × LiveTask) → Option (ℕ × LiveTask)
oldest [] = none
oldest ((k, t) ∷ live) =
    let order = min_order k live in with_order order (live_at order ((k, t) ∷ live))

-- A task is done.
abbrev pub finish : ℕ → Fetch → List (ℕ × LiveTask) → List (ℕ × LiveTask)
finish order fetch [] = []
finish order fetch ((k, t) ∷ live) =
    (k, if k == order then record t { fetch = some fetch } else t) ∷ finish order fetch live

-- The tasks that a wait is for, and whether it is over: there are none, or one of them is done.
abbrev pub running_orders : List (ℕ × LiveTask) → List ℕ
running_orders [] = []
running_orders ((k, t) ∷ live) =
    if is_running t then k ∷ running_orders live else running_orders live

abbrev pub any_done : List ℕ → List (ℕ × LiveTask) → Bool
any_done [] live = false
any_done (order ∷ orders) live = elim (live_at order live) [
  | none ↦ any_done orders live
  | some t ↦ if is_running t then any_done orders live else true
]

abbrev pub is_awake : List ℕ → List (ℕ × LiveTask) → Bool
is_awake [] live = true
is_awake (order ∷ orders) live = any_done (order ∷ orders) live

-- `_cancel_and_drain`: a lease that is stale is passed over.
unfoldable pub cancel_leases : ℕ → List (ℕ × LiveTask) → Frontier → Frontier
cancel_leases now [] f = f
cancel_leases now ((k, t) ∷ live) f =
    cancel_leases now live (fail t.lease (finite (pos now)) false absent none cancelled f).1

unfoldable pub cancel_and_drain : ℕ → Job → Job
unfolding cancel_leases
cancel_and_drain now j = record j {
  frontier = (cancel_pending (cancel_leases now j.live j.frontier)).1;
  live = [];
  phase = drained;
}

abbrev pub is_empty : List (ℕ × LiveTask) → Bool
is_empty [] = true
is_empty (t ∷ live) = false

-- Where a cancellation strikes, and the frontier then: at an await of `run`, or at an await in the loop of
-- `_admit_discovered_links`, of which there is one after each 128 links. The lease has succeeded then, and its
-- task is still live. Other tasks that end meanwhile are cancelled all the same.
pub data Interrupted (p : Platform) (s : Settings) (j : Job) : Frontier → Type 0 where
  between : Interrupted p s j j.frontier
  admitting :
      (later order rounds : ℕ) (t : LiveTask) (r : CrawlResult) (before after : List Text)
      (f f' : Frontier)
      → j.phase ≡ retiring
      → oldest j.live ≡ some (order, t)
      → t.fetch ≡ some (fetched r)
      → reason_of r none ≡ none
      → after_return (succeed t.lease j.frontier) ≡ some f
      → links_of p s r ≡ before ++ after
      → length before ≡ suc rounds * 128
      → admit_links p s later t.lease before f ≡ some f'
      → Interrupted p s j f'

-- One step of `run` between two awaits, or the end of a task. A retirement that no cancellation interrupts is
-- one step.
pub data Step (p : Platform) (s : Settings) (j : Job) : Job → Type 0 where
  ends :
      (order : ℕ) (t : LiveTask) (fetch : Fetch)
      → live_at order j.live ≡ some t
      → is_running t ≡ true
      → Step p s j (record j { live = finish order fetch j.live })
  fills :
      (clock : ℕ → ℕ) (j' : Job)
      → j.phase ≡ filling
      → fill_capacity s.concurrency clock j ≡ some j'
      → Step p s j (record j' { phase = if is_empty j'.live then finished else retiring })
  retires :
      (now later order : ℕ) (t : LiveTask) (fetch : Fetch) (j' : Job)
      → j.phase ≡ retiring
      → oldest j.live ≡ some (order, t)
      → t.fetch ≡ some fetch
      → retire_completed p s now later order t.lease fetch j ≡ some j'
      → Step p s j j'
  holds_back :
      j.phase ≡ retiring
      → ((order : ℕ) (t : LiveTask) → oldest j.live ≡ some (order, t) → is_running t ≡ true)
      → Step p s j (record j { phase = refilling })
  refills :
      (clock : ℕ → ℕ) (j' : Job)
      → j.phase ≡ refilling
      → fill_capacity s.concurrency clock j ≡ some j'
      → Step p s j (record j' {
        phase = if is_empty j'.live then filling else waiting (running_orders j'.live);
      })
  wakes :
      (orders : List ℕ)
      → j.phase ≡ waiting orders
      → is_awake orders j.live ≡ true
      → Step p s j (record j { phase = filling })
  cancels :
      (now : ℕ) (f : Frontier)
      → Interrupted p s j f
      → Step p s j (cancel_and_drain now (record j { frontier = f }))

pub data Reachable (p : Platform) (s : Settings) (start : Job) : Job → Type 0 where
  here : Reachable p s start start
  next : {j j' : Job} → Reachable p s start j → Step p s j j' → Reachable p s start j'
