-- ===== src/Crawl/Job/Retire.antt =====
-- app/services/crawler.py: how a task of `_RecursiveCrawlJob` is retired.
use clusy_crawler.Base.{
  ℕ, ◌+◌, Bool, false, Option, none, some, List, [], ◌∷◌, ◌++◌, Text, codes, text_member, length,
  ◌==◌, ltb, if◌then◌else◌, pos, finite,
}
use clusy_crawler.Url.Split.{Platform}
use clusy_crawler.Frontier.Types.{
  Frontier, FrontierLease, TerminalReason, Outcome, returned, raised, robots_disallowed,
  content_rejected, permanent_failure,
}
use clusy_crawler.Frontier.Admit.{admit}
use clusy_crawler.Frontier.Report.{succeed, fail, absent}
use clusy_crawler.Crawl.Job.State.{
  CrawlResult, error_result, Fetch, LiveTask, Job, Settings, robots, off_site, fetched, denied,
  failed,
}

-- `_crawl_leased_url` and what `_retire_completed` makes of its exceptions: the result and the terminal reason.
unfoldable pub outcome_of : FrontierLease → Fetch → CrawlResult × Option TerminalReason
outcome_of lease (fetched result) = (result, none)
outcome_of lease (denied robots message) = (error_result lease.url message, some robots_disallowed)
outcome_of lease (denied off_site message) = (error_result lease.url message, some content_rejected)
outcome_of lease (failed type_name) = (
  error_result lease.url (codes "crawl failed (" ++ type_name ++ codes ")"),
  some permanent_failure,
)

-- `if result.error`
abbrev pub has_error : CrawlResult → Bool
has_error r = elim r.error [ none ↦ false | some message ↦ ltb 0 (length message) ]

-- The state after a call that returned; `none` is its exception.
abbrev pub after_return : {A : Type 0} → Outcome A × Frontier → Option Frontier
after_return (returned a, f) = some f
after_return (raised e, f) = none

abbrev pub reason_of : CrawlResult → Option TerminalReason → Option TerminalReason
reason_of r (some reason) = some reason
reason_of r none = if has_error r then some permanent_failure else none

-- The report of a lease: it has failed for a reason, or it has succeeded.
abbrev pub report : ℕ → FrontierLease → Option TerminalReason → Frontier → Option Frontier
report now lease (some reason) f =
    after_return (fail lease (finite (pos now)) false absent none reason f)
report now lease none f = after_return (succeed lease f)

module _ (p : Platform) (s : Settings) where
  -- The loop of `_admit_discovered_links`.
  unfoldable pub admit_links : ℕ → FrontierLease → List Text → Frontier → Option Frontier
  admit_links now lease [] f = some f
  admit_links now lease (link ∷ links) f =
      elim (after_return
        (admit p link (pos (lease.depth + 1)) s.priority (some lease.url) (finite (pos now)) f)) [
          | none ↦ none
          | some f' ↦ admit_links now lease links f'
        ]

  abbrev pub links_of : CrawlResult → List Text
  links_of r = elim r.links [ none ↦ [] | some links ↦ links ]

  -- The links are admitted where the lease has succeeded.
  abbrev pub admit_discovered_links :
      ℕ → FrontierLease → CrawlResult → Option TerminalReason → Frontier → Option Frontier
  admit_discovered_links later lease r none f = admit_links later lease (links_of r) f
  admit_discovered_links later lease r (some reason) f = some f

  abbrev pub project_formats : CrawlResult → CrawlResult
  project_formats r = record r {
    html = if text_member (codes "html") s.formats then r.html else none;
    links = if text_member (codes "links") s.formats then r.links else none;
  }

  -- `self._live.pop(order)`
  unfoldable pub pop : ℕ → List (ℕ × LiveTask) → List (ℕ × LiveTask)
  pop order [] = []
  pop order ((k, t) ∷ live) = if k == order then live else (k, t) ∷ pop order live

  -- `_retire_completed`, with the clock before the report and before the admissions.
  unfoldable pub retire_completed : ℕ → ℕ → ℕ → FrontierLease → Fetch → Job → Option Job
  unfolding outcome_of admit_links pop text_member
  retire_completed now later order lease fetch j =
      let (r, terminal_reason) = outcome_of lease fetch in
      elim (report now lease (reason_of r terminal_reason) j.frontier) [
        | none ↦ none
        | some f ↦ elim (admit_discovered_links later lease r (reason_of r terminal_reason) f) [
          | none ↦ none
          | some f' ↦ some (record j {
            frontier = f';
            live = pop order j.live;
            results = j.results ++ project_formats r ∷ [];
          })
        ]
      ]
