-- ===== src/Crawl/Job/State.antt =====
-- app/services/crawler.py: the state of `_RecursiveCrawlJob`, and the claims that it makes.
use clusy_crawler.Base.{
  ℕ, zero, suc, ◌+◌, ◌-◌, Bool, true, false, Option, none, some, List, [], ◌∷◌, ◌++◌, Text, length,
  ltb, min, max, if◌then◌else◌, ℤ, pos, finite,
}
use clusy_crawler.Url.Split.{Platform}
use clusy_crawler.Frontier.Types.{
  Frontier, FrontierLease, Outcome, returned, raised, ConfigArguments, post_init,
}
use clusy_crawler.Frontier.Seeds.{init}
use clusy_crawler.Frontier.Claim.{claim}

-- The fields of `CrawlResult` that the job reads or writes, and its text.
pub record CrawlResult : Type 0 where
  pub url : Text
  pub markdown : Text
  pub html : Option Text
  pub links : Option (List Text)
  pub error : Option Text

abbrev pub error_result : Text → Text → CrawlResult
error_result url error = record {
  url = url;
  markdown = [];
  html = none;
  links = none;
  error = some error;
}

pub data DocumentPolicyBlockReason : Type 0 where
  robots off_site : DocumentPolicyBlockReason

-- How the fetch of a page ends: with a result, denied by the policy with its text, or with another exception, by its type.
pub data Fetch : Type 0 where
  fetched : CrawlResult → Fetch
  denied : DocumentPolicyBlockReason → Text → Fetch
  failed : Text → Fetch

-- A task of `_live`: its fetch is there once it is done.
pub record LiveTask : Type 0 where
  pub lease : FrontierLease
  pub fetch : Option Fetch

pub data Phase : Type 0 where
  filling retiring refilling : Phase
  waiting : List ℕ → Phase
  finished drained : Phase

pub record Job : Type 0 where
  pub frontier : Frontier
  pub live : List (ℕ × LiveTask)
  pub claim_order : ℕ
  pub results : List CrawlResult
  pub phase : Phase

pub record Settings : Type 0 where
  pub priority : ℤ
  pub formats : List Text
  pub concurrency : ℕ

-- `max(1, min(max_pages, settings.max_concurrent_tasks))`
abbrev pub concurrency_of : ℕ → ℕ → ℕ
concurrency_of max_pages max_concurrent_tasks = max 1 (min max_pages max_concurrent_tasks)

abbrev pub new_job : Frontier → Job
new_job f = record { frontier = f; live = []; claim_order = 0; results = []; phase = filling }

-- The `FrontierConfig` of a crawl, with the defaults of the other fields.
abbrev pub crawl_arguments : ℕ → ℕ → Bool → ConfigArguments
crawl_arguments max_depth max_pages allow_subdomains = record {
  max_depth = pos max_depth;
  max_urls = pos max_pages;
  max_urls_per_host = pos max_pages;
  max_fetch_attempts = some (pos max_pages);
  max_fetch_attempts_per_host = some (pos max_pages);
  max_attempts_per_url = pos 1;
  allow_subdomains = allow_subdomains;
  host_delay_s = finite (pos 0);
  retry_backoff_base_s = finite (pos 1000000);
  max_retry_delay_s = finite (pos 120000000);
  max_url_length = pos 8192;
  max_path_segments = pos 96;
  max_repeated_path_segment = pos 3;
  max_query_parameters = pos 24;
  max_repeated_query_key = pos 6;
  max_query_variants_per_path = pos 32;
  max_facet_parameters = pos 8;
  max_calendar_variants_per_pattern = pos 24;
  min_calendar_year = 1990;
  max_calendar_year = 2100;
}

abbrev pub job_of : Outcome Frontier → Option Job
job_of (returned f) = some (new_job f)
job_of (raised e) = none

-- `__init__`, after the test of `_crawl_urls_recursive`; `none` is an exception, which rejects the seeds.
unfoldable pub start_job : Platform → List Text → ℕ → ℕ → Bool → ℤ → Option Job
unfolding post_init init
start_job p urls max_depth max_pages allow_subdomains priority =
    if ltb max_pages (length urls)
    then none
    else elim (post_init (crawl_arguments max_depth max_pages allow_subdomains)) [
      | none ↦ none
      | some c ↦ job_of (init p urls c priority)
    ]

abbrev pub is_running : LiveTask → Bool
is_running t = elim t.fetch [ none ↦ true | some _ ↦ false ]

-- `sum(not item.task.done() for item in self._live.values())`
abbrev pub active : List (ℕ × LiveTask) → ℕ
active [] = 0
active ((order, t) ∷ live) = (if is_running t then 1 else 0) + active live

-- `_fill_capacity` after a claim: the job with its new task.
abbrev pub started : FrontierLease → Frontier → Job → Job
started lease f j = record j {
  frontier = f;
  live = j.live ++ (j.claim_order, record { lease = lease; fetch = none }) ∷ [];
  claim_order = j.claim_order + 1;
}

-- The loop of `_fill_capacity`, with the rounds that are left and the clock by the order; `none` is an exception.
unfoldable pub fill_rounds : ℕ → (ℕ → ℕ) → Job → Option Job
fill_rounds zero clock j = some j
fill_rounds (suc left) clock j =
    let (answer, f) = claim (finite (pos (clock j.claim_order))) j.frontier in
    elim answer [
      | raised e ↦ none
      | returned leased ↦ elim leased [
        | none ↦ some (record j { frontier = f })
        | some lease ↦ fill_rounds left clock (started lease f j)
      ]
    ]

unfoldable pub fill_capacity : ℕ → (ℕ → ℕ) → Job → Option Job
unfolding fill_rounds
fill_capacity concurrency clock j = fill_rounds (concurrency - active j.live) clock j
