-- ===== src/Frontier/Admit.antt =====
-- app/services/frontier.py: `admit`, `_admit_canonical` and `_reject`.
use clusy_crawler.Base.{
  ℕ, ◌+◌, Bool, true, false, ◌&&◌, ◌||◌, not, Option, none, some, [], ◌∷◌, Text, text_member, ltb,
  leb, if◌then◌else◌, min, ℤ, pos, negsuc, ltb_ℤ, Float, non_negative,
}
use clusy_crawler.Base.Dict.{get, put}
use clusy_crawler.Url.Split.{Platform, SplitResult, urlsplit}
use clusy_crawler.Url.Canonical.{
  canonicalize_url, host_from_canonical, same_site, Checked, accept, refuse, UrlError,
}
use clusy_crawler.Url.Canonical
use clusy_crawler.Frontier.Types.{
  text_key, pair_key, Entry, HostState, Frontier, queued, is_pending, AdmissionResult, Outcome,
  returned, raised, value_error, assertion_error, RejectionReason, duplicate, invalid_url,
  unsupported_scheme, userinfo_not_allowed, off_site, depth_budget, global_url_budget,
  host_url_budget,
}
use clusy_crawler.Frontier.Queue.{enqueue, or_new_host}
use clusy_crawler.Frontier.Trap.{trap_reason, calendar_signature, variants_of, Variants}

-- What a caller passes with a canonical URL.
pub record Discovery : Type 0 where
  pub url : Text
  pub depth : ℕ
  pub priority : ℤ
  pub parent_url : Option Text
  pub ready_at : ℕ

unfoldable pub reject :
    RejectionReason → Option Text → Frontier → Outcome AdmissionResult × Frontier
reject reason url f = (
  returned (record { accepted = false; url = url; reason = some reason; reprioritized = false }),
  record f { rejection_reasons = reason ∷ f.rejection_reasons },
)

-- `set.add`
unfoldable pub add_variant : Text × Text → Text → Variants → Variants
unfolding variants_of text_member
add_variant key value m =
    let variants = variants_of key m in
    if text_member value variants then m else put key (value ∷ variants) m

abbrev record_query : Text → Text → Text → Variants → Variants
record_query host path [] m = m
record_query host path (c ∷ query) m = add_variant (host, path) (c ∷ query) m

abbrev record_calendar : Text → Option Text → Text → Variants → Variants
record_calendar host none url m = m
record_calendar host (some signature) url m = add_variant (host, signature) url m

unfoldable pub is_better : Discovery → Entry → Bool
is_better d e = ltb d.depth e.depth || ltb_ℤ e.priority d.priority

-- The entry of a known URL with the better depth and the better priority.
unfoldable pub reprioritized_entry : Discovery → Entry → Entry
reprioritized_entry d e = record e {
  depth = if ltb d.depth e.depth then d.depth else e.depth;
  parent_url = if ltb d.depth e.depth then d.parent_url else e.parent_url;
  priority = if ltb_ℤ e.priority d.priority then d.priority else e.priority;
}

abbrev pub duplicate_result : Text → Bool → AdmissionResult
duplicate_result url reprioritized = record {
  accepted = false;
  url = some url;
  reason = some duplicate;
  reprioritized = reprioritized;
}

abbrev pub counted_duplicate : Frontier → Frontier
counted_duplicate f = record f {
  duplicates = f.duplicates + 1;
  rejection_reasons = duplicate ∷ f.rejection_reasons;
}

-- The branch of `_admit_canonical` for a URL that is known.
unfoldable pub admit_known : Discovery → Entry → Frontier → Outcome AdmissionResult × Frontier
unfolding enqueue is_better reprioritized_entry
admit_known d e f =
    if is_pending e.state && is_better d e
    then (
      returned (duplicate_result d.url true),
      enqueue d.url (reprioritized_entry d e) (min e.ready_at d.ready_at) (counted_duplicate f),
    )
    else (returned (duplicate_result d.url false), counted_duplicate f)

unfoldable pub new_entry : Discovery → Text → SplitResult → ℕ → Entry
new_entry d host split order = record {
  url = d.url;
  host = host;
  path = split.path;
  query = split.query;
  depth = d.depth;
  priority = d.priority;
  parent_url = d.parent_url;
  order = order;
  state = queued;
  attempts = 0;
  ready_at = 0;
  generation = 0;
  terminal_reason = none;
}

-- The end of `_admit_canonical`: the entry is made, counted and queued.
unfoldable pub insert_new :
    Platform
    → Discovery
    → Text
    → SplitResult
    → HostState
    → Frontier
    → Outcome AdmissionResult × Frontier
unfolding enqueue new_entry add_variant calendar_signature
insert_new p d host split s f =
    let e = new_entry d host split (f.order + 1) in
    (
      returned (record { accepted = true; url = some d.url; reason = none; reprioritized = false }),
      enqueue d.url e d.ready_at (record f {
        order = f.order + 1;
        entries = put d.url e f.entries;
        admitted = f.admitted + 1;
        hosts = put host (record s { admitted = s.admitted + 1 }) f.hosts;
        path_query_variants = record_query host split.path split.query f.path_query_variants;
        calendar_variants =
            record_calendar host (calendar_signature p split.path split.query) d.url
              f.calendar_variants;
      }),
    )

-- The two URL budgets; `setdefault` makes the host before the second.
unfoldable pub admit_within_budgets :
    Platform → Discovery → Text → SplitResult → Frontier → Outcome AdmissionResult × Frontier
unfolding reject insert_new
admit_within_budgets p d host split f =
    let s = or_new_host (get host f.hosts) in
    if leb f.config.max_urls f.admitted
    then reject global_url_budget (some d.url) f
    else if leb f.config.max_urls_per_host s.admitted
    then reject host_url_budget (some d.url) (record f { hosts = put host s f.hosts })
    else insert_new p d host split s f

abbrev pub after_traps :
    Platform
    → Discovery
    → Text
    → SplitResult
    → Option RejectionReason
    → Frontier
    → Outcome AdmissionResult × Frontier
after_traps p d host split none f = admit_within_budgets p d host split f
after_traps p d host split (some trap) f = reject trap (some d.url) f

abbrev pub after_split :
    Platform → Discovery → Text → Option SplitResult → Frontier → Outcome AdmissionResult × Frontier
after_split p d host none f = (raised value_error, f)
after_split p d host (some split) f =
    after_traps p d host split
      (trap_reason p f.config f.path_query_variants f.calendar_variants host split.path split.query
        d.url)
      f

-- The branch of `_admit_canonical` for a URL that is not known.
unfoldable pub admit_unknown :
    Platform → Discovery → Text → Frontier → Outcome AdmissionResult × Frontier
unfolding reject urlsplit trap_reason admit_within_budgets
admit_unknown p d host f =
    if ltb f.config.max_depth d.depth
    then reject depth_budget (some d.url) f
    else after_split p d host (urlsplit p d.url) f

abbrev pub admit_on_host :
    Platform → Discovery → Option Text → Frontier → Outcome AdmissionResult × Frontier
admit_on_host p d none f = (raised assertion_error, f)
admit_on_host p d (some host) f =
    if not (same_site p host f.roots f.config.allow_subdomains)
    then reject off_site (some d.url) f
    else elim (get d.url f.entries) [ some e ↦ admit_known d e f | none ↦ admit_unknown p d host f ]

unfoldable pub admit_canonical :
    Platform → Discovery → Frontier → Outcome AdmissionResult × Frontier
unfolding reject host_from_canonical same_site admit_known admit_unknown
admit_canonical p d f = admit_on_host p d (host_from_canonical p d.url) f

abbrev pub reason_of : UrlError → RejectionReason
reason_of Canonical.invalid_url = invalid_url
reason_of Canonical.unsupported_scheme = unsupported_scheme
reason_of Canonical.userinfo_not_allowed = userinfo_not_allowed

abbrev pub counted_attempt : Frontier → Frontier
counted_attempt f = record f { admission_attempts = f.admission_attempts + 1 }

abbrev pub admit_checked :
    Platform
    → Checked Text
    → ℕ
    → ℤ
    → Option Text
    → ℕ
    → Frontier
    → Outcome AdmissionResult × Frontier
admit_checked p (refuse e) depth priority parent_url ready_at f = reject (reason_of e) none f
admit_checked p (accept canonical) depth priority parent_url ready_at f =
    admit_canonical p
      (record {
        url = canonical;
        depth = depth;
        priority = priority;
        parent_url = parent_url;
        ready_at = ready_at;
      })
      f

unfoldable pub admit :
    Platform → Text → ℤ → ℤ → Option Text → Float → Frontier → Outcome AdmissionResult × Frontier
unfolding reject canonicalize_url admit_canonical
admit p url (negsuc n) priority parent_url ready_at f = reject depth_budget none (counted_attempt f)
admit p url (pos depth) priority parent_url ready_at f = elim (non_negative ready_at) [
  | none ↦ (raised value_error, counted_attempt f)
  | some t ↦
      admit_checked p (canonicalize_url p f.config.max_url_length url) depth priority parent_url t
        (counted_attempt f)
]
