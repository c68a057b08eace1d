-- ===== src/Frontier/Seeds.antt =====
-- app/services/frontier.py: `is_in_scope` and `__init__`.
use clusy_crawler.Base.{
  ℕ, Bool, true, false, ◌&&◌, not, Option, none, some, List, [], ◌∷◌, Text, text_member,
  if◌then◌else◌, ℤ,
}
use clusy_crawler.Url.Split.{Platform}
use clusy_crawler.Url.Canonical.{
  canonicalize_url, host_from_canonical, same_site, Checked, accept, refuse,
}
use clusy_crawler.Frontier.Types.{
  text_key, pair_key, Frontier, AdmissionResult, Outcome, FrontierConfig, canonicalization_error,
  returned, raised, value_error, assertion_error, duplicate,
}
use clusy_crawler.Frontier.Admit.{admit_canonical, counted_attempt}

abbrev checked_scope : Platform → Checked Text → Frontier → Outcome Bool
checked_scope p (refuse e) f = returned false
checked_scope p (accept canonical) f = elim (host_from_canonical p canonical) [
  | none ↦ raised assertion_error
  | some host ↦ returned (same_site p host f.roots f.config.allow_subdomains)
]

unfoldable pub is_in_scope : Platform → Text → Frontier → Outcome Bool
unfolding canonicalize_url host_from_canonical same_site
is_in_scope p url f = checked_scope p (canonicalize_url p f.config.max_url_length url) f

-- The list comprehension over the seeds, and the set of their hosts.
abbrev cons_seed : Checked Text → Option (List Text) → Option (List Text)
cons_seed (refuse e) rest = none
cons_seed (accept url) none = none
cons_seed (accept url) (some urls) = some (url ∷ urls)

unfoldable pub canonical_seeds : Platform → ℕ → List Text → Option (List Text)
unfolding canonicalize_url
canonical_seeds p max_length [] = some []
canonical_seeds p max_length (seed ∷ seeds) =
    cons_seed (canonicalize_url p max_length seed) (canonical_seeds p max_length seeds)

abbrev cons_root : Option Text → Option (List Text) → Option (List Text)
cons_root none rest = none
cons_root (some host) none = none
cons_root (some host) (some hosts) = some (if text_member host hosts then hosts else host ∷ hosts)

unfoldable pub seed_roots : Platform → List Text → Option (List Text)
unfolding host_from_canonical text_member
seed_roots p [] = some []
seed_roots p (url ∷ urls) = cons_root (host_from_canonical p url) (seed_roots p urls)

-- `not result.accepted and result.reason is not DUPLICATE`
abbrev pub is_seed_refused : AdmissionResult → Bool
is_seed_refused r = not r.accepted && elim r.reason [ some duplicate ↦ false | _ ↦ true ]

abbrev pub continue_seeding :
    Outcome AdmissionResult × Frontier → (Frontier → Outcome Frontier) → Outcome Frontier
continue_seeding (raised e, f) next = raised e
continue_seeding (returned r, f) next = if is_seed_refused r then raised value_error else next f

-- The loop over the canonical seeds.
unfoldable pub admit_seeds : Platform → List Text → ℤ → Frontier → Outcome Frontier
unfolding admit_canonical
admit_seeds p [] priority f = returned f
admit_seeds p (url ∷ urls) priority f =
    continue_seeding
      (admit_canonical p
        (record { url = url; depth = 0; priority = priority; parent_url = none; ready_at = 0 })
        (counted_attempt f))
      (λ g. admit_seeds p urls priority g)

abbrev pub empty_frontier : FrontierConfig → List Text → Frontier
empty_frontier c roots = record {
  config = c;
  roots = roots;
  entries = [];
  hosts = [];
  path_query_variants = [];
  calendar_variants = [];
  rejection_reasons = [];
  terminal_reasons = [];
  admission_attempts = 0;
  admitted = 0;
  duplicates = 0;
  claimed = 0;
  retries_scheduled = 0;
  order = 0;
  turn = 0;
}

-- `CrawlFrontier(seed_urls, config=c, seed_priority=priority)`
unfoldable pub init : Platform → List Text → FrontierConfig → ℤ → Outcome Frontier
unfolding canonical_seeds seed_roots admit_seeds
init p [] c priority = raised value_error
init p (seed ∷ seeds) c priority = elim (canonical_seeds p c.max_url_length (seed ∷ seeds)) [
  | none ↦ raised canonicalization_error
  | some urls ↦ elim (seed_roots p urls) [
    | none ↦ raised assertion_error
    | some roots ↦ admit_seeds p urls priority (empty_frontier c roots)
  ]
]
