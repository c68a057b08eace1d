-- ===== src/Crawl/Start.antt =====
-- app/services/crawler.py: a crawl from its arguments to its bounds.
use clusy_crawler.Base.{
  ℕ, zero, suc, ◌≤◌, ◌≡◌, refl, sym, ap, subst, ◌∙◌, inl, inr, Bool, some, List, Text, ℤ, length,
  ltb, Bool-cases, Option-cases,
}
use clusy_crawler.Url.Split.{Platform}
use clusy_crawler.Frontier.Types.{
  Frontier, FrontierConfig, Outcome, returned, raised, post_init, global_fetch_limit,
}
use clusy_crawler.Frontier.Seeds.{init}
use clusy_crawler.Frontier.Seeding.{init-Sound}
use clusy_crawler.Crawl.Job.{
  Job, Settings, start_job, job_of, new_job, crawl_arguments, active, Reachable,
}
use clusy_crawler.Crawl.Safety.{Reachable-bounded}

post_init-limit :
    (max_depth max_pages : ℕ) (allow_subdomains : Bool) (c : FrontierConfig)
    → post_init (crawl_arguments max_depth max_pages allow_subdomains) ≡ some c
    → global_fetch_limit c ≡ max_pages
unfolding post_init global_fetch_limit
post_init-limit max_depth zero allow_subdomains c h = absurd (cc h)
post_init-limit max_depth (suc n) allow_subdomains c h =
    let fetches : c.max_fetch_attempts ≡ some (suc n) = sym (cc h) in
    rw (fetches, global_fetch_limit) refl

job_of-new :
    (o : Outcome Frontier) (j : Job)
    → job_of o ≡ some j
    → (f : Frontier) × (o ≡ returned f) × (new_job f ≡ j)
job_of-new (returned f) j h = (f, refl, cc h)
job_of-new (raised e) j h = absurd (cc h)

module _ (p : Platform) (s : Settings) (urls : List Text) (max_depth max_pages : ℕ)
    (allow_subdomains : Bool) (priority : ℤ) where
  -- A crawl that starts never starts more than max_pages page fetches, and never has more of them running at
  -- once than its concurrency, in whatever order they end.
  pub start_job-bounded :
      (start j : Job)
      → start_job p urls max_depth max_pages allow_subdomains priority ≡ some start
      → Reachable p s start j
      → (j.claim_order ≤ max_pages) × (active j.live ≤ s.concurrency)
  unfolding start_job
  start_job-bounded start j h r = elim (Bool-cases (ltb max_pages (length urls))) [
    | inl many ↦ absurd (cc (rw (many, start_job) at h))
    | inr few ↦
        elim (Option-cases (post_init (crawl_arguments max_depth max_pages allow_subdomains))) [
          | inl refused ↦ absurd (cc (rw (few, refused, start_job) at h))
          | inr (c, q) ↦
              let (f, made, same) =
                job_of-new (init p urls c priority) start (rw (few, q, start_job) at h) in
              let (sound, unleased, config) = init-Sound p urls c priority f made in
              let limit : global_fetch_limit f.config ≡ max_pages =
                ap global_fetch_limit config
                ∙ post_init-limit max_depth max_pages allow_subdomains c q in
              let (claims, running) =
                Reachable-bounded p s f j sound unleased
                  (subst (λ i. Reachable p s i j) (sym same) r) in
              (subst (λ n. j.claim_order ≤ n) limit claims, running)
        ]
  ]
