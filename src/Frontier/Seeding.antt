-- ===== src/Frontier/Seeding.antt =====
-- app/services/frontier.py: a frontier that `__init__` makes is sound, and has leased nothing.
use clusy_crawler.Base.{
  ◌≡◌, subst, inl, inr, none, List, [], ◌∷◌, Text, ℤ, Bool-cases, Option-cases,
}
use clusy_crawler.Url.Split.{Platform}
use clusy_crawler.Frontier.Types.{
  Frontier, AdmissionResult, Outcome, FrontierConfig, returned, raised,
}
use clusy_crawler.Frontier.Admit.{Discovery, admit_canonical, counted_attempt}
use clusy_crawler.Frontier.Seeds.{
  canonical_seeds, seed_roots, is_seed_refused, continue_seeding, admit_seeds, empty_frontier, init,
}
use clusy_crawler.Frontier.Sound.{Sound}
use clusy_crawler.Frontier.Admitting.{admit_canonical-Evolves}
use clusy_crawler.Frontier.Flight.{
  Spares, Spares-refl, Spares-trans, admit_canonical-Spares, counted_attempt-Spares,
}

continue_seeding-returned :
    (r : Outcome AdmissionResult × Frontier) (next : Frontier → Outcome Frontier) (g : Frontier)
    → continue_seeding r next ≡ returned g
    → next r.1 ≡ returned g
continue_seeding-returned (raised e, f) next g h = absurd (cc h)
continue_seeding-returned (returned a, f) next g h = elim (Bool-cases (is_seed_refused a)) [
  | inl refused ↦ absurd (cc (rw refused at h))
  | inr taken ↦ rw taken at h
]

admit_seeds-Sound :
    (p : Platform) (urls : List Text) (priority : ℤ) (f g : Frontier)
    → Sound f
    → admit_seeds p urls priority f ≡ returned g
    → Sound g × Spares f g
unfolding admit_seeds
admit_seeds-Sound p [] priority f g v h =
    let e : f ≡ g = cc h in (subst Sound e v, subst (Spares f) e (Spares-refl f))
admit_seeds-Sound p (url ∷ urls) priority f g v h =
    let d : Discovery = record {
      url = url;
      depth = 0;
      priority = priority;
      parent_url = none;
      ready_at = 0;
    } in
    let f' = (admit_canonical p d (counted_attempt f)).1 in
    let sound = (admit_canonical-Evolves p d (counted_attempt f) v).linked in
    let rest =
      continue_seeding-returned (admit_canonical p d (counted_attempt f))
        (λ x. admit_seeds p urls priority x) g h in
    let (sound', spares) = admit_seeds-Sound p urls priority f' g sound rest in
    (
      sound',
      Spares-trans f f' g
          (Spares-trans f (counted_attempt f) f' (counted_attempt-Spares f)
            (admit_canonical-Spares p d (counted_attempt f)))
          spares,
    )

-- What `CrawlFrontier(...)` returns.
pub init-Sound :
    (p : Platform) (seeds : List Text) (c : FrontierConfig) (priority : ℤ) (f : Frontier)
    → init p seeds c priority ≡ returned f
    → Sound f × (f.claimed ≡ 0) × (f.config ≡ c)
unfolding init
init-Sound p [] c priority f h = absurd (cc h)
init-Sound p (seed ∷ seeds) c priority f h =
    elim (Option-cases (canonical_seeds p c.max_url_length (seed ∷ seeds))) [
      | inl refused ↦ absurd (cc (rw (refused, init) at h))
      | inr (urls, q) ↦ elim (Option-cases (seed_roots p urls)) [
        | inl lost ↦ absurd (cc (rw (q, lost, init) at h))
        | inr (roots, r) ↦
            let (sound, spares) =
              admit_seeds-Sound p urls priority (empty_frontier c roots) f
                (record { keyed = tt; distinct = tt; known = tt }) (rw (q, r, init) at h) in
            (sound, spares.same_claimed, spares.same_config)
      ]
    ]
