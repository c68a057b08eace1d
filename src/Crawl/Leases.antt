-- ===== src/Crawl/Leases.antt =====
-- app/services/crawler.py: the tasks that are live, their order and their leases.
use clusy_crawler.Base.{
  ℕ, suc, ◌+◌, ◌≤◌, ◌≡◌, ◌≢◌, refl, sym, ap, subst, ◌∙◌, Bool, true, false, some, List, [], ◌∷◌,
  ◌++◌, Text, arith, ◌==◌, min, if◌then◌else◌,
}
use clusy_crawler.Base.Dict.{get, Tracks}
use clusy_crawler.Frontier.Types.{text_key, Entry, Frontier, is_pending, in_flight}
use clusy_crawler.Frontier.Report.{resolve_lease}
use clusy_crawler.Frontier.Calls.{resolve_lease-Resolved}
use clusy_crawler.Frontier.Flight.{Kept}
use clusy_crawler.Frontier.Holding.{resolve_lease-Kept}
use clusy_crawler.Crawl.Job.{
  LiveTask, Fetch, active, min_order, live_at, with_order, oldest, finish,
}

-- The orders are the numbers from `n` up to `m`.
abbrev pub Consecutive : ℕ → List (ℕ × LiveTask) → ℕ → Type 0
Consecutive n [] m = n ≡ m
Consecutive n ((k, t) ∷ live) m = (k ≡ n) × Consecutive (suc n) live m

-- Each lease resolves.
abbrev pub AreHeld : Frontier → List (ℕ × LiveTask) → Type 0
AreHeld f [] = Unit {0}
AreHeld f ((k, t) ∷ live) = ((e : Entry) × (resolve_lease t.lease f ≡ some e)) × AreHeld f live

-- No lease is for the URL, and no two leases for one.
abbrev pub AreElsewhere : Text → List (ℕ × LiveTask) → Type 0
AreElsewhere url [] = Unit {0}
AreElsewhere url ((k, t) ∷ live) = (url ≢ t.lease.url) × AreElsewhere url live

abbrev pub AreApart : List (ℕ × LiveTask) → Type 0
AreApart [] = Unit {0}
AreApart ((k, t) ∷ live) = AreElsewhere t.lease.url live × AreApart live

pub Consecutive-append :
    (n m : ℕ) (live : List (ℕ × LiveTask)) (t : LiveTask)
    → Consecutive n live m
    → Consecutive n (live ++ (m, t) ∷ []) (m + 1)
Consecutive-append n m [] t h = (sym h, omega (arith, h))
Consecutive-append n m ((k, x) ∷ live) t h = (h.0, Consecutive-append (suc n) m live t h.1)

pub AreHeld-Kept :
    (f g : Frontier) (live : List (ℕ × LiveTask))
    → Tracks Kept f.entries g.entries
    → AreHeld f live
    → AreHeld g live
AreHeld-Kept f g [] k h = tt
AreHeld-Kept f g ((i, t) ∷ live) k ((e, r), rest) =
    ((e, resolve_lease-Kept t.lease e f g k r), AreHeld-Kept f g live k rest)

pub AreHeld-append :
    (f : Frontier) (live : List (ℕ × LiveTask)) (k : ℕ) (t : LiveTask) (e : Entry)
    → AreHeld f live
    → resolve_lease t.lease f ≡ some e
    → AreHeld f (live ++ (k, t) ∷ [])
AreHeld-append f [] k t e h r = ((e, r), tt)
AreHeld-append f (x ∷ live) k t e h r = (h.0, AreHeld-append f live k t e h.1 r)

-- A URL that is pending is not that of a lease that is held.
pub pending-AreElsewhere :
    (f : Frontier) (url : Text) (e : Entry) (live : List (ℕ × LiveTask))
    → get url f.entries ≡ some e
    → is_pending e.state ≡ true
    → AreHeld f live
    → AreElsewhere url live
pending-AreElsewhere f url e [] q p h = tt
pending-AreElsewhere f url e ((k, t) ∷ live) q p ((x, r), rest) =
    (other, pending-AreElsewhere f url e live q p rest)
  where
    other : url ≢ t.lease.url
    other same =
        let z = resolve_lease-Resolved t.lease f x r in
        let there : some e ≡ some x = sym q ∙ ap (λ u. get u f.entries) same ∙ z.entry in
        let flying : e.state ≡ in_flight = cc (there, z.flying) in absurd (ground arith)

elsewhere-append :
    (url : Text) (live : List (ℕ × LiveTask)) (k : ℕ) (t : LiveTask)
    → AreElsewhere url live
    → url ≢ t.lease.url
    → AreElsewhere url (live ++ (k, t) ∷ [])
elsewhere-append url [] k t h d = (d, tt)
elsewhere-append url (x ∷ live) k t h d = (h.0, elsewhere-append url live k t h.1 d)

pub AreApart-append :
    (live : List (ℕ × LiveTask)) (k : ℕ) (t : LiveTask)
    → AreApart live
    → AreElsewhere t.lease.url live
    → AreApart (live ++ (k, t) ∷ [])
AreApart-append [] k t h d = (tt, tt)
AreApart-append ((i, x) ∷ live) k t h d =
    (elsewhere-append x.lease.url live k t h.0 (λ e. d.0 (sym e)), AreApart-append live k t h.1 d.1)

pub active-append :
    (live : List (ℕ × LiveTask)) (k : ℕ) (t : LiveTask)
    → active (live ++ (k, t) ∷ []) ≤ active live + 1
active-append [] k t = ground arith
active-append ((i, x) ∷ live) k t = omega (arith, active-append live k t)

-- The first one is the oldest.
min_order-first :
    (k n m : ℕ) (live : List (ℕ × LiveTask)) → k ≤ n → Consecutive n live m → min_order k live ≡ k
min_order-first k n m [] le h = refl
min_order-first k n m ((i, t) ∷ live) le h =
    let e : min k i ≡ k = omega (arith, le, h.0) in
    rw e (min_order-first k (suc n) m live (omega (arith, le)) h.1)

pub oldest-first :
    (n m k : ℕ) (t : LiveTask) (live : List (ℕ × LiveTask))
    → Consecutive n ((k, t) ∷ live) m
    → oldest ((k, t) ∷ live) ≡ some (k, t)
oldest-first n m k t live h =
    let least : min_order k live ≡ k = min_order-first k (suc n) m live (omega (arith, h.0)) h.1 in
    chosen (min_order k live) least
  where
    chosen :
        (order : ℕ) → order ≡ k → with_order order (live_at order ((k, t) ∷ live)) ≡ some (k, t)
    chosen order e = ground arith

-- A task that is done keeps its order and its lease.
module _ (order : ℕ) (fetch : Fetch) where
  pub finish-Consecutive :
      (n m : ℕ) (live : List (ℕ × LiveTask))
      → Consecutive n live m
      → Consecutive n (finish order fetch live) m
  finish-Consecutive n m [] h = h
  finish-Consecutive n m ((k, t) ∷ live) h = (h.0, finish-Consecutive (suc n) m live h.1)

  same_lease :
      (b : Bool) (t : LiveTask) → (if b then record t { fetch = some fetch } else t).lease ≡ t.lease
  same_lease true t = refl
  same_lease false t = refl

  pub finish-AreHeld :
      (f : Frontier) (live : List (ℕ × LiveTask))
      → AreHeld f live
      → AreHeld f (finish order fetch live)
  finish-AreHeld f [] h = tt
  finish-AreHeld f ((k, t) ∷ live) ((e, r), rest) =
      ((e, ap (λ l. resolve_lease l f) (same_lease (k == order) t) ∙ r), finish-AreHeld f live rest)

  finish-AreElsewhere :
      (url : Text) (live : List (ℕ × LiveTask))
      → AreElsewhere url live
      → AreElsewhere url (finish order fetch live)
  finish-AreElsewhere url [] h = tt
  finish-AreElsewhere url ((k, t) ∷ live) h =
      (λ e. h.0 (e ∙ ap (λ l. l.url) (same_lease (k == order) t)), finish-AreElsewhere url live h.1)

  pub finish-AreApart :
      (live : List (ℕ × LiveTask)) → AreApart live → AreApart (finish order fetch live)
  finish-AreApart [] h = tt
  finish-AreApart ((k, t) ∷ live) h = (
    subst (λ l. AreElsewhere l.url (finish order fetch live)) (sym (same_lease (k == order) t))
        (finish-AreElsewhere t.lease.url live h.0),
    finish-AreApart live h.1,
  )

  pub finish-active : (live : List (ℕ × LiveTask)) → active (finish order fetch live) ≤ active live
  finish-active [] = omega arith
  finish-active ((k, t) ∷ live) = ground (arith, finish-active live)
