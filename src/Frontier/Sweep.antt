-- ===== src/Frontier/Sweep.antt =====
-- app/services/frontier.py: `_terminate_pending` and the loop over the exhausted hosts.
use clusy_crawler.Base.{
  ◌≡◌, ◌≢◌, refl, ◌∙◌, inl, inr, Option, none, some, true, List, [], ◌∷◌, arith, Text, All,
  Bool-cases, if◌then◌else◌, text_eq, text_eq_iff,
}
use clusy_crawler.Base.Dict.{get, Every}
use clusy_crawler.Frontier.Types.{
  text_key, Entry, Frontier, TerminalReason, is_pending, host_fetch_budget,
}
use clusy_crawler.Frontier.Queue.{sweep, is_swept, terminated, terminate_pending}
use clusy_crawler.Frontier.Claim.{close_hosts}
use clusy_crawler.Frontier.Later.{
  Later, Later-refl, EntriesLater, EntriesLater-refl, EntriesLater-trans, terminated-Later,
  pending-IsOpen,
}
use clusy_crawler.Frontier.Sound.{Sound, known_later}

abbrev pub swept : Option Text → TerminalReason → Entry → Entry
swept host reason e = if is_swept host e then terminated reason e else e

is_swept→pending :
    (host : Option Text) (e : Entry) → is_swept host e ≡ true → is_pending e.state ≡ true
is_swept→pending none e h = h
is_swept→pending (some host) e h = ground arith

swept-Later :
    (host : Option Text) (reason : TerminalReason) (e : Entry) → Later e (swept host reason e)
swept-Later host reason e = elim (Bool-cases (is_swept host e)) [
  | inl h ↦ rw h (terminated-Later reason e (pending-IsOpen e (is_swept→pending host e h)))
  | inr h ↦ rw h (Later-refl e)
]

pub sweep-get :
    (host : Option Text) (reason : TerminalReason) (k : Text) (e : Entry) (m : List (Text × Entry))
    (counter : List TerminalReason)
    → get k m ≡ some e
    → get k (sweep host reason m counter).0 ≡ some (swept host reason e)
unfolding sweep get
sweep-get host reason k e [] counter q = absurd (cc)
sweep-get host reason k e ((j, x) ∷ m) counter q = elim (Bool-cases (text_eq j k)) [
  | inl h ↦ let same : x ≡ e = ground arith in rw (h, same)
  | inr h ↦ rw h (sweep-get host reason k e m _ (rw h at q))
]

sweep-later :
    (host : Option Text) (reason : TerminalReason) (m : List (Text × Entry))
    (counter : List TerminalReason)
    → EntriesLater m (sweep host reason m counter).0
sweep-later host reason m counter k e q =
    (swept host reason e, sweep-get host reason k e m counter q, swept-Later host reason e)

sweep-keyed :
    (host : Option Text) (reason : TerminalReason) (m : List (Text × Entry))
    (counter : List TerminalReason)
    → Every (λ k e. e.url ≡ k) m
    → Every (λ k e. e.url ≡ k) (sweep host reason m counter).0
unfolding sweep terminated
sweep-keyed host reason [] counter h = tt
sweep-keyed host reason ((k, e) ∷ m) counter h =
    ((swept-Later host reason e).same_url ∙ h.0, sweep-keyed host reason m _ h.1)

pub terminate_pending-later :
    (host : Option Text) (reason : TerminalReason) (f : Frontier)
    → EntriesLater f.entries (terminate_pending host reason f).entries
unfolding terminate_pending
terminate_pending-later host reason f = sweep-later host reason f.entries f.terminal_reasons

pub terminate_pending-Sound :
    (host : Option Text) (reason : TerminalReason) (f : Frontier)
    → Sound f
    → Sound (terminate_pending host reason f)
unfolding terminate_pending
terminate_pending-Sound host reason f v = record {
  keyed = sweep-keyed host reason f.entries f.terminal_reasons v.keyed;
  distinct = v.distinct;
  known = known_later _ _ f.hosts (sweep-later host reason f.entries f.terminal_reasons) v.known;
}

pub close_hosts-Sound : (hs : List Text) (f : Frontier) → Sound f → Sound (close_hosts hs f)
unfolding close_hosts
close_hosts-Sound [] f v = v
close_hosts-Sound (h ∷ hs) f v =
    close_hosts-Sound hs _ (terminate_pending-Sound (some h) host_fetch_budget f v)

pub close_hosts-later :
    (hs : List Text) (f : Frontier) → EntriesLater f.entries (close_hosts hs f).entries
unfolding close_hosts
close_hosts-later [] f = EntriesLater-refl f.entries
close_hosts-later (h ∷ hs) f =
    EntriesLater-trans _ _ _ (terminate_pending-later (some h) host_fetch_budget f)
      (close_hosts-later hs _)

-- What the loop leaves alone.
pub record Unswept (f g : Frontier) : Type 0 where
  pub same_config : g.config ≡ f.config
  pub same_hosts : g.hosts ≡ f.hosts
  pub same_claimed : g.claimed ≡ f.claimed
  pub same_admitted : g.admitted ≡ f.admitted
  pub same_turn : g.turn ≡ f.turn

pub close_hosts-Unswept : (hs : List Text) (f : Frontier) → Unswept f (close_hosts hs f)
unfolding close_hosts terminate_pending
close_hosts-Unswept [] f = record {
  same_config = refl;
  same_hosts = refl;
  same_claimed = refl;
  same_admitted = refl;
  same_turn = refl;
}
close_hosts-Unswept (h ∷ hs) f =
    let u = close_hosts-Unswept hs (terminate_pending (some h) host_fetch_budget f) in
    record {
      same_config = u.same_config;
      same_hosts = u.same_hosts;
      same_claimed = u.same_claimed;
      same_admitted = u.same_admitted;
      same_turn = u.same_turn;
    }

-- An entry of another host is left as it is.
pub close_hosts-get :
    (hs : List Text) (k : Text) (e : Entry) (f : Frontier)
    → All (λ h. e.host ≢ h) hs
    → get k f.entries ≡ some e
    → get k (close_hosts hs f).entries ≡ some e
unfolding close_hosts terminate_pending
close_hosts-get [] k e f h q = q
close_hosts-get (x ∷ hs) k e f h q = close_hosts-get hs k e _ h.1 (
    sweep-get (some x) host_fetch_budget k e f.entries f.terminal_reasons q
    ∙ ground (arith, text_eq_iff e.host x))
