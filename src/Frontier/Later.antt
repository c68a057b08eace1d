-- ===== src/Frontier/Later.antt =====
-- app/services/frontier.py: what the history of one entry and of one host's politeness state obeys.
use clusy_crawler.Base.{ℕ, ◌≤◌, ◌≡◌, refl, ◌∙◌, subst, sym, none, some, true, List, arith, Text}
use clusy_crawler.Base.Dict.{get, put, Tracks, Tracks-put, Tracks-refl, Tracks-trans}
use clusy_crawler.Frontier.Types.{
  text_key, Entry, HostState, in_flight, terminal, is_pending, TerminalReason,
}
use clusy_crawler.Frontier.Queue.{enqueued, terminated}
use clusy_crawler.Frontier.Claim.{claimed}
use clusy_crawler.Frontier.Report.{is_in_flight}

-- `e'` may be the entry `e` at a later time.
pub record Later (e e' : Entry) : Type 0 where
  pub same_url : e'.url ≡ e.url
  pub same_host : e'.host ≡ e.host
  pub same_order : e'.order ≡ e.order
  pub more_attempts : e.attempts ≤ e'.attempts
  pub more_generations : e.generation ≤ e'.generation
  -- A terminal entry is never changed.
  pub final : e.state ≡ terminal → e' ≡ e
  -- An entry gets in flight only by a new attempt.
  pub claimed_anew : e'.attempts ≡ e.attempts → e'.state ≡ in_flight → e.state ≡ in_flight

pub Later-refl : (e : Entry) → Later e e
Later-refl e = record {
  same_url = refl;
  same_host = refl;
  same_order = refl;
  more_attempts = omega arith;
  more_generations = omega arith;
  final = λ h. refl;
  claimed_anew = λ h s. s;
}

pub Later-trans : (a b c : Entry) → Later a b → Later b c → Later a c
Later-trans a b c h k = record {
  same_url = k.same_url ∙ h.same_url;
  same_host = k.same_host ∙ h.same_host;
  same_order = k.same_order ∙ h.same_order;
  more_attempts = omega arith;
  more_generations = omega arith;
  final = λ t. let q : b ≡ a = h.final t in k.final (subst (λ e. e.state ≡ terminal) (sym q) t) ∙ q;
  claimed_anew = λ n s. h.claimed_anew (omega arith) (k.claimed_anew (omega arith) s);
}

-- An entry that is not terminal.
abbrev pub IsOpen : Entry → Type 0
IsOpen e = e.state ≡ terminal → ⊥

pub pending-IsOpen : (e : Entry) → is_pending e.state ≡ true → IsOpen e
pending-IsOpen e h t = ground arith

pub in_flight-IsOpen : (e : Entry) → is_in_flight e.state ≡ true → IsOpen e
in_flight-IsOpen e h t = ground arith

pub enqueued-Later : (e : Entry) (ready_at : ℕ) → IsOpen e → Later e (enqueued e ready_at)
unfolding enqueued
enqueued-Later e ready_at h = record {
  same_url = refl;
  same_host = refl;
  same_order = refl;
  more_attempts = omega arith;
  more_generations = omega arith;
  final = λ t. absurd (h t);
  claimed_anew = λ n s. ground arith;
}

pub terminated-Later :
    (reason : TerminalReason) (e : Entry) → IsOpen e → Later e (terminated reason e)
unfolding terminated
terminated-Later reason e h = record {
  same_url = refl;
  same_host = refl;
  same_order = refl;
  more_attempts = omega arith;
  more_generations = omega arith;
  final = λ t. absurd (h t);
  claimed_anew = λ n s. ground arith;
}

pub claimed-Later : (e : Entry) → IsOpen e → Later e (claimed e)
unfolding claimed
claimed-Later e h = record {
  same_url = refl;
  same_host = refl;
  same_order = refl;
  more_attempts = omega arith;
  more_generations = omega arith;
  final = λ t. absurd (h t);
  claimed_anew = λ n s. absurd (omega arith);
}

-- Every entry is still there, and is later.
abbrev pub EntriesLater : List (Text × Entry) → List (Text × Entry) → Type 0
EntriesLater = Tracks Later

pub EntriesLater-refl : (m : List (Text × Entry)) → EntriesLater m m
EntriesLater-refl m = Tracks-refl Later m Later-refl

pub EntriesLater-trans :
    (a b c : List (Text × Entry)) → EntriesLater a b → EntriesLater b c → EntriesLater a c
EntriesLater-trans a b c h k = Tracks-trans Later a b c Later-trans h k

pub EntriesLater-put :
    (k : Text) (e e' : Entry) (m : List (Text × Entry))
    → get k m ≡ some e
    → Later e e'
    → EntriesLater m (put k e' m)
EntriesLater-put k e e' m q h =
    Tracks-put Later k e' m Later-refl
      (λ w r. let same : e ≡ w = ground arith in subst (λ u. Later u e') same h)

pub EntriesLater-put_new :
    (k : Text) (e' : Entry) (m : List (Text × Entry)) → get k m ≡ none → EntriesLater m (put k e' m)
EntriesLater-put_new k e' m q = Tracks-put Later k e' m Later-refl (λ w r. absurd (cc))

-- A host's politeness state, later.
pub record HostLater (s s' : HostState) : Type 0 where
  pub later_allowed : s.next_allowed_at ≤ s'.next_allowed_at
  pub more_fetches : s.fetches ≤ s'.fetches
  pub more_admitted : s.admitted ≤ s'.admitted

pub HostLater-refl : (s : HostState) → HostLater s s
HostLater-refl s = omega arith

pub HostLater-trans : (a b c : HostState) → HostLater a b → HostLater b c → HostLater a c
HostLater-trans a b c h k = omega arith

abbrev pub HostsLater : List (Text × HostState) → List (Text × HostState) → Type 0
HostsLater = Tracks HostLater

pub HostsLater-refl : (m : List (Text × HostState)) → HostsLater m m
HostsLater-refl m = Tracks-refl HostLater m HostLater-refl

pub HostsLater-trans :
    (a b c : List (Text × HostState)) → HostsLater a b → HostsLater b c → HostsLater a c
HostsLater-trans a b c h k = Tracks-trans HostLater a b c HostLater-trans h k

pub HostsLater-put :
    (k : Text) (s' : HostState) (m : List (Text × HostState))
    → ((s : HostState) → get k m ≡ some s → HostLater s s')
    → HostsLater m (put k s' m)
HostsLater-put k s' m h = Tracks-put HostLater k s' m HostLater-refl h
