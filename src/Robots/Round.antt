-- ===== src/Robots/Round.antt =====
-- app/services/robots.py: one round of the loop over the redirects.
use clusy_crawler.Base.{
  ℕ, ◌≤◌, ◌<◌, ◌≡◌, refl, sym, subst, ◌∙◌, inl, inr, true, false, ◌&&◌, Option, none, some, List,
  arith, Text, length, Bool-cases, ltb, leb, member,
}
use clusy_crawler.Url.Split.{Platform, SplitResult, urlsplit}
use clusy_crawler.Url.Canonical.{Checked, accept, refuse}
use clusy_crawler.Robots.Parse.{Parsed, parsed, limit_error, index_error, parse_text}
use clusy_crawler.Robots.Policy.{
  RobotsPolicyConfig, protocol_error, too_many_redirects, unsafe, Call, returned, raised, Response,
  Web,
}
use clusy_crawler.Robots.Fetch
use clusy_crawler.Robots.Evidence.{
  IsJustified, IsWhole, joined, deny_error-IsDenied, read_success_body-IsWhole, unsuccessful-cases,
}

-- `https`, for a URL that can be split.
abbrev SecureSplit : Option SplitResult → Type 0
SecureSplit none = ⊥
SecureSplit (some s) = Fetch.has_https s ≡ true

abbrev pub IsSecure : Platform → Text → Type 0
IsSecure p url = SecureSplit (urlsplit p url)

-- A target that is followed keeps to `https`.
abbrev KeepsSecure : Platform → Option SplitResult → Call (Option Text) → Type 0
KeepsSecure p current (raised failure) = Unit {0}
KeepsSecure p current (returned none) = Unit {0}
KeepsSecure p current (returned (some target)) = SecureSplit current → IsSecure p target

downgrade_checked-KeepsSecure :
    (p : Platform) (target : Text) (current s : Option SplitResult)
    → urlsplit p target ≡ s
    → KeepsSecure p current (Fetch.downgrade_checked target current s)
downgrade_checked-KeepsSecure p target none s e = tt
downgrade_checked-KeepsSecure p target (some c) none e = elim (Bool-cases (Fetch.has_https c)) [
  | inl h ↦ rw h tt
  | inr h ↦ rw h (λ k. absurd (cc (sym k ∙ h)))
]
downgrade_checked-KeepsSecure p target (some c) (some s) e = elim (Bool-cases (Fetch.has_https c)) [
  | inr h ↦ rw h (λ k. absurd (cc (sym k ∙ h)))
  | inl h ↦ elim (Bool-cases (Fetch.has_https s)) [
    | inl k ↦ rw (h, k) (λ _. subst SecureSplit (sym e) k)
    | inr k ↦ rw (h, k) tt
  ]
]

canonical_target-KeepsSecure :
    (p : Platform) (current : Text) (c : Checked Text)
    → KeepsSecure p (urlsplit p current) (Fetch.canonical_target p current c)
canonical_target-KeepsSecure p current (refuse e) = tt
canonical_target-KeepsSecure p current (accept target) =
    downgrade_checked-KeepsSecure p target (urlsplit p current) _ refl

joined_target-KeepsSecure :
    (p : Platform) (config : RobotsPolicyConfig) (current : Text) (o : Option Text)
    → KeepsSecure p (urlsplit p current) (Fetch.joined_target p config current o)
joined_target-KeepsSecure p config current none = tt
joined_target-KeepsSecure p config current (some url) = canonical_target-KeepsSecure p current _

-- A round ends with a policy that is justified, or goes on without leaving `https`.
abbrev pub RoundHolds : Platform → Web → RobotsPolicyConfig → Text → Call Fetch.Round → Type 0
RoundHolds p web config current (raised failure) = Unit {0}
RoundHolds p web config current (returned (Fetch.done fetched)) = IsJustified p web config fetched
RoundHolds p web config current (returned (Fetch.redirected target)) =
    IsSecure p current → IsSecure p target

to_target-RoundHolds :
    (p : Platform) (web : Web) (config : RobotsPolicyConfig) (current : Text) (status : ℕ)
    (c : Call (Option Text))
    → KeepsSecure p (urlsplit p current) c
    → RoundHolds p web config current (Fetch.to_target config status c)
to_target-RoundHolds p web config current status (raised failure) h = tt
to_target-RoundHolds p web config current status (returned none) h =
    inl (deny_error-IsDenied config _ status)
to_target-RoundHolds p web config current status (returned (some target)) h = h

follow-RoundHolds :
    (p : Platform) (web : Web) (config : RobotsPolicyConfig) (n : ℕ) (current : Text)
    (response : Response)
    → RoundHolds p web config current (Fetch.follow p web config n current response)
unfolding Fetch.follow Fetch.validated_redirect_target
follow-RoundHolds p web config n current response =
    elim (Bool-cases (leb (length response.location) 0)) [
      | inl nowhere ↦ rw nowhere (inl (deny_error-IsDenied config protocol_error response.status))
      | inr somewhere ↦ elim (Bool-cases (leb config.max_redirects n)) [
        | inl last ↦
            rw (somewhere, last)
              (inl (deny_error-IsDenied config too_many_redirects response.status))
        | inr more ↦
            rw (somewhere, more)
              (to_target-RoundHolds p web config current response.status _ (
                joined_target-KeepsSecure p config current (web.urljoin current response.location)))
      ]
    ]

module _ (p : Platform) (web : Web) (config : RobotsPolicyConfig) (n : ℕ) (current : Text)
    (response : Response) (streamed : web.stream n current ≡ returned response)
    (trusted : response.is_peer_refused ≡ false) where
  with_rules-RoundHolds :
      (body : List ℕ) (result : Parsed)
      → 200 ≤ response.status
      → response.status < 300
      → IsWhole config.max_body_bytes (joined response.chunks) response.broken (returned body)
      → parse_text p config.limits config.user_agent (web.decode body) ≡ result
      → RoundHolds p web config current
          (Fetch.done_with (Fetch.with_rules config response.status result))
  with_rules-RoundHolds body limit_error low high whole read =
      inl (deny_error-IsDenied config _ response.status)
  with_rules-RoundHolds body index_error low high whole read = tt
  with_rules-RoundHolds body (parsed rules) low high whole read = inr (record {
    round = n;
    url = current;
    response = response;
    streamed = streamed;
    trusted = trusted;
    answer = inr (record {
      rules = rules;
      low = low;
      high = high;
      complete = whole.2;
      bounded = subst (λ b. length b ≤ config.max_body_bytes) whole.1 whole.0;
      read =
          subst (λ b. parse_text p config.limits config.user_agent (web.decode b) ≡ parsed rules)
            whole.1 read;
      kept = refl;
    });
  })

  with_body-RoundHolds :
      (c : Call (List ℕ))
      → 200 ≤ response.status
      → response.status < 300
      → IsWhole config.max_body_bytes (joined response.chunks) response.broken c
      → RoundHolds p web config current
          (Fetch.done_with (Fetch.with_body p web config response.status c))
  with_body-RoundHolds (raised failure) low high h = tt
  with_body-RoundHolds (returned body) low high h = with_rules-RoundHolds body _ low high h refl

  unsuccessful-IsJustified : IsJustified p web config (Fetch.unsuccessful config response.status)
  unsuccessful-IsJustified = elim (unsuccessful-cases config response.status) [
    | inl denied ↦ inl denied
    | inr free ↦ inr (record {
      round = n;
      url = current;
      response = response;
      streamed = streamed;
      trusted = trusted;
      answer = inl free;
    })
  ]

pub respond-RoundHolds :
    (p : Platform) (web : Web) (config : RobotsPolicyConfig) (n : ℕ) (current : Text)
    (response : Response)
    → web.stream n current ≡ returned response
    → RoundHolds p web config current (Fetch.respond p web config n current response)
unfolding Fetch.respond
respond-RoundHolds p web config n current response streamed =
    elim (Bool-cases response.is_peer_refused) [
      | inl refused ↦ rw refused (inl (deny_error-IsDenied config unsafe 0))
      | inr trusted ↦ elim (Bool-cases (member response.status Fetch.redirect_statuses)) [
        | inl elsewhere ↦
            rw (trusted, elsewhere) (follow-RoundHolds p web config n current response)
        | inr here ↦ elim (Bool-cases (leb 200 response.status && ltb response.status 300)) [
          | inl success ↦
              rw (trusted, here, success)
                (with_body-RoundHolds p web config n current response streamed trusted _
                  (ground arith) (ground arith) (read_success_body-IsWhole config response))
          | inr failure ↦
              rw (trusted, here, failure)
                (unsuccessful-IsJustified p web config n current response streamed trusted)
        ]
      ]
    ]
