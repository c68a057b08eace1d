-- ===== src/Limits/Admission.antt =====
-- app/middleware/resource_limits.py: `ResourceLimitMiddleware.__call__`, as the steps of the requests
-- that one server has in progress.
use clusy_crawler.Base.{
  ℕ, ◌+◌, ◌-◌, ◌≡◌, Bool, true, false, Option, none, some, List, [], ◌∷◌, ◌++◌, leb, ltb,
  if◌then◌else◌,
}
use clusy_crawler.Limits.Body.{Message, BodyRead, complete, excessive, waiting, read_bounded_body}

-- `max_body_bytes` and `max_active_requests`.
pub record Limits : Type 0 where
  pub max_body_bytes : ℕ
  pub max_active_requests : ℕ

-- Where a metered request stands: before the lock, in the reading of its body, in the application, in
-- the awaits of an error that is sent within the `timeout` block, in the `finally` block (or the awaits
-- of the error behind the deadline), or behind it.
pub data Phase : Type 0 where
  entering reading running sending leaving gone : Phase

-- `admitted`, `response_started`, and the errors that the middleware sent, the last one first.
pub record Request : Type 0 where
  pub phase : Phase
  pub admitted : Bool
  pub response_started : Bool
  pub errors : List ℕ

pub record Server : Type 0 where
  pub active : ℕ
  pub requests : List Request

abbrev pub arrived : Request
arrived = record { phase = entering; admitted = false; response_started = false; errors = [] }

-- `_send_error` on `tracking_send` within the `timeout` block, up to its first await: `tracking_send` notes
-- the start of the response before it awaits.
abbrev pub send_error : ℕ → Request → Request
send_error status q = record q {
  phase = sending;
  response_started = true;
  errors = status ∷ q.errors;
}

abbrev pub is_declared_larger : ℕ → Option ℕ → Bool
is_declared_larger max_body_bytes none = false
is_declared_larger max_body_bytes (some n) = ltb max_body_bytes n

-- From the declared length to the lock: the new count and the request.
unfoldable pub enter : Limits → Option ℕ → ℕ → Request → ℕ × Request
enter limits declared active q =
    if is_declared_larger limits.max_body_bytes declared
    then (active, send_error 413 q)
    else if leb limits.max_active_requests active
    then (active, send_error 429 q)
    else (active + 1, record q { phase = reading; admitted = true })

-- From the reading of the body to the application.
abbrev pub after_read : BodyRead → Request → Request
after_read (complete body) q = record q { phase = running }
after_read excessive q = send_error 413 q
after_read waiting q = q

unfoldable pub read : Limits → List Message → Request → Request
unfolding read_bounded_body
read limits messages q = after_read (read_bounded_body limits.max_body_bytes messages) q

-- The application sends `http.response.start`.
abbrev pub start_response : Request → Request
start_response q = record q { response_started = true }

-- The application returns or raises, an error has been sent, or the request is broken off: it is
-- cancelled, or what it awaits raises.
abbrev pub finish : Request → Request
finish q = record q { phase = leaving }

-- `except TimeoutError`; its error is sent outside of the `timeout` block.
unfoldable pub expire : Request → Request
expire q = if q.response_started then finish q else finish (send_error 504 q)

-- `finally`
unfoldable pub leave : ℕ → Request → ℕ × Request
leave active q = (if q.admitted then active - 1 else active, record q { phase = gone })

abbrev pub IsTimed : Phase → Type 0
IsTimed entering = Unit {0}
IsTimed reading = Unit {0}
IsTimed running = Unit {0}
IsTimed sending = Unit {0}
IsTimed leaving = ⊥
IsTimed gone = ⊥

-- A request among the others.
abbrev pub place : List Request → Request → List Request → ℕ → Server
place before q after active = record { active = active; requests = before ++ q ∷ after }

abbrev pub settle : List Request → List Request → ℕ × Request → Server
settle before after (active, q) = place before q after active

-- One step of the server. The requests take their steps in any order.
pub data Step (limits : Limits) : Server → Server → Type 0 where
  arrives : (s : Server) → Step limits s (record s { requests = arrived ∷ s.requests })
  enters :
      (before after : List Request) (q : Request) (active : ℕ) (declared : Option ℕ)
      → q.phase ≡ entering
      → Step limits
          (place before q after active)
          (settle before after (enter limits declared active q))
  reads :
      (before after : List Request) (q : Request) (active : ℕ) (messages : List Message)
      → q.phase ≡ reading
      → Step limits
          (place before q after active)
          (place before (read limits messages q) after active)
  starts :
      (before after : List Request) (q : Request) (active : ℕ)
      → q.phase ≡ running
      → Step limits (place before q after active) (place before (start_response q) after active)
  finishes :
      (before after : List Request) (q : Request) (active : ℕ)
      → q.phase ≡ running
      → Step limits (place before q after active) (place before (finish q) after active)
  sends :
      (before after : List Request) (q : Request) (active : ℕ)
      → q.phase ≡ sending
      → Step limits (place before q after active) (place before (finish q) after active)
  breaks_off :
      (before after : List Request) (q : Request) (active : ℕ)
      → IsTimed q.phase
      → Step limits (place before q after active) (place before (finish q) after active)
  expires :
      (before after : List Request) (q : Request) (active : ℕ)
      → IsTimed q.phase
      → Step limits (place before q after active) (place before (expire q) after active)
  leaves :
      (before after : List Request) (q : Request) (active : ℕ)
      → q.phase ≡ leaving
      → Step limits (place before q after active) (settle before after (leave active q))

abbrev pub idle : Server
idle = record { active = 0; requests = [] }

-- The states that the server comes to.
pub data Reachable (limits : Limits) : Server → Type 0 where
  begins : Reachable limits idle
  goes_on : (s t : Server) → Reachable limits s → Step limits s t → Reachable limits t
