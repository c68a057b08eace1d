-- ===== src/Examples/LimitsRuns.antt =====
-- app/middleware/resource_limits.py: a body in two chunks, and two requests on a server for one.
use clusy_crawler.Base.{
  ◌≤◌, ◌≡◌, refl, none, some, true, false, List, [], ◌∷◌, codes, All, length, text_eq,
}
use clusy_crawler.Url.Split.{lower_all}
use clusy_crawler.Limits.Body.{Message, request, other_message, read_bounded_body, content_length}
use clusy_crawler.Limits.Reading.{uploaded, judged, read_bounded_body-judged}
use clusy_crawler.Limits.Admission.{
  Limits, Request, Server, Reachable, idle, begins, goes_on, arrives, enters, entering, reading,
  sending, enter,
}
use clusy_crawler.Limits.Occupancy.{occupied, Reachable-occupied, Reachable-one_error}

content_length-padded :
    content_length ((codes "Host", codes "a.b") ∷ (codes "Content-Length", codes " 1_0 ") ∷ [])
    ≡ some 10
unfolding content_length text_eq lower_all
content_length-padded = refl

content_length-negative : content_length ((codes "content-length", codes "-3") ∷ []) ≡ some 0
unfolding content_length text_eq lower_all
content_length-negative = refl

abbrev messages : List Message
messages = request (1 ∷ 2 ∷ []) true ∷ other_message ∷ request (3 ∷ []) false ∷ []

uploaded-messages : uploaded messages ≡ some (1 ∷ 2 ∷ 3 ∷ [])
unfolding uploaded
uploaded-messages = refl

read_bounded_body-judged_example : read_bounded_body 2 messages ≡ judged 2 (1 ∷ 2 ∷ 3 ∷ [])
read_bounded_body-judged_example =
    read_bounded_body-judged 2 messages (1 ∷ 2 ∷ 3 ∷ []) uploaded-messages

abbrev limits : Limits
limits = record { max_body_bytes = 2; max_active_requests = 1 }

abbrev waiting_first : Request
waiting_first = record { phase = reading; admitted = true; response_started = false; errors = [] }

abbrev newcomer : Request
newcomer = record { phase = entering; admitted = false; response_started = false; errors = [] }

abbrev turned_away : Request
turned_away = record {
  phase = sending;
  admitted = false;
  response_started = true;
  errors = 429 ∷ [];
}

-- One request is admitted, and the next one is turned away.
abbrev full : Server
full = record { active = 1; requests = turned_away ∷ waiting_first ∷ [] }

full-Reachable : Reachable limits full
unfolding enter
full-Reachable =
    goes_on _ _
      (goes_on _ _
        (goes_on _ _ (goes_on _ _ begins (arrives idle)) (enters [] [] newcomer 0 (some 2) refl))
        (arrives (record { active = 1; requests = waiting_first ∷ [] })))
      (enters [] (waiting_first ∷ []) newcomer 1 none refl)

Reachable-occupied_example :
    (full.active ≡ occupied full.requests) × (full.active ≤ limits.max_active_requests)
Reachable-occupied_example = Reachable-occupied limits full full-Reachable

Reachable-one_error_example : All (λ q. length q.errors ≤ 1) full.requests
Reachable-one_error_example = Reachable-one_error limits full full-Reachable
