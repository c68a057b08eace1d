-- ===== src/Limits/Reading.antt =====
-- app/middleware/resource_limits.py: what the reading of a body answers.
use clusy_crawler.Base.{
  ℕ, ◌+◌, ◌<◌, ◌≡◌, refl, sym, ◌∙◌, inl, inr, true, false, Option, none, some, List, [], ◌∷◌, ◌++◌,
  arith, length, length-append, Bool-cases, if◌then◌else◌, ltb,
}
use mathlib.Core.List.{append_assoc}
use clusy_crawler.Limits.Body.{
  Message, disconnect, request, other_message, BodyRead, complete, excessive, read_messages,
  read_bounded_body,
}

abbrev prefixed : List ℕ → Option (List ℕ) → Option (List ℕ)
prefixed chunk none = none
prefixed chunk (some body) = some (chunk ++ body)

-- The whole body of a request that ends without a disconnect.
unfoldable pub uploaded : List Message → Option (List ℕ)
uploaded [] = none
uploaded (disconnect ∷ ms) = none
uploaded (other_message ∷ ms) = uploaded ms
uploaded (request chunk true ∷ ms) = prefixed chunk (uploaded ms)
uploaded (request chunk false ∷ ms) = some chunk

prefixed-some :
    (chunk : List ℕ) (o : Option (List ℕ)) (body : List ℕ)
    → prefixed chunk o ≡ some body
    → (rest : List ℕ) × (o ≡ some rest) × (body ≡ chunk ++ rest)
prefixed-some chunk none body h = absurd (cc h)
prefixed-some chunk (some rest) body h = (rest, refl, cc h)

abbrev pub judged : ℕ → List ℕ → BodyRead
judged n body = if ltb n (length body) then excessive else complete body

judged_long : (n : ℕ) (body : List ℕ) → n < length body → judged n body ≡ excessive
judged_long n body h = elim (Bool-cases (ltb n (length body))) [
  | inl e ↦ rw e refl
  | inr e ↦ absurd (ground arith)
]

judged-append :
    (n : ℕ) (chunks chunk : List ℕ)
    → (if ltb n (length chunks + length chunk) then excessive else complete (chunks ++ chunk))
      ≡ judged n (chunks ++ chunk)
judged-append n chunks chunk = rw (length-append chunks chunk) refl

read_messages-judged :
    (n : ℕ) (chunks : List ℕ) (ms : List Message) (body : List ℕ)
    → uploaded ms ≡ some body
    → read_messages n chunks ms ≡ judged n (chunks ++ body)
unfolding read_messages uploaded
read_messages-judged n chunks [] body h = absurd (cc h)
read_messages-judged n chunks (disconnect ∷ ms) body h = absurd (cc h)
read_messages-judged n chunks (other_message ∷ ms) body h = read_messages-judged n chunks ms body h
read_messages-judged n chunks (request chunk false ∷ ms) body h =
    judged-append n chunks chunk ∙ cc h
read_messages-judged n chunks (request chunk true ∷ ms) body h =
    let (rest, e, b) = prefixed-some chunk (uploaded ms) body h in
    let whole = append_assoc chunks chunk rest in
    elim (Bool-cases (ltb n (length chunks + length chunk))) [
      | inl over ↦
          rw (over, b)
            (sym (
              judged_long n (chunks ++ (chunk ++ rest))
                (ground (arith, length-append chunks (chunk ++ rest), length-append chunk rest))))
      | inr fits ↦ rw (fits, b) (read_messages-judged n (chunks ++ chunk) ms rest e ∙ rw whole refl)
    ]

-- For a request that ends without a disconnect, in whatever chunks it arrives, the reader answers its
-- whole body if that is within the bound, and reports the excess otherwise.
pub read_bounded_body-judged :
    (max_body_bytes : ℕ) (messages : List Message) (body : List ℕ)
    → uploaded messages ≡ some body
    → read_bounded_body max_body_bytes messages ≡ judged max_body_bytes body
unfolding read_bounded_body
read_bounded_body-judged n messages body h = read_messages-judged n [] messages body h
