-- ===== src/Overlay/Unframing.antt =====
-- app/services/atomic_structure_overlay_v0.py: what `_framed_digest` is fed can be read back.
use clusy_crawler.Base.{
  ℕ, zero, suc, ◌/◌, ◌%◌, ◌+◌, ◌-◌, ◌*◌, ◌^◌, ◌<◌, All, ◌≤◌, ◌≡◌, refl, sym, ap, ◌∙◌, Option, none,
  some, List, [], ◌∷◌, ◌++◌, Text, length, length-append, drop, arith, Option-cases, inl, inr,
}
use mathlib.Core.List.{append_assoc}
use clusy_crawler.Overlay.Framing.{to_bytes, encode_ascii, frame, frames, fed}

module _ {ℓ} {A : Type ℓ} where
  abbrev pub take : ℕ → List A → List A
  take zero xs = []
  take (suc n) [] = []
  take (suc n) (x ∷ xs) = x ∷ take n xs

  take-append : (xs ys : List A) → take (length xs) (xs ++ ys) ≡ xs
  take-append [] ys = refl
  take-append (x ∷ xs) ys = ap (λ r. x ∷ r) (take-append xs ys)

  drop-append : (xs ys : List A) → drop (length xs) (xs ++ ys) ≡ ys
  drop-append [] ys = refl
  drop-append (x ∷ xs) ys = drop-append xs ys

-- The number that bytes spell, the most significant first.
abbrev pub from_bytes : ℕ → Text → ℕ
from_bytes high [] = high
from_bytes high (b ∷ bytes) = from_bytes (high * 256 + b) bytes

from_bytes-append :
    (high : ℕ) (bytes : Text) (b : ℕ)
    → from_bytes high (bytes ++ b ∷ []) ≡ from_bytes high bytes * 256 + b
from_bytes-append high [] b = refl
from_bytes-append high (c ∷ bytes) b = from_bytes-append (high * 256 + c) bytes b

from_bytes-to_bytes :
    (n v : ℕ) (bytes : Text)
    → to_bytes n v ≡ some bytes
    → (from_bytes 0 bytes ≡ v) × (length bytes ≡ n)
unfolding to_bytes
from_bytes-to_bytes zero v bytes h = ground arith
from_bytes-to_bytes (suc n) v bytes h = elim (Option-cases (to_bytes n (v / 256))) [
  | inl stop ↦ absurd (ground arith)
  | inr (high, known) ↦
      let before = from_bytes-to_bytes n (v / 256) high known in
      let made : high ++ v % 256 ∷ [] ≡ bytes = ground arith in
      (
        ap (from_bytes 0) (sym made) ∙ from_bytes-append 0 high (v % 256) ∙ omega (arith, before.0),
        ap length (sym made) ∙ length-append high (v % 256 ∷ []) ∙ omega (arith, before.1),
      )
]

abbrev pub cons_part : Text → Option (List Text) → Option (List Text)
cons_part part none = none
cons_part part (some parts) = some (part ∷ parts)

-- The part whose length is given, then the parts behind it.
abbrev pub split_part : (Text → Option (List Text)) → ℕ → Text → Option (List Text)
split_part others size bytes = cons_part (take size bytes) (others (drop size bytes))

-- Parts from their frames; `none` when the rounds end first.
abbrev pub unframe : ℕ → Text → Option (List Text)
unframe rounds [] = some []
unframe zero (b ∷ bytes) = none
unframe (suc rounds) (b ∷ bytes) =
    split_part (unframe rounds) (from_bytes 0 (take 8 (b ∷ bytes))) (drop 8 (b ∷ bytes))

-- A frame is read back, and the rest of the bytes with it.
frame-cases :
    (part first : Text)
    → frame part ≡ some first
    → (size : Text) × (to_bytes 8 (length part) ≡ some size) × (size ++ part ≡ first)
unfolding frame
frame-cases part first h = elim (Option-cases (to_bytes 8 (length part))) [
  | inl stop ↦ absurd (ground arith)
  | inr (size, known) ↦ (size, known, ground arith)
]

frames-cases :
    (part : Text) (parts : List Text) (bytes : Text)
    → frames (part ∷ parts) ≡ some bytes
    → (first rest : Text) × (frame part ≡ some first)
      × (frames parts ≡ some rest)
      × (first ++ rest ≡ bytes)
unfolding frames
frames-cases part parts bytes h = elim (Option-cases (frame part)) [
  | inl stop ↦ absurd (ground arith)
  | inr (first, one) ↦ elim (Option-cases (frames parts)) [
    | inl stop ↦ absurd (ground arith)
    | inr (rest, others) ↦ (first, rest, one, others, ground arith)
  ]
]

unframe-once :
    (rounds : ℕ) (size part rest : Text) (parts : List Text)
    → length size ≡ 8
    → from_bytes 0 size ≡ length part
    → unframe rounds rest ≡ some parts
    → unframe (suc rounds) (size ++ (part ++ rest)) ≡ some (part ∷ parts)
unframe-once rounds [] part rest parts eight counted others = absurd (omega (arith, eight))
unframe-once rounds (b ∷ size) part rest parts eight counted others =
    let all : Text = (b ∷ size) ++ (part ++ rest) in
    let head : take 8 all ≡ b ∷ size =
      ap (λ n. take n all) (sym eight) ∙ take-append (b ∷ size) (part ++ rest) in
    let tail : drop 8 all ≡ part ++ rest =
      ap (λ n. drop n all) (sym eight) ∙ drop-append (b ∷ size) (part ++ rest) in
    ap (λ h. split_part (unframe rounds) (from_bytes 0 h) (drop 8 all)) head
    ∙ ap (split_part (unframe rounds) (from_bytes 0 (b ∷ size))) tail
    ∙ ap (λ n. split_part (unframe rounds) n (part ++ rest)) counted
    ∙ ap (λ t. cons_part t (unframe rounds (drop (length part) (part ++ rest))))
        (take-append part rest)
    ∙ ap (λ r. cons_part part (unframe rounds r)) (drop-append part rest)
    ∙ ap (cons_part part) others

unframe-frames :
    (rounds : ℕ) (parts : List Text) (bytes : Text)
    → length bytes ≤ rounds
    → frames parts ≡ some bytes
    → unframe rounds bytes ≡ some parts
unfolding frames
unframe-frames rounds [] [] le h = refl
unframe-frames rounds [] (b ∷ bytes) le h = absurd (ground arith)
unframe-frames rounds (part ∷ parts) bytes le h =
    let (first, rest, one, others, joined) = frames-cases part parts bytes h in
    let (size, known, made) = frame-cases part first one in
    let counted = from_bytes-to_bytes 8 (length part) size known in
    let all : size ++ (part ++ rest) ≡ bytes =
      sym (append_assoc size part rest) ∙ ap (λ f. f ++ rest) made ∙ joined in
    let total : length size + (length part + length rest) ≡ length bytes =
      ap (λ n. length size + n) (sym (length-append part rest))
      ∙ sym (length-append size (part ++ rest))
      ∙ ap length all in
    let enough : length rest ≤ rounds - 1 = omega (arith, total, le, counted.1) in
    let some_round : suc (rounds - 1) ≡ rounds = omega (arith, total, le, counted.1) in
    ap (λ n. unframe n bytes) (sym some_round)
    ∙ ap (unframe (suc (rounds - 1))) (sym all)
    ∙ unframe-once (rounds - 1) size part rest parts counted.1 counted.0
        (unframe-frames (rounds - 1) parts rest enough others)

encode_ascii-same : (text bytes : Text) → encode_ascii text ≡ some bytes → bytes ≡ text
unfolding encode_ascii
encode_ascii-same [] bytes h = ground arith
encode_ascii-same (c ∷ text) bytes h = elim (Option-cases (encode_ascii text)) [
  | inl stop ↦ absurd (ground arith)
  | inr (rest, known) ↦
      let made : c ∷ rest ≡ bytes = ground arith in
      sym made ∙ ap (λ r. c ∷ r) (encode_ascii-same text rest known)
]

unframe-fed :
    (domain : Text) (parts : List Text) (bytes : Text)
    → fed domain parts ≡ some bytes
    → unframe (length bytes) bytes ≡ some (domain ∷ parts)
unfolding fed
unframe-fed domain parts bytes h = elim (Option-cases (encode_ascii domain)) [
  | inl stop ↦ absurd (ground arith)
  | inr (encoded, known) ↦
      let whole : frames (encoded ∷ parts) ≡ some bytes = ground arith in
      unframe-frames (length bytes) (encoded ∷ parts) bytes (omega arith) whole
      ∙ ap (λ d. some (d ∷ parts)) (encode_ascii-same domain encoded known)
]

to_bytes-fits : (n v : ℕ) → v < 256 ^ n → (bytes : Text) × (to_bytes n v ≡ some bytes)
unfolding to_bytes
to_bytes-fits zero v lt = ([], ground arith)
to_bytes-fits (suc n) v lt =
    let (high, known) = to_bytes-fits n (v / 256) (omega (arith, lt)) in
    (high ++ v % 256 ∷ [], rw known refl)

encode_ascii-fits : (text : Text) → All (λ c. c < 128) text → encode_ascii text ≡ some text
unfolding encode_ascii
encode_ascii-fits [] h = refl
encode_ascii-fits (c ∷ text) h =
    let rest = encode_ascii-fits text h.1 in let small = h.0 in ground arith

frame-fits : (part : Text) → length part < 256 ^ 8 → (bytes : Text) × (frame part ≡ some bytes)
unfolding frame
frame-fits part lt =
    let (size, known) = to_bytes-fits 8 (length part) lt in
    (size ++ part, ap (λ o. elim o [ none ↦ none | some size ↦ some (size ++ part) ]) known)

frames-step :
    (part first rest : Text) (parts : List Text)
    → frame part ≡ some first
    → frames parts ≡ some rest
    → frames (part ∷ parts) ≡ some (first ++ rest)
unfolding frames
frames-step part first rest parts one others = ground arith

frames-fits :
    (parts : List Text)
    → All (λ part. length part < 256 ^ 8) parts
    → (bytes : Text) × (frames parts ≡ some bytes)
unfolding frames
frames-fits [] h = ([], refl)
frames-fits (part ∷ parts) h =
    let (first, one) = frame-fits part h.0 in
    let (rest, others) = frames-fits parts h.1 in
    (first ++ rest, frames-step part first rest parts one others)

-- When the domain is ASCII, and it and each part have fewer than 2 ^ 64 bytes, what the digest is fed is some sequence of bytes from which the domain and the parts are read back, in as many rounds as it has bytes; so no two calls feed the digest the same.
pub fed-unframe :
    (domain : Text) (parts : List Text)
    → All (λ c. c < 128) domain
    → All (λ part. length part < 256 ^ 8) (domain ∷ parts)
    → (bytes : Text) × (fed domain parts ≡ some bytes)
      × (unframe (length bytes) bytes ≡ some (domain ∷ parts))
unfolding fed
fed-unframe domain parts ascii fits =
    let (bytes, framed) = frames-fits (domain ∷ parts) fits in
    let encoded = encode_ascii-fits domain ascii in
    let made : fed domain parts ≡ some bytes = ground arith in
    (bytes, made, unframe-fed domain parts bytes made)
