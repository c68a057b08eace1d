-- ===== src/Overlay/Framing.antt =====
-- app/services/atomic_structure_overlay_v0.py: `_framed_digest`, with SHA-256 a parameter.
use clusy_crawler.Base.{
  ℕ, zero, suc, ◌/◌, ◌%◌, Option, none, some, List, [], ◌∷◌, ◌++◌, Text, length, ◌==◌, ltb,
  if◌then◌else◌,
}

-- `v.to_bytes(n, "big")`; `none` is an OverflowError.
unfoldable pub to_bytes : ℕ → ℕ → Option Text
to_bytes zero v = if v == 0 then some [] else none
to_bytes (suc n) v = elim (to_bytes n (v / 256)) [
  | none ↦ none
  | some high ↦ some (high ++ v % 256 ∷ [])
]

-- `domain.encode("ascii")`; `none` is a UnicodeEncodeError.
unfoldable pub encode_ascii : Text → Option Text
encode_ascii [] = some []
encode_ascii (c ∷ text) =
    let rest = encode_ascii text in
    if ltb c 128 then elim rest [ none ↦ none | some bytes ↦ some (c ∷ bytes) ] else none

-- What one part adds to the digest: its length in eight bytes, then its bytes.
unfoldable pub frame : Text → Option Text
unfolding to_bytes
frame part = elim (to_bytes 8 (length part)) [ none ↦ none | some size ↦ some (size ++ part) ]

unfoldable pub frames : List Text → Option Text
unfolding frame
frames [] = some []
frames (part ∷ parts) = elim (frame part) [
  | none ↦ none
  | some first ↦ elim (frames parts) [ none ↦ none | some rest ↦ some (first ++ rest) ]
]

-- All that `digest.update` is given, joined.
unfoldable pub fed : Text → List Text → Option Text
unfolding frames encode_ascii
fed domain parts = elim (encode_ascii domain) [
  | none ↦ none
  | some domain_bytes ↦ frames (domain_bytes ∷ parts)
]

unfoldable pub framed_digest : (Text → Text) → Text → List Text → Option Text
unfolding fed
framed_digest sha256 domain parts = elim (fed domain parts) [
  | none ↦ none
  | some bytes ↦ some (sha256 bytes)
]
