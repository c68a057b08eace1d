-- ===== src/Examples/OverlayRuns.antt =====
-- app/services/atomic_structure_overlay_v0.py: what `_framed_digest` is fed, on concrete inputs.
use clusy_crawler.Base.{◌≡◌, refl, none, some, List, [], ◌∷◌, Text, length, arith}
use clusy_crawler.Overlay.Framing.{to_bytes, encode_ascii, frame, frames, fed, framed_digest}
use clusy_crawler.Overlay.Unframing.{unframe, fed-unframe}

abbrev domain : Text
domain = 97 ∷ 98 ∷ []

abbrev parts : List Text
parts = (200 ∷ []) ∷ [] ∷ []

to_bytes-large : to_bytes 2 258 ≡ some (1 ∷ 2 ∷ [])
unfolding to_bytes
to_bytes-large = refl

to_bytes-overflow : to_bytes 2 65536 ≡ none
unfolding to_bytes
to_bytes-overflow = refl

fed-accented : fed (233 ∷ []) [] ≡ none
unfolding fed encode_ascii
fed-accented = refl

framed_digest-length : framed_digest (λ bytes. length bytes ∷ []) domain parts ≡ some (27 ∷ [])
unfolding framed_digest fed frames frame to_bytes encode_ascii
framed_digest-length = refl

fed-unframe_example :
    (bytes : Text) × (fed domain parts ≡ some bytes)
    × (unframe (length bytes) bytes ≡ some (domain ∷ parts))
fed-unframe_example =
    fed-unframe domain parts (omega arith, (omega arith, tt))
      (omega arith, (omega arith, (omega arith, tt)))
