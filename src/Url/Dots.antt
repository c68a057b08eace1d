-- ===== src/Url/Dots.antt =====
-- app/services/frontier.py: the segments of the path that `_remove_dot_segments` answers.
use clusy_crawler.Base.{
  ℕ, ◌≡◌, refl, sym, subst, inl, inr, Bool, true, false, ◌&&◌, not, List, [], ◌∷◌, ◌++◌, Text,
  codes, text_eq, ◌==◌, if◌then◌else◌, split_on, join, prepend, ends_with, All, All-append,
  Bool-cases,
}
use clusy_crawler.Url.Segments.{
  slash, pop_last, resolve, with_leading_slash, has_trailing_slash, remove_dot_segments,
}

-- Neither `.` nor `..`.
abbrev pub IsNoDot : Text → Type 0
IsNoDot w = (text_eq w (codes ".") ≡ false) × (text_eq w (codes "..") ≡ false)

abbrev IsSegment : Text → Type 0
IsSegment w = All (λ c. (c == slash) ≡ false) w

abbrev IsKept : Text → Type 0
IsKept w = IsNoDot w × IsSegment w

-- No segment of the path is a dot segment.
abbrev pub HasNoDots : Text → Type 0
HasNoDots path = All IsNoDot (split_on slash path)

prepend-IsSegment :
    (c : ℕ) (ws : List Text)
    → (c == slash) ≡ false
    → All IsSegment ws
    → All IsSegment (prepend c ws)
prepend-IsSegment c [] h k = ((h, tt), tt)
prepend-IsSegment c (w ∷ ws) h (k, ks) = ((h, k), ks)

split_on-IsSegment : (s : Text) → All IsSegment (split_on slash s)
unfolding split_on
split_on-IsSegment [] = (tt, tt)
split_on-IsSegment (c ∷ s) = elim (Bool-cases (c == slash)) [
  | inl e ↦ rw e (tt, split_on-IsSegment s)
  | inr e ↦ rw e (prepend-IsSegment c (split_on slash s) e (split_on-IsSegment s))
]

pop_last-IsKept : (ws : List Text) → All IsKept ws → All IsKept (pop_last ws)
unfolding pop_last
pop_last-IsKept [] h = h
pop_last-IsKept (w ∷ []) h = h
pop_last-IsKept (w ∷ v ∷ []) (h, k) = (h, tt)
pop_last-IsKept (w ∷ v ∷ u ∷ ws) (h, k) = (h, pop_last-IsKept (v ∷ u ∷ ws) k)

resolve-IsKept :
    (ws output : List Text) → All IsSegment ws → All IsKept output → All IsKept (resolve ws output)
unfolding resolve
resolve-IsKept [] output h k = k
resolve-IsKept (w ∷ ws) output (h, hs) k = elim (Bool-cases (text_eq w (codes "."))) [
  | inl e ↦ rw e (resolve-IsKept ws output hs k)
  | inr e ↦ elim (Bool-cases (text_eq w (codes ".."))) [
    | inl d ↦ rw (e, d) (resolve-IsKept ws (pop_last output) hs (pop_last-IsKept output k))
    | inr d ↦
        rw (e, d)
          (resolve-IsKept ws (output ++ w ∷ []) hs
            (All-append IsKept output (w ∷ []) k (((e, d), h), tt)))
  ]
]

split_on-segment : (w : Text) → IsSegment w → split_on slash w ≡ w ∷ []
unfolding split_on
split_on-segment [] h = refl
split_on-segment (c ∷ w) (h, hs) = rw (h, split_on-segment w hs) refl

split_on-append :
    (w s : Text) → IsSegment w → split_on slash (w ++ slash ∷ s) ≡ w ∷ split_on slash s
unfolding split_on
split_on-append [] s h = refl
split_on-append (c ∷ w) s (h, hs) = rw (h, split_on-append w s hs) refl

join-HasNoDots : (ws : List Text) → All IsKept ws → HasNoDots (join slash ws)
unfolding split_on join text_eq
join-HasNoDots [] h = ((refl, refl), tt)
join-HasNoDots (w ∷ []) ((n, s), h) = rw (split_on-segment w s) (n, tt)
join-HasNoDots (w ∷ v ∷ ws) ((n, s), h) =
    rw (split_on-append w (join slash (v ∷ ws)) s) (n, join-HasNoDots (v ∷ ws) h)

slash-HasNoDots : (s : Text) → HasNoDots s → HasNoDots (slash ∷ s)
unfolding split_on text_eq
slash-HasNoDots s h = ((refl, refl), h)

either-HasNoDots :
    (b : Bool) (s t : Text) → HasNoDots s → HasNoDots t → HasNoDots (if b then s else t)
either-HasNoDots true s t h k = h
either-HasNoDots false s t h k = k

with_leading_slash-HasNoDots : (s : Text) → HasNoDots s → HasNoDots (with_leading_slash s)
unfolding split_on text_eq
with_leading_slash-HasNoDots [] h = ((refl, refl), ((refl, refl), tt))
with_leading_slash-HasNoDots (c ∷ s) h =
    either-HasNoDots (c == slash) (c ∷ s) (slash ∷ c ∷ s) h (slash-HasNoDots (c ∷ s) h)

empty-IsNoDot : IsNoDot []
unfolding text_eq
empty-IsNoDot = (refl, refl)

prepend_nonempty : (c : ℕ) (ws : List Text) → prepend c ws ≡ [] → ⊥
prepend_nonempty c [] h = absurd (cc h)
prepend_nonempty c (w ∷ ws) h = absurd (cc h)

split_on_nonempty : (s : Text) → split_on slash s ≡ [] → ⊥
unfolding split_on
split_on_nonempty [] h = absurd (cc h)
split_on_nonempty (c ∷ s) h = elim (Bool-cases (c == slash)) [
  | inl e ↦ absurd (cc (rw e at h))
  | inr e ↦ prepend_nonempty c (split_on slash s) (rw e at h)
]

prepend-append :
    (c : ℕ) (ws vs : List Text) → (ws ≡ [] → ⊥) → prepend c (ws ++ vs) ≡ prepend c ws ++ vs
prepend-append c [] vs h = absurd (h refl)
prepend-append c (w ∷ ws) vs h = refl

split_on-trailing : (s : Text) → split_on slash (s ++ slash ∷ []) ≡ split_on slash s ++ [] ∷ []
unfolding split_on
split_on-trailing [] = refl
split_on-trailing (c ∷ s) = elim (Bool-cases (c == slash)) [
  | inl e ↦ rw (e, split_on-trailing s) refl
  | inr e ↦
      rw (e, split_on-trailing s)
        (prepend-append c (split_on slash s) ([] ∷ []) (split_on_nonempty s))
]

trailing-HasNoDots : (s : Text) → HasNoDots s → HasNoDots (s ++ slash ∷ [])
trailing-HasNoDots s h =
    subst (All IsNoDot) (sym (split_on-trailing s))
      (All-append IsNoDot (split_on slash s) ([] ∷ []) h (empty-IsNoDot, tt))

-- No segment of the path that `_remove_dot_segments` answers is `.` or `..`.
pub remove_dot_segments-HasNoDots : (path : Text) → HasNoDots (remove_dot_segments path)
unfolding remove_dot_segments
remove_dot_segments-HasNoDots path =
    let kept = resolve-IsKept (split_on slash path) [] (split_on-IsSegment path) tt in
    let normalized = with_leading_slash (join slash (resolve (split_on slash path) [])) in
    let clean =
      with_leading_slash-HasNoDots (join slash (resolve (split_on slash path) []))
        (join-HasNoDots _ kept) in
    either-HasNoDots (has_trailing_slash path && not (ends_with (codes "/") normalized))
      (normalized ++ slash ∷ []) normalized (trailing-HasNoDots normalized clean) clean
