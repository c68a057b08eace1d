-- ===== src/Robots/Glob/Meaning.antt =====
-- app/services/robots.py: the meaning of a pattern in which `*` stands for any stretch of text.
use clusy_crawler.Base.{
  ℕ, zero, suc, ◌+◌, ◌-◌, ◌≤◌, ◌≡◌, inl, inr, Bool, true, false, ◌&&◌, ◌||◌, [], ◌∷◌, ◌++◌, arith,
  Text, length, if◌then◌else◌, ◌==◌, Bool-cases,
}

abbrev pub star : ℕ
star = b'*'

-- Some suffix of the text, the text itself included, passes.
unfoldable pub any_suffix : (Text → Bool) → Text → Bool
any_suffix g [] = g []
any_suffix g (c ∷ v) = g (c ∷ v) || any_suffix g v

abbrev pub literal : ℕ → (Text → Bool) → Text → Bool
literal d g [] = false
literal d g (c ∷ v) = (d == c) && g v

-- The pattern describes the whole text.
unfoldable pub describes : Text → Text → Bool
unfolding any_suffix
describes [] [] = true
describes [] (c ∷ v) = false
describes (d ∷ p) v =
    let rest = describes p in if d == star then any_suffix rest v else literal d rest v

unfoldable pub drop : ℕ → Text → Text
drop zero v = v
drop (suc n) [] = []
drop (suc n) (c ∷ v) = drop n v

-- No `*` in the text.
abbrev pub IsPlain : Text → Type 0
IsPlain [] = Unit {0}
IsPlain (c ∷ v) = ((c == star) ≡ false) × IsPlain v

pub drop-IsPlain : (n : ℕ) (v : Text) → IsPlain v → IsPlain (drop n v)
unfolding drop
drop-IsPlain zero v h = h
drop-IsPlain (suc n) [] h = h
drop-IsPlain (suc n) (c ∷ v) h = drop-IsPlain n v h.1

pub IsPlain-append : (x : Text) (c : ℕ) → IsPlain x → (c == star) ≡ false → IsPlain (x ++ c ∷ [])
IsPlain-append [] c h k = (k, tt)
IsPlain-append (d ∷ x) c h k = (h.0, IsPlain-append x c h.1 k)

pub length-drop : (n : ℕ) (v : Text) → length (drop n v) ≡ length v - n
unfolding drop
length-drop zero v = omega arith
length-drop (suc n) [] = omega arith
length-drop (suc n) (c ∷ v) = omega (arith, length-drop n v)

pub drop-drop : (m n : ℕ) (v : Text) → drop m (drop n v) ≡ drop (n + m) v
unfolding drop
drop-drop m zero v = let e : zero + m ≡ m = omega arith in rw e
drop-drop zero (suc n) [] = let e : suc n + zero ≡ suc n = omega arith in rw e
drop-drop (suc m) (suc n) [] = let e : suc n + suc m ≡ suc (n + suc m) = omega arith in rw e
drop-drop m (suc n) (c ∷ v) =
    let e : suc n + m ≡ suc (n + m) = omega arith in rw e (drop-drop m n v)

-- `any_suffix` by the length that is dropped.
pub any_suffix-drop :
    (g : Text → Bool) (v : Text)
    → any_suffix g v ≡ true
    → (k : ℕ) × (k ≤ length v) × (g (drop k v) ≡ true)
unfolding any_suffix drop
any_suffix-drop g [] h = (0, omega arith, h)
any_suffix-drop g (c ∷ v) h = elim (Bool-cases (g (c ∷ v))) [
  | inl now ↦ (0, omega arith, now)
  | inr later ↦ let (k, b, e) = any_suffix-drop g v (rw later at h) in (suc k, omega arith, e)
]

pub drop-any_suffix :
    (g : Text → Bool) (v : Text) (k : ℕ)
    → k ≤ length v
    → g (drop k v) ≡ true
    → any_suffix g v ≡ true
unfolding any_suffix drop
drop-any_suffix g [] zero b h = h
drop-any_suffix g [] (suc k) b h = h
drop-any_suffix g (c ∷ v) zero b h = rw h
drop-any_suffix g (c ∷ v) (suc k) b h = elim (Bool-cases (g (c ∷ v))) [
  | inl now ↦ rw now
  | inr later ↦ rw later (drop-any_suffix g v k (omega arith) h)
]

-- A plain beginning of the pattern takes as many characters of the text.
pub describes-plain :
    (x p v : Text)
    → IsPlain x
    → describes (x ++ p) v ≡ true
    → (length x ≤ length v) × (describes p (drop (length x) v) ≡ true)
unfolding describes drop
describes-plain [] p v h k = (omega arith, k)
describes-plain (d ∷ x) p [] h k = absurd (ground arith)
describes-plain (d ∷ x) p (c ∷ v) h k =
    let rest : describes (x ++ p) v ≡ true = ground arith in
    let (a, b) = describes-plain x p v h.1 rest in (omega arith, b)
