-- ===== src/Lattice/Masks.antt =====
-- bench/lattice_reference/decoder.py: every ascending choice of indices has its mask in `brute_force_decode`.
use clusy_crawler.Base.{
  ℕ, zero, suc, ◌+◌, ◌*◌, ◌≤◌, ◌<◌, ◌≡◌, refl, ap, ◌∙◌, inl, inr, true, false, List, [], ◌∷◌, arith,
  ◌==◌, Bool-cases, subst, ◌/◌, shifted_one, shifted_one-pos, shifted_one_mono,
}
use clusy_crawler.Lattice.Oracle.{has_bit, selected_indices}

-- The indices stay below the bound, the last one first.
abbrev pub Descends : ℕ → List ℕ → Type 0
Descends n [] = Unit {0}
Descends n (j ∷ path) = (j < n) × Descends j path

abbrev pub mask_of : List ℕ → ℕ
mask_of [] = 0
mask_of (j ∷ path) = shifted_one j + mask_of path

has_bit-small : (k m : ℕ) → m < shifted_one k → has_bit k m ≡ false
unfolding has_bit
has_bit-small zero m h = ground arith
has_bit-small (suc k) m h = has_bit-small k (m / 2) (omega (arith, h))

has_bit-top : (k m : ℕ) → m < shifted_one k → has_bit k (shifted_one k + m) ≡ true
unfolding has_bit
has_bit-top zero m h = ground arith
has_bit-top (suc k) m h =
    let half : (2 * shifted_one k + m) / 2 ≡ shifted_one k + m / 2 = omega arith in
    rw half (has_bit-top k (m / 2) (omega (arith, h)))

has_bit-below : (i k m : ℕ) → i < k → has_bit i (shifted_one k + m) ≡ has_bit i m
unfolding has_bit
has_bit-below zero (suc k) m h = ground arith
has_bit-below (suc i) (suc k) m h =
    let half : (2 * shifted_one k + m) / 2 ≡ shifted_one k + m / 2 = omega arith in
    rw half (has_bit-below i k (m / 2) (omega (arith, h)))
has_bit-below i zero m h = absurd (omega (arith, h))

selected_indices-below :
    (n k m : ℕ) → n ≤ k → selected_indices n (shifted_one k + m) ≡ selected_indices n m
unfolding selected_indices
selected_indices-below zero k m h = refl
selected_indices-below (suc n) k m h =
    rw (has_bit-below n k m h, selected_indices-below n k m (omega (arith, h))) refl

pub mask_of-lt : (n : ℕ) (path : List ℕ) → Descends n path → mask_of path < shifted_one n
mask_of-lt n [] h = shifted_one-pos n
mask_of-lt n (j ∷ path) h = omega (arith, mask_of-lt j path h.1, shifted_one_mono j n h.0)

pub mask_of-pos : (j : ℕ) (path : List ℕ) → 0 < mask_of (j ∷ path)
mask_of-pos j path = omega (arith, shifted_one-pos j)

-- The mask of a choice selects it.
pub selected_indices-mask_of :
    (n : ℕ) (path : List ℕ) → Descends n path → selected_indices n (mask_of path) ≡ path
unfolding selected_indices
selected_indices-mask_of zero [] h = refl
selected_indices-mask_of zero (j ∷ path) h = absurd (omega (arith, h.0))
selected_indices-mask_of (suc n) [] h =
    rw (has_bit-small n 0 (shifted_one-pos n)) (selected_indices-mask_of n [] tt)
selected_indices-mask_of (suc n) (j ∷ path) h = elim (Bool-cases (j == n)) [
  | inl last ↦
      let e : j ≡ n = ground arith in
      rw e (
        rw (has_bit-top n (mask_of path) (mask_of-lt n path (subst (λ k. Descends k path) e h.1))) (
          ap (λ z. n ∷ z)
            (selected_indices-below n n (mask_of path) (omega arith)
              ∙ selected_indices-mask_of n path (subst (λ k. Descends k path) e h.1))))
  | inr below ↦
      let d : Descends n (j ∷ path) = (ground (arith, h.0), h.1) in
      rw (has_bit-small n (mask_of (j ∷ path)) (mask_of-lt n (j ∷ path) d))
        (selected_indices-mask_of n (j ∷ path) d)
]

Descends-mono : (n m : ℕ) (path : List ℕ) → n ≤ m → Descends n path → Descends m path
Descends-mono n m [] h d = tt
Descends-mono n m (j ∷ path) h d = (omega (arith, d.0), d.1)

pub selected_indices-Descends : (n m : ℕ) → Descends n (selected_indices n m)
unfolding selected_indices
selected_indices-Descends zero m = tt
selected_indices-Descends (suc n) m = elim (Bool-cases (has_bit n m)) [
  | inl set ↦ rw set (omega arith, selected_indices-Descends n m)
  | inr clear ↦
      rw clear (
        Descends-mono n (suc n) (selected_indices n m) (omega arith)
          (selected_indices-Descends n m))
]
