-- ===== src/Base/Dict.antt =====
-- Python's `dict`: an association list in insertion order, with at most one entry for a key.
use clusy_crawler.Base.Lists.{length}
use clusy_crawler.Base.Tests.{if◌then◌else◌, Bool-cases}
use Prim.Native.Nat.{ℕ, suc, ◌+◌}
use mathlib.Core.Path.{◌≡◌, refl, sym, subst}
use mathlib.Core.Logic.{◌↔◌, inl, inr}
use mathlib.Core.Bool.{Bool, true, false}
use mathlib.Core.List.{List, [], ◌∷◌}
use mathlib.Core.Option.{Option, none, some}
use native.Mathlib.Omega.{arith}

-- A key's `==`.
pub record Eq (K : Type 0) : Type 0 where
  pub beq : K → K → Bool
  pub beq_iff : (a b : K) → (beq a b ≡ true) ↔ (a ≡ b)

module _ {K V : Type 0} ⦃e : Eq K⦄ where
  -- d.get(k)
  unfoldable pub get : K → List (K × V) → Option V
  get k [] = none
  get k ((j, v) ∷ m) = if e.beq j k then some v else get k m

  -- d[k] = v
  unfoldable pub put : K → V → List (K × V) → List (K × V)
  put k v [] = (k, v) ∷ []
  put k v ((j, w) ∷ m) = if e.beq j k then (j, v) ∷ m else (j, w) ∷ put k v m

  -- d.pop(k, None)
  unfoldable pub remove : K → List (K × V) → List (K × V)
  remove k [] = []
  remove k ((j, w) ∷ m) = if e.beq j k then m else (j, w) ∷ remove k m

  pub get-put :
      (k j : K) (v : V) (m : List (K × V))
      → get j (put k v m) ≡ (if e.beq k j then some v else get j m)
  unfolding get put
  get-put k j v [] = refl
  get-put k j v ((i, w) ∷ m) =
      ground (arith, e.beq_iff k j, e.beq_iff i k, e.beq_iff i j, get-put k j v m)

  pub get-put_self : (k : K) (v : V) (m : List (K × V)) → get k (put k v m) ≡ some v
  get-put_self k v m = ground (arith, get-put k k v m, e.beq_iff k k)

  pub length-put-none :
      (k : K) (v : V) (m : List (K × V)) → get k m ≡ none → length (put k v m) ≡ suc (length m)
  unfolding get put
  length-put-none k v [] h = refl
  length-put-none k v ((j, w) ∷ m) h = ground (arith, length-put-none k v m)

  pub length-put-some :
      (k : K) (v w : V) (m : List (K × V)) → get k m ≡ some w → length (put k v m) ≡ length m
  unfolding get put
  length-put-some k v w [] h = cc
  length-put-some k v w ((j, u) ∷ m) h = ground (arith, length-put-some k v w m)

  -- The sum of a measure of the values.
  unfoldable pub total : (V → ℕ) → List (K × V) → ℕ
  total f [] = 0
  total f ((k, v) ∷ m) = f v + total f m

  pub total-put-none :
      (f : V → ℕ) (k : K) (v : V) (m : List (K × V))
      → get k m ≡ none
      → total f (put k v m) ≡ total f m + f v
  unfolding get put total
  total-put-none f k v [] h = omega arith
  total-put-none f k v ((j, w) ∷ m) h = ground (arith, total-put-none f k v m)

  pub total-put-some :
      (f : V → ℕ) (k : K) (v w : V) (m : List (K × V))
      → get k m ≡ some w
      → total f (put k v m) + f w ≡ total f m + f v
  unfolding get put total
  total-put-some f k v w [] h = cc
  total-put-some f k v w ((j, u) ∷ m) h = ground (arith, total-put-some f k v w m)

  -- A property of every key with its value.
  abbrev pub Every : (K → V → Type 0) → List (K × V) → Type 0
  Every P [] = Unit {0}
  Every P ((k, v) ∷ m) = P k v × Every P m

  pub Every-get :
      (P : K → V → Type 0) (k : K) (v : V) (m : List (K × V)) → Every P m → get k m ≡ some v → P k v
  unfolding get
  Every-get P k v [] h q = cc
  Every-get P k v ((j, w) ∷ m) h q = elim (Bool-cases (e.beq j k)) [
    | inl hit ↦
        let same : w ≡ v = ground arith in
        subst (λ u. P k u) same (subst (λ i. P i w) ((e.beq_iff j k).0 hit) h.0)
    | inr miss ↦ Every-get P k v m h.1 (rw miss at q)
  ]

  pub Every-put :
      (P : K → V → Type 0) (k : K) (v : V) (m : List (K × V))
      → Every P m
      → P k v
      → Every P (put k v m)
  unfolding put
  Every-put P k v [] h q = (q, tt)
  Every-put P k v ((j, w) ∷ m) h q = elim (Bool-cases (e.beq j k)) [
    | inl hit ↦ rw hit (subst (λ i. P i v) (sym ((e.beq_iff j k).0 hit)) q, h.1)
    | inr miss ↦ rw miss (h.0, Every-put P k v m h.1 q)
  ]

  pub Every-mono :
      (P Q : K → V → Type 0) (m : List (K × V))
      → ((k : K) (v : V) → P k v → Q k v)
      → Every P m
      → Every Q m
  Every-mono P Q [] f h = tt
  Every-mono P Q ((k, v) ∷ m) f h = (f k v h.0, Every-mono P Q m f h.1)

  -- What was at a key is still there, changed along `R`.
  abbrev pub Tracks : (V → V → Type 0) → List (K × V) → List (K × V) → Type 0
  Tracks R m m' = (k : K) (v : V) → get k m ≡ some v → (w : V) × (get k m' ≡ some w) × R v w

  pub Tracks-refl : (R : V → V → Type 0) (m : List (K × V)) → ((v : V) → R v v) → Tracks R m m
  Tracks-refl R m r k v q = (v, q, r v)

  pub Tracks-trans :
      (R : V → V → Type 0) (a b c : List (K × V))
      → ((u v w : V) → R u v → R v w → R u w)
      → Tracks R a b
      → Tracks R b c
      → Tracks R a c
  Tracks-trans R a b c t f g k u q =
      let (v, q', r) = f k u q in let (w, q'', s) = g k v q' in (w, q'', t u v w r s)

  -- Writing a related value, or any value at a key that is not there.
  pub Tracks-put :
      (R : V → V → Type 0) (k : K) (v : V) (m : List (K × V))
      → ((w : V) → R w w)
      → ((w : V) → get k m ≡ some w → R w v)
      → Tracks R m (put k v m)
  Tracks-put R k v m r h j w q = elim (Bool-cases (e.beq k j)) [
    | inl hit ↦ (
      v,
      rw (get-put, hit) refl,
      h w (subst (λ i. get i m ≡ some w) (sym ((e.beq_iff k j).0 hit)) q),
    )
    | inr miss ↦ (w, rw (get-put, miss) q, r w)
  ]

  -- No key stands twice.
  abbrev pub KeysDistinct : List (K × V) → Type 0
  KeysDistinct [] = Unit {0}
  KeysDistinct ((k, v) ∷ m) = (get k m ≡ none) × KeysDistinct m

  get-put_ne :
      (k j : K) (v : V) (m : List (K × V))
      → get j m ≡ none
      → e.beq k j ≡ false
      → get j (put k v m) ≡ none
  get-put_ne k j v m h n = rw (get-put, n) h

  pub put-KeysDistinct :
      (k : K) (v : V) (m : List (K × V)) → KeysDistinct m → KeysDistinct (put k v m)
  unfolding put get
  put-KeysDistinct k v [] h = (refl, tt)
  put-KeysDistinct k v ((j, w) ∷ m) h = elim (Bool-cases (e.beq j k)) [
    | inl hit ↦ rw hit h
    | inr miss ↦ rw miss (
      get-put_ne k j v m h.0 (ground (arith, e.beq_iff j k, e.beq_iff k j)),
      put-KeysDistinct k v m h.1,
    )
  ]
