-- ===== src/Lattice/Lex/Build.antt =====
-- bench/lattice_reference/decoder.py: `append` gives each finished state its jumps.
use clusy_crawler.Base.{
  ℕ, zero, suc, ◌+◌, ◌-◌, ◌*◌, ◌≤◌, ◌<◌, ◌≡◌, refl, sym, subst, ap, ◌∙◌, inl, inr, some, List, [],
  ◌∷◌, ◌++◌, leb, ltb, length, length-append, length-drop, get_elem?, get_elem?-append_left,
  get_elem?-append_end, drop, drop-drop, drop_all, shifted_one, shifted_one-pos,
  shifted_one_mono_le, lt-shifted_one, Bool-cases, arith,
}
use clusy_crawler.Lattice.Lex.{LexNode, jump, get_or, extend_jumps}
use clusy_crawler.Lattice.Lex.Lift.{node_at, Indexes, StandsFor, jump-drop}

get_or-some :
    (default : ℕ) (jumps : List ℕ) (k n : ℕ)
    → get_elem? jumps k ≡ some n
    → get_or default jumps k ≡ n
get_or-some default [] k n h = absurd (cc h)
get_or-some default (j ∷ jumps) zero n h = cc h
get_or-some default (j ∷ jumps) (suc k) n h = get_or-some default jumps k n h

get_or-default :
    (default : ℕ) (jumps : List ℕ) (k : ℕ) → length jumps ≤ k → get_or default jumps k ≡ default
get_or-default default [] k h = refl
get_or-default default (j ∷ jumps) zero h = absurd (omega (arith, h))
get_or-default default (j ∷ jumps) (suc k) h = get_or-default default jumps k (omega (arith, h))

-- The jumps so far lead from the path over the powers of two.
record AreJumps (jumps : List ℕ) (path : List ℕ) : Type 0 where
  begun : 1 ≤ length jumps
  lead : (k : ℕ) → k < length jumps → get_elem? jumps k ≡ some (node_at (drop (shifted_one k) path))

module _ {InTable : List ℕ → Type 0} {index : List LexNode} (ix : Indexes InTable index) (j : ℕ)
    (p : List ℕ) (t : InTable p) where
  -- Every node that a jump leads to is finished.
  drop-InTable : (n : ℕ) → 0 < n → InTable (drop n (j ∷ p))
  drop-InTable zero h = absurd (omega (arith, h))
  drop-InTable (suc n) h = ix.drops n p t

  AreJumps-append :
      (jumps : List ℕ)
      → AreJumps jumps (j ∷ p)
      → AreJumps (jumps ++ node_at (drop (shifted_one (length jumps)) (j ∷ p)) ∷ []) (j ∷ p)
  AreJumps-append jumps h = record {
    begun = omega (
      arith,
      h.begun,
      length-append jumps (node_at (drop (shifted_one (length jumps)) (j ∷ p)) ∷ []),
    );
    lead = λ k lt. elim (Bool-cases (ltb k (length jumps))) [
      | inl before ↦ get_elem?-append_left jumps _ k (ground arith) ∙ h.lead k (ground arith)
      | inr last ↦
          let e : k ≡ length jumps = ground (
            arith,
            length-append jumps (node_at (drop (shifted_one (length jumps)) (j ∷ p)) ∷ []),
          ) in
          subst
            (λ i.
              get_elem? (jumps ++ node_at (drop (shifted_one (length jumps)) (j ∷ p)) ∷ []) i
              ≡ some (node_at (drop (shifted_one i) (j ∷ p))))
            (sym e) (get_elem?-append_end jumps _)
    ];
  }

  -- The jump from halfway leads as far again.
  next_jump :
      (jumps : List ℕ) (level : ℕ)
      → AreJumps jumps (j ∷ p)
      → length jumps ≡ suc level
      → shifted_one (length jumps) ≤ suc (length p)
      → (get_elem? jumps (length jumps - 1) ≡ some (node_at (drop (shifted_one level) (j ∷ p))))
        × (jump index (node_at (drop (shifted_one level) (j ∷ p))) (length jumps - 1)
            ≡ some (node_at (drop (shifted_one (length jumps)) (j ∷ p))))
  next_jump jumps level h e le =
      let back : length jumps - 1 ≡ level = omega (arith, e) in
      let twice : shifted_one (length jumps) ≡ 2 * shifted_one level = ap shifted_one e in
      let whole : shifted_one level + shifted_one level ≡ shifted_one (length jumps) =
        omega (arith, twice) in
      let u = shifted_one level in
      (
        ap (get_elem? jumps) back ∙ h.lead level (omega (arith, e)),
        ap (λ k. jump index (node_at (drop u (j ∷ p))) k) back
            ∙ jump-drop ix (drop u (j ∷ p)) level (drop-InTable u (shifted_one-pos level))
                (omega (arith, le, twice, length-drop u (j ∷ p)))
            ∙ ap (λ z. some (node_at z)) (drop-drop u u (j ∷ p) ∙ ap (λ k. drop k (j ∷ p)) whole),
      )

  -- The fuel lasts, and no power of two up to the depth is left out.
  extend_jumps-AreJumps :
      (fuel : ℕ) (jumps : List ℕ)
      → AreJumps jumps (j ∷ p)
      → length jumps ≤ suc (length p)
      → suc (length p) < fuel + length jumps
      → (js : List ℕ) × (extend_jumps fuel index (suc (length p)) jumps ≡ some js)
        × AreJumps js (j ∷ p)
        × (suc (length p) < shifted_one (length js))
  unfolding extend_jumps
  extend_jumps-AreJumps zero jumps h le f = absurd (omega (arith, le, f))
  extend_jumps-AreJumps (suc fuel) jumps h le f =
      elim (Bool-cases (leb (shifted_one (length jumps)) (suc (length p)))) [
        | inr done ↦ (jumps, rw (done, extend_jumps) refl, h, ground arith)
        | inl more ↦
            let level = length jumps - 1 in
            let e : length jumps ≡ suc level = omega (arith, h.begun) in
            let low : shifted_one (length jumps) ≤ suc (length p) = ground arith in
            let (halfway, next) = next_jump jumps level h e (ground arith) in
            let (js, ends, ok, past) =
              extend_jumps-AreJumps fuel
                (jumps ++ node_at (drop (shifted_one (length jumps)) (j ∷ p)) ∷ [])
                (AreJumps-append jumps h)
                (omega (
                  arith,
                  low,
                  lt-shifted_one (length jumps),
                  length-append jumps (node_at (drop (shifted_one (length jumps)) (j ∷ p)) ∷ []),
                ))
                (omega (
                  arith,
                  f,
                  length-append jumps (node_at (drop (shifted_one (length jumps)) (j ∷ p)) ∷ []),
                )) in
            (js, rw (more, extend_jumps, halfway, next) ends, ok, past)
      ]

  -- The loop as `append` calls it, from the jump to the parent.
  pub extend_jumps-StandsFor :
      (js : List ℕ) × (extend_jumps (suc (length p + 1)) index (length p + 1) (node_at p ∷ [])
        ≡ some js)
      × StandsFor (record { depth = length p + 1; jumps = js }) (j ∷ p)
  extend_jumps-StandsFor =
      let first : AreJumps (node_at p ∷ []) (j ∷ p) = record {
        begun = omega arith;
        lead = parent;
      } in
      let (js, ends, ok, past) =
        extend_jumps-AreJumps (suc (length p + 1)) (node_at p ∷ []) first (omega arith)
          (omega arith) in
      let deep : length p + 1 ≡ suc (length p) = omega arith in
      (
        js,
        ap (λ d. extend_jumps (suc (length p + 1)) index d (node_at p ∷ [])) deep ∙ ends,
        record {
          deep = deep;
          jumps_to = λ k le. ok.lead k (inside js k past le);
          jumps_or_zero = λ k. elim (Bool-cases (ltb k (length js))) [
            | inl within ↦ get_or-some 0 js k _ (ok.lead k (ground arith))
            | inr beyond ↦
                get_or-default 0 js k (ground arith)
                ∙ ap node_at (
                    sym (
                      drop_all (shifted_one k) (j ∷ p)
                        (omega (arith, past, shifted_one_mono_le (length js) k (ground arith)))))
          ];
        },
      )
    where
      parent :
          (k : ℕ)
          → k < 1
          → get_elem? (node_at p ∷ []) k ≡ some (node_at (drop (shifted_one k) (j ∷ p)))
      parent zero h = refl
      parent (suc k) h = absurd (omega (arith, h))

      inside :
          (js : List ℕ) (k : ℕ)
          → suc (length p) < shifted_one (length js)
          → shifted_one k ≤ suc (length p)
          → k < length js
      inside js k past le = elim (Bool-cases (ltb k (length js))) [
        | inl lt ↦ ground arith
        | inr ge ↦
            absurd (omega (arith, past, le, shifted_one_mono_le (length js) k (ground arith)))
      ]
