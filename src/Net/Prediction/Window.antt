-- ===== src/Net/Prediction/Window.antt =====
-- Prediction.h, `InputHistory`: the ring holds the last inputs, as many as its capacity.
use native.Mathlib.Nat.{div-add-mod, mod-lt, mul-le-mul_left, mul-suc}
use oyi_engine.Prelude.{
  ℕ, zero, suc, ◌+◌, ◌*◌, ◌/◌, ◌%◌, ◌≤◌, ◌<◌, ◌≡◌, refl, subst, ◌∙◌, ◌≢◌, inl, inr, true, none,
  some, List, [], ◌∷◌, ltb, ltb→lt, ◌==◌, if◌then◌else◌, length, get_elem?, get_elem?-set,
  length-set, Bool-cases, ==_ne, arith,
}
use oyi_engine.Net.Prediction.{Inputs, holds, push, get}

-- Ticks less than one capacity apart have different slots.
slots-apart : (u t c : ℕ) → 0 < c → u < t → t < u + c → (t % c) ≢ (u % c)
slots-apart u t c pos lt near same = elim (Bool-cases (ltb (u / c) (t / c))) [
  | inl more ↦
      let next : suc (u / c) ≤ t / c = ltb→lt (u / c) (t / c) more in
      let far : c * suc (u / c) ≤ c * (t / c) = mul-le-mul_left c next in
      let size : c * suc (u / c) ≡ c * (u / c) + c = mul-suc c (u / c) in
      omega (arith, far, size, div-add-mod t c, div-add-mod u c, same)
  | inr less ↦
      let back : t / c ≤ u / c = ground (arith, less) in
      let near' : c * (t / c) ≤ c * (u / c) = mul-le-mul_left c back in
      omega (arith, near', div-add-mod t c, div-add-mod u c, same)
]

-- A ring of the size that it says.
abbrev pub IsRing : {A : Type 0} → Inputs A → Type 0
IsRing h = (0 < h.capacity) × (length h.entries ≡ h.capacity)

module _ {A : Type 0} where
  -- `Get` after `Push`: the slot of the pushed tick holds the pushed input and no other tick.
  get-push :
      (h : Inputs A) (t u : ℕ) (x : A)
      → IsRing h
      → get (push h t x) u
        ≡ (if t % h.capacity == u % h.capacity then (if t == u then some x else none) else get h u)
  unfolding get push holds
  get-push h t u x ring = ground (
    arith,
    get_elem?-set h.entries (t % h.capacity) (u % h.capacity)
        (record { value = x; tick = t; used = true })
        (omega (arith, ring.0, ring.1, mod-lt t ring.0)),
  )

  push-IsRing : (h : Inputs A) (t : ℕ) (x : A) → IsRing h → IsRing (push h t x)
  unfolding push
  push-IsRing h t x ring = (ring.0, length-set h.entries _ _ ∙ ring.1)

  push-capacity : (h : Inputs A) (t : ℕ) (x : A) → (push h t x).capacity ≡ h.capacity
  unfolding push
  push-capacity h t x = refl

  -- Inputs of consecutive ticks from `t` on.
  pub push_all : Inputs A → ℕ → List A → Inputs A
  push_all h t [] = h
  push_all h t (x ∷ xs) = push_all (push h t x) (t + 1) xs

  -- Later inputs leave a tick alone while they are less than one capacity away.
  kept :
      (h : Inputs A) (t u : ℕ) (xs : List A)
      → IsRing h
      → u < t
      → t + length xs ≤ u + h.capacity
      → get (push_all h t xs) u ≡ get h u
  unfolding push_all
  kept h t u [] ring lt near = refl
  kept h t u (x ∷ xs) ring lt near =
      let apart = ==_ne _ _ (slots-apart u t h.capacity ring.0 lt (omega (arith, near))) in
      kept (push h t x) (t + 1) u xs (push-IsRing h t x ring) (omega (arith, lt))
        (omega (arith, near, push-capacity h t x))
      ∙ get-push h t u x ring
      ∙ rw apart refl

  -- After the inputs of consecutive ticks are pushed, each of the last `capacity` ticks gives back its own
  -- input, whatever the ring held before.
  pub get-push_all :
      (h : Inputs A) (t k : ℕ) (xs : List A)
      → IsRing h
      → k < length xs
      → length xs ≤ k + h.capacity
      → get (push_all h t xs) (t + k) ≡ get_elem? xs k
  unfolding push_all
  get-push_all h t k [] ring inside last = absurd (omega (arith, inside))
  get-push_all h t zero (x ∷ xs) ring inside last =
      kept (push h t x) (t + 1) (t + 0) xs (push-IsRing h t x ring) (omega arith)
        (omega (arith, last, push-capacity h t x))
      ∙ get-push h t (t + 0) x ring
      ∙ ground arith
  get-push_all h t (suc k) (x ∷ xs) ring inside last =
      let moved : t + 1 + k ≡ t + suc k = omega arith in
      subst (λ u. get (push_all (push h t x) (t + 1) xs) u ≡ get_elem? xs k) moved
        (get-push_all (push h t x) (t + 1) k xs (push-IsRing h t x ring) (omega (arith, inside))
          (omega (arith, last, push-capacity h t x)))
