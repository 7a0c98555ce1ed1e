-- ===== src/Net/Prediction/Rollback.antt =====
-- Prediction.cpp: which ticks a history holds after a capture, and after a rollback drops the newer.
use native.Mathlib.Nat.{mod-lt}
use oyi_engine.Prelude.{
  ℕ, zero, suc, ◌%◌, ◌<◌, ◌≡◌, refl, none, some, List, [], ◌∷◌, ltb, ◌==◌, if◌then◌else◌, length,
  get_elem?, get_elem?-set, true, arith,
}
use oyi_engine.Net.Prediction.{Slot, History, holds, find, capture, drop_newer, truncate}

module _ {A : Type 0} where
  holds-dropped :
      (cleared : A) (tick i u : ℕ) (slots : List (Slot A))
      → holds (get_elem? (drop_newer cleared tick slots).0 i) u
        ≡ (if ltb tick u then none else holds (get_elem? slots i) u)
  unfolding drop_newer holds
  holds-dropped c t i u [] = ground arith
  holds-dropped c t zero u (s ∷ slots) = ground arith
  holds-dropped c t (suc i) u (s ∷ slots) = ground (arith, holds-dropped c t i u slots)

  find-capture :
      (h : History A) (t u : ℕ) (x : A)
      → 0 < h.capacity
      → length h.slots ≡ h.capacity
      → find (capture h t x) u
        ≡ (if t % h.capacity == u % h.capacity then (if t == u then some x else none) else find h u)
  unfolding find capture holds
  find-capture h t u x pos size = ground (
    arith,
    get_elem?-set h.slots (t % h.capacity) (u % h.capacity)
        (record { value = x; tick = t; used = true }) (omega (arith, size, mod-lt t pos)),
  )

  find-truncated :
      (h : History A) (cleared : A) (tick u : ℕ)
      → find (truncate cleared h tick) u ≡ (if ltb tick u then none else find h u)
  unfolding find truncate
  find-truncated h cleared tick u = holds-dropped cleared tick (u % h.capacity) u h.slots

  -- A ring of the size that it says, into which the capture of tick `t` is recorded and which is then
  -- truncated to `tick`, holds no newer tick than `tick`; it holds the new capture if `t` is not newer; and
  -- of the other ticks up to `tick` it holds what it held before, except those that share the slot of `t`.
  pub find-truncate :
      (h : History A) (cleared x : A) (t tick u : ℕ)
      → 0 < h.capacity
      → length h.slots ≡ h.capacity
      → find (truncate cleared (capture h t x) tick) u ≡ (
          if ltb tick u
          then none
          else if t % h.capacity == u % h.capacity
          then (if t == u then some x else none)
          else find h u)
  find-truncate h cleared x t tick u pos size =
      rw (find-truncated (capture h t x) cleared tick u) (rw (find-capture h t u x pos size) refl)
