-- ===== src/Ecs/Schedule/Sort/Before.antt =====
-- Schedule.cpp, `Sort`: the table of what precedes what holds chains of order edges only.
use oyi_engine.Prelude.{
  ℕ, ◌<◌, ◌≡◌, ◌⊎◌, inl, inr, refl, Bool, true, false, List, [], ◌∷◌, ◌==◌, if◌then◌else◌, length,
  count, arith, Bool-cases,
}
use oyi_engine.Ecs.Schedule.{System, Reach, included, predecessors}
use oyi_engine.Ecs.Schedule.Sort.{
  Progress, takes_part, precede, edge, follow, release, take_next, place, lowest_ready, range_from,
}
use oyi_engine.Ecs.Schedule.Sort.Kahn.{takes_part-included}

module _ (kind : ℕ) (systems : List System) where
  -- A chain of order edges between systems that the world includes.
  pub data Before (a : ℕ) : ℕ → Type 0 where
    link :
        {b : ℕ}
        → included kind systems a ≡ true
        → included kind systems b ≡ true
        → 0 < count a (predecessors systems b)
        → Before a b
    chain :
        {b c : ℕ}
        → Before a b
        → included kind systems c ≡ true
        → 0 < count b (predecessors systems c)
        → Before a c

  abbrev pub Sound : Reach → Type 0
  Sound reach = (a b : ℕ) → reach a b ≡ true → Before a b

  if-Sound :
      (b : Bool) (p q : Progress)
      → (b ≡ true → Sound p.reach)
      → Sound q.reach
      → Sound (if b then p else q).reach
  if-Sound true p q h k = h refl
  if-Sound false p q h k = k

  module _ (c s : ℕ) (c_in : included kind systems c ≡ true)
      (s_in : included kind systems s ≡ true) where
    precede_cases :
        (reach : Reach) (a b : ℕ)
        → precede c s reach a b ≡ true
        → (reach a b ≡ true) ⊎ ((b ≡ s) × ((a ≡ c) ⊎ (reach a c ≡ true)))
    unfolding precede
    precede_cases reach a b e = elim (Bool-cases (reach a b)) [
      | inl old ↦ inl old
      | inr new ↦ elim (Bool-cases (a == c)) [
        | inl here ↦ inr (ground arith, inl (ground arith))
        | inr there ↦ inr (ground arith, inr (ground arith))
      ]
    ]

    precede-Sound :
        (reach : Reach)
        → 0 < count c (predecessors systems s)
        → Sound reach
        → Sound (precede c s reach)
    precede-Sound reach l h a b e = elim (precede_cases reach a b e) [
      | inl old ↦ h a b old
      | inr (to, inl from) ↦ rw (to, from) (link c_in s_in l)
      | inr (to, inr from) ↦ rw to (chain (h a c from) s_in l)
    ]

    follow-Sound :
        (qs : List ℕ) (p : Progress)
        → (0 < count c qs → 0 < count c (predecessors systems s))
        → Sound p.reach
        → Sound (follow c s qs p).reach
    unfolding follow edge
    follow-Sound [] p l h = h
    follow-Sound (q ∷ qs) p l h =
        follow-Sound qs (if q == c then edge c s p else p) (λ k. l (omega arith))
          (if-Sound (q == c) (edge c s p) p (λ e. precede-Sound p.reach (l (ground arith)) h) h)

  release-Sound :
      (phase c : ℕ) (ss : List ℕ) (p : Progress)
      → included kind systems c ≡ true
      → Sound p.reach
      → Sound (release kind systems phase c ss p).reach
  unfolding release
  release-Sound phase c [] p i h = h
  release-Sound phase c (s ∷ ss) p i h =
      let qs = predecessors systems s in
      let p1 = if takes_part kind systems phase s then follow c s qs p else p in
      release-Sound phase c ss p1 i (
        if-Sound (takes_part kind systems phase s) (follow c s qs p) p
          (λ e. follow-Sound c s i (takes_part-included kind systems phase s e) qs p (λ k. k) h) h)

  pub take_next-Sound :
      (phase : ℕ) (p : Progress)
      → included kind systems (lowest_ready p.ready) ≡ true
      → Sound p.reach
      → Sound (take_next kind systems phase p).reach
  unfolding take_next place
  take_next-Sound phase p i h =
      release-Sound phase (lowest_ready p.ready) (range_from 0 (length systems))
        (place (lowest_ready p.ready) p) i h
