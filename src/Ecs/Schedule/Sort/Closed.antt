-- ===== src/Ecs/Schedule/Sort/Closed.antt =====
-- Schedule.cpp, `Sort`: the table of what precedes what holds every chain of order edges.
use oyi_engine.Prelude.{
  ℕ, zero, suc, ◌+◌, ◌≤◌, ◌<◌, ◌≡◌, ◌⊎◌, inl, inr, refl, sym, ap, subst, ◌∙◌, true, List, [], ◌∷◌,
  ◌==◌, if◌then◌else◌, length, count, arith, Bool-cases,
}
use oyi_engine.Ecs.Schedule.{System, Reach, predecessors}
use oyi_engine.Ecs.Schedule.Sort.{
  Progress, takes_part, precede, edge, follow, release, take_next, place, lowest_ready, range_from,
}

-- Everything that the first table holds, the second holds.
abbrev pub Within : Reach → Reach → Type 0
Within r t = (x y : ℕ) → r x y ≡ true → t x y ≡ true

-- `c` is before `s`, and so is all that the table has before `c`.
abbrev pub Joined : Reach → Reach → ℕ → ℕ → Type 0
Joined r t c s = (t c s ≡ true) × ((x : ℕ) → r x c ≡ true → t x s ≡ true)

module _ (c s : ℕ) where
  precede-Within : (r : Reach) → Within r (precede c s r)
  unfolding precede
  precede-Within r x y e = ground (arith, e)

  precede-Joined : (r : Reach) → Joined r (precede c s r) c s
  unfolding precede
  precede-Joined r = (ground arith, λ x e. ground (arith, e))

  precede-only : (r : Reach) (x y : ℕ) → precede c s r x y ≡ true → (r x y ≡ true) ⊎ (y ≡ s)
  unfolding precede
  precede-only r x y e = elim (Bool-cases (r x y)) [
    | inl old ↦ inl old
    | inr new ↦ inr (ground (arith, e, new))
  ]

  abbrev step : ℕ → Progress → Progress
  step q p = if q == c then edge c s p else p

  step-Within : (q : ℕ) (p : Progress) → Within p.reach (step q p).reach
  unfolding edge
  step-Within q p x y e = elim (Bool-cases (q == c)) [
    | inl here ↦ rw here (precede-Within p.reach x y e)
    | inr there ↦ rw there e
  ]

  follow-Within : (qs : List ℕ) (p : Progress) → Within p.reach (follow c s qs p).reach
  unfolding follow
  follow-Within [] p x y e = e
  follow-Within (q ∷ qs) p x y e = follow-Within qs (step q p) x y (step-Within q p x y e)

  follow-only :
      (qs : List ℕ) (p : Progress) (x y : ℕ)
      → (follow c s qs p).reach x y ≡ true
      → (p.reach x y ≡ true) ⊎ ((y ≡ s) × (0 < count c qs))
  unfolding follow edge
  follow-only [] p x y e = inl e
  follow-only (q ∷ qs) p x y e = elim (follow-only qs (step q p) x y e) [
    | inr (same, more) ↦ inr (same, omega (arith, more))
    | inl old ↦ elim (Bool-cases (q == c)) [
      | inl here ↦ elim (precede-only p.reach x y (ground (arith, old, here))) [
        | inl before ↦ inl before
        | inr same ↦ inr (same, ground (arith, here))
      ]
      | inr there ↦ inl (ground (arith, old, there))
    ]
  ]

  follow-Joined :
      (qs : List ℕ) (p : Progress) → 0 < count c qs → Joined p.reach (follow c s qs p).reach c s
  unfolding follow edge
  follow-Joined [] p h = absurd (omega arith)
  follow-Joined (q ∷ qs) p h = elim (Bool-cases (q == c)) [
    | inl here ↦
        let (one, all) = precede-Joined p.reach in
        rw (here, follow)
          (
            follow-Within qs (edge c s p) c s one,
            λ x e. follow-Within qs (edge c s p) x s (all x e),
          )
    | inr there ↦ rw (there, follow) (follow-Joined qs p (ground (arith, h, there)))
  ]

module _ (kind : ℕ) (systems : List System) (phase c : ℕ) where
  abbrev visit : ℕ → Progress → Progress
  visit s p = if takes_part kind systems phase s then follow c s (predecessors systems s) p else p

  visit-Within : (s : ℕ) (p : Progress) → Within p.reach (visit s p).reach
  visit-Within s p x y e = elim (Bool-cases (takes_part kind systems phase s)) [
    | inl part ↦ rw part (follow-Within c s (predecessors systems s) p x y e)
    | inr other ↦ rw other e
  ]

  visit-only :
      (s : ℕ) (p : Progress) (x y : ℕ)
      → (visit s p).reach x y ≡ true
      → (p.reach x y ≡ true)
        ⊎ ((takes_part kind systems phase y ≡ true) × (0 < count c (predecessors systems y)))
  visit-only s p x y e = elim (Bool-cases (takes_part kind systems phase s)) [
    | inl part ↦ elim (follow-only c s (predecessors systems s) p x y (ground (arith, e, part))) [
      | inl old ↦ inl old
      | inr (same, edge) ↦ inr (
        ap (takes_part kind systems phase) same ∙ part,
        subst (λ z. 0 < count c (predecessors systems z)) (sym same) edge,
      )
    ]
    | inr other ↦ inl (ground (arith, e, other))
  ]

  release-Within :
      (ss : List ℕ) (p : Progress) → Within p.reach (release kind systems phase c ss p).reach
  unfolding release
  release-Within [] p x y e = e
  release-Within (s ∷ ss) p x y e = release-Within ss (visit s p) x y (visit-Within s p x y e)

  release-only :
      (ss : List ℕ) (p : Progress) (x y : ℕ)
      → (release kind systems phase c ss p).reach x y ≡ true
      → (p.reach x y ≡ true)
        ⊎ ((takes_part kind systems phase y ≡ true) × (0 < count c (predecessors systems y)))
  unfolding release
  release-only [] p x y e = inl e
  release-only (s ∷ ss) p x y e = elim (release-only ss (visit s p) x y e) [
    | inl old ↦ visit-only s p x y old
    | inr new ↦ inr new
  ]

  release-Joined :
      (ss : List ℕ) (p : Progress) (s : ℕ)
      → 0 < count s ss
      → takes_part kind systems phase s ≡ true
      → 0 < count c (predecessors systems s)
      → Joined p.reach (release kind systems phase c ss p).reach c s
  unfolding release
  release-Joined [] p s inside part edge = absurd (omega arith)
  release-Joined (z ∷ zs) p s inside part edge = elim (Bool-cases (s == z)) [
    | inl here ↦
        let same : s ≡ z = ground (arith, here) in
        let (one, all) = follow-Joined c s (predecessors systems s) p edge in
        let visited : visit z p ≡ follow c s (predecessors systems s) p =
          ap (λ y. visit y p) (sym same) ∙ rw part refl in
        (
          release-Within zs (visit z p) c s (ap (λ (q : Progress). q.reach c s) visited ∙ one),
          λ x e.
              release-Within zs (visit z p) x s
                (ap (λ (q : Progress). q.reach x s) visited ∙ all x e),
        )
    | inr there ↦
        let (one, all) =
          release-Joined zs (visit z p) s (ground (arith, inside, there)) part edge in
        (one, λ x e. all x (visit-Within z p x c e))
  ]

count-range_from : (i n s : ℕ) → i ≤ s → s < i + n → 0 < count s (range_from i n)
count-range_from i zero s l h = absurd (omega arith)
count-range_from i (suc n) s l h = elim (Bool-cases (s == i)) [
  | inl here ↦ ground (arith, here)
  | inr there ↦ ground (arith, there, count-range_from (suc i) n s)
]

module _ (kind : ℕ) (systems : List System) (phase : ℕ) (p : Progress) where
  pub take_next-Within : Within p.reach (take_next kind systems phase p).reach
  unfolding take_next place
  take_next-Within =
      release-Within kind systems phase (lowest_ready p.ready) (range_from 0 (length systems))
        (place (lowest_ready p.ready) p)

  pub take_next-only :
      (x y : ℕ)
      → (take_next kind systems phase p).reach x y ≡ true
      → (p.reach x y ≡ true)
        ⊎ ((takes_part kind systems phase y ≡ true)
            × (0 < count (lowest_ready p.ready) (predecessors systems y)))
  unfolding take_next place
  take_next-only =
      release-only kind systems phase (lowest_ready p.ready) (range_from 0 (length systems))
        (place (lowest_ready p.ready) p)

  pub take_next-Joined :
      (s : ℕ)
      → s < length systems
      → takes_part kind systems phase s ≡ true
      → 0 < count (lowest_ready p.ready) (predecessors systems s)
      → Joined p.reach (take_next kind systems phase p).reach (lowest_ready p.ready) s
  unfolding take_next place
  take_next-Joined s small =
      release-Joined kind systems phase (lowest_ready p.ready) (range_from 0 (length systems))
        (place (lowest_ready p.ready) p) s
        (count-range_from 0 (length systems) s (omega arith) (omega (arith, small)))
