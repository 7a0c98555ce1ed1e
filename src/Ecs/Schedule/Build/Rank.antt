-- ===== src/Ecs/Schedule/Build/Rank.antt =====
-- Schedule.cpp, `Build`: the positions in the derived orders rank the systems along every edge.
use oyi_engine.Prelude.{
  ℕ, suc, ◌≤◌, ◌<◌, ◌≡◌, inl, inr, refl, sym, ap, subst, ◌∙◌, true, List, [], ◌∷◌, none, some,
  some-injective, ◌==◌, if◌then◌else◌, length, get_elem?, get_elem?-lt, count, arith, Bool-cases,
  Option-cases, All,
}
use oyi_engine.Ecs.Schedule.{System, included, in_phase, phase_count}
use oyi_engine.Ecs.Schedule.Sort.{takes_part}
use oyi_engine.Ecs.Schedule.Sort.Result.{IsWired, IsRanked, IsOrder, AllOrders}
use oyi_engine.Ecs.Schedule.Build.Edges.{IsIncreasing, InPhase}

-- The position of a number in a list.
abbrev index_of : ℕ → List ℕ → ℕ
index_of a [] = 0
index_of a (x ∷ xs) = if a == x then 0 else suc (index_of a xs)

get-index_of : (xs : List ℕ) (a : ℕ) → 0 < count a xs → get_elem? xs (index_of a xs) ≡ some a
get-index_of [] a h = absurd (omega arith)
get-index_of (x ∷ xs) a h = elim (Bool-cases (a == x)) [
  | inl e ↦ ground arith
  | inr e ↦ rw e (get-index_of xs a (ground arith))
]

IsIncreasing-shift :
    (rank rank' : ℕ → ℕ) (xs : List ℕ)
    → ((a : ℕ) → 0 < count a xs → rank a ≡ suc (rank' a))
    → IsIncreasing rank' xs
    → IsIncreasing rank xs
IsIncreasing-shift rank rank' [] h v = tt
IsIncreasing-shift rank rank' (x ∷ xs) h v = (
  λ y e. ground (arith, h x, h y, v.0 y e),
  IsIncreasing-shift rank rank' xs (λ a e. h a (omega (arith, e))) v.1,
)

IsIncreasing-index_of :
    (xs : List ℕ) → ((a : ℕ) → count a xs ≤ 1) → IsIncreasing (λ a. index_of a xs) xs
IsIncreasing-index_of [] h = tt
IsIncreasing-index_of (x ∷ xs) h = (
  λ y e. ground (arith, h x, h y),
  IsIncreasing-shift (λ a. index_of a (x ∷ xs)) (λ a. index_of a xs) xs
      (λ a e. ground (arith, h x, h a)) (IsIncreasing-index_of xs (λ a. omega (arith, h a))),
)

IsIncreasing-cong :
    (rank rank' : ℕ → ℕ) (xs : List ℕ)
    → ((a : ℕ) → 0 < count a xs → rank a ≡ rank' a)
    → IsIncreasing rank' xs
    → IsIncreasing rank xs
IsIncreasing-cong rank rank' [] h v = tt
IsIncreasing-cong rank rank' (x ∷ xs) h v = (
  λ y e. ground (arith, h x, h y, v.0 y e),
  IsIncreasing-cong rank rank' xs (λ a e. h a (omega (arith, e))) v.1,
)

All-of_get :
    {A : Type 0} (P : A → Type 0) (xs : List A)
    → ((i : ℕ) (x : A) → get_elem? xs i ≡ some x → P x)
    → All P xs
All-of_get P [] h = tt
All-of_get P (x ∷ xs) h = (h 0 x refl, All-of_get P xs (λ i. h (suc i)))

-- Every system is of one of the phases, as `AddSystem` sees to.
abbrev pub IsPhased : List System → Type 0
IsPhased systems = (phase s : ℕ) → in_phase systems phase s ≡ true → phase < phase_count

module _ (kind : ℕ) (systems : List System) (orders : List (List ℕ)) (wired : IsWired systems)
    (phased : IsPhased systems) (sized : length orders ≡ phase_count)
    (sorted : AllOrders kind systems orders) where
  -- The position of a system in the order of its phase.
  pub rank : ℕ → ℕ
  rank s = elim (get_elem? systems s) [
    | none ↦ 0
    | some r ↦ elim (get_elem? orders r.desc.phase) [ none ↦ 0 | some order ↦ index_of s order ]
  ]

  rank_lem :
      (phase s : ℕ) (order : List ℕ)
      → in_phase systems phase s ≡ true
      → get_elem? orders phase ≡ some order
      → rank s ≡ index_of s order
  unfolding rank in_phase
  rank_lem phase s order h e = elim (Option-cases (get_elem? systems s)) [
    | inl f ↦ ground arith
    | inr (r, f) ↦
        let same : r.desc.phase ≡ phase = ground arith in ground (arith, ap (get_elem? orders) same)
  ]

  pub phase_of :
      (s : ℕ) → included kind systems s ≡ true → (phase : ℕ) × (in_phase systems phase s ≡ true)
  unfolding included in_phase
  phase_of s h = elim (Option-cases (get_elem? systems s)) [
    | inl f ↦ ground arith
    | inr (r, f) ↦ (r.desc.phase, ground arith)
  ]

  pub rank-IsRanked : IsRanked kind systems rank
  unfolding takes_part
  rank-IsRanked a b a_in b_in e =
      let (phase, of) = phase_of b b_in in
      let (order, found, o) = sorted phase (phased phase b of) in
      let from = wired phase a b e of in
      let a_at = get-index_of order a (ground (arith, o.complete a)) in
      let b_at = get-index_of order b (ground (arith, o.complete b)) in
      omega (
        arith,
        rank_lem phase a order from found,
        rank_lem phase b order of found,
        o.ordered (index_of a order) (index_of b order) a b a_at b_at e,
      )

  order-InPhase :
      (phase : ℕ) (order : List ℕ) → IsOrder kind systems phase order → InPhase systems phase order
  unfolding takes_part
  order-InPhase phase order o s h = ground (arith, o.complete s)

  pub orders-increase :
      All (λ order. (phase : ℕ) × InPhase systems phase order × IsIncreasing rank order) orders
  orders-increase =
      All-of_get (λ order. (phase : ℕ) × InPhase systems phase order × IsIncreasing rank order)
        orders
        λ phase order found.
          let (order', found', o) =
            sorted phase (omega (arith, sized, get_elem?-lt orders phase found)) in
          let same : order' ≡ order = some-injective _ _ (sym found' ∙ found) in
          let v : IsOrder kind systems phase order = subst (IsOrder kind systems phase) same o in
          let inside = order-InPhase phase order v in
          (
            phase,
            inside,
            IsIncreasing-cong rank (λ a. index_of a order) order
                (λ a e. rank_lem phase a order (inside a e) found)
                (IsIncreasing-index_of order (λ a. ground (arith, v.complete a))),
          )
