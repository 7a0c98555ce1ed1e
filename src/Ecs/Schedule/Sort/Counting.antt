-- ===== src/Ecs/Schedule/Sort/Counting.antt =====
-- Schedule.cpp, `Sort`: counting the systems of a phase against the length of its order.
use oyi_engine.Prelude.{
  ℕ, zero, suc, ◌+◌, ◌≤◌, ◌<◌, ◌≡◌, refl, Bool, ◌&&◌, List, [], ◌∷◌, ◌==◌, if◌then◌else◌, ltb, leb,
  length, get_or, count, arith,
}
use oyi_engine.Ecs.Schedule.{System}
use oyi_engine.Ecs.Schedule.Sort.{range_from, takes_part, count_in_phase, first_ready}
use oyi_engine.Ecs.Schedule.Sort.Kahn.{takes_part-lt}

-- How often the numbers from `i` to `i + n` occur.
abbrev total : ℕ → ℕ → List ℕ → ℕ
total i zero xs = 0
total i (suc n) xs = count i xs + total (suc i) n xs

total-nil : (i n : ℕ) → total i n [] ≡ 0
total-nil i zero = refl
total-nil i (suc n) = omega (arith, total-nil (suc i) n)

total-cons :
    (i n x : ℕ) (xs : List ℕ)
    → total i n (x ∷ xs) ≡ (if leb i x && ltb x (i + n) then 1 else 0) + total i n xs
total-cons i zero x xs = ground arith
total-cons i (suc n) x xs = ground (arith, total-cons (suc i) n x xs)

total-length : (n : ℕ) (xs : List ℕ) → ((s : ℕ) → 0 < count s xs → s < n) → total 0 n xs ≡ length xs
total-length n [] h = total-nil 0 n
total-length n (x ∷ xs) h =
    ground (arith, total-cons 0 n x xs, h x, total-length n xs (λ s k. h s (omega (arith, k))))

module _ (kind : ℕ) (systems : List System) (phase : ℕ) where
  abbrev part : ℕ → Bool
  part s = takes_part kind systems phase s

  abbrev pub AtMost : List ℕ → Type 0
  AtMost xs = (s : ℕ) → count s xs ≤ (if part s then 1 else 0)

  total-le :
      (i n : ℕ) (xs : List ℕ)
      → AtMost xs
      → total i n xs ≤ count_in_phase kind systems phase (range_from i n)
  unfolding count_in_phase
  total-le i zero xs h = omega arith
  total-le i (suc n) xs h = omega (arith, h i, total-le (suc i) n xs h)

  total-eq :
      (i n : ℕ) (xs : List ℕ) (s : ℕ)
      → AtMost xs
      → total i n xs ≡ count_in_phase kind systems phase (range_from i n)
      → i ≤ s
      → s < i + n
      → count s xs ≡ (if part s then 1 else 0)
  unfolding count_in_phase
  total-eq i zero xs s h e l k = absurd (omega arith)
  total-eq i (suc n) xs s h e l k =
      ground (arith, h i, total-le (suc i) n xs h, total-eq (suc i) n xs s h)

  count_in_phase-le : (i n : ℕ) → count_in_phase kind systems phase (range_from i n) ≤ n
  unfolding count_in_phase
  count_in_phase-le i zero = omega arith
  count_in_phase-le i (suc n) = ground (arith, count_in_phase-le (suc i) n)

  abbrev pub phase_size : ℕ
  phase_size = count_in_phase kind systems phase (range_from 0 (length systems))

  length-total : (xs : List ℕ) → AtMost xs → total 0 (length systems) xs ≡ length xs
  length-total xs h =
      total-length (length systems) xs
        λ s k. ground (arith, h s, takes_part-lt kind systems phase s)

  pub order_bound : (xs : List ℕ) → AtMost xs → length xs ≤ length systems
  order_bound xs h = omega (
    arith,
    length-total xs h,
    total-le 0 (length systems) xs h,
    count_in_phase-le 0 (length systems),
  )

  -- An order as long as the phase holds each of its systems.
  pub order_complete :
      (xs : List ℕ)
      → AtMost xs
      → length xs ≡ phase_size
      → (s : ℕ) → count s xs ≡ (if part s then 1 else 0)
  order_complete xs h e s = ground (
    arith,
    h s,
    takes_part-lt kind systems phase s,
    length-total xs h,
    total-eq 0 (length systems) xs s h,
  )

  order_full :
      (i n : ℕ) (xs : List ℕ)
      → ((s : ℕ) → count s xs ≡ (if part s then 1 else 0))
      → total i n xs ≡ count_in_phase kind systems phase (range_from i n)
  unfolding count_in_phase
  order_full i zero xs h = refl
  order_full i (suc n) xs h = omega (arith, h i, order_full (suc i) n xs h)

  pub length_complete :
      (xs : List ℕ) → ((s : ℕ) → count s xs ≡ (if part s then 1 else 0)) → length xs ≡ phase_size
  length_complete xs h =
      omega (arith, length-total xs (λ s. omega (arith, h s)), order_full 0 (length systems) xs h)

  count-first_ready :
      (i n : ℕ) (indegree : List ℕ) (s : ℕ)
      → count s (first_ready kind systems phase indegree (range_from i n))
        ≡ (if leb i s && ltb s (i + n) && part s && get_or indegree s 0 == 0 then 1 else 0)
  unfolding first_ready takes_part
  count-first_ready i zero indegree s = ground arith
  count-first_ready i (suc n) indegree s = ground (arith, count-first_ready (suc i) n indegree s)

  pub first_ready_lem :
      (indegree : List ℕ) (s : ℕ)
      → count s (first_ready kind systems phase indegree (range_from 0 (length systems)))
        ≡ (if part s && get_or indegree s 0 == 0 then 1 else 0)
  first_ready_lem indegree s =
      ground
        (arith, count-first_ready 0 (length systems) indegree s, takes_part-lt kind systems phase s)
