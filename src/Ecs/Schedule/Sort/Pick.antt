-- ===== src/Ecs/Schedule/Sort/Pick.antt =====
-- Schedule.cpp, `Sort`: the vector of ready systems and its lowest entry.
use oyi_engine.Prelude.{
  ℕ, zero, suc, ◌+◌, ◌<◌, ◌≡◌, refl, List, [], ◌∷◌, ◌++◌, ◌==◌, if◌then◌else◌, ltb, length,
  length-set, get_or, set, count, arith,
}
use oyi_engine.Ecs.Schedule.Sort.{
  best_from, best_index, last_of, pop_back, lowest_ready, without_lowest,
}

pub count-push :
    (a : ℕ) (order : List ℕ) (v : ℕ)
    → count a (order ++ v ∷ []) ≡ count a order + (if a == v then 1 else 0)
count-push a [] v = omega arith
count-push a (o ∷ order) v = omega (arith, count-push a order v)

best_from-lt :
    (xs : List ℕ) (i best lowest : ℕ) → best < i → best_from xs i best lowest < i + length xs
unfolding best_from
best_from-lt [] i best lowest h = omega arith
best_from-lt (x ∷ xs) i best lowest h = ground (
  arith,
  best_from-lt xs (suc i) (if ltb x lowest then i else best) (if ltb x lowest then x else lowest),
)

count-set :
    (a : ℕ) (xs : List ℕ) (i v : ℕ)
    → i < length xs
    → count a (set xs i v) + (if a == get_or xs i 0 then 1 else 0)
      ≡ count a xs + (if a == v then 1 else 0)
count-set a [] i v h = absurd (omega arith)
count-set a (x ∷ xs) zero v h = omega arith
count-set a (x ∷ xs) (suc i) v h = omega (arith, count-set a xs i v (omega arith))

count-pop_back :
    (a : ℕ) (xs : List ℕ)
    → 0 < length xs
    → count a (pop_back xs) + (if a == last_of xs then 1 else 0) ≡ count a xs
unfolding pop_back last_of
count-pop_back a [] h = absurd (omega arith)
count-pop_back a (x ∷ []) h = omega arith
count-pop_back a (x ∷ y ∷ ys) h = omega (arith, count-pop_back a (y ∷ ys) (omega arith))

last_of-set : (xs : List ℕ) (i : ℕ) → last_of (set xs i (last_of xs)) ≡ last_of xs
unfolding last_of
last_of-set [] i = refl
last_of-set (x ∷ []) zero = refl
last_of-set (x ∷ []) (suc i) = refl
last_of-set (x ∷ y ∷ ys) zero = refl
last_of-set (x ∷ y ∷ []) (suc zero) = refl
last_of-set (x ∷ y ∷ []) (suc (suc i)) = refl
last_of-set (x ∷ y ∷ z ∷ zs) (suc zero) = last_of-set (y ∷ z ∷ zs) zero
last_of-set (x ∷ y ∷ z ∷ zs) (suc (suc i)) = last_of-set (y ∷ z ∷ zs) (suc i)

count-pop_back-set :
    (a : ℕ) (xs : List ℕ) (i : ℕ)
    → i < length xs
    → count a (pop_back (set xs i (last_of xs))) + (if a == get_or xs i 0 then 1 else 0)
      ≡ count a xs
count-pop_back-set a xs i h =
    let last = last_of-set xs i in
    let popped =
      count-pop_back a (set xs i (last_of xs)) (omega (arith, length-set xs i (last_of xs))) in
    let written = count-set a xs i (last_of xs) h in ground (arith, last, popped, written)

-- Taking the lowest system leaves the others, each as often as before.
pub count-without_lowest :
    (a x : ℕ) (xs : List ℕ)
    → count a (without_lowest (x ∷ xs)) + (if a == lowest_ready (x ∷ xs) then 1 else 0)
      ≡ count a (x ∷ xs)
unfolding without_lowest lowest_ready best_index
count-without_lowest a x xs =
    count-pop_back-set a (x ∷ xs) (best_from xs 1 0 x) (omega (arith, best_from-lt xs 1 0 x))
