-- ===== src/Ecs/Schedule/Build/Pairs.antt =====
-- Schedule.cpp, `Build`: the search for two systems in conflict that are not ordered.
use oyi_engine.Prelude.{
  ℕ, zero, suc, ◌<◌, ◌≡◌, inl, inr, refl, Bool, true, false, ◌&&◌, List, [], ◌∷◌, none, some,
  get_elem?, count, arith, Option-cases,
}
use oyi_engine.Ecs.Schedule.{System, Reach, conflicts}
use oyi_engine.Ecs.Schedule.Build.{on_descs, unordered, conflict_with, conflict_in, find_conflict}

module _ (systems : List System) (reach : Reach) where
  abbrev pub in_conflict : ℕ → ℕ → Bool
  in_conflict a b = on_descs systems conflicts a b && unordered reach a b

  -- Of two systems of the order, the first with the second.
  abbrev pub IsFree : List ℕ → Type 0
  IsFree order =
      (i j a b : ℕ)
      → i < j
      → get_elem? order i ≡ some a
      → get_elem? order j ≡ some b
      → in_conflict a b ≡ false

  conflict_with-none :
      (a : ℕ) (bs : List ℕ) (j b : ℕ)
      → conflict_with systems reach a bs ≡ none
      → get_elem? bs j ≡ some b
      → in_conflict a b ≡ false
  unfolding conflict_with
  conflict_with-none a [] j b h e = cc
  conflict_with-none a (x ∷ bs) zero b h e = ground arith
  conflict_with-none a (x ∷ bs) (suc j) b h e = ground (arith, conflict_with-none a bs j b)

  conflict_with-some :
      (a : ℕ) (bs : List ℕ) (x y : ℕ)
      → conflict_with systems reach a bs ≡ some (x, y)
      → (x ≡ a) × (0 < count y bs) × (in_conflict x y ≡ true)
  unfolding conflict_with
  conflict_with-some a [] x y h = cc
  conflict_with-some a (b ∷ bs) x y h = ground (arith, conflict_with-some a bs x y)

  conflict_in-none : (order : List ℕ) → conflict_in systems reach order ≡ none → IsFree order
  unfolding conflict_in
  conflict_in-none [] h i j a b l e f = cc
  conflict_in-none (x ∷ bs) h i zero a b l e f = absurd (omega arith)
  conflict_in-none (x ∷ bs) h zero (suc j) a b l e f = ground (arith, conflict_with-none x bs j b)
  conflict_in-none (x ∷ bs) h (suc i) (suc j) a b l e f =
      conflict_in-none bs (ground arith) i j a b (omega arith) e f

  conflict_in-some :
      (order : List ℕ) (x y : ℕ)
      → conflict_in systems reach order ≡ some (x, y)
      → (0 < count x order) × (0 < count y order) × (in_conflict x y ≡ true)
  unfolding conflict_in
  conflict_in-some [] x y h = cc
  conflict_in-some (a ∷ bs) x y h =
      ground (arith, conflict_in-some bs x y, conflict_with-some a bs x y)

  pub find_conflict-none :
      (orders : List (List ℕ)) (phase : ℕ) (order : List ℕ)
      → find_conflict systems reach orders ≡ none
      → get_elem? orders phase ≡ some order
      → IsFree order
  unfolding find_conflict
  find_conflict-none [] phase order h e = cc
  find_conflict-none (o ∷ orders) zero order h e =
      let same : o ≡ order = ground arith in conflict_in-none order (ground (arith, same))
  find_conflict-none (o ∷ orders) (suc phase) order h e =
      find_conflict-none orders phase order (ground arith) e

  -- The pair that is reported stands in one order, and is in conflict.
  pub find_conflict-some :
      (orders : List (List ℕ)) (x y : ℕ)
      → find_conflict systems reach orders ≡ some (x, y)
      → (phase : ℕ) × (order : List ℕ) × (get_elem? orders phase ≡ some order)
        × (0 < count x order)
        × (0 < count y order)
        × (in_conflict x y ≡ true)
  unfolding find_conflict
  find_conflict-some [] x y h = cc
  find_conflict-some (o ∷ orders) x y h = elim (Option-cases (conflict_in systems reach o)) [
    | inl e ↦
        let (phase, order, at, x_in, y_in, found) = find_conflict-some orders x y (ground arith) in
        (suc phase, order, at, x_in, y_in, found)
    | inr (pair, e) ↦
        let (x_in, y_in, found) = conflict_in-some o x y (ground arith) in
        (0, o, refl, x_in, y_in, found)
  ]
