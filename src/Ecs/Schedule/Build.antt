-- ===== src/Ecs/Schedule/Build.antt =====
-- Schedule.cpp, `Build`: the edges of automatically ordered resources, and the check that systems in
-- conflict are ordered. `automatic` is the mask of the resources that the schedule orders by itself.
pub mod Pairs
pub mod Edges
pub mod Rank
pub mod Result
use oyi_engine.Prelude.{
  ℕ, zero, suc, ◌≡◌, Bool, true, false, not, ◌&&◌, ◌||◌, Option, none, some, List, [], ◌∷◌, ◌++◌,
  ◌==◌, if◌then◌else◌, get_elem?, replicate, Expected, ok, fail, invalid_state,
}
use oyi_engine.Ecs.ComponentMask.{Mask}
use oyi_engine.Ecs.Schedule.{
  System, SystemDesc, Schedule, Reach, conflicts, conflicts_automatically, add_predecessor,
  phase_count,
}
use oyi_engine.Ecs.Schedule.Sort.{Sorted, sort}

-- A test on the descriptions of two systems.
unfoldable pub on_descs : List System → (SystemDesc → SystemDesc → Bool) → ℕ → ℕ → Bool
on_descs systems test a b = elim (get_elem? systems a) [
  | none ↦ false
  | some r ↦ elim (get_elem? systems b) [ none ↦ false | some t ↦ test r.desc t.desc ]
]

-- Neither system is before the other.
unfoldable pub unordered : Reach → ℕ → ℕ → Bool
unordered reach a b = not (reach a b || reach b a)

-- The table with `a` before `b`. The source writes in place, with the same result: `b` is not `a` and
-- not before `a`, so no cell that it has still to read is one that it has written.
unfoldable pub join : ℕ → ℕ → Reach → Reach
join a b reach t u = reach t u || ((t == a || reach t a) && (u == b || reach b u))

-- The systems, the table, and whether an edge was added.
pub record Linking : Type 0 where
  pub systems : List System
  pub reach : Reach
  pub added : Bool

-- The body of the loop over `i`, for `a` at `i` and `b` at `j`.
unfoldable pub link_pair : Mask → ℕ → ℕ → Linking → Linking
unfolding unordered on_descs
link_pair automatic b a l =
    if unordered l.reach a b
      && on_descs l.systems (λ x y. conflicts_automatically x y automatic) a b
    then record { systems = add_predecessor l.systems a b; reach = join a b l.reach; added = true }
    else l

-- The loop over `i`, from `j - 1` down: `seen` are the systems before `b`, the nearest first.
unfoldable pub look_back : Mask → ℕ → List ℕ → Linking → Linking
look_back automatic b [] l = l
look_back automatic b (a ∷ seen) l = look_back automatic b seen (link_pair automatic b a l)

-- The loop over `j`, and the loop over the phases.
unfoldable pub link_order : Mask → List ℕ → List ℕ → Linking → Linking
link_order automatic seen [] l = l
link_order automatic seen (b ∷ rest) l =
    link_order automatic (b ∷ seen) rest (look_back automatic b seen l)

unfoldable pub link_orders : Mask → List (List ℕ) → Linking → Linking
link_orders automatic [] l = l
link_orders automatic (order ∷ orders) l =
    link_orders automatic orders (link_order automatic [] order l)

-- The first pair of systems in conflict without an order: the loop over `j`, the loop over `i`, and
-- the loop over the phases.
unfoldable pub conflict_with : List System → Reach → ℕ → List ℕ → Option (ℕ × ℕ)
unfolding on_descs unordered
conflict_with systems reach a [] = none
conflict_with systems reach a (b ∷ bs) =
    let rest = conflict_with systems reach a bs in
    if on_descs systems conflicts a b && unordered reach a b then some (a, b) else rest

unfoldable pub conflict_in : List System → Reach → List ℕ → Option (ℕ × ℕ)
conflict_in systems reach [] = none
conflict_in systems reach (a ∷ bs) = elim (conflict_with systems reach a bs) [
  | some pair ↦ some pair
  | none ↦ conflict_in systems reach bs
]

unfoldable pub find_conflict : List System → Reach → List (List ℕ) → Option (ℕ × ℕ)
find_conflict systems reach [] = none
find_conflict systems reach (order ∷ orders) = elim (conflict_in systems reach order) [
  | some pair ↦ some pair
  | none ↦ find_conflict systems reach orders
]

-- The check of the conflicts, on the orders that are final.
unfoldable pub finish : Schedule → Expected (Unit {0}) × Schedule
finish s = elim (find_conflict s.systems s.reach s.order) [
  | none ↦ (ok tt, record s { built = true })
  | some pair ↦
      (fail invalid_state, record s { last_conflict = pair; order = replicate phase_count [] })
]

-- The tables of the schedule that `Sort` has written.
unfoldable pub with_sorted : Schedule → Sorted → Schedule
with_sorted s t = record s { order = t.orders; order_index = t.order_index; reach = t.reach }

unfoldable pub link_schedule : Mask → Schedule → Sorted → Linking
link_schedule automatic s t =
    link_orders automatic t.orders (record { systems = s.systems; reach = t.reach; added = false })

-- The rest of `Build` after the edges are added: the order is derived again if there are any.
unfoldable pub resort : ℕ → Linking → Schedule → Option (Expected (Unit {0}) × Schedule)
resort kind l s =
    let again : Option (Expected (Unit {0}) × Schedule) =
      elim (sort kind l.systems s.order s.order_index) [
        | none ↦ none
        | some (fail e, t) ↦ some (fail e, with_sorted (record s { systems = l.systems }) t)
        | some (ok _, t) ↦ some (finish (with_sorted (record s { systems = l.systems }) t))
      ] in
    if l.added then again else some (finish (record s { systems = l.systems; reach = l.reach }))

-- `Build`; `none` means that the fuel of `Sort` ran out.
unfoldable pub build : ℕ → Mask → Schedule → Option (Expected (Unit {0}) × Schedule)
unfolding link_schedule resort finish with_sorted
build kind automatic s =
    let sorted : Option (Expected (Unit {0}) × Schedule) =
      elim (sort kind s.systems s.order s.order_index) [
        | none ↦ none
        | some (fail e, t) ↦ some (fail e, with_sorted s t)
        | some (ok _, t) ↦ resort kind (link_schedule automatic s t) (with_sorted s t)
      ] in
    if s.built then some (fail invalid_state, s) else sorted
