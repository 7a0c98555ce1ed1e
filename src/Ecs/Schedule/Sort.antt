-- ===== src/Ecs/Schedule/Sort.antt =====
-- Schedule.cpp, `Sort`: the order of each phase by Kahn's algorithm, and the table of what precedes
-- what. `range_from 0 count` are the indices of a loop from 0 to `count`.
pub mod Pick
pub mod Release
pub mod Kahn
pub mod Counting
pub mod Before
pub mod Closed
pub mod Phase
pub mod Result
use oyi_engine.Prelude.{
  ℕ, zero, suc, ◌+◌, ◌-◌, ◌^◌, ◌≡◌, Bool, true, false, not, ◌&&◌, ◌||◌, Option, none, some, List,
  [], ◌∷◌, ◌++◌, map, ◌==◌, if◌then◌else◌, ltb, length, get_elem?, get_or, set, replicate, Expected,
  ok, fail, invalid_state,
}
use oyi_engine.Ecs.Schedule.{System, Reach, included, predecessors, in_phase, phase_count}

abbrev pub range_from : ℕ → ℕ → List ℕ
range_from i zero = []
range_from i (suc n) = i ∷ range_from (suc i) n

-- A system that `Sort` puts in the order of `phase`.
unfoldable pub takes_part : ℕ → List System → ℕ → ℕ → Bool
takes_part kind systems phase s = in_phase systems phase s && included kind systems s

-- Edges from systems left out do not count.
unfoldable pub included_edges : ℕ → List System → List ℕ → ℕ
included_edges kind systems [] = 0
included_edges kind systems (p ∷ ps) =
    (if included kind systems p then 1 else 0) + included_edges kind systems ps

unfoldable pub indegrees : ℕ → List System → List ℕ
unfolding included_edges
indegrees kind systems =
    map (λ s. included_edges kind systems (predecessors systems s)) (range_from 0 (length systems))

-- The vectors of one phase, and the tables that every phase shares.
pub record Progress : Type 0 where
  pub indegree : List ℕ
  pub ready : List ℕ
  pub order : List ℕ
  pub order_index : List ℕ
  pub reach : Reach

-- The systems of the phase without edges, in registration order.
unfoldable pub first_ready : ℕ → List System → ℕ → List ℕ → List ℕ → List ℕ
first_ready kind systems phase indegree [] = []
first_ready kind systems phase indegree (s ∷ ss) =
    let rest = first_ready kind systems phase indegree ss in
    if in_phase systems phase s && get_or indegree s 0 == 0 && included kind systems s
    then s ∷ rest
    else rest

-- The index of the lowest number: `i` is the next to look at, `best` the best so far, and `lowest`
-- the number there.
unfoldable pub best_from : List ℕ → ℕ → ℕ → ℕ → ℕ
best_from [] i best lowest = best
best_from (x ∷ xs) i best lowest =
    best_from xs (suc i) (if ltb x lowest then i else best) (if ltb x lowest then x else lowest)

-- `ready[best] = ready.back(); ready.pop_back()`
unfoldable pub last_of : List ℕ → ℕ
last_of [] = 0
last_of (x ∷ []) = x
last_of (x ∷ y ∷ ys) = last_of (y ∷ ys)

unfoldable pub pop_back : List ℕ → List ℕ
pop_back [] = []
pop_back (x ∷ []) = []
pop_back (x ∷ y ∷ ys) = x ∷ pop_back (y ∷ ys)

unfoldable pub best_index : List ℕ → ℕ
best_index [] = 0
best_index (x ∷ xs) = best_from xs 1 0 x

-- `current`, and what is left of `ready`
unfoldable pub lowest_ready : List ℕ → ℕ
lowest_ready ready = get_or ready (best_index ready) 0

unfoldable pub without_lowest : List ℕ → List ℕ
without_lowest ready = pop_back (set ready (best_index ready) (last_of ready))

-- `current` precedes `s`, and so does everything that precedes `current`.
unfoldable pub precede : ℕ → ℕ → Reach → Reach
precede current s reach a b = (b == s && (a == current || reach a current)) || reach a b

-- `--indegree[s]` in 32 bits
unfoldable pub decrement : ℕ → ℕ
decrement d = if d == 0 then 2 ^ 32 - 1 else d - 1

-- One edge from `current` to `s`.
unfoldable pub edge : ℕ → ℕ → Progress → Progress
edge current s p =
    let d = decrement (get_or p.indegree s 0) in
    record p {
      reach = precede current s p.reach;
      indegree = set p.indegree s d;
      ready = if d == 0 then p.ready ++ s ∷ [] else p.ready;
    }

-- The loop over the predecessors of `s`, and the loop over the candidates `s`.
unfoldable pub follow : ℕ → ℕ → List ℕ → Progress → Progress
follow current s [] p = p
follow current s (q ∷ qs) p = follow current s qs (if q == current then edge current s p else p)

unfoldable pub release : ℕ → List System → ℕ → ℕ → List ℕ → Progress → Progress
release kind systems phase current [] p = p
release kind systems phase current (s ∷ ss) p =
    release kind systems phase current ss
      (if takes_part kind systems phase s then follow current s (predecessors systems s) p else p)

-- One round of the `while` loop.
unfoldable pub place : ℕ → Progress → Progress
place current p = record p {
  ready = without_lowest p.ready;
  order_index = set p.order_index current (length p.order);
  order = p.order ++ current ∷ [];
}

unfoldable pub take_next : ℕ → List System → ℕ → Progress → Progress
unfolding place
take_next kind systems phase p =
    let current = lowest_ready p.ready in
    release kind systems phase current (range_from 0 (length systems)) (place current p)

-- The `while` loop; `none` when the fuel runs out.
unfoldable pub drain : ℕ → ℕ → List System → ℕ → Progress → Option Progress
drain zero kind systems phase p = none
drain (suc fuel) kind systems phase p = elim p.ready [
  | [] ↦ some p
  | s ∷ ss ↦ drain fuel kind systems phase (take_next kind systems phase p)
]

-- `inPhase`
unfoldable pub count_in_phase : ℕ → List System → ℕ → List ℕ → ℕ
count_in_phase kind systems phase [] = 0
count_in_phase kind systems phase (s ∷ ss) =
    (if takes_part kind systems phase s then 1 else 0) + count_in_phase kind systems phase ss

-- What `Sort` leaves in the schedule, and the indegrees that are left.
pub record Sorted : Type 0 where
  pub orders : List (List ℕ)
  pub indegree : List ℕ
  pub order_index : List ℕ
  pub reach : Reach

unfoldable pub start_phase : ℕ → List System → ℕ → Sorted → Progress
start_phase kind systems phase t = record {
  indegree = t.indegree;
  ready = first_ready kind systems phase t.indegree (range_from 0 (length systems));
  order = [];
  order_index = t.order_index;
  reach = t.reach;
}

unfoldable pub end_phase : ℕ → Progress → Sorted → Sorted
end_phase phase p t = record {
  orders = set t.orders phase p.order;
  indegree = p.indegree;
  order_index = p.order_index;
  reach = p.reach;
}

-- Every order is cleared when one phase has a cycle.
unfoldable pub clear_orders : Sorted → Sorted
clear_orders t = record t { orders = replicate phase_count [] }

-- A round of the `while` loop places a system, so there are at most as many as there are systems.
unfoldable pub sort_phase : ℕ → List System → ℕ → Sorted → Option Progress
sort_phase kind systems phase t =
    drain (suc (length systems)) kind systems phase (start_phase kind systems phase t)

unfoldable pub sort_phases :
    ℕ → List System → List ℕ → Sorted → Option (Expected (Unit {0}) × Sorted)
sort_phases kind systems [] t = some (ok tt, t)
sort_phases kind systems (phase ∷ phases) t = elim (sort_phase kind systems phase t) [
  | none ↦ none
  | some p ↦
      elim (length p.order == count_in_phase kind systems phase (range_from 0 (length systems))) [
        | true ↦ sort_phases kind systems phases (end_phase phase p t)
        | false ↦ some (fail invalid_state, clear_orders (end_phase phase p t))
      ]
]

unfoldable pub sort :
    ℕ → List System → List (List ℕ) → List ℕ → Option (Expected (Unit {0}) × Sorted)
sort kind systems orders order_index = sort_phases kind systems (range_from 0 phase_count) (record {
  orders = orders;
  indegree = indegrees kind systems;
  order_index = order_index;
  reach = λ a b. false;
})
