-- ===== src/Ecs/Schedule/Tests.antt =====
-- Schedules of a few systems, and the theorems at them.
use oyi_engine.Prelude.{
  ℕ, ◌≡◌, refl, List, [], ◌∷◌, Option, some, Expected, ok, fail, invalid_state, get_or,
}
use oyi_engine.Ecs.ComponentMask
use oyi_engine.Ecs.ComponentMask.{Mask}
use oyi_engine.Ecs.Schedule.{
  SystemDesc, Schedule, empty_schedule, add_system, add_order, add_predecessor, new_system,
  is_empty, included, predecessors, in_phase, conflicts, conflicts_automatically,
}
use oyi_engine.Ecs.Schedule.Sort.{
  sort, indegrees, first_ready, sort_phases, sort_phase, drain, take_next, lowest_ready,
  without_lowest, best_index, best_from, last_of, pop_back, follow, edge, precede, decrement,
  release, takes_part, included_edges, count_in_phase, start_phase, end_phase, clear_orders,
}
use oyi_engine.Ecs.Schedule.Build.{
  build, on_descs, unordered, join, link_pair, look_back, link_order, link_orders, conflict_with,
  conflict_in, find_conflict, finish, with_sorted, link_schedule, resort,
}
use oyi_engine.Ecs.Schedule.Build.Result.{Builds}
use oyi_engine.Ecs.Schedule.Registration.{
  Registration, system, order_edge, register, register_all, build-register_all,
}

abbrev mask_of : ℕ → Mask
mask_of w = w ∷ 0 ∷ 0 ∷ 0 ∷ []

-- A system of the phase Begin that writes the components and the resources of two words.
abbrev writer : ℕ → ℕ → SystemDesc
writer components resources = record {
  name = 1 ∷ [];
  phase = 0;
  read = mask_of 0;
  write = mask_of components;
  exclude = mask_of 0;
  optional = mask_of 0;
  read_resources = mask_of 0;
  write_resources = mask_of resources;
  function = 1;
}

abbrev two_writers : List Registration
two_writers = system (writer 1 0) 255 ∷ system (writer 1 0) 255 ∷ []

abbrev ordered_writers : List Registration
ordered_writers = system (writer 1 0) 255 ∷ system (writer 1 0) 255 ∷ order_edge 1 0 ∷ []

abbrev writers_of_resource : List Registration
writers_of_resource =
    system (writer 1 4) 255
    ∷ system (writer 2 4) 255
    ∷ system (writer 4 4) 255
    ∷ order_edge 2 1
    ∷ []

abbrev in_a_cycle : List Registration
in_a_cycle =
    system (writer 1 0) 255 ∷ system (writer 1 0) 255 ∷ order_edge 1 0 ∷ order_edge 0 1 ∷ []

-- The outcome and the order of the phase Begin.
abbrev built_order : List Registration → Option (Expected (Unit {0}) × List ℕ)
built_order rs = elim (build 0 (mask_of 4) (register_all empty_schedule rs)) [
  | Option.none ↦ Option.none
  | some (r, s) ↦ some (r, get_or s.order 0 [])
]

-- An unordered pair, an ordered pair, a resource that the schedule orders by itself, and a cycle.
built_orders :
    (built_order two_writers ≡ some (fail invalid_state, []))
    × (built_order ordered_writers ≡ some (ok tt, 1 ∷ 0 ∷ []))
    × (built_order writers_of_resource ≡ some (ok tt, 0 ∷ 2 ∷ 1 ∷ []))
    × (built_order in_a_cycle ≡ some (fail invalid_state, []))
unfolding build register_all register add_system add_order add_predecessor new_system is_empty sort
    empty_schedule indegrees first_ready sort_phases sort_phase drain take_next lowest_ready
    without_lowest best_index best_from last_of pop_back follow edge precede decrement release
    takes_part included_edges count_in_phase start_phase end_phase clear_orders included
    predecessors in_phase on_descs unordered join link_pair look_back link_order link_orders
    conflict_with conflict_in find_conflict finish with_sorted link_schedule resort conflicts
    conflicts_automatically ComponentMask.intersects ComponentMask.both
built_orders = (refl, refl, refl, refl)

build-register_all_example :
    (r : Expected (Unit {0})) × (u : Schedule) × (build 0
        (mask_of 4)
        (register_all empty_schedule writers_of_resource)
      ≡ some (r, u))
    × Builds 0 (mask_of 4) (register_all empty_schedule writers_of_resource) u r
build-register_all_example = build-register_all 0 (mask_of 4) writers_of_resource
