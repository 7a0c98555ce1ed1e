-- ===== src/Ecs/EntityRegistry/Tests.antt =====
-- Concrete runs of the entity registry.
use oyi_engine.Prelude.{
  ◌⊎◌, ◌≤◌, ◌<◌, length, false, ℕ, zero, suc, ◌+◌, ◌≡◌, refl, Bool, true, false, none, some, List,
  [], ◌∷◌, if◌then◌else◌, get_elem?, count, inl, arith,
}
use oyi_engine.Core.Handle
use oyi_engine.Core.Handle.{Handle}
use oyi_engine.Ecs.EntityRegistry.{
  Location, nowhere, Registry, create, is_alive, destroy, get_location, set_location,
  get_generation, is_index_alive, restore, next_generation, count_alive, push_dead, is_dead_row,
  restored_slot, clear, revive, bury,
}
use oyi_engine.Ecs.EntityRegistry.Invariant.{IsValid, dead_slot}
use oyi_engine.Ecs.EntityRegistry.Frame.{create_refines, destroy_refines, set_location_refines}
use oyi_engine.Ecs.EntityRegistry.Stale.{Op, run, step, forget, stale_handle}
use oyi_engine.Ecs.EntityRegistry.Table.{IsTable, restore-IsValid, restore-lowest_first}

abbrev place : Location
place = record { archetype = 2; chunk = 0; row = 7 }

-- Index 0 is dead at generation 2; index 1 is alive at `place`.
abbrev two : Registry
two = record {
  slots =
      record { generation = 2; alive = false; location = nowhere }
      ∷ record { generation = 1; alive = true; location = place }
      ∷ [];
  free_indices = 0 ∷ [];
  alive_count = 1;
}

abbrev first : Handle
first = record { index = 0; generation = 2 }

abbrev second : Handle
second = record { index = 1; generation = 1 }

two-free : (i : ℕ) → count i two.free_indices ≡ dead_slot (get_elem? two.slots i)
two-free zero = refl
two-free (suc zero) = refl
two-free (suc (suc i)) = ground arith

two-IsValid : IsValid two
two-IsValid = record {
  size = omega arith;
  generations = ((omega arith, omega arith), ((omega arith, omega arith), tt));
  free_exact = two-free;
  counted = refl;
}

next_generation-last : next_generation 0xffff_ffff ≡ 1
unfolding next_generation
next_generation-last = refl

create_refines_example :
    (e : Handle) × (t : Registry) × (create two ≡ some (e, t))
    × IsValid t
    × (is_alive two e ≡ false)
    × (is_alive t e ≡ true)
    × (t.alive_count ≡ two.alive_count + 1)
    × ((f : Handle)
        → get_location t f ≡ (if Handle.equal e f then some nowhere else get_location two f))
create_refines_example = create_refines two two-IsValid (inl (λ e. cc))

second-is_alive : is_alive two second ≡ true
unfolding is_alive
second-is_alive = refl

destroy_refines_example :
    (t : Registry) × (destroy two second ≡ some t)
    × IsValid t
    × (is_alive t second ≡ false)
    × (t.alive_count + 1 ≡ two.alive_count)
    × ((f : Handle)
        → get_location t f ≡ (if Handle.equal second f then none else get_location two f))
destroy_refines_example = destroy_refines two second two-IsValid second-is_alive

set_location_refines_example :
    (t : Registry) × (set_location two second nowhere ≡ some t)
    × IsValid t
    × ((f : Handle) → is_alive t f ≡ is_alive two f)
    × ((f : Handle)
        → get_location t f ≡ (if Handle.equal second f then some nowhere else get_location two f))
set_location_refines_example = set_location_refines two second nowhere two-IsValid second-is_alive

-- After the second entity is destroyed, both indices are dead; the next creation recycles index 1.
abbrev emptied : Registry
emptied = record {
  slots =
      record { generation = 2; alive = false; location = nowhere }
      ∷ record { generation = 2; alive = false; location = nowhere }
      ∷ [];
  free_indices = 1 ∷ 0 ∷ [];
  alive_count = 0;
}

abbrev reused : Registry
reused = record {
  slots =
      record { generation = 2; alive = false; location = nowhere }
      ∷ record { generation = 2; alive = true; location = nowhere }
      ∷ [];
  free_indices = 0 ∷ [];
  alive_count = 1;
}

destroy-second : destroy two second ≡ some emptied
unfolding destroy is_alive next_generation bury
destroy-second = refl

run-reuse : run emptied (Op.creates ∷ []) ≡ some reused
unfolding run step forget create revive
run-reuse = refl

stale_handle_example : is_alive reused second ≡ false
stale_handle_example =
    stale_handle two second (Op.creates ∷ []) destroy-second run-reuse (omega arith)

abbrev table : List (ℕ × Bool)
table = (4, true) ∷ (7, false) ∷ (1, false) ∷ []

table-IsTable : IsTable table
table-IsTable = record {
  size = omega arith;
  generations =
      ((omega arith, omega arith), ((omega arith, omega arith), ((omega arith, omega arith), tt)));
}

restore-IsValid_example :
    IsValid (restore table)
    × ((i : ℕ) (generation : ℕ) (alive : Bool)
        → get_elem? table i ≡ some (generation, alive)
        → (get_generation (restore table) i ≡ generation)
          × (is_index_alive (restore table) i ≡ alive))
restore-IsValid_example = restore-IsValid table table-IsTable

-- What creating an entity leaves of the restored table.
abbrev recreated : Registry
recreated = record {
  slots =
      record { generation = 4; alive = true; location = nowhere }
      ∷ record { generation = 7; alive = true; location = nowhere }
      ∷ record { generation = 1; alive = false; location = nowhere }
      ∷ [];
  free_indices = 2 ∷ [];
  alive_count = 2;
}

create-restored : create (restore table) ≡ some (record { index = 1; generation = 7 }, recreated)
unfolding create restore push_dead count_alive is_dead_row restored_slot clear revive
create-restored = refl

restore-lowest_first_example :
    (((is_index_alive (restore table) 1 ≡ false) × (1 < length table)) ⊎ (1 ≡ length table))
    × ((j : ℕ) → (is_index_alive (restore table) j ≡ true) ⊎ (1 ≤ j))
restore-lowest_first_example =
    restore-lowest_first table (record { index = 1; generation = 7 }) table-IsTable create-restored
