-- ===== src/Ecs/EntityRegistry.antt =====
-- engine/oyi_ecs/src/oyi_ecs/EntityRegistry.cpp and its header: entity handles with generations,
-- and the location of each live entity. `none` stands for what the source excludes by an
-- assertion or by the preconditions of `std::vector`.
pub mod Invariant
pub mod Frame
pub mod Stale
pub mod Table
mod Tests
use oyi_engine.Prelude.{
  ℕ, zero, suc, ◌+◌, ◌-◌, ◌%◌, ◌^◌, Bool, true, false, not, ◌&&◌, Option, none, some, List, [], ◌∷◌,
  ◌++◌, map, ◌==◌, if◌then◌else◌, length, get_elem?, set,
}
use oyi_engine.Core.Handle
use oyi_engine.Core.Handle.{Handle}

-- `kNoArchetype`
abbrev pub no_archetype : ℕ
no_archetype = 0xffff_ffff

-- `EntityLocation`
pub record Location : Type 0 where
  pub archetype : ℕ
  pub chunk : ℕ
  pub row : ℕ

-- `EntityLocation{}`
abbrev pub nowhere : Location
nowhere = record { archetype = no_archetype; chunk = 0; row = 0 }

pub record Slot : Type 0 where
  pub generation : ℕ
  pub alive : Bool
  pub location : Location

-- `Slot{}`
abbrev pub new_slot : Slot
new_slot = record { generation = 1; alive = false; location = nowhere }

-- The head of `free_indices` is the back of the vector `mFreeIndices`.
pub record Registry : Type 0 where
  pub slots : List Slot
  pub free_indices : List ℕ
  pub alive_count : ℕ

abbrev pub word : ℕ
word = 2 ^ 32

-- The second half of `Create`: the slot at `index` comes to life.
pub revive : Registry → ℕ → Option Slot → Option (Handle × Registry)
revive r index none = none
revive r index (some slot) = some (
  record { index = index; generation = slot.generation },
  record r {
    slots = set r.slots index (record slot { alive = true; location = nowhere });
    alive_count = (r.alive_count + 1) % word;
  },
)

-- `Create`: a recycled index, or a new slot at the end.
pub create : Registry → Option (Handle × Registry)
unfolding revive
create r = elim r.free_indices [
  | index ∷ rest ↦ revive (record r { free_indices = rest }) index (get_elem? r.slots index)
  | [] ↦
      let index = length r.slots % word in
      let slots = r.slots ++ new_slot ∷ [] in
      revive (record r { slots = slots }) index (get_elem? slots index)
]

unfoldable pub matches : Option Slot → Handle → Bool
matches none e = false
matches (some slot) e = slot.alive && (slot.generation == e.generation)

-- `IsAlive`
unfoldable pub is_alive : Registry → Handle → Bool
unfolding matches
is_alive r e = Handle.is_valid e && matches (get_elem? r.slots e.index) e

-- The generation after `generation`, which skips zero on wrap-around.
unfoldable pub next_generation : ℕ → ℕ
next_generation generation = if (generation + 1) % word == 0 then 1 else (generation + 1) % word

-- What `Destroy` leaves of a slot, and of the registry.
abbrev pub buried_slot : Slot → Slot
buried_slot slot = record {
  generation = next_generation slot.generation;
  alive = false;
  location = nowhere;
}

abbrev pub buried : Registry → ℕ → Slot → Registry
buried r index slot = record {
  slots = set r.slots index (buried_slot slot);
  free_indices = index ∷ r.free_indices;
  alive_count = (r.alive_count + word - 1) % word;
}

bury : Registry → Handle → Option Slot → Option Registry
bury r e none = none
bury r e (some slot) = some (buried r e.index slot)

-- `Destroy`
pub destroy : Registry → Handle → Option Registry
unfolding is_alive bury
destroy r e = if is_alive r e then bury r e (get_elem? r.slots e.index) else none

unfoldable pub slot_location : Option Slot → Option Location
slot_location none = none
slot_location (some slot) = some slot.location

-- `GetLocation`
unfoldable pub get_location : Registry → Handle → Option Location
unfolding is_alive slot_location
get_location r e = if is_alive r e then slot_location (get_elem? r.slots e.index) else none

relocate : Registry → ℕ → Location → Option Slot → Option Registry
relocate r index location none = none
relocate r index location (some slot) =
    some (record r { slots = set r.slots index (record slot { location = location }) })

-- `SetLocation`
pub set_location : Registry → Handle → Location → Option Registry
unfolding is_alive relocate
set_location r e location =
    if is_alive r e then relocate r e.index location (get_elem? r.slots e.index) else none

-- `GetGeneration`
pub get_generation : Registry → ℕ → ℕ
get_generation r index = elim (get_elem? r.slots index) [ none ↦ 0 | some slot ↦ slot.generation ]

-- `IsIndexAlive`
pub is_index_alive : Registry → ℕ → Bool
is_index_alive r index = elim (get_elem? r.slots index) [ none ↦ false | some slot ↦ slot.alive ]

-- `Clear`
pub clear : Registry
clear = record { slots = []; free_indices = []; alive_count = 0 }

restored_slot : ℕ × Bool → Slot
restored_slot (generation, alive) = record {
  generation = generation;
  alive = alive;
  location = nowhere;
}

-- `mAliveCount` after the first loop of `Restore`.
count_alive : List (ℕ × Bool) → ℕ → ℕ
count_alive [] n = n
count_alive ((generation, alive) ∷ table) n =
    count_alive table (if alive then (n + 1) % word else n)

is_dead_row : Option (ℕ × Bool) → Bool
is_dead_row none = false
is_dead_row (some (generation, alive)) = not alive

-- The second loop of `Restore`, from the index below `n` down to zero.
push_dead : ℕ → List (ℕ × Bool) → List ℕ → List ℕ
unfolding is_dead_row
push_dead zero table free = free
push_dead (suc n) table free =
    push_dead n table (if is_dead_row (get_elem? table n) then n % word ∷ free else free)

-- `Restore`, given one generation and alive flag per index: the sizes that the source asserts to be
-- equal are so by the type. That no generation is 0 is a precondition, `IsTable` in the theorems.
pub restore : List (ℕ × Bool) → Registry
unfolding clear
restore table = record clear {
  slots = map restored_slot table;
  free_indices = push_dead (length table) table clear.free_indices;
  alive_count = count_alive table clear.alive_count;
}
