-- ===== src/Ecs/World/Components.antt =====
-- World.cpp: the components of an entity, and moving an entity between archetypes.
use oyi_engine.Prelude.{
  ℕ, ◌+◌, Bool, false, not, ◌&&◌, ◌||◌, Option, none, some, List, [], ◌∷◌, if◌then◌else◌, length,
  get_elem?, set, Expected, ok, fail, invalid_argument, not_found, invalid_state, already_exists,
}
use oyi_engine.Core.Handle.{Handle}
use oyi_engine.Ecs.EntityRegistry
use oyi_engine.Ecs.EntityRegistry.{Location}
use oyi_engine.Ecs.ComponentMask
use oyi_engine.Ecs.ComponentMask.{Mask}
use oyi_engine.Ecs.ComponentRegistry
use oyi_engine.Ecs.ComponentRegistry.{Bytes}
use oyi_engine.Ecs.ChunkLayout.{Layout, find_slot}
use oyi_engine.Ecs.Archetype
use oyi_engine.Ecs.Archetype.{Archetype, Chunk, Row, row_in, cell_in}
use oyi_engine.Ecs.World.{World, Memory, get_or_create_archetype, get_mark, is_locked, remove_row}

-- The archetype and the row of an entity that is alive.
pub archetype_of : World → Handle → Option Archetype
archetype_of w entity = elim (EntityRegistry.get_location w.entities entity) [
  | none ↦ none
  | some at ↦ get_elem? w.archetypes at.archetype
]

unfoldable pub row_of : World → Handle → Option Row
row_of w entity = elim (EntityRegistry.get_location w.entities entity) [
  | none ↦ none
  | some at ↦ elim (get_elem? w.archetypes at.archetype) [
    | none ↦ none
    | some archetype ↦ row_in archetype.chunks at.chunk at.row
  ]
]

-- `GetComponentMask`
pub get_component_mask : World → Handle → Option Mask
unfolding archetype_of
get_component_mask w entity = elim (archetype_of w entity) [
  | none ↦ none
  | some archetype ↦ some archetype.mask
]

-- `HasComponent`
pub has_component : World → Handle → ℕ → Bool
unfolding get_component_mask
has_component w entity type = elim (get_component_mask w entity) [
  | none ↦ false
  | some mask ↦ ComponentRegistry.is_valid type && ComponentMask.test mask type
]

-- `MoveEntity` behind `Allocate` in the target: the shared components, the location, and the row left
-- behind.
finish_move : World → Handle → Location → Row → Layout → Location → Option World
unfolding remove_row
finish_move w entity source_row source layout row = elim (get_elem? w.archetypes row.archetype) [
  | none ↦ none
  | some target ↦ elim (Archetype.copy_shared target row layout source) [
    | none ↦ none
    | some copied ↦ elim (EntityRegistry.set_location w.entities entity row) [
      | none ↦ none
      | some entities ↦
          remove_row
            (record w { entities = entities; archetypes = set w.archetypes row.archetype copied })
            source_row
    ]
  ]
]

-- `MoveEntity` into the archetype at `index`.
move_to :
    World → Handle → Location → Archetype → Row → ℕ → Bool → Option (Expected (Unit {0}) × World)
unfolding finish_move
move_to w entity source_row source row index granted = elim (get_elem? w.archetypes index) [
  | none ↦ none
  | some target ↦ elim (Archetype.allocate target granted entity w.version) [
    | fail e ↦ some (fail e, w)
    | ok (place, grown) ↦
        elim (finish_move (record w { archetypes = set w.archetypes index grown }) entity source_row
          row source.layout place) [ none ↦ none | some moved ↦ some (ok tt, moved) ]
  ]
]

-- `MoveEntity`
pub move_entity : World → Handle → Mask → Memory → Option (Expected (Unit {0}) × World)
unfolding get_or_create_archetype move_to archetype_of row_of
move_entity w entity target_mask memory = elim (EntityRegistry.get_location w.entities entity) [
  | none ↦ none
  | some source_row ↦ elim (archetype_of w entity) [
    | none ↦ none
    | some source ↦ elim (row_of w entity) [
      | none ↦ none
      | some row ↦
          let (found, made) =
            get_or_create_archetype w target_mask source.prototype memory.archetype in
          elim found [
            | fail e ↦ some (fail e, made)
            | ok index ↦ move_to made entity source_row source row index memory.chunk
          ]
    ]
  ]
]

-- `AddComponent`
pub add_component : World → Handle → ℕ → Memory → Option (Expected (Unit {0}) × World)
unfolding move_entity
add_component w entity type memory =
    if not (EntityRegistry.is_alive w.entities entity)
    then some (fail not_found, w)
    else if not (ComponentRegistry.is_registered w.infos type)
    then some (fail invalid_argument, w)
    else if is_locked (get_mark w entity)
    then some (fail invalid_state, w)
    else elim (get_component_mask w entity) [
      | none ↦ none
      | some current ↦
          if ComponentMask.test current type
          then some (fail already_exists, w)
          else move_entity w entity (ComponentMask.insert current type) memory
    ]

-- `RemoveComponent`
pub remove_component : World → Handle → ℕ → Memory → Option (Expected (Unit {0}) × World)
unfolding move_entity
remove_component w entity type memory =
    if not (EntityRegistry.is_alive w.entities entity)
    then some (fail not_found, w)
    else if is_locked (get_mark w entity)
    then some (fail invalid_state, w)
    else elim (get_component_mask w entity) [
      | none ↦ none
      | some current ↦
          if not (ComponentRegistry.is_valid type) || not (ComponentMask.test current type)
          then some (fail not_found, w)
          else move_entity w entity (ComponentMask.erase current type) memory
    ]

-- `GetComponent`: the bytes behind the pointer.
pub get_component : World → Handle → ℕ → Option Bytes
unfolding archetype_of row_of
get_component w entity type = elim (archetype_of w entity) [
  | none ↦ none
  | some archetype ↦ elim (row_of w entity) [
    | none ↦ none
    | some row ↦ cell_in archetype.layout.columns row.cells type
  ]
]

-- `IsComponentEnabled`
pub is_component_enabled : World → Handle → ℕ → Bool
unfolding archetype_of row_of
is_component_enabled w entity type = elim (archetype_of w entity) [
  | none ↦ false
  | some archetype ↦ elim (find_slot archetype.layout.types type) [
    | none ↦ false
    | some slot ↦ elim (row_of w entity) [
      | none ↦ false
      | some row ↦ elim (get_elem? row.enabled slot) [ none ↦ false | some enabled ↦ enabled ]
    ]
  ]
]

-- `SetEnabled` of a row and `SetVersion` of its chunk.
enable_in : List Chunk → Location → ℕ → Bool → ℕ → List Chunk
enable_in chunks at slot enabled version = elim (get_elem? chunks at.chunk) [
  | none ↦ chunks
  | some c ↦ elim (get_elem? c.rows at.row) [
    | none ↦ chunks
    | some row ↦ set chunks at.chunk (record c {
      versions = set c.versions slot version;
      rows = set c.rows at.row (record row { enabled = set row.enabled slot enabled });
    })
  ]
]

-- `SetComponentEnabled`
pub set_component_enabled : World → Handle → ℕ → Bool → World
unfolding enable_in
set_component_enabled w entity type enabled = elim (EntityRegistry.get_location w.entities entity) [
  | none ↦ w
  | some at ↦ elim (get_elem? w.archetypes at.archetype) [
    | none ↦ w
    | some archetype ↦ elim (find_slot archetype.layout.types type) [
      | none ↦ w
      | some slot ↦ record w {
        archetypes =
            set w.archetypes at.archetype
              (record archetype { chunks = enable_in archetype.chunks at slot enabled w.version });
      }
    ]
  ]
]

-- The sum over the archetypes in `GetStats`.
pub chunk_count : List Archetype → ℕ
chunk_count [] = 0
chunk_count (a ∷ as') = length a.chunks + chunk_count as'
