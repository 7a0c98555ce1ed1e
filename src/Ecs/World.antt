-- ===== src/Ecs/World.antt =====
-- engine/oyi_ecs/src/oyi_ecs/World.cpp: entities and their components over the registry and the
-- archetypes. A function that can fail returns the result with the world afterwards, since a failed
-- call can leave an archetype behind or age an index. `none` stands for a violated assertion.
-- What the allocator answers in a call is its argument `memory`. The access log is not modelled.
pub mod Components
pub mod Agreement
pub mod Invariant
pub mod Destroy
pub mod Reserve
pub mod Layouts
pub mod Create
mod Tests
use oyi_engine.Prelude.{
  ℕ, zero, suc, ◌+◌, ◌-◌, ◌%◌, ◌^◌, Bool, true, false, not, ◌&&◌, ◌||◌, Option, none, some, List,
  [], ◌∷◌, ◌++◌, ltb, leb, ◌==◌, if◌then◌else◌, length, get_elem?, set, get_or, replicate, Expected,
  ok, fail, out_of_memory, invalid_argument, not_found, invalid_state, already_exists,
}
use oyi_engine.Core.Handle
use oyi_engine.Core.Handle.{Handle}
use oyi_engine.Ecs.EntityRegistry
use oyi_engine.Ecs.EntityRegistry.{Location, Registry, word}
use oyi_engine.Ecs.ComponentMask
use oyi_engine.Ecs.ComponentMask.{Mask}
use oyi_engine.Ecs.ComponentRegistry
use oyi_engine.Ecs.ComponentRegistry.{Bytes, Infos}
use oyi_engine.Ecs.ChunkLayout
use oyi_engine.Ecs.ChunkLayout.{Layout}
use oyi_engine.Ecs.Archetype
use oyi_engine.Ecs.Archetype.{Archetype, Row, row_in}

-- `EntityMark`
pub data Mark : Type 0 where
  no_mark prototype locked : Mark

pub record World : Type 0 where
  pub infos : Infos
  pub chunk_size : ℕ
  pub entities : Registry
  pub archetypes : List Archetype
  pub marks : List Mark
  pub version : ℕ

-- Whether memory is granted for a new archetype and for a new chunk.
pub record Memory : Type 0 where
  pub archetype : Bool
  pub chunk : Bool

pub same_flag : Bool → Bool → Bool
same_flag true b = b
same_flag false b = not b

-- The search of `GetOrCreateArchetype` and `FindArchetype`.
pub find_archetype : List Archetype → Mask → Bool → Option ℕ
unfolding same_flag
find_archetype [] mask is_prototype = none
find_archetype (a ∷ as') mask is_prototype =
    let rest = find_archetype as' mask is_prototype in
    if same_flag a.prototype is_prototype && ComponentMask.equal a.mask mask
    then some 0
    else elim rest [ none ↦ none | some i ↦ some (suc i) ]

-- `GetOrCreateArchetype`: the index of the archetype.
pub get_or_create_archetype : World → Mask → Bool → Bool → Expected ℕ × World
unfolding find_archetype
get_or_create_archetype w mask is_prototype granted =
    elim (find_archetype w.archetypes mask is_prototype) [
      | some index ↦ (ok index, w)
      | none ↦ elim (ChunkLayout.compute w.infos mask w.chunk_size) [
        | fail e ↦ (fail e, w)
        | ok layout ↦
            if granted
            then (
              ok (length w.archetypes),
              record w {
                archetypes =
                    w.archetypes
                    ++ record {
                      index = length w.archetypes % word;
                      prototype = is_prototype;
                      mask = mask;
                      layout = layout;
                      chunks = [];
                      entity_count = 0;
                    }
                      ∷ [];
              },
            )
            else (fail out_of_memory, w)
      ]
    ]

is_no_mark : Mark → Bool
is_no_mark no_mark = true
is_no_mark prototype = false
is_no_mark locked = false

-- `RememberMark`
unfoldable pub remember_mark : List Mark → ℕ → Mark → List Mark
unfolding is_no_mark
remember_mark marks index mark =
    if ltb index (length marks)
    then set marks index mark
    else if is_no_mark mark
    then marks
    else set (marks ++ replicate (index + 1 - length marks) no_mark) index mark

-- `GetMark`
unfoldable pub get_mark : World → Handle → Mark
get_mark w entity =
    if EntityRegistry.is_alive w.entities entity
    then get_or w.marks entity.index no_mark
    else no_mark

is_prototype_mark : Mark → Bool
is_prototype_mark no_mark = false
is_prototype_mark prototype = true
is_prototype_mark locked = false

pub is_locked : Mark → Bool
is_locked no_mark = false
is_locked prototype = false
is_locked locked = true

-- `SetMark`
unfoldable pub set_mark : World → Handle → Mark → Expected (Unit {0}) × World
unfolding get_mark is_prototype_mark remember_mark
set_mark w entity mark =
    if not (EntityRegistry.is_alive w.entities entity)
    then (fail not_found, w)
    else if is_prototype_mark mark || is_prototype_mark (get_mark w entity)
    then (fail invalid_argument, w)
    else (ok tt, record w { marks = remember_mark w.marks entity.index mark })

-- The end of `CreateEntityIn`, with what `Allocate` returned for the new entity.
pub place_entity :
    World
    → ℕ
    → Registry
    → Handle
    → Expected (Location × Archetype)
    → Option (Expected Handle × World)
unfolding remember_mark
place_entity w index entities entity (fail e) = elim (EntityRegistry.destroy entities entity) [
  | none ↦ none
  | some buried ↦ some (fail e, record w { entities = buried })
]
place_entity w index entities entity (ok (row, archetype)) =
    elim (EntityRegistry.set_location entities entity row) [
      | none ↦ none
      | some placed ↦ some (
        ok entity,
        record w {
          entities = placed;
          archetypes = set w.archetypes index archetype;
          marks = remember_mark w.marks entity.index no_mark;
        },
      )
    ]

-- `CreateEntityIn` behind `GetOrCreateArchetype`.
pub create_at : World → ℕ → Bool → Option (Expected Handle × World)
unfolding place_entity
create_at w index granted = elim (get_elem? w.archetypes index) [
  | none ↦ none
  | some archetype ↦ elim (EntityRegistry.create w.entities) [
    | none ↦ none
    | some (entity, entities) ↦
        place_entity w index entities entity (Archetype.allocate archetype granted entity w.version)
  ]
]

-- `CreateEntityIn`, and `CreateEntity` of a mask, which is not a prototype.
pub create_entity_in : World → Mask → Bool → Memory → Option (Expected Handle × World)
unfolding get_or_create_archetype create_at
create_entity_in w mask is_prototype memory =
    let (found, made) = get_or_create_archetype w mask is_prototype memory.archetype in
    elim found [ fail e ↦ some (fail e, made) | ok index ↦ create_at made index memory.chunk ]

pub create_entity : World → Mask → Memory → Option (Expected Handle × World)
unfolding create_entity_in
create_entity w mask memory = create_entity_in w mask false memory

-- The loop of `CreateEntity` of a list of types.
mask_of : Infos → List ℕ → Mask → Expected Mask
mask_of infos [] mask = ok mask
mask_of infos (type ∷ types) mask =
    let rest = mask_of infos types (ComponentMask.insert mask type) in
    if ComponentRegistry.is_registered infos type then rest else fail invalid_argument

pub create_entity_of : World → List ℕ → Memory → Option (Expected Handle × World)
unfolding mask_of create_entity
create_entity_of w types memory = elim (mask_of w.infos types ComponentMask.empty) [
  | fail e ↦ some (fail e, w)
  | ok mask ↦ create_entity w mask memory
]

-- `CreatePrototype`
pub create_prototype : World → Mask → Memory → Option (Expected Handle × World)
unfolding create_entity_in remember_mark
create_prototype w mask memory = elim (create_entity_in w mask true memory) [
  | none ↦ none
  | some (fail e, made) ↦ some (fail e, made)
  | some (ok entity, made) ↦
      some (ok entity, record made { marks = remember_mark made.marks entity.index prototype })
]

-- `RemoveRow`
pub remove_row : World → Location → Option World
remove_row w at = elim (get_elem? w.archetypes at.archetype) [
  | none ↦ none
  | some archetype ↦ elim (Archetype.remove archetype at w.version) [
    | none ↦ none
    | some (moved, rest) ↦
        let archetypes = set w.archetypes at.archetype rest in
        if Handle.is_valid moved
        then elim (EntityRegistry.set_location w.entities moved at) [
          | none ↦ none
          | some entities ↦ some (record w { entities = entities; archetypes = archetypes })
        ]
        else some (record w { archetypes = archetypes })
  ]
]

-- `DestroyEntity` of an entity that is alive, at its location.
destroy_at : World → Handle → Option Location → Option (Expected (Unit {0}) × World)
unfolding remove_row remember_mark
destroy_at w entity none = none
destroy_at w entity (some row) = elim (remove_row w row) [
  | none ↦ none
  | some cut ↦ elim (EntityRegistry.destroy cut.entities entity) [
    | none ↦ none
    | some entities ↦ some (
      ok tt,
      record cut { entities = entities; marks = remember_mark cut.marks entity.index no_mark },
    )
  ]
]

-- `DestroyEntity`
pub destroy_entity : World → Handle → Option (Expected (Unit {0}) × World)
unfolding destroy_at
destroy_entity w entity =
    if EntityRegistry.is_alive w.entities entity
    then destroy_at w entity (EntityRegistry.get_location w.entities entity)
    else some (fail not_found, w)
