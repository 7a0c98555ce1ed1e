-- ===== src/Ecs/World/Tests.antt =====
-- Concrete runs of a world with two entities in one archetype.
use oyi_engine.Prelude.{
  if◌then◌else◌, ℕ, zero, suc, ◌≡◌, refl, true, false, none, some, some-injective, subst, count, [],
  ◌∷◌, get_elem?, ok, arith,
}
use oyi_engine.Core.Handle
use oyi_engine.Core.Handle.{Handle}
use oyi_engine.Ecs.EntityRegistry.{
  Location, Registry, is_alive, get_location, matches, slot_location,
}
use oyi_engine.Ecs.EntityRegistry.Invariant as registry
use oyi_engine.Ecs.ComponentMask
use oyi_engine.Ecs.ChunkLayout
use oyi_engine.Ecs.ChunkLayout.{Layout}
use oyi_engine.Ecs.Archetype.{Archetype, row_in}
use oyi_engine.Ecs.World.{World, Memory, destroy_entity}
use oyi_engine.Ecs.World.Components.{row_of}
use oyi_engine.Ecs.World.Invariant.{IsValid, IsArchetype, entity_at}
use oyi_engine.Ecs.World.Destroy.{destroy_entity_refines}

abbrev layout : Layout
layout = record {
  types = 0 ∷ [];
  columns = record { type = 0; slot = 0; offset = 128; size = 1; default = none } ∷ [];
  chunk_components = [];
  chunk_size = 256;
  capacity = 5;
  version_offset = 0;
  enable_offset = 8;
  enable_words = 1;
  entity_offset = 64;
  used_bytes = 133;
}

abbrev first : Handle
first = record { index = 0; generation = 1 }

abbrev second : Handle
second = record { index = 1; generation = 1 }

abbrev at : ℕ → Location
at i = record { archetype = 0; chunk = 0; row = i }

abbrev archetype : Archetype
archetype = record {
  index = 0;
  prototype = false;
  mask = 1 ∷ 0 ∷ 0 ∷ 0 ∷ [];
  layout = layout;
  chunks =
      record {
        versions = 1 ∷ [];
        chunk_cells = [];
        rows =
            record { entity = first; cells = (7 ∷ []) ∷ []; enabled = true ∷ [] }
            ∷ record { entity = second; cells = (8 ∷ []) ∷ []; enabled = true ∷ [] }
            ∷ [];
      }
      ∷ [];
  entity_count = 2;
}

abbrev entities : Registry
entities = record {
  slots =
      record { generation = 1; alive = true; location = at 0 }
      ∷ record { generation = 1; alive = true; location = at 1 }
      ∷ [];
  free_indices = [];
  alive_count = 2;
}

abbrev world : World
world = record {
  infos =
      record { type_id = 11; size = 1; align = 1; flags = 0; layout_hash = 5; default = none } ∷ [];
  chunk_size = 256;
  entities = entities;
  archetypes = archetype ∷ [];
  marks = [];
  version = 3;
}

get_location-entities :
    (e : Handle) (l : Location)
    → get_location entities e ≡ some l
    → entity_at (archetype ∷ []) l ≡ some e
unfolding get_location is_alive matches slot_location row_in
get_location-entities e l h = ground (arith, h)

entity_at-archetype :
    (e : Handle) (l : Location)
    → entity_at (archetype ∷ []) l ≡ some e
    → get_location entities e ≡ some l
unfolding get_location is_alive matches slot_location row_in
entity_at-archetype e l h = ground (arith, h)

free : (i : ℕ) → count i [] ≡ registry.dead_slot (get_elem? entities.slots i)
free zero = refl
free (suc zero) = refl
free (suc (suc i)) = refl

archetype-IsArchetype : IsArchetype 0 archetype
archetype-IsArchetype = (
  record {
    packed = (omega arith, omega arith);
    capacity = omega arith;
    counted = refl;
    small = omega arith;
  },
  refl,
)

found : (i : ℕ) (a : Archetype) → get_elem? (archetype ∷ []) i ≡ some a → IsArchetype i a
found zero a h = subst (IsArchetype 0) (some-injective archetype a h) archetype-IsArchetype
found (suc i) a h = cc

world-IsValid : IsValid world
world-IsValid = record {
  registry = record {
    size = omega arith;
    generations = ((omega arith, omega arith), ((omega arith, omega arith), tt));
    free_exact = free;
    counted = refl;
  };
  archetypes = found;
  agree = λ e l. (get_location-entities e l, entity_at-archetype e l);
}

first-is_alive : is_alive entities first ≡ true
unfolding is_alive matches
first-is_alive = refl

destroy_entity_refines_example :
    (t : World) × (destroy_entity world first ≡ some (ok tt, t))
    × IsValid t
    × ((f : Handle)
        → (is_alive t.entities f
            ≡ (if Handle.equal first f then false else is_alive world.entities f))
          × (row_of t f ≡ (if Handle.equal first f then none else row_of world f)))
destroy_entity_refines_example = destroy_entity_refines world first world-IsValid first-is_alive

abbrev granted : Memory
granted = record { archetype = true; chunk = true }
